-- ===== src/Base.antt =====
-- src/base: the prototype, with an index of 256 fixed shards, a query over it, a router that plans
-- by roles and depths, and a summary of measured times.
pub mod Indexer
pub mod Search
pub mod Router
pub mod Naive
