-- ===== src/Tests.antt =====
-- Runs of the operations on small inputs, and an example of each result that has conditions.
pub mod Bitmaps
pub mod Hashes
pub mod Indexes
pub mod Queries
pub mod Registries
pub mod Upstreams
pub mod Scores
pub mod Headers
pub mod Protocols
pub mod Requests
pub mod Bases
