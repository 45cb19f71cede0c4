-- ===== src/Upstream/Urls/Parts.antt =====
-- The URL of a pod, put together and taken apart.
use calinix.Hash.{Text}
use calinix.Prelude.Results.{err, ok}
use calinix.Text.{starts_with, parse_u16}
use calinix.Text.Splitting.{
  Lacks, strip_prefix-append, split_once-append, split_once-Lacks, Lacks-append,
  starts_with-trim_end_matches,
}
use calinix.Upstream.Urls.{
  port_invalid, http_scheme, split_path, parse_authority, parse_http_url, normalize_path, is_root,
  join_paths,
}
use calinix.Prelude.{◌≡◌, ◌∙◌, inl, inr, true, none, some, ◌∷◌, ◌++◌, arith, Bool-cases}

authority_found :
    (authority path : Text)
    → Lacks 47 authority
    → parse_http_url (http_scheme ++ (authority ++ 47 ∷ path))
      ≡ parse_authority (http_scheme ++ (authority ++ 47 ∷ path)) authority path
unfolding parse_http_url split_path
authority_found authority path v =
    rw (strip_prefix-append http_scheme (authority ++ 47 ∷ path), parse_http_url)
      (rw (split_once-append 47 authority path v, split_path))

-- A URL that is put together from a host, a port or none, and a path is taken apart into them,
-- where the host has no `:` or `/` and the port no `/`; a missing port is 80, and a port that is not
-- a u16 number is an error.
pub parse_http_url-parts :
    (host port path : Text)
    → Lacks 47 host
    → Lacks 58 host
    → Lacks 47 port
    → (parse_http_url (http_scheme ++ (host ++ 47 ∷ path)) ≡ ok (host, 80, 47 ∷ path))
      × (let url = http_scheme ++ ((host ++ 58 ∷ port) ++ 47 ∷ path) in
          parse_http_url url ≡ elim (parse_u16 port) [
            | none ↦ err (port_invalid url)
            | some n ↦ ok (host, n, 47 ∷ path)
          ])
unfolding parse_authority
parse_http_url-parts host port path slash colon port_slash = (
  authority_found host path slash ∙ rw (split_once-Lacks 58 host colon, parse_authority),
  authority_found (host ++ 58 ∷ port) path
        (Lacks-append 47 host (58 ∷ port) slash (ground arith, port_slash))
      ∙ rw (split_once-append 58 host port colon, parse_authority),
)

starts_with-normalize_path : (path : Text) → starts_with 47 (normalize_path path) ≡ true
unfolding normalize_path
starts_with-normalize_path path = elim (Bool-cases (starts_with 47 path)) [
  | inl slash ↦ rw (slash, normalize_path) slash
  | inr other ↦ rw (other, normalize_path) (unfold starts_with in ground arith)
]

-- The path of a health check starts with a slash, whatever the pod's base path and the endpoint.
pub join_paths-absolute :
    (base_path endpoint : Text) → starts_with 47 (join_paths base_path endpoint) ≡ true
unfolding join_paths
join_paths-absolute base_path endpoint = elim (Bool-cases (is_root (normalize_path base_path))) [
  | inl root ↦ rw (root, join_paths) (starts_with-normalize_path endpoint)
  | inr longer ↦ elim (Bool-cases (is_root (normalize_path endpoint))) [
    | inl end ↦ rw (longer, end, join_paths) (starts_with-normalize_path base_path)
    | inr both ↦
        rw (longer, both, join_paths)
          (starts_with-trim_end_matches 47 47 (normalize_path base_path) (normalize_path endpoint)
            (starts_with-normalize_path base_path) (starts_with-normalize_path endpoint))
  ]
]
