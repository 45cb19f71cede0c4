-- ===== src/Upstream/Urls.antt =====
-- src/calinix/upstream/health.rs: the parts of a pod's URL and the path of its health check.
pub mod Parts
use calinix.Hash.{Text}
use calinix.Prelude.Results.{Result, err, ok}
use calinix.Text.{strip_prefix, split_once, starts_with, trim_end_matches, parse_u16}
use calinix.Prelude.{ℕ, Bool, false, none, some, [], ◌∷◌, ◌++◌, ◌==◌, if◌then◌else◌}

-- The messages, by what they say.
pub data UrlError : Type 0 where
  not_http : Text → UrlError
  port_invalid : Text → UrlError

-- "http://"
abbrev pub http_scheme : Text
http_scheme = 104 ∷ 116 ∷ 116 ∷ 112 ∷ 58 ∷ 47 ∷ 47 ∷ []

-- `split_once('/').unwrap_or((rest, ""))`
unfoldable pub split_path : Text → Text × Text
split_path rest = elim (split_once 47 rest) [ none ↦ (rest, []) | some parts ↦ parts ]

-- Host, port and path.
unfoldable pub parse_authority : Text → Text → Text → Result UrlError (Text × ℕ × Text)
parse_authority url authority path = elim (split_once 58 authority) [
  | none ↦ ok (authority, 80, 47 ∷ path)
  | some (host, port) ↦ elim (parse_u16 port) [
    | none ↦ err (port_invalid url)
    | some n ↦ ok (host, n, 47 ∷ path)
  ]
]

unfoldable pub parse_http_url : Text → Result UrlError (Text × ℕ × Text)
parse_http_url url = elim (strip_prefix http_scheme url) [
  | none ↦ err (not_http url)
  | some rest ↦ let (authority, path) = split_path rest in parse_authority url authority path
]

unfoldable pub normalize_path : Text → Text
normalize_path path = if starts_with 47 path then path else 47 ∷ path

-- `path == "/"`
unfoldable pub is_root : Text → Bool
is_root [] = false
is_root (c ∷ []) = c == 47
is_root (c ∷ d ∷ cs) = false

unfoldable pub join_paths : Text → Text → Text
join_paths base_path endpoint =
    let base = normalize_path base_path in
    let end = normalize_path endpoint in
    if is_root base then end else if is_root end then base else trim_end_matches 47 base ++ end
