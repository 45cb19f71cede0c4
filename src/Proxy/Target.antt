-- ===== src/Proxy/Target.antt =====
-- What the address of a pod and the path of a request say of where the request goes.
use calinix.Hash.{Text}
use calinix.Prelude.Results.{err, ok, ◌>>=◌, bind-ok, ok-injective, err-ok}
use calinix.Proxy.{
  ForwardError, not_http, port_invalid, authority_and_path, host_and_port, parse_http_url,
  normalize_path, request_path, upstream_target,
}
use calinix.Text.{
  strip_prefix, split_once, starts_with, trim_end_matches, parse_u16, same_text, same_text-true,
}
use calinix.Text.Literals.{chars}
use calinix.Text.Splitting.{Lacks, IsSplit, split_once-IsSplit, strip_prefix-some}
use calinix.Prelude.{
  ℕ, ◌≡◌, refl, sym, ap, ◌∙◌, subst, ◌⊎◌, inl, inr, Option, none, some, [], ◌∷◌, ◌++◌, append-nil,
  if◌then◌else◌, Bool-cases,
}

-- The authority is a host and a port, or a host alone, whose port is 80.
abbrev pub IsAuthority : Text → Text → ℕ → Type 0
IsAuthority authority host port =
    ((authority ≡ host) × (Lacks 58 authority × (port ≡ 80)))
    ⊎ ((digits : Text) × (authority ≡ host ++ 58 ∷ digits)
        × (Lacks 58 host × (parse_u16 digits ≡ some port)))

-- The address is a URL of an authority and a path, or of an authority alone; `base` is the path
-- without its first slash.
pub record IsAddress (address host : Text) (port : ℕ) (base : Text) : Type 0 where
  pub authority : Text
  pub path : Text
  pub is_url : address ≡ chars "http://" ++ (authority ++ path)
  pub no_slash : Lacks 47 authority
  pub is_path : ((path ≡ []) × (base ≡ [])) ⊎ (path ≡ 47 ∷ base)
  pub is_authority : IsAuthority authority host port

-- The path that is sent: the base without its last slashes, and the path of the request, which gets a
-- slash if it has none in front.
abbrev pub sent_path : Text → Text → Text
sent_path base path =
    trim_end_matches 47 (47 ∷ base) ++ (if starts_with 47 path then path else 47 ∷ path)

request_path-sent_path : (base path : Text) → request_path (47 ∷ base) path ≡ sent_path base path
unfolding request_path normalize_path trim_end_matches
request_path-sent_path base path = elim (Bool-cases (same_text (47 ∷ base) (chars "/"))) [
  | inl root ↦
      let empty : base ≡ [] =
        ap (λ (t : Text). elim t [ [] ↦ [] | c ∷ cs ↦ cs ])
          (same_text-true (47 ∷ base) (chars "/") root) in
      rw (root, empty) refl
  | inr longer ↦ rw longer refl
]

host_and_port-IsAuthority :
    (url authority : Text) (place : Text × ℕ)
    → host_and_port url authority ≡ ok place
    → IsAuthority authority place.0 place.1
unfolding host_and_port
host_and_port-IsAuthority url authority place h =
    read (split_once 58 authority) (split_once-IsSplit 58 authority) h
  where
    port_read :
        (host digits : Text)
        → Lacks 58 host
        → authority ≡ host ++ 58 ∷ digits
        → (n : Option ℕ) → parse_u16 digits ≡ n
        → elim n [ none ↦ err (port_invalid url) | some m ↦ ok (host, m) ] ≡ ok place
        → IsAuthority authority place.0 place.1
    port_read host digits lacks split none parsed got = err-ok got
    port_read host digits lacks split (some m) parsed got =
        subst (λ (p : Text × ℕ). IsAuthority authority p.0 p.1)
          (ok-injective {E = ForwardError} got) (inr (digits, split, (lacks, parsed)))

    read :
        (o : Option (Text × Text))
        → IsSplit 58 authority o
        → elim o [
          | none ↦ ok (authority, 80)
          | some (host, port) ↦ elim (parse_u16 port) [
            | none ↦ err (port_invalid url)
            | some n ↦ ok (host, n)
          ]
        ]
          ≡ ok place
        → IsAuthority authority place.0 place.1
    read none lacks got =
        subst (λ (p : Text × ℕ). IsAuthority authority p.0 p.1)
          (ok-injective {E = ForwardError} got) (inl (refl, (lacks, refl)))
    read (some (host, digits)) (split, lacks) got =
        port_read host digits lacks split (parse_u16 digits) refl got

abbrev parts_of : Text → Option (Text × Text) → Text × Text
parts_of rest none = (rest, [])
parts_of rest (some p) = p

-- The rest after the scheme is the authority and the path.
authority_and_path-IsSplit :
    (rest : Text)
    → Lacks 47 (authority_and_path rest).0
      × ((path : Text) × (rest ≡ (authority_and_path rest).0 ++ path)
          × (((path ≡ []) × ((authority_and_path rest).1 ≡ []))
              ⊎ (path ≡ 47 ∷ (authority_and_path rest).1)))
unfolding authority_and_path
authority_and_path-IsSplit rest = read (split_once 47 rest) (split_once-IsSplit 47 rest)
  where
    read :
        (o : Option (Text × Text))
        → IsSplit 47 rest o
        → Lacks 47 (parts_of rest o).0
          × ((path : Text) × (rest ≡ (parts_of rest o).0 ++ path)
              × (((path ≡ []) × ((parts_of rest o).1 ≡ [])) ⊎ (path ≡ 47 ∷ (parts_of rest o).1)))
    read none lacks = (lacks, ([], sym (append-nil rest), inl (refl, refl)))
    read (some p) (split, lacks) = (lacks, (47 ∷ p.1, split, inr refl))

parse_http_url-IsAddress :
    (address : Text) (parts : Text × ℕ × Text)
    → parse_http_url address ≡ ok parts
    → (base : Text) × IsAddress address parts.0 parts.1 base × (parts.2 ≡ 47 ∷ base)
unfolding parse_http_url
parse_http_url-IsAddress address parts h = read (strip_prefix (chars "http://") address) refl h
  where
    read :
        (o : Option Text)
        → strip_prefix (chars "http://") address ≡ o
        → elim o [
          | none ↦ err (not_http address)
          | some rest ↦ host_and_port address (authority_and_path rest).0 >>= λ place.
              ok (place.0, place.1, 47 ∷ (authority_and_path rest).1)
        ]
          ≡ ok parts
        → (base : Text) × IsAddress address parts.0 parts.1 base × (parts.2 ≡ 47 ∷ base)
    read none missing got = err-ok got
    read (some rest) found got =
        let (place, placed, made) =
          bind-ok (host_and_port address (authority_and_path rest).0) _ parts got in
        let (lacks, (path, split, is_path)) = authority_and_path-IsSplit rest in
        let base = (authority_and_path rest).1 in
        subst
          (λ (p : Text × ℕ × Text).
            (base : Text) × IsAddress address p.0 p.1 base × (p.2 ≡ 47 ∷ base))
          (ok-injective {E = ForwardError} made)
          (
            base,
            record {
              authority = (authority_and_path rest).0;
              path = path;
              is_url =
                  strip_prefix-some (chars "http://") address rest found
                  ∙ ap (λ t. chars "http://" ++ t) split;
              no_slash = lacks;
              is_path = is_path;
              is_authority =
                  host_and_port-IsAuthority address (authority_and_path rest).0 place placed;
            },
            refl,
          )

pub upstream_target-IsAddress :
    (address path : Text) (place : Text × ℕ × Text)
    → upstream_target address path ≡ ok place
    → (base : Text) × IsAddress address place.0 place.1 base × (place.2 ≡ sent_path base path)
unfolding upstream_target
upstream_target-IsAddress address path place h =
    let (parts, parsed, made) = bind-ok (parse_http_url address) _ place h in
    let (base, is_address, tail) = parse_http_url-IsAddress address parts parsed in
    subst
      (λ (p : Text × ℕ × Text).
        (base : Text) × IsAddress address p.0 p.1 base × (p.2 ≡ sent_path base path))
      (ok-injective {E = ForwardError} made)
      (base, is_address, ap (λ t. request_path t path) tail ∙ request_path-sent_path base path)
