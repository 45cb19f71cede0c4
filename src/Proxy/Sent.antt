-- ===== src/Proxy/Sent.antt =====
-- The headers of the request that is sent to the pod.
use calinix.Hash.{Text}
use calinix.Http.{HeaderMaps, IsHeaderMap, values_of}
use calinix.Prelude.Results.{ok, bind-ok, ok-injective, err-ok}
use calinix.Protocol.Injected.{Holds}
use calinix.Proxy.{
  ForwardError, host_header_invalid, length_header_invalid, UpstreamRequest, host_name,
  content_length_name, connection_name, is_own_header, header_value, copy_headers, own_headers,
  build_request,
}
use calinix.Text.{same_text, same_text-true}
use calinix.Text.Literals.{chars, to_string}
use calinix.Prelude.{
  ℕ, ◌≡◌, refl, sym, ap, ap₂, ◌∙◌, subst, inl, inr, true, false, Option, none, some, List, [], ◌∷◌,
  ◌++◌, arith, if◌then◌else◌, Bool-cases, length,
}

-- The last value, or what stood there before.
abbrev pub latest {ℓ} : {V : Type ℓ} → List V → List V → List V
latest [] old = old
latest (v ∷ vs) old = latest vs (v ∷ [])

module _ {H V : Type 0} (hm : HeaderMaps H V) (law : IsHeaderMap hm) where
  copy_headers-own :
      (entries : List (Text × V)) (sent : H) (m : Text)
      → is_own_header m ≡ true
      → hm.get_all (copy_headers hm entries sent) m ≡ hm.get_all sent m
  unfolding copy_headers
  copy_headers-own [] sent m own = refl
  copy_headers-own ((name, value) ∷ entries) sent m own = elim (Bool-cases (is_own_header name)) [
    | inl skipped ↦ rw skipped (copy_headers-own entries sent m own)
    | inr copied ↦ elim (Bool-cases (same_text name m)) [
      | inl same ↦ absurd (ground (arith, ap is_own_header (same_text-true name m same)))
      | inr other ↦ rw copied (
          copy_headers-own entries (hm.insert sent name value) m own
          ∙ (law.get_all-insert sent name value m ∙ rw other refl))
    ]
  ]

  copy_headers-other :
      (entries : List (Text × V)) (sent : H) (m : Text)
      → is_own_header m ≡ false
      → hm.get_all (copy_headers hm entries sent) m
        ≡ latest (values_of m entries) (hm.get_all sent m)
  unfolding copy_headers
  copy_headers-other [] sent m other = refl
  copy_headers-other ((name, value) ∷ entries) sent m other = elim (Bool-cases (same_text name m)) [
    | inl same ↦
        rw (ap is_own_header (same_text-true name m same) ∙ other, same)
          (copy_headers-other entries (hm.insert sent name value) m other
            ∙ ap (latest (values_of m entries))
                (law.get_all-insert sent name value m ∙ rw same refl))
    | inr different ↦ elim (Bool-cases (is_own_header name)) [
      | inl skipped ↦ rw (skipped, different) (copy_headers-other entries sent m other)
      | inr copied ↦
          rw (copied, different)
            (copy_headers-other entries (hm.insert sent name value) m other
              ∙ ap (latest (values_of m entries))
                  (law.get_all-insert sent name value m ∙ rw different refl))
    ]
  ]

module _ {H V : Type 0} (hm : HeaderMaps H V) where
  -- The request has the method, the URI and the body, the proxy's own three headers, and of every
  -- other name the last value that the given headers have.
  pub record IsSent {U : Type 0} (given : H) (method : Text) (uri : U) (host : Text) (port : ℕ)
      (body : List ℕ) (request : UpstreamRequest H U) : Type 0 where
    pub holds_method : request.method ≡ method
    pub holds_uri : request.uri ≡ uri
    pub holds_host : Holds hm request.headers host_name (host ++ (chars ":" ++ to_string port))
    pub holds_length : Holds hm request.headers content_length_name (to_string (length body))
    pub holds_connection :
        hm.get_all request.headers connection_name ≡ hm.from_static (chars "close") ∷ []
    pub holds_others :
        (m : Text)
        → is_own_header m ≡ false
        → hm.get_all request.headers m ≡ latest (hm.get_all given m) []
    pub holds_body : request.body ≡ body

header_value-ok :
    {V : Type 0} (e : ForwardError) (o : Option V) (v : V) → header_value e o ≡ ok v → o ≡ some v
unfolding header_value
header_value-ok e none v h = err-ok h
header_value-ok e (some w) v h = ap some (ok-injective {E = ForwardError} h)

own-ne :
    (name m : Text) → is_own_header name ≡ true → is_own_header m ≡ false → same_text name m ≡ false
own-ne name m own other = elim (Bool-cases (same_text name m)) [
  | inl same ↦ absurd (ground (arith, ap is_own_header (same_text-true name m same)))
  | inr different ↦ different
]

module _ {H V : Type 0} (hm : HeaderMaps H V) (law : IsHeaderMap hm) where
  abbrev three_headers : V → V → H
  three_headers host_value length_value =
      hm.insert
        (hm.insert (hm.insert hm.empty host_name host_value) content_length_name length_value)
        connection_name (hm.from_static (chars "close"))

  three_headers-get_all :
      (host_value length_value : V) (m : Text)
      → hm.get_all (three_headers host_value length_value) m ≡ (
          if same_text connection_name m
          then hm.from_static (chars "close") ∷ []
          else if same_text content_length_name m
          then length_value ∷ []
          else if same_text host_name m
          then host_value ∷ []
          else [])
  three_headers-get_all host_value length_value m =
      rw (law.get_all-insert, law.get_all-insert, law.get_all-insert, law.get_all-empty) refl

  pub build_request-IsSent :
      {U : Type 0} (method : Text) (uri : U) (host : Text) (port : ℕ) (headers : H) (body : List ℕ)
      (request : UpstreamRequest H U)
      → build_request hm method uri host port headers body ≡ ok request
      → IsSent hm headers method uri host port body request
  unfolding build_request own_headers same_text is_own_header
  build_request-IsSent method uri host port headers body request h =
      let (sent, made, same) = bind-ok (own_headers hm host port body) _ request h in
      let (hv, host_made, rest) =
        bind-ok
          (header_value host_header_invalid (hm.from_str (host ++ (chars ":" ++ to_string port)))) _
          sent made in
      let (lv, length_made, written) =
        bind-ok (header_value length_header_invalid (hm.from_str (to_string (length body)))) _ sent
          rest in
      subst (IsSent hm headers method uri host port body) (ok-injective {E = ForwardError} same) (
        subst
          (λ s. IsSent hm headers method uri host port body (record {
            method = method;
            uri = uri;
            headers = copy_headers hm (hm.entries headers) s;
            body = body;
          }))
          (ok-injective {E = ForwardError} written)
          (record {
            holds_method = refl;
            holds_uri = refl;
            holds_host = (
              hv,
              header_value-ok host_header_invalid _ hv host_made,
              copy_headers-own hm law (hm.entries headers) _ host_name refl
                  ∙ three_headers-get_all hv lv host_name,
            );
            holds_length = (
              lv,
              header_value-ok length_header_invalid _ lv length_made,
              copy_headers-own hm law (hm.entries headers) _ content_length_name refl
                  ∙ three_headers-get_all hv lv content_length_name,
            );
            holds_connection =
                copy_headers-own hm law (hm.entries headers) _ connection_name refl
                ∙ three_headers-get_all hv lv connection_name;
            holds_others = λ m other.
                copy_headers-other hm law (hm.entries headers) _ m other
                ∙ ap₂ latest (sym (law.get_all-entries headers m)) (
                    three_headers-get_all hv lv m
                    ∙ rw
                        (
                          own-ne connection_name m refl other,
                          own-ne content_length_name m refl other,
                          own-ne host_name m refl other,
                        )
                        refl);
            holds_body = refl;
          }))
