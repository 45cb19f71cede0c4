-- ===== src/App/Endpoint/Returned.antt =====
-- The headers of the response to the client.
use calinix.App.Endpoint.{
  is_hop_by_hop_response_header, is_router_header, relay_headers, add_router_headers,
  response_headers,
}
use calinix.Hash.{Text}
use calinix.Http.{HeaderMaps, IsHeaderMap, values_of}
use calinix.Text.{same_text, strip_prefix, same_text-true, same_text_refl}
use calinix.Text.Literals.{chars}
use calinix.Text.Splitting.{strip_prefix-append, strip_prefix-some}
use calinix.Prelude.{
  ◌≡◌, refl, sym, ap, ap₂, ◌∙◌, ◌↔◌, ◌⊎◌, inl, inr, Bool, true, false, not, ◌||◌, List, [], ◌∷◌,
  ◌++◌, append_assoc, append-nil, arith, if◌then◌else◌, Bool-cases, Option-cases,
}

-- The headers of the connection to the pod, which is not the client's.
abbrev pub connection_headers : List Text
connection_headers =
    chars "connection"
    ∷ chars "keep-alive"
    ∷ chars "proxy-authenticate"
    ∷ chars "proxy-authorization"
    ∷ chars "te"
    ∷ chars "trailer"
    ∷ chars "transfer-encoding"
    ∷ chars "upgrade"
    ∷ chars "content-length"
    ∷ []

abbrev pub IsOneOf : Text → List Text → Type 0
IsOneOf m [] = ⊥
IsOneOf m (name ∷ names) = (m ≡ name) ⊎ IsOneOf m names

-- The name starts with the router's prefix.
abbrev pub IsOfRouter : Text → Type 0
IsOfRouter m = (rest : Text) × (m ≡ chars "x-calinix-" ++ rest)

-- The first value where the condition holds, and else the second.
abbrev pub IsChosen : {A : Type 0} → Type 0 → A → A → A → Type 0
IsChosen P first second a = (P × (a ≡ first)) ⊎ ((P → ⊥) × (a ≡ second))

if-IsChosen :
    {A : Type 0} (b : Bool) (P : Type 0) (first second : A)
    → (b ≡ true) ↔ P
    → IsChosen P first second (if b then first else second)
if-IsChosen true P first second same = inl (same.0 refl, refl)
if-IsChosen false P first second same =
    inr (λ v. let wrong = same.1 v in absurd (ground arith), refl)

abbrev one_of : Text → List Text → Bool
one_of m [] = false
one_of m (name ∷ names) = same_text m name || one_of m names

one_of-IsOneOf : (m : Text) (names : List Text) → one_of m names ≡ true → IsOneOf m names
one_of-IsOneOf m [] h = absurd (ground arith)
one_of-IsOneOf m (name ∷ names) h = elim (Bool-cases (same_text m name)) [
  | inl same ↦ inl (same_text-true m name same)
  | inr other ↦ inr (one_of-IsOneOf m names (ground arith))
]

IsOneOf-one_of : (m : Text) (names : List Text) → IsOneOf m names → one_of m names ≡ true
IsOneOf-one_of m [] v = absurd v
IsOneOf-one_of m (name ∷ names) (inl same) =
    rw (ap (same_text m) (sym same) ∙ same_text_refl m) refl
IsOneOf-one_of m (name ∷ names) (inr later) = ground (arith, IsOneOf-one_of m names later)

hop_by_hop-one_of : (m : Text) → is_hop_by_hop_response_header m ≡ one_of m connection_headers
unfolding is_hop_by_hop_response_header
hop_by_hop-one_of m = ground arith

is_router_header-IsOfRouter : (m : Text) → (is_router_header m ≡ true) ↔ IsOfRouter m
unfolding is_router_header
is_router_header-IsOfRouter m = elim (Option-cases (strip_prefix (chars "x-calinix-") m)) [
  | inl missing ↦
      rw (missing, is_router_header)
        (
          λ h. absurd (ground arith),
          λ v.
              let found = sym (ap (strip_prefix (chars "x-calinix-")) v.1) ∙ missing in
              absurd (ground (arith, strip_prefix-append (chars "x-calinix-") v.0)),
        )
  | inr (rest, found) ↦
      rw (found, is_router_header)
        (λ h. (rest, strip_prefix-some (chars "x-calinix-") m rest found), λ v. refl)
]

module _ {H V : Type 0} (hm : HeaderMaps H V) (law : IsHeaderMap hm) where
  -- A loop that appends the entries whose names pass a test.
  append_if : (Text → Bool) → List (Text × V) → H → H
  append_if test [] response = response
  append_if test ((name, value) ∷ entries) response =
      append_if test entries (if test name then hm.append response name value else response)

  appended :
      (response : H) (name : Text) (value : V) (m : Text) (b : Bool)
      → same_text name m ≡ b
      → hm.get_all (hm.append response name value) m
        ≡ (if b then hm.get_all response m ++ value ∷ [] else hm.get_all response m)
  appended response name value m b same = law.get_all-append response name value m ∙ rw same refl

  append_if-get_all :
      (test : Text → Bool) (entries : List (Text × V)) (response : H) (m : Text)
      → hm.get_all (append_if test entries response) m
        ≡ hm.get_all response m ++ (if test m then values_of m entries else [])
  unfolding append_if
  append_if-get_all test [] response m = elim (Bool-cases (test m)) [
    | inl passes ↦ rw passes (sym (append-nil _))
    | inr fails ↦ rw fails (sym (append-nil _))
  ]
  append_if-get_all test ((name, value) ∷ entries) response m =
      elim (Bool-cases (same_text name m)) [
        | inr other ↦ elim (Bool-cases (test name)) [
          | inl passes ↦
              rw (passes, other)
                (append_if-get_all test entries (hm.append response name value) m
                  ∙ ap (λ vs. vs ++ (if test m then values_of m entries else []))
                      (appended response name value m false other))
          | inr fails ↦ rw (fails, other) (append_if-get_all test entries response m)
        ]
        | inl same ↦
            let named : test name ≡ test m = ap test (same_text-true name m same) in
            elim (Bool-cases (test m)) [
              | inl passes ↦
                  rw (named, passes, same)
                    (append_if-get_all test entries (hm.append response name value) m
                      ∙ (ap (λ vs. vs ++ (if test m then values_of m entries else []))
                            (appended response name value m true same)
                          ∙ rw passes (
                              append_assoc (hm.get_all response m) (value ∷ [])
                                (values_of m entries))))
              | inr fails ↦
                  rw (named, fails) (append_if-get_all test entries response m ∙ rw fails refl)
            ]
      ]

  abbrev is_relayed : Text → Bool
  is_relayed name = not (is_hop_by_hop_response_header name)

  relay_headers-append_if :
      (entries : List (Text × V)) (response : H)
      → relay_headers hm entries response ≡ append_if is_relayed entries response
  unfolding relay_headers append_if
  relay_headers-append_if [] response = refl
  relay_headers-append_if ((name, value) ∷ entries) response =
      elim (Bool-cases (is_hop_by_hop_response_header name)) [
        | inl hop ↦ rw hop (relay_headers-append_if entries response)
        | inr end ↦ rw end (relay_headers-append_if entries (hm.append response name value))
      ]

  add_router_headers-append_if :
      (entries : List (Text × V)) (response : H)
      → add_router_headers hm entries response ≡ append_if is_router_header entries response
  unfolding add_router_headers append_if
  add_router_headers-append_if [] response = refl
  add_router_headers-append_if ((name, value) ∷ entries) response =
      add_router_headers-append_if entries
        (if is_router_header name then hm.append response name value else response)

  relay_headers-get_all :
      (upstream : H) (m : Text)
      → hm.get_all (relay_headers hm (hm.entries upstream) hm.empty) m
        ≡ (if is_hop_by_hop_response_header m then [] else hm.get_all upstream m)
  relay_headers-get_all upstream m =
      ap (λ h. hm.get_all h m) (relay_headers-append_if (hm.entries upstream) hm.empty)
      ∙ (append_if-get_all is_relayed (hm.entries upstream) hm.empty m ∙ bridge)
    where
      swapped : (b : Bool) (vs : List V) → (if not b then vs else []) ≡ (if b then [] else vs)
      swapped true vs = refl
      swapped false vs = refl

      bridge :
          hm.get_all hm.empty m ++ (if is_relayed m then values_of m (hm.entries upstream) else [])
          ≡ (if is_hop_by_hop_response_header m then [] else hm.get_all upstream m)
      bridge =
          rw (law.get_all-empty m, law.get_all-entries upstream m)
            (swapped (is_hop_by_hop_response_header m) (values_of m (hm.entries upstream)))

  response_headers_lem :
      (upstream forwarded : H) (m : Text)
      → hm.get_all (response_headers hm upstream forwarded) m
        ≡ (if is_hop_by_hop_response_header m then [] else hm.get_all upstream m)
          ++ (if is_router_header m then hm.get_all forwarded m else [])
  unfolding response_headers
  response_headers_lem upstream forwarded m =
      let relayed = relay_headers hm (hm.entries upstream) hm.empty in
      ap (λ h. hm.get_all h m) (add_router_headers-append_if (hm.entries forwarded) relayed)
      ∙ (append_if-get_all is_router_header (hm.entries forwarded) relayed m
          ∙ ap₂ (λ xs ys. xs ++ (if is_router_header m then ys else []))
              (relay_headers-get_all upstream m) (sym (law.get_all-entries forwarded m)))

  -- The response has, of every name, first the values that the pod gave, unless the name is one of the
  -- nine headers of the pod's own connection, and after them, if the name starts with `x-calinix-`,
  -- those that the forwarded headers have; there are no others.
  pub response_headers-get_all :
      (upstream forwarded : H) (m : Text)
      → (relayed added : List V) × (hm.get_all (response_headers hm upstream forwarded) m
          ≡ relayed ++ added)
        × IsChosen (IsOneOf m connection_headers) [] (hm.get_all upstream m) relayed
        × IsChosen (IsOfRouter m) (hm.get_all forwarded m) [] added
  response_headers-get_all upstream forwarded m = (
    (if is_hop_by_hop_response_header m then [] else hm.get_all upstream m),
    (if is_router_header m then hm.get_all forwarded m else []),
    response_headers_lem upstream forwarded m,
    if-IsChosen _ _ _ _ (
      λ h. one_of-IsOneOf m connection_headers (sym (hop_by_hop-one_of m) ∙ h),
      λ v. hop_by_hop-one_of m ∙ IsOneOf-one_of m connection_headers v,
    ),
    if-IsChosen _ _ _ _ (is_router_header-IsOfRouter m),
  )
