-- ===== src/Protocol/Injected.antt =====
-- What the headers of a request hold after the injection.
use calinix.Hash.{Text}
use calinix.Http.{HeaderMaps, IsHeaderMap}
use calinix.Http.Laws.{named, remove_all, get_all-remove_all}
use calinix.Prelude.Results.{err, ok, Result-cases, err-ok}
use calinix.Protocol.{
  request_id_name, mode_name, target_pod_id_name, prefill_pod_id_name, decode_pod_id_name,
  cache_hit_name, cache_prefix_depth_name, cache_namespace_name, route_policy_name, owned_headers,
  CalinixMode, single_mode, disaggregated_mode, RoutingHeaderValues, HeaderError, invalid_value,
  as_str, text_or_default, validate, inject_routing_headers,
}
use calinix.Protocol.Validated.{IsComplete, validate-IsComplete}
use calinix.Text.{same_text}
use calinix.Text.Literals.{chars, to_string}
use calinix.Protocol.Writes.{
  insert_all, singleton, written, insert_values-insert_all, insert_all-AllWritable,
  insert_all-cases, insert_all-get_all, Lacks, named-Lacks, fields, AllWritable, namespace_field,
  pod_fields,
}
use calinix.Prelude.{
  ◌≡◌, refl, sym, ap, ◌∙◌, ◌⊎◌, inl, inr, false, Option, none, some, List, [], ◌∷◌, ◌++◌,
  if◌then◌else◌,
}

-- The map has exactly one value under the name, the one that the text makes; or none.
module _ {H V : Type 0} (hm : HeaderMaps H V) where
  abbrev pub Holds : H → Text → Text → Type 0
  Holds h name text = (v : V) × (hm.from_str text ≡ some v) × (hm.get_all h name ≡ v ∷ [])

  abbrev pub HoldsSome : H → Text → Option Text → Type 0
  HoldsSome h name none = hm.get_all h name ≡ []
  HoldsSome h name (some text) = Holds h name text

  abbrev pub HoldsPods : H → RoutingHeaderValues → CalinixMode → Type 0
  HoldsPods h values single_mode =
      Holds h target_pod_id_name (text_or_default values.target_pod_id)
      × (hm.get_all h prefill_pod_id_name ≡ [])
      × (hm.get_all h decode_pod_id_name ≡ [])
  HoldsPods h values disaggregated_mode =
      Holds h prefill_pod_id_name (text_or_default values.prefill_pod_id)
      × Holds h decode_pod_id_name (text_or_default values.decode_pod_id)
      × (hm.get_all h target_pod_id_name ≡ [])

  -- What the injection makes of a map.
  pub record IsInjected (old new : H) (values : RoutingHeaderValues) : Type 0 where
    pub holds_request_id : Holds new request_id_name values.request_id
    pub holds_mode : Holds new mode_name (as_str values.mode)
    pub holds_hit :
        Holds new cache_hit_name (if values.cache_hit then chars "true" else chars "false")
    pub holds_depth : Holds new cache_prefix_depth_name (to_string values.cache_prefix_depth)
    pub holds_policy : Holds new route_policy_name values.route_policy
    pub holds_namespace : HoldsSome new cache_namespace_name values.cache_namespace
    pub holds_pods : HoldsPods new values values.mode
    pub keeps_others :
        (m : Text) → named owned_headers m ≡ false → hm.get_all new m ≡ hm.get_all old m

abbrev tail_names : List Text
tail_names =
    cache_namespace_name ∷ target_pod_id_name ∷ prefill_pod_id_name ∷ decode_pod_id_name ∷ []

abbrev tail_fields : RoutingHeaderValues → Option Text → CalinixMode → List (Text × Text)
tail_fields values namespace mode = namespace_field namespace ++ pod_fields values mode

module _ {H V : Type 0} (hm : HeaderMaps H V) where
  -- Writes to other names.
  written-Lacks :
      (values : RoutingHeaderValues) (namespace : Option Text) (mode : CalinixMode) (m : Text)
      (old : List V)
      → Lacks tail_names m
      → written hm (tail_fields values namespace mode) m old ≡ old
  unfolding written
  written-Lacks values none single_mode m old (a, (b, (c, (d, _)))) = rw b refl
  written-Lacks values none disaggregated_mode m old (a, (b, (c, (d, _)))) = rw (c, d) refl
  written-Lacks values (some namespace) single_mode m old (a, (b, (c, (d, _)))) = rw (a, b) refl
  written-Lacks values (some namespace) disaggregated_mode m old (a, (b, (c, (d, _)))) =
      rw (a, c, d) refl

  written-other :
      (name text : Text) (fs : List (Text × Text)) (m : Text) (old : List V)
      → same_text name m ≡ false
      → written hm ((name, text) ∷ fs) m old ≡ written hm fs m old
  unfolding written
  written-other name text fs m old other =
      ap (λ b. written hm fs m (if b then singleton hm (hm.from_str text) else old)) other

  written-others :
      (values : RoutingHeaderValues) (m : Text) (old : List V)
      → named owned_headers m ≡ false
      → written hm (fields values) m (if named owned_headers m then [] else old) ≡ old
  written-others values m old other =
      let (a, (b, (c, (d, (e, (f, (g, (k, (l, _))))))))) = named-Lacks owned_headers m other in
      rw other (
        written-other _ _ _ m old a
        ∙ (written-other _ _ _ m old b
            ∙ (written-other _ _ _ m old f
                ∙ (written-other _ _ _ m old g
                    ∙ (written-other _ _ _ m old l
                        ∙ written-Lacks values values.cache_namespace values.mode m old
                            (k, (c, (d, (e, tt)))))))))

  -- A write that the later ones leave alone.
  written-Holds :
      (values : RoutingHeaderValues) (new : H) (name text : Text)
      → ((v : V) × (hm.from_str text ≡ some v))
      → hm.get_all new name
        ≡ written hm
            (tail_fields values values.cache_namespace values.mode)
            name
            (singleton hm (hm.from_str text))
      → Lacks tail_names name
      → Holds hm new name text
  written-Holds values new name text (v, parsed) same lacks = (
    v,
    parsed,
    same
        ∙ (written-Lacks values values.cache_namespace values.mode name _ lacks
            ∙ ap (singleton hm) parsed),
  )

  HoldsSome-tail :
      (values : RoutingHeaderValues) (namespace : Option Text) (mode : CalinixMode) (new : H)
      → AllWritable hm (tail_fields values namespace mode)
      → hm.get_all new cache_namespace_name
        ≡ written hm (tail_fields values namespace mode) cache_namespace_name []
      → HoldsSome hm new cache_namespace_name namespace
  unfolding written same_text
  HoldsSome-tail values none single_mode new w same = same
  HoldsSome-tail values none disaggregated_mode new w same = same
  HoldsSome-tail values (some namespace) single_mode new ((v, parsed), w) same =
      (v, parsed, same ∙ ap (singleton hm) parsed)
  HoldsSome-tail values (some namespace) disaggregated_mode new ((v, parsed), w) same =
      (v, parsed, same ∙ ap (singleton hm) parsed)

  -- The fields of the pods, after those of the namespace.
  pods_writable :
      (values : RoutingHeaderValues) (namespace : Option Text) (mode : CalinixMode)
      → AllWritable hm (tail_fields values namespace mode)
      → AllWritable hm (pod_fields values mode)
  pods_writable values none mode w = w
  pods_writable values (some namespace) mode w = w.1

  written-namespace :
      (namespace : Option Text) (fs : List (Text × Text)) (m : Text) (old : List V)
      → same_text cache_namespace_name m ≡ false
      → written hm (namespace_field namespace ++ fs) m old ≡ written hm fs m old
  unfolding written
  written-namespace none fs m old other = refl
  written-namespace (some namespace) fs m old other =
      ap (λ b. written hm fs m (if b then singleton hm (hm.from_str namespace) else old)) other

  HoldsPods-fields :
      (values : RoutingHeaderValues) (mode : CalinixMode) (new : H)
      → AllWritable hm (pod_fields values mode)
      → hm.get_all new target_pod_id_name
        ≡ written hm (pod_fields values mode) target_pod_id_name []
      → hm.get_all new prefill_pod_id_name
        ≡ written hm (pod_fields values mode) prefill_pod_id_name []
      → hm.get_all new decode_pod_id_name
        ≡ written hm (pod_fields values mode) decode_pod_id_name []
      → HoldsPods hm new values mode
  unfolding written same_text named
  HoldsPods-fields values single_mode new ((v, parsed), w) reads_target reads_prefill reads_decode =
      ((v, parsed, reads_target ∙ ap (singleton hm) parsed), reads_prefill, reads_decode)
  HoldsPods-fields values disaggregated_mode new ((v, parsed), ((w, parsed'), _)) reads_target
        reads_prefill reads_decode =
      (
        (v, parsed, reads_prefill ∙ ap (singleton hm) parsed),
        (w, parsed', reads_decode ∙ ap (singleton hm) parsed'),
        reads_target,
      )

module _ {H V : Type 0} (hm : HeaderMaps H V) (law : IsHeaderMap hm) where
  -- The writes after the removal of the owned headers.
  insert_all-IsInjected :
      (values : RoutingHeaderValues) (h : H)
      → AllWritable hm (fields values)
      → IsInjected hm h (insert_all hm (fields values) (remove_all hm owned_headers h)).0 values
  unfolding written same_text named
  insert_all-IsInjected values h w =
      let new = (insert_all hm (fields values) (remove_all hm owned_headers h)).0 in
      let (w₁, (w₂, (w₃, (w₄, (w₅, w₆))))) = w in
      let reads : (m : Text)
          → hm.get_all new m
            ≡ written hm (fields values) m (if named owned_headers m then [] else hm.get_all h m) =
        λ m.
          insert_all-get_all hm law (fields values) (remove_all hm owned_headers h) m w
          ∙ ap (written hm (fields values) m) (get_all-remove_all hm law owned_headers h m) in
      record {
        holds_request_id =
            written-Holds hm values new request_id_name values.request_id w₁ (reads request_id_name)
              (refl, (refl, (refl, (refl, tt))));
        holds_mode =
            written-Holds hm values new mode_name (as_str values.mode) w₂ (reads mode_name)
              (refl, (refl, (refl, (refl, tt))));
        holds_hit =
            written-Holds hm values new cache_hit_name
              (if values.cache_hit then chars "true" else chars "false") w₃ (reads cache_hit_name)
              (refl, (refl, (refl, (refl, tt))));
        holds_depth =
            written-Holds hm values new cache_prefix_depth_name
              (to_string values.cache_prefix_depth) w₄ (reads cache_prefix_depth_name)
              (refl, (refl, (refl, (refl, tt))));
        holds_policy =
            written-Holds hm values new route_policy_name values.route_policy w₅
              (reads route_policy_name) (refl, (refl, (refl, (refl, tt))));
        holds_namespace =
            HoldsSome-tail hm values values.cache_namespace values.mode new w₆
              (reads cache_namespace_name);
        holds_pods =
            HoldsPods-fields hm values values.mode new
              (pods_writable hm values values.cache_namespace values.mode w₆)
              (reads target_pod_id_name
                ∙ written-namespace hm values.cache_namespace (pod_fields values values.mode)
                    target_pod_id_name [] refl)
              (reads prefill_pod_id_name
                ∙ written-namespace hm values.cache_namespace (pod_fields values values.mode)
                    prefill_pod_id_name [] refl)
              (reads decode_pod_id_name
                ∙ written-namespace hm values.cache_namespace (pod_fields values values.mode)
                    decode_pod_id_name [] refl);
        keeps_others = λ m other. reads m ∙ written-others hm values m (hm.get_all h m) other;
      }

module _ {H V : Type 0} (hm : HeaderMaps H V) (law : IsHeaderMap hm) where
  pub inject_routing_headers-IsInjected :
      (values : RoutingHeaderValues) (h : H)
      → IsComplete values
      → AllWritable hm (fields values)
      → ((inject_routing_headers hm values h).1 ≡ ok tt)
        × IsInjected hm h (inject_routing_headers hm values h).0 values
  unfolding inject_routing_headers
  inject_routing_headers-IsInjected values h complete w =
      rw ((validate-IsComplete values).1 complete, inject_routing_headers)
        (rw (insert_values-insert_all hm values (remove_all hm owned_headers h)) (
          insert_all-AllWritable hm (fields values) (remove_all hm owned_headers h) w,
          insert_all-IsInjected hm law values h w,
        ))

inject_routing_headers-cases :
    {H V : Type 0} (hm : HeaderMaps H V) (values : RoutingHeaderValues) (h : H)
    → IsComplete values
    → AllWritable hm (fields values) ⊎ ((inject_routing_headers hm values h).1 ≡ err invalid_value)
unfolding inject_routing_headers
inject_routing_headers-cases hm values h complete =
    rw ((validate-IsComplete values).1 complete, inject_routing_headers)
      (rw (insert_values-insert_all hm values (remove_all hm owned_headers h))
        (insert_all-cases hm (fields values) (remove_all hm owned_headers h)))

-- An injection of values that are not complete ends with the error of the validation and leaves the
-- headers alone. One of complete values of which some text may not stand in a header ends with the
-- error that says so.
pub inject_routing_headers_refuses :
    {H V : Type 0} (hm : HeaderMaps H V) (values : RoutingHeaderValues) (h : H)
    → (¬ IsComplete values
        → (e : HeaderError) × (validate values ≡ err e)
          × (inject_routing_headers hm values h ≡ (h, err e)))
      × (IsComplete values
          → ¬ AllWritable hm (fields values)
          → (inject_routing_headers hm values h).1 ≡ err invalid_value)
unfolding inject_routing_headers
inject_routing_headers_refuses hm values h = (
  λ incomplete. elim (Result-cases (validate values)) [
    | inl (e, invalid) ↦ (e, invalid, rw (invalid, inject_routing_headers))
    | inr (tt, valid) ↦ absurd (incomplete ((validate-IsComplete values).0 valid))
  ],
  λ complete unwritable. elim (inject_routing_headers-cases hm values h complete) [
    | inl w ↦ absurd (unwritable w)
    | inr refused ↦ refused
  ],
)

-- An injection that succeeds had complete values, whose texts may all stand in a header.
pub inject_routing_headers-ok :
    {H V : Type 0} (hm : HeaderMaps H V) (values : RoutingHeaderValues) (h : H)
    → (inject_routing_headers hm values h).1 ≡ ok tt
    → IsComplete values × AllWritable hm (fields values)
inject_routing_headers-ok hm values h done =
    let (incomplete, unwritable) = inject_routing_headers_refuses hm values h in
    elim (Result-cases (validate values)) [
      | inl (e, invalid) ↦
          let (e', _, refused) =
            incomplete
              (λ complete. err-ok (sym invalid ∙ (validate-IsComplete values).1 complete)) in
          err-ok (sym (ap (λ r. r.1) refused) ∙ done)
      | inr (_, valid) ↦
          let complete = (validate-IsComplete values).0 valid in
          elim (inject_routing_headers-cases hm values h complete) [
            | inl w ↦ (complete, w)
            | inr refused ↦ err-ok (sym refused ∙ done)
          ]
    ]
