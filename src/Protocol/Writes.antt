-- ===== src/Protocol/Writes.antt =====
-- The writes of an injection as a list of headers.
use calinix.Hash.{Text}
use calinix.Http.{HeaderMaps, IsHeaderMap}
use calinix.Http.Laws.{named}
use calinix.Prelude.Results.{err, ok}
use calinix.Protocol.{
  request_id_name, mode_name, target_pod_id_name, prefill_pod_id_name, decode_pod_id_name,
  cache_hit_name, cache_prefix_depth_name, cache_namespace_name, route_policy_name, CalinixMode,
  single_mode, disaggregated_mode, RoutingHeaderValues, invalid_value, as_str, text_or_default,
  Writer, and_then, finish, ◌>>◌, insert, insert_namespace, insert_pods, insert_values,
}
use calinix.Text.{same_text}
use calinix.Text.Literals.{chars, to_string}
use calinix.Prelude.{
  ◌≡◌, refl, ap, ◌∙◌, ◌⊎◌, inl, inr, false, Option, none, some, List, [], ◌∷◌, ◌++◌, arith,
  if◌then◌else◌, Option-cases,
}

-- The headers in the order in which they are written.
abbrev pub namespace_field : Option Text → List (Text × Text)
namespace_field none = []
namespace_field (some namespace) = (cache_namespace_name, namespace) ∷ []

abbrev pub pod_fields : RoutingHeaderValues → CalinixMode → List (Text × Text)
pod_fields values single_mode = (target_pod_id_name, text_or_default values.target_pod_id) ∷ []
pod_fields values disaggregated_mode =
    (prefill_pod_id_name, text_or_default values.prefill_pod_id)
    ∷ (decode_pod_id_name, text_or_default values.decode_pod_id)
    ∷ []

abbrev pub fields : RoutingHeaderValues → List (Text × Text)
fields values =
    (request_id_name, values.request_id)
    ∷ (mode_name, as_str values.mode)
    ∷ (cache_hit_name, if values.cache_hit then chars "true" else chars "false")
    ∷ (cache_prefix_depth_name, to_string values.cache_prefix_depth)
    ∷ (route_policy_name, values.route_policy)
    ∷ (namespace_field values.cache_namespace ++ pod_fields values values.mode)

module _ {H V : Type 0} (hm : HeaderMaps H V) where
  -- Each text may stand in a header.
  abbrev pub AllWritable : List (Text × Text) → Type 0
  AllWritable [] = Unit {0}
  AllWritable ((name, text) ∷ fs) = ((v : V) × (hm.from_str text ≡ some v)) × AllWritable fs

  unfoldable pub insert_all : List (Text × Text) → Writer H
  unfolding insert
  insert_all [] = finish
  insert_all ((name, text) ∷ fs) = insert hm name text >> insert_all fs

  abbrev pub singleton : Option V → List V
  singleton none = []
  singleton (some v) = v ∷ []

  -- The values of a name after the writes.
  unfoldable pub written : List (Text × Text) → Text → List V → List V
  written [] m old = old
  written ((name, text) ∷ fs) m old =
      written fs m (if same_text name m then singleton (hm.from_str text) else old)

  insert_pods-insert_all :
      (values : RoutingHeaderValues) (namespace : Option Text) (mode : CalinixMode)
      → ◌≡◌ {A = Writer H}
          (insert_namespace hm namespace >> insert_pods hm values mode)
          (insert_all (namespace_field namespace ++ pod_fields values mode))
  unfolding insert_namespace insert_pods insert_all and_then
  insert_pods-insert_all values none single_mode = refl
  insert_pods-insert_all values none disaggregated_mode = refl
  insert_pods-insert_all values (some namespace) single_mode = refl
  insert_pods-insert_all values (some namespace) disaggregated_mode = refl

  pub insert_values-insert_all :
      (values : RoutingHeaderValues) (h : H)
      → insert_values hm values h ≡ insert_all (fields values) h
  unfolding insert_values insert_all
  insert_values-insert_all values h =
      rw (insert_pods-insert_all values values.cache_namespace values.mode)

  insert-parsed :
      (name text : Text) (h : H) (v : V)
      → hm.from_str text ≡ some v
      → insert hm name text h ≡ (hm.insert h name v, ok tt)
  unfolding insert
  insert-parsed name text h v parsed = rw (parsed, insert)

  insert-refused :
      (name text : Text) (h : H)
      → hm.from_str text ≡ none
      → insert hm name text h ≡ (h, err invalid_value)
  unfolding insert
  insert-refused name text h refused = rw (refused, insert)

  insert_all-parsed :
      (name text : Text) (fs : List (Text × Text)) (h : H) (v : V)
      → hm.from_str text ≡ some v
      → insert_all ((name, text) ∷ fs) h ≡ insert_all fs (hm.insert h name v)
  unfolding insert_all and_then
  insert_all-parsed name text fs h v parsed =
      ap (λ r. and_then r (insert_all fs)) (insert-parsed name text h v parsed)

  insert_all-refused :
      (name text : Text) (fs : List (Text × Text)) (h : H)
      → hm.from_str text ≡ none
      → insert_all ((name, text) ∷ fs) h ≡ (h, err invalid_value)
  unfolding insert_all and_then
  insert_all-refused name text fs h refused =
      ap (λ r. and_then r (insert_all fs)) (insert-refused name text h refused)

  pub insert_all-AllWritable :
      (fs : List (Text × Text)) (h : H) → AllWritable fs → (insert_all fs h).1 ≡ ok tt
  unfolding insert_all
  insert_all-AllWritable [] h v = refl
  insert_all-AllWritable ((name, text) ∷ fs) h ((value, parsed), v) =
      ap (λ r. r.1) (insert_all-parsed name text fs h value parsed)
      ∙ insert_all-AllWritable fs (hm.insert h name value) v

  -- Conversely, writes that succeed had texts that may stand in a header; else the error says so.
  pub insert_all-cases :
      (fs : List (Text × Text)) (h : H) → AllWritable fs ⊎ ((insert_all fs h).1 ≡ err invalid_value)
  insert_all-cases [] h = inl tt
  insert_all-cases ((name, text) ∷ fs) h = elim (Option-cases (hm.from_str text)) [
    | inl refused ↦ inr (ap (λ r. r.1) (insert_all-refused name text fs h refused))
    | inr (value, parsed) ↦ elim (insert_all-cases fs (hm.insert h name value)) [
      | inl v ↦ inl ((value, parsed), v)
      | inr e ↦ inr (ap (λ r. r.1) (insert_all-parsed name text fs h value parsed) ∙ e)
    ]
  ]

module _ {H V : Type 0} (hm : HeaderMaps H V) (law : IsHeaderMap hm) where
  pub insert_all-get_all :
      (fs : List (Text × Text)) (h : H) (m : Text)
      → AllWritable hm fs
      → hm.get_all (insert_all hm fs h).0 m ≡ written hm fs m (hm.get_all h m)
  unfolding insert_all written
  insert_all-get_all [] h m v = refl
  insert_all-get_all ((name, text) ∷ fs) h m ((value, parsed), v) =
      ap (λ r. hm.get_all r.0 m) (insert_all-parsed hm name text fs h value parsed)
      ∙ (insert_all-get_all fs (hm.insert h name value) m v
          ∙ rw parsed (ap (written hm fs m) (law.get_all-insert h name value m)))

-- None of the names is the given one.
abbrev pub Lacks : List Text → Text → Type 0
Lacks [] m = Unit {0}
Lacks (n ∷ ns) m = (same_text n m ≡ false) × Lacks ns m

pub named-Lacks : (ns : List Text) (m : Text) → named ns m ≡ false → Lacks ns m
unfolding named
named-Lacks [] m h = tt
named-Lacks (n ∷ ns) m h =
    let other : same_text n m ≡ false = ground arith in (other, named-Lacks ns m (ground arith))
