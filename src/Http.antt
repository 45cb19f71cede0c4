-- ===== src/Http.antt =====
-- The header maps of the http crate, which src/calinix/protocol, routing, proxy and app read and write,
-- as an interface: the operations that they call, and the documented laws that the results use.
pub mod Laws
use calinix.Hash.{Text}
use calinix.Text.{same_text}
use calinix.Text.Literals.{IsVisible}
use calinix.Prelude.{
  ℕ, zero, suc, ◌+◌, ◌-◌, ◌*◌, ◌/◌, ◌%◌, ◌^◌, ◌≤◌, ◌<◌, min, max, ◌≡◌, refl, sym, ap, ap₂, ◌∙◌,
  subst, fun_ext, ◌≢◌, ◌↔◌, ◌⊎◌, inl, inr, Bool, true, false, not, ◌&&◌, ◌||◌, Option, none, some,
  List, [], ◌∷◌, ◌++◌, map, append_assoc, append-nil, arith, ltb, leb, ◌==◌, if◌then◌else◌, ltb→lt,
  lt→ltb, leb→le, ==_iff, ==_refl, tests, Bool-cases, Option-cases, length, get_elem?, get_or,
  set as set_elem, take, replicate, length-append, length-set, length-replicate, get_or-replicate,
  get_or-set, get_elem?-get_or, get_elem?-beyond, get_elem?-cases, get_elem?-left, get_elem?-last,
  get_or-beyond, lt_wf,
}

-- `H` is HeaderMap and `V` is HeaderValue. A name is a text in lower case. `entries` is what the
-- iteration yields, `append` what the builder of a response does with a header.
pub record HeaderMaps (H V : Type 0) : Type 0 where
  pub empty : H
  pub get : H → Text → Option V
  pub get_all : H → Text → List V
  pub insert : H → Text → V → H
  pub append : H → Text → V → H
  pub remove : H → Text → H
  pub entries : H → List (Text × V)
  -- `HeaderValue::from_str`, `from_static` and `to_str`, without their error values.
  pub from_str : Text → Option V
  pub from_static : Text → V
  pub to_str : V → Option Text

-- The values of a name among the entries.
abbrev pub values_of {ℓ} : {V : Type ℓ} → Text → List (Text × V) → List V
values_of name [] = []
values_of name ((n, v) ∷ es) = if same_text n name then v ∷ values_of name es else values_of name es

abbrev pub first_of {ℓ} : {V : Type ℓ} → List V → Option V
first_of [] = none
first_of (v ∷ vs) = some v

pub record IsHeaderMap {H V : Type 0} (hm : HeaderMaps H V) : Type 0 where
  pub get_all-empty : (m : Text) → hm.get_all hm.empty m ≡ []
  pub get_all-insert :
      (h : H) (n : Text) (v : V) (m : Text)
      → hm.get_all (hm.insert h n v) m ≡ (if same_text n m then v ∷ [] else hm.get_all h m)
  pub get_all-append :
      (h : H) (n : Text) (v : V) (m : Text)
      → hm.get_all (hm.append h n v) m
        ≡ (if same_text n m then hm.get_all h m ++ v ∷ [] else hm.get_all h m)
  pub get_all-remove :
      (h : H) (n : Text) (m : Text)
      → hm.get_all (hm.remove h n) m ≡ (if same_text n m then [] else hm.get_all h m)
  pub get_all-entries : (h : H) (m : Text) → hm.get_all h m ≡ values_of m (hm.entries h)
  pub get-get_all : (h : H) (m : Text) → hm.get h m ≡ first_of (hm.get_all h m)
  pub from_str-visible : (t : Text) → IsVisible t → (v : V) × (hm.from_str t ≡ some v)
  pub from_str-to_str : (v : V) (t : Text) → hm.to_str v ≡ some t → hm.from_str t ≡ some v
  pub to_str-from_str :
      (v : V) (t : Text) → IsVisible t → hm.from_str t ≡ some v → hm.to_str v ≡ some t
  pub from_static-from_str : (v : V) (t : Text) → hm.from_str t ≡ some v → hm.from_static t ≡ v
