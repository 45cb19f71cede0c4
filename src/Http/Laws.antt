-- ===== src/Http/Laws.antt =====
-- What follows from the laws of header maps: reading after a write, and lists of writes.
use calinix.Hash.{Text}
use calinix.Http.{HeaderMaps, IsHeaderMap}
use calinix.Text.{same_text}
use calinix.Prelude.{◌≡◌, refl, Bool, false, ◌||◌, List, [], ◌∷◌, arith, if◌then◌else◌}

-- Whether a name is one of the list.
unfoldable pub named : List Text → Text → Bool
named [] m = false
named (n ∷ ns) m = same_text n m || named ns m

module _ {H V : Type 0} (hm : HeaderMaps H V) where
  -- The map after `headers.remove(name)` for each name.
  unfoldable pub remove_all : List Text → H → H
  remove_all [] h = h
  remove_all (n ∷ ns) h = remove_all ns (hm.remove h n)

module _ {H V : Type 0} (hm : HeaderMaps H V) (law : IsHeaderMap hm) where
  pub get_all-remove_all :
      (ns : List Text) (h : H) (m : Text)
      → hm.get_all (remove_all hm ns h) m ≡ (if named ns m then [] else hm.get_all h m)
  unfolding remove_all named
  get_all-remove_all [] h m = refl
  get_all-remove_all (n ∷ ns) h m =
      ground (arith, get_all-remove_all ns (hm.remove h n) m, law.get_all-remove h n m)
