-- ===== src/Progress/Bag.antt =====
-- pkg/progress/imagefetch.go: the layers of a fetch as a bag, which has no order. What the code reads
-- off the layers with a range loop, in whatever order it takes them, is a function of the bag.
use mathlib.Core.Quot
use mathlib.Core.Quot.{Quot, Quot-set}
use mathlib.Core.List.{Perm}
use mathlib.Core.List.Perm
use mathlib.Core.List.{perm_append_singleton}
use eliot.Prelude.{
  ℕ, Bytes, List, [], ◌∷◌, ◌++◌, map, Dict, lookup, insert, values, map_values, Option, none, some,
  ◌≡◌, refl, sym, ap, arith, subst,
}
use eliot.Progress.{Status, ImageFetch, new_status, done, add, all_done, sums, get_progress}
use eliot.Progress.Laws.{sums-Perm, IsOrder, get_progress-order}

abbrev pub Layers : Type 0
Layers = Quot (λ (l m : List Status). Perm l m)

abbrev pub layers_of : ImageFetch → Layers
layers_of s = Quot.mk (values s.layers)

-- The sums of the offsets and the totals.
unfoldable pub sums_of : Layers → ℕ × ℕ
sums_of = Quot.lift (hlevel) (sums 0 0) λ l m h. sums-Perm l m h 0 0

unfoldable pub put : Status → Layers → Layers
put s = Quot.lift Quot-set (λ l. Quot.mk (s ∷ l)) λ l m h. Quot.sound (Perm.cons s h)

unfoldable pub finish : Layers → Layers
finish = Quot.lift Quot-set (λ l. Quot.mk (map done l)) λ l m h. Quot.sound (Perm.map done h)

values-insert :
    (k : Bytes) (v : Status) (m : Dict Status)
    → lookup k m ≡ none
    → values (insert k v m) ≡ values m ++ v ∷ []
unfolding lookup insert
values-insert k v [] h = refl
values-insert k v ((j, w) ∷ m) h = ground (arith, values-insert k v m)

values-map_values :
    (f : Status → Status) (m : Dict Status) → values (map_values f m) ≡ map f (values m)
unfolding map_values
values-map_values f [] = refl
values-map_values f ((j, w) ∷ m) = ap (λ l. f w ∷ l) (values-map_values f m)

-- Add, on the bag: a layer whose reference is there already is not put again.
abbrev pub added : Option Status → Status → Layers → Layers
added none v l = put v l
added (some _) v l = l

add-layers_of :
    (s : ImageFetch) (ref digest : Bytes) (o : Option Status)
    → lookup ref s.layers ≡ o
    → layers_of (add s ref digest) ≡ added o (new_status ref digest) (layers_of s)
unfolding add put
add-layers_of s ref digest none h =
    rw (add, h)
      (Quot.sound (
        subst (λ l. Perm l (new_status ref digest ∷ values s.layers))
          (sym (values-insert ref (new_status ref digest) s.layers h))
          (perm_append_singleton (new_status ref digest) (values s.layers))))
add-layers_of s ref digest (some v) h = rw (add, h) refl

-- The bag of layers is an abstraction of a fetch: the progress is a function of the bag, whatever
-- order a range loop takes; AllDone finishes every layer of the bag; and Add puts a waiting layer
-- into it unless one with its reference is there.
pub layers_of-refines :
    (order : List Status → List Status) (s : ImageFetch) (ref digest : Bytes)
    → IsOrder order
    → (get_progress order s ≡ sums_of (layers_of s))
      × ((layers_of (all_done s) ≡ finish (layers_of s))
          × (layers_of (add s ref digest)
              ≡ added (lookup ref s.layers) (new_status ref digest) (layers_of s)))
unfolding get_progress sums_of all_done finish
layers_of-refines order s ref digest h = (
  get_progress-order order s h,
  (
    ap Quot.mk (values-map_values done s.layers),
    add-layers_of s ref digest (lookup ref s.layers) refl,
  ),
)
