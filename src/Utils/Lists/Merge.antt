-- ===== src/Utils/Lists/Merge.antt =====
-- MergeLists of pkg/utils/lists.go.
use mathlib.Core.List.{flatten}
use eliot.Prelude.{
  ◌≡◌, refl, sym, ap, ◌∙◌, Bytes, Bool, true, false, ◌||◌, List, [], ◌∷◌, ◌++◌, Dict, lookup,
  insert, lookup-insert, if◌then◌else◌, eq_iff, ◌==◌, bytes_eq, arith, append_assoc, append-nil,
}
use eliot.Utils.Lists.{was_met, merge_items, merge_all, merge_lists}

-- The list without the item.
pub without : Bytes → List Bytes → List Bytes
without a [] = []
without a (x ∷ xs) = let rest = without a xs in if x == a then rest else x ∷ rest

-- Each item once, where it stands first.
unfoldable pub distinct : List Bytes → List Bytes
unfolding without
distinct [] = []
distinct (x ∷ xs) = x ∷ without x (distinct xs)

unfoldable pub contains : Bytes → List Bytes → Bool
contains a [] = false
contains a (x ∷ xs) = x == a || contains a xs

-- The items that the map has not met, each once.
fresh : Dict Bool → List Bytes → List Bytes
unfolding was_met
fresh m [] = []
fresh m (x ∷ xs) =
    let skip = fresh m xs in
    let keep = x ∷ fresh (insert x true m) xs in if was_met x m then skip else keep

was_met-insert :
    (a x : Bytes) (m : Dict Bool) → was_met a (insert x true m) ≡ (x == a || was_met a m)
unfolding was_met
was_met-insert a x m = ground (arith, lookup-insert x a true m)

merge_items-fresh :
    (xs ys : List Bytes) (m : Dict Bool) (r : List Bytes)
    → (merge_items xs m r).1 ++ fresh (merge_items xs m r).0 ys ≡ r ++ fresh m (xs ++ ys)
unfolding merge_items fresh
merge_items-fresh [] ys m r = refl
merge_items-fresh (x ∷ xs) ys m r = ground (
  arith,
  merge_items-fresh xs ys m r,
  merge_items-fresh xs ys (insert x true m) (r ++ x ∷ []),
  append_assoc r (x ∷ []) (fresh (insert x true m) (xs ++ ys)),
)

merge_all-fresh :
    (ls : List (List Bytes)) (m : Dict Bool) (r : List Bytes)
    → merge_all ls m r ≡ r ++ fresh m (flatten ls)
unfolding merge_all flatten fresh
merge_all-fresh [] m r = sym (append-nil r)
merge_all-fresh (l ∷ ls) m r =
    merge_all-fresh ls (merge_items l m r).0 (merge_items l m r).1
    ∙ merge_items-fresh l (flatten ls) m r

-- The items of the list that the map has not met.
unmet : Dict Bool → List Bytes → List Bytes
unmet m [] = []
unmet m (x ∷ xs) = let rest = unmet m xs in if was_met x m then rest else x ∷ rest

unmet-insert :
    (x : Bytes) (m : Dict Bool) (xs : List Bytes)
    → unmet (insert x true m) xs ≡ unmet m (without x xs)
unfolding unmet without
unmet-insert x m [] = refl
unmet-insert x m (y ∷ xs) =
    ground (arith, unmet-insert x m xs, was_met-insert y x m, eq_iff x y, eq_iff y x)

unmet-without_met :
    (x : Bytes) (m : Dict Bool) (xs : List Bytes)
    → was_met x m ≡ true
    → unmet m (without x xs) ≡ unmet m xs
unfolding unmet without
unmet-without_met x m [] h = refl
unmet-without_met x m (y ∷ xs) h = ground (arith, unmet-without_met x m xs, eq_iff y x)

fresh-unmet : (m : Dict Bool) (xs : List Bytes) → fresh m xs ≡ unmet m (distinct xs)
unfolding fresh unmet distinct
fresh-unmet m [] = refl
fresh-unmet m (x ∷ xs) = ground (
  arith,
  fresh-unmet m xs,
  fresh-unmet (insert x true m) xs,
  unmet-insert x m (distinct xs),
  unmet-without_met x m (distinct xs),
)

unmet-nil : (xs : List Bytes) → unmet [] xs ≡ xs
unfolding unmet was_met lookup
unmet-nil [] = refl
unmet-nil (x ∷ xs) = ap (λ r. x ∷ r) (unmet-nil xs)

-- The merge holds each item of the lists once, where it stands first.
merge_lists-distinct : (ls : List (List Bytes)) → merge_lists ls ≡ distinct (flatten ls)
unfolding merge_lists
merge_lists-distinct ls =
    merge_all-fresh ls [] [] ∙ fresh-unmet [] (flatten ls) ∙ unmet-nil (distinct (flatten ls))

contains-without :
    (a x : Bytes) (xs : List Bytes)
    → contains a (without x xs) ≡ (if x == a then false else contains a xs)
unfolding contains without
contains-without a x [] = ground arith
contains-without a x (y ∷ xs) =
    ground (arith, contains-without a x xs, eq_iff y x, eq_iff y a, eq_iff x a)

contains-distinct : (a : Bytes) (xs : List Bytes) → contains a (distinct xs) ≡ contains a xs
unfolding contains distinct
contains-distinct a [] = refl
contains-distinct a (x ∷ xs) =
    ground (arith, contains-without a x (distinct xs), contains-distinct a xs)

-- No item of the list stands again behind itself.
abbrev pub IsDistinct : List Bytes → Type 0
IsDistinct [] = Unit
IsDistinct (x ∷ xs) = (contains x xs ≡ false) × IsDistinct xs

without-IsDistinct : (x : Bytes) (xs : List Bytes) → IsDistinct xs → IsDistinct (without x xs)
unfolding without
without-IsDistinct x [] h = tt
without-IsDistinct x (y ∷ xs) (n, h) =
    ground (arith, without-IsDistinct x xs h, contains-without y x xs)

distinct-IsDistinct : (xs : List Bytes) → IsDistinct (distinct xs)
unfolding distinct
distinct-IsDistinct [] = tt
distinct-IsDistinct (x ∷ xs) = (
  ground (arith, contains-without x x (distinct xs), eq_iff x x),
  without-IsDistinct x (distinct xs) (distinct-IsDistinct xs),
)

-- The merge has no duplicates, and holds an item exactly if one of the lists holds it.
merge_lists-IsDistinct :
    (ls : List (List Bytes))
    → IsDistinct (merge_lists ls)
      × ((a : Bytes) → contains a (merge_lists ls) ≡ contains a (flatten ls))
merge_lists-IsDistinct ls = (
  rw merge_lists-distinct (distinct-IsDistinct (flatten ls)),
  λ a. rw merge_lists-distinct (contains-distinct a (flatten ls)),
)
