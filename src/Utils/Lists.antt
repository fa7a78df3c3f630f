-- ===== src/Utils/Lists.antt =====
-- pkg/utils/lists.go: merging without duplicates, rotation, the first element.
pub mod Merge
pub mod Rotate
use eliot.Prelude.{
  ℕ, ◌≡◌, refl, Bytes, codes, Bool, true, false, Option, none, some, List, [], ◌∷◌, ◌++◌, length,
  take, drop, leb, ◌-◌, Dict, lookup, insert, if◌then◌else◌, bytes_beq,
}

-- encountered[item] == true, where a missing key reads as false
was_met : Bytes → Dict Bool → Bool
was_met item encountered = elim (lookup item encountered) [ none ↦ false | some b ↦ b ]

-- One list, in the loop over its items.
unfoldable pub merge_items : List Bytes → Dict Bool → List Bytes → Dict Bool × List Bytes
unfolding was_met
merge_items [] encountered result = (encountered, result)
merge_items (item ∷ list) encountered result =
    let skip = merge_items list encountered result in
    let keep = merge_items list (insert item true encountered) (result ++ item ∷ []) in
    if was_met item encountered then skip else keep

merge_all : List (List Bytes) → Dict Bool → List Bytes → List Bytes
merge_all [] encountered result = result
merge_all (list ∷ lists) encountered result =
    let (encountered', result') = merge_items list encountered result in
    merge_all lists encountered' result'

unfoldable pub merge_lists : List (List Bytes) → List Bytes
unfolding merge_all merge_items
merge_lists lists = merge_all lists [] []

-- none: the slice expression panics, for a count past the length.
unfoldable pub rotate_l_by : List Bytes → ℕ → Option (List Bytes)
rotate_l_by a i = if leb i (length a) then some (drop i a ++ take i a) else none

unfoldable pub rotate_l : List Bytes → Option (List Bytes)
unfolding rotate_l_by
rotate_l a = rotate_l_by a 1

unfoldable pub rotate_r_by : List Bytes → ℕ → Option (List Bytes)
rotate_r_by a i =
    let k = length a - i in if leb i (length a) then some (drop k a ++ take k a) else none

unfoldable pub rotate_r : List Bytes → Option (List Bytes)
unfolding rotate_r_by
rotate_r a = rotate_r_by a 1

unfoldable pub get_first : List Bytes → Bytes → Bytes
get_first [] d = d
get_first (x ∷ l) d = x

abbrev abc : List Bytes
abc = codes "a" ∷ codes "b" ∷ codes "c" ∷ []

tests :
    (merge_lists ((codes "a" ∷ codes "b" ∷ []) ∷ (codes "b" ∷ codes "c" ∷ []) ∷ []) ≡ abc)
    × (rotate_l abc ≡ some (codes "b" ∷ codes "c" ∷ codes "a" ∷ []))
    × (rotate_r_by abc 2 ≡ some (codes "b" ∷ codes "c" ∷ codes "a" ∷ []))
    × (rotate_l_by abc 4 ≡ none)
unfolding merge_lists lookup insert bytes_beq rotate_l rotate_r_by
tests = (refl, refl, refl, refl)
