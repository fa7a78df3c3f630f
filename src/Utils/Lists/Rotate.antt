-- ===== src/Utils/Lists/Rotate.antt =====
-- The rotations of pkg/utils/lists.go.
use eliot.Prelude.{
  ℕ, ◌≡◌, Bytes, some, List, [], ◌∷◌, ◌++◌, length, take, drop, ◌-◌, ◌≤◌, suc, zero, arith,
  length-append, take-append-drop, drop-append_length, take-append_length,
}
use Prim.Native.Nat.{min}
use eliot.Utils.Lists.{rotate_l_by, rotate_r_by}

length-drop : (n : ℕ) (xs : List Bytes) → length (drop n xs) ≡ length xs - n
length-drop zero xs = omega arith
length-drop (suc n) [] = omega arith
length-drop (suc n) (x ∷ xs) = omega (arith, length-drop n xs)

length-take : (n : ℕ) (xs : List Bytes) → length (take n xs) ≡ min n (length xs)
length-take zero xs = omega arith
length-take (suc n) [] = omega arith
length-take (suc n) (x ∷ xs) = omega (arith, length-take n xs)

-- Cut behind the front part and swapped.
swap_back :
    (xs ys : List Bytes) (n : ℕ) → n ≡ length xs → drop n (xs ++ ys) ++ take n (xs ++ ys) ≡ ys ++ xs
swap_back xs ys n e = rw (e, drop-append_length, take-append_length)

length-rotate_l_by :
    (a b : List Bytes) (i : ℕ)
    → rotate_l_by a i ≡ some b
    → (i ≤ length a) × (b ≡ drop i a ++ take i a) × (length b ≡ length a)
unfolding rotate_l_by
length-rotate_l_by a b i h =
    ground (arith, length-append (drop i a) (take i a), length-drop i a, length-take i a)

-- A rotation to the right by the same count undoes a rotation to the left that did not panic.
rotate_r_by-rotate_l_by :
    (a b : List Bytes) (i : ℕ) → rotate_l_by a i ≡ some b → rotate_r_by b i ≡ some a
unfolding rotate_r_by
rotate_r_by-rotate_l_by a b i h =
    let (fits, shape, same) = length-rotate_l_by a b i h in
    let back = swap_back (drop i a) (take i a) (length b - i) (omega (arith, length-drop i a)) in
    ground (arith, back, take-append-drop i a)
