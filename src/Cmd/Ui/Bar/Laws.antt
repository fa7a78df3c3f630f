-- ===== src/Cmd/Ui/Bar/Laws.antt =====
-- pkg/cmd/ui/terminal/progress.go: the bytes of the progress bar, one by one.
use eliot.Prelude.{
  ℕ, zero, suc, ◌+◌, ◌-◌, ◌≤◌, ◌<◌, Bytes, false, [], ◌∷◌, ◌++◌, if◌then◌else◌, ok, length, ltb,
  ◌==◌, nat_eq, ◌&&◌, ◌≡◌, refl, sym, ap, ◌∙◌, arith, Bool-cases, inl, inr,
}
use eliot.Cmd.Ui.Bar.{Bar, repeated, set_at, plain_bar, with_head, with_ends, render}

-- The bytes that a function gives for the indices from i on.
abbrev pub drawn : (ℕ → ℕ) → ℕ → ℕ → Bytes
drawn f i zero = []
drawn f i (suc n) = f i ∷ drawn f (i + 1) n

-- The byte at an index of a bar of a width, of which so much is completed.
abbrev pub byte_at : Bar → ℕ → ℕ → ℕ → ℕ
byte_at b width done i =
    if i == 0
    then b.left_end
    else if (i + 1) == width
    then b.right_end
    else if ((i + 1) == done) && ltb done width
    then b.head
    else if ltb i done
    then b.fill
    else b.empty

length-drawn : (f : ℕ → ℕ) (i n : ℕ) → length (drawn f i n) ≡ n
length-drawn f i zero = refl
length-drawn f i (suc n) = ap suc (length-drawn f (i + 1) n)

-- Functions that agree on the indices draw the same.
drawn_same :
    (f g : ℕ → ℕ) (i n : ℕ) → ((j : ℕ) → i ≤ j → j < i + n → f j ≡ g j) → drawn f i n ≡ drawn g i n
drawn_same f g i zero h = refl
drawn_same f g i (suc n) h =
    let rest = drawn_same f g (i + 1) n (λ j a b. h j (omega (arith, a)) (omega (arith, b))) in
    rw (h i (omega arith) (omega arith), rest) refl

drawn-append : (f : ℕ → ℕ) (i m n : ℕ) → drawn f i m ++ drawn f (i + m) n ≡ drawn f i (m + n)
drawn-append f i zero n = ap (λ k. drawn f k n) (omega arith) ∙ ap (drawn f i) (omega arith)
drawn-append f i (suc m) n =
    let start : i + suc m ≡ (i + 1) + m = omega arith in
    let count : suc (m + n) ≡ suc m + n = omega arith in
    ap (λ k. f i ∷ (drawn f (i + 1) m ++ drawn f k n)) start
    ∙ ap (λ s. f i ∷ s) (drawn-append f (i + 1) m n)
    ∙ ap (drawn f i) count

repeated-drawn : (c i n : ℕ) → repeated c n ≡ drawn (λ _. c) i n
unfolding repeated
repeated-drawn c i zero = refl
repeated-drawn c i (suc n) = ap (λ s. c ∷ s) (repeated-drawn c (i + 1) n)

-- Setting a byte that is there.
set_at-drawn :
    (f g : ℕ → ℕ) (k c i n : ℕ)
    → k < n
    → g (i + k) ≡ c
    → ((j : ℕ) → i ≤ j → j < i + n → (j ≡ i + k → ⊥) → f j ≡ g j)
    → set_at k c (drawn f i n) ≡ ok (drawn g i n)
unfolding set_at
set_at-drawn f g k c i zero h e o = absurd (omega (arith, h))
set_at-drawn f g zero c i (suc n) h e o =
    let rest =
      drawn_same f g (i + 1) n
        (λ j a b. o j (omega (arith, a)) (omega (arith, b)) (λ x. omega (arith, a, x))) in
    let first : c ≡ g i = sym (ap g (omega arith) ∙ e) in rw (first, rest) refl
set_at-drawn f g (suc k) c i (suc n) h e o =
    let rest =
      set_at-drawn f g k c (i + 1) n (omega (arith, h)) (ap g (omega arith) ∙ e)
        (λ j a b x. o j (omega (arith, a)) (omega (arith, b)) (λ y. x (omega (arith, y)))) in
    rw (rest, o i (omega arith) (omega arith) (λ x. omega (arith, x))) refl

abbrev plain_at : Bar → ℕ → ℕ → ℕ
plain_at b done i = if ltb i done then b.fill else b.empty

abbrev headed_at : Bar → ℕ → ℕ → ℕ → ℕ
headed_at b width done i = if ((i + 1) == done) && ltb done width then b.head else plain_at b done i

plain_bar-drawn :
    (b : Bar) (width done : ℕ)
    → done ≤ width
    → plain_bar b width done ≡ drawn (plain_at b done) 0 width
plain_bar-drawn b width done h =
    let start : done ≡ 0 + done = omega arith in
    let count : done + (width - done) ≡ width = omega (arith, h) in
    ap (λ s. s ++ repeated b.empty (width - done))
      (repeated-drawn b.fill 0 done ∙ drawn_same _ (plain_at b done) 0 done (λ j x y. ground arith))
    ∙ ap (λ s. drawn (plain_at b done) 0 done ++ s)
        (repeated-drawn b.empty done (width - done)
          ∙ drawn_same _ (plain_at b done) done (width - done) (λ j x y. ground arith))
    ∙ ap (λ k. drawn (plain_at b done) 0 done ++ drawn (plain_at b done) k (width - done)) start
    ∙ drawn-append (plain_at b done) 0 done (width - done)
    ∙ ap (drawn (plain_at b done) 0) count

with_head-drawn :
    (b : Bar) (width done : ℕ)
    → done ≤ width
    → with_head b width done (drawn (plain_at b done) 0 width)
      ≡ ok (drawn (headed_at b width done) 0 width)
with_head-drawn b width done h = elim (Bool-cases (ltb 0 done && ltb done width)) [
  | inl e ↦ rw e (
      set_at-drawn (plain_at b done) (headed_at b width done) (done - 1) b.head 0 width
        (ground arith) (ground arith) (λ j x y z. ground arith))
  | inr e ↦ rw e (ap ok (drawn_same _ _ 0 width (λ j x y. ground arith)))
]

with_ends-drawn :
    (b : Bar) (width done : ℕ)
    → 1 < width
    → with_ends b (drawn (headed_at b width done) 0 width)
      ≡ ok (drawn (byte_at b width done) 0 width)
with_ends-drawn b zero done h = absurd (omega (arith, h))
with_ends-drawn b (suc n) done h =
    let lefted : ℕ → ℕ = λ i. if i == 0 then b.left_end else headed_at b (suc n) done i in
    ap (λ k. set_at k b.right_end (b.left_end ∷ drawn (headed_at b (suc n) done) 1 n))
      (length-drawn (headed_at b (suc n) done) 1 n)
    ∙ ap (λ s. set_at n b.right_end (b.left_end ∷ s))
        (drawn_same (headed_at b (suc n) done) lefted 1 n (λ j x y. ground arith))
    ∙ set_at-drawn lefted (byte_at b (suc n) done) n b.right_end 0 (suc n) (omega arith)
        (ground arith) (λ j x y z. ground arith)

-- A bar of at least two bytes, of which not more than its width is completed, has as many bytes as its
-- width: its ends, and between them the fill up to the head, which is the last byte of the completed
-- part unless all is completed, and empty bytes behind.
pub render-byte_at :
    (completed : ℕ → ℕ → ℕ → ℕ) (b : Bar) (width current total : ℕ)
    → 1 < width
    → (total == 0) ≡ false
    → completed width current total ≤ width
    → (render b completed width current total
        ≡ ok (drawn (byte_at b width (completed width current total)) 0 width))
      × (length (drawn (byte_at b width (completed width current total)) 0 width) ≡ width)
unfolding render
render-byte_at completed b width current total w t h =
    let done = completed width current total in
    (
      rw (t, plain_bar-drawn b width done h, with_head-drawn b width done h)
          (with_ends-drawn b width done w),
      length-drawn (byte_at b width done) 0 width,
    )
