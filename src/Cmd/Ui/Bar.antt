-- ===== src/Cmd/Ui/Bar.antt =====
-- pkg/cmd/ui/terminal/progress.go: the progress bar. The width that is completed, a product and a
-- quotient of floats, is a parameter.
pub mod Laws
use eliot.Prelude.{
  ℕ, zero, suc, ◌+◌, ◌-◌, Bytes, Bool, List, [], ◌∷◌, ◌++◌, if◌then◌else◌, Outcome, ok, crash,
  length, ltb, ◌==◌, nat_eq, ◌&&◌, ◌>>=◌,
}

pub record Bar : Type 0 where
  pub fill : ℕ
  pub head : ℕ
  pub empty : ℕ
  pub left_end : ℕ
  pub right_end : ℕ

-- NewBar
unfoldable pub new_bar : Bar
new_bar = record { fill = b'='; head = b'>'; empty = b'-'; left_end = b'['; right_end = b']' }

-- A loop that writes a byte n times; a negative count writes none.
unfoldable pub repeated : ℕ → ℕ → Bytes
repeated c zero = []
repeated c (suc n) = c ∷ repeated c n

-- pb[i] = c; crash: the index is out of range.
unfoldable pub set_at : ℕ → ℕ → Bytes → Outcome Bytes
set_at i c [] = crash
set_at zero c (x ∷ s) = ok (c ∷ s)
set_at (suc i) c (x ∷ s) = do t ← set_at i c s; ok (x ∷ t)

module _ (b : Bar) where
  -- The bytes before the head and the ends are set.
  abbrev pub plain_bar : ℕ → ℕ → Bytes
  plain_bar width done = repeated b.fill done ++ repeated b.empty (width - done)

  abbrev pub with_head : ℕ → ℕ → Bytes → Outcome Bytes
  with_head width done pb =
      if ltb 0 done && ltb done width then set_at (done - 1) b.head pb else ok pb

  -- Both indices are taken before the bytes are set; the last one of no bytes is -1.
  abbrev pub with_ends : Bytes → Outcome Bytes
  with_ends [] = crash
  with_ends (x ∷ s) = set_at (length s) b.right_end (b.left_end ∷ s)

  -- Render, with the width that is completed of a width, a current and a total count.
  unfoldable pub render : (ℕ → ℕ → ℕ → ℕ) → ℕ → ℕ → ℕ → Outcome Bytes
  unfolding repeated set_at
  render completed width current total =
      let done = completed width current total in
      if total == 0
      then ok []
      else (do pb ← with_head width done (plain_bar width done); with_ends pb)
