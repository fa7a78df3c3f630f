-- ===== src/Prelude/TextLaws.antt =====
-- Laws of the text functions.
use Prim.Native.Nat.{ℕ, suc}
use mathlib.Core.Path.{◌≡◌, refl, ap}
use mathlib.Core.Bool.{false, ◌||◌}
use mathlib.Core.List.{List, [], ◌∷◌, ◌++◌}
use mathlib.Core.Option.{none, some}
use native.Mathlib.Omega.{arith}
use eliot.Prelude.Tests.{Bytes, bytes_beq}
use eliot.Prelude.Lists.{All}
use eliot.Prelude.Text.{has, Lacks, cut, split_n, split, join, onto_first}

module _ (c : ℕ) where
  has-append : (a b : Bytes) → has c (a ++ b) ≡ (has c a || has c b)
  unfolding has
  has-append [] b = refl
  has-append (x ∷ a) b = ground (arith, has-append a b)

  pub Lacks-append : (a b : Bytes) → Lacks c a → Lacks c b → Lacks c (a ++ b)
  Lacks-append a b h k = rw (has-append, h, k)

  cut-append : (a b : Bytes) → Lacks c a → cut c (a ++ c ∷ b) ≡ some (a, b)
  unfolding has cut
  cut-append [] b h = ground arith
  cut-append (x ∷ a) b h = ground (arith, cut-append a b)

  pub cut-none : (s : Bytes) → Lacks c s → cut c s ≡ none
  unfolding has cut
  cut-none [] h = refl
  cut-none (x ∷ s) h = ground (arith, cut-none s)

  pub cut_sound : (s a b : Bytes) → cut c s ≡ some (a, b) → (s ≡ a ++ c ∷ b) × Lacks c a
  unfolding has cut
  cut_sound [] a b h = cc
  cut_sound (x ∷ s) [] b h = ground arith
  cut_sound (x ∷ s) (y ∷ a) b h = ground (arith, cut_sound s a b)

  pub Lacks-of_cut : (s : Bytes) → cut c s ≡ none → Lacks c s
  unfolding has cut
  Lacks-of_cut [] h = refl
  Lacks-of_cut (x ∷ s) h = ground (arith, Lacks-of_cut s)

  pub split_n-append :
      (n : ℕ) (a b : Bytes)
      → Lacks c a
      → split_n c (suc (suc n)) (a ++ c ∷ b) ≡ a ∷ split_n c (suc n) b
  unfolding split_n
  split_n-append n a b h = rw (cut-append a b h, split_n)

  pub split_n-Lacks : (n : ℕ) (s : Bytes) → Lacks c s → split_n c (suc (suc n)) s ≡ s ∷ []
  unfolding split_n
  split_n-Lacks n s h = rw (cut-none s h, split_n)

  pub split-Lacks : (s : Bytes) → Lacks c s → split c s ≡ s ∷ []
  unfolding has split
  split-Lacks [] h = refl
  split-Lacks (x ∷ s) h = ground (arith, split-Lacks s)

  pub split-append : (a b : Bytes) → Lacks c a → split c (a ++ c ∷ b) ≡ a ∷ split c b
  unfolding has split
  split-append [] b h = ground arith
  split-append (x ∷ a) b h = ground (arith, split-append a b)

  -- Splitting a join gives the parts back, if there is a part and none holds the separator.
  pub split-join :
      (p : Bytes) (ps : List Bytes)
      → Lacks c p
      → All (Lacks c) ps
      → split c (join c (p ∷ ps)) ≡ p ∷ ps
  unfolding join
  split-join p [] h _ = split-Lacks p h
  split-join p (q ∷ ps) h (hq, hs) =
      rw (split-append p (join c (q ∷ ps)) h) (ap (λ r. p ∷ r) (split-join q ps hq hs))

  join-onto_first :
      (x : ℕ) (p : Bytes) (ps : List Bytes) → join c (onto_first x (p ∷ ps)) ≡ x ∷ join c (p ∷ ps)
  unfolding join
  join-onto_first x p [] = refl
  join-onto_first x p (q ∷ ps) = refl

pub append-ne-nil : (a b : Bytes) (c : ℕ) → bytes_beq (a ++ c ∷ b) [] ≡ false
unfolding bytes_beq
append-ne-nil [] b c = refl
append-ne-nil (x ∷ a) b c = refl
