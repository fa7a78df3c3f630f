-- ===== src/Program/Returns.antt =====
-- What a program returns, from the answers to its calls: one rule for each way to build a program.
use eliot.Prelude.{List, [], ◌∷◌, ◌++◌, Outcome, ok, err, crash, ◌≡◌, refl, ap, ◌∙◌}
use eliot.Program.{Program, lift, ask, caught, deferred, then_run, settled, continue, ◌>>=◌}

module _ {C : Type 0} {A B : Type 0} where
  -- A call that is answered, and the rest behind it.
  pub returns-ask :
      (call : C) (answer : List C → Outcome A) (f : A → Program C B) (log : List C) (a : A)
      (r : Outcome B)
      → answer (log ++ call ∷ []) ≡ ok a
      → (f a (log ++ call ∷ [])).0 ≡ r
      → ((ask call answer >>= f) log).0 ≡ r
  unfolding ask ◌>>=◌
  returns-ask call answer f log a r e k = ap (λ x. (continue x f (log ++ call ∷ [])).0) e ∙ k

  returns-settled :
      (x : Outcome A) (f : Outcome A → Program C B) (log : List C) (r : Outcome B)
      → (x ≡ crash → ⊥)
      → (f x log).0 ≡ r
      → (continue (settled x log).0 f (settled x log).1).0 ≡ r
  returns-settled (ok a) f log r n k = k
  returns-settled (err e) f log r n k = k
  returns-settled crash f log r n k = absurd (n refl)

  -- A call whose error the rest looks at.
  pub returns-caught :
      (call : C) (answer : List C → Outcome A) (f : Outcome A → Program C B) (log : List C)
      (r : Outcome B)
      → (answer (log ++ call ∷ []) ≡ crash → ⊥)
      → (f (answer (log ++ call ∷ [])) (log ++ call ∷ [])).0 ≡ r
      → ((caught (ask call answer) >>= f) log).0 ≡ r
  unfolding caught ask ◌>>=◌
  returns-caught call answer f log r n k =
      returns-settled (answer (log ++ call ∷ [])) f (log ++ call ∷ []) r n k

  -- A part that does not panic and whose error is not read.
  pub returns-forgiven :
      (m : Program C A) (f : Outcome A → Program C B) (log : List C) (r : Outcome B)
      → ((m log).0 ≡ crash → ⊥)
      → ((x : Outcome A) → (f x (m log).1).0 ≡ r)
      → ((caught m >>= f) log).0 ≡ r
  unfolding caught ◌>>=◌
  returns-forgiven m f log r n k = returns-settled (m log).0 f (m log).1 r n (k (m log).0)

  -- A part that succeeds.
  pub returns-bind :
      (m : Program C A) (f : A → Program C B) (log : List C) (a : A) (r : Outcome B)
      → (m log).0 ≡ ok a
      → (f a (m log).1).0 ≡ r
      → ((m >>= f) log).0 ≡ r
  unfolding ◌>>=◌
  returns-bind m f log a r e k = ap (λ x. (continue x f (m log).1).0) e ∙ k

  -- A step that only computes, and succeeds.
  pub bind-lift :
      (r : Outcome A) (f : A → Program C B) (log : List C) (a : A)
      → r ≡ ok a
      → (lift r >>= f) log ≡ f a log
  unfolding lift ◌>>=◌
  bind-lift r f log a e = ap (λ x. continue x f log) e

  -- A chain panics only where one of its parts does.
  pub continue-crash :
      (x : Outcome A) (f : A → Program C B) (log : List C)
      → (x ≡ crash → ⊥)
      → ((a : A) → (f a log).0 ≡ crash → ⊥)
      → (continue x f log).0 ≡ crash
      → ⊥
  continue-crash (ok a) f log n k h = k a h
  continue-crash (err e) f log n k h = cc
  continue-crash crash f log n k h = n refl

module _ {C : Type 0} {A : Type 0} where
  then_run-log :
      (x : Outcome A) (d : Program C (Unit {0})) (log : List C)
      → (x ≡ crash → ⊥)
      → ((then_run x d log).1 ≡ (d log).1) × ((then_run x d log).0 ≡ x)
  then_run-log (ok a) d log n = (refl, refl)
  then_run-log (err e) d log n = (refl, refl)
  then_run-log crash d log n = absurd (n refl)

  -- What is deferred runs behind a part that does not panic, and leaves its result.
  pub deferred-log :
      (m : Program C A) (d : Program C (Unit {0})) (log : List C)
      → ((m log).0 ≡ crash → ⊥)
      → ((deferred m d log).1 ≡ (d (m log).1).1) × ((deferred m d log).0 ≡ (m log).0)
  unfolding deferred
  deferred-log m d log n = then_run-log (m log).0 d (m log).1 n
