-- ===== src/Program.antt =====
-- Programs that drive a part of the system by calls. The answer to a call is a function of the calls
-- made so far, which is what a part does whose answers depend on nothing but what was asked of it.
pub mod Plan
pub mod Effects
pub mod Returns
pub mod Always
use eliot.Prelude.{List, [], ◌∷◌, ◌++◌, Outcome, ok, err, crash, Error}

-- A program that makes calls of the type C: its result, and the calls made so far with its own.
abbrev pub Program {ℓ} : Type 0 → Type ℓ → Type ℓ
Program C A = List C → Outcome A × List C

module _ {ℓ} {C : Type 0} {A : Type ℓ} where
  unfoldable pub pure : A → Program C A
  pure a log = (ok a, log)

  unfoldable pub raise : Error → Program C A
  raise e log = (err e, log)

  unfoldable pub halt : Program C A
  halt log = (crash, log)

  unfoldable pub lift : Outcome A → Program C A
  lift r log = (r, log)

  -- One call, and its answer.
  unfoldable pub ask : C → (List C → Outcome A) → Program C A
  ask call answer log = (answer (log ++ call ∷ []), log ++ call ∷ [])

module _ {ℓ κ} {C : Type 0} {A : Type ℓ} {B : Type κ} where
  abbrev pub continue : Outcome A → (A → List C → Outcome B × List C) → List C → Outcome B × List C
  continue (ok a) f log = f a log
  continue (err e) f log = (err e, log)
  continue crash f log = (crash, log)

module _ {ℓ} {C : Type 0} {A B : Type ℓ} where
  infixl 5 ◌>>=◌ ◌>>◌
  unfoldable pub ◌>>=◌ : Program C A → (A → Program C B) → Program C B
  ◌>>=◌ m f log = continue (m log).0 f (m log).1

  abbrev pub ◌>>◌ : Program C A → Program C B → Program C B
  m >> n = m >>= λ _. n

module _ {ℓ} {C : Type 0} {A B : Type ℓ} where
  -- A loop that appends the result of each round and ends at the first that fails.
  unfoldable pub for_each : (A → Program C B) → List A → Program C (List B)
  for_each f [] = pure []
  for_each f (x ∷ xs) = do y ← f x; ys ← for_each f xs; pure (y ∷ ys)

module _ {ℓ} {C : Type 0} {A : Type ℓ} where
  abbrev pub settled : Outcome A → List C → Outcome (Outcome A) × List C
  settled (ok a) log = (ok (ok a), log)
  settled (err e) log = (ok (err e), log)
  settled crash log = (crash, log)

  -- The result or the error of a program, for code that looks at the error and goes on.
  unfoldable pub caught : Program C A → Program C (Outcome A)
  caught m log = settled (m log).0 (m log).1

  abbrev pub then_run : Outcome A → Program C (Unit {0}) → Program C A
  then_run (ok a) d log = (ok a, (d log).1)
  then_run (err e) d log = (err e, (d log).1)
  then_run crash d log = (crash, log)

  -- defer: the second program runs behind the first, whether it failed or not, and its result is
  -- not read. What a panic runs before it ends the process is not followed.
  unfoldable pub deferred : Program C A → Program C (Unit {0}) → Program C A
  deferred m d log = then_run (m log).0 d (m log).1
