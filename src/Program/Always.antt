-- ===== src/Program/Always.antt =====
-- Programs whose effects are the same whatever the answers are, as long as nothing panics.
use eliot.Prelude.{
  List, [], ◌++◌, Outcome, ok, err, crash, ◌≡◌, refl, sym, ap, ◌∙◌, append_assoc, append-nil,
}
use eliot.Program.{Program, lift, ask, caught, settled, deferred, then_run, continue, ◌>>=◌}
use eliot.Program.Effects.{seen, seen-call}

module _ {C D : Type 0} (view : C → List D) where
  pub record AlwaysAt {A : Type 0} (r : Outcome A × List C) (effects : List D) (log : List C)
      : Type 0 where
    pub sees : seen view r.1 ≡ seen view log ++ effects
    pub runs : r.0 ≡ crash → ⊥

  abbrev pub Always : {A : Type 0} → Program C A → List D → Type 0
  Always m effects = (log : List C) → AlwaysAt (m log) effects log

  AlwaysAt-none :
      {A : Type 0} (r : Outcome A) (log : List C) → (r ≡ crash → ⊥) → AlwaysAt (r, log) [] log
  AlwaysAt-none r log n = record { sees = sym (append-nil (seen view log)); runs = n }

  AlwaysAt-then :
      {A : Type 0} (r : Outcome A × List C) (log log' : List C) (p q : List D)
      → seen view log' ≡ seen view log ++ p
      → AlwaysAt r q log'
      → AlwaysAt r (p ++ q) log
  AlwaysAt-then r log log' p q e h = record {
    sees = h.sees ∙ ap (λ t. t ++ q) e ∙ append_assoc (seen view log) p q;
    runs = h.runs;
  }

  module _ {A : Type 0} where
    pub Always-lift : (r : Outcome A) → (r ≡ crash → ⊥) → Always (lift r) []
    unfolding lift
    Always-lift r n log = AlwaysAt-none r log n

    pub Always-ask :
        (call : C) (answer : List C → Outcome A)
        → ((log : List C) → answer log ≡ crash → ⊥)
        → Always (ask call answer) (view call)
    unfolding ask
    Always-ask call answer n log = record { sees = seen-call view log call; runs = n _ }

    settled-at :
        (r : Outcome A) (log log' : List C) (p : List D)
        → AlwaysAt (r, log') p log
        → AlwaysAt (settled r log') p log
    settled-at (ok a) log log' p h = record { sees = h.sees; runs = λ e. cc }
    settled-at (err x) log log' p h = record { sees = h.sees; runs = λ e. cc }
    settled-at crash log log' p h = absurd (h.runs refl)

    pub Always-caught : (m : Program C A) (p : List D) → Always m p → Always (caught m) p
    unfolding caught
    Always-caught m p h log = settled-at (m log).0 log (m log).1 p (h log)

    then_run-at :
        (r : Outcome A) (d : Program C (Unit {0})) (log log' : List C) (p q : List D)
        → AlwaysAt (r, log') p log
        → Always d q
        → AlwaysAt (then_run r d log') (p ++ q) log
    then_run-at (ok a) d log log' p q h k = record {
      sees = (AlwaysAt-then _ log log' p q h.sees (k log')).sees;
      runs = λ e. cc;
    }
    then_run-at (err x) d log log' p q h k = record {
      sees = (AlwaysAt-then _ log log' p q h.sees (k log')).sees;
      runs = λ e. cc;
    }
    then_run-at crash d log log' p q h k = absurd (h.runs refl)

    pub Always-deferred :
        (m : Program C A) (d : Program C (Unit {0})) (p q : List D)
        → Always m p
        → Always d q
        → Always (deferred m d) (p ++ q)
    unfolding deferred
    Always-deferred m d p q h k log = then_run-at (m log).0 d log (m log).1 p q (h log) k

  module _ {A B : Type 0} where
    logged-at :
        (r : Outcome A) (rest : Program C B) (log log' : List C) (p q : List D)
        → AlwaysAt (r, log') p log
        → Always rest q
        → AlwaysAt (continue (settled r log').0 (λ _. rest) (settled r log').1) (p ++ q) log
    logged-at (ok a) rest log log' p q h k = AlwaysAt-then (rest log') log log' p q h.sees (k log')
    logged-at (err x) rest log log' p q h k = AlwaysAt-then (rest log') log log' p q h.sees (k log')
    logged-at crash rest log log' p q h k = absurd (h.runs refl)

    -- A part whose error is only looked at, and a rest: both run.
    pub Always-logged :
        (m : Program C A) (rest : Program C B) (p q : List D)
        → Always m p
        → Always rest q
        → Always (caught m >>= λ _. rest) (p ++ q)
    unfolding caught ◌>>=◌
    Always-logged m rest p q h k log = logged-at (m log).0 rest log (m log).1 p q (h log) k

  module _ {A B : Type 0} where
    continue-none :
        (r : Outcome A) (f : A → Program C B) (log log' : List C) (p : List D)
        → AlwaysAt (r, log') p log
        → ((a : A) → r ≡ ok a → AlwaysAt (f a log') [] log')
        → AlwaysAt (continue r f log') p log
    continue-none (ok a) f log log' p h k = record {
      sees = (k a refl).sees ∙ append-nil (seen view log') ∙ h.sees;
      runs = (k a refl).runs;
    }
    continue-none (err x) f log log' p h k = record { sees = h.sees; runs = λ e. cc }
    continue-none crash f log log' p h k = absurd (h.runs refl)

    -- A part, and a rest without effects: it does not matter whether the part fails.
    pub Always-bind :
        (m : Program C A) (f : A → Program C B) (p : List D)
        → Always m p
        → ((a : A) (log : List C) → (m log).0 ≡ ok a → AlwaysAt (f a (m log).1) [] (m log).1)
        → Always (m >>= f) p
    unfolding ◌>>=◌
    Always-bind m f p h k log = continue-none (m log).0 f log (m log).1 p (h log) λ a. k a log

    continue-ok :
        (r : Outcome A) (f : A → Program C B) (log log' : List C) (p q : List D) (a : A)
        → r ≡ ok a
        → seen view log' ≡ seen view log ++ p
        → Always (f a) q
        → AlwaysAt (continue r f log') (p ++ q) log
    continue-ok r f log log' p q a e h k = rw e (AlwaysAt-then (f a log') log log' p q h (k log'))

    -- A part that succeeds, and a rest with effects.
    pub AlwaysAt-bind :
        (m : Program C A) (f : A → Program C B) (log : List C) (p q : List D) (a : A)
        → (m log).0 ≡ ok a
        → seen view (m log).1 ≡ seen view log ++ p
        → Always (f a) q
        → AlwaysAt ((m >>= f) log) (p ++ q) log
    unfolding ◌>>=◌
    AlwaysAt-bind m f log p q a e h k = continue-ok (m log).0 f log (m log).1 p q a e h k
