-- ===== src/Program/Plan.antt =====
-- Plans: lists of steps that are run one after another, up to the first that fails. A program obeys a
-- plan if it makes the same calls with the same result. One rule for each way to build a program.
use mathlib.Core.List.{flat_map}
use eliot.Prelude.{
  List, [], ◌∷◌, ◌++◌, Outcome, ok, err, crash, ◌≡◌, refl, sym, ap, ◌∙◌, append-nil, subst,
}
use eliot.Program.{Program, pure, lift, ask, caught, settled, continue, ◌>>=◌, for_each}

-- Whether something succeeded, without its result.
abbrev pub void {ℓ} : {A : Type ℓ} → Outcome A → Outcome (Unit {0})
void (ok a) = ok tt
void (err e) = err e
void crash = crash

-- An error counts as a success; a panic remains one.
abbrev pub forgiven {ℓ} : {A : Type ℓ} → Outcome A → Outcome (Unit {0})
forgiven (ok a) = ok tt
forgiven (err e) = ok tt
forgiven crash = crash

abbrev pub Plan : Type 0 → Type 0
Plan C = List (Program C (Unit {0}))

module _ {C : Type 0} where
  abbrev pub ran : Plan C → Program C (Unit {0})
  ran [] log = (ok tt, log)
  ran (step ∷ steps) log = continue (step log).0 (λ _. ran steps) (step log).1

  abbrev pub voided {ℓ} : {A : Type ℓ} → Outcome A × List C → Outcome (Unit {0}) × List C
  voided r = (void r.0, r.1)

  -- A call whose error ends the plan, and one whose error does not.
  abbrev pub must {ℓ} : {A : Type ℓ} → C → (List C → Outcome A) → Program C (Unit {0})
  must call answer log = (void (answer (log ++ call ∷ [])), log ++ call ∷ [])

  abbrev pub may {ℓ} : {A : Type ℓ} → C → (List C → Outcome A) → Program C (Unit {0})
  may call answer log = (forgiven (answer (log ++ call ∷ [])), log ++ call ∷ [])

  -- A step without a call.
  abbrev pub gives {ℓ} : {A : Type ℓ} → Outcome A → Program C (Unit {0})
  gives r log = (void r, log)

  continue_assoc :
      (r : Outcome (Unit {0})) (f g : Program C (Unit {0})) (log : List C)
      → continue r (λ _ l. continue (f l).0 (λ _. g) (f l).1) log
        ≡ (let m = continue r (λ _. f) log in continue m.0 (λ _. g) m.1)
  continue_assoc (ok x) f g log = refl
  continue_assoc (err e) f g log = refl
  continue_assoc crash f g log = refl

  ran-append :
      (p q : Plan C) (log : List C)
      → ran (p ++ q) log ≡ continue (ran p log).0 (λ _. ran q) (ran p log).1
  ran-append [] q log = refl
  ran-append (step ∷ p) q log =
      ap (λ m. continue (step log).0 m (step log).1) (λ i _ l. ran-append p q l i)
      ∙ continue_assoc (step log).0 (ran p) (ran q) (step log).1

module _ {ℓ} {C : Type 0} {A : Type ℓ} where
  abbrev pub ObeysAt : Outcome A × List C → Plan C → List C → Type 0
  ObeysAt r plan log = voided r ≡ ran plan log

  abbrev pub Obeys : Program C A → Plan C → Type 0
  Obeys m plan = (log : List C) → ObeysAt (m log) plan log

ok-injective {ℓ} : {A : Type ℓ} {a b : A} → ok a ≡ ok b → a ≡ b
ok-injective e = cc

module _ {ℓ} {C : Type 0} {A : Type ℓ} where
  void-last :
      (r : Outcome A) (log : List C) → (void r, log) ≡ continue {0, 0} (void r) (λ _. ran []) log
  void-last (ok a) log = refl
  void-last (err e) log = refl
  void-last crash log = refl

  pub Obeys-pure : (a : A) → Obeys {C = C} (pure a) []
  unfolding pure
  Obeys-pure a log = refl

  pub Obeys-ask :
      (call : C) (answer : List C → Outcome A) → Obeys (ask call answer) (must call answer ∷ [])
  unfolding ask
  Obeys-ask call answer log = void-last (answer (log ++ call ∷ [])) (log ++ call ∷ [])

  pub Obeys-lift : (r : Outcome A) → Obeys {C = C} (lift r) (gives r ∷ [])
  unfolding lift
  Obeys-lift r log = void-last r log

module _ {ℓ κ} {C : Type 0} {A : Type ℓ} {B : Type κ} where
  -- A part, and the part behind it, which may use its result.
  pub continue-ObeysAt :
      (r : Outcome A) (f : A → Program C B) (log log' : List C) (p q : Plan C)
      → ObeysAt (r, log') p log
      → ((a : A) → r ≡ ok a → ObeysAt (f a log') q log')
      → ObeysAt (continue r f log') (p ++ q) log
  continue-ObeysAt (ok a) f log log' p q h k =
      k a refl ∙ ap (λ x. continue x.0 (λ _. ran q) x.1) h ∙ sym (ran-append p q log)
  continue-ObeysAt (err e) f log log' p q h k =
      ap (λ x. continue x.0 (λ _. ran q) x.1) h ∙ sym (ran-append p q log)
  continue-ObeysAt crash f log log' p q h k =
      ap (λ x. continue x.0 (λ _. ran q) x.1) h ∙ sym (ran-append p q log)

module _ {ℓ} {C : Type 0} {A B : Type ℓ} where
  pub bind-ObeysAt :
      (m : Program C A) (f : A → Program C B) (log : List C) (p q : Plan C)
      → ObeysAt (m log) p log
      → ((a : A) → (m log).0 ≡ ok a → ObeysAt (f a (m log).1) q (m log).1)
      → ObeysAt ((m >>= f) log) (p ++ q) log
  unfolding ◌>>=◌
  bind-ObeysAt m f log p q h k = continue-ObeysAt (m log).0 f log (m log).1 p q h k

  -- A part whose result is known, and the rest.
  pub bind-at :
      (m : Program C A) (f : A → Program C B) (log : List C) (a : A)
      → (m log).0 ≡ ok a
      → (m >>= f) log ≡ f a (m log).1
  unfolding ◌>>=◌
  bind-at m f log a e = ap (λ r. continue r f (m log).1) e

  -- A call, and a rest that starts behind it.
  pub ask-ObeysAt :
      (call : C) (answer : List C → Outcome A) (f : A → Program C B) (log : List C) (q : Plan C)
      → ((a : A)
          → answer (log ++ call ∷ []) ≡ ok a
          → ObeysAt (f a (log ++ call ∷ [])) q (log ++ call ∷ []))
      → ObeysAt ((ask call answer >>= f) log) (must call answer ∷ q) log
  unfolding ask ◌>>=◌
  ask-ObeysAt call answer f log q k =
      continue-ObeysAt (answer (log ++ call ∷ [])) f log (log ++ call ∷ []) (must call answer ∷ [])
        q (void-last (answer (log ++ call ∷ [])) (log ++ call ∷ [])) k

  settled-ObeysAt :
      (r : Outcome A) (f : Outcome A → Program C B) (log : List C) (q : Plan C)
      → ObeysAt (f r log) q log
      → voided (continue (settled r log).0 f (settled r log).1)
        ≡ continue (forgiven r) (λ _. ran q) log
  settled-ObeysAt (ok a) f log q h = h
  settled-ObeysAt (err e) f log q h = h
  settled-ObeysAt crash f log q h = refl

  -- A call whose error the rest looks at.
  pub caught-ObeysAt :
      (call : C) (answer : List C → Outcome A) (f : Outcome A → Program C B) (log : List C)
      (q : Plan C)
      → ObeysAt (f (answer (log ++ call ∷ [])) (log ++ call ∷ [])) q (log ++ call ∷ [])
      → ObeysAt ((caught (ask call answer) >>= f) log) (may call answer ∷ q) log
  unfolding caught ask ◌>>=◌
  caught-ObeysAt call answer f log q h =
      settled-ObeysAt (answer (log ++ call ∷ [])) f (log ++ call ∷ []) q h

module _ {ℓ} {C : Type 0} {A B : Type ℓ} where
  -- A last step that only computes the result.
  pub last-ObeysAt :
      (m : Program C A) (f : A → B) (log : List C) (p : Plan C)
      → ObeysAt (m log) p log
      → ObeysAt ((m >>= λ a. pure (f a)) log) p log
  unfolding pure
  last-ObeysAt m f log p h =
      subst (λ q. ObeysAt ((m >>= λ a. pure (f a)) log) q log) (append-nil p)
        (bind-ObeysAt m (λ a. pure (f a)) log p [] h (λ a _. refl))

module _ {ℓ} {C : Type 0} {A B : Type ℓ} where
  -- A loop obeys the plans of its rounds, one after another.
  pub Obeys-for_each :
      (f : A → Program C B) (plan : A → Plan C) (xs : List A)
      → ((x : A) → Obeys (f x) (plan x))
      → Obeys (for_each f xs) (flat_map plan xs)
  unfolding for_each flat_map pure
  Obeys-for_each f plan [] h log = refl
  Obeys-for_each f plan (x ∷ xs) h log =
      bind-ObeysAt (f x) _ log (plan x) (flat_map plan xs) (h x log) λ y _.
        last-ObeysAt (for_each f xs) (λ ys. y ∷ ys) _ (flat_map plan xs)
          (Obeys-for_each f plan xs h _)
