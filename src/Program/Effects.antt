-- ===== src/Program/Effects.antt =====
-- The effects of a program: what some of its calls change, seen through a view that leaves the others
-- out. One rule for each way to build a program.
use eliot.Prelude.{
  List, [], ◌∷◌, ◌++◌, Outcome, ok, err, crash, Error, ◌≡◌, refl, sym, ap, ◌∙◌, append_assoc,
  append-nil, subst,
}
use eliot.Program.{Program, pure, raise, halt, lift, ask, caught, settled, continue, ◌>>=◌}

abbrev pub IsOk {ℓ} : {A : Type ℓ} → Outcome A → Type 0
IsOk (ok a) = Unit
IsOk (err e) = ⊥
IsOk crash = ⊥

ok-injective : {A : Type 0} {a b : A} → ok a ≡ ok b → a ≡ b
ok-injective e = cc

module _ {C D : Type 0} (view : C → List D) where
  abbrev pub seen : List C → List D
  seen [] = []
  seen (c ∷ cs) = view c ++ seen cs

  pub seen-append : (p q : List C) → seen (p ++ q) ≡ seen p ++ seen q
  seen-append [] q = refl
  seen-append (c ∷ p) q =
      ap (λ t. view c ++ t) (seen-append p q) ∙ sym (append_assoc (view c) (seen p) (seen q))

  pub seen-call : (log : List C) (c : C) → seen (log ++ c ∷ []) ≡ seen log ++ view c
  seen-call log c = seen-append log (c ∷ []) ∙ ap (λ t. seen log ++ t) (append-nil (view c))

  -- The effects behind log, those left out, and what ties them to the plan.
  pub record EffectsAt {A : Type 0} (r : Outcome A × List C) (plan : List D) (log : List C)
      : Type 0 where
    pub made : List D
    pub left : List D
    pub shape : plan ≡ made ++ left
    pub effects : seen r.1 ≡ seen log ++ made
    pub complete : IsOk r.0 → left ≡ []

  module _ {A : Type 0} where
    pub EffectsAt-none : (r : Outcome A) (log : List C) → EffectsAt (r, log) [] log
    EffectsAt-none r log = record {
      made = [];
      left = [];
      shape = refl;
      effects = sym (append-nil (seen log));
      complete = λ _. refl;
    }

    -- What fails at once has no effect of any plan.
    pub EffectsAt-failed :
        (r : Outcome A) (log : List C) (plan : List D) → (IsOk r → ⊥) → EffectsAt (r, log) plan log
    EffectsAt-failed r log plan n = record {
      made = [];
      left = plan;
      shape = refl;
      effects = sym (append-nil (seen log));
      complete = λ h. absurd (n h);
    }

    -- One call, whatever its answer.
    pub EffectsAt-call :
        (r : Outcome A) (call : C) (log : List C) → EffectsAt (r, log ++ call ∷ []) (view call) log
    EffectsAt-call r call log = record {
      made = view call;
      left = [];
      shape = sym (append-nil (view call));
      effects = seen-call log call;
      complete = λ _. refl;
    }

    -- One that is made last.
    pub EffectsAt-after :
        (r : Outcome A) (call : C) (log log' : List C) (plan : List D)
        → view call ≡ []
        → EffectsAt (r, log') plan log
        → EffectsAt (r, log' ++ call ∷ []) plan log
    EffectsAt-after r call log log' plan e h = record {
      made = h.made;
      left = h.left;
      shape = h.shape;
      complete = h.complete;
      effects =
          seen-call log' call ∙ ap (λ t. seen log' ++ t) e ∙ append-nil (seen log') ∙ h.effects;
    }

    -- A call that the view leaves out does not count.
    pub EffectsAt-unseen :
        (r : Outcome A × List C) (call : C) (log : List C) (plan : List D)
        → view call ≡ []
        → EffectsAt r plan (log ++ call ∷ [])
        → EffectsAt r plan log
    EffectsAt-unseen r call log plan e h = record {
      made = h.made;
      left = h.left;
      shape = h.shape;
      complete = h.complete;
      effects =
          h.effects
          ∙ ap (λ t. t ++ h.made)
              (seen-call log call ∙ ap (λ t. seen log ++ t) e ∙ append-nil (seen log));
    }

  module _ {A B : Type 0} where
    EffectsAt-continue :
        (r : Outcome A) (f : A → Program C B) (log log' : List C) (p q : List D)
        → EffectsAt (r, log') p log
        → ((a : A) → r ≡ ok a → EffectsAt (f a log') q log')
        → EffectsAt (continue r f log') (p ++ q) log
    EffectsAt-continue (ok a) f log log' p q h k =
        let g = k a refl in
        record {
          made = h.made ++ g.made;
          left = g.left;
          shape =
              ap (λ t. t ++ q) (h.shape ∙ ap (λ t. h.made ++ t) (h.complete tt) ∙ append-nil h.made)
              ∙ ap (λ t. h.made ++ t) g.shape
              ∙ sym (append_assoc h.made g.made g.left);
          effects =
              g.effects ∙ ap (λ t. t ++ g.made) h.effects ∙ append_assoc (seen log) h.made g.made;
          complete = g.complete;
        }
    EffectsAt-continue (err e) f log log' p q h k = record {
      made = h.made;
      left = h.left ++ q;
      shape = ap (λ t. t ++ q) h.shape ∙ append_assoc h.made h.left q;
      effects = h.effects;
      complete = λ b. absurd b;
    }
    EffectsAt-continue crash f log log' p q h k = record {
      made = h.made;
      left = h.left ++ q;
      shape = ap (λ t. t ++ q) h.shape ∙ append_assoc h.made h.left q;
      effects = h.effects;
      complete = λ b. absurd b;
    }

    -- A step and the rest, which may use what the step returned.
    pub EffectsAt-bind :
        (m : Program C A) (f : A → Program C B) (log : List C) (p q : List D)
        → EffectsAt (m log) p log
        → ((a : A) → (m log).0 ≡ ok a → EffectsAt (f a (m log).1) q (m log).1)
        → EffectsAt ((m >>= f) log) (p ++ q) log
    unfolding ◌>>=◌
    EffectsAt-bind m f log p q h k = EffectsAt-continue (m log).0 f log (m log).1 p q h k

  module _ {A : Type 0} where
    pub EffectsAt-ask :
        (call : C) (answer : List C → Outcome A) (log : List C)
        → EffectsAt (ask call answer log) (view call) log
    unfolding ask
    EffectsAt-ask call answer log = EffectsAt-call (answer (log ++ call ∷ [])) call log

    pub EffectsAt-pure : (a : A) (log : List C) → EffectsAt (pure a log) [] log
    unfolding pure
    EffectsAt-pure a log = EffectsAt-none (ok a) log

    pub EffectsAt-lift : (r : Outcome A) (log : List C) → EffectsAt (lift r log) [] log
    unfolding lift
    EffectsAt-lift r log = EffectsAt-none r log

    pub EffectsAt-raise :
        (e : Error) (log : List C) (plan : List D) → EffectsAt (raise {A = A} e log) plan log
    unfolding raise
    EffectsAt-raise e log plan = EffectsAt-failed (err e) log plan (λ b. b)

    pub EffectsAt-halt : (log : List C) (plan : List D) → EffectsAt (halt {A = A} log) plan log
    unfolding halt
    EffectsAt-halt log plan = EffectsAt-failed crash log plan (λ b. b)

    pub EffectsAt-settled :
        (r : Outcome A) (call : C) (log : List C)
        → EffectsAt (settled r (log ++ call ∷ [])) (view call) log
    EffectsAt-settled (ok a) call log = EffectsAt-call (ok (ok a)) call log
    EffectsAt-settled (err e) call log = EffectsAt-call (ok (err e)) call log
    EffectsAt-settled crash call log = EffectsAt-call crash call log

  module _ {A B : Type 0} where
    settled-continue :
        (r : Outcome A) (f : Outcome A → Program C B) (call : C) (log : List C) (q : List D)
        → EffectsAt (f r (log ++ call ∷ [])) q (log ++ call ∷ [])
        → EffectsAt
            (continue (settled r (log ++ call ∷ [])).0 f (settled r (log ++ call ∷ [])).1)
            (view call ++ q)
            log
    settled-continue (ok a) f call log q h =
        EffectsAt-continue (ok (ok a)) f log (log ++ call ∷ []) (view call) q
          (EffectsAt-call (ok (ok a)) call log)
          λ b e.
            subst (λ x. EffectsAt (f x (log ++ call ∷ [])) q (log ++ call ∷ [])) (ok-injective e) h
    settled-continue (err x) f call log q h =
        EffectsAt-continue (ok (err x)) f log (log ++ call ∷ []) (view call) q
          (EffectsAt-call (ok (err x)) call log)
          λ b e.
            subst (λ x. EffectsAt (f x (log ++ call ∷ [])) q (log ++ call ∷ [])) (ok-injective e) h
    settled-continue crash f call log q h =
        EffectsAt-continue crash f log (log ++ call ∷ []) (view call) q
          (EffectsAt-call crash call log) λ b e. cc

    -- A call whose error the rest looks at: the rest may use the answer.
    pub EffectsAt-caught :
        (call : C) (answer : List C → Outcome A) (f : Outcome A → Program C B) (log : List C)
        (q : List D)
        → EffectsAt (f (answer (log ++ call ∷ [])) (log ++ call ∷ [])) q (log ++ call ∷ [])
        → EffectsAt ((caught (ask call answer) >>= f) log) (view call ++ q) log
    unfolding caught ask ◌>>=◌
    EffectsAt-caught call answer f log q h =
        settled-continue (answer (log ++ call ∷ [])) f call log q h

    -- A call, where the rest may use its answer and starts behind it.
    pub EffectsAt-step :
        (call : C) (answer : List C → Outcome A) (f : A → Program C B) (log : List C) (q : List D)
        → ((a : A)
            → answer (log ++ call ∷ []) ≡ ok a
            → EffectsAt (f a (log ++ call ∷ [])) q (log ++ call ∷ []))
        → EffectsAt ((ask call answer >>= f) log) (view call ++ q) log
    unfolding ask ◌>>=◌
    EffectsAt-step call answer f log q k =
        EffectsAt-continue (answer (log ++ call ∷ [])) f log (log ++ call ∷ []) (view call) q
          (EffectsAt-call (answer (log ++ call ∷ [])) call log) k

    -- A step that only computes.
    pub EffectsAt-lifted :
        (r : Outcome A) (f : A → Program C B) (log : List C) (q : List D)
        → ((a : A) → r ≡ ok a → EffectsAt (f a log) q log)
        → EffectsAt ((lift r >>= f) log) q log
    unfolding lift ◌>>=◌
    EffectsAt-lifted r f log q k = EffectsAt-continue r f log log [] q (EffectsAt-none r log) k
