-- ===== src/Controller/Laws/Serve.antt =====
-- pkg/controller/lifecycle.go: what Serve does, round by round.
use eliot.Prelude.{
  Bytes, Bool, true, false, List, [], ◌∷◌, Outcome, ok, err, crash, ◌≡◌, refl, ap, ◌∙◌,
}
use eliot.Model.{Pod}
use eliot.Program.{Program, continue, pure}
use eliot.Program.Plan.{Plan, void, ran, Obeys, ObeysAt, bind-ObeysAt}
use eliot.Runtime.{Call, World, Log, Exec}
use eliot.Controller.{check_all, or_panic, panicked, serve}
use eliot.Controller.Laws.{Answers, check_plan, check_all-Obeys}

-- An error is a panic.
abbrev pub never_err : Outcome (Unit {0}) → Outcome (Unit {0})
never_err (ok x) = ok x
never_err (err e) = crash
never_err crash = crash

-- A plan as one step, whose error is a panic.
abbrev pub round : Plan Call → Program Call (Unit {0})
round plan log = (never_err (ran plan log).0, (ran plan log).1)

-- A round for each tick, up to the first at which the controller is stopped.
abbrev pub rounds : List Bool → Plan Call → Plan Call
rounds [] plan = []
rounds (false ∷ ticks) plan = []
rounds (true ∷ ticks) plan = round plan ∷ rounds ticks plan

never_err-void : (r : Outcome (Unit {0})) → void (panicked r) ≡ never_err (void r)
unfolding panicked
never_err-void (ok x) = refl
never_err-void (err e) = refl
never_err-void crash = refl

one_step : (r : Outcome (Unit {0})) (log : Log) → (r, log) ≡ continue {0, 0} r (λ _. ran []) log
one_step (ok x) log = refl
one_step (err e) log = refl
one_step crash log = refl

or_panic-Obeys :
    (m : Exec (Unit {0})) (plan : Plan Call) → Obeys m plan → Obeys (or_panic m) (round plan ∷ [])
unfolding or_panic
or_panic-Obeys m plan h log =
    ap (λ r. (r, (m log).1)) (never_err-void (m log).0)
    ∙ ap (λ r. (never_err r.0, r.1)) (h log)
    ∙ one_step (never_err (ran plan log).0) (ran plan log).1

-- Where the runtime lists its namespaces and their pods, and these stay the same, Serve does this and
-- nothing else: at every tick up to the first at which Stop was called it asks for the namespaces and
-- for the pods of each, and for every container that is stopped, or unknown with the policy to run
-- always, it makes a directory and starts the container, in its namespace, with the streams in this
-- directory, whether starts before it failed or not. A directory that cannot be made is a panic,
-- behind which nothing is done; there is no panic but this one and those of the runtime.
pub serve-ObeysAt :
    (w : World) (namespaces : List Bytes) (pods : Bytes → List Pod) (ticks : List Bool) (log : Log)
    → Answers w namespaces pods
    → ObeysAt (serve w ticks log) (rounds ticks (check_plan w namespaces pods)) log
unfolding serve pure
serve-ObeysAt w namespaces pods [] log h = refl
serve-ObeysAt w namespaces pods (false ∷ ticks) log h = refl
serve-ObeysAt w namespaces pods (true ∷ ticks) log h =
    let plan = check_plan w namespaces pods in
    bind-ObeysAt (or_panic (check_all w)) (λ _. serve w ticks) log (round plan ∷ [])
      (rounds ticks plan)
      (or_panic-Obeys (check_all w) plan (check_all-Obeys w namespaces pods h) log)
      λ _ _. serve-ObeysAt w namespaces pods ticks _ h
