-- ===== src/Runtime/Containerd/Tasks/Stops.antt =====
-- pkg/runtime/containerd.go: what StopContainer does, and that it forgives the errors of the task.
use eliot.Prelude.{
  Bytes, codes, true, ◌||◌, ◌==◌, bytes_eq, [], ◌∷◌, ◌++◌, if◌then◌else◌, Outcome, ok, err, crash,
  Error, ◌≡◌, refl, Bool-cases, inl, inr, subst, sym, ◌∙◌,
}
use eliot.Model.{ContainerStatus}
use eliot.Program.{Program, pure, raise, halt, ask, caught, settled, continue, ◌>>=◌}
use eliot.Program.Plan.{
  Plan, must, may, gives, void, forgiven, voided, ran, ObeysAt, Obeys-ask, bind-ObeysAt,
  ask-ObeysAt, caught-ObeysAt,
}
use eliot.Program.Returns.{
  returns-ask, returns-caught, returns-forgiven, returns-bind, continue-crash,
}
use eliot.Runtime.Containerd.Containers.{Info}
use eliot.Runtime.Containerd.Tasks.{
  TaskCall, connect, load_container, container_info, get_task, task_status, delete_task_kill,
  kill_task, delete_container, Log, Daemon, Run, is_missing, load, is_alive, ensure_task_stopped,
  remove_task, tolerate_missing, stopped_status, stop_container,
}

-- A missing task or container is no error.
abbrev pub unless_missing : Outcome (Unit {0}) → Outcome (Unit {0})
unless_missing (ok _) = ok tt
unless_missing (err e) = if is_missing e then ok tt else err e
unless_missing crash = crash

module _ (d : Daemon) where
  -- SIGTERM, for a task that is running, paused or pausing; the error of sending it does not count.
  abbrev pub term_steps : Outcome Bytes → Plan TaskCall
  term_steps (ok status) =
      if status == codes "running" || (status == codes "paused" || status == codes "pausing")
      then may (kill_task 15) d.done ∷ []
      else []
  term_steps (err e) = []
  term_steps crash = []

  -- What is done to a task that is there, where the question of its status has this answer.
  abbrev pub stop_steps : Outcome (Unit {0}) → Outcome Bytes → Plan TaskCall
  stop_steps (ok _) status =
      may task_status d.status ∷ term_steps status ++ may delete_task_kill d.done ∷ []
  stop_steps (err e) status = []
  stop_steps crash status = []

  abbrev remove_steps : Outcome (Unit {0}) → Outcome Bytes → Plan TaskCall
  remove_steps (ok _) status = stop_steps (ok tt) status
  remove_steps (err e) status = gives (unless_missing (err e)) ∷ []
  remove_steps crash status = gives (unless_missing crash) ∷ []

  abbrev kill_if : Bytes → Run (Unit {0})
  kill_if status = if is_alive d status then ask (kill_task 15) d.done else pure tt

  -- A call whose result is settled.
  settled_may :
      (r : Outcome (Unit {0})) (log : Log)
      → (void (settled r log).0, (settled r log).1) ≡ continue {0, 0} (forgiven r) (λ _. ran []) log
  settled_may (ok x) log = refl
  settled_may (err e) log = refl
  settled_may crash log = refl

  settled_kill :
      (status : Bytes) (log : Log)
      → ObeysAt (settled (kill_if status log).0 (kill_if status log).1) (term_steps (ok status)) log
  unfolding ask pure is_alive
  settled_kill status log = elim (Bool-cases (is_alive d status)) [
    | inl e ↦ rw e (settled_may (d.done (log ++ kill_task 15 ∷ [])) (log ++ kill_task 15 ∷ []))
    | inr e ↦ rw e refl
  ]

  settled_status :
      (r : Outcome Bytes) (log : Log)
      → voided (settled (continue r kill_if log).0 (continue r kill_if log).1)
        ≡ continue {0, 0} (forgiven r) (λ _. ran (term_steps r)) log
  settled_status (ok s) log = settled_kill s log
  settled_status (err e) log = refl
  settled_status crash log = refl

  caught_ensure-ObeysAt :
      (log : Log)
      → ObeysAt
          (caught (ensure_task_stopped d) log)
          (may task_status d.status ∷ term_steps (d.status (log ++ task_status ∷ [])))
          log
  unfolding caught ensure_task_stopped ask ◌>>=◌
  caught_ensure-ObeysAt log =
      settled_status (d.status (log ++ task_status ∷ [])) (log ++ task_status ∷ [])

  remove_task-ObeysAt :
      (task : Outcome (Unit {0})) (log : Log)
      → ObeysAt
          (remove_task d task log)
          (remove_steps task (d.status (log ++ task_status ∷ [])))
          log
  unfolding remove_task pure raise halt
  remove_task-ObeysAt (ok x) log =
      bind-ObeysAt (caught (ensure_task_stopped d)) _ log
        (may task_status d.status ∷ term_steps (d.status (log ++ task_status ∷ [])))
        (may delete_task_kill d.done ∷ []) (caught_ensure-ObeysAt log)
        λ _ _. caught-ObeysAt delete_task_kill d.done _ _ [] refl
  remove_task-ObeysAt (err e) log = elim (Bool-cases (is_missing e)) [
    | inl h ↦ rw h refl
    | inr h ↦ rw h refl
  ]
  remove_task-ObeysAt crash log = refl

  -- The error of fetching the task is looked at before anything is done to it.
  fetched :
      (task : Outcome (Unit {0})) (status : Outcome Bytes) (q : Plan TaskCall) (log : Log)
      → continue {0, 0} (forgiven task) (λ _. ran (remove_steps task status ++ q)) log
        ≡ continue {0, 0} (void (unless_missing task)) (λ _. ran (stop_steps task status ++ q)) log
  fetched (ok x) status q log = refl
  fetched (err e) status q log = refl
  fetched crash status q log = refl

  tolerated :
      (r : Outcome (Unit {0})) (info : Info) (log : Log)
      → voided (
          continue
            (settled r log).0
            (λ r. tolerate_missing d r >>= λ _. pure (stopped_status d info))
            (settled r log).1)
        ≡ continue {0, 0} (void (unless_missing r)) (λ _. ran []) log
  unfolding tolerate_missing pure raise ◌>>=◌
  tolerated (ok x) info log = refl
  tolerated (err e) info log = elim (Bool-cases (is_missing e)) [
    | inl h ↦ rw h refl
    | inr h ↦ rw h refl
  ]
  tolerated crash info log = refl

  -- The call that deletes the container.
  abbrev pub delete_step : Plan TaskCall
  delete_step = must delete_container (λ log. unless_missing (d.done log)) ∷ []

  delete_container-ObeysAt :
      (info : Info) (log : Log)
      → ObeysAt
          ((do
            deleted ← caught (ask delete_container d.done)
            _ ← tolerate_missing d deleted
            pure (stopped_status d info))
            log)
          delete_step
          log
  unfolding caught ask ◌>>=◌
  delete_container-ObeysAt info log =
      tolerated (d.done (log ++ delete_container ∷ [])) info (log ++ delete_container ∷ [])

  load_end :
      (r : Outcome (Unit {0})) (name : Bytes) (a : Unit {0}) (log : Log)
      → (continue r (λ _. ask (load_container name) d.done) log).0 ≡ ok a
      → (continue r (λ _. ask (load_container name) d.done) log).1 ≡ log ++ load_container name ∷ []
  unfolding ask
  load_end (ok x) name a log e = refl
  load_end (err x) name a log e = absurd cc
  load_end crash name a log e = absurd cc

  -- Where a container is loaded are the two calls of it.
  load_log :
      (ns name : Bytes) (a : Unit {0}) (log : Log)
      → (load d ns name log).0 ≡ ok a
      → (load d ns name log).1 ≡ log ++ connect ns ∷ [] ++ load_container name ∷ []
  unfolding load ask ◌>>=◌
  load_log ns name a log e =
      load_end (d.done (log ++ connect ns ∷ [])) name a (log ++ connect ns ∷ []) e

  -- What StopContainer does behind the loading.
  stop_loaded : Run ContainerStatus
  stop_loaded = do
    info ← ask container_info d.info
    task ← caught (ask get_task d.done)
    _ ← remove_task d task
    deleted ← caught (ask delete_container d.done)
    _ ← tolerate_missing d deleted
    pure (stopped_status d info)

  abbrev pub fetch_step : Program TaskCall (Unit {0})
  fetch_step = must get_task (λ log. unless_missing (d.done log))

  stop_loaded-ObeysAt :
      (loaded : Log)
      → (let asked = loaded ++ container_info ∷ [] ++ get_task ∷ [] in
          ObeysAt
            (stop_loaded loaded)
            (must container_info d.info
                ∷ fetch_step
                ∷ stop_steps (d.done asked) (d.status (asked ++ task_status ∷ []))
              ++ delete_step)
            loaded)
  unfolding stop_loaded
  stop_loaded-ObeysAt loaded =
      let shown = loaded ++ container_info ∷ [] in
      let asked = shown ++ get_task ∷ [] in
      let task = d.done asked in
      let status = d.status (asked ++ task_status ∷ []) in
      ask-ObeysAt container_info d.info _ loaded
        (fetch_step ∷ stop_steps task status ++ delete_step)
        λ info _.
          caught-ObeysAt get_task d.done _ shown (remove_steps task status ++ delete_step) (
            bind-ObeysAt (remove_task d task) _ asked (remove_steps task status) delete_step
              (remove_task-ObeysAt task asked) λ _ _. delete_container-ObeysAt info _)
          ∙ fetched task status delete_step asked

  -- Stopping a container does this and nothing else: the container is loaded and looked at, and its
  -- task is fetched. A task that is there is asked for its status, is sent SIGTERM if it is running,
  -- paused or pausing, and is deleted with force, and errors of these three calls change nothing. Then
  -- the container is deleted. A task or a container that is missing is no error; the stop ends at the
  -- first other error, with this error, and succeeds if there is none.
  pub stop_container-ObeysAt :
      (ns name : Bytes) (log : Log)
      → (let loaded = log ++ connect ns ∷ [] ++ load_container name ∷ [] in
          let asked = loaded ++ container_info ∷ [] ++ get_task ∷ [] in
          ObeysAt
            (stop_container d ns name log)
            (must (connect ns) d.done
                ∷ must (load_container name) d.done
                ∷ must container_info d.info
                ∷ fetch_step
                ∷ stop_steps (d.done asked) (d.status (asked ++ task_status ∷ []))
              ++ delete_step)
            log)
  unfolding stop_container stop_loaded load
  stop_container-ObeysAt ns name log =
      let loaded = log ++ connect ns ∷ [] ++ load_container name ∷ [] in
      let asked = loaded ++ container_info ∷ [] ++ get_task ∷ [] in
      let rest =
        must container_info d.info
          ∷ fetch_step
          ∷ stop_steps (d.done asked) (d.status (asked ++ task_status ∷ []))
        ++ delete_step in
      bind-ObeysAt (load d ns name) (λ _. stop_loaded) log
        (must (connect ns) d.done ∷ must (load_container name) d.done ∷ []) rest
        (ask-ObeysAt (connect ns) d.done _ log (must (load_container name) d.done ∷ [])
          λ _ _. Obeys-ask (load_container name) d.done (log ++ connect ns ∷ []))
        λ a e.
          subst (λ l. ObeysAt (stop_loaded l) rest l) (sym (load_log ns name a log e))
            (stop_loaded-ObeysAt loaded)

-- What a stop needs: the container is found, fetching its task does not fail, and in the end the
-- container is deleted, or was before. Nothing is asked of signals and of the deletion of the task,
-- but that they do not panic.
pub record Deletable (d : Daemon) (ns name : Bytes) (info : Info) : Type 0 where
  pub runs : (log : Log) → d.done log ≡ crash → ⊥
  pub tells : (log : Log) → d.status log ≡ crash → ⊥
  pub connects : (log : Log) → d.done (log ++ connect ns ∷ []) ≡ ok tt
  pub loads : (log : Log) → d.done (log ++ load_container name ∷ []) ≡ ok tt
  pub shows : (log : Log) → d.info (log ++ container_info ∷ []) ≡ ok info
  pub fetches :
      (log : Log) → (e : Error) → d.done (log ++ get_task ∷ []) ≡ err e → is_missing e ≡ true
  pub deletes :
      (log : Log) (e : Error) → d.done (log ++ delete_container ∷ []) ≡ err e → is_missing e ≡ true

module _ (d : Daemon) (ns name : Bytes) (info : Info) (h : Deletable d ns name info) where
  kill_if-crash : (s : Bytes) (log : Log) → (kill_if d s log).0 ≡ crash → ⊥
  unfolding ask pure
  kill_if-crash s log = elim (Bool-cases (is_alive d s)) [
    | inl e ↦ rw e (h.runs _)
    | inr e ↦ rw e (λ (x : ok tt ≡ crash). cc)
  ]

  ensure-crash : (log : Log) → (ensure_task_stopped d log).0 ≡ crash → ⊥
  unfolding ensure_task_stopped ask ◌>>=◌
  ensure-crash log =
      continue-crash (d.status (log ++ task_status ∷ [])) (kill_if d) (log ++ task_status ∷ [])
        (h.tells _) λ s. kill_if-crash s _

  load-loads : (log : Log) → (ask (load_container name) d.done log).0 ≡ ok tt
  unfolding ask
  load-loads log = h.loads log

  remove_task-returns :
      (r : Outcome (Unit {0})) (log : Log)
      → (r ≡ crash → ⊥)
      → ((e : Error) → r ≡ err e → is_missing e ≡ true)
      → (remove_task d r log).0 ≡ ok tt
  unfolding remove_task pure
  remove_task-returns (ok x) log n k =
      returns-forgiven (ensure_task_stopped d) _ log (ok tt) (ensure-crash log)
        λ _. returns-caught delete_task_kill d.done _ _ (ok tt) (h.runs _) refl
  remove_task-returns (err e) log n k = rw (k e refl) refl
  remove_task-returns crash log n k = absurd (n refl)

  tolerate-returns :
      (r : Outcome (Unit {0})) (log : Log)
      → (r ≡ crash → ⊥)
      → ((e : Error) → r ≡ err e → is_missing e ≡ true)
      → (tolerate_missing d r log).0 ≡ ok tt
  unfolding tolerate_missing pure
  tolerate-returns (ok x) log n k = refl
  tolerate-returns (err e) log n k = rw (k e refl) refl
  tolerate-returns crash log n k = absurd (n refl)

-- A container that is found, whose task can be fetched or is missing, and that is deleted or was
-- before, is reported as stopped, with its id and image, but without its name, whatever signals and
-- the deletion of its task return.
pub stop_container-forgives :
    (d : Daemon) (ns name : Bytes) (info : Info) (log : Log)
    → Deletable d ns name info
    → (stop_container d ns name log).0
      ≡ ok (record {
        container_id = info.id;
        name = [];
        image = info.image;
        state = codes "stopped";
        restart_count = 0;
      })
unfolding stop_container stopped_status load pure
stop_container-forgives d ns name info log h =
    returns-bind (load d ns name) _ log tt _
      (returns-ask (connect ns) d.done _ log tt _ (h.connects log) (load-loads d ns name info h _))
      (returns-ask container_info d.info _ _ info _ (h.shows _) (
        returns-caught get_task d.done _ _ _ (h.runs _) (
          returns-bind (remove_task d _) _ _ tt _
            (remove_task-returns d ns name info h _ _ (h.runs _) (h.fetches _))
            (returns-caught delete_container d.done _ _ _ (h.runs _) (
              returns-bind (tolerate_missing d _) _ _ tt _
                (tolerate-returns d ns name info h _ _ (h.runs _) (h.deletes _)) refl)))))
