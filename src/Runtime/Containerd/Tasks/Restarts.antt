-- ===== src/Runtime/Containerd/Tasks/Restarts.antt =====
-- pkg/runtime/containerd.go: what StartContainer does, call by call.
use eliot.Prelude.{
  Bytes, codes, ◌||◌, ◌==◌, bytes_eq, [], ◌∷◌, ◌++◌, if◌then◌else◌, Outcome, ok, err, crash, ◌≡◌,
  refl,
}
use eliot.Model.{ContainerStatus}
use eliot.Program.{Program, pure, ask, caught, continue, ◌>>=◌}
use eliot.Program.Plan.{Plan, must, gives, void, forgiven, voided, ran}
use eliot.Runtime.Containerd.Containers.{
  Info, increment_restart, map_container_status_to_internal_model,
}
use eliot.Runtime.Containerd.Tasks.{
  TaskCall, get_task, task_status, delete_task, new_task, start_task, kill_task, update_container,
  Log, Daemon, Run, resolve_container_status, remove_old,
}
use eliot.Runtime.Containerd.Tasks.Stops.{unless_missing}

module _ (d : Daemon) where
  -- SIGTERM, for a task that is running, paused or pausing.
  abbrev term_steps : Outcome Bytes → Plan TaskCall
  term_steps (ok status) =
      if status == codes "running" || (status == codes "paused" || status == codes "pausing")
      then must (kill_task 15) d.done ∷ []
      else []
  term_steps (err e) = []
  term_steps crash = []

  -- What is done to a task that is there, where the question of its status has this answer.
  abbrev pub old_steps : Outcome (Unit {0}) → Outcome Bytes → Plan TaskCall
  old_steps (ok _) status =
      must task_status d.status ∷ term_steps status ++ must delete_task d.done ∷ []
  old_steps (err e) status = []
  old_steps crash status = []

  abbrev removal_steps : Outcome (Unit {0}) → Outcome Bytes → Plan TaskCall
  removal_steps (ok _) status = old_steps (ok tt) status
  removal_steps (err e) status = gives (unless_missing (err e)) ∷ []
  removal_steps crash status = gives (unless_missing crash) ∷ []

  fetched :
      (task : Outcome (Unit {0})) (status : Outcome Bytes) (q : Plan TaskCall) (log : Log)
      → continue {0, 0} (forgiven task) (λ _. ran (removal_steps task status ++ q)) log
        ≡ continue {0, 0} (void (unless_missing task)) (λ _. ran (old_steps task status ++ q)) log
  fetched (ok x) status q log = refl
  fetched (err e) status q log = refl
  fetched crash status q log = refl

  -- The questions behind the start, whose errors do not count.
  abbrev pub read_status : Program TaskCall (Unit {0})
  read_status log = voided (resolve_container_status d log)

  abbrev pub new_steps : Plan TaskCall
  new_steps =
      must new_task d.done
      ∷ must start_task d.done
      ∷ must (update_container increment_restart) d.done
      ∷ read_status
      ∷ []

  -- What StartContainer does where the streams are open, and where no task is left.
  start_new : Info → Run ContainerStatus
  start_new info = do
    _ ← ask new_task d.done
    _ ← ask start_task d.done
    _ ← ask (update_container increment_restart) d.done
    status ← resolve_container_status d
    pure (map_container_status_to_internal_model info status)

  start_prepared : Info → Run ContainerStatus
  start_prepared info = do old ← caught (ask get_task d.done); _ ← remove_old d old; start_new info
