-- ===== src/Runtime/Containerd/Tasks/Laws.antt =====
-- pkg/runtime/containerd.go and pkg/runtime/containerd/io.go: what StartContainer does up to the task,
-- and that it changes no container and no task.
use eliot.Prelude.{Bytes, List, [], ◌∷◌, Outcome, ok, err, crash}
use eliot.Runtime.{IoSet}
use eliot.Program.{lift}
use eliot.Program.Effects.{
  EffectsAt, EffectsAt-ask, EffectsAt-pure, EffectsAt-lift, EffectsAt-raise, EffectsAt-halt,
  EffectsAt-caught, EffectsAt-step, EffectsAt-bind,
}
use eliot.Runtime.Containerd.Tasks.{
  TaskCall, connect, load_container, container_info, make_parent, open_fifo, close_fifo, get_task,
  task_status, delete_task, delete_task_kill, new_task, start_task, kill_task, kill_all,
  update_container, delete_container, new_container, exec_task, start_process, delete_process, Log,
  Daemon, Run, require_tty, load, text_of, status_of, resolve_container_status, ensure_dirs_exist,
  close_all, opened_or, open_or_close, new_direct_io, prepare,
}

-- The calls that change a container, its task or a process of it.
abbrev pub change_of : TaskCall → List TaskCall
change_of delete_task = delete_task ∷ []
change_of delete_task_kill = delete_task_kill ∷ []
change_of new_task = new_task ∷ []
change_of start_task = start_task ∷ []
change_of (kill_task n) = kill_task n ∷ []
change_of (kill_all n) = kill_all n ∷ []
change_of (update_container f) = update_container f ∷ []
change_of delete_container = delete_container ∷ []
change_of (new_container info) = new_container info ∷ []
change_of (exec_task id args tty) = exec_task id args tty ∷ []
change_of start_process = start_process ∷ []
change_of delete_process = delete_process ∷ []
change_of _ = []

-- What a program changes from the log on, with its plan.
abbrev pub ChangesAt : {A : Type 0} → Run A → List TaskCall → Log → Type 0
ChangesAt m plan log = EffectsAt change_of (m log) plan log

module _ (d : Daemon) where
  pub load-ChangesAt : (ns id : Bytes) (log : Log) → ChangesAt (load d ns id) [] log
  unfolding load
  load-ChangesAt ns id log =
      EffectsAt-step change_of (connect ns) d.done _ log []
        λ _ _. EffectsAt-ask change_of (load_container id) d.done _

  text_of-ChangesAt : (r : Outcome Bytes) (log : Log) → ChangesAt (text_of d r) [] log
  unfolding text_of
  text_of-ChangesAt (ok s) log = EffectsAt-pure change_of s log
  text_of-ChangesAt (err e) log = EffectsAt-pure change_of [] log
  text_of-ChangesAt crash log = EffectsAt-halt change_of log []

  status_of-ChangesAt : (r : Outcome (Unit {0})) (log : Log) → ChangesAt (status_of d r) [] log
  unfolding status_of
  status_of-ChangesAt (ok x) log =
      EffectsAt-caught change_of task_status d.status (text_of d) log [] (text_of-ChangesAt _ _)
  status_of-ChangesAt (err e) log = EffectsAt-pure change_of [] log
  status_of-ChangesAt crash log = EffectsAt-halt change_of log []

  pub resolve-ChangesAt : (log : Log) → ChangesAt (resolve_container_status d) [] log
  unfolding resolve_container_status
  resolve-ChangesAt log =
      EffectsAt-caught change_of get_task d.done (status_of d) log [] (status_of-ChangesAt _ _)

  ensure_dirs_exist-ChangesAt :
      (ps : List Bytes) (log : Log) → ChangesAt (ensure_dirs_exist d ps) [] log
  unfolding ensure_dirs_exist
  ensure_dirs_exist-ChangesAt [] log = EffectsAt-pure change_of tt log
  ensure_dirs_exist-ChangesAt (p ∷ ps) log =
      EffectsAt-step change_of (make_parent p) d.done _ log []
        λ _ _. ensure_dirs_exist-ChangesAt ps _

  close_all-ChangesAt : (ps : List Bytes) (log : Log) → ChangesAt (close_all d ps) [] log
  unfolding close_all
  close_all-ChangesAt [] log = EffectsAt-pure change_of tt log
  close_all-ChangesAt (p ∷ ps) log =
      EffectsAt-caught change_of (close_fifo p) d.done _ log [] (close_all-ChangesAt ps _)

  opened_or-ChangesAt :
      (ps : List Bytes) (r : Outcome (Unit {0})) (log : Log) → ChangesAt (opened_or d ps r) [] log
  unfolding opened_or
  opened_or-ChangesAt ps (ok x) log = EffectsAt-pure change_of tt log
  opened_or-ChangesAt ps (err e) log =
      EffectsAt-bind change_of (close_all d ps) _ log [] [] (close_all-ChangesAt ps log)
        λ _ _. EffectsAt-raise change_of e _ []
  opened_or-ChangesAt ps crash log = EffectsAt-halt change_of log []

  open_or_close-ChangesAt :
      (p : Bytes) (ps : List Bytes) (log : Log) → ChangesAt (open_or_close d p ps) [] log
  unfolding open_or_close
  open_or_close-ChangesAt p ps log =
      EffectsAt-caught change_of (open_fifo p) d.done (opened_or d ps) log []
        (opened_or-ChangesAt ps _ _)

  new_direct_io-ChangesAt : (set : IoSet) (log : Log) → ChangesAt (new_direct_io d set) [] log
  unfolding new_direct_io
  new_direct_io-ChangesAt set log =
      let i = set.stdin in
      let o = set.stdout in
      EffectsAt-bind change_of (ensure_dirs_exist d (i ∷ o ∷ set.stderr ∷ [])) _ log [] []
        (ensure_dirs_exist-ChangesAt (i ∷ o ∷ set.stderr ∷ []) log)
        λ _ _.
          EffectsAt-bind change_of (open_or_close d i []) _ _ [] [] (open_or_close-ChangesAt i [] _)
            λ _ _.
              EffectsAt-bind change_of (open_or_close d o (i ∷ [])) _ _ [] []
                (open_or_close-ChangesAt o (i ∷ []) _)
                λ _ _. open_or_close-ChangesAt set.stderr (i ∷ o ∷ []) _

  pub prepare-ChangesAt :
      (ns id : Bytes) (set : IoSet) (log : Log) → ChangesAt (prepare d ns id set) [] log
  unfolding prepare
  prepare-ChangesAt ns id set log =
      EffectsAt-bind change_of (load d ns id) _ log [] [] (load-ChangesAt ns id log) λ _ _.
        EffectsAt-step change_of container_info d.info _ _ [] λ info _.
          EffectsAt-bind change_of (lift (require_tty info)) _ _ [] []
            (EffectsAt-lift change_of _ _)
            λ _ _.
              EffectsAt-bind change_of (new_direct_io d set) _ _ [] []
                (new_direct_io-ChangesAt set _) λ _ _. EffectsAt-pure change_of info _
