-- ===== src/Runtime/Containerd/Tasks.antt =====
-- pkg/runtime/containerd.go and pkg/runtime/containerd/io.go: the methods that work on the task of a
-- container, as programs of calls to containerd and to the file system. The answers are a parameter,
-- a function of the calls made so far. A method has one container and one task at a time, so that the
-- calls on them do not name them.
pub mod Laws
pub mod Creation
pub mod Created
pub mod Stops
pub mod Restarts
pub mod Io
use eliot.Prelude.{
  ℕ, Bytes, codes, Bool, true, false, List, [], ◌∷◌, ◌++◌, Option, if◌then◌else◌, Outcome, ok, err,
  crash, Error, not_found, already_exists, not_supported, failure, ◌||◌, ◌==◌, bytes_eq, bytes_beq,
}
use eliot.Model.{ContainerStatus}
use eliot.Runtime.{IoSet}
use eliot.Resolve.{Stat}
use eliot.Program.{Program, pure, raise, halt, lift, ask, caught, deferred, ◌>>=◌}
use eliot.Runtime.Containerd.Containers.{
  Info, Spec, get_spec, increment_restart, map_container_status_to_internal_model,
}

pub data TaskCall : Type 0 where
  connect : Bytes → TaskCall
  load_container : Bytes → TaskCall
  container_info container_spec : TaskCall
  get_image : Bytes → TaskCall
  new_container : Info → TaskCall
  stat : Bytes → TaskCall
  make_dir : Bytes → TaskCall
  -- os.MkdirAll of the parent of a path, and the files of io.go
  make_parent : Bytes → TaskCall
  open_fifo : Bytes → TaskCall
  close_fifo : Bytes → TaskCall
  get_task task_status delete_task delete_task_kill new_task start_task : TaskCall
  kill_task : ℕ → TaskCall
  kill_all : ℕ → TaskCall
  update_container : (Info → Option Info) → TaskCall
  delete_container : TaskCall
  -- the task, with streams hooked to it, and its end
  attach_task wait_task task_exit : TaskCall
  exec_task : Bytes → List Bytes → Bool → TaskCall
  wait_process start_process process_exit delete_process : TaskCall
  service_get : Bytes → TaskCall

abbrev pub Log : Type 0
Log = List TaskCall

-- The answer to the last call of the log; that of a call which only succeeds or fails is `done`.
pub record Daemon : Type 0 where
  pub done : Log → Outcome (Unit {0})
  pub info : Log → Outcome Info
  pub spec : Log → Outcome Spec
  pub status : Log → Outcome Bytes
  pub image_name : Log → Outcome Bytes
  pub stat_of : Log → Stat

abbrev pub Run : Type 0 → Type 0
Run A = Program TaskCall A

-- errdefs.ErrNotFound of containerd, which is another value than ErrNotFound of package runtime.
abbrev pub missing : Error
missing = failure (codes "containerd: not found")

abbrev pub is_missing : Error → Bool
is_missing (failure m) = bytes_beq m (codes "containerd: not found")
is_missing not_found = false
is_missing already_exists = false
is_missing not_supported = false

-- RequireTty
unfoldable pub require_tty : Info → Outcome Bool
unfolding get_spec
require_tty info = elim (get_spec info) [
  | ok spec ↦ ok spec.terminal
  | err e ↦ err e
  | crash ↦ crash
]

module _ (d : Daemon) where
  -- getConnection and LoadContainer
  unfoldable pub load : Bytes → Bytes → Run (Unit {0})
  load namespace id = do _ ← ask (connect namespace) d.done; ask (load_container id) d.done

  -- resolveContainerStatus; the status of the error case is the zero value.
  text_of : Outcome Bytes → Run Bytes
  text_of (ok s) = pure s
  text_of (err e) = pure []
  text_of crash = halt

  status_of : Outcome (Unit {0}) → Run Bytes
  unfolding text_of
  status_of (ok _) = do s ← caught (ask task_status d.status); text_of s
  status_of (err e) = pure []
  status_of crash = halt

  unfoldable pub resolve_container_status : Run Bytes
  unfolding status_of
  resolve_container_status = do task ← caught (ask get_task d.done); status_of task

  -- A task in one of these states gets SIGTERM.
  unfoldable pub is_alive : Bytes → Bool
  is_alive status =
      status == codes "running" || (status == codes "paused" || status == codes "pausing")

  unfoldable pub ensure_task_stopped : Run (Unit {0})
  unfolding is_alive
  ensure_task_stopped = do
    status ← ask task_status d.status
    if is_alive status then ask (kill_task 15) d.done else pure tt

  -- ensureDirsExist
  ensure_dirs_exist : List Bytes → Run (Unit {0})
  ensure_dirs_exist [] = pure tt
  ensure_dirs_exist (p ∷ ps) = do _ ← ask (make_parent p) d.done; ensure_dirs_exist ps

  -- What was opened is closed again, the error of closing is not read, and the first error returned.
  unfoldable pub close_all : List Bytes → Run (Unit {0})
  close_all [] = pure tt
  close_all (p ∷ ps) = do _ ← caught (ask (close_fifo p) d.done); close_all ps

  opened_or : List Bytes → Outcome (Unit {0}) → Run (Unit {0})
  unfolding close_all
  opened_or before (ok _) = pure tt
  opened_or before (err e) = do _ ← close_all before; raise e
  opened_or before crash = halt

  unfoldable pub open_or_close : Bytes → List Bytes → Run (Unit {0})
  unfolding opened_or
  open_or_close path before = do r ← caught (ask (open_fifo path) d.done); opened_or before r

  unfoldable pub new_direct_io : IoSet → Run (Unit {0})
  unfolding ensure_dirs_exist open_or_close
  new_direct_io set = do
    _ ← ensure_dirs_exist (set.stdin ∷ set.stdout ∷ set.stderr ∷ [])
    _ ← open_or_close set.stdin []
    _ ← open_or_close set.stdout (set.stdin ∷ [])
    open_or_close set.stderr (set.stdin ∷ set.stdout ∷ [])

  -- StartContainer up to the task
  unfoldable pub prepare : Bytes → Bytes → IoSet → Run Info
  unfolding load require_tty new_direct_io
  prepare namespace id set = do
    _ ← load namespace id
    info ← ask container_info d.info
    terminal ← lift (require_tty info)
    _ ← new_direct_io set
    pure info

  remove_old : Outcome (Unit {0}) → Run (Unit {0})
  unfolding ensure_task_stopped
  remove_old (ok _) = do _ ← ensure_task_stopped; ask delete_task d.done
  remove_old (err e) = if is_missing e then pure tt else raise e
  remove_old crash = halt

  unfoldable pub start_container : Bytes → Bytes → IoSet → Run ContainerStatus
  unfolding prepare remove_old resolve_container_status
  start_container namespace id set = do
    info ← prepare namespace id set
    old ← caught (ask get_task d.done)
    _ ← remove_old old
    _ ← ask new_task d.done
    _ ← ask start_task d.done
    _ ← ask (update_container increment_restart) d.done
    status ← resolve_container_status
    pure (map_container_status_to_internal_model info status)

  -- The error of the first step is only logged, and that of the deletion is not read: the test behind
  -- it looks at the error of fetching the task, which is none here.
  remove_task : Outcome (Unit {0}) → Run (Unit {0})
  unfolding ensure_task_stopped
  remove_task (ok _) = do
    _ ← caught ensure_task_stopped
    _ ← caught (ask delete_task_kill d.done)
    pure tt
  remove_task (err e) = if is_missing e then pure tt else raise e
  remove_task crash = halt

  -- Someone might have deleted it already.
  tolerate_missing : Outcome (Unit {0}) → Run (Unit {0})
  tolerate_missing (ok _) = pure tt
  tolerate_missing (err e) = if is_missing e then pure tt else raise e
  tolerate_missing crash = halt

  -- The status that is returned has the other fields at their zero values.
  unfoldable pub stopped_status : Info → ContainerStatus
  stopped_status info = record {
    container_id = info.id;
    name = [];
    image = info.image;
    state = codes "stopped";
    restart_count = 0;
  }

  unfoldable pub stop_container : Bytes → Bytes → Run ContainerStatus
  unfolding load remove_task tolerate_missing stopped_status
  stop_container namespace name = do
    _ ← load namespace name
    info ← ask container_info d.info
    task ← caught (ask get_task d.done)
    _ ← remove_task task
    deleted ← caught (ask delete_container d.done)
    _ ← tolerate_missing deleted
    pure (stopped_status info)

  unfoldable pub signal : Bytes → Bytes → ℕ → Run (Unit {0})
  unfolding load
  signal namespace name number = do
    _ ← load namespace name
    _ ← ask get_task d.done
    ask (kill_all number) d.done

  running_if : Outcome (Unit {0}) → Run Bool
  running_if (ok _) = pure true
  running_if (err e) = if is_missing e then pure false else raise e
  running_if crash = halt

  unfoldable pub is_container_running : Bytes → Bytes → Run Bool
  unfolding load running_if
  is_container_running namespace name = do
    _ ← load namespace name
    task ← caught (ask get_task d.done)
    running_if task

  known_status : Outcome Bytes → Run Bytes
  known_status (ok s) = pure s
  known_status (err e) = pure (codes "UNKNOWN")
  known_status crash = halt

  service_status : Bytes → Outcome (Unit {0}) → Run Bytes
  unfolding known_status
  service_status name (ok _) = do s ← caught (ask (service_get name) d.status); known_status s
  service_status name (err e) = pure (codes "UNKNOWN")
  service_status name crash = halt

  unfoldable pub get_container_task_status : Bytes → Bytes → Run Bytes
  unfolding service_status
  get_container_task_status namespace name = do
    connected ← caught (ask (connect namespace) d.done)
    service_status name connected

  -- The process of the spec gets the arguments and the terminal; its deletion is deferred.
  unfoldable pub exec : Bytes → Bytes → Bytes → List Bytes → Bool → Run (Unit {0})
  unfolding load
  exec namespace name id args tty = do
    _ ← load namespace name
    _ ← ask container_spec d.spec
    _ ← ask get_task d.done
    _ ← ask (exec_task id args tty) d.done
    deferred (do _ ← ask wait_process d.done; _ ← ask start_process d.done; ask process_exit d.done)
        (ask delete_process d.done)

  unfoldable pub attach : Bytes → Bytes → Run (Unit {0})
  unfolding load
  attach namespace name = do
    _ ← load namespace name
    _ ← ask attach_task d.done
    _ ← ask wait_task d.done
    ask task_exit d.done
