-- ===== src/Controller.antt =====
-- pkg/controller/lifecycle.go: the controller that starts stopped containers again.
pub mod Laws
use mathlib.Core.List.{flat_map}
use eliot.Prelude.{
  ℕ, Bytes, codes, Bool, true, false, ◌||◌, ◌&&◌, List, [], ◌∷◌, ◌++◌, if◌then◌else◌, Outcome, ok,
  err, crash, Error, ◌==◌, bytes_eq,
}
use eliot.Model.{Pod, ContainerStatus}
use eliot.Runtime.{
  IoSet, Call, call_get_namespaces, call_get_pods, call_temp_dir, call_start_container, World, Log,
  Exec, pure, raise, halt, lift, ask, ◌>>=◌,
}
use eliot.Runtime.Streams.{new_io_set}

-- The condition, with the precedence that Go gives it.
unfoldable pub is_to_start : Pod → ContainerStatus → Bool
is_to_start pod status =
    status.state == codes "stopped"
    || (status.state == codes "unknown" && pod.spec.restart_policy == codes "always")

-- An error of this step is logged, and the loop goes on; a panic is not caught.
forgive : {A : Type 0} → A → Outcome A → Outcome A
forgive a (ok b) = ok b
forgive a (err e) = ok a
forgive a crash = crash

logged : {A : Type 0} → A → Exec A → Exec A
unfolding forgive
logged a m log = let (result, log') = m log in (forgive a result, log')

unit_of : {A : Type 0} → Exec A → Exec (Unit {0})
unit_of m = m >>= λ _. pure tt

unfoldable pub check_status : World → Bytes → Pod → ContainerStatus → Exec (Unit {0})
unfolding logged unit_of
check_status w namespace pod status =
    if is_to_start pod status
    then (do
      ioset ← new_io_set w (pod.metadata.name ++ (b'.' ∷ status.name))
      logged tt (
          unit_of
            (ask (call_start_container namespace status.container_id ioset) w.start_container)))
    else pure tt

-- The three loops.
unfoldable pub check_statuses : World → Bytes → Pod → List ContainerStatus → Exec (Unit {0})
unfolding check_status
check_statuses w namespace pod [] = pure tt
check_statuses w namespace pod (s ∷ ss) = do
  _ ← check_status w namespace pod s
  check_statuses w namespace pod ss

unfoldable pub check_pods : World → Bytes → List Pod → Exec (Unit {0})
unfolding check_statuses
check_pods w namespace [] = pure tt
check_pods w namespace (p ∷ ps) = do
  _ ← check_statuses w namespace p p.status.container_statuses
  check_pods w namespace ps

unfoldable pub check_namespaces : World → List Bytes → Exec (Unit {0})
unfolding check_pods logged
check_namespaces w [] = pure tt
check_namespaces w (n ∷ ns) = do
  pods ← logged [] (ask (call_get_pods n) w.get_pods)
  _ ← check_pods w n pods
  check_namespaces w ns

unfoldable pub check_all : World → Exec (Unit {0})
unfolding check_namespaces logged
check_all w = do
  namespaces ← logged [] (ask call_get_namespaces w.get_namespaces)
  check_namespaces w namespaces

-- log.Panicf
panicked : {A : Type 0} → Outcome A → Outcome A
panicked (ok a) = ok a
panicked (err e) = crash
panicked crash = crash

or_panic : {A : Type 0} → Exec A → Exec A
unfolding panicked
or_panic m log = let (result, log') = m log in (panicked result, log')

-- Serve, by what the flag `serving` is at each tick; Stop sets it to false.
unfoldable pub serve : World → List Bool → Exec (Unit {0})
unfolding check_all or_panic
serve w [] = pure tt
serve w (false ∷ ticks) = pure tt
serve w (true ∷ ticks) = do _ ← or_panic (check_all w); serve w ticks
