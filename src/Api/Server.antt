-- ===== src/Api/Server.antt =====
-- pkg/api/server.go: the handlers of the services. A handler is a program over the runtime. The
-- goroutine of Create that streams the progress stands in Updates, next to the loop.
pub mod Plans
pub mod Starts
pub mod Metadata
pub mod Updates
use eliot.Prelude.{
  ℕ, Bytes, codes, Bool, true, false, List, [], ◌∷◌, ◌++◌, Option, none, some, Outcome, ok, err,
  crash, Error, not_found, failure, Dict, lookup,
}
use eliot.Model.{PodStatus, Pod, Container, ContainerStatus}
use eliot.Progress.{ImageFetch, new_image_fetch, set_to_failed, all_done}
use eliot.Runtime.{
  IoSet, Call, call_get_pods, call_get_pod, call_pull_image, call_create_container,
  call_start_container, call_stop_container, call_signal, World, Log, Exec, pure, raise, halt, lift,
  ask, for_each, ◌>>=◌, ◌>>◌,
}
use eliot.Runtime.Streams.{build_container_io_sets}
use eliot.Api.Types.{ApiPod}
use eliot.Api.Mapping.{map_pod_to_internal_model, map_pod_to_api_model, map_pods_to_api_model}

-- What the runtime's GetPod said: a pod that is not found may be created.
pod_answer : Outcome Pod → Outcome (Unit {0})
pod_answer (ok p) = err (failure (codes "Pod already exist"))
pod_answer (err not_found) = ok tt
pod_answer (err e) = err e
pod_answer crash = crash

unfoldable pub ensure_pod_not_exist : World → Bytes → Bytes → Exec (Unit {0})
unfolding pod_answer
ensure_pod_not_exist w namespace name log =
    let log' = log ++ call_get_pod namespace name ∷ [] in (pod_answer (w.get_pod log'), log')

-- What the handler Create leaves: its result, the progress of the pulls, and the calls made.
pub record Created : Type 0 where
  pub result : Outcome (Unit {0})
  pub progresses : List ImageFetch
  pub log : Log

abbrev stop : {A : Type 0} → Outcome A → (A → Created) → List ImageFetch → Log → Created
stop (ok a) rest progresses log = rest a
stop (err e) rest progresses log = record { result = err e; progresses = progresses; log = log }
stop crash rest progresses log = record { result = crash; progresses = progresses; log = log }

-- What a pull leaves in its progress: SetToFailed after an error, AllDone after a success.
after_pull : Outcome (Unit {0}) → ImageFetch → ImageFetch
after_pull (ok _) p = all_done p
after_pull (err e) p = set_to_failed p
after_pull crash p = p

-- The loop over the containers.
unfoldable pub create_containers : World → Pod → List Container → List ImageFetch → Log → Created
unfolding after_pull
create_containers w pod [] progresses log = record {
  result = ok tt;
  progresses = progresses;
  log = log;
}
create_containers w pod (c ∷ cs) progresses log =
    let pull_log = log ++ call_pull_image pod.metadata.namespace c.image ∷ [] in
    let (pulled, p) = w.pull_image pull_log (new_image_fetch c.name c.image) in
    let progresses' = progresses ++ after_pull pulled p ∷ [] in
    let create_log = pull_log ++ call_create_container pod c ∷ [] in
    let rest = create_containers w pod cs progresses' create_log in
    stop pulled (λ _. stop (w.create_container create_log) (λ _. rest) progresses' create_log)
      progresses' pull_log

-- The pod of a request; a nil pointer is dereferenced by the mapping.
abbrev pub requested : Option ApiPod → Outcome Pod
requested none = crash
requested (some req) = map_pod_to_internal_model req

unfoldable pub create : World → Option ApiPod → Log → Created
unfolding create_containers ensure_pod_not_exist
create w req log =
    stop (requested req)
      (λ pod.
        let (answer, log') = ensure_pod_not_exist w pod.metadata.namespace pod.metadata.name log in
        stop answer (λ _. create_containers w pod pod.spec.containers [] log') [] log')
      [] log

-- One container of the loop of Start; a container without a set is a nil dereference.
start_one : World → Bytes → Dict IoSet → ContainerStatus → Exec ContainerStatus
start_one w namespace iosets status = elim (lookup status.name iosets) [
  | none ↦ halt
  | some s ↦ ask (call_start_container namespace status.container_id s) w.start_container
]

-- The pod with the statuses that the loop collected.
with_statuses : Pod → List ContainerStatus → Pod
with_statuses pod statuses = record pod {
  status = record pod.status { container_statuses = statuses };
}

unfoldable pub start : World → Bytes → Bytes → Exec ApiPod
unfolding start_one with_statuses build_container_io_sets
start w namespace name = do
  pod ← ask (call_get_pod namespace name) w.get_pod
  iosets ← build_container_io_sets w pod.metadata.name pod.spec.containers
  statuses ← for_each (start_one w pod.metadata.namespace iosets) pod.status.container_statuses
  pure (map_pod_to_api_model (with_statuses pod statuses))

stop_one : World → Bytes → ContainerStatus → Exec ContainerStatus
stop_one w namespace status =
    ask (call_stop_container namespace status.container_id) w.stop_container

unfoldable pub delete : World → Bytes → Bytes → Exec ApiPod
unfolding stop_one with_statuses
delete w namespace name = do
  pod ← ask (call_get_pod namespace name) w.get_pod
  statuses ← for_each (stop_one w namespace) pod.status.container_statuses
  pure (map_pod_to_api_model (with_statuses pod statuses))

unfoldable pub list : World → Bytes → Exec (List ApiPod)
list w namespace = do
  pods ← ask (call_get_pods namespace) w.get_pods
  pure (map_pods_to_api_model pods)

unfoldable pub signal : World → Bytes → Bytes → ℕ → Exec (Unit {0})
signal w namespace container_id number = ask (call_signal namespace container_id number) w.signal
