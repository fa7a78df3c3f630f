-- ===== src/Api/Server/Starts.antt =====
-- pkg/api/server.go: what Start does, in terms of the calls of the runtime.
use mathlib.Core.List.{flat_map}
use eliot.Prelude.{
  Bytes, List, [], ◌∷◌, ◌++◌, Option, none, some, Option-cases, inl, inr, Outcome, ok, err, crash,
  ◌≡◌, refl, sym, ap, ◌∙◌, ok-injective, subst, Dict, lookup, insert,
}
use eliot.Model.{Pod, Container, ContainerStatus}
use eliot.Runtime.{
  Call, IoSet, call_get_pod, call_start_container, call_temp_dir, World, Log, Exec, ask, lift,
  for_each, pure, halt, continue, ◌>>=◌,
}
use eliot.Runtime.Streams.{new_io_set, allocate, connect, build_container_io_sets}
use eliot.Program.Plan.{
  Plan, must, gives, void, Obeys, ObeysAt, bind-ObeysAt, ask-ObeysAt, last-ObeysAt, Obeys-ask,
  Obeys-for_each,
}
use eliot.Api.Types.{ApiPod}
use eliot.Api.Mapping.{map_pod_to_api_model}
use eliot.Api.Server.{start, start_one, with_statuses}

-- One directory for each container.
abbrev pub directories : World → List Container → Plan Call
directories w [] = []
directories w (c ∷ cs) = must call_temp_dir w.temp_dir ∷ directories w cs

allocate-Obeys :
    (w : World) (pod_name : Bytes) (cs : List Container) (sets : Dict IoSet)
    → Obeys (allocate w pod_name cs sets) (directories w cs)
unfolding allocate new_io_set pure
allocate-Obeys w pod_name [] sets log = refl
allocate-Obeys w pod_name (c ∷ cs) sets log =
    bind-ObeysAt (new_io_set w (pod_name ++ (b'.' ∷ c.name))) _ log
      (must call_temp_dir w.temp_dir ∷ []) (directories w cs)
      (last-ObeysAt (ask call_temp_dir w.temp_dir) _ log (must call_temp_dir w.temp_dir ∷ [])
        (Obeys-ask call_temp_dir w.temp_dir log))
      λ s _. allocate-Obeys w pod_name cs (insert c.name s sets) _

-- Sets that were made and connected.
connected :
    (r : Outcome (Dict IoSet)) (cs : List Container) (log log' : Log) (p : Plan Call)
    (sets : Dict IoSet)
    → ObeysAt (r, log') p log
    → (continue r (λ s. lift (connect cs s)) log').0 ≡ ok sets
    → ObeysAt (continue r (λ s. lift (connect cs s)) log') p log
unfolding lift
connected (ok s) cs log log' p sets h e = ap (λ c. (void c, log')) e ∙ h
connected (err x) cs log log' p sets h e = h
connected crash cs log log' p sets h e = h

build-ObeysAt :
    (w : World) (pod_name : Bytes) (cs : List Container) (sets : Dict IoSet) (log : Log)
    → (build_container_io_sets w pod_name cs log).0 ≡ ok sets
    → ObeysAt (build_container_io_sets w pod_name cs log) (directories w cs) log
unfolding build_container_io_sets ◌>>=◌
build-ObeysAt w pod_name cs sets log e =
    connected (allocate w pod_name cs [] log).0 cs log (allocate w pod_name cs [] log).1
      (directories w cs) sets (allocate-Obeys w pod_name cs [] log) e

-- A nil set is dereferenced.
abbrev nil_set : Outcome (Unit {0})
nil_set = crash

-- The start of one container, with the set under its name; there is a panic where there is none.
abbrev start_step : World → Bytes → ContainerStatus → Option IoSet → Plan Call
start_step w namespace s none = gives nil_set ∷ []
start_step w namespace s (some set) =
    must (call_start_container namespace s.container_id set) w.start_container ∷ []

abbrev pub start_plan : World → Bytes → Dict IoSet → ContainerStatus → Plan Call
start_plan w namespace sets s = start_step w namespace s (lookup s.name sets)

halted : (log : Log) → ObeysAt (halt {A = ContainerStatus} log) (gives nil_set ∷ []) log
unfolding halt
halted log = refl

start_one-Obeys :
    (w : World) (namespace : Bytes) (sets : Dict IoSet) (s : ContainerStatus)
    → Obeys (start_one w namespace sets s) (start_plan w namespace sets s)
unfolding start_one
start_one-Obeys w namespace sets s log = elim (Option-cases (lookup s.name sets)) [
  | inl e ↦ rw (start_one, e) (halted log)
  | inr (set, e) ↦
      rw (start_one, e)
        (Obeys-ask (call_start_container namespace s.container_id set) w.start_container log)
]

-- What Start does where it has the pod, and where it has the sets.
from_sets : World → Pod → Dict IoSet → Exec ApiPod
from_sets w pod sets = do
  statuses ← for_each (start_one w pod.metadata.namespace sets) pod.status.container_statuses
  pure (map_pod_to_api_model (with_statuses pod statuses))

from_pod : World → Pod → Exec ApiPod
from_pod w pod = do
  sets ← build_container_io_sets w pod.metadata.name pod.spec.containers
  from_sets w pod sets

-- Where the runtime finds the pod and the streams of its containers can be made and connected, Start
-- does this and nothing else: it asks for the pod, makes a directory for each container, and starts
-- the containers in the order of their statuses, each with the streams under its name. It ends at
-- the first start that fails, with its error, or at the first container without streams, with a
-- panic, and succeeds if there is none.
pub start-ObeysAt :
    (w : World) (namespace name : Bytes) (pod : Pod) (sets : Dict IoSet) (log : Log)
    → w.get_pod (log ++ call_get_pod namespace name ∷ []) ≡ ok pod
    → (build_container_io_sets w pod.metadata.name pod.spec.containers
        (log ++ call_get_pod namespace name ∷ [])).0
      ≡ ok sets
    → ObeysAt
        (start w namespace name log)
        (must (call_get_pod namespace name) w.get_pod ∷ directories w pod.spec.containers
          ++ flat_map (start_plan w pod.metadata.namespace sets) pod.status.container_statuses)
        log
unfolding start from_pod from_sets
start-ObeysAt w namespace name pod sets log e b =
    let asked = log ++ call_get_pod namespace name ∷ [] in
    let statuses = pod.status.container_statuses in
    let starts = flat_map (start_plan w pod.metadata.namespace sets) statuses in
    let plan = directories w pod.spec.containers ++ starts in
    let build = build_container_io_sets w pod.metadata.name pod.spec.containers in
    let last = (build asked).1 in
    ask-ObeysAt (call_get_pod namespace name) w.get_pod (from_pod w) log plan λ found e'.
      subst (λ (p : Pod). ObeysAt (from_pod w p asked) plan asked) (ok-injective (sym e ∙ e'))
        (bind-ObeysAt build (from_sets w pod) asked (directories w pod.spec.containers) starts
          (build-ObeysAt w pod.metadata.name pod.spec.containers sets asked b)
          λ made m.
            subst (λ s. ObeysAt (from_sets w pod s last) starts last) (ok-injective (sym b ∙ m))
              (last-ObeysAt (for_each (start_one w pod.metadata.namespace sets) statuses) _ last
                starts
                (Obeys-for_each (start_one w pod.metadata.namespace sets)
                  (start_plan w pod.metadata.namespace sets) statuses
                  (start_one-Obeys w pod.metadata.namespace sets) last)))
