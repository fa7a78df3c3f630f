-- ===== src/Api/Server/Plans.antt =====
-- pkg/api/server.go: what Create and Delete do, in terms of the calls of the runtime.
use mathlib.Core.List.{flat_map}
use eliot.Prelude.{
  Bytes, List, [], ◌∷◌, ◌++◌, some, Outcome, ok, err, crash, not_found, already_exists,
  not_supported, failure, codes, ◌≡◌, refl, ap, ◌∙◌,
}
use eliot.Model.{Pod, Container, ContainerStatus}
use eliot.Progress.{ImageFetch, new_image_fetch}
use eliot.Runtime.{
  Call, call_get_pod, call_pull_image, call_create_container, call_stop_container, World, Log, ask,
  pure, ◌>>=◌,
}
use eliot.Program.Plan.{Plan, must, void, ObeysAt, continue-ObeysAt, Obeys-ask}
use eliot.Api.Types.{ApiPod}
use eliot.Api.Mapping.{map_pod_to_internal_model}
use eliot.Api.Server.{
  Created, ensure_pod_not_exist, create_containers, create, stop, after_pull, pod_answer,
}

-- That the runtime does not find the pod.
abbrev absent : Outcome Pod → Outcome (Unit {0})
absent (ok p) = err (failure (codes "Pod already exist"))
absent (err not_found) = ok tt
absent (err already_exists) = err already_exists
absent (err not_supported) = err not_supported
absent (err (failure m)) = err (failure m)
absent crash = crash

pod_answer_lem : (r : Outcome Pod) → pod_answer r ≡ absent r
unfolding pod_answer
pod_answer_lem (ok p) = refl
pod_answer_lem (err not_found) = refl
pod_answer_lem (err already_exists) = refl
pod_answer_lem (err not_supported) = refl
pod_answer_lem (err (failure m)) = refl
pod_answer_lem crash = refl

-- The steps that create one container, and a pod.
abbrev pub container_plan : World → Pod → Container → Plan Call
container_plan w pod c =
    must (call_pull_image pod.metadata.namespace c.image)
      (λ log. (w.pull_image log (new_image_fetch c.name c.image)).0)
    ∷ must (call_create_container pod c) w.create_container
    ∷ []

abbrev pub create_plan : World → Pod → Plan Call
create_plan w pod =
    must (call_get_pod pod.metadata.namespace pod.metadata.name) (λ log. absent (w.get_pod log))
    ∷ flat_map (container_plan w pod) pod.spec.containers

-- What Create left, as a result with its calls.
abbrev pub outcome_of : Created → Outcome (Unit {0}) × Log
outcome_of r = (r.result, r.log)

stop-ObeysAt :
    {A : Type 0} (a : Outcome A) (rest : A → Created) (ps : List ImageFetch) (log log' : Log)
    (p q : Plan Call)
    → ObeysAt (a, log') p log
    → ((x : A) → a ≡ ok x → ObeysAt (outcome_of (rest x)) q log')
    → ObeysAt (outcome_of (stop a rest ps log')) (p ++ q) log
stop-ObeysAt (ok x) rest ps log log' p q h k =
    continue-ObeysAt (ok x) (λ y _. outcome_of (rest y)) log log' p q h k
stop-ObeysAt (err e) rest ps log log' p q h k =
    continue-ObeysAt (err e) (λ y _. outcome_of (rest y)) log log' p q h k
stop-ObeysAt crash rest ps log log' p q h k =
    continue-ObeysAt crash (λ y _. outcome_of (rest y)) log log' p q h k

create_containers-ObeysAt :
    (w : World) (pod : Pod) (cs : List Container) (ps : List ImageFetch) (log : Log)
    → ObeysAt
        (outcome_of (create_containers w pod cs ps log))
        (flat_map (container_plan w pod) cs)
        log
unfolding create_containers flat_map pure ask
create_containers-ObeysAt w pod [] ps log = refl
create_containers-ObeysAt w pod (c ∷ cs) ps log =
    let pull = call_pull_image pod.metadata.namespace c.image in
    let make = call_create_container pod c in
    let pulled = λ (l : Log). (w.pull_image l (new_image_fetch c.name c.image)).0 in
    let log' = log ++ pull ∷ [] in
    let p = w.pull_image log' (new_image_fetch c.name c.image) in
    let ps' = ps ++ after_pull p.0 p.1 ∷ [] in
    stop-ObeysAt p.0 _ ps' log log' (must pull pulled ∷ [])
      (must make w.create_container ∷ flat_map (container_plan w pod) cs)
      (Obeys-ask pull pulled log)
      λ _ _.
        stop-ObeysAt (w.create_container (log' ++ make ∷ [])) _ ps' log' (log' ++ make ∷ [])
          (must make w.create_container ∷ []) (flat_map (container_plan w pod) cs)
          (Obeys-ask make w.create_container log')
          λ _ _. create_containers-ObeysAt w pod cs ps' (log' ++ make ∷ [])

-- For a request that maps to a pod, Create does this and nothing else: it asks for the pod, which must
-- not be there, and then pulls the image of each container and creates it, one container after
-- another. It ends at the first of these calls that fails, with its error, and succeeds if none does.
pub create-ObeysAt :
    (w : World) (req : ApiPod) (pod : Pod) (log : Log)
    → map_pod_to_internal_model req ≡ ok pod
    → ObeysAt (outcome_of (create w (some req) log)) (create_plan w pod) log
unfolding create ensure_pod_not_exist ask
create-ObeysAt w req pod log e =
    let get = call_get_pod pod.metadata.namespace pod.metadata.name in
    let asked = log ++ get ∷ [] in
    rw (e, create)
      (stop-ObeysAt (pod_answer (w.get_pod asked)) _ [] log asked
        (must get (λ l. absent (w.get_pod l)) ∷ [])
        (flat_map (container_plan w pod) pod.spec.containers)
        (ap (λ r. (r, asked)) (ap void (pod_answer_lem (w.get_pod asked)))
          ∙ Obeys-ask get (λ l. absent (w.get_pod l)) log)
        λ _ _. create_containers-ObeysAt w pod pod.spec.containers [] asked)

-- For a request that maps to a pod which the runtime already has, Create fails, and has made no
-- call but the one that found the pod.
create_existing :
    (w : World) (req : ApiPod) (pod found : Pod) (log : Log)
    → map_pod_to_internal_model req ≡ ok pod
    → w.get_pod (log ++ call_get_pod pod.metadata.namespace pod.metadata.name ∷ []) ≡ ok found
    → create w (some req) log ≡ record {
      result = err (failure (codes "Pod already exist"));
      progresses = [];
      log = log ++ call_get_pod pod.metadata.namespace pod.metadata.name ∷ [];
    }
unfolding create ensure_pod_not_exist ask
create_existing w req pod found log e f = rw (e, create) (rw (f, pod_answer))

-- The step that stops one container.
abbrev pub stop_plan : World → Bytes → ContainerStatus → Plan Call
stop_plan w namespace s = must (call_stop_container namespace s.container_id) w.stop_container ∷ []
