-- ===== src/Runtime/Containerd/Pods.antt =====
-- pkg/runtime/containerd.go: GetPods, GetPod and GetNamespaces. What containerd answers is given: the
-- containers in its order, each with what Info said and with the status that its task has, the empty
-- text where that could not be resolved.
use eliot.Prelude.{
  Bytes, codes, List, [], ◌∷◌, ◌++◌, Option, none, some, if◌then◌else◌, Outcome, ok, err, not_found,
  ◌>>=◌, bind-ok, Dict, lookup, insert, update, values, lookup-insert, lookup-update, bytes_beq,
  eq_iff, eq_refl, ◌==◌, bytes_eq, ◌≡◌, refl, ◌∙◌, ap, sym, append_assoc, append-nil, inl, inr,
  Bool-cases,
}
use mathlib.Core.Option
use eliot.Model.{Container, ContainerStatus, Pod, append_container, new_metadata}
use eliot.Runtime.Containerd.Containers.{
  Info, get_spec, get_pod_name, initialise_pod_model, map_container_to_internal_model,
  map_container_status_to_internal_model,
}

pub record Answer : Type 0 where
  pub info : Outcome Info
  pub status : Bytes

append_to : Container → ContainerStatus → Pod → Pod
append_to container status pod = append_container pod container status

-- The pods, with one for the container, given what the map says of its name.
new_unless : Option Pod → Bytes → Bytes → Info → Dict Pod → Outcome (Dict Pod)
new_unless (some _) namespace hostname info pods = ok pods
new_unless none namespace hostname info pods = do
  pod ← initialise_pod_model info namespace (get_pod_name info.labels) hostname
  ok (insert pod.metadata.name pod pods)

-- One round of the loop of GetPods.
add_container : Bytes → Bytes → Dict Pod → Info → Bytes → Outcome (Dict Pod)
unfolding new_unless append_to
add_container namespace hostname pods info status = do
  pods' ← new_unless (lookup (get_pod_name info.labels) pods) namespace hostname info pods
  container ← map_container_to_internal_model info
  ok (
      update (get_pod_name info.labels)
        (append_to container (map_container_status_to_internal_model info status)) pods')

unfoldable pub group_pods : Bytes → Bytes → Dict Pod → List Answer → Outcome (Dict Pod)
unfolding add_container
group_pods namespace hostname pods [] = ok pods
group_pods namespace hostname pods (a ∷ rest) = do
  info ← a.info
  pods' ← add_container namespace hostname pods info a.status
  group_pods namespace hostname pods' rest

-- What containerd answers to one list of its containers.
abbrev Answers : Type 0
Answers = Outcome (List Answer)

-- getValues ranges over a map: the order is left open.
module _ (order : List Pod → List Pod) (hostname : Bytes) where
  unfoldable pub get_pods : Bytes → Answers → Outcome (List Pod)
  unfolding group_pods
  get_pods namespace answers = do
    containers ← answers
    pods ← group_pods namespace hostname [] containers
    ok (order (values pods))

  find_pod : Bytes → List Pod → Outcome Pod
  find_pod name [] = err not_found
  find_pod name (pod ∷ pods) = if pod.metadata.name == name then ok pod else find_pod name pods

  unfoldable pub get_pod : Bytes → Bytes → Answers → Outcome Pod
  unfolding get_pods find_pod
  get_pod namespace name answers = do pods ← get_pods namespace answers; find_pod name pods

-- getNamespaces
unfoldable pub get_namespaces : List Bytes → List Bytes
get_namespaces [] = []
get_namespaces (n ∷ ns) =
    let rest = get_namespaces ns in if n == codes "default" then rest else n ∷ rest

-- The statuses of a pod that may be there.
abbrev pub statuses_in : Option Pod → List ContainerStatus
statuses_in none = []
statuses_in (some pod) = pod.status.container_statuses

-- The statuses of the containers whose labels name the pod, in the order of containerd.
abbrev pub statuses_of : Bytes → List Answer → List ContainerStatus
statuses_of name [] = []
statuses_of name (a ∷ rest) =
    let later = statuses_of name rest in
    elim a.info [
      | ok info ↦
          (if get_pod_name info.labels == name
            then map_container_status_to_internal_model info a.status ∷ later
            else later)
      | _ ↦ later
    ]

statuses-append_to :
    (c : Container) (s : ContainerStatus) (o : Option Pod) (p : Pod)
    → o ≡ some p
    → statuses_in (Option.map (append_to c s) o) ≡ statuses_in o ++ s ∷ []
unfolding append_to append_container
statuses-append_to c s none p e = cc
statuses-append_to c s (some q) p e = refl

ok-injective : {A : Type 0} {a b : A} → ok a ≡ ok b → a ≡ b
ok-injective e = cc

initialise_pod_model-new :
    (info : Info) (namespace name hostname : Bytes) (pod : Pod)
    → initialise_pod_model info namespace name hostname ≡ ok pod
    → (pod.metadata.name ≡ name) × (pod.status.container_statuses ≡ [])
unfolding initialise_pod_model new_metadata
initialise_pod_model-new info namespace name hostname pod h =
    let (spec, _, e) = bind-ok (get_spec info) _ pod h in
    let f = ok-injective (sym e) in
    (ap (λ (p : Pod). p.metadata.name) f, ap (λ (p : Pod). p.status.container_statuses) f)

new_unless-kept :
    (o : Option Pod) (namespace hostname : Bytes) (info : Info) (pods pods' : Dict Pod)
    → lookup (get_pod_name info.labels) pods ≡ o
    → new_unless o namespace hostname info pods ≡ ok pods'
    → ((k : Bytes) → statuses_in (lookup k pods') ≡ statuses_in (lookup k pods))
      × ((p : Pod) × (lookup (get_pod_name info.labels) pods' ≡ some p))
unfolding new_unless
new_unless-kept (some p) namespace hostname info pods pods' e h =
    let f = sym (ok-injective h) in
    (λ k. ap (λ x. statuses_in (lookup k x)) f, (p, ap (lookup (get_pod_name info.labels)) f ∙ e))
new_unless-kept none namespace hostname info pods pods' e h =
    let name = get_pod_name info.labels in
    let (pod, i, g) = bind-ok (initialise_pod_model info namespace name hostname) _ pods' h in
    let (named, none_yet) = initialise_pod_model-new info namespace name hostname pod i in
    let f : pods' ≡ insert name pod pods =
      sym (ok-injective g) ∙ ap (λ n. insert n pod pods) named in
    (
      λ k.
          rw (f, lookup-insert name k pod pods)
            (elim (Bool-cases (bytes_beq name k)) [
              | inl t ↦ rw t (
                  none_yet ∙ ap statuses_in (sym e ∙ ap (λ n. lookup n pods) ((eq_iff name k).0 t)))
              | inr t ↦ rw t refl
            ]),
      (pod, rw (f, lookup-insert name name pod pods, eq_refl name) refl),
    )

add_container-statuses :
    (namespace hostname : Bytes) (pods pods' : Dict Pod) (info : Info) (status k : Bytes)
    → add_container namespace hostname pods info status ≡ ok pods'
    → statuses_in (lookup k pods') ≡ (
        if get_pod_name info.labels == k
        then statuses_in (lookup k pods)
          ++ (map_container_status_to_internal_model info status ∷ [])
        else statuses_in (lookup k pods))
unfolding add_container
add_container-statuses namespace hostname pods pods' info status k h =
    let name = get_pod_name info.labels in
    let s = map_container_status_to_internal_model info status in
    let (pods1, i, g) =
      bind-ok (new_unless (lookup name pods) namespace hostname info pods) _ pods' h in
    let (kept, (p, there)) =
      new_unless-kept (lookup name pods) namespace hostname info pods pods1 refl i in
    let (c, _, m) = bind-ok (map_container_to_internal_model info) _ pods' g in
    rw (sym (ok-injective m), lookup-update name k (append_to c s) pods1)
      (elim (Bool-cases (bytes_beq name k)) [
        | inl t ↦ rw t (
            statuses-append_to c s (lookup k pods1) p
              (ap (λ n. lookup n pods1) (sym ((eq_iff name k).0 t)) ∙ there)
            ∙ ap (λ x. x ++ s ∷ []) (kept k))
        | inr t ↦ rw t (kept k)
      ])

group_pods-statuses :
    (namespace hostname k : Bytes) (answers : List Answer) (pods pods' : Dict Pod)
    → group_pods namespace hostname pods answers ≡ ok pods'
    → statuses_in (lookup k pods') ≡ statuses_in (lookup k pods) ++ statuses_of k answers
unfolding group_pods
group_pods-statuses namespace hostname k [] pods pods' h =
    ap (λ x. statuses_in (lookup k x)) (sym (ok-injective h)) ∙ sym (append-nil _)
group_pods-statuses namespace hostname k (a ∷ rest) pods pods' h =
    let (info, i, g) = bind-ok a.info _ pods' h in
    let (pods1, j, f) = bind-ok (add_container namespace hostname pods info a.status) _ pods' g in
    let step = add_container-statuses namespace hostname pods pods1 info a.status k j in
    let later = group_pods-statuses namespace hostname k rest pods1 pods' f in
    let s = map_container_status_to_internal_model info a.status in
    elim (Bool-cases (bytes_beq (get_pod_name info.labels) k)) [
      | inl t ↦
          rw (i, t)
            (later
              ∙ ap (λ x. x ++ statuses_of k rest) (step ∙ rw t refl)
              ∙ append_assoc (statuses_in (lookup k pods)) (s ∷ []) (statuses_of k rest))
      | inr t ↦ rw (i, t) (later ∙ ap (λ x. x ++ statuses_of k rest) (step ∙ rw t refl))
    ]

-- Where the containers can be grouped, the pod of a name has the statuses of the containers whose
-- labels name it, all of them and no others, in the order of containerd.
pub group_pods-statuses_of :
    (namespace hostname name : Bytes) (answers : List Answer) (pods : Dict Pod)
    → group_pods namespace hostname [] answers ≡ ok pods
    → statuses_in (lookup name pods) ≡ statuses_of name answers
unfolding lookup
group_pods-statuses_of namespace hostname name answers pods h =
    group_pods-statuses namespace hostname name answers [] pods h
