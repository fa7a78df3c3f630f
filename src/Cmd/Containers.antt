-- ===== src/Cmd/Containers.antt =====
-- cmd/utils.go: the containers and pods that a command is about.
use eliot.Prelude.{
  Bytes, codes, Bool, true, false, List, [], ◌∷◌, Option, none, some, if◌then◌else◌, Outcome, ok,
  err, crash, failure, bytes_beq, ◌==◌, bytes_eq, eq_iff, nat_eq, arith, ◌≡◌, ◌↔◌, ◌⊎◌, refl, inl,
  inr, Bool-cases,
}
use eliot.Api.Types.{ApiContainerStatus, ApiPod, ApiPodStatus}

-- FilterByPodName; crash: a nil dereference, at a pod without metadata.
unfoldable pub filter_by_pod_name : List ApiPod → Bytes → Outcome (List ApiPod)
filter_by_pod_name [] pod_name = ok []
filter_by_pod_name (pod ∷ pods) pod_name = elim pod.metadata [
  | none ↦ crash
  | some m ↦ if m.name == pod_name then ok (pod ∷ []) else filter_by_pod_name pods pod_name
]

-- The loops over the statuses.
unfoldable pub find_by_name : Bytes → List ApiContainerStatus → Option Bytes
find_by_name name [] = none
find_by_name name (status ∷ statuses) =
    if status.name == name then some status.container_id else find_by_name name statuses

unfoldable pub or_failure : Bytes → Option Bytes → Outcome Bytes
or_failure text none = err (failure text)
or_failure text (some id) = ok id

-- ResolveContainerID
unfoldable pub resolve_container_id : List ApiContainerStatus → Bytes → Outcome Bytes
unfolding or_failure find_by_name
resolve_container_id [] name = err (failure (codes "Pod don't have any containers"))
resolve_container_id (c ∷ []) name = ok c.container_id
resolve_container_id (c ∷ d ∷ cs) name =
    if bytes_beq name []
    then err (failure (codes "you must define container name"))
    else or_failure (codes "you must define container name") (find_by_name name (c ∷ d ∷ cs))

-- FindRunningContainerID
unfoldable pub find_running_container_id : ApiPod → Bytes → Outcome Bytes
unfolding or_failure find_by_name
find_running_container_id pod name = elim pod.status [
  | none ↦ err (failure (codes "Cannot find ContainerID"))
  | some status ↦
      or_failure (codes "Cannot find ContainerID") (find_by_name name status.container_statuses)
]

-- The status has the name and the id, and no status before it has the name.
pub data IsFirstNamed (name id : Bytes) : List ApiContainerStatus → Type 0 where
  here :
      (s : ApiContainerStatus) (ss : List ApiContainerStatus)
      → s.name ≡ name
      → s.container_id ≡ id
      → IsFirstNamed name id (s ∷ ss)
  there :
      (s : ApiContainerStatus) (ss : List ApiContainerStatus)
      → bytes_beq s.name name ≡ false
      → IsFirstNamed name id ss
      → IsFirstNamed name id (s ∷ ss)

found :
    (b : Bool) (x id : Bytes) (rest : Option Bytes)
    → (if b then some x else rest) ≡ some id
    → ((b ≡ true) × (x ≡ id)) ⊎ ((b ≡ false) × (rest ≡ some id))
found true x id rest h = inl (refl, cc)
found false x id rest h = inr (refl, h)

find_sound :
    (name id : Bytes) (ss : List ApiContainerStatus)
    → find_by_name name ss ≡ some id
    → IsFirstNamed name id ss
unfolding find_by_name
find_sound name id [] h = cc
find_sound name id (s ∷ ss) h =
    elim (found (bytes_beq s.name name) s.container_id id (find_by_name name ss) h) [
      | inl (e, f) ↦ here s ss ((eq_iff s.name name).0 e) f
      | inr (e, f) ↦ there s ss e (find_sound name id ss f)
    ]

find_complete :
    (name id : Bytes) (ss : List ApiContainerStatus)
    → IsFirstNamed name id ss
    → find_by_name name ss ≡ some id
unfolding find_by_name
find_complete name id [] h = elim h [ ]
find_complete name id (s ∷ ss) (here _ _ e f) = ground (arith, eq_iff s.name name)
find_complete name id (s ∷ ss) (there _ _ e f) = ground (arith, find_complete name id ss f)

or_failure_iff : (text id : Bytes) (o : Option Bytes) → (or_failure text o ≡ ok id) ↔ (o ≡ some id)
unfolding or_failure
or_failure_iff text id none = ground arith
or_failure_iff text id (some x) = ground arith

not_ok : (t id : Bytes) → (err (failure t)) ≡ ok id → ⊥
not_ok t id h = cc

-- FindRunningContainerID finds an id exactly if the pod has a status, and the first container of
-- the name in it has the id.
find_running_container_id_iff :
    (pod : ApiPod) (status : ApiPodStatus) (name id : Bytes)
    → pod.status ≡ some status
    → (find_running_container_id pod name ≡ ok id) ↔ IsFirstNamed name id status.container_statuses
unfolding find_running_container_id
find_running_container_id_iff pod status name id e =
    let t = codes "Cannot find ContainerID" in
    let o = find_by_name name status.container_statuses in
    rw e (
      (λ h. find_sound name id status.container_statuses ((or_failure_iff t id o).0 h)),
      (λ h. (or_failure_iff t id o).1 (find_complete name id status.container_statuses h)),
    )

-- With one container the name is not read. With more, ResolveContainerID gives an id exactly if a
-- name is given, and the first container of that name has the id.
pub resolve_container_id_iff :
    (c d : ApiContainerStatus) (cs : List ApiContainerStatus) (name id : Bytes)
    → (resolve_container_id (c ∷ []) name ≡ ok c.container_id)
      × ((resolve_container_id (c ∷ d ∷ cs) name ≡ ok id)
          ↔ ((bytes_beq name [] ≡ false) × IsFirstNamed name id (c ∷ d ∷ cs)))
unfolding resolve_container_id
resolve_container_id_iff c d cs name id =
    let t = codes "you must define container name" in
    let o = find_by_name name (c ∷ d ∷ cs) in
    let parts = or_failure_iff t id o in
    (
      refl,
      elim (Bool-cases (bytes_beq name [])) [
        | inl e ↦ rw e ((λ h. absurd (not_ok t id h)), (λ h. cc h.0))
        | inr e ↦ rw e (
          (λ h. (refl, find_sound name id (c ∷ d ∷ cs) (parts.0 h))),
          (λ h. parts.1 (find_complete name id (c ∷ d ∷ cs) h.1)),
        )
      ],
    )
