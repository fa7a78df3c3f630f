-- ===== src/Api/Client/Options.antt =====
-- pkg/api/pod_opts.go: the options of CreatePod. A pod without a spec is a nil dereference; its
-- containers are taken not to be nil, and not to be shared with another pod.
use mathlib.Core.List.{map}
use eliot.Prelude.{
  Bytes, codes, Bool, true, false, List, [], ◌∷◌, ◌++◌, none, some, if◌then◌else◌, Outcome, ok, err,
  crash, failure, bytes_beq, ◌≡◌, refl, ap, ◌∙◌, Bool-cases, inl, inr, ◌>>=◌, ◌&&◌,
}
use eliot.Api.Types.{ApiMount, ApiContainer, ApiPodSpec, ApiPod}
use eliot.Api.Client.{PodOpts, apply_opts}

-- The spec with what a function makes of its containers.
with_containers : (List ApiContainer → Outcome (List ApiContainer)) → ApiPod → Outcome ApiPod
with_containers f pod = elim pod.spec [
  | none ↦ crash
  | some s ↦ (do
    cs ← f s.containers
    ok (record pod { spec = some (record s { containers = cs }) }))
]

unfoldable pub add_mounts : List ApiMount → ApiContainer → ApiContainer
add_mounts mounts c = record c { mounts = c.mounts ++ mounts }

unfoldable pub with_shared_mount : List ApiMount → PodOpts
unfolding add_mounts with_containers
with_shared_mount mounts = with_containers λ cs. ok (map (add_mounts mounts) cs)

-- The loop: at the first container that has a directory, it ends with an error.
unfoldable pub set_working_dirs : Bytes → List ApiContainer → Outcome (List ApiContainer)
set_working_dirs dir [] = ok []
set_working_dirs dir (c ∷ cs) =
    let rest = set_working_dirs dir cs in
    if bytes_beq c.working_dir []
    then (rest >>= λ cs'. ok (record c { working_dir = dir } ∷ cs'))
    else err (failure (codes "Container already have WorkingDir defined"))

unfoldable pub with_working_dir : Bytes → PodOpts
unfolding set_working_dirs with_containers
with_working_dir dir = with_containers (set_working_dirs dir)

unfoldable pub with_container : ApiContainer → PodOpts
unfolding with_containers
with_container container = with_containers λ cs. ok (cs ++ container ∷ [])

abbrev in_dir : Bytes → ApiContainer → ApiContainer
in_dir dir c = record c { working_dir = dir }

abbrev pub all_without_dir : List ApiContainer → Bool
all_without_dir [] = true
all_without_dir (c ∷ cs) = bytes_beq c.working_dir [] && all_without_dir cs

set_working_dirs_lem :
    (dir : Bytes) (cs : List ApiContainer)
    → set_working_dirs dir cs ≡ (
        if all_without_dir cs
        then ok (map (in_dir dir) cs)
        else err (failure (codes "Container already have WorkingDir defined")))
unfolding set_working_dirs
set_working_dirs_lem dir [] = refl
set_working_dirs_lem dir (c ∷ cs) = elim (Bool-cases (bytes_beq c.working_dir [])) [
  | inl e ↦ rw e (
      ap (λ r. r >>= λ cs'. ok (in_dir dir c ∷ cs')) (set_working_dirs_lem dir cs)
      ∙ pushed (all_without_dir cs))
  | inr e ↦ rw e refl
]
  where
    pushed :
        (b : Bool)
        → ((if b
              then ok (map (in_dir dir) cs)
              else err (failure (codes "Container already have WorkingDir defined")))
            >>= λ cs'. ok (in_dir dir c ∷ cs'))
          ≡ (if b
              then ok (in_dir dir c ∷ map (in_dir dir) cs)
              else err (failure (codes "Container already have WorkingDir defined")))
    pushed true = refl
    pushed false = refl

mounted_dirs :
    (mounts : List ApiMount) (cs : List ApiContainer)
    → all_without_dir (map (add_mounts mounts) cs) ≡ all_without_dir cs
unfolding add_mounts
mounted_dirs mounts [] = refl
mounted_dirs mounts (c ∷ cs) = ap (λ b. bytes_beq c.working_dir [] && b) (mounted_dirs mounts cs)

-- The options that a development session gives, on a pod with a spec: the container that syncs is
-- put behind those of the pod, and gets the shared mounts as they do; the directory is set on all of
-- them if none of them has one, and otherwise there is an error.
apply_opts-session :
    (pod : ApiPod) (spec : ApiPodSpec) (sync : ApiContainer) (mounts : List ApiMount) (dir : Bytes)
    → pod.spec ≡ some spec
    → apply_opts (with_container sync ∷ with_shared_mount mounts ∷ with_working_dir dir ∷ []) pod
      ≡ (let mounted = map (add_mounts mounts) (spec.containers ++ sync ∷ []) in
          if all_without_dir (spec.containers ++ sync ∷ [])
          then ok
              (record pod { spec = some (record spec { containers = map (in_dir dir) mounted }) })
          else err (failure (codes "Container already have WorkingDir defined")))
unfolding apply_opts with_container with_shared_mount with_working_dir with_containers
apply_opts-session pod spec sync mounts dir e =
    let cs = spec.containers ++ sync ∷ [] in
    let dirs = set_working_dirs_lem dir (map (add_mounts mounts) cs) in
    rw e (
      ap
        (λ r.
          outcome (r >>= λ cs'. ok (record pod { spec = some (record spec { containers = cs' }) })))
        dirs
      ∙ elim (Bool-cases (all_without_dir cs)) [
        | inl h ↦ rw (mounted_dirs mounts cs, h) refl
        | inr h ↦ rw (mounted_dirs mounts cs, h) refl
      ])
  where
    outcome : Outcome ApiPod → Outcome ApiPod
    outcome (ok pod') = ok pod'
    outcome (err x) = err x
    outcome crash = crash
