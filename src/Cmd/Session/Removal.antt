-- ===== src/Cmd/Session/Removal.antt =====
-- cmd/eli/runCommand.go and cmd/eli/upCommand.go: whether the pod is removed again.
use eliot.Prelude.{
  Bytes, List, [], ◌∷◌, ◌++◌, Option, none, some, Outcome, ok, err, crash, ◌≡◌, refl, sym, ap, ◌∙◌,
  append_assoc, append-nil, if◌then◌else◌, Bool-cases, inl, inr,
}
use eliot.Program.{continue, settled, pure, ask, caught, ◌>>=◌}
use eliot.Program.Plan.{bind-at}
use eliot.Program.Effects.{seen}
use eliot.Program.Always.{Always-deferred, AlwaysAt-bind}
use eliot.Program.Returns.{bind-lift, deferred-log}
use eliot.Api.Types.{ApiPod}
use eliot.Api.Client.{
  ClientCall, dial, close_conn, rpc_create, rpc_start, rpc_delete, Log, Server, Request, connected,
  delete_pod, PodOpts, apply_opts, create_pod, start_pod,
}
use eliot.Utils.Fqin.{expand_to_fqin}
use eliot.Cmd.Session.{
  Flags, or_exit, check_env, session_pod, attach_to, remove, removed_if, run_created, run,
  up_created, up,
}
use eliot.Cmd.Session.Laws.{
  change_of, Reachable, Does, create_pod-seen, run_created-Does, start_pod-some, start_pod-Does,
  attach_to-Does, remove-Does, started-Does,
}

-- What follows a start: a deletion only where it succeeded.
abbrev pub removed_after : Bytes → Flags → Outcome (Option ApiPod) → List ClientCall
removed_after namespace flags (ok pod) =
    if flags.rm then rpc_delete namespace flags.name ∷ [] else []
removed_after namespace flags (err e) = []
removed_after namespace flags crash = []

-- The calls of a deletion, with --rm.
abbrev pub deletion : Bytes → Bytes → Flags → List ClientCall
deletion url namespace flags =
    if flags.rm then dial url ∷ rpc_delete namespace flags.name ∷ close_conn ∷ [] else []

abbrev pub deletion_after : Bytes → Bytes → Flags → Outcome (Option ApiPod) → List ClientCall
deletion_after url namespace flags (ok pod) = deletion url namespace flags
deletion_after url namespace flags (err e) = []
deletion_after url namespace flags crash = []

caught_log :
    {A : Type 0} (r : Outcome A) (log : Log)
    → (continue {0, 0} {B = Unit {0}} (settled r log).0 (λ _. pure tt) (settled r log).1).1 ≡ log
unfolding pure
caught_log (ok a) log = refl
caught_log (err e) log = refl
caught_log crash log = refl

module _ (w : Server) (url namespace : Bytes) (h : Reachable w url) where
  remove-log :
      (flags : Flags) (log : Log)
      → (remove w url namespace flags log).1
        ≡ log ++ dial url ∷ rpc_delete namespace flags.name ∷ close_conn ∷ []
  unfolding remove delete_pod connected caught ask ◌>>=◌
  remove-log flags log =
      let dialled = log ++ dial url ∷ [] in
      let call = rpc_delete namespace flags.name in
      let sent = dialled ++ call ∷ [] in
      caught_log (delete_pod w url namespace _ log).0 (delete_pod w url namespace _ log).1
      ∙ rw (h.dials log) (
          (deferred-log (ask call w.pod) (ask close_conn w.done) dialled (h.answers sent)).0
          ∙ append_assoc dialled (call ∷ []) (close_conn ∷ [])
          ∙ append_assoc log (dial url ∷ []) (call ∷ close_conn ∷ []))

  -- The deletion is behind all else.
  removed_if-log :
      (flags : Flags) (m : Request (Unit {0})) (log : Log)
      → ((m log).0 ≡ crash → ⊥)
      → (removed_if w url namespace flags m log).1 ≡ (m log).1 ++ deletion url namespace flags
  unfolding removed_if
  removed_if-log flags m log n = elim (Bool-cases flags.rm) [
    | inl e ↦
        rw e ((deferred-log m (remove w url namespace flags) log n).0 ∙ remove-log flags (m log).1)
    | inr e ↦ rw e (sym (append-nil (m log).1))
  ]

  -- What follows a start.
  continued-log :
      (flags : Flags) (r : Outcome (Option ApiPod)) (log : Log)
      → (r ≡ ok none → ⊥)
      → (continue r
          (λ o. removed_if w url namespace flags (attach_to w url namespace flags o))
          log).1
        ≡ (continue r (attach_to w url namespace flags) log).1
          ++ deletion_after url namespace flags r
  continued-log flags (ok none) log n = absurd (n refl)
  continued-log flags (ok (some pod)) log n =
      removed_if-log flags _ log (attach_to-Does w url namespace h flags pod log).runs
  continued-log flags (err e) log n = sym (append-nil log)
  continued-log flags crash log n = sym (append-nil log)

  attached-Does :
      (flags : Flags) (pod : ApiPod)
      → Does w url namespace h
          (removed_if w url namespace flags (attach_to w url namespace flags (some pod)))
          (removed_after namespace flags (ok (some pod)))
  unfolding removed_if attach_to
  attached-Does flags pod = elim (Bool-cases flags.rm) [
    | inl e ↦ rw e (
        Always-deferred change_of _ (remove w url namespace flags) [] _
          (attach_to-Does w url namespace h flags pod) (remove-Does w url namespace h flags))
    | inr e ↦ rw e (attach_to-Does w url namespace h flags pod)
  ]

  continued :
      (flags : Flags) (r : Outcome (Option ApiPod)) (log : Log)
      → (r ≡ ok none → ⊥)
      → seen change_of
          (continue r
            (λ o. removed_if w url namespace flags (attach_to w url namespace flags o))
            log).1
        ≡ seen change_of log ++ removed_after namespace flags r
  continued flags (ok none) log n = absurd (n refl)
  continued flags (ok (some pod)) log n = (attached-Does flags pod log).sees
  continued flags (err e) log n = sym (append-nil (seen change_of log))
  continued flags crash log n = sym (append-nil (seen change_of log))

  up_created-seen :
      (flags : Flags) (log : Log)
      → seen change_of (up_created w url namespace flags log).1
        ≡ seen change_of log
          ++ rpc_start namespace flags.name
            ∷ removed_after namespace flags (start_pod w url namespace flags.name log).0
  unfolding up_created ◌>>=◌
  up_created-seen flags log =
      let started = start_pod w url namespace flags.name log in
      let rest = removed_after namespace flags started.0 in
      continued flags started.0 started.1 (start_pod-some w url namespace h flags.name log)
      ∙ ap (λ t. t ++ rest) (start_pod-Does w url namespace h flags.name log).sees
      ∙ append_assoc (seen change_of log) (rpc_start namespace flags.name ∷ []) rest

-- What `run` does where the pod could be created: it starts the pod and attaches to it and then, with
-- --rm, dials the node again and deletes the pod; the deletion is behind every other call, whether the
-- start, the search for the container and the attachment fail or not. The requests that change pods
-- are the creation, one start and, with --rm, one deletion.
pub run-removes :
    (w : Server) (url namespace image : Bytes) (flags : Flags) (log : Log)
    → Reachable w url
    → expand_to_fqin flags.image ≡ some image
    → check_env flags.env ≡ ok tt
    → (let created = create_pod w url namespace (session_pod namespace image flags) [] log in
        created.0 ≡ ok tt
        → ((run w url namespace flags log).1
            ≡ ((start_pod w url namespace flags.name >>= attach_to w url namespace flags)
                created.1).1
              ++ deletion url namespace flags)
          × (seen change_of (run w url namespace flags log).1
              ≡ seen change_of log
                ++ rpc_create (session_pod namespace image flags)
                  ∷ rpc_start namespace flags.name
                  ∷ (if flags.rm then rpc_delete namespace flags.name ∷ [] else [])))
unfolding run apply_opts run_created
run-removes w url namespace image flags log h x v e =
    let pod = session_pod namespace image flags in
    let created = create_pod w url namespace pod [] log in
    let session = start_pod w url namespace flags.name >>= attach_to w url namespace flags in
    let checked =
      bind-lift (or_exit (expand_to_fqin flags.image)) _ log image (ap or_exit x)
      ∙ bind-lift (check_env flags.env) _ log tt v in
    let changed =
      AlwaysAt-bind change_of (create_pod w url namespace pod [])
        (λ _. run_created w url namespace flags) log (rpc_create pod ∷ []) _ tt e
        (create_pod-seen w url namespace h pod pod [] log refl)
        (run_created-Does w url namespace h flags) in
    (
      ap (λ r. r.1)
            (checked
              ∙ bind-at (create_pod w url namespace pod []) (λ _. run_created w url namespace flags)
                  log tt e)
          ∙ removed_if-log w url namespace h flags session created.1
              (started-Does w url namespace h flags created.1).runs,
      ap (λ r. seen change_of r.1) checked ∙ changed.sees,
    )

-- What `up` does where the pod could be created, with the options: it starts the pod and, if the start
-- succeeded, attaches to it and then, with --rm, dials the node again and deletes the pod; the
-- deletion is behind every other call, whether what follows the start fails or not. Where the start
-- failed, the pod is left on the node. The requests that change pods are the creation, one start and
-- this deletion.
pub up-removes :
    (w : Server) (url namespace image : Bytes) (flags : Flags) (opts : List PodOpts) (pod : ApiPod)
    (log : Log)
    → Reachable w url
    → expand_to_fqin flags.image ≡ some image
    → check_env flags.env ≡ ok tt
    → apply_opts opts (session_pod namespace image flags) ≡ ok pod
    → (let created = create_pod w url namespace (session_pod namespace image flags) opts log in
        let started = start_pod w url namespace flags.name created.1 in
        created.0 ≡ ok tt
        → ((up w url namespace flags opts log).1
            ≡ ((start_pod w url namespace flags.name >>= attach_to w url namespace flags)
                created.1).1
              ++ deletion_after url namespace flags started.0)
          × (seen change_of (up w url namespace flags opts log).1
              ≡ seen change_of log
                ++ rpc_create pod
                  ∷ rpc_start namespace flags.name
                  ∷ removed_after namespace flags started.0))
unfolding up up_created ◌>>=◌
up-removes w url namespace image flags opts pod log h x v a e =
    let base = session_pod namespace image flags in
    let created = create_pod w url namespace base opts log in
    let started = start_pod w url namespace flags.name created.1 in
    let rest = removed_after namespace flags started.0 in
    let done =
      bind-lift (or_exit (expand_to_fqin flags.image)) _ log image (ap or_exit x)
      ∙ bind-lift (check_env flags.env) _ log tt v
      ∙ ap (λ r. continue r (λ _. up_created w url namespace flags) created.1) e in
    (
      ap (λ r. r.1) done
          ∙ continued-log w url namespace h flags started.0 started.1
              (start_pod-some w url namespace h flags.name created.1),
      ap (λ r. seen change_of r.1) done
          ∙ up_created-seen w url namespace h flags created.1
          ∙ ap (λ t. t ++ rpc_start namespace flags.name ∷ rest)
              (create_pod-seen w url namespace h base pod opts log a)
          ∙ append_assoc (seen change_of log) (rpc_create pod ∷ [])
              (rpc_start namespace flags.name ∷ rest),
    )
