-- ===== src/Cmd/Commands/Laws.antt =====
-- cmd/eli: what `eli delete pod` and `eli create pod` change.
use eliot.Prelude.{
  ok-injective, Bytes, false, List, [], ◌∷◌, ◌++◌, Option, none, some, Outcome, ok, err, crash, ℕ,
  suc, arith, ◌≡◌, refl, ap, ◌∙◌, bytes_beq, length, nat_eq, ◌==◌,
}
use eliot.Program.{lift, ask, deferred, then_run, continue, ◌>>=◌}
use eliot.Program.Effects.{
  seen, EffectsAt, EffectsAt-failed, EffectsAt-call, EffectsAt-pure, EffectsAt-lifted,
  EffectsAt-bind, EffectsAt-unseen, EffectsAt-after,
}
use eliot.Program.Always.{AlwaysAt-bind}
use eliot.Program.Returns.{bind-lift}
use eliot.Model.{default_namespace}
use eliot.Api.Types.{ResourceMetadata, ApiPod}
use eliot.Api.Client.{
  apply_opts, ClientCall, dial, close_conn, rpc_create, rpc_start, rpc_delete, Log, Server,
  connected, create_pod, start_pod, delete_pod,
}
use eliot.Resolve.{build_pod}
use eliot.Resolve.Laws.{build_pod-metadata}
use eliot.Cmd.Session.Laws.{change_of, Reachable, create_pod-seen, start_pod-Does}
use eliot.Cmd.Commands.{deref, first_arg, delete_pods, create_pod_command}

suc_zero : (n : ℕ) → (suc n == 0) ≡ false
suc_zero n = ground arith

-- The request that deletes a pod.
abbrev deletion : Option ResourceMetadata → List ClientCall
deletion none = []
deletion (some m) = rpc_delete m.namespace m.name ∷ []

abbrev pub deletions : List ApiPod → List ClientCall
deletions [] = []
deletions (pod ∷ pods) = deletion pod.metadata ++ deletions pods

module _ (w : Server) (url namespace : Bytes) where
  closed :
      {A : Type 0} (r : Outcome A) (c : ClientCall) (log : Log)
      → EffectsAt change_of (then_run r (ask close_conn w.done) (log ++ c ∷ [])) (change_of c) log
  unfolding ask
  closed (ok a) c log =
      EffectsAt-after change_of (ok a) close_conn log _ _ refl
        (EffectsAt-call change_of (ok a) c log)
  closed (err e) c log =
      EffectsAt-after change_of (err e) close_conn log _ _ refl
        (EffectsAt-call change_of (err e) c log)
  closed crash c log = EffectsAt-call change_of crash c log

  dialled :
      {A : Type 0} (r : Outcome (Unit {0})) (c : ClientCall) (answer : Log → Outcome A) (log : Log)
      → EffectsAt change_of
          (continue r (λ _. deferred (ask c answer) (ask close_conn w.done)) log)
          (change_of c)
          log
  unfolding deferred ask
  dialled (ok x) c answer log = closed (answer (log ++ c ∷ [])) c log
  dialled (err e) c answer log = EffectsAt-failed change_of (err e) log _ (λ b. b)
  dialled crash c answer log = EffectsAt-failed change_of crash log _ (λ b. b)

  -- A request has the effect of its call, if the node can be dialled.
  request-at :
      {A : Type 0} (c : ClientCall) (answer : Log → Outcome A) (log : Log)
      → EffectsAt change_of (connected w url namespace (ask c answer) log) (change_of c) log
  unfolding connected ask ◌>>=◌
  request-at c answer log =
      EffectsAt-unseen change_of _ (dial url) log _ refl
        (dialled (w.done (log ++ dial url ∷ [])) c answer (log ++ dial url ∷ []))

  delete_pod-at :
      (m : ResourceMetadata) (log : Log)
      → EffectsAt change_of (delete_pod w url namespace m log) (deletion (some m)) log
  unfolding delete_pod
  delete_pod-at m log = request-at (rpc_delete m.namespace m.name) w.pod log

  delete_first :
      (o : Option ResourceMetadata) (pods : List ApiPod) (log : Log)
      → ((l : Log) → EffectsAt change_of (delete_pods w url namespace pods l) (deletions pods) l)
      → EffectsAt change_of
          ((do
            m ← lift (deref o)
            reply ← delete_pod w url namespace m
            deleted ← lift (deref reply)
            _ ← lift (deref deleted.metadata)
            delete_pods w url namespace pods)
            log)
          (deletion o ++ deletions pods)
          log
  delete_first none pods log k = EffectsAt-lifted change_of crash _ log _ λ m e. cc
  delete_first (some m) pods log k = EffectsAt-lifted change_of (ok m) _ log _ λ m' e.
      EffectsAt-bind change_of (delete_pod w url namespace m') _ log (deletion (some m)) _
        (rw⁻¹ (ok-injective e) (delete_pod-at m log))
        λ reply _.
          EffectsAt-lifted change_of (deref reply) _ _ _
            λ deleted _. EffectsAt-lifted change_of (deref deleted.metadata) _ _ _ λ _ _. k _

  -- `eli delete pod`, on the pods that it chose: they are deleted in their order, each once, and
  -- nothing else is changed, up to the first failure; a run that succeeds has asked for all of them.
  delete_pods-deletions :
      (pods : List ApiPod) (log : Log)
      → EffectsAt change_of (delete_pods w url namespace pods log) (deletions pods) log
  unfolding delete_pods
  delete_pods-deletions [] log = EffectsAt-pure change_of tt log
  delete_pods-deletions (pod ∷ pods) log =
      delete_first pod.metadata pods log (delete_pods-deletions pods)

-- `eli create pod`, with a name and images of which a pod can be made, where the pod could be
-- created: the pod is created in the default namespace, and the pod of its name in the namespace of
-- the client is started.
pub create_pod_command-changes :
    (w : Server) (url namespace : Bytes) (c : ℕ) (name : Bytes) (args images : List Bytes)
    (image : Bytes) (pod : ApiPod) (log : Log)
    → Reachable w url
    → build_pod (c ∷ name) (image ∷ images) ≡ ok pod
    → (create_pod w url namespace pod [] log).0 ≡ ok tt
    → (seen change_of
          (create_pod_command w url namespace ((c ∷ name) ∷ args) (image ∷ images) log).1
        ≡ seen change_of log ++ rpc_create pod ∷ rpc_start namespace (c ∷ name) ∷ [])
      × (pod.metadata ≡ some (record { name = c ∷ name; namespace = default_namespace }))
unfolding create_pod_command apply_opts first_arg bytes_beq
create_pod_command-changes w url namespace c name args images image pod log h b e =
    let m = build_pod-metadata (c ∷ name) (image ∷ images) pod b in
    let created =
      AlwaysAt-bind change_of (create_pod w url namespace pod [])
        (λ _. start_pod w url namespace (c ∷ name)) log (rpc_create pod ∷ [])
        (rpc_start namespace (c ∷ name) ∷ []) tt e
        (create_pod-seen w url namespace h pod pod [] log refl)
        (start_pod-Does w url namespace h (c ∷ name)) in
    (
      rw (suc_zero (length images)) (
          ap (λ r. seen change_of r.1)
            (bind-lift (build_pod (c ∷ name) (image ∷ images)) _ log pod b
              ∙ bind-lift (deref pod.metadata) _ log _ (ap deref m))
          ∙ created.sees),
      m,
    )
