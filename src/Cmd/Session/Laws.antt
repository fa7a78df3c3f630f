-- ===== src/Cmd/Session/Laws.antt =====
-- cmd/eli/runCommand.go and cmd/eli/upCommand.go: what becomes of the pod.
use eliot.Prelude.{
  Bytes, codes, Bool, List, [], ◌∷◌, ◌++◌, Option, none, some, Outcome, ok, err, crash, failure,
  ◌≡◌, refl, sym, ap, ◌∙◌, append-nil, subst, if◌then◌else◌, Bool-cases, inl, inr,
}
use eliot.Program.{pure, lift, ask, caught, deferred, ◌>>=◌}
use eliot.Program.Effects.{seen, seen-append, seen-call}
use eliot.Program.Always.{
  AlwaysAt, Always, Always-lift, Always-ask, Always-caught, Always-deferred, Always-bind,
  AlwaysAt-bind,
}
use eliot.Program.Returns.{deferred-log}
use eliot.Api.Types.{ApiPod, ApiPodStatus}
use eliot.Api.Mapping.Progress.{ApiImageFetch}
use eliot.Api.Stream.{Received, message, broken}
use eliot.Api.Server.Metadata.{attach_metadata}
use eliot.Api.Client.{
  ClientCall, dial, close_conn, rpc_create, rpc_start, rpc_delete, rpc_attach, wait_pipes, Log,
  Server, Request, PodOpts, apply_opts, connected, create_pod, start_pod, delete_pod, attach,
}
use eliot.Api.Client.Laws.{Runs, passed_on, passed_replies, create_calls, create_pod-calls}
use eliot.Cmd.Containers.{find_by_name, or_failure, find_running_container_id}
use eliot.Cmd.Session.{Flags, running_id, attach_to, remove, removed_if, run_created}

-- The requests that change the pods of the node.
abbrev pub change_of : ClientCall → List ClientCall
change_of (rpc_create pod) = rpc_create pod ∷ []
change_of (rpc_start ns name) = rpc_start ns name ∷ []
change_of (rpc_delete ns name) = rpc_delete ns name ∷ []
change_of _ = []

-- The node can be dialled, the calls of gRPC do not panic, and a reply to a start has a pod.
pub record Reachable (w : Server) (url : Bytes) : Type 0 where
  pub dials : (log : Log) → w.done (log ++ dial url ∷ []) ≡ ok tt
  pub running : Runs w
  pub answers : (log : Log) → w.pod log ≡ crash → ⊥
  pub shows : (log : Log) → w.pod log ≡ ok none → ⊥

module _ (w : Server) (url namespace : Bytes) (h : Reachable w url) where
  abbrev pub Does : {A : Type 0} → Request A → List ClientCall → Type 0
  Does m changes = Always change_of m changes

  dialled : (log : Log) → (ask (dial url) w.done log).0 ≡ ok tt
  unfolding ask
  dialled log = h.dials log

  dialled-seen :
      (log : Log) → seen change_of (ask (dial url) w.done log).1 ≡ seen change_of log ++ []
  unfolding ask
  dialled-seen log = seen-call change_of log (dial url)

  connected-Does :
      {A : Type 0} (m : Request A) (p : List ClientCall)
      → Does m p
      → Does (connected w url namespace m) p
  unfolding connected
  connected-Does m p k log =
      let rest = λ (x : Unit {0}). deferred m (ask close_conn w.done) in
      subst (λ q. AlwaysAt change_of ((ask (dial url) w.done >>= rest) log) q log) (append-nil p)
        (AlwaysAt-bind change_of (ask (dial url) w.done) rest log [] (p ++ []) tt (dialled log)
          (dialled-seen log)
          (Always-deferred change_of m (ask close_conn w.done) p [] k
            (Always-ask change_of close_conn w.done h.running.returns)))

  pub start_pod-Does :
      (name : Bytes) → Does (start_pod w url namespace name) (rpc_start namespace name ∷ [])
  unfolding start_pod
  start_pod-Does name =
      connected-Does (ask (rpc_start namespace name) w.pod) _
        (Always-ask change_of (rpc_start namespace name) w.pod h.answers)

  attach-Does : (id : Bytes) (stdin : Bool) → Does (attach w url namespace id stdin) []
  unfolding attach
  attach-Does id stdin =
      let md = attach_metadata namespace id in
      connected-Does _ [] (
        Always-bind change_of (ask (rpc_attach md) w.done) _ []
          (Always-ask change_of (rpc_attach md) w.done h.running.returns)
          λ _ log _. Always-ask change_of (wait_pipes stdin) w.done h.running.returns _)

  pub remove-Does :
      (flags : Flags) → Does (remove w url namespace flags) (rpc_delete namespace flags.name ∷ [])
  unfolding remove delete_pod pure lift
  remove-Does flags =
      let c = rpc_delete namespace flags.name in
      Always-bind change_of (caught (delete_pod w url namespace _)) _ (c ∷ [])
        (Always-caught change_of (delete_pod w url namespace _) (c ∷ [])
          (connected-Does (ask c w.pod) (c ∷ []) (Always-ask change_of c w.pod h.answers)))
        λ _ log _. Always-lift change_of (ok tt) (λ e. cc) _

  or_failure-runs : (text : Bytes) (o : Option Bytes) → or_failure text o ≡ crash → ⊥
  unfolding or_failure
  or_failure-runs text none e = cc
  or_failure-runs text (some id) e = cc

  status-runs :
      (text name : Bytes) (o : Option ApiPodStatus)
      → (elim o [
        | none ↦ err (failure text)
        | some status ↦ or_failure text (find_by_name name status.container_statuses)
      ])
        ≡ crash
      → ⊥
  status-runs text name none e = cc
  status-runs text name (some status) e =
      or_failure-runs text (find_by_name name status.container_statuses) e

  running_id-runs :
      (name : Bytes) (pod : ApiPod) → running_id w url namespace name (some pod) ≡ crash → ⊥
  unfolding running_id find_running_container_id
  running_id-runs name pod = status-runs (codes "Cannot find ContainerID") name pod.status

  pub attach_to-Does :
      (flags : Flags) (pod : ApiPod) → Does (attach_to w url namespace flags (some pod)) []
  unfolding attach_to
  attach_to-Does flags pod =
      let id = running_id w url namespace flags.name (some pod) in
      Always-bind change_of (lift id) _ []
        (Always-lift change_of id (running_id-runs flags.name pod))
        λ x log _. attach-Does x flags.stdin _

  -- A request returns what its call does.
  request-result :
      {A : Type 0} (c : ClientCall) (answer : Log → Outcome A) (log : Log)
      → ((l : Log) → answer l ≡ crash → ⊥)
      → (connected w url namespace (ask c answer) log).0 ≡ answer ((log ++ dial url ∷ []) ++ c ∷ [])
  unfolding connected ask ◌>>=◌
  request-result c answer log n =
      rw (h.dials log) (deferred-log (ask c answer) (ask close_conn w.done) _ (n _)).1

  pub start_pod-some :
      (name : Bytes) (log : Log) → (start_pod w url namespace name log).0 ≡ ok none → ⊥
  unfolding start_pod
  start_pod-some name log e =
      h.shows _ (sym (request-result (rpc_start namespace name) w.pod log h.answers) ∙ e)

  attach_to-at :
      (flags : Flags) (o : Option ApiPod) (log : Log)
      → (o ≡ none → ⊥)
      → AlwaysAt change_of (attach_to w url namespace flags o log) [] log
  attach_to-at flags none log n = absurd (n refl)
  attach_to-at flags (some pod) log n = attach_to-Does flags pod log

  pub started-Does :
      (flags : Flags)
      → Does
          (start_pod w url namespace flags.name >>= attach_to w url namespace flags)
          (rpc_start namespace flags.name ∷ [])
  started-Does flags =
      Always-bind change_of (start_pod w url namespace flags.name) _ _ (start_pod-Does flags.name)
        λ o log e. attach_to-at flags o _ λ x. start_pod-some flags.name log (e ∙ ap ok x)

  passed_on-seen : (rs : List (Received (List ApiImageFetch))) → seen change_of (passed_on rs) ≡ []
  passed_on-seen [] = refl
  passed_on-seen (broken ∷ rs) = refl
  passed_on-seen (message images ∷ rs) = passed_on-seen rs

  passed_replies-seen :
      (r : Outcome (List (Received (List ApiImageFetch))))
      → seen change_of (passed_replies r ++ close_conn ∷ []) ≡ []
  passed_replies-seen (ok rs) =
      seen-append change_of (passed_on rs) (close_conn ∷ []) ∙ ap (λ t. t ++ []) (passed_on-seen rs)
  passed_replies-seen (err e) = refl
  passed_replies-seen crash = refl

  -- CreatePod changes one thing.
  pub create_pod-seen :
      (pod pod' : ApiPod) (opts : List PodOpts) (log : Log)
      → apply_opts opts pod ≡ ok pod'
      → seen change_of (create_pod w url namespace pod opts log).1
        ≡ seen change_of log ++ rpc_create pod' ∷ []
  create_pod-seen pod pod' opts log e =
      let made = (log ++ dial url ∷ []) ++ rpc_create pod' ∷ [] in
      ap (seen change_of) (
        create_pod-calls w url namespace pod pod' opts log h.running e
        ∙ ap (λ r. log ++ create_calls url pod' r (w.replies made)) (h.dials log))
      ∙ seen-append change_of log (create_calls url pod' (ok tt) (w.replies made))
      ∙ ap (λ t. seen change_of log ++ rpc_create pod' ∷ t) (passed_replies-seen (w.replies made))

  pub run_created-Does :
      (flags : Flags)
      → Does (run_created w url namespace flags) (
          rpc_start namespace flags.name
          ∷ (if flags.rm then rpc_delete namespace flags.name ∷ [] else []))
  unfolding run_created removed_if
  run_created-Does flags = elim (Bool-cases flags.rm) [
    | inl e ↦ rw e (
        Always-deferred change_of _ (remove w url namespace flags) _ _ (started-Does flags)
          (remove-Does flags))
    | inr e ↦ rw e (started-Does flags)
  ]
