-- ===== src/Cmd/Commands.antt =====
-- cmd/eli: the commands on pods besides run and up, as programs of requests of the client. The lines
-- that are shown and the mode of the terminal are left out; what a command prints is its result.
pub mod Laws
pub mod Lists
use eliot.Prelude.{
  ℕ, Bytes, codes, Bool, true, false, List, [], ◌∷◌, ◌++◌, Option, none, some, if◌then◌else◌,
  length, Outcome, ok, err, crash, Error, failure, bytes_beq, ◌==◌, nat_eq,
}
use eliot.Program.{Program, pure, raise, halt, lift, ask, caught, ◌>>=◌}
use eliot.Api.Types.{ResourceMetadata, ApiContainerStatus, ApiPodStatus, ApiPod, ApiInfo}
use eliot.Api.Client.{
  ClientCall, Log, Server, Request, get_info, get_pods, get_pod, create_pod, start_pod, delete_pod,
  attach, exec,
}
use eliot.Config.{Endpoint, Provider, get_namespace, get_endpoints, get_endpoint_by_name}
use eliot.Resolve.{build_pod}
use eliot.Cmd.Containers.{filter_by_pod_name, resolve_container_id}
use eliot.Cmd.Flags.{drop_double_dash}
use eliot.Cmd.Ui.{Output, LineOp, fatal, after_op}

-- A nil pointer that is read.
abbrev pub deref : {A : Type 0} → Option A → Outcome A
deref none = crash
deref (some a) = ok a

unfoldable pub first_arg : List Bytes → Bytes
first_arg [] = []
first_arg (a ∷ args) = a

tail_args : List Bytes → List Bytes
tail_args [] = []
tail_args (a ∷ args) = args

-- The pods to work on, where a name may be given.
named_pods : Bytes → List ApiPod → Outcome (List ApiPod)
named_pods [] pods = ok pods
named_pods (c ∷ name) pods = filter_by_pod_name pods (c ∷ name)

module _ (w : Server) (url namespace : Bytes) where
  -- The loop of deletePodCommand.go.
  unfoldable pub delete_pods : List ApiPod → Request (Unit {0})
  delete_pods [] = pure tt
  delete_pods (pod ∷ pods) = do
    m ← lift (deref pod.metadata)
    reply ← delete_pod w url namespace m
    deleted ← lift (deref reply)
    _ ← lift (deref deleted.metadata)
    delete_pods pods

  -- The pods are nil behind a failure that Fatalf reports and returns from.
  fetched : Output → Outcome (List ApiPod) → Outcome (List ApiPod)
  fetched output (ok pods) = ok pods
  fetched output (err e) = elim (after_op output (fatal (codes "Failed to fetch pods"))) [
    | ok x ↦ ok []
    | err y ↦ err y
    | crash ↦ crash
  ]
  fetched output crash = crash

  some_or_fatal : Output → List ApiPod → Outcome (Unit {0})
  some_or_fatal output [] = after_op output (fatal (codes "No pods found"))
  some_or_fatal output (pod ∷ pods) = ok tt

  unfoldable pub delete_pod_command : Output → List Bytes → Request (Unit {0})
  unfolding fetched some_or_fatal named_pods delete_pods first_arg
  delete_pod_command output args = do
    answer ← caught (get_pods w url namespace)
    pods ← lift (fetched output answer)
    _ ← lift (some_or_fatal output pods)
    chosen ← lift (named_pods (first_arg args) pods)
    _ ← lift (some_or_fatal output chosen)
    delete_pods chosen

  -- describePodCommand.go: the pods that are printed.
  unfoldable pub describe_pod_command : List Bytes → Request (List ApiPod)
  unfolding named_pods first_arg
  describe_pod_command args = do
    pods ← get_pods w url namespace
    lift (named_pods (first_arg args) pods)

  -- createPodCommand.go: the pod that is printed, which may be nil.
  unfoldable pub create_pod_command : List Bytes → List Bytes → Request (Option ApiPod)
  unfolding first_arg
  create_pod_command args images =
      if bytes_beq (first_arg args) []
      then raise (failure (codes "You need to give name for the pod"))
      else if length images == 0
      then raise (failure (codes "You need to give at least one --image flag"))
      else (do
        pod ← lift (build_pod (first_arg args) images)
        m ← lift (deref pod.metadata)
        _ ← create_pod w url namespace pod []
        start_pod w url namespace m.name)

  -- The container of a command; a pod without a status is a nil dereference.
  unfoldable pub container_of : List Bytes → Bytes → Request Bytes
  unfolding first_arg
  container_of args container =
      if bytes_beq (first_arg args) []
      then raise (failure (codes "You must give Pod name as first argument"))
      else (do
        pod ← get_pod w url namespace (first_arg args)
        status ← lift (deref pod.status)
        lift (resolve_container_id status.container_statuses container))

  unfoldable pub attach_command : List Bytes → Bytes → Bool → Request (Unit {0})
  unfolding container_of
  attach_command args container stdin = do
    id ← container_of args container
    attach w url namespace id stdin

  unfoldable pub exec_command : Bytes → List Bytes → Bytes → Bool → Bool → Request (Unit {0})
  unfolding container_of tail_args
  exec_command exec_id args container tty stdin = do
    id ← container_of args container
    exec w url namespace exec_id id (drop_double_dash (tail_args args)) tty stdin

-- describeNodeCommand.go: the infos that are printed, up to the first failure.
unfoldable pub described : Server → Bytes → List Endpoint → Request (List (Option ApiInfo))
described w namespace [] = pure []
described w namespace (e ∷ es) = do
  info ← get_info w e.url namespace
  infos ← described w namespace es
  pure (info ∷ infos)

-- The endpoints to describe.
unfoldable pub node_endpoints : Provider → Bytes → Outcome (List Endpoint)
node_endpoints cfg [] = ok (get_endpoints cfg)
node_endpoints cfg (c ∷ name) =
    let (e, found) = get_endpoint_by_name cfg (c ∷ name) in
    if found then ok (e ∷ []) else err (failure (codes "No endpoint found with name"))

unfoldable pub describe_node_command :
    Server → Provider → List Bytes → Request (List (Option ApiInfo))
unfolding described node_endpoints first_arg
describe_node_command w cfg args = do
  endpoints ← lift (node_endpoints cfg (first_arg args))
  described w (get_namespace cfg) endpoints
