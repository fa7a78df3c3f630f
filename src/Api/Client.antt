-- ===== src/Api/Client.antt =====
-- pkg/api/client.go: the client of the API, as programs of calls to gRPC. The answers are a parameter,
-- a function of the calls made so far. The version without a namespace argument of every method is
-- given the client's namespace and the URL of its endpoint.
pub mod Options
pub mod Pipes
pub mod Laws
use eliot.Prelude.{
  ℕ, Bytes, codes, Bool, true, false, List, [], ◌∷◌, ◌++◌, Option, none, some, if◌then◌else◌,
  Outcome, ok, err, crash, Error, failure, ◌==◌, bytes_eq,
}
use eliot.Progress.{ImageFetch}
use eliot.Program.{Program, pure, raise, halt, lift, ask, deferred, ◌>>=◌}
use eliot.Api.Types.{ResourceMetadata, ApiPod, ApiInfo}
use eliot.Api.Mapping.Progress.{ApiImageFetch, map_api_model_to_image_fetch_progress}
use eliot.Api.Stream.{Received, message, broken}
use eliot.Api.Server.Metadata.{Metadata, attach_metadata, exec_metadata}

pub data ClientCall : Type 0 where
  dial : Bytes → ClientCall
  close_conn : ClientCall
  rpc_info : ClientCall
  rpc_list : Bytes → ClientCall
  rpc_create : ApiPod → ClientCall
  rpc_start : Bytes → Bytes → ClientCall
  rpc_delete : Bytes → Bytes → ClientCall
  rpc_attach : Metadata → ClientCall
  rpc_exec : Metadata → ClientCall
  rpc_signal : Bytes → Bytes → ℕ → ClientCall
  close_send : ClientCall
  -- the first pipe to end, with or without one for stdin
  wait_pipes : Bool → ClientCall
  -- to the channel that the caller gave
  send_status : List ImageFetch → ClientCall

abbrev pub Log : Type 0
Log = List ClientCall

-- The answer to the last call of the log; a field of a reply that is a pointer may be nil.
pub record Server : Type 0 where
  pub done : Log → Outcome (Unit {0})
  pub info : Log → Outcome (Option ApiInfo)
  pub pods : Log → Outcome (List ApiPod)
  pub pod : Log → Outcome (Option ApiPod)
  -- what Recv returns on the stream of Create, ended by io.EOF
  pub replies : Log → Outcome (List (Received (List ApiImageFetch)))

abbrev pub Request : Type 0 → Type 0
Request A = Program ClientCall A

-- PodOpts: a function that changes the pod, or fails.
abbrev pub PodOpts : Type 0
PodOpts = ApiPod → Outcome ApiPod

unfoldable pub apply_opts : List PodOpts → ApiPod → Outcome ApiPod
apply_opts [] pod = ok pod
apply_opts (o ∷ opts) pod = elim (o pod) [
  | ok pod' ↦ apply_opts opts pod'
  | err e ↦ err e
  | crash ↦ crash
]

module _ (w : Server) (url : Bytes) (namespace : Bytes) where
  -- A request on a connection of its own, which is closed behind it.
  unfoldable pub connected : {A : Type 0} → Request A → Request A
  connected m = do _ ← ask (dial url) w.done; deferred m (ask close_conn w.done)

  unfoldable pub get_info : Request (Option ApiInfo)
  unfolding connected
  get_info = connected (ask rpc_info w.info)

  unfoldable pub get_pods : Request (List ApiPod)
  unfolding connected
  get_pods = connected (ask (rpc_list namespace) w.pods)

  -- A pod without metadata is a nil dereference.
  unfoldable pub find_pod : Bytes → List ApiPod → Outcome ApiPod
  find_pod name [] = err (failure (codes "Pod not found"))
  find_pod name (pod ∷ pods) = elim pod.metadata [
    | none ↦ crash
    | some m ↦ if m.name == name then ok pod else find_pod name pods
  ]

  unfoldable pub get_pod : Bytes → Request ApiPod
  unfolding get_pods find_pod
  get_pod name = do pods ← get_pods; lift (find_pod name pods)

  -- The loop of CreatePod, on what Recv returns.
  unfoldable pub pass_on : List (Received (List ApiImageFetch)) → Request (Unit {0})
  pass_on [] = ask close_send w.done
  pass_on (broken ∷ rest) = raise (failure (codes "Recv"))
  pass_on (message images ∷ rest) = do
    _ ← ask (send_status (map_api_model_to_image_fetch_progress images)) λ _. ok tt
    pass_on rest

  unfoldable pub create_pod : ApiPod → List PodOpts → Request (Unit {0})
  unfolding connected pass_on apply_opts
  create_pod pod opts = do
    pod' ← lift (apply_opts opts pod)
    connected (do replies ← ask (rpc_create pod') w.replies; pass_on replies)

  unfoldable pub start_pod : Bytes → Request (Option ApiPod)
  unfolding connected
  start_pod name = connected (ask (rpc_start namespace name) w.pod)

  -- DeletePod, on the metadata of the pod
  unfoldable pub delete_pod : ResourceMetadata → Request (Option ApiPod)
  unfolding connected
  delete_pod m = connected (ask (rpc_delete m.namespace m.name) w.pod)

  -- Attach; its hooks run beside it and are only told when it is done.
  unfoldable pub attach : Bytes → Bool → Request (Unit {0})
  unfolding connected
  attach container_id has_stdin = connected (do
    _ ← ask (rpc_attach (attach_metadata namespace container_id)) w.done
    ask (wait_pipes has_stdin) w.done)

  -- Exec, with the id that xid made
  unfoldable pub exec : Bytes → Bytes → List Bytes → Bool → Bool → Request (Unit {0})
  unfolding connected
  exec exec_id container_id args tty has_stdin = connected (do
    _ ←
        ask
          (rpc_exec (
            exec_metadata namespace container_id exec_id args
              (if tty then codes "true" else codes "false")))
          w.done
    ask (wait_pipes has_stdin) w.done)

  unfoldable pub signal : Bytes → ℕ → Request (Unit {0})
  unfolding connected
  signal container_id number = connected (ask (rpc_signal namespace container_id number) w.done)
