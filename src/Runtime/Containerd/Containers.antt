-- ===== src/Runtime/Containerd/Containers.antt =====
-- pkg/runtime/containerd/mapping and extensions: what a container of containerd is in the model. The
-- container keeps its spec and its extensions in encoded form; what decoding them gives stands here
-- instead, and a spec that cannot be decoded is none, at which log.Fatalf ends the process.
use eliot.Prelude.{
  ℕ, zero, suc, ◌+◌, ◌-◌, ◌%◌, ◌^◌, Bytes, codes, Bool, false, ◌||◌, not, List, [], ◌∷◌, ◌++◌,
  Option, none, some, if◌then◌else◌, Outcome, ok, crash, ◌>>=◌, Dict, lookup, insert, bytes_beq,
  ◌==◌, bytes_eq, leb, ◌≡◌, refl,
}
use eliot.Model.{new_metadata, Mount, PipeSet, Container, ContainerStatus, Pod}

-- The parts of specs.Spec that are read; its pointers Process and Linux are taken not to be nil.
pub record Spec : Type 0 where
  pub terminal : Bool
  pub args : List Bytes
  pub env : List Bytes
  pub cwd : Bytes
  pub mounts : List Mount
  pub namespaces : List Bytes

-- extensions/lifecycle.go; Always is 0 and OnFailure is 1. The count, an int, stands by its 64 bits.
pub record ContainerLifecycle : Type 0 where
  pub start_count : ℕ
  pub restart_policy : ℕ

-- containers.Container
pub record Info : Type 0 where
  pub id : Bytes
  pub image : Bytes
  pub labels : Dict Bytes
  pub spec : Option Spec
  -- none: there is none, or it cannot be read
  pub lifecycle : Option ContainerLifecycle
  -- the name of the container that the pipe leads to
  pub pipe : Option Bytes

-- RestartPolicy.String
unfoldable pub policy_name : ℕ → Bytes
policy_name zero = codes "always"
policy_name (suc zero) = codes "onfailure"
policy_name (suc (suc n)) = codes "unknown"

-- labels.go
unfoldable pub build_label_key_for : Bytes → Bytes
build_label_key_for name = codes "io.eliot" ++ (b'.' ∷ name)

-- A missing key reads as the empty text.
get_value : Dict Bytes → Bytes → Bytes
get_value labels key = elim (lookup (build_label_key_for key) labels) [ none ↦ [] | some v ↦ v ]

unfoldable pub container_name : Dict Bytes → Bytes
unfolding get_value build_label_key_for
container_name labels = get_value labels (codes "container.name")

unfoldable pub new_labels : Pod → Container → Dict Bytes
unfolding build_label_key_for
new_labels pod container =
    insert (build_label_key_for (codes "container.name")) container.name
      (insert (build_label_key_for (codes "pod.name")) pod.metadata.name [])

-- GetPodName
unfoldable pub get_pod_name : Dict Bytes → Bytes
unfolding get_value build_label_key_for
get_pod_name labels =
    let name = get_value labels (codes "pod.name") in
    if bytes_beq name [] then codes "system" else name

-- getSpec, where its callers end the process on an error
unfoldable pub get_spec : Info → Outcome Spec
get_spec info = elim info.spec [ none ↦ crash | some s ↦ ok s ]

-- haveNamespace, on the spec
have_namespace : Bytes → List Bytes → Bool
have_namespace n [] = false
have_namespace n (m ∷ ms) = m == n || have_namespace n ms

-- The zero value, which the caller gets with the error.
lifecycle_of : Info → ContainerLifecycle
lifecycle_of info = elim info.lifecycle [
  | none ↦ record { start_count = 0; restart_policy = 0 }
  | some l ↦ l
]

-- getRestartCount; a count of which the highest of the 64 bits is set is negative, and so less than 2.
unfoldable pub get_restart_count : Info → ℕ
unfolding lifecycle_of
get_restart_count info =
    let l = lifecycle_of info in
    if leb l.start_count 1 || leb (2 ^ 63) l.start_count then 0 else l.start_count - 1

-- WithLifecycleExtension and IncrementRestart; none: not found.
unfoldable pub with_lifecycle_extension : Info → Info
with_lifecycle_extension info = record info {
  lifecycle = some (record { start_count = 0; restart_policy = 0 });
}

unfoldable pub increment_restart : Info → Option Info
increment_restart info = elim info.lifecycle [
  | none ↦ none
  | some l ↦
      some
        (record info { lifecycle = some (record l { start_count = (l.start_count + 1) % 2 ^ 64 }) })
]

-- getRestartPolicy
unfoldable pub get_restart_policy : Info → Bytes
unfolding lifecycle_of policy_name
get_restart_policy info = let l = lifecycle_of info in policy_name l.restart_policy

-- InitialisePodModel
unfoldable pub initialise_pod_model : Info → Bytes → Bytes → Bytes → Outcome Pod
unfolding get_spec have_namespace get_restart_policy
initialise_pod_model info namespace name hostname = do
  spec ← get_spec info
  ok (record {
    metadata = new_metadata namespace name;
    spec = record {
      containers = [];
      host_network = not (have_namespace (codes "network") spec.namespaces);
      host_pid = not (have_namespace (codes "pid") spec.namespaces);
      restart_policy = get_restart_policy info;
    };
    status = record { hostname = hostname; container_statuses = [] };
  })

-- mapPipeToInternalModel
unfoldable pub map_pipe : Option Bytes → Option PipeSet
map_pipe none = none
map_pipe (some name) = some (record { stdout = record { stdin = record { name = name } } })

-- MapContainerToInternalModel, with the functions that read the spec
unfoldable pub map_container_to_internal_model : Info → Outcome Container
unfolding get_spec map_pipe container_name
map_container_to_internal_model info = do
  spec ← get_spec info
  ok (record {
    name = container_name info.labels;
    image = info.image;
    tty = spec.terminal;
    args = spec.args;
    env = spec.env;
    working_dir = spec.cwd;
    pipe = map_pipe info.pipe;
    mounts = spec.mounts;
  })

-- mapContainerStatus
unfoldable pub map_container_status : Bytes → Bytes
map_container_status status = if bytes_beq status [] then codes "unknown" else status

-- MapContainerStatusToInternalModel
unfoldable pub map_container_status_to_internal_model : Info → Bytes → ContainerStatus
unfolding container_name map_container_status get_restart_count
map_container_status_to_internal_model info status = record {
  container_id = info.id;
  name = container_name info.labels;
  image = info.image;
  state = map_container_status status;
  restart_count = get_restart_count info;
}

-- The labels that a container gets name it and its pod; a container with no pod name is in "system".
pub get_pod_name-new_labels :
    (pod : Pod) (container : Container)
    → (container_name (new_labels pod container) ≡ container.name)
      × (get_pod_name (new_labels pod container)
          ≡ (if bytes_beq pod.metadata.name [] then codes "system" else pod.metadata.name))
unfolding container_name new_labels get_pod_name get_value build_label_key_for insert lookup
    bytes_beq
get_pod_name-new_labels pod container = (refl, refl)
