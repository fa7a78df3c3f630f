-- ===== src/Api/Mapping.antt =====
-- pkg/api/mapping/api.go and internal.go: between the API's models and the internal ones.
pub mod RoundTrip
pub mod Progress
use eliot.Prelude.{
  ℕ, Bytes, List, [], ◌∷◌, Option, some, none, Outcome, ok, crash, ◌>>=◌, traverse, map, ◌%◌, ◌^◌,
  false,
}
use eliot.Model.{
  Metadata, Mount, PipeToStdin, PipeFromStdout, PipeSet, Container, ContainerStatus, PodSpec,
  PodStatus, Pod,
}
use eliot.Api.Types.{
  ResourceMetadata, ApiMount, ApiPipeToStdin, ApiPipeFromStdout, ApiPipeSet, ApiContainer,
  ApiContainerStatus, ApiPodSpec, ApiPodStatus, ApiPod,
}

-- A nil pointer that is dereferenced.
abbrev deref {ℓ} : {A : Type ℓ} → Option A → Outcome A
deref none = crash
deref (some a) = ok a

mount_to_internal : ApiMount → Mount
mount_to_internal m = record {
  kind = m.kind;
  source = m.source;
  destination = m.destination;
  options = m.options;
}

-- mapMountsToInternalModel
unfoldable pub map_mounts_to_internal_model : List ApiMount → List Mount
unfolding mount_to_internal
map_mounts_to_internal_model = map mount_to_internal

-- mapPipeToInternalModel
unfoldable pub map_pipe_to_internal_model : Option ApiPipeSet → Outcome (Option PipeSet)
map_pipe_to_internal_model none = ok none
map_pipe_to_internal_model (some pipe) = do
  stdout ← deref pipe.stdout
  stdin ← deref stdout.stdin
  ok (some (record { stdout = record { stdin = record { name = stdin.name } } }))

container_to_internal : ApiContainer → Outcome Container
unfolding map_mounts_to_internal_model map_pipe_to_internal_model
container_to_internal c = do
  pipe ← map_pipe_to_internal_model c.pipe
  ok (record {
    name = c.name;
    image = c.image;
    tty = c.tty;
    args = c.args;
    env = c.env;
    working_dir = c.working_dir;
    mounts = map_mounts_to_internal_model c.mounts;
    pipe = pipe;
  })

-- MapContainerToInternalModel
unfoldable pub map_container_to_internal_model : List ApiContainer → Outcome (List Container)
unfolding container_to_internal traverse
map_container_to_internal_model = traverse container_to_internal

-- MapPodToInternalModel: the restart policy and the status stay at their zero values.
unfoldable pub map_pod_to_internal_model : ApiPod → Outcome Pod
map_pod_to_internal_model pod = do
  m ← deref pod.metadata
  s ← deref pod.spec
  containers ← map_container_to_internal_model s.containers
  ok (record {
    metadata = record { name = m.name; namespace = m.namespace };
    spec = record {
      host_network = s.host_network;
      host_pid = s.host_pid;
      containers = containers;
      restart_policy = [];
    };
    status = record { hostname = []; container_statuses = [] };
  })

-- MapPodsToInternalModel
unfoldable pub map_pods_to_internal_model : List ApiPod → Outcome (List Pod)
unfolding map_pod_to_internal_model traverse
map_pods_to_internal_model = traverse map_pod_to_internal_model

mount_to_api : Mount → ApiMount
mount_to_api m = record {
  kind = m.kind;
  source = m.source;
  destination = m.destination;
  options = m.options;
}

-- mapMountsToAPIModel
unfoldable pub map_mounts_to_api_model : List Mount → List ApiMount
unfolding mount_to_api
map_mounts_to_api_model = map mount_to_api

-- mapPipeToAPIModel
unfoldable pub map_pipe_to_api_model : Option PipeSet → Option ApiPipeSet
map_pipe_to_api_model none = none
map_pipe_to_api_model (some pipe) =
    some (record {
      stdout = some (record { stdin = some (record { name = pipe.stdout.stdin.name }) });
    })

-- The field Tty is not set.
container_to_api : Container → ApiContainer
unfolding map_mounts_to_api_model map_pipe_to_api_model
container_to_api c = record {
  name = c.name;
  image = c.image;
  tty = false;
  working_dir = c.working_dir;
  args = c.args;
  env = c.env;
  mounts = map_mounts_to_api_model c.mounts;
  pipe = map_pipe_to_api_model c.pipe;
}

-- MapContainersToAPIModel
unfoldable pub map_containers_to_api_model : List Container → List ApiContainer
unfolding container_to_api
map_containers_to_api_model = map container_to_api

status_to_api : ContainerStatus → ApiContainerStatus
status_to_api s = record {
  container_id = s.container_id;
  name = s.name;
  image = s.image;
  state = s.state;
  restart_count = s.restart_count % 2 ^ 32;
}

-- MapContainerStatusesToAPIModel
unfoldable pub map_container_statuses_to_api_model : List ContainerStatus → List ApiContainerStatus
unfolding status_to_api
map_container_statuses_to_api_model = map status_to_api

-- MapPodToAPIModel
unfoldable pub map_pod_to_api_model : Pod → ApiPod
unfolding map_containers_to_api_model map_container_statuses_to_api_model
map_pod_to_api_model pod = record {
  metadata = some (record { name = pod.metadata.name; namespace = pod.metadata.namespace });
  spec = some (record {
    containers = map_containers_to_api_model pod.spec.containers;
    host_network = pod.spec.host_network;
    host_pid = pod.spec.host_pid;
    restart_policy = pod.spec.restart_policy;
  });
  status = some (record {
    container_statuses = map_container_statuses_to_api_model pod.status.container_statuses;
    hostname = pod.status.hostname;
  });
}

-- MapPodsToAPIModel
unfoldable pub map_pods_to_api_model : List Pod → List ApiPod
unfolding map_pod_to_api_model
map_pods_to_api_model = map map_pod_to_api_model
