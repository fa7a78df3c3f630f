-- ===== src/Api/Types.antt =====
-- The messages of the API, as protoc generates them from containers.proto, pods.proto and
-- metadata.proto. A pointer to a message is an Option, an element of a list of messages is a value.
use eliot.Prelude.{ℕ, Bytes, Bool, List, Option}

-- core.ResourceMetadata
pub record ResourceMetadata : Type 0 where
  pub name : Bytes
  pub namespace : Bytes

-- containers.Mount
pub record ApiMount : Type 0 where
  pub kind : Bytes
  pub source : Bytes
  pub destination : Bytes
  pub options : List Bytes

-- containers.PipeToStdin, containers.PipeFromStdout and containers.PipeSet
pub record ApiPipeToStdin : Type 0 where
  pub name : Bytes

pub record ApiPipeFromStdout : Type 0 where
  pub stdin : Option ApiPipeToStdin

pub record ApiPipeSet : Type 0 where
  pub stdout : Option ApiPipeFromStdout

-- containers.Container
pub record ApiContainer : Type 0 where
  pub name : Bytes
  pub image : Bytes
  pub tty : Bool
  pub working_dir : Bytes
  pub args : List Bytes
  pub env : List Bytes
  pub mounts : List ApiMount
  pub pipe : Option ApiPipeSet

-- containers.ContainerStatus; the count is an int32, by its bits.
pub record ApiContainerStatus : Type 0 where
  pub container_id : Bytes
  pub name : Bytes
  pub image : Bytes
  pub state : Bytes
  pub restart_count : ℕ

-- pods.PodSpec
pub record ApiPodSpec : Type 0 where
  pub containers : List ApiContainer
  pub host_network : Bool
  pub host_pid : Bool
  pub restart_policy : Bytes

-- pods.PodStatus
pub record ApiPodStatus : Type 0 where
  pub container_statuses : List ApiContainerStatus
  pub hostname : Bytes

-- pods.Pod
pub record ApiPod : Type 0 where
  pub metadata : Option ResourceMetadata
  pub spec : Option ApiPodSpec
  pub status : Option ApiPodStatus

-- node.Label
pub record ApiLabel : Type 0 where
  pub key : Bytes
  pub value : Bytes

-- node.Filesystem
pub record ApiFilesystem : Type 0 where
  pub filesystem : Bytes
  pub type_name : Bytes
  pub mount_dir : Bytes
  pub total : ℕ
  pub free : ℕ
  pub available : ℕ

-- node.Info
pub record ApiInfo : Type 0 where
  pub labels : List ApiLabel
  pub hostname : Bytes
  pub addresses : List Bytes
  pub grpc_port : ℕ
  pub machine_id : Bytes
  pub system_uuid : Bytes
  pub boot_id : Bytes
  pub arch : Bytes
  pub os : Bytes
  pub version : Bytes
  pub filesystems : List ApiFilesystem
  pub uptime : ℕ
