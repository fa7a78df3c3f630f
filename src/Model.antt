-- ===== src/Model.antt =====
-- pkg/model: pods, containers and their states. Go strings are byte lists; a pointer that may be nil
-- is an Option.
pub mod Validation
use eliot.Prelude.{ℕ, Bytes, codes, Bool, List, [], ◌∷◌, ◌++◌, Option}

pub record Metadata : Type 0 where
  pub name : Bytes
  pub namespace : Bytes

unfoldable pub new_metadata : Bytes → Bytes → Metadata
new_metadata namespace name = record { name = name; namespace = namespace }

pub record Mount : Type 0 where
  pub kind : Bytes
  pub source : Bytes
  pub destination : Bytes
  pub options : List Bytes

pub record PipeToStdin : Type 0 where
  pub name : Bytes

pub record PipeFromStdout : Type 0 where
  pub stdin : PipeToStdin

pub record PipeSet : Type 0 where
  pub stdout : PipeFromStdout

pub record Container : Type 0 where
  pub name : Bytes
  pub image : Bytes
  pub tty : Bool
  pub args : List Bytes
  pub env : List Bytes
  pub working_dir : Bytes
  pub mounts : List Mount
  pub pipe : Option PipeSet

pub record ContainerStatus : Type 0 where
  pub container_id : Bytes
  pub name : Bytes
  pub image : Bytes
  pub state : Bytes
  pub restart_count : ℕ

pub record PodSpec : Type 0 where
  pub host_network : Bool
  pub host_pid : Bool
  pub containers : List Container
  pub restart_policy : Bytes

pub record PodStatus : Type 0 where
  pub hostname : Bytes
  pub container_statuses : List ContainerStatus

pub record Pod : Type 0 where
  pub metadata : Metadata
  pub spec : PodSpec
  pub status : PodStatus

abbrev pub default_namespace : Bytes
default_namespace = codes "eliot"

-- The method on *Pod; the pod is returned.
unfoldable pub append_container : Pod → Container → ContainerStatus → Pod
append_container p container status = record p {
  spec = record p.spec { containers = p.spec.containers ++ (container ∷ []) };
  status = record p.status { container_statuses = p.status.container_statuses ++ (status ∷ []) };
}
