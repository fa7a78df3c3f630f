-- ===== src/Runtime.antt =====
-- pkg/runtime/interface.go: the runtime that the server and the controller drive. Its answers are a
-- parameter, a function of the calls made so far; a program run keeps the list of these calls. Every
-- runtime whose answers depend on nothing but what was asked of it is such a function.
pub mod Streams
pub mod Containerd
use eliot.Prelude.{ℕ, Bytes, Bool, List, [], ◌∷◌, ◌++◌, Outcome, ok, err, crash, Error}
use eliot.Model.{Pod, Container, ContainerStatus}
use eliot.Progress.{ImageFetch}
unfoldable pub use eliot.Program.{pure, raise, halt, lift, ask, continue, ◌>>=◌, ◌>>◌, for_each}
use eliot.Program.{Program}

-- pkg/runtime/ioset.go
pub record IoSet : Type 0 where
  pub stdin : Bytes
  pub stdout : Bytes
  pub stderr : Bytes

pub data Call : Type 0 where
  call_get_namespaces : Call
  call_get_pods : Bytes → Call
  call_get_pod : Bytes → Bytes → Call
  call_pull_image : Bytes → Bytes → Call
  call_create_container : Pod → Container → Call
  call_start_container : Bytes → Bytes → IoSet → Call
  call_stop_container : Bytes → Bytes → Call
  call_exec : Bytes → Bytes → Bytes → List Bytes → Bool → Call
  call_attach : Bytes → Bytes → Call
  call_signal : Bytes → Bytes → ℕ → Call
  -- not of the client: the directory for the files of an IO set, made by package os
  call_temp_dir : Call

abbrev pub Log : Type 0
Log = List Call

-- The answer to the last call of the log.
pub record World : Type 0 where
  pub get_namespaces : Log → Outcome (List Bytes)
  pub get_pods : Log → Outcome (List Pod)
  pub get_pod : Log → Outcome Pod
  -- the pull also updates the progress that it is given
  pub pull_image : Log → ImageFetch → Outcome (Unit {0}) × ImageFetch
  pub create_container : Log → Outcome ContainerStatus
  pub start_container : Log → Outcome ContainerStatus
  pub stop_container : Log → Outcome ContainerStatus
  pub exec : Log → Outcome (Unit {0})
  pub attach : Log → Outcome (Unit {0})
  pub signal : Log → Outcome (Unit {0})
  pub temp_dir : Log → Outcome Bytes

-- A program that calls the runtime.
abbrev pub Exec {ℓ} : Type ℓ → Type ℓ
Exec A = Program Call A
