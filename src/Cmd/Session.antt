-- ===== src/Cmd/Session.antt =====
-- cmd/eli/runCommand.go and cmd/eli/upCommand.go: the commands that create a pod, start it, attach to
-- it and remove it again. The flags are given as cmd/utils.go parses them. The lines that are shown,
-- the mode of the terminal and the forwarding of signals are left out.
pub mod Laws
pub mod Removal
pub mod Arguments
use eliot.Prelude.{
  ℕ, Bytes, codes, Bool, true, false, List, [], ◌∷◌, ◌++◌, Option, none, some, if◌then◌else◌,
  length, Outcome, ok, err, crash, Error, failure, traverse, bytes_beq, ◌==◌, nat_eq, ◌&&◌, not,
  replace, join,
}
use mathlib.Core.List.{map}
use eliot.Model.Validation.{is_valid_env_key_value_pair}
use eliot.Program.{Program, pure, raise, halt, lift, ask, caught, deferred, ◌>>=◌}
use eliot.Api.Types.{ResourceMetadata, ApiMount, ApiContainer, ApiPodSpec, ApiPod}
use eliot.Api.Client.{
  ClientCall, Log, Server, Request, PodOpts, create_pod, start_pod, delete_pod, attach,
}
use eliot.Api.Client.Options.{with_container, with_shared_mount, with_working_dir}
use eliot.Utils.Fqin.{expand_to_fqin}
use eliot.Cmd.Containers.{find_running_container_id}
use eliot.Cmd.Flags.{Sync, must_parse_bind_flag}

pub record Flags : Type 0 where
  pub name : Bytes
  pub image : Bytes
  pub rm : Bool
  pub tty : Bool
  pub stdin : Bool
  pub env : List Bytes
  pub workdir : Bytes
  pub mounts : List ApiMount
  pub args : List Bytes

-- The loop over the variables.
unfoldable pub check_env : List Bytes → Outcome (Unit {0})
check_env [] = ok tt
check_env (variable ∷ env) =
    let rest = check_env env in
    if is_valid_env_key_value_pair variable
    then rest
    else err (failure (codes "Invalid --env value"))

-- ExpandToFQIN ends the process at an empty name.
or_exit : Option Bytes → Outcome Bytes
or_exit none = crash
or_exit (some name) = ok name

-- The pod of the commands.
unfoldable pub session_pod : Bytes → Bytes → Flags → ApiPod
session_pod namespace image flags = record {
  metadata = some (record { name = flags.name; namespace = namespace });
  spec = some (record {
    containers =
        record {
          name = flags.name;
          image = image;
          tty = flags.tty;
          args = flags.args;
          env = flags.env;
          working_dir = flags.workdir;
          mounts = flags.mounts;
          pipe = none;
        }
        ∷ [];
    host_network = true;
    host_pid = false;
    restart_policy = [];
  });
  status = none;
}

module _ (w : Server) (url namespace : Bytes) where
  -- A reply without a pod is a nil dereference.
  unfoldable pub running_id : Bytes → Option ApiPod → Outcome Bytes
  running_id name none = crash
  running_id name (some pod) = find_running_container_id pod name

  unfoldable pub attach_to : Flags → Option ApiPod → Request (Unit {0})
  unfolding running_id
  attach_to flags result = do
    id ← lift (running_id flags.name result)
    attach w url namespace id flags.stdin

  -- The deferred function: an error is only shown.
  unfoldable pub remove : Flags → Request (Unit {0})
  remove flags = do
    _ ← caught (delete_pod w url namespace (record { name = flags.name; namespace = namespace }))
    pure tt

  unfoldable pub removed_if : Flags → Request (Unit {0}) → Request (Unit {0})
  unfolding remove
  removed_if flags m = if flags.rm then deferred m (remove flags) else m

  -- run, where it has created the pod
  unfoldable pub run_created : Flags → Request (Unit {0})
  unfolding removed_if attach_to
  run_created flags =
      removed_if flags (do result ← start_pod w url namespace flags.name; attach_to flags result)

  unfoldable pub run : Flags → Request (Unit {0})
  unfolding or_exit check_env run_created session_pod
  run flags = do
    image ← lift (or_exit (expand_to_fqin flags.image))
    _ ← lift (check_env flags.env)
    _ ← create_pod w url namespace (session_pod namespace image flags) []
    run_created flags

  -- up, where it has created the pod
  unfoldable pub up_created : Flags → Request (Unit {0})
  unfolding removed_if attach_to
  up_created flags = do
    result ← start_pod w url namespace flags.name
    removed_if flags (attach_to flags result)

  unfoldable pub up : Flags → List PodOpts → Request (Unit {0})
  unfolding or_exit check_env up_created session_pod
  up flags opts = do
    image ← lift (or_exit (expand_to_fqin flags.image))
    _ ← lift (check_env flags.env)
    _ ← create_pod w url namespace (session_pod namespace image flags) opts
    up_created flags

-- The mount of a directory that is synced.
unfoldable pub sync_mount : Bytes → Sync → Outcome ApiMount
unfolding must_parse_bind_flag
sync_mount name sync = must_parse_bind_flag (
    codes "/var/lib/volumes/"
    ++ name
    ++ codes "/"
    ++ replace b'/' b'_' sync.destination
    ++ codes ":"
    ++ sync.destination
    ++ codes ":rw,rshared")

-- The variable that tells the syncing container of its directories.
unfoldable pub with_volumes : ApiContainer → List Sync → ApiContainer
with_volumes c syncs = record c {
  env = c.env ++ (codes "VOLUMES=" ++ join b' ' (map (λ (s : Sync). s.destination) syncs)) ∷ [];
}

-- The option for the directory, where there is one directory and no --workdir.
abbrev pub workdir_opts : Bytes → List Sync → List PodOpts
workdir_opts [] (sync ∷ []) = with_working_dir sync.destination ∷ []
workdir_opts _ _ = []

-- The options, with the mounts or what was met in making them.
abbrev pub opts_for :
    Bytes → List Sync → ApiContainer → Outcome (List ApiMount) → Outcome (List PodOpts)
opts_for workdir syncs container (ok mounts) = ok (
    with_container (with_volumes container syncs)
    ∷ with_shared_mount mounts
    ∷ workdir_opts workdir syncs)
opts_for workdir syncs container (err e) = err e
opts_for workdir syncs container crash = crash

-- The options of up, for the container of the project that syncs, if it has one.
unfoldable pub up_opts : Flags → List Sync → Option ApiContainer → Outcome (List PodOpts)
unfolding sync_mount with_volumes traverse
up_opts flags syncs none = ok []
up_opts flags [] (some container) = ok []
up_opts flags (sync ∷ syncs) (some container) =
    opts_for flags.workdir (sync ∷ syncs) container
      (traverse (sync_mount flags.name) (sync ∷ syncs))
