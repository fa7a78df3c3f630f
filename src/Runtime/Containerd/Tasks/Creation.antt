-- ===== src/Runtime/Containerd/Tasks/Creation.antt =====
-- pkg/runtime/containerd.go, utils.go and containerd/opts.go: CreateContainer. The options of package
-- oci of containerd are parameters; those of the repository set fields of the spec.
use eliot.Prelude.{
  Bytes, codes, Bool, true, false, List, [], ◌∷◌, ◌++◌, Option, none, some, if◌then◌else◌, Outcome,
  ok, err, crash,
}
use eliot.Model.{Mount, PipeSet, Container, ContainerStatus, Pod}
use eliot.Resolve.{Stat, file_exist, dir_exist}
use eliot.Program.{pure, lift, ask, ◌>>=◌}
use eliot.Runtime.Containerd.Env.{with_env}
use eliot.Runtime.Containerd.Containers.{
  Spec, Info, new_labels, with_lifecycle_extension, map_container_status_to_internal_model,
}
use eliot.Runtime.Containerd.Tasks.{
  connect, get_image, new_container, container_info, stat, make_dir, Daemon, Run,
  resolve_container_status,
}

abbrev pub SpecOpts : Type 0
SpecOpts = Spec → Outcome Spec

-- oci.GenerateSpec with an image's configuration, and the options of package oci.
pub record Oci : Type 0 where
  pub image_spec : Bytes → Outcome Spec
  pub with_process_args : List Bytes → SpecOpts
  pub with_tty : SpecOpts
  pub with_host_namespace : Bytes → SpecOpts
  pub with_host_hosts_file : SpecOpts
  pub with_host_resolvconf : SpecOpts

unfoldable pub with_cwd : Bytes → SpecOpts
with_cwd cwd s = ok (record s { cwd = cwd })

-- WithEnv as an option
unfoldable pub with_env_opt : List Bytes → SpecOpts
with_env_opt overrides s = ok (record s { env = with_env overrides s.env })

-- WithMounts, with MapMountToContainerdModel, which keeps the fields
unfoldable pub with_mounts : List Mount → SpecOpts
with_mounts mounts s = ok (record s { mounts = s.mounts ++ mounts })

unfoldable pub apply_all : List SpecOpts → Spec → Outcome Spec
apply_all [] s = ok s
apply_all (o ∷ os) s = elim (o s) [ ok s' ↦ apply_all os s' | err e ↦ err e | crash ↦ crash ]

-- Options that are given for a list that is not empty.
unfoldable pub if_any : {A : Type 0} → List A → List SpecOpts → List SpecOpts
if_any [] opts = []
if_any (x ∷ xs) opts = opts

module _ (oci : Oci) where
  -- The options of a pod on the host's network or with its processes.
  abbrev pub host_opts : Bool → Bool → List SpecOpts
  host_opts network pid =
      (if network
        then oci.with_host_namespace (codes "network")
          ∷ oci.with_host_hosts_file
          ∷ oci.with_host_resolvconf
          ∷ []
        else [])
      ++ (if pid then oci.with_host_namespace (codes "pid") ∷ [] else [])

  unfoldable pub spec_opts : Pod → Container → List SpecOpts
  unfolding with_cwd with_env_opt with_mounts if_any
  spec_opts pod c =
      if_any c.args (oci.with_process_args c.args ∷ [])
      ++ ((if c.tty then oci.with_tty ∷ [] else [])
          ++ (if_any c.working_dir (with_cwd c.working_dir ∷ [])
              ++ (if_any c.env (with_env_opt c.env ∷ [])
                  ++ (if_any c.mounts (with_mounts c.mounts ∷ [])
                      ++ host_opts pod.spec.host_network pod.spec.host_pid))))

  unfoldable pub new_spec : Bytes → Pod → Container → Outcome Spec
  unfolding spec_opts apply_all
  new_spec image pod c = elim (oci.image_spec image) [
    | ok s ↦ apply_all (spec_opts pod c) s
    | err e ↦ err e
    | crash ↦ crash
  ]

  -- MapPipeToContainerdModel, with the name of the target
  unfoldable pub pipe_name : Option PipeSet → Option Bytes
  pipe_name none = none
  pipe_name (some pipe) = some pipe.stdout.stdin.name

  -- The container that the options of NewContainer make.
  unfoldable pub container_info_of : Bytes → Bytes → Pod → Container → Spec → Info
  unfolding pipe_name
  container_info_of id image pod c spec = with_lifecycle_extension (record {
    id = id;
    image = image;
    labels = new_labels pod c;
    spec = some spec;
    lifecycle = none;
    pipe = pipe_name c.pipe;
  })

  module _ (d : Daemon) where
    -- A question to os.Stat.
    unfoldable pub stat_path : Bytes → (Stat → Outcome Bool) → Run Bool
    stat_path path test = do _ ← ask (stat path) λ _. ok tt; λ log. (test (d.stat_of log), log)

    unfoldable pub made_unless : Bytes → Bool → Run (Unit {0})
    made_unless path true = pure tt
    made_unless path false = ask (make_dir path) d.done

    unfoldable pub ensure_mount_source : Bytes → Run (Unit {0})
    unfolding stat_path made_unless file_exist dir_exist
    ensure_mount_source path = do
      is_file ← stat_path path file_exist
      (if is_file then pure tt else (do is_dir ← stat_path path dir_exist; made_unless path is_dir))

    unfoldable pub ensure_mount_source_dir_exists : List Mount → Run (Unit {0})
    unfolding ensure_mount_source
    ensure_mount_source_dir_exists [] = pure tt
    ensure_mount_source_dir_exists (m ∷ ms) = do
      _ ← ensure_mount_source m.source
      ensure_mount_source_dir_exists ms

    -- CreateContainer, with the id that xid made
    unfoldable pub create_container : Bytes → Pod → Container → Run ContainerStatus
    unfolding new_spec container_info_of ensure_mount_source_dir_exists
    create_container id pod c = do
      _ ← ask (connect pod.metadata.namespace) d.done
      image ← ask (get_image c.image) d.image_name
      _ ← ensure_mount_source_dir_exists c.mounts
      spec ← lift (new_spec image pod c)
      _ ← ask (new_container (container_info_of id image pod c spec)) d.done
      info ← ask container_info d.info
      status ← resolve_container_status d
      pure (map_container_status_to_internal_model info status)
