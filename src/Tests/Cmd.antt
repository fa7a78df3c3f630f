-- ===== src/Tests/Cmd.antt =====
-- The theorems on cmd and pkg/resolve, at small inputs.
use eliot.Prelude.{true, split, has, replace}
use eliot.Tests.Data.{request_container}
use eliot.Api.Types.{ApiContainer}
use eliot.Api.Client.Options.{with_container, with_shared_mount, with_working_dir}
use eliot.Cmd.Session.{Flags, with_volumes, up_opts}
use eliot.Cmd.Flags.{Sync, bind_mount, parse_sync, must_parse_syncs}
use eliot.Cmd.Sync.Laws.{up_opts-must_parse_syncs}
use eliot.Prelude.{codes, false, [], ◌∷◌, none, some, ok, ◌≡◌, refl, bytes_beq}
use eliot.Model.{default_namespace}
use eliot.Resolve.{build_pod}
use eliot.Resolve.Laws.{containers_of, build_pod-containers_of}

build_pod-containers_of_example :
    build_pod (codes "site") (codes "nginx" ∷ codes "nginx" ∷ [])
    ≡ ok (record {
      metadata = some (record { name = codes "site"; namespace = default_namespace });
      spec = some (record {
        containers = containers_of [] (codes "nginx" ∷ codes "nginx" ∷ []);
        host_network = false;
        host_pid = false;
        restart_policy = [];
      });
      status = none;
    })
unfolding bytes_beq
build_pod-containers_of_example =
    build_pod-containers_of (codes "site") (codes "nginx" ∷ codes "nginx" ∷ []) (refl, (refl, tt))

abbrev flags : Flags
flags = record {
  name = codes "web";
  image = codes "nginx";
  rm = true;
  tty = true;
  stdin = true;
  env = [];
  workdir = [];
  mounts = [];
  args = [];
}

abbrev rsync : ApiContainer
rsync = record request_container { name = codes "rsync" }

abbrev data_sync : Sync
data_sync = record { source = codes "."; destination = codes "/srv/data" }

up_opts-must_parse_syncs_example :
    up_opts flags (data_sync ∷ []) (some rsync)
    ≡ ok (
        with_container (with_volumes rsync (data_sync ∷ []))
        ∷ with_shared_mount (
            bind_mount
              (codes "/var/lib/volumes/web/_srv_data")
              (codes "/srv/data")
              (codes "rw" ∷ codes "rshared" ∷ codes "rbind" ∷ [])
            ∷ [])
        ∷ with_working_dir (codes "/srv/data")
        ∷ [])
unfolding must_parse_syncs parse_sync split has replace
up_opts-must_parse_syncs_example =
    up_opts-must_parse_syncs flags (codes ".:/srv/data" ∷ []) data_sync [] rsync refl refl
