-- ===== src/Tests/Session.antt =====
-- The theorems on the client, the commands and what a node shows of itself, at small inputs.
use eliot.Eliotd
use eliot.Eliotd.{new_server, action}
use eliot.Eliotd.Laws.{announcing, entry_of, endpoint_at, action-endpoints_of}
use eliot.Discovery.{nodes}
use eliot.Cmd.Flags.{get_labels, read_labels}
use eliot.Cmd.Ui.{hidden}
use eliot.Prelude.{◌++◌, ℕ, Option, insert, read_decimal, digits, split, has, decimal}
use eliot.Prelude.{Bytes, codes, true, false, [], ◌∷◌, none, some, ok, ◌≡◌, refl, bytes_beq, cut}
use eliot.Model.{default_namespace}
use eliot.Program.{lift, ask, deferred, ◌>>=◌}
use eliot.Program.Effects.{seen}
use eliot.Api.Types.{ApiPod, ApiInfo}
use eliot.Api.Client.{
  Server, rpc_create, rpc_start, rpc_delete, dial, close_conn, apply_opts, connected, pass_on,
  create_pod, start_pod,
}
use eliot.Api.Client.Laws.{create_calls, Runs, create_pod-calls}
use eliot.Config.{get_endpoints, find_endpoint}
use eliot.Utils.Fqin.{expand_to_fqin, resolve_fqin, print_fqin, get_fqin_username, get_fqin_image}
use eliot.Api.Defaults.{default_pod}
use eliot.Resolve.{build_pod}
use eliot.Cmd.Session.{Flags, check_env, session_pod, attach_to, run, up}
use eliot.Cmd.Session.Laws.{change_of, Reachable}
use eliot.Cmd.Session.Removal.{run-removes, up-removes}
use eliot.Cmd.Commands.{create_pod_command}
use eliot.Cmd.Commands.Laws.{create_pod_command-changes}
use eliot.Cmd.Provider.{GlobalFlags, get_config_provider, endpoint_of, endpoints_of}
use eliot.Cmd.Provider.Laws.{get_endpoints-get_config_provider}
use eliot.Tests.Data.{request}

abbrev url : Bytes
url = codes "node:5000"

abbrev eliot_namespace : Bytes
eliot_namespace = codes "eliot"

-- A node that does what it is asked.
abbrev server : Server
server = record {
  done = λ log. ok tt;
  info = λ log. ok none;
  pods = λ log. ok (request ∷ []);
  pod = λ log. ok (some request);
  replies = λ log. ok [];
}

server-Runs : Runs server
server-Runs = record { returns = λ log e. cc; streams = λ log e. cc }

server-Reachable : Reachable server url
server-Reachable = record {
  dials = λ log. refl;
  running = server-Runs;
  answers = λ log e. cc;
  shows = λ log e. cc;
}

create_pod-calls_example :
    (create_pod server url eliot_namespace request [] []).1
    ≡ create_calls url request (ok tt) (ok [])
unfolding apply_opts
create_pod-calls_example =
    create_pod-calls server url eliot_namespace request request [] [] server-Runs refl

abbrev flags : Flags
flags = record {
  name = codes "web";
  image = codes "nginx";
  rm = true;
  tty = true;
  stdin = true;
  env = [];
  workdir = [];
  mounts = [];
  args = [];
}

abbrev image : Bytes
image = codes "docker.io/library/nginx:latest"

run-removes_example :
    ((run server url eliot_namespace flags []).1
      ≡ ((start_pod server url eliot_namespace flags.name
            >>= attach_to server url eliot_namespace flags)
          (create_pod server url eliot_namespace
            (session_pod eliot_namespace image flags)
            []
            []).1).1
        ++ dial url ∷ rpc_delete eliot_namespace (codes "web") ∷ close_conn ∷ [])
    × (seen change_of (run server url eliot_namespace flags []).1
        ≡ rpc_create (session_pod eliot_namespace image flags)
          ∷ rpc_start eliot_namespace (codes "web")
          ∷ rpc_delete eliot_namespace (codes "web")
          ∷ [])
unfolding expand_to_fqin resolve_fqin print_fqin cut bytes_beq check_env create_pod connected lift
    ask deferred pass_on apply_opts ◌>>=◌
run-removes_example =
    run-removes server url eliot_namespace image flags [] server-Reachable refl refl refl

up-removes_example :
    ((up server url eliot_namespace flags [] []).1
      ≡ ((start_pod server url eliot_namespace flags.name
            >>= attach_to server url eliot_namespace flags)
          (create_pod server url eliot_namespace
            (session_pod eliot_namespace image flags)
            []
            []).1).1
        ++ dial url ∷ rpc_delete eliot_namespace (codes "web") ∷ close_conn ∷ [])
    × (seen change_of (up server url eliot_namespace flags [] []).1
        ≡ rpc_create (session_pod eliot_namespace image flags)
          ∷ rpc_start eliot_namespace (codes "web")
          ∷ rpc_delete eliot_namespace (codes "web")
          ∷ [])
unfolding expand_to_fqin resolve_fqin print_fqin cut bytes_beq check_env create_pod connected lift
    ask deferred pass_on apply_opts ◌>>=◌ start_pod
up-removes_example =
    up-removes server url eliot_namespace image flags [] (session_pod eliot_namespace image flags)
      [] server-Reachable refl refl refl refl

built : (pod : ApiPod) × (build_pod (codes "web") (codes "nginx" ∷ []) ≡ ok pod)
unfolding build_pod expand_to_fqin bytes_beq get_fqin_username cut print_fqin resolve_fqin
    get_fqin_image default_pod
built = (_, refl)

create_pod_command-changes_example :
    (seen change_of
        (create_pod_command server url (codes "other") (codes "web" ∷ []) (codes "nginx" ∷ []) []).1
      ≡ rpc_create built.0 ∷ rpc_start (codes "other") (codes "web") ∷ [])
    × (built.0.metadata ≡ some (record { name = codes "web"; namespace = default_namespace }))
unfolding create_pod connected lift ask deferred pass_on apply_opts ◌>>=◌
create_pod_command-changes_example =
    create_pod_command-changes server url (codes "other") b'w' (codes "eb") [] [] (codes "nginx")
      built.0 [] server-Reachable built.1 refl

abbrev node : ApiInfo
node = record {
  labels = [];
  hostname = codes "rpi";
  addresses = codes "10.0.0.2" ∷ [];
  grpc_port = 5000;
  machine_id = [];
  system_uuid = [];
  boot_id = [];
  arch = [];
  os = [];
  version = [];
  filesystems = [];
  uptime = 0;
}

abbrev global : GlobalFlags
global = record { namespace = none; endpoint = none; node = some (codes "rpi") }

get_endpoints-get_config_provider_example :
    get_endpoints (
      get_config_provider (record { endpoints = []; namespace = codes "eliot" }) global (node ∷ []))
    ≡ endpoint_of node ∷ []
unfolding bytes_beq endpoint_of find_endpoint endpoints_of
get_endpoints-get_config_provider_example =
    get_endpoints-get_config_provider (record { endpoints = []; namespace = codes "eliot" }) global
      (node ∷ [])

abbrev eliotd_flags : Eliotd.Flags
eliotd_flags = record {
  grpc_api_listen = codes "0.0.0.0:5000";
  labels = some (codes "node=rpi3,location=home");
  profile = false;
  profile_address = [];
  grpc_api = true;
  lifecycle_controller = true;
  discovery = true;
}

-- A reader of decimal numbers.
abbrev atoi : Bytes → Option ℕ
atoi s = some (read_decimal 0 s)

action-endpoints_of_example :
    (let server = new_server (codes "rpi3") 5000 (codes "1.0") in
      (action atoi hidden eliotd_flags (codes "rpi3") (codes "1.0")
        ≡ ok (announcing eliotd_flags server))
      × (endpoints_of
            (nodes (entry_of server (codes "rpi3.local.") (codes "192.168.1.7" ∷ []) ∷ []))
          ≡ endpoint_at (codes "rpi3.local.") (codes "192.168.1.7") 5000 ∷ []))
unfolding has decimal digits get_labels read_labels split insert bytes_beq
action-endpoints_of_example =
    action-endpoints_of atoi hidden eliotd_flags
      ((codes "node", codes "rpi3") ∷ (codes "location", codes "home") ∷ []) (codes "0.0.0.0")
      (codes "rpi3") (codes "1.0") 5000 (codes "rpi3.local.") (codes "192.168.1.7") [] refl refl
      refl refl refl refl
