-- ===== src/Tests/Data.antt =====
-- The inputs of the tests.
use eliot.Prelude.{codes, true, false, [], ◌∷◌, none, some, ok}
use eliot.Model.{Container, ContainerStatus, Pod}
use eliot.Progress.{ImageFetch, Status}
use eliot.Runtime.{World}
use eliot.Api.Types.{ApiPod, ApiContainer, ApiContainerStatus}

-- A container "web" whose output goes to the container "logs".
abbrev pub web : Container
web = record {
  name = codes "web";
  image = codes "nginx";
  tty = true;
  args = [];
  env = [];
  working_dir = [];
  mounts = [];
  pipe = some (record { stdout = record { stdin = record { name = codes "logs" } } });
}

abbrev pub logs : Container
logs = record {
  name = codes "logs";
  image = codes "busybox";
  tty = false;
  args = [];
  env = [];
  working_dir = [];
  mounts = [];
  pipe = none;
}

abbrev web_status : ContainerStatus
web_status = record {
  container_id = codes "1";
  name = codes "web";
  image = codes "nginx";
  state = codes "stopped";
  restart_count = 0;
}

abbrev pub pod : Pod
pod = record {
  metadata = record { name = codes "site"; namespace = codes "eliot" };
  spec = record {
    host_network = false;
    host_pid = false;
    containers = web ∷ logs ∷ [];
    restart_policy = codes "always";
  };
  status = record { hostname = codes "node"; container_statuses = web_status ∷ [] };
}

-- A runtime that knows the pod, and does what it is asked.
abbrev pub world : World
world = record {
  get_namespaces = λ log. ok (codes "eliot" ∷ []);
  get_pods = λ log. ok (pod ∷ []);
  get_pod = λ log. ok pod;
  pull_image = λ log p. (ok tt, p);
  create_container = λ log. ok web_status;
  start_container = λ log. ok web_status;
  stop_container = λ log. ok web_status;
  exec = λ log. ok tt;
  attach = λ log. ok tt;
  signal = λ log. ok tt;
  temp_dir = λ log. ok (codes "/tmp/1");
}

-- A request of one container.
abbrev pub request_container : ApiContainer
request_container = record {
  name = codes "web";
  image = codes "nginx";
  tty = false;
  working_dir = [];
  args = [];
  env = [];
  mounts = [];
  pipe = none;
}

abbrev pub request : ApiPod
request = record {
  metadata = some (record { name = codes "site"; namespace = [] });
  spec = some (record {
    containers = request_container ∷ [];
    host_network = false;
    host_pid = false;
    restart_policy = [];
  });
  status = none;
}

abbrev pub layer : Status
layer = record {
  ref = codes "a";
  digest = codes "d";
  status = codes "downloading";
  offset = 3;
  total = 5;
}

abbrev pub fetch : ImageFetch
fetch = record {
  container_id = codes "web";
  image = codes "nginx";
  resolved = true;
  failed = true;
  layers = (codes "a", layer) ∷ [];
}

abbrev pub status_a : ApiContainerStatus
status_a = record {
  container_id = codes "1";
  name = codes "a";
  image = [];
  state = [];
  restart_count = 0;
}
