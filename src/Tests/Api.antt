-- ===== src/Tests/Api.antt =====
-- The theorems on pkg/api, at small inputs.
use mathlib.Core.List.{flat_map}
use eliot.Prelude.{
  codes, false, List, [], ◌∷◌, ◌++◌, none, some, ok, ◌≡◌, ◌≢◌, refl, ◌↔◌, map, All, Lacks,
  bytes_beq,
}
use eliot.Model.{Pod, Container}
use eliot.Progress.{Status, get_progress, get_layers}
use eliot.Runtime.{call_get_pod, call_exec}
use eliot.Runtime.{IoSet, ask, lift, pure, ◌>>=◌}
use eliot.Runtime.Streams.{build_container_io_sets, new_io_set, allocate, connect}
use eliot.Prelude.{Bytes, Dict, insert, update, lookup}
use eliot.Api.Server.{start}
use eliot.Api.Server.Starts.{directories, start_plan, start-ObeysAt}
use eliot.Program.Plan.{must, ObeysAt}
use eliot.Api.Mapping.{
  map_container_to_internal_model, map_pod_to_internal_model, map_pod_to_api_model,
}
use eliot.Api.Mapping.RoundTrip.{
  request_part, is_whole, OkOrCrash, map_pod_to_internal_model-map_pod_to_api_model,
  map_pod_to_internal_model_outcome,
}
use eliot.Api.Mapping.Progress.{
  map_image_fetch_progress_to_api_model, map_api_model_to_image_fetch_progress, at_client,
  map_api_model_to_image_fetch_progress-map_image_fetch_progress_to_api_model,
}
use eliot.Api.Server.{create}
use eliot.Api.Server.Plans.{create_plan, outcome_of, create-ObeysAt}
use eliot.Api.Server.Metadata.{exec, exec_metadata, exec-exec_metadata_iff}
use eliot.Tests.Data.{world, pod, request, fetch}

abbrev plain : Container
plain = record {
  name = codes "web";
  image = codes "nginx";
  tty = false;
  args = [];
  env = [];
  working_dir = [];
  mounts = [];
  pipe = none;
}

-- The pod of the request.
abbrev made : Pod
made = record {
  metadata = record { name = codes "site"; namespace = [] };
  spec = record {
    host_network = false;
    host_pid = false;
    containers = plain ∷ [];
    restart_policy = [];
  };
  status = record { hostname = []; container_statuses = [] };
}

request_maps : map_pod_to_internal_model request ≡ ok made
unfolding map_pod_to_internal_model map_container_to_internal_model
request_maps = refl

create-ObeysAt_example :
    ObeysAt (outcome_of (create world (some request) [])) (create_plan world made) []
create-ObeysAt_example = create-ObeysAt world request made [] request_maps

exec-exec_metadata_iff_example :
    ((exec
        (λ t. false)
        world
        (some
          (exec_metadata (codes "eliot") (codes "1") (codes "x") (codes "ls" ∷ []) (codes "false")))
        []).1
      ≡ call_exec (codes "eliot") (codes "1") (codes "x") (codes "ls" ∷ []) false ∷ [])
    ↔ (((codes "ls" ∷ []) ≢ []) × All (Lacks b' ') (codes "ls" ∷ []))
exec-exec_metadata_iff_example =
    exec-exec_metadata_iff (λ t. false) world (codes "eliot") (codes "1") (codes "x")
      (codes "ls" ∷ []) (codes "false") [] (λ e. cc) (λ e. cc)

map_pod_to_internal_model-map_pod_to_api_model_example :
    map_pod_to_internal_model (map_pod_to_api_model pod) ≡ ok (request_part pod)
map_pod_to_internal_model-map_pod_to_api_model_example =
    map_pod_to_internal_model-map_pod_to_api_model pod

map_pod_to_internal_model_outcome_example :
    OkOrCrash (is_whole request) (map_pod_to_internal_model request)
map_pod_to_internal_model_outcome_example = map_pod_to_internal_model_outcome request

abbrev same : List Status → List Status
same l = l

map_api_model_to_image_fetch_progress-map_image_fetch_progress_to_api_model_example :
    (map_api_model_to_image_fetch_progress (map_image_fetch_progress_to_api_model same (fetch ∷ []))
      ≡ map (at_client same) (fetch ∷ []))
    × All (λ p. get_progress (λ l. l) (at_client same p) ≡ get_progress same p) (fetch ∷ [])
unfolding get_layers
map_api_model_to_image_fetch_progress-map_image_fetch_progress_to_api_model_example =
    map_api_model_to_image_fetch_progress-map_image_fetch_progress_to_api_model same (fetch ∷ [])
      ((tt, tt), tt)

abbrev stream_set : Bytes → Bytes → IoSet
stream_set name out = record {
  stdin = codes "/tmp/1/site." ++ (name ++ codes "-stdin");
  stdout = codes "/tmp/1/site." ++ (out ++ []);
  stderr = codes "/tmp/1/site." ++ (name ++ codes "-stderr");
}

-- The streams of the pod's two containers, the output of the first going to the second.
abbrev pod_sets : Dict IoSet
pod_sets =
    (codes "web", stream_set (codes "web") (codes "logs-stdin"))
    ∷ (codes "logs", stream_set (codes "logs") (codes "logs-stdout"))
    ∷ []

start-ObeysAt_example :
    ObeysAt
      (start world (codes "eliot") (codes "site") [])
      (must (call_get_pod (codes "eliot") (codes "site")) world.get_pod
          ∷ directories world pod.spec.containers
        ++ flat_map (start_plan world (codes "eliot") pod_sets) pod.status.container_statuses)
      []
unfolding build_container_io_sets new_io_set allocate connect ask lift pure ◌>>=◌ insert update
    lookup bytes_beq
start-ObeysAt_example = start-ObeysAt world (codes "eliot") (codes "site") pod pod_sets [] refl refl
