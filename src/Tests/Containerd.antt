-- ===== src/Tests/Containerd.antt =====
-- The theorems on the tasks and the images of containerd, at small inputs.
use eliot.Prelude.{codes, true, false, List, [], ◌∷◌, ◌++◌, none, some, ok, ◌≡◌, refl, lookup}
use eliot.Runtime.{IoSet}
use eliot.Resolve.{absent}
use eliot.Progress.Laws.{Op, op_add, op_downloading, op_all_done, run_ops}
use eliot.Progress.Cells.{replay, run_ops-replay}
use eliot.Runtime.Containerd.Env.{with_env}
use eliot.Runtime.Containerd.Containers.{Spec, Info, map_container_to_internal_model}
use eliot.Program.Plan.{must, ObeysAt}
use eliot.Runtime.Containerd.Tasks.{Daemon, stop_container, connect, load_container, container_info}
use eliot.Runtime.Containerd.Tasks.Stops.{
  fetch_step, stop_steps, delete_step, stop_container-ObeysAt, Deletable, stop_container-forgives,
}
use eliot.Runtime.Containerd.Tasks.Creation.{Oci, new_spec, container_info_of}
use eliot.Runtime.Containerd.Tasks.Created.{Documented, spec_with, map_container-container_info_of}
use eliot.Tests.Data.{pod, logs, fetch}

abbrev base : Spec
base = record {
  terminal = false;
  args = codes "sh" ∷ [];
  env = codes "A=1" ∷ [];
  cwd = codes "/";
  mounts = [];
  namespaces = [];
}

abbrev info : Info
info = record {
  id = codes "1";
  image = codes "nginx";
  labels = [];
  spec = some base;
  lifecycle = none;
  pipe = none;
}

-- A daemon that does what it is asked, with a task that runs.
abbrev daemon : Daemon
daemon = record {
  done = λ log. ok tt;
  info = λ log. ok info;
  spec = λ log. ok base;
  status = λ log. ok (codes "running");
  image_name = λ log. ok (codes "nginx");
  stat_of = λ log. absent;
}

abbrev set : IoSet
set = record { stdin = codes "in"; stdout = codes "out"; stderr = codes "err" }

stop_container-ObeysAt_example :
    ObeysAt
      (stop_container daemon (codes "eliot") (codes "1") [])
      (must (connect (codes "eliot")) daemon.done
          ∷ must (load_container (codes "1")) daemon.done
          ∷ must container_info daemon.info
          ∷ fetch_step daemon
          ∷ stop_steps daemon (ok tt) (ok (codes "running"))
        ++ delete_step daemon)
      []
stop_container-ObeysAt_example = stop_container-ObeysAt daemon (codes "eliot") (codes "1") []

daemon-Deletable : Deletable daemon (codes "eliot") (codes "1") info
daemon-Deletable = record {
  runs = λ log e. cc;
  tells = λ log e. cc;
  connects = λ log. refl;
  loads = λ log. refl;
  shows = λ log. refl;
  fetches = λ log e x. cc;
  deletes = λ log e x. cc;
}

stop_container-forgives_example :
    (stop_container daemon (codes "eliot") (codes "1") []).0
    ≡ ok (record {
      container_id = codes "1";
      name = [];
      image = codes "nginx";
      state = codes "stopped";
      restart_count = 0;
    })
stop_container-forgives_example =
    stop_container-forgives daemon (codes "eliot") (codes "1") info [] daemon-Deletable

abbrev oci : Oci
oci = record {
  image_spec = λ image. ok base;
  with_process_args = λ a s. ok (record s { args = a });
  with_tty = λ s. ok (record s { terminal = true; env = s.env ++ codes "TERM=xterm" ∷ [] });
  with_host_namespace = λ n s. ok s;
  with_host_hosts_file = λ s. ok s;
  with_host_resolvconf = λ s. ok s;
}

oci-Documented : Documented oci
oci-Documented = record { args = λ a s. refl; tty = λ s. refl }

map_container-container_info_of_example :
    (new_spec oci (codes "nginx") pod logs ≡ ok (spec_with logs base))
    × (map_container_to_internal_model
          (container_info_of oci (codes "1") (codes "nginx") pod logs (spec_with logs base))
        ≡ ok (record {
          name = codes "logs";
          image = codes "nginx";
          tty = false;
          args = codes "sh" ∷ [];
          env = with_env [] (codes "A=1" ∷ []);
          working_dir = codes "/";
          mounts = [];
          pipe = none;
        }))
map_container-container_info_of_example =
    map_container-container_info_of oci (codes "1") (codes "nginx") pod logs base oci-Documented
      refl refl refl

abbrev ops : List Op
ops = op_add (codes "b") (codes "e") ∷ op_downloading (codes "a") 4 5 ∷ op_all_done ∷ []

run_ops-replay_example :
    lookup (codes "a") (run_ops ops fetch).layers
    ≡ replay (codes "a") ops (lookup (codes "a") fetch.layers)
run_ops-replay_example = run_ops-replay (codes "a") ops fetch
