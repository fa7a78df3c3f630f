-- ===== src/Tests/Runtime.antt =====
-- The theorems on pkg/runtime and pkg/controller, at small inputs.
use eliot.Prelude.{
  Bytes, codes, true, false, List, [], ◌∷◌, none, some, ok, ◌≡◌, refl, All, Dict, lookup, update,
  bytes_beq,
}
use eliot.Model.{Pod, Container}
use eliot.Runtime.{IoSet}
use eliot.Runtime.Streams.{connect}
use eliot.Runtime.Streams.Pipes.{OutputIs, stdin_of, connect_outputs}
use eliot.Runtime.Containerd.Containers.{
  initialise_pod_model, map_container_to_internal_model, Info,
}
use eliot.Runtime.Containerd.Pods.{
  Answer, group_pods, statuses_in, statuses_of, group_pods-statuses_of,
}
use eliot.Controller.{serve}
use eliot.Controller.Laws.{Answers, check_plan}
use eliot.Controller.Laws.Serve.{serve-ObeysAt, rounds}
use eliot.Program.Plan.{ObeysAt}
use eliot.Tests.Data.{web, logs, pod, world}

abbrev set_of : Bytes → IoSet
set_of name = record { stdin = name; stdout = codes "out"; stderr = codes "err" }

abbrev sets : Dict IoSet
sets = (codes "web", set_of (codes "in1")) ∷ (codes "logs", set_of (codes "in2")) ∷ []

abbrev connected : Dict IoSet
connected =
    (codes "web", record { stdin = codes "in1"; stdout = codes "in2"; stderr = codes "err" })
    ∷ (codes "logs", set_of (codes "in2"))
    ∷ []

connect_outputs_example :
    All (λ (c : Container). OutputIs sets connected c c.pipe) (web ∷ logs ∷ [])
    × ((k : Bytes) → stdin_of connected k ≡ stdin_of sets k)
unfolding connect lookup bytes_beq update
connect_outputs_example =
    connect_outputs (web ∷ logs ∷ []) sets connected ((refl, tt), (tt, tt))
      ((set_of (codes "in1"), refl), ((set_of (codes "in2"), refl), tt)) refl

abbrev env : List Bytes
env = codes "A=1" ∷ codes "B=2" ∷ []

abbrev info : Info
info = record {
  id = codes "1";
  image = codes "nginx";
  labels =
      (codes "io.eliot.pod.name", codes "site")
      ∷ (codes "io.eliot.container.name", codes "web")
      ∷ [];
  spec = some (record {
    terminal = false;
    args = [];
    env = [];
    cwd = codes "/";
    mounts = [];
    namespaces = [];
  });
  lifecycle = none;
  pipe = none;
}

abbrev answers : List Answer
answers = record { info = ok info; status = codes "running" } ∷ []

-- The pods that the containers are grouped into.
grouped : (pods : Dict Pod) × (group_pods (codes "eliot") (codes "node") [] answers ≡ ok pods)
unfolding group_pods lookup initialise_pod_model map_container_to_internal_model
grouped = (_, refl)

group_pods-statuses_of_example :
    statuses_in (lookup (codes "site") grouped.0) ≡ statuses_of (codes "site") answers
group_pods-statuses_of_example =
    group_pods-statuses_of (codes "eliot") (codes "node") (codes "site") answers grouped.0 grouped.1

world-Answers : Answers world (codes "eliot" ∷ []) (λ n. pod ∷ [])
world-Answers = record { lists = λ log. refl; shows = λ log n. refl }

serve-ObeysAt_example :
    ObeysAt
      (serve world (true ∷ true ∷ false ∷ true ∷ []) [])
      (rounds
        (true ∷ true ∷ false ∷ true ∷ [])
        (check_plan world (codes "eliot" ∷ []) (λ n. pod ∷ [])))
      []
serve-ObeysAt_example =
    serve-ObeysAt world (codes "eliot" ∷ []) (λ n. pod ∷ []) (true ∷ true ∷ false ∷ true ∷ []) []
      world-Answers
