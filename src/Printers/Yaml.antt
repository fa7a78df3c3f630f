-- ===== src/Printers/Yaml.antt =====
-- pkg/printers/yaml.go: the five methods write what the YAML library makes of their argument; the
-- library and the writer are parameters.
use eliot.Prelude.{Bytes, List, Outcome, ◌>>=◌}
use eliot.Api.Types.{ApiPod, ApiInfo}
use eliot.Config.{Config}

module _ (write : Bytes → Outcome (Unit {0})) where
  unfoldable pub write_as_yml : {A : Type 0} → (A → Outcome Bytes) → A → Outcome (Unit {0})
  write_as_yml marshal value = do text ← marshal value; write text

  unfoldable pub print_pods : (List ApiPod → Outcome Bytes) → List ApiPod → Outcome (Unit {0})
  unfolding write_as_yml
  print_pods marshal pods = write_as_yml marshal pods

  unfoldable pub print_nodes : (List ApiInfo → Outcome Bytes) → List ApiInfo → Outcome (Unit {0})
  unfolding write_as_yml
  print_nodes marshal nodes = write_as_yml marshal nodes

  unfoldable pub print_node : (ApiInfo → Outcome Bytes) → ApiInfo → Outcome (Unit {0})
  unfolding write_as_yml
  print_node marshal node = write_as_yml marshal node

  unfoldable pub print_pod : (ApiPod → Outcome Bytes) → ApiPod → Outcome (Unit {0})
  unfolding write_as_yml
  print_pod marshal pod = write_as_yml marshal pod

  unfoldable pub print_config : (Config → Outcome Bytes) → Config → Outcome (Unit {0})
  unfolding write_as_yml
  print_config marshal config = write_as_yml marshal config
