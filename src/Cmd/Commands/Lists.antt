-- ===== src/Cmd/Commands/Lists.antt =====
-- cmd/eli/getPodsCommand.go and cmd/eli/getNodesCommand.go: the commands that print lists. The bytes
-- are those that go to the tab writer; sort.Strings and the YAML library are parameters.
use eliot.Prelude.{Bytes, codes, List, [], Outcome, ok, err, crash}
use eliot.Program.{lift, ◌>>=◌}
use eliot.Api.Types.{ApiPod, ApiInfo}
use eliot.Api.Client.{Server, Request, get_pods}
use eliot.Cmd.Provider.{Printer, human_readable_printer, yaml_printer, get_printer}
use eliot.Cmd.Ui.{Output, fatal, after_op}
use eliot.Discovery.{ServiceEntry, nodes}
use eliot.Printers.Table.{print_pods, print_nodes}

-- What a printer takes from other packages.
pub record Texts : Type 0 where
  pub sort_strings : List Bytes → List Bytes
  pub marshal_pods : List ApiPod → Outcome Bytes
  pub marshal_nodes : List ApiInfo → Outcome Bytes

module _ (t : Texts) where
  abbrev pods_text : Printer → List ApiPod → Outcome Bytes
  pods_text human_readable_printer pods = print_pods t.sort_strings pods
  pods_text yaml_printer pods = t.marshal_pods pods

  abbrev nodes_text : Printer → List ApiInfo → Outcome Bytes
  nodes_text human_readable_printer infos = ok (print_nodes infos)
  nodes_text yaml_printer infos = t.marshal_nodes infos

  printed_by : (Printer → Outcome Bytes) → Outcome Printer → Outcome Bytes
  printed_by text (ok printer) = text printer
  printed_by text (err e) = err e
  printed_by text crash = crash

  printed_pods : Bytes → List ApiPod → Outcome Bytes
  unfolding get_printer print_pods printed_by
  printed_pods format pods = printed_by (λ printer. pods_text printer pods) (get_printer format)

  -- `eli get pods`, with the value of --output
  unfoldable pub get_pods_command : Server → Bytes → Bytes → Bytes → Request Bytes
  unfolding printed_pods
  get_pods_command w url namespace format = do
    pods ← get_pods w url namespace
    lift (printed_pods format pods)

  -- Nodes of pkg/discovery; a failure that is reported on a hidden output leaves no nodes.
  abbrev discovered : Output → Outcome (List ServiceEntry) → Outcome (List ApiInfo)
  discovered output (ok entries) = ok (nodes entries)
  discovered output (err e) =
      elim (after_op output (fatal (codes "Failed to auto-discover nodes in network"))) [
        | ok x ↦ ok []
        | err y ↦ err y
        | crash ↦ crash
      ]
  discovered output crash = crash

  -- `eli get nodes`, on the entries that the network gives in time
  unfoldable pub get_nodes_command : Output → Outcome (List ServiceEntry) → Bytes → Outcome Bytes
  unfolding get_printer print_nodes nodes printed_by
  get_nodes_command output entries format = elim (discovered output entries) [
    | ok infos ↦ printed_by (λ printer. nodes_text printer infos) (get_printer format)
    | err e ↦ err e
    | crash ↦ crash
  ]
