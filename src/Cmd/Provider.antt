-- ===== src/Cmd/Provider.antt =====
-- cmd/utils.go: the configuration of a command, the client to its node, and the printer. The nodes
-- that the network shows, the file and the flags are given.
pub mod Laws
use eliot.Prelude.{
  ℕ, Bytes, codes, Bool, true, false, List, [], ◌∷◌, ◌++◌, Option, none, some, if◌then◌else◌,
  length, Outcome, ok, err, crash, bytes_beq, ◌==◌, bytes_eq, nat_eq, decimal, not, take, drop, leb,
  ◌&&◌,
}
use eliot.Api.Types.{ApiInfo}
use eliot.Api.Client.{Server, Request, get_info}
use eliot.Program.{pure, lift, ask, caught, halt, ◌>>=◌}
use eliot.Config.{
  Endpoint, Config, Provider, new_provider, override_namespace, override_endpoints, get_endpoints,
  get_namespace, get_endpoint_by_name,
}
use eliot.Utils.Lists.{get_first}
use eliot.Cmd.Ui.{Output, LineOp, fatal, after_op}

-- expandTilde, with filepath.Join and the home directory as parameters
unfoldable pub expand_tilde : (Bytes → Bytes → Bytes) → Bytes → Bytes → Bytes
expand_tilde path_join home path =
    if leb 2 (length path) && take 2 path == codes "~/" then path_join home (drop 2 path) else path

-- The global flags, where they are set.
pub record GlobalFlags : Type 0 where
  pub namespace : Option Bytes
  pub endpoint : Option Bytes
  pub node : Option Bytes

-- A flag that is set and not empty.
abbrev pub given : Option Bytes → Option Bytes
given none = none
given (some []) = none
given (some (c ∷ s)) = some (c ∷ s)

-- The loop over the nodes: one without an address is left out.
unfoldable pub endpoint_of : ApiInfo → Endpoint
unfolding get_first decimal
endpoint_of node = record {
  name = node.hostname;
  url = get_first node.addresses [] ++ b':' ∷ decimal node.grpc_port;
}

unfoldable pub endpoints_of : List ApiInfo → List Endpoint
unfolding endpoint_of
endpoints_of [] = []
endpoints_of (node ∷ nodes) =
    let rest = endpoints_of nodes in
    if length node.addresses == 0 then rest else endpoint_of node ∷ rest

with_namespace : Option Bytes → Provider → Provider
with_namespace none p = p
with_namespace (some namespace) p = override_namespace p namespace

with_endpoint : Option Bytes → Provider → Provider
with_endpoint none p = p
with_endpoint (some e) p = override_endpoints p (record { name = e; url = e } ∷ [])

-- The nodes that the network shows, where no endpoint is configured.
discovered : List ApiInfo → Provider → Provider
unfolding endpoints_of
discovered nodes p =
    if length (get_endpoints p) == 0 then override_endpoints p (endpoints_of nodes) else p

-- A name that is not found is only reported, and the zero value taken for it.
with_node : Option Bytes → Provider → Provider
with_node none p = p
with_node (some name) p = override_endpoints p ((get_endpoint_by_name p name).0 ∷ [])

unfoldable pub get_config_provider : Config → GlobalFlags → List ApiInfo → Provider
unfolding with_namespace with_endpoint discovered with_node
get_config_provider config flags nodes = with_node (given flags.node) (
    discovered nodes (
      with_endpoint (given flags.endpoint)
        (with_namespace (given flags.namespace) (new_provider config))))

-- GetClient: the namespace and the endpoint of the client. It is nil (none) where Fatal returns; the
-- info of a failed request is nil then, and reading its hostname panics.
connected_to : Output → Endpoint → Outcome (Option ApiInfo) → Outcome (Option Endpoint)
unfolding after_op
connected_to output e (ok (some info)) = ok (some e)
connected_to output e (ok none) = crash
connected_to output e (err x) = crash
connected_to output e crash = crash

no_client : Output → Bytes → Outcome (Option Endpoint)
no_client output text = elim (after_op output (fatal text)) [
  | ok x ↦ ok none
  | err e ↦ err e
  | crash ↦ crash
]

unfoldable pub get_client : Server → Output → Provider → Request (Option Endpoint)
unfolding connected_to no_client
get_client w output p = elim (get_endpoints p) [
  | [] ↦ lift (no_client output (codes "No node to connect"))
  | e ∷ [] ↦ (do
    info ← caught (get_info w e.url (get_namespace p))
    lift (connected_to output e info))
  | e ∷ f ∷ es ↦ lift (no_client output (codes "nodes found. You must give target node"))
]

-- GetPrinter; crash: log.Fatalf.
pub data Printer : Type 0 where
  human_readable_printer yaml_printer : Printer

unfoldable pub get_printer : Bytes → Outcome Printer
get_printer output =
    if output == codes "human"
    then ok human_readable_printer
    else if output == codes "yaml"
    then ok yaml_printer
    else crash
