-- ===== src/Eliotd/Laws.antt =====
-- cmd/eliotd/main.go with pkg/discovery and cmd/utils.go: from the address of the daemon to the
-- endpoint of a client.
use eliot.Prelude.{
  ℕ, zero, suc, Bytes, Bool, true, false, List, [], ◌∷◌, ◌++◌, Option, some, ok, has, Lacks,
  decimal, digits, split-append, split-Lacks, ◌≡◌, refl, ap, ◌∙◌, ◌/◌, ◌%◌, ◌+◌, Dict, length,
  arith, nat_eq,
}
use eliot.Config.{Endpoint}
use eliot.Discovery.{Server, ServiceEntry, registered_text, map_to_api_model, nodes}
use eliot.Cmd.Ui.{Output}
use eliot.Cmd.Flags.{get_labels}
use eliot.Cmd.Provider.{endpoint_of, endpoints_of}
use eliot.Cmd.Provider.Laws.{suc_zero}
use eliot.Utils.Lists.{get_first}
use eliot.Eliotd.{
  Flags, Service, profile_server, api_server, lifecycle, discovery_server, only_if, new_server,
  port_at, port_of, services, any_of, parse_grpc_port, action,
}

digits-Lacks : (fuel n : ℕ) (out : Bytes) → Lacks b':' out → Lacks b':' (digits fuel n out)
unfolding digits has
digits-Lacks zero n out h = h
digits-Lacks (suc fuel) n out h = ground (arith, digits-Lacks fuel (n / 10) ((b'0' + n % 10) ∷ out))

decimal-Lacks : (n : ℕ) → Lacks b':' (decimal n)
unfolding decimal has
decimal-Lacks n = digits-Lacks (suc n) n [] refl

parse_grpc_port-decimal :
    (atoi : Bytes → Option ℕ) (host : Bytes) (port : ℕ)
    → Lacks b':' host
    → atoi (decimal port) ≡ some port
    → parse_grpc_port atoi (host ++ b':' ∷ decimal port) ≡ ok port
unfolding parse_grpc_port
parse_grpc_port-decimal atoi host port h a =
    ap (port_at atoi) (
      split-append b':' host (decimal port) h
      ∙ ap (λ ps. host ∷ ps) (split-Lacks b':' (decimal port) (decimal-Lacks port)))
    ∙ ap port_of a

-- The services that a daemon with its API and discovery starts.
abbrev pub announcing : Flags → Server → List Service
announcing flags server =
    only_if flags.profile (profile_server flags.profile_address)
    ++ (api_server flags.grpc_api_listen
        ∷ (only_if flags.lifecycle_controller lifecycle ++ discovery_server server ∷ []))

any_of-kept :
    (b : Bool) (s t : Service) (ss : List Service)
    → any_of (only_if b s ++ t ∷ ss) ≡ ok (only_if b s ++ t ∷ ss)
any_of-kept true s t ss = refl
any_of-kept false s t ss = refl

-- The entry of a server, as zeroconf carries it.
abbrev pub entry_of : Server → Bytes → List Bytes → ServiceEntry
entry_of server host ips = record {
  host_name = host;
  addr_ipv4 = ips;
  addr_ipv6 = [];
  port = server.port;
  text = registered_text server;
}

abbrev pub endpoint_at : Bytes → Bytes → ℕ → Endpoint
endpoint_at name ip port = record { name = name; url = ip ++ b':' ∷ decimal port }

-- A daemon that listens on a host without a colon and a port, with its API and discovery enabled and
-- labels that parse, starts the services of its flags, the server of discovery last; and a client
-- that finds the entry of that server, with a first IPv4 address, dials this address with the port.
pub action-endpoints_of :
    (atoi : Bytes → Option ℕ) (output : Output) (flags : Flags) (labels : Dict Bytes)
    (host hostname version : Bytes) (port : ℕ) (seen_as ip : Bytes) (ips : List Bytes)
    → Lacks b':' host
    → atoi (decimal port) ≡ some port
    → flags.grpc_api_listen ≡ host ++ b':' ∷ decimal port
    → get_labels output flags.labels ≡ ok labels
    → flags.grpc_api ≡ true
    → flags.discovery ≡ true
    → (let server = new_server hostname port version in
        (action atoi output flags hostname version ≡ ok (announcing flags server))
        × (endpoints_of (nodes (entry_of server seen_as (ip ∷ ips) ∷ []))
            ≡ endpoint_at seen_as ip port ∷ []))
unfolding action services nodes endpoints_of endpoint_of get_first map_to_api_model registered_text
action-endpoints_of atoi output flags labels host hostname version port seen_as ip ips h a listen g
      api d =
    let parsed = ap (parse_grpc_port atoi) listen ∙ parse_grpc_port-decimal atoi host port h a in
    (
      rw (parsed, g, api, d) (any_of-kept flags.profile _ _ _),
      rw (suc_zero (length (ips ++ []))) refl,
    )
