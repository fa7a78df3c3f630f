-- ===== src/Cmd/Provider/Laws.antt =====
-- cmd/utils.go: which endpoints a command uses, and the hosts of the nodes that the network shows.
use eliot.Prelude.{
  ℕ, suc, Bytes, false, List, [], ◌∷◌, Option, none, some, if◌then◌else◌, length, ◌==◌, nat_eq, ◌≡◌,
  refl, ap, ◌∙◌, Lacks, split_n-append, arith, decimal,
}
use eliot.Api.Types.{ApiInfo}
use eliot.Config.{
  Endpoint, Config, Provider, new_provider, override_namespace, override_endpoints, get_endpoints,
  get_endpoint_by_name, find_endpoint, get_host, first_part,
}
use eliot.Utils.Lists.{get_first}
use eliot.Cmd.Provider.{
  GlobalFlags, given, endpoint_of, endpoints_of, with_namespace, with_endpoint, discovered,
  with_node, get_config_provider,
}

-- The endpoints to choose from: that of the flag, those of the configuration, or those of the nodes.
abbrev pub offered : Option Bytes → List Endpoint → List Endpoint → List Endpoint
offered (some e) configured shown = record { name = e; url = e } ∷ []
offered none [] shown = shown
offered none (c ∷ cs) shown = c ∷ cs

-- The one of the flag, or all of them.
abbrev pub chosen : Option Bytes → List Endpoint → List Endpoint
chosen none offer = offer
chosen (some name) offer = (find_endpoint name offer).0 ∷ []

node-chosen :
    (node : Option Bytes) (p : Provider)
    → get_endpoints (with_node node p) ≡ chosen node (get_endpoints p)
unfolding with_node override_endpoints get_endpoint_by_name get_endpoints
node-chosen none p = refl
node-chosen (some name) p = refl

-- A provider whose endpoints may have been overridden.
abbrev provider : Bytes → Bytes → List Endpoint → List Endpoint → Provider
provider ns n es over = record {
  config = record { endpoints = es; namespace = ns };
  namespace_override = n;
  endpoints_override = over;
}

pub suc_zero : (n : ℕ) → (suc n == 0) ≡ false
suc_zero n = ground arith

shown-offered :
    (ns n : Bytes) (es shown : List Endpoint)
    → (let p = provider ns n es [] in
        get_endpoints (if length (get_endpoints p) == 0 then override_endpoints p shown else p))
      ≡ offered none es shown
unfolding get_endpoints override_endpoints
shown-offered ns n [] [] = refl
shown-offered ns n [] (s ∷ shown) = let h = suc_zero (length shown) in ground (arith, h)
shown-offered ns n (e ∷ es) shown = let h = suc_zero (length es) in ground (arith, h)

flag-offered :
    (ns n : Bytes) (es : List Endpoint) (endpoint : Option Bytes) (nodes : List ApiInfo)
    → get_endpoints (discovered nodes (with_endpoint endpoint (provider ns n es [])))
      ≡ offered endpoint es (endpoints_of nodes)
unfolding discovered with_endpoint get_endpoints override_endpoints
flag-offered ns n es none nodes = shown-offered ns n es (endpoints_of nodes)
flag-offered ns n es (some e) nodes = refl

namespaced :
    (ns : Bytes) (es : List Endpoint) (namespace : Option Bytes)
    → (n : Bytes) × (with_namespace namespace
          (new_provider (record { endpoints = es; namespace = ns }))
        ≡ provider ns n es [])
unfolding with_namespace new_provider override_namespace
namespaced ns es none = ([], refl)
namespaced ns es (some n) = (n, refl)

-- The endpoints of a command: that of --endpoint if it is given; otherwise those of the
-- configuration; otherwise, if it has none, those of the nodes that the network shows. Of these only
-- the first with the name of --node is left if that is given, and the empty endpoint if none has it.
pub get_endpoints-get_config_provider :
    (config : Config) (flags : GlobalFlags) (nodes : List ApiInfo)
    → get_endpoints (get_config_provider config flags nodes)
      ≡ chosen
          (given flags.node)
          (offered (given flags.endpoint) config.endpoints (endpoints_of nodes))
unfolding get_config_provider
get_endpoints-get_config_provider config flags nodes =
    let (n, e) = namespaced config.namespace config.endpoints (given flags.namespace) in
    node-chosen (given flags.node) _
    ∙ ap (chosen (given flags.node)) (
        ap (λ p. get_endpoints (discovered nodes (with_endpoint (given flags.endpoint) p))) e
        ∙ flag-offered config.namespace n config.endpoints (given flags.endpoint) nodes)

-- The host of the endpoint of a node is its first address, where that has no colon.
get_host-endpoint_of :
    (node : ApiInfo)
    → Lacks b':' (get_first node.addresses [])
    → get_host (endpoint_of node) ≡ get_first node.addresses []
unfolding get_host endpoint_of first_part
get_host-endpoint_of node h =
    ap first_part (split_n-append b':' 0 (get_first node.addresses []) (decimal node.grpc_port) h)
