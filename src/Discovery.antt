-- ===== src/Discovery.antt =====
-- pkg/discovery: what a node shows to the network, and what a client makes of it. The zeroconf service
-- carries an entry as it is registered.
use eliot.Prelude.{
  ℕ, Bytes, codes, List, [], ◌∷◌, ◌++◌, if◌then◌else◌, split_n, ◌==◌, bytes_eq, ◌≡◌, refl, cut,
  bytes_beq,
}
use eliot.Api.Types.{ApiInfo}

-- zeroconf.ServiceEntry; an address stands by what net.IP.String gives.
pub record ServiceEntry : Type 0 where
  pub host_name : Bytes
  pub addr_ipv4 : List Bytes
  pub addr_ipv6 : List Bytes
  pub port : ℕ
  pub text : List Bytes

-- The loop over the texts: the last version counts.
unfoldable pub version_of : Bytes → List Bytes → Bytes
unfolding split_n
version_of version [] = version
version_of version (val ∷ text) =
    version_of
      (elim (split_n b'=' 2 val) [
        | key ∷ value ∷ [] ↦ (if key == codes "v" then value else version)
        | _ ↦ version
      ])
      text

-- MapToAPIModel
unfoldable pub map_to_api_model : ServiceEntry → ApiInfo
unfolding version_of
map_to_api_model entry = record {
  labels = [];
  hostname = entry.host_name;
  addresses = entry.addr_ipv4 ++ entry.addr_ipv6;
  grpc_port = entry.port;
  machine_id = [];
  system_uuid = [];
  boot_id = [];
  arch = [];
  os = [];
  version = version_of (codes "unknown") entry.text;
  filesystems = [];
  uptime = 0;
}

-- The loop of Nodes, over the entries that are found in time.
unfoldable pub nodes : List ServiceEntry → List ApiInfo
unfolding map_to_api_model
nodes [] = []
nodes (entry ∷ entries) = map_to_api_model entry ∷ nodes entries

-- NewServer, with what Serve registers
pub record Server : Type 0 where
  pub name : Bytes
  pub port : ℕ
  pub version : Bytes

unfoldable pub registered_text : Server → List Bytes
registered_text s = (codes "v=" ++ s.version) ∷ []

-- What Serve shows is read back: the version, whatever bytes it has, and the port.
map_to_api_model-registered :
    (s : Server) (host : Bytes) (ipv4 ipv6 : List Bytes)
    → (let info = map_to_api_model (record {
      host_name = host;
      addr_ipv4 = ipv4;
      addr_ipv6 = ipv6;
      port = s.port;
      text = registered_text s;
    }) in
        (info.version ≡ s.version) × (info.grpc_port ≡ s.port))
unfolding map_to_api_model version_of registered_text split_n cut bytes_beq
map_to_api_model-registered s host ipv4 ipv6 = (refl, refl)
