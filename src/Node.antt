-- ===== src/Node.antt =====
-- pkg/node and the node's part of pkg/api/mapping/internal.go: what a node says of itself. The files,
-- the environment, the interfaces and the file systems are given, and so are strings.Fields and
-- strings.TrimSpace.
pub mod Laws
use mathlib.Core.List.{map}
use mathlib.Core.Option
use eliot.Prelude.{
  ℕ, Bytes, codes, Bool, true, false, List, [], ◌∷◌, ◌++◌, Option, none, some, if◌then◌else◌,
  Outcome, ok, err, crash, Error, Dict, lookup, insert, bytes_beq, ◌+◌, ◌*◌, ◌%◌, ◌^◌,
}
use eliot.Api.Types.{ApiLabel, ApiFilesystem, ApiInfo}

-- model.Filesystem; the sizes are uint64.
pub record Filesystem : Type 0 where
  pub filesystem : Bytes
  pub type_name : Bytes
  pub mount_dir : Bytes
  pub total : ℕ
  pub free : ℕ
  pub available : ℕ

-- model.NodeInfo; an address stands by what net.IP.String gives.
pub record NodeInfo : Type 0 where
  pub labels : Dict Bytes
  pub hostname : Bytes
  pub addresses : List Bytes
  pub grpc_port : ℕ
  pub machine_id : Bytes
  pub system_uuid : Bytes
  pub boot_id : Bytes
  pub arch : Bytes
  pub os : Bytes
  pub version : Bytes
  pub filesystems : List Filesystem
  pub uptime : ℕ

-- One label of withHostLabels: the test looks for another key than the one that is written.
unfoldable pub host_label : Bytes → Bytes → Dict Bytes → Dict Bytes
host_label key value labels = elim (lookup key labels) [
  | some _ ↦ labels
  | none ↦ insert (codes "eliot.io/" ++ key) value labels
]

-- withHostLabels, on runtime.GOARCH and runtime.GOOS
unfoldable pub with_host_labels : Bytes → Bytes → Dict Bytes → Dict Bytes
unfolding host_label
with_host_labels arch os labels = host_label (codes "os") os (host_label (codes "arch") arch labels)

-- What Addrs gives: networks and addresses.
pub data Addr : Type 0 where
  ip_net ip_addr : Bytes → Addr

-- The inner loop of getAddresses; the case of a network is empty and does not fall through.
unfoldable pub addresses_of : List Addr → List Bytes
addresses_of [] = []
addresses_of (ip_net ip ∷ addrs) = addresses_of addrs
addresses_of (ip_addr ip ∷ addrs) = ip ∷ addresses_of addrs

-- getAddresses, on net.Interfaces and the Addrs of each
unfoldable pub get_addresses : Outcome (List (Outcome (List Addr))) → List Bytes
unfolding addresses_of
get_addresses (ok []) = []
get_addresses (ok (ok addrs ∷ ifaces)) = addresses_of addrs ++ get_addresses (ok ifaces)
get_addresses (ok (err e ∷ ifaces)) = get_addresses (ok ifaces)
get_addresses (ok (crash ∷ ifaces)) = get_addresses (ok ifaces)
get_addresses (err e) = []
get_addresses crash = []

-- resolveFirst, on what the resolvers give; none: log.Fatalf.
unfoldable pub resolve_first : List Bytes → Option Bytes
resolve_first [] = none
resolve_first (result ∷ results) =
    let rest = resolve_first results in if bytes_beq result [] then rest else some result

abbrev pub or_empty : Option Bytes → Bytes
or_empty none = []
or_empty (some r) = r

module _ (trim_space : Bytes → Bytes) (fields : Bytes → List Bytes) where
  -- fromFiles: the first file that can be read counts, even if nothing is in it.
  unfoldable pub from_files : List (Outcome Bytes) → Bytes
  from_files [] = []
  from_files (ok contents ∷ files) = trim_space contents
  from_files (err e ∷ files) = from_files files
  from_files (crash ∷ files) = from_files files

  -- syscall.Statfs: the block counts and the size of a block
  pub record Statfs : Type 0 where
    pub blocks : ℕ
    pub bfree : ℕ
    pub bavail : ℕ
    pub bsize : ℕ

  -- getFilesystemUsage, with the products of uint64
  unfoldable pub usage : Statfs → ℕ × ℕ × ℕ
  usage s =
      ((s.blocks * s.bsize) % 2 ^ 64, (s.bfree * s.bsize) % 2 ^ 64, (s.bavail * s.bsize) % 2 ^ 64)

  -- The handler of a line; crash: an index out of range.
  unfoldable pub filesystem_of : (Bytes → Outcome Statfs) → Bytes → Outcome Filesystem
  unfolding usage
  filesystem_of statfs line = elim (fields line) [
    | dev ∷ dir ∷ sys ∷ _ ↦ elim (statfs dir) [
      | ok s ↦
          (let (total, free, available) = usage s in
            ok (record {
              filesystem = dev;
              type_name = sys;
              mount_dir = dir;
              total = total;
              free = free;
              available = available;
            }))
      | err e ↦ err e
      | crash ↦ crash
    ]
    | _ ↦ crash
  ]

  -- resolveFilesystems, on the lines of the file: the ones up to the first that fails. none: a panic.
  unfoldable pub resolve_filesystems :
      (Bytes → Outcome Statfs) → List Bytes → Option (List Filesystem)
  unfolding filesystem_of
  resolve_filesystems statfs [] = some []
  resolve_filesystems statfs (line ∷ lines) =
      let rest = resolve_filesystems statfs lines in
      elim (filesystem_of statfs line) [
        | ok f ↦ elim rest [ some fs ↦ some (f ∷ fs) | none ↦ none ]
        | err e ↦ some []
        | crash ↦ none
      ]

  -- What GetInfo of resolver_linux.go finds.
  pub record System : Type 0 where
    pub goarch : Bytes
    pub goos : Bytes
    pub hostname : Bytes
    pub interfaces : Outcome (List (Outcome (List Addr)))
    pub machine_id_env : Bytes
    pub machine_id_files : List (Outcome Bytes)
    pub system_uuid_files : List (Outcome Bytes)
    pub boot_id_files : List (Outcome Bytes)
    pub mount_table : List Bytes
    pub statfs : Bytes → Outcome Statfs
    -- resolveUptime: zero where Sysinfo fails
    pub uptime : ℕ

  -- An id that is resolved last by static("unknown").
  unfoldable pub id_of : List Bytes → Bytes
  unfolding resolve_first
  id_of results = or_empty (resolve_first (results ++ codes "unknown" ∷ []))

  -- The literal of GetInfo.
  unfoldable pub info_of : System → ℕ → Bytes → Dict Bytes → List Filesystem → NodeInfo
  unfolding get_addresses id_of from_files with_host_labels
  info_of sys grpc_port version labels filesystems = record {
    labels = with_host_labels sys.goarch sys.goos labels;
    hostname = sys.hostname;
    addresses = get_addresses sys.interfaces;
    grpc_port = grpc_port;
    machine_id = id_of (sys.machine_id_env ∷ from_files sys.machine_id_files ∷ []);
    system_uuid = id_of (from_files sys.system_uuid_files ∷ []);
    boot_id = id_of (from_files sys.boot_id_files ∷ []);
    arch = sys.goarch;
    os = sys.goos;
    version = version;
    filesystems = filesystems;
    uptime = sys.uptime;
  }

  -- NewResolver and GetInfo; none: a panic.
  unfoldable pub get_info : System → ℕ → Bytes → Dict Bytes → Option NodeInfo
  unfolding resolve_filesystems info_of
  get_info sys grpc_port version labels =
      Option.map (info_of sys grpc_port version labels)
        (resolve_filesystems sys.statfs sys.mount_table)

label_to_api : Bytes × Bytes → ApiLabel
label_to_api (key, value) = record { key = key; value = value }

filesystem_to_api : Filesystem → ApiFilesystem
filesystem_to_api f = record {
  filesystem = f.filesystem;
  type_name = f.type_name;
  mount_dir = f.mount_dir;
  total = f.total;
  free = f.free;
  available = f.available;
}

-- MapInfoToAPIModel; the range over the labels has an order of its own.
unfoldable pub map_info_to_api_model :
    (List (Bytes × Bytes) → List (Bytes × Bytes)) → NodeInfo → ApiInfo
unfolding label_to_api filesystem_to_api
map_info_to_api_model order info = record {
  labels = map label_to_api (order info.labels);
  hostname = info.hostname;
  addresses = info.addresses;
  grpc_port = info.grpc_port;
  machine_id = info.machine_id;
  system_uuid = info.system_uuid;
  boot_id = info.boot_id;
  arch = info.arch;
  os = info.os;
  version = info.version;
  filesystems = map filesystem_to_api info.filesystems;
  uptime = info.uptime;
}
