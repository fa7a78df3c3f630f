-- ===== src/Node/Laws.antt =====
-- pkg/node: what is sure of the information, and what becomes of labels and addresses.
use mathlib.Core.Option
use eliot.Prelude.{
  ℕ, Bytes, codes, false, List, [], ◌∷◌, ◌++◌, Option, none, some, Outcome, ok, err, crash, Dict,
  lookup, insert, lookup-insert, bytes_beq, bytes_eq, ◌≡◌, refl, ap, ◌∙◌, All, Bool-cases, inl, inr,
  subst,
}
use eliot.Node.{
  NodeInfo, Filesystem, host_label, with_host_labels, Addr, ip_net, ip_addr, addresses_of,
  get_addresses, resolve_first, from_files, resolve_filesystems, System, id_of, info_of, or_empty,
  get_info,
}

-- An interface with networks only.
abbrev pub OnlyNets : List Addr → Type 0
OnlyNets [] = Unit
OnlyNets (ip_net ip ∷ addrs) = OnlyNets addrs
OnlyNets (ip_addr ip ∷ addrs) = ⊥

abbrev pub HasOnlyNets : Outcome (List Addr) → Type 0
HasOnlyNets (ok addrs) = OnlyNets addrs
HasOnlyNets (err e) = Unit
HasOnlyNets crash = Unit

addresses_of-OnlyNets : (addrs : List Addr) → OnlyNets addrs → addresses_of addrs ≡ []
unfolding addresses_of
addresses_of-OnlyNets [] h = refl
addresses_of-OnlyNets (ip_net ip ∷ addrs) h = addresses_of-OnlyNets addrs h
addresses_of-OnlyNets (ip_addr ip ∷ addrs) h = absurd h

-- A node whose interfaces give their addresses as networks, as those of Linux do, has no address.
get_addresses-nets :
    (interfaces : List (Outcome (List Addr)))
    → All HasOnlyNets interfaces
    → get_addresses (ok interfaces) ≡ []
unfolding get_addresses
get_addresses-nets [] h = refl
get_addresses-nets (ok addrs ∷ interfaces) (h, hs) =
    rw (addresses_of-OnlyNets addrs h) (get_addresses-nets interfaces hs)
get_addresses-nets (err e ∷ interfaces) (h, hs) = get_addresses-nets interfaces hs
get_addresses-nets (crash ∷ interfaces) (h, hs) = get_addresses-nets interfaces hs

some-injective : {A : Type 0} {a b : A} → some a ≡ some b → a ≡ b
some-injective e = cc

unknown-resolved :
    (results : List Bytes)
    → (r : Bytes) × (resolve_first (results ++ codes "unknown" ∷ []) ≡ some r)
      × (bytes_beq r [] ≡ false)
unfolding resolve_first bytes_beq
unknown-resolved [] = (codes "unknown", refl, refl)
unknown-resolved (x ∷ results) = elim (Bool-cases (bytes_beq x [])) [
  | inl e ↦ rw e (unknown-resolved results)
  | inr e ↦ (x, rw e refl, e)
]

module _ (trim_space : Bytes → Bytes) (fields : Bytes → List Bytes) where
  id_of-ne-nil : (results : List Bytes) → bytes_beq (id_of trim_space fields results) [] ≡ false
  unfolding id_of
  id_of-ne-nil results =
      let (r, e, n) = unknown-resolved results in ap (λ o. bytes_beq (or_empty o) []) e ∙ n

  abbrev pub HasIds : NodeInfo → Type 0
  HasIds info =
      (bytes_beq info.machine_id [] ≡ false)
      × (bytes_beq info.system_uuid [] ≡ false)
      × (bytes_beq info.boot_id [] ≡ false)

  mapped-HasIds :
      (f : List Filesystem → NodeInfo) (o : Option (List Filesystem)) (info : NodeInfo)
      → ((fs : List Filesystem) → HasIds (f fs))
      → Option.map f o ≡ some info
      → HasIds info
  mapped-HasIds f none info k h = cc
  mapped-HasIds f (some fs) info k h = subst HasIds (some-injective h) (k fs)

  -- Whatever the files and the environment hold, a node that can tell of itself has its three ids,
  -- none of them empty, as the validation of the model wants it.
  get_info-HasIds :
      (sys : System trim_space fields) (grpc_port : ℕ) (version : Bytes) (labels : Dict Bytes)
      (info : NodeInfo)
      → get_info trim_space fields sys grpc_port version labels ≡ some info
      → HasIds info
  unfolding get_info info_of
  get_info-HasIds sys grpc_port version labels info h =
      mapped-HasIds (info_of trim_space fields sys grpc_port version labels)
        (resolve_filesystems trim_space fields sys.statfs sys.mount_table) info
        (λ fs. (
          id_of-ne-nil
              (sys.machine_id_env ∷ from_files trim_space fields sys.machine_id_files ∷ []),
          id_of-ne-nil (from_files trim_space fields sys.system_uuid_files ∷ []),
          id_of-ne-nil (from_files trim_space fields sys.boot_id_files ∷ []),
        ))
        h

abbrev arch_key : Bytes
arch_key = codes "eliot.io/arch"

-- The label of the system is another one.
os-kept :
    (os : Bytes) (o : Option Bytes) (labels : Dict Bytes)
    → lookup arch_key
        (elim o [ some _ ↦ labels | none ↦ insert (codes "eliot.io/" ++ codes "os") os labels ])
      ≡ lookup arch_key labels
unfolding bytes_beq
os-kept os (some v) labels = refl
os-kept os none labels = lookup-insert (codes "eliot.io/os") arch_key os labels

arch-written :
    (arch : Bytes) (o : Option Bytes) (labels : Dict Bytes)
    → lookup arch_key
        (elim o [ some _ ↦ labels | none ↦ insert (codes "eliot.io/" ++ codes "arch") arch labels ])
      ≡ elim o [ some _ ↦ lookup arch_key labels | none ↦ some arch ]
unfolding bytes_beq
arch-written arch (some v) labels = refl
arch-written arch none labels = lookup-insert arch_key arch_key arch labels

-- The label of the architecture: the one that a label "arch" of the user leaves alone, and otherwise
-- that of the node, even where the user gave a label of the same name.
with_host_labels-arch :
    (arch os : Bytes) (labels : Dict Bytes)
    → lookup (codes "eliot.io/arch") (with_host_labels arch os labels)
      ≡ elim (lookup (codes "arch") labels) [
        | some _ ↦ lookup (codes "eliot.io/arch") labels
        | none ↦ some arch
      ]
unfolding with_host_labels host_label
with_host_labels-arch arch os labels =
    let labels' = host_label (codes "arch") arch labels in
    os-kept os (lookup (codes "os") labels') labels'
    ∙ arch-written arch (lookup (codes "arch") labels) labels
