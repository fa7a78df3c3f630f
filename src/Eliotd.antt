-- ===== src/Eliotd.antt =====
-- cmd/eliotd/main.go: which services the daemon starts, and the port of its address.
pub mod Laws
use eliot.Prelude.{
  ℕ, Bytes, codes, Bool, List, [], ◌∷◌, ◌++◌, Option, none, some, if◌then◌else◌, ◌&&◌, Outcome, ok,
  err, crash, failure, Dict, split, ◌>>=◌,
}
use eliot.Discovery.{Server}
use eliot.Cmd.Ui.{Output}
use eliot.Cmd.Flags.{get_labels}

-- The flags that Action reads; `labels` is none where the flag is not set.
pub record Flags : Type 0 where
  pub grpc_api_listen : Bytes
  pub labels : Option Bytes
  pub profile : Bool
  pub profile_address : Bytes
  pub grpc_api : Bool
  pub lifecycle_controller : Bool
  pub discovery : Bool

-- What is added to the supervisor: each service with its address or name.
pub data Service : Type 0 where
  profile_server : Bytes → Service
  api_server : Bytes → Service
  lifecycle : Service
  discovery_server : Server → Service

abbrev pub only_if : Bool → Service → List Service
only_if b s = if b then s ∷ [] else []

-- discovery.NewServer
abbrev pub new_server : Bytes → ℕ → Bytes → Server
new_server hostname port version = record { name = hostname; port = port; version = version }

unfoldable pub services : Flags → Bytes → ℕ → Bytes → List Service
services flags hostname port version =
    only_if flags.profile (profile_server flags.profile_address)
    ++ (only_if flags.grpc_api (api_server flags.grpc_api_listen)
        ++ (only_if flags.lifecycle_controller lifecycle
            ++ only_if (flags.grpc_api && flags.discovery)
                (discovery_server (new_server hostname port version))))

-- crash: log.Panicf
abbrev port_of : Option ℕ → Outcome ℕ
port_of none = crash
port_of (some n) = ok n

-- The services that are served, or the error of Action where there is none.
abbrev any_of : List Service → Outcome (List Service)
any_of [] = err (failure (codes "Nothing to run"))
any_of (s ∷ ss) = ok (s ∷ ss)

-- strconv.Atoi is a parameter.
module _ (atoi : Bytes → Option ℕ) where
  -- The parts of the address: there are to be two.
  abbrev port_at : List Bytes → Outcome ℕ
  port_at [] = crash
  port_at (host ∷ []) = crash
  port_at (host ∷ port ∷ []) = port_of (atoi port)
  port_at (host ∷ port ∷ part ∷ parts) = crash

  unfoldable pub parse_grpc_port : Bytes → Outcome ℕ
  unfolding split
  parse_grpc_port addr = port_at (split b':' addr)

  unfoldable pub action : Output → Flags → Bytes → Bytes → Outcome (List Service)
  unfolding parse_grpc_port services get_labels
  action output flags hostname version = do
    port ← parse_grpc_port flags.grpc_api_listen
    _ ← get_labels output flags.labels
    any_of (services flags hostname port version)
