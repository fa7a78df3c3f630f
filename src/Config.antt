-- ===== src/Config.antt =====
-- pkg/config/config.go and provider.go: the configuration of the client and its overrides.
-- The files stand in File.
pub mod Project
pub mod Field
pub mod File
use eliot.Prelude.{
  Bytes, codes, Bool, true, false, List, [], ◌∷◌, length, split_n, bytes_beq, ◌==◌, bytes_eq,
  if◌then◌else◌, ℕ, nat_eq, cut,
}
use eliot.Model.{default_namespace}

pub record Endpoint : Type 0 where
  pub name : Bytes
  pub url : Bytes

pub record Config : Type 0 where
  pub endpoints : List Endpoint
  pub namespace : Bytes

-- parts[0] is there, since the count is positive.
unfoldable pub first_part : List Bytes → Bytes
first_part [] = []
first_part (p ∷ ps) = p

unfoldable pub get_host : Endpoint → Bytes
unfolding first_part split_n
get_host e = first_part (split_n b':' 2 e.url)

-- GetConfig where there is no file at the path.
abbrev pub default_config : Config
default_config = record { endpoints = []; namespace = default_namespace }

pub record Provider : Type 0 where
  pub config : Config
  pub namespace_override : Bytes
  pub endpoints_override : List Endpoint

unfoldable pub new_provider : Config → Provider
new_provider config = record { config = config; namespace_override = []; endpoints_override = [] }

unfoldable pub override_namespace : Provider → Bytes → Provider
override_namespace c namespace = record c { namespace_override = namespace }

unfoldable pub get_namespace : Provider → Bytes
get_namespace c =
    if bytes_beq c.namespace_override [] then c.config.namespace else c.namespace_override

unfoldable pub override_endpoints : Provider → List Endpoint → Provider
override_endpoints c endpoints = record c { endpoints_override = endpoints }

unfoldable pub get_endpoints : Provider → List Endpoint
get_endpoints c =
    if length c.endpoints_override == 0 then c.config.endpoints else c.endpoints_override

-- The zero value that a named result starts with.
abbrev pub no_endpoint : Endpoint
no_endpoint = record { name = []; url = [] }

unfoldable pub find_endpoint : Bytes → List Endpoint → Endpoint × Bool
find_endpoint name [] = (no_endpoint, false)
find_endpoint name (e ∷ es) = if e.name == name then (e, true) else find_endpoint name es

unfoldable pub get_endpoint_by_name : Provider → Bytes → Endpoint × Bool
unfolding find_endpoint get_endpoints
get_endpoint_by_name c name = find_endpoint name (get_endpoints c)
