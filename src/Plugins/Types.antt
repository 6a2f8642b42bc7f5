-- ===== src/Plugins/Types.antt =====
-- src/core/plugins/trait.rs: the errors and the data of plugins, and what the hooks are given.
use rapid_gate.Base.{ℕ, Text, Option, List}

pub data PluginError : Type 0 where
  init_failed : Text → PluginError
  execution_failed : Text → PluginError
  not_found : Text → PluginError
  permission_denied : Text → PluginError

-- `Result<A, PluginError>`
pub data PluginResult {ℓ} (A : Type ℓ) : Type ℓ where
  done : A → PluginResult A
  failed : PluginError → PluginResult A

pub record PluginMetadata : Type 0 where
  pub name : Text
  pub version : Text
  pub author : Option Text
  pub description : Option Text

-- a map from texts to texts, by its entries
abbrev pub Entries : Type 0
Entries = List (Text × Text)

pub record RequestContext : Type 0 where
  pub method : Text
  pub path : Text
  pub headers : Entries
  pub query_params : Entries
  pub body : Option (List ℕ)
  pub metadata : Entries

pub record ProxyContext : Type 0 where
  pub upstream_url : Text
  pub headers : Entries
  pub body : Option (List ℕ)
  pub metadata : Entries

-- the hooks of a request, in the order of their phases
pub data Phase : Type 0 where
  on_request before_proxy after_proxy : Phase
