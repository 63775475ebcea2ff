-- ===== src/HostNat.antt =====
-- hostnat/watcher.go: the source NAT of the containers' networks. Messages of errors are left out: each
-- place that returns an error has a name.
pub mod Build
pub mod Validate
pub mod Script
pub mod Check
pub mod Apply
pub mod Stale
pub mod Change
pub mod History
use network_plugin_manager.Prelude.{ℕ, String, List, []}
use network_plugin_manager.Go.Map.{Map}

pub record MasqRule : Type 0 where
  pub subnet : String
  pub bridge : String
  pub peers : List String

pub record IkePortSnatRule : Type 0 where
  pub source_ip : String
  pub host_ip : String
  pub bridge : String
  pub port : String

pub record RuleSet : Type 0 where
  pub masq : Map MasqRule
  pub ike : Map IkePortSnatRule

abbrev pub no_masq : MasqRule
no_masq = record { subnet = ""; bridge = ""; peers = [] }

abbrev pub no_ike : IkePortSnatRule
no_ike = record { source_ip = ""; host_ip = ""; bridge = ""; port = "" }

abbrev pub no_rules : RuleSet
no_rules = record { masq = []; ike = [] }

pub data Error : Type 0 where
  local_host_unknown networks_failed hosts_failed containers_failed : Error
  subnet_unresolved peers_unresolved : Error
  invalid_subnet invalid_bridge invalid_peer : Error
  invalid_ike_address invalid_ike_bridge unsupported_port : Error
  backend_unresolved restore_unselected command_unselected : Error
  preflight_failed routing_failed apply_failed base_jump_failed : Error
  chain_unreadable chain_undecodable hook_mismatch rule_count_differs : Error
