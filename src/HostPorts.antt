-- ===== src/HostPorts.antt =====
-- hostports: the rules that publish containers' ports on the host. Messages of errors are left out:
-- each place that returns an error has a name.
pub mod Parse
pub mod Bridge
pub mod Rules
pub mod Nft
pub mod Build
pub mod Address
pub mod Restore
pub mod Localnet
pub mod Apply
pub mod Watch
use network_plugin_manager.Prelude.{String, Bool, List}
use network_plugin_manager.Go.Map.{Map}

pub record PortRule : Type 0 where
  pub bridge : String
  pub source_ip : String
  pub source_port : String
  pub target_ip : String
  pub target_port : String
  pub protocol : String
  pub masquerade_dnat : Bool

pub record RuleSet : Type 0 where
  pub ports : Map PortRule
  pub forward_subnets : Map String
  pub forward_bridges : Map String
  pub forward_peers : Map (List String)
  pub shared_ingress : Map Bool
  pub route_localnet_bridges : Map Bool

pub data Error : Type 0 where
  invalid_bridge invalid_address invalid_port : Error
  not_boolean_ingress shared_reference conflicting_bridges : Error
  invalid_forward_subnet bridge_without_subnet ingress_without_network : Error
  peer_without_subnet peer_without_bridge invalid_peer : Error
  networks_failed hosts_failed containers_failed subnet_unresolved peers_unresolved : Error
  forward_without_bridge no_address address_unresolved invalid_definition : Error
  local_host_unknown restore_unselected command_unselected preflight_failed load_failed : Error
  base_rules_failed localnet_failed localnet_unknown save_failed : Error
  table_unreadable table_undecodable chain_mismatch chain_incomplete : Error
