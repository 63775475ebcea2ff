-- ===== src/HostPorts/Rules.antt =====
-- A whole rule set of hostports/watcher.go: `validateRuleSet` and the sorted lists that the scripts are
-- written from.
pub mod Safe
pub mod Order
use network_plugin_manager.Prelude.{
  String, Bool, true, false, not, ◌&&◌, ◌||◌, Option, none, some, List, [], ◌∷◌, ◌++◌, map, ◌==◌,
  ◌<>◌, Result, ok, err, ◌>>=◌, ◌>>◌, refuse_if, eqb, keep, if◌then◌else◌,
}
use network_plugin_manager.Go.Map.{Map, member, lookup_or, keys}
use network_plugin_manager.Go.Netip.{parse_prefix}
use network_plugin_manager.Go.Sort.{sort}
use network_plugin_manager.HostPorts.{
  PortRule, RuleSet, Error, invalid_forward_subnet, bridge_without_subnet, ingress_without_network,
  peer_without_subnet, peer_without_bridge, invalid_peer,
}
use network_plugin_manager.HostPorts.Parse.{validate_port_rule, validate_bridge_name}

-- A loop that returns at the first error.
unfoldable pub each {ℓ} :
    {A : Type ℓ} → (A → Result Error (Unit {0})) → List A → Result Error (Unit {0})
each check [] = ok tt
each check (x ∷ xs) = check x >> each check xs

unfoldable pub is_subnet : String → Bool
is_subnet subnet = elim (parse_prefix subnet) [ none ↦ false | some p ↦ not (eqb p.bits 0) ]

abbrev pub subnet_of : RuleSet → String → String
subnet_of rules uuid = lookup_or "" uuid rules.forward_subnets

abbrev pub bridge_of : RuleSet → String → String
bridge_of rules uuid = lookup_or "" uuid rules.forward_bridges

unfoldable pub check_forward : RuleSet → String × String → Result Error (Unit {0})
check_forward rules (uuid, subnet) = do
  refuse_if (not (is_subnet subnet)) invalid_forward_subnet
  validate_bridge_name (bridge_of rules uuid)

abbrev pub check_bridge : RuleSet → String × String → Result Error (Unit {0})
check_bridge rules (uuid, bridge) = refuse_if (subnet_of rules uuid == "") bridge_without_subnet

abbrev pub check_ingress : RuleSet → String × Bool → Result Error (Unit {0})
check_ingress rules (uuid, enabled) =
    refuse_if (enabled && (subnet_of rules uuid == "" || bridge_of rules uuid == ""))
      ingress_without_network

abbrev pub check_peer : String → Result Error (Unit {0})
check_peer peer = refuse_if (not (is_subnet peer)) invalid_peer

unfoldable pub check_peers : RuleSet → String × List String → Result Error (Unit {0})
check_peers rules (uuid, peers) = do
  refuse_if (subnet_of rules uuid == "") peer_without_subnet
  refuse_if (bridge_of rules uuid == "") peer_without_bridge
  each check_peer peers

unfoldable pub validate_rule_set : RuleSet → Result Error (Unit {0})
unfolding each check_forward check_peers is_subnet
validate_rule_set rules = do
  each (λ e. validate_port_rule e.1) rules.ports
  each (check_forward rules) rules.forward_subnets
  each (check_bridge rules) rules.forward_bridges
  each (check_ingress rules) rules.shared_ingress
  each (check_peers rules) rules.forward_peers
  each (λ e. validate_bridge_name e.0) rules.route_localnet_bridges

pub record ForwardNetwork : Type 0 where
  pub uuid : String
  pub bridge : String
  pub subnet : String

abbrev pub network_of : RuleSet → String → ForwardNetwork
network_of rules key = record {
  uuid = key;
  bridge = bridge_of rules key;
  subnet = subnet_of rules key;
}

-- Between the two parts stands the character of code 0.
abbrev pub identity : ForwardNetwork → String
identity n = n.bridge <> ("\0" <> n.subnet)

unfoldable pub forward_networks : RuleSet → List String → List String → List ForwardNetwork
forward_networks rules [] seen = []
forward_networks rules (key ∷ ks) seen =
    let n = network_of rules key in
    let skip = forward_networks rules ks seen in
    let keep_it = n ∷ forward_networks rules ks (identity n ∷ seen) in
    if n.bridge == "" || n.subnet == "" || member (identity n) seen then skip else keep_it

unfoldable pub sorted_forward_networks : RuleSet → List ForwardNetwork
unfolding forward_networks
sorted_forward_networks rules = forward_networks rules (sort (keys rules.forward_subnets)) []

unfoldable pub sorted_shared_ingress_networks : RuleSet → List ForwardNetwork
unfolding sorted_forward_networks
sorted_shared_ingress_networks rules =
    keep (λ n. lookup_or false n.uuid rules.shared_ingress) (sorted_forward_networks rules)

pub record ForwardPair : Type 0 where
  pub peer : String
  pub local : String
  pub bridge : String

abbrev pub pair_of : RuleSet → String → String → ForwardPair
pair_of rules key peer = record {
  peer = peer;
  local = subnet_of rules key;
  bridge = bridge_of rules key;
}

unfoldable pub forward_pairs : RuleSet → List String → List ForwardPair
forward_pairs rules [] = []
forward_pairs rules (key ∷ ks) =
    map (pair_of rules key) (sort (lookup_or [] key rules.forward_peers)) ++ forward_pairs rules ks

unfoldable pub sorted_forward_peers : RuleSet → List ForwardPair
unfolding forward_pairs
sorted_forward_peers rules = forward_pairs rules (sort (keys rules.forward_peers))
