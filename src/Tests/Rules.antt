-- ===== src/Tests/Rules.antt =====
-- The rule set of hostports/watcher.go with two networks, in two orders.
use mathlib.Core.List.{Permᴰ}
use network_plugin_manager.Prelude.{◌≡◌, refl, true, List, [], ◌∷◌, Result, err}
use network_plugin_manager.Go.Map.{lookup, lookup_or, member}
use network_plugin_manager.Go.Sort.{sort}
use network_plugin_manager.Go.Text.{all_chars}
use network_plugin_manager.Go.Netip.{parse_prefix}
use network_plugin_manager.HostPorts.{RuleSet, Error, invalid_forward_subnet}
use network_plugin_manager.HostPorts.Parse.{validate_bridge_name}
use network_plugin_manager.HostPorts.Rules.{
  validate_rule_set, sorted_forward_networks, sorted_shared_ingress_networks, sorted_forward_peers,
  ForwardNetwork,
}
use network_plugin_manager.HostPorts.Rules.Order.{
  SameForwards, sorted_forward_networks-same, sorted_forward_peers-same,
}

abbrev rules : RuleSet
rules = record {
  ports = [];
  forward_subnets = ("b", "10.43.0.0/16") ∷ ("a", "10.42.0.0/16") ∷ [];
  forward_bridges = ("b", "br1") ∷ ("a", "docker0") ∷ [];
  forward_peers = ("a", "10.45.0.0/16" ∷ "10.44.0.0/16" ∷ []) ∷ [];
  shared_ingress = ("a", true) ∷ [];
  route_localnet_bridges = [];
}

abbrev other_order : RuleSet
other_order = record rules {
  forward_subnets = ("a", "10.42.0.0/16") ∷ ("b", "10.43.0.0/16") ∷ [];
  forward_bridges = ("a", "docker0") ∷ ("b", "br1") ∷ [];
}

abbrev network_a : ForwardNetwork
network_a = record { uuid = "a"; bridge = "docker0"; subnet = "10.42.0.0/16" }

abbrev network_b : ForwardNetwork
network_b = record { uuid = "b"; bridge = "br1"; subnet = "10.43.0.0/16" }

run_rules : RuleSet → Result Error (Unit {0})
unfolding validate_rule_set validate_bridge_name all_chars parse_prefix lookup lookup_or
run_rules r = validate_rule_set r

run_networks : RuleSet → List ForwardNetwork
unfolding sorted_forward_networks sorted_shared_ingress_networks sorted_forward_peers sort lookup_or
    lookup member
run_networks r = sorted_forward_networks r

-- A subnet that is the whole address space is refused.
whole_refused :
    validate_rule_set (record rules { forward_subnets = ("a", "0.0.0.0/0") ∷ [] })
    ≡ err invalid_forward_subnet
unfolding run_rules
whole_refused = refl

networks_sorted : sorted_forward_networks rules ≡ network_a ∷ network_b ∷ []
unfolding run_networks
networks_sorted = refl

ingress_sorted : sorted_shared_ingress_networks rules ≡ network_a ∷ []
unfolding run_networks
ingress_sorted = refl

rules_same : SameForwards rules other_order
unfolding lookup
rules_same = record {
  subnets = Permᴰ.swap refl refl;
  bridges = Permᴰ.swap refl refl;
  peers = Permᴰ.cons refl Permᴰ.nil;
  subnets_distinct = (refl, (refl, tt));
  bridges_distinct = (refl, (refl, tt));
  peers_distinct = (refl, tt);
}

networks_of_other_order : sorted_forward_networks rules ≡ sorted_forward_networks other_order
networks_of_other_order = sorted_forward_networks-same rules other_order rules_same

pairs_of_other_order : sorted_forward_peers rules ≡ sorted_forward_peers other_order
pairs_of_other_order = sorted_forward_peers-same rules other_order rules_same
