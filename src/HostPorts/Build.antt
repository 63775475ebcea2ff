-- ===== src/HostPorts/Build.antt =====
-- The rules that hostports/watcher.go makes of the metadata: `onChangeLocked` up to the comparison with
-- what is applied. The source's maps that stay nil are empty here. What reads a container's address in its
-- network namespace, the field `containerIPv4`, is an argument.
pub mod Published
use network_plugin_manager.Prelude.{
  ℕ, ◌/◌, ◌^◌, String, Bool, true, false, not, ◌&&◌, ◌||◌, Option, none, some, List, [], ◌∷◌, ◌==◌,
  ◌<>◌, Result, ok, err, ◌>>=◌, ◌>>◌, eqb, if◌then◌else◌,
}
use network_plugin_manager.Go.Map.{Map, lookup, lookup_or, put}
use network_plugin_manager.Go.Netip.{parse_addr, is_loopback}
use network_plugin_manager.Metadata.{Host, Network, Container, Client}
use network_plugin_manager.HostLabel.{is_reference, resolve, peer_subnets}
use network_plugin_manager.HostNat.Build.{networks_by_uuid}
use network_plugin_manager.HostPorts.{
  PortRule, RuleSet, Error, networks_failed, hosts_failed, containers_failed, subnet_unresolved,
  peers_unresolved, forward_without_bridge, no_address, address_unresolved, invalid_definition,
}
use network_plugin_manager.HostPorts.Parse.{parse_port_rule}
use network_plugin_manager.HostPorts.Bridge.{BridgeConfig, bridge_config_for_network}

abbrev pub no_rules : RuleSet
no_rules = record {
  ports = [];
  forward_subnets = [];
  forward_bridges = [];
  forward_peers = [];
  shared_ingress = [];
  route_localnet_bridges = [];
}

unfoldable pub add_forward_peers :
    Client → Host → String → String → String → RuleSet → Result Error RuleSet
unfolding put
add_forward_peers c host uuid reference resolved rules =
    if is_reference reference
    then elim (c.hosts) [
      | none ↦ err hosts_failed
      | some hosts ↦ elim (peer_subnets reference host.uuid resolved hosts) [
        | ok peers ↦ ok (record rules { forward_peers = put uuid peers rules.forward_peers })
        | err e ↦ err peers_unresolved
      ]
    ]
    else ok rules

abbrev pub with_forward : String → String → BridgeConfig → RuleSet → RuleSet
with_forward uuid resolved config rules = record rules {
  forward_subnets = put uuid resolved rules.forward_subnets;
  forward_bridges = put uuid config.bridge rules.forward_bridges;
  shared_ingress =
      if config.shared_ingress then put uuid true rules.shared_ingress else rules.shared_ingress;
}

unfoldable pub add_forward : Client → Host → String → BridgeConfig → RuleSet → Result Error RuleSet
unfolding add_forward_peers put
add_forward c host uuid config rules =
    if config.subnet == ""
    then ok rules
    else if config.bridge == ""
    then err forward_without_bridge
    else elim (resolve config.subnet host.labels) [
      | err e ↦ err subnet_unresolved
      | ok resolved ↦
          add_forward_peers c host uuid config.subnet resolved
            (with_forward uuid resolved config rules)
    ]

-- The loop over the networks, in the order of the map
unfoldable pub add_forwards : Client → Host → Map Network → RuleSet → Result Error RuleSet
unfolding add_forward
add_forwards c host [] rules = ok rules
add_forwards c host (n ∷ ns) rules = bridge_config_for_network n.1 >>= λ config.
    add_forward c host n.0 config rules >>= λ r. add_forwards c host ns r

abbrev pub host_ports_label : String
host_ports_label = "io.rancher.network.host_ports"

abbrev pub is_live : Container → Bool
is_live c = c.state == "running" || c.state == "starting"

unfoldable pub publishes : Host → Network → Container → Bool
unfolding lookup_or
publishes host network c =
    is_live c
    && c.host_uuid == host.uuid
    && (network.host_ports || (c.system && lookup_or "" host_ports_label c.labels == "true"))

-- The zero value that a missing network reads as
abbrev pub no_network : Network
no_network = record { is_default = false; host_ports = false; metadata = []; name = ""; uuid = "" }

-- An address that does not parse is the zero one, which is no loopback address.
unfoldable pub is_loopback_text : String → Bool
is_loopback_text s = elim (parse_addr s) [ none ↦ false | some a ↦ is_loopback a ]

unfoldable pub target_ip :
    (String → String → Option String) → RuleSet → Container → Result Error String
unfolding lookup_or
target_ip address rules c =
    if c.primary_ip == ""
    then if lookup_or "" c.network_uuid rules.forward_subnets == ""
      then err no_address
      else elim (address c.external_id (lookup_or "" c.network_uuid rules.forward_subnets)) [
        | none ↦ err address_unresolved
        | some ip ↦ ok ip
      ]
    else ok c.primary_ip

abbrev pub exposes_loopback : PortRule → Bool
exposes_loopback rule =
    not (rule.bridge == "") && (rule.source_ip == "0.0.0.0" || is_loopback_text rule.source_ip)

abbrev pub with_port : String → PortRule → RuleSet → RuleSet
with_port key rule rules = record rules {
  ports = put key rule rules.ports;
  route_localnet_bridges =
      if exposes_loopback rule
      then put rule.bridge true rules.route_localnet_bridges
      else rules.route_localnet_bridges;
}

unfoldable pub add_port : BridgeConfig → String → String → String → RuleSet → Result Error RuleSet
unfolding put is_loopback_text
add_port config ip id port rules = elim (parse_port_rule config.bridge ip port) [
  | none ↦ err invalid_definition
  | some rule ↦ ok (
      with_port (id <> ("/" <> port)) (record rule { masquerade_dnat = config.external_gateway })
        rules)
]

unfoldable pub add_port_rules :
    BridgeConfig → String → String → List String → RuleSet → Result Error RuleSet
unfolding add_port
add_port_rules config ip id [] rules = ok rules
add_port_rules config ip id (port ∷ ports) rules =
    add_port config ip id port rules >>= λ r. add_port_rules config ip id ports r

abbrev pub has_no_ports : Container → Bool
has_no_ports c = elim (c.ports) [ [] ↦ true | p ∷ ps ↦ false ]

unfoldable pub add_container :
    (String → String → Option String) → Network → Container → RuleSet → Result Error RuleSet
unfolding add_port_rules target_ip
add_container address network c rules = do
  config ← bridge_config_for_network network
  ip ← target_ip address rules c
  add_port_rules config ip c.external_id c.ports rules

unfoldable pub add_publishers :
    (String → String → Option String)
    → Host
    → Map Network
    → List Container
    → RuleSet
    → Result Error RuleSet
unfolding publishes add_container lookup_or
add_publishers address host networks [] rules = ok rules
add_publishers address host networks (c ∷ cs) rules =
    (if publishes host (lookup_or no_network c.network_uuid networks) c && not (has_no_ports c)
      then add_container address (lookup_or no_network c.network_uuid networks) c rules
      else ok rules)
    >>= λ r. add_publishers address host networks cs r

unfoldable pub build_rule_set :
    (String → String → Option String) → Client → Host → Result Error RuleSet
unfolding add_forwards add_publishers networks_by_uuid
build_rule_set address c host = elim (c.networks) [
  | none ↦ err networks_failed
  | some networks ↦ add_forwards c host (networks_by_uuid networks []) no_rules >>= λ rules.
      elim (c.containers) [
        | none ↦ err containers_failed
        | some containers ↦
            add_publishers address host (networks_by_uuid networks []) containers rules
      ]
]
