-- ===== src/HostPorts/Restore.antt =====
-- What `apply` of hostports/watcher.go hands to iptables-restore, with `prefix` and `iptables` of a rule.
use network_plugin_manager.Prelude.{String, List, [], ◌∷◌, ◌++◌, ◌==◌, if◌then◌else◌}
use network_plugin_manager.Go.Text.{unlines}
use network_plugin_manager.Go.Text.Lines.{glue, concat_map}
use network_plugin_manager.Go.Sort.{sort}
use network_plugin_manager.HostPorts.{PortRule, RuleSet}
use network_plugin_manager.HostPorts.Rules.{
  ForwardNetwork, ForwardPair, sorted_forward_networks, sorted_shared_ingress_networks,
  sorted_forward_peers,
}
use network_plugin_manager.HostPorts.Nft.{sorted_enabled_bridges, port_rules}

abbrev pub postrouting_chain : String
postrouting_chain = "CATTLE_HOSTPORTS_POSTROUTING"

abbrev pub raw_chain : String
raw_chain = "CATTLE_HOSTPORTS_RAW"

abbrev pub port_prefix : PortRule → String
port_prefix p = glue (
    "-A CATTLE_PREROUTING"
    ∷ (if p.bridge == "" then "" else glue (" ! -i " ∷ p.bridge ∷ []))
    ∷ " -p "
    ∷ p.protocol
    ∷ " -m "
    ∷ p.protocol
    ∷ (if p.source_ip == "0.0.0.0" then "" else glue (" -d " ∷ p.source_ip ∷ []))
    ∷ " --dport "
    ∷ p.source_port
    ∷ [])

-- The protocol and the port, as the text behind a chain has them
abbrev pub dport_words : PortRule → String → List String
dport_words p port = " -p " ∷ p.protocol ∷ " -m " ∷ p.protocol ∷ " --dport " ∷ port ∷ []

abbrev pub to_destination : PortRule → String
to_destination p = glue (" -j DNAT --to-destination " ∷ p.target_ip ∷ ":" ∷ p.target_port ∷ [])

abbrev pub local_dnat : PortRule → String
local_dnat p = glue (
    "-A CATTLE_PREROUTING"
    ∷ glue (dport_words p p.source_port)
    ∷ (if p.source_ip == "0.0.0.0"
        then " -m addrtype --dst-type LOCAL"
        else glue (" -d " ∷ p.source_ip ∷ []))
    ∷ to_destination p
    ∷ [])

abbrev pub output_dnat : PortRule → String
output_dnat p = glue (
    "-A CATTLE_OUTPUT"
    ∷ glue (dport_words p p.source_port)
    ∷ " -m addrtype --dst-type LOCAL"
    ∷ (if p.source_ip == "0.0.0.0" then "" else glue (" -d " ∷ p.source_ip ∷ []))
    ∷ to_destination p
    ∷ [])

abbrev pub hairpin_masquerade : PortRule → String
hairpin_masquerade p = glue (
    "-A "
    ∷ postrouting_chain
    ∷ " -s "
    ∷ p.target_ip
    ∷ " -d "
    ∷ p.target_ip
    ∷ glue (dport_words p p.target_port)
    ∷ " -j MASQUERADE"
    ∷ [])

-- A flat network's workload answers through its own gateway unless the flow comes from this host.
abbrev pub dnat_masquerade : PortRule → String
dnat_masquerade p = glue (
    "-A "
    ∷ postrouting_chain
    ∷ " -m conntrack --ctstate DNAT"
    ∷ (if p.masquerade_dnat then "" else " -m addrtype --src-type LOCAL")
    ∷ " -d "
    ∷ p.target_ip
    ∷ glue (dport_words p p.target_port)
    ∷ " -j MASQUERADE"
    ∷ [])

unfoldable pub iptables : PortRule → List String
iptables p =
    glue (port_prefix p ∷ " -j MARK --set-mark 4200" ∷ [])
    ∷ glue (port_prefix p ∷ " -j DNAT --to " ∷ p.target_ip ∷ ":" ∷ p.target_port ∷ [])
    ∷ local_dnat p
    ∷ output_dnat p
    ∷ hairpin_masquerade p
    ∷ dnat_masquerade p
    ∷ []

abbrev pub raw_guard : String → List String
raw_guard bridge = glue ("-A " ∷ raw_chain ∷ " -i " ∷ bridge ∷ " -d 127.0.0.0/8 -j DROP" ∷ []) ∷ []

unfoldable pub forward_network : ForwardNetwork → List String
forward_network n =
    glue (
      "-A CATTLE_FORWARD -i " ∷ n.bridge ∷ " -s " ∷ n.subnet
      ∷ " -m conntrack --ctstate NEW,ESTABLISHED,RELATED -j ACCEPT" ∷ [])
    ∷ glue (
        "-A CATTLE_FORWARD -o " ∷ n.bridge ∷ " -d " ∷ n.subnet
        ∷ " -m conntrack --ctstate ESTABLISHED,RELATED -j ACCEPT" ∷ [])
    ∷ []

unfoldable pub forward_shared : ForwardNetwork → List String
forward_shared n =
    glue (
      "-A CATTLE_FORWARD -o " ∷ n.bridge ∷ " -s " ∷ n.subnet ∷ " -d " ∷ n.subnet
      ∷ " -m conntrack --ctstate NEW,ESTABLISHED,RELATED -j ACCEPT" ∷ [])
    ∷ []

unfoldable pub forward_pair : ForwardPair → List String
forward_pair pair =
    glue (
      "-A CATTLE_FORWARD -o " ∷ pair.bridge ∷ " -s " ∷ pair.peer ∷ " -d " ∷ pair.local
      ∷ " -j ACCEPT" ∷ [])
    ∷ []

unfoldable pub forward_port : PortRule → List String
forward_port p =
    glue (
      "-A CATTLE_FORWARD -m conntrack --ctstate DNAT -d "
      ∷ p.target_ip
      ∷ glue (dport_words p p.target_port)
      ∷ " -j ACCEPT"
      ∷ [])
    ∷ []

unfoldable pub raw_lines : RuleSet → List String
unfolding sorted_enabled_bridges sort
raw_lines r =
    "*raw"
    ∷ glue (":" ∷ raw_chain ∷ " -" ∷ [])
    ∷ glue ("-F " ∷ raw_chain ∷ [])
    ∷ (concat_map raw_guard (sorted_enabled_bridges r.route_localnet_bridges) ++ "COMMIT" ∷ "" ∷ [])

-- CATTLE_POSTROUTING is only emptied.
unfoldable pub nat_lines : RuleSet → List String
unfolding iptables port_rules sort
nat_lines r =
    "*nat"
    ∷ ":CATTLE_PREROUTING -"
    ∷ ":CATTLE_POSTROUTING -"
    ∷ ":CATTLE_OUTPUT -"
    ∷ glue (":" ∷ postrouting_chain ∷ " -" ∷ [])
    ∷ "-F CATTLE_PREROUTING"
    ∷ "-F CATTLE_POSTROUTING"
    ∷ "-F CATTLE_OUTPUT"
    ∷ glue ("-F " ∷ postrouting_chain ∷ [])
    ∷ ""
    ∷ (concat_map iptables (port_rules r) ++ "COMMIT" ∷ "" ∷ [])

unfoldable pub filter_lines : RuleSet → List String
unfolding forward_network forward_shared forward_pair forward_port port_rules
    sorted_forward_networks sorted_shared_ingress_networks sorted_forward_peers sort
filter_lines r =
    "*filter"
    ∷ ":CATTLE_FORWARD -"
    ∷ "-F CATTLE_FORWARD"
    ∷ (concat_map forward_network (sorted_forward_networks r)
        ++ (concat_map forward_shared (sorted_shared_ingress_networks r)
            ++ (concat_map forward_pair (sorted_forward_peers r)
                ++ (concat_map forward_port (port_rules r)
                    ++ "-A CATTLE_FORWARD -m mark --mark 0x1068 -j ACCEPT"
                      ∷ "-A CATTLE_FORWARD -m mark --mark 0x4000 -j ACCEPT" ∷ "" ∷ "COMMIT" ∷ []))))

unfoldable pub restore_script : RuleSet → String
unfolding raw_lines nat_lines filter_lines unlines
restore_script r = unlines (raw_lines r ++ (nat_lines r ++ filter_lines r))
