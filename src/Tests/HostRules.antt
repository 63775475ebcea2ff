-- ===== src/Tests/HostRules.antt =====
-- The rules of hostports/watcher.go for a container that publishes a port.
use network_plugin_manager.Prelude.{
  ℕ, ◌≡◌, refl, String, true, false, Option, none, some, ◌↔◌, List, [], ◌∷◌, Result, ok, All,
}
use network_plugin_manager.Go.Map.{Distinct, lookup, lookup_or, put}
use network_plugin_manager.Go.Sort.{sort}
use network_plugin_manager.Go.Text.{split, all_chars}
use network_plugin_manager.Go.Number.{atoi}
use network_plugin_manager.Go.Netip.{Prefix, parse_addr, parse_prefix}
use network_plugin_manager.Metadata.{
  text, object, field, end, Host, Network, Container, Client, cni_config,
}
use network_plugin_manager.HostLabel.{resolve, is_reference}
use network_plugin_manager.HostNat.Build.{networks_by_uuid}
use network_plugin_manager.HostPorts.{RuleSet, Error}
use network_plugin_manager.HostPorts.Parse.{
  valid_port, validate_bridge_name, validate_port_rule, parse_port_rule,
}
use network_plugin_manager.HostPorts.Bridge.{bridge_config_for_network, is_bridge_cni_type}
use network_plugin_manager.HostPorts.Address.{
  Address, no_ip_net, ipv6, ipv4, IsOnlyAddress, select_container_ipv4, select_container_ipv4_iff,
}
use network_plugin_manager.HostPorts.Build.{build_rule_set}
use network_plugin_manager.HostPorts.Build.Published.{IsPublished, build_rule_set-ArePublished}

abbrev host : Host
host = record { agent_ip = "192.0.2.1"; labels = []; state = "active"; uuid = "a" }

abbrev web : Container
web = record {
  external_id = "c1";
  host_uuid = "a";
  labels = [];
  name = "web";
  network_uuid = "n";
  ports = "0.0.0.0:80:8080/tcp" ∷ [];
  primary_ip = "10.42.0.9";
  primary_mac_address = "";
  service_name = "web";
  stack_name = "shop";
  state = "running";
  system = false;
  uuid = "u1";
}

-- Another host's, and one that is stopped, publish nothing here.
abbrev containers : List Container
containers =
    web
    ∷ record web { external_id = "c2"; host_uuid = "b" }
    ∷ record web { external_id = "c3"; state = "stopped" }
    ∷ []

abbrev network : Network
network = record {
  is_default = true;
  host_ports = true;
  metadata =
      (
        "cniConfig",
        object (
            field "10-bridge.conf"
              (object (
                field "type" (text "rancher-bridge") (
                  field "bridge" (text "docker0")
                    (field "bridgeSubnet" (text "10.42.0.0/16") end))))
              end),
      )
      ∷ [];
  name = "ipsec";
  uuid = "n";
}

abbrev client : Client
client = record {
  containers = some containers;
  hosts = some (host ∷ []);
  networks = some (network ∷ []);
  self_host = none;
  services = none;
}

abbrev rules : RuleSet
rules = record {
  ports =
      (
        "c1/0.0.0.0:80:8080/tcp",
        record {
          bridge = "docker0";
          source_ip = "0.0.0.0";
          source_port = "80";
          target_ip = "10.42.0.9";
          target_port = "8080";
          protocol = "tcp";
          masquerade_dnat = false;
        },
      )
      ∷ [];
  forward_subnets = ("n", "10.42.0.0/16") ∷ [];
  forward_bridges = ("n", "docker0") ∷ [];
  forward_peers = [];
  shared_ingress = [];
  route_localnet_bridges = ("docker0", true) ∷ [];
}

abbrev no_address_read : String → String → Option String
no_address_read id subnet = none

run_build : (String → String → Option String) → Client → Host → Result Error RuleSet
unfolding build_rule_set lookup lookup_or put sort cni_config resolve is_reference
    bridge_config_for_network parse_port_rule is_bridge_cni_type valid_port validate_bridge_name
    validate_port_rule atoi all_chars parse_addr parse_prefix split
run_build address c h = build_rule_set address c h

rules_built : build_rule_set no_address_read client host ≡ ok rules
unfolding run_build
rules_built = refl

build_rule_set-ArePublished_example :
    Distinct rules.ports
    × All (IsPublished host (networks_by_uuid (network ∷ []) []) containers) rules.ports
build_rule_set-ArePublished_example =
    build_rule_set-ArePublished no_address_read client host (network ∷ []) containers rules refl
      refl rules_built

abbrev managed : Prefix
managed = record { addr = 0x0a2a0000; bits = 16 }

-- 127.0.0.1, 10.42.0.9 twice, and 10.43.0.9, which is outside
abbrev addresses : List Address
addresses =
    ipv4 0x7f000001 ∷ ipv6 ∷ ipv4 0x0a2a0009 ∷ no_ip_net ∷ ipv4 0x0a2b0009 ∷ ipv4 0x0a2a0009 ∷ []

run_select : List Address → Prefix → Option ℕ
unfolding select_container_ipv4
run_select xs p = select_container_ipv4 xs p

address_selected : run_select addresses managed ≡ some 0x0a2a0009
unfolding run_select
address_selected = refl

select_container_ipv4_iff_example :
    (select_container_ipv4 addresses managed ≡ some 0x0a2a0009)
    ↔ IsOnlyAddress managed addresses 0x0a2a0009
select_container_ipv4_iff_example = select_container_ipv4_iff addresses managed 0x0a2a0009
