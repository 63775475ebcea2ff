-- ===== src/Tests/Watch.antt =====
-- hostports/watcher.go on a host with one container, whose port is published on every address.
use network_plugin_manager.Prelude.{
  ◌≡◌, ◌≢◌, refl, String, Bool, true, false, none, some, List, [], ◌∷◌, ok, arith,
}
use network_plugin_manager.Go.Map.{member, lookup, lookup_or, put}
use network_plugin_manager.Go.Sort.{sort}
use network_plugin_manager.Go.Text.{split, all_chars, contains, after, strip_prefix, cut, fields}
use network_plugin_manager.Go.Number.{atoi}
use network_plugin_manager.Go.Netip.{parse_addr, parse_prefix}
use network_plugin_manager.Metadata.{
  text, object, field, end, Host, Network, Container, Client, cni_config,
}
use network_plugin_manager.HostLabel.{resolve, is_reference}
use network_plugin_manager.Firewall.{Backend, nftables}
use network_plugin_manager.Identity.{Docker, local_host, find_host}
use network_plugin_manager.HostPorts.Parse.{
  valid_port, validate_bridge_name, validate_port_rule, parse_port_rule,
}
use network_plugin_manager.HostPorts.Bridge.{bridge_config_for_network, is_bridge_cni_type}
use network_plugin_manager.HostPorts.Rules.{validate_rule_set}
use network_plugin_manager.HostPorts.Build.{no_rules, build_rule_set}
use network_plugin_manager.HostPorts.Localnet.Invariant.{Shields}
use network_plugin_manager.HostPorts.Apply.{Answers, bridges_of, apply}
use network_plugin_manager.HostPorts.Watch.{Round, Machine}
use network_plugin_manager.HostPorts.Watch.History.{Event, start, change, stop, history, fresh}
use network_plugin_manager.HostPorts.Watch.History.Protection.{
  history-Shields, history_owned, apply_restores,
}

abbrev host : Host
host = record { agent_ip = "192.0.2.1"; labels = []; state = "active"; uuid = "a" }

abbrev web : Container
web = record {
  external_id = "c1";
  host_uuid = "a";
  labels = [];
  name = "web";
  network_uuid = "n";
  ports = "0.0.0.0:80:8080/tcp" ∷ [];
  primary_ip = "10.42.0.9";
  primary_mac_address = "";
  service_name = "web";
  stack_name = "shop";
  state = "running";
  system = false;
  uuid = "u1";
}

abbrev network : Network
network = record {
  is_default = true;
  host_ports = true;
  metadata =
      (
        "cniConfig",
        object (
            field "10-bridge.conf"
              (object (
                field "type" (text "rancher-bridge") (
                  field "bridge" (text "docker0")
                    (field "bridgeSubnet" (text "10.42.0.0/16") end))))
              end),
      )
      ∷ [];
  name = "ipsec";
  uuid = "n";
}

abbrev client : Client
client = record {
  containers = some (web ∷ []);
  hosts = some (host ∷ []);
  networks = some (network ∷ []);
  self_host = none;
  services = some (
      record {
        containers = record web { external_id = "m1"; uuid = "m" } ∷ [];
        name = "manager";
        stack_uuid = "s";
      }
      ∷ []);
}

abbrev docker : Docker
docker = record {
  mountinfo = some "1 2 /var/lib/docker/containers/m1/hostname /etc/hostname rw";
  inspect =
      λ id. some (record { labels = some (("io.rancher.container.uuid", "m") ∷ []); id = id });
}

abbrev answers : Answers
answers = record {
  oracle = λ trace a. true;
  now = 1000;
  tables = some "table ip nat";
  forward = none;
  committed = false;
}

abbrev round : Round
round = record { answers = answers; client = client; docker = docker; address = λ id subnet. none }

abbrev backend : Backend
backend = record { mode = nftables; command = ""; restore = "" }

abbrev all_off : String → Bool
all_off bridge = false

-- A watcher publishes the port, and its successor starts from the file.
abbrev events : List Event
events = start true ∷ change round ∷ stop ∷ start true ∷ []

run_history : List Event → Machine
unfolding history apply build_rule_set lookup lookup_or put sort cni_config resolve is_reference
    bridge_config_for_network parse_port_rule is_bridge_cni_type valid_port validate_bridge_name
    validate_port_rule atoi all_chars parse_addr parse_prefix split validate_rule_set local_host
    contains after strip_prefix cut find_host fields member
run_history es = history es (fresh backend all_off)

opened : (history events (fresh backend all_off)).world.state.localnet "docker0" ≡ true
unfolding run_history
opened = refl

guarded : (history events (fresh backend all_off)).world.state.guard ≡ some ("docker0" ∷ [])
unfolding run_history
guarded = refl

history-Shields_example :
    Shields ((history events (fresh backend all_off)).world.state.guard) "docker0"
history-Shields_example = history-Shields backend all_off events "docker0" opened refl

changed :
    (history events (fresh backend all_off)).world.state.localnet "docker0" ≢ all_off "docker0"
changed e = ground (arith, opened, e)

history_owned_example :
    lookup "docker0" ((history events (fresh backend all_off)).world.state.saved) ≡ some false
history_owned_example = history_owned backend all_off events "docker0" changed

-- The container is gone.
withdrawn : (apply answers no_rules (history events (fresh backend all_off)).world).1 ≡ ok tt
unfolding run_history
withdrawn = refl

not_named : member "docker0" (bridges_of no_rules) ≡ false
unfolding run_history
not_named = refl

apply_restores_example :
    ((apply answers no_rules (history events (fresh backend all_off)).world).0.state.localnet
        "docker0"
      ≡ false)
    × ((apply answers no_rules (history events (fresh backend all_off)).world).0.state.guard
        ≡ some (bridges_of no_rules))
    × ((apply answers no_rules (history events (fresh backend all_off)).world).0.state.applied
        ≡ no_rules)
apply_restores_example =
    apply_restores backend all_off events answers no_rules "docker0" withdrawn not_named
