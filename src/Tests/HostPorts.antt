-- ===== src/Tests/HostPorts.antt =====
-- hostports/watcher.go on one port definition and on a network of two CNI entries.
use mathlib.Core.List.{Permᴰ}
use network_plugin_manager.Prelude.{
  ◌≡◌, refl, inr, String, true, false, [], ◌∷◌, Option, none, some, Result, ok,
}
use network_plugin_manager.Go.Map.{Map, Distinct, lookup, member, keys}
use network_plugin_manager.Go.Text.{split, all_chars}
use network_plugin_manager.Go.Number.{atoi, digits}
use network_plugin_manager.Go.Netip.{parse_addr}
use network_plugin_manager.Go.Sort.{sort}
use network_plugin_manager.Metadata.{Json, text, bool, object, field, end, as_object}
use network_plugin_manager.HostLabel.{is_reference}
use network_plugin_manager.HostPorts.{PortRule, Error}
use network_plugin_manager.HostPorts.Parse.{
  parse_port_rule, validate_port_rule, validate_bridge_name, valid_port, is_protocol,
}
use network_plugin_manager.HostPorts.Parse.Laws.{
  IsPublishable, IsSafeRule, parse_port_rule_sound, port_def, parse_port_rule-port_def,
}
use network_plugin_manager.HostPorts.Bridge.{
  BridgeConfig, bridge_config, candidate_of, is_bridge_cni_type, is_bridge_entry,
}
use network_plugin_manager.HostPorts.Bridge.Agreement.{bridge_config-perm, bridge_config-agrees}

abbrev web : PortRule
web = record {
  bridge = "docker0";
  source_ip = "0.0.0.0";
  source_port = "8080";
  target_ip = "10.42.0.7";
  target_port = "80";
  protocol = "tcp";
  masquerade_dnat = false;
}

run_parse : String → Option PortRule
unfolding parse_port_rule validate_port_rule validate_bridge_name valid_port split all_chars atoi
    digits parse_addr
run_parse def = parse_port_rule "docker0" "10.42.0.7" def

web_parsed : parse_port_rule "docker0" "10.42.0.7" "0.0.0.0:8080:80/tcp" ≡ some web
unfolding run_parse
web_parsed = refl

-- Port 0 is refused.
zero_refused : parse_port_rule "docker0" "10.42.0.7" "0.0.0.0:8080:0" ≡ none
unfolding run_parse
zero_refused = refl

parse_port_rule_sound_example : IsSafeRule web
parse_port_rule_sound_example =
    parse_port_rule_sound "docker0" "10.42.0.7" "0.0.0.0:8080:80/tcp" web web_parsed

web-IsPublishable : IsPublishable web
unfolding run_parse is_protocol
web-IsPublishable = record {
  bridge = inr refl;
  source = refl;
  target = refl;
  source_port = refl;
  target_port = refl;
  protocol = refl;
}

parse_port_rule-port_def_example :
    parse_port_rule "docker0" "10.42.0.7" (port_def "0.0.0.0" "8080" "80" "tcp") ≡ some web
parse_port_rule-port_def_example = parse_port_rule-port_def web web-IsPublishable refl

abbrev bridge_entry : Json
bridge_entry = object (
    field "type" (text "rancher-bridge") (
      field "bridge" (text "docker0")
        (field "bridgeSubnet" (text "10.42.0.0/16") (field "hostNat" (bool true) end))))

abbrev other_entry : Json
other_entry = object (field "type" (text "portmap") end)

abbrev conf : Map Json
conf = ("10-bridge.conf", bridge_entry) ∷ ("20-portmap.conf", other_entry) ∷ []

abbrev conf_swapped : Map Json
conf_swapped = ("20-portmap.conf", other_entry) ∷ ("10-bridge.conf", bridge_entry) ∷ []

abbrev docker0 : BridgeConfig
docker0 = record {
  bridge = "docker0";
  subnet = "10.42.0.0/16";
  external_gateway = false;
  shared_ingress = true;
}

run_bridge : Map Json → Result Error BridgeConfig
unfolding bridge_config is_bridge_cni_type lookup member sort is_reference candidate_of
run_bridge m = bridge_config m

conf_chosen : bridge_config conf ≡ ok docker0
unfolding run_bridge
conf_chosen = refl

conf-Distinct : Distinct conf
unfolding lookup
conf-Distinct = (refl, (refl, tt))

bridge_config-perm_example : bridge_config conf ≡ bridge_config conf_swapped
bridge_config-perm_example =
    bridge_config-perm {m = conf} {n = conf_swapped} (Permᴰ.swap refl refl) conf-Distinct

entry_is_bridge : is_bridge_entry (as_object (lookup "10-bridge.conf" conf)) ≡ true
unfolding run_bridge
entry_is_bridge = refl

entry_member : member "10-bridge.conf" (keys conf) ≡ true
unfolding run_bridge
entry_member = refl

bridge_config-agrees_example : candidate_of (as_object (lookup "10-bridge.conf" conf)) ≡ ok docker0
bridge_config-agrees_example =
    bridge_config-agrees conf docker0 "10-bridge.conf" conf_chosen entry_member entry_is_bridge
