-- ===== src/Tests/HostNat.antt =====
-- hostnat/watcher.go and identity/identity.go on a host with one network and one IPsec container.
use network_plugin_manager.Prelude.{
  All, ◌≡◌, ◌≢◌, ◌↔◌, refl, String, true, false, none, some, List, [], ◌∷◌, ◌++◌, Result, ok,
  length, arith, eq_iff,
}
use network_plugin_manager.Go.Map.{lookup, put}
use network_plugin_manager.Go.Text.{split, contains, all_chars, after, strip_prefix, cut}
use network_plugin_manager.Go.Netip.{parse_addr, parse_prefix}
use network_plugin_manager.Metadata.{
  text, bool, object, field, end, Host, Network, Container, Client, cni_config,
}
use network_plugin_manager.HostLabel.{resolve, is_reference}
use network_plugin_manager.Firewall.{Backend, nftables}
use network_plugin_manager.Effects.{load_script, Oracle}
use network_plugin_manager.Effects.Guard.{Guarded}
use network_plugin_manager.Identity
use network_plugin_manager.Identity.{
  Docker, Inspection, local_host, local_host_uuid, local_host_uuid_from_docker_labels, find_host,
  current_container_id,
}
use network_plugin_manager.Identity.Trust.{local_host-uuid, local_host-ignores_self}
use network_plugin_manager.Conntrack.{CtEntry}
use network_plugin_manager.Conntrack.Parse.{parse_multiple_entries}
use network_plugin_manager.Conntrack.Sync.{do_sync}
use network_plugin_manager.Conntrack.Sync.Deleted.{IsJustified, do_sync-IsJustified}
use network_plugin_manager.HostNat.{IkePortSnatRule, RuleSet, Error}
use network_plugin_manager.HostNat.Validate.{validate_nat_rules}
use network_plugin_manager.HostNat.Script.{
  nft_nat_table, nft_header, nft_rule_lines, nft_nat_script,
}
use network_plugin_manager.Go.Text.Lines.{IsPlain}
use network_plugin_manager.HostNat.Script.Lines.{IsGoMaps, AreMade, nft_nat_script-lines}
use network_plugin_manager.HostNat.Check.{check_native_state, want_rules}
use network_plugin_manager.HostNat.Check.Written.{chain_listing, check_native_state_iff}
use network_plugin_manager.HostNat.Build.{build_rules}
use network_plugin_manager.HostNat.Build.Built.{IsBuilt, build_rules-IsBuilt}
use network_plugin_manager.HostNat.Apply.{applied_rules, apply}
use network_plugin_manager.HostNat.Apply.Keeps.{IsScript}
use network_plugin_manager.HostNat.Apply.Atomic.{IsAtomic, apply-IsAtomic}
use network_plugin_manager.HostNat.History.{Event, change, tick, history, start, history-Guarded}

abbrev host_a : Host
host_a = record { agent_ip = "192.0.2.1"; labels = []; state = "active"; uuid = "a" }

abbrev host_b : Host
host_b = record { agent_ip = "192.0.2.2"; labels = []; state = "active"; uuid = "b" }

abbrev ipsec : Container
ipsec = record {
  external_id = "c1";
  host_uuid = "a";
  labels = [];
  name = "ipsec-1";
  network_uuid = "n";
  ports = [];
  primary_ip = "10.42.0.9";
  primary_mac_address = "";
  service_name = "ipsec";
  stack_name = "ipsec";
  state = "running";
  system = false;
  uuid = "u1";
}

abbrev manager : Container
manager = record ipsec {
  external_id = "m1";
  name = "manager";
  service_name = "manager";
  uuid = "m";
}

abbrev network_n : Network
network_n = record {
  is_default = true;
  host_ports = true;
  metadata =
      (
        "cniConfig",
        object (
            field "10-bridge.conf"
              (object (
                field "type" (text "rancher-bridge") (
                  field "bridge" (text "docker0") (
                    field "bridgeSubnet" (text "10.42.0.0/16") (field "hostNat" (bool true) end)))))
              end),
      )
      ∷ [];
  name = "ipsec";
  uuid = "n";
}

-- The metadata takes the manager to be on the other host.
abbrev client : Client
client = record {
  containers = some (ipsec ∷ []);
  hosts = some (host_a ∷ host_b ∷ []);
  networks = some (network_n ∷ []);
  self_host = some host_b;
  services = some (record { containers = manager ∷ []; name = "manager"; stack_uuid = "s" } ∷ []);
}

abbrev docker : Docker
docker = record {
  mountinfo = some "1 2 /var/lib/docker/containers/m1/hostname /etc/hostname rw";
  inspect =
      λ id. some (record { labels = some (("io.rancher.container.uuid", "m") ∷ []); id = id });
}

run_identity : Client → Docker → Result Identity.Error String
unfolding local_host_uuid contains after strip_prefix cut split lookup find_host local_host
run_identity c d = local_host_uuid c d

manager_on_a : local_host client docker ≡ ok host_a
unfolding run_identity
manager_on_a = refl

labels_say_a : local_host_uuid_from_docker_labels client docker ≡ ok "a"
unfolding run_identity
labels_say_a = refl

a_found : find_host "a" (host_a ∷ host_b ∷ []) ≡ some host_a
unfolding run_identity
a_found = refl

a_not_empty : ◌≢◌ {A = String} "a" ""
a_not_empty = ground (arith, eq_iff "a" "")

manager_has_uuid_a : local_host_uuid client docker ≡ ok "a"
manager_has_uuid_a = local_host-uuid client docker host_a manager_on_a

manager_on_a_without_self :
    (local_host client docker ≡ ok host_a)
    × (local_host (record client { self_host = none }) docker ≡ ok host_a)
manager_on_a_without_self =
    local_host-ignores_self client docker none "a" (host_a ∷ host_b ∷ []) host_a labels_say_a
      a_not_empty refl a_found

abbrev ike_of : String → IkePortSnatRule
ike_of port = record {
  source_ip = "10.42.0.9";
  host_ip = "192.0.2.1";
  bridge = "docker0";
  port = port;
}

abbrev rules : RuleSet
rules = record {
  masq = ("n", record { subnet = "10.42.0.0/16"; bridge = "docker0"; peers = [] }) ∷ [];
  ike = ("c1/4500", ike_of "4500") ∷ ("c1/500", ike_of "500") ∷ [];
}

run_build : Client → Host → Result Error RuleSet
unfolding build_rules lookup put cni_config resolve is_reference
run_build c host = build_rules c host

rules_built : build_rules client host_a ≡ ok rules
unfolding run_build
rules_built = refl

build_rules-IsBuilt_example : IsBuilt client host_a rules
build_rules-IsBuilt_example = build_rules-IsBuilt client host_a rules rules_built

rules_maps : IsGoMaps rules
unfolding lookup
rules_maps = record { masq = (refl, tt); ike = (refl, (refl, tt)) }

run_validate : RuleSet → Result Error (Unit {0})
unfolding validate_nat_rules all_chars parse_addr parse_prefix
run_validate r = validate_nat_rules r

rules_valid : validate_nat_rules rules ≡ ok tt
unfolding run_validate
rules_valid = refl

nft_nat_script-lines_example :
    (split b'\n' (nft_nat_script rules)
      ≡ (nft_header nft_nat_table ++ nft_rule_lines rules nft_nat_table) ++ "" ∷ [])
    × ((length (nft_rule_lines rules nft_nat_table) ≡ want_rules rules) × AreMade IsPlain rules)
nft_nat_script-lines_example = nft_nat_script-lines rules rules_maps rules_valid

six_wanted : want_rules rules ≡ 6
unfolding want_rules
six_wanted = refl

check_native_state_iff_example :
    (check_native_state (chain_listing 6) rules ≡ ok tt)
    ↔ (6 ≡ length (nft_rule_lines rules nft_nat_table))
check_native_state_iff_example = check_native_state_iff rules 6 rules_maps

abbrev native : Backend
native = record { mode = nftables; command = "nft"; restore = "" }

-- Everything succeeds but the loading of scripts.
abbrev no_loading : Oracle
no_loading before (load_script name script) = false
no_loading before _ = true

abbrev all_well : Oracle
all_well before a = true

abbrev events : List Event
events =
    change no_loading 100 client docker none
    ∷ change all_well 105 client docker none
    ∷ tick all_well 135 (chain_listing 5)
    ∷ []

history-Guarded_example :
    Guarded IsScript (history events (start native)).trace
    × (validate_nat_rules (applied_rules (history events (start native)).state) ≡ ok tt)
history-Guarded_example = history-Guarded native events

apply-IsAtomic_example : IsAtomic rules 100 (apply no_loading 100 rules)
apply-IsAtomic_example = apply-IsAtomic rules 100 no_loading

-- Port 80 of the host leads to the container of IPsec, but a connection is still led to another address.
abbrev publishing : Client
publishing = record client {
  containers = some (record ipsec { ports = "192.0.2.1:80:8080/tcp" ∷ [] } ∷ []);
}

abbrev old_connection : CtEntry
old_connection = record {
  protocol = "tcp";
  original_source_ip = "198.51.100.7";
  original_destination_ip = "192.0.2.1";
  original_source_port = "4000";
  original_destination_port = "80";
  reply_source_ip = "10.42.0.8";
  reply_destination_ip = "198.51.100.7";
  reply_source_port = "8080";
  reply_destination_port = "4000";
  unreplied = false;
  assured = true;
}

run_parse : String → List CtEntry
unfolding parse_multiple_entries
run_parse s = parse_multiple_entries s

connection_printed :
    run_parse
      "tcp 6 431999 ESTABLISHED src=198.51.100.7 dst=192.0.2.1 sport=4000 dport=80 src=10.42.0.8 dst=198.51.100.7 sport=8080 dport=4000 [ASSURED] mark=0 use=1\n"
    ≡ old_connection ∷ []
unfolding run_parse
connection_printed = refl

deleted : List CtEntry
unfolding do_sync run_identity
deleted = (do_sync publishing docker (some (old_connection ∷ [])) (some [])).0

one_deleted : deleted ≡ old_connection ∷ []
unfolding deleted
one_deleted = refl

manager_on_a_publishing : local_host publishing docker ≡ ok host_a
unfolding run_identity
manager_on_a_publishing = refl

do_sync-IsJustified_example :
    All
      (IsJustified host_a (record ipsec { ports = "192.0.2.1:80:8080/tcp" ∷ [] } ∷ []))
      (do_sync publishing docker (some (old_connection ∷ [])) (some [])).0
do_sync-IsJustified_example =
    do_sync-IsJustified publishing docker (some (old_connection ∷ [])) (some []) host_a
      (record ipsec { ports = "192.0.2.1:80:8080/tcp" ∷ [] } ∷ []) manager_on_a_publishing refl
