-- ===== src/Tests/Nft.antt =====
-- hostports/nft.go on a host that publishes one port of one network.
use network_plugin_manager.Prelude.{
  ◌≡◌, refl, String, true, false, List, [], ◌∷◌, ◌++◌, map, Result, ok, err, All, length,
}
use network_plugin_manager.Go.Map.{lookup, lookup_or, member, put}
use network_plugin_manager.Go.Sort.{sort}
use network_plugin_manager.Go.Text.{split, all_chars}
use network_plugin_manager.Go.Number.{negsuc, pos, atoi}
use network_plugin_manager.Go.Netip.{parse_addr, parse_prefix}
use network_plugin_manager.HostNat.Check.{absent, decoded}
use network_plugin_manager.HostPorts.{PortRule, RuleSet, Error, chain_incomplete}
use network_plugin_manager.HostPorts.Parse.{validate_bridge_name, validate_port_rule, valid_port}
use network_plugin_manager.HostPorts.Rules.{validate_rule_set}
use network_plugin_manager.HostPorts.Nft.{
  nft_hostports_table, nft_hostport_batch, nft_batch_lines, Chain, nft_chains,
}
use network_plugin_manager.HostPorts.Nft.Whole.{nft_hostport_batch-lines}
use network_plugin_manager.HostPorts.Nft.Check.{
  Base, accepting, Item, Table, listed, check_nft_rules,
}
use network_plugin_manager.HostPorts.Nft.Clean.{ArePlain}
use network_plugin_manager.HostPorts.Nft.Check.Sound.{IsThere}
use network_plugin_manager.HostPorts.Nft.Check.Whole.{check_nft_rules_sound}

abbrev web : PortRule
web = record {
  bridge = "docker0";
  source_ip = "0.0.0.0";
  source_port = "80";
  target_ip = "10.42.0.9";
  target_port = "8080";
  protocol = "tcp";
  masquerade_dnat = false;
}

abbrev rules : RuleSet
rules = record {
  ports = ("c1/80:8080/tcp", web) ∷ [];
  forward_subnets = ("a", "10.42.0.0/16") ∷ [];
  forward_bridges = ("a", "docker0") ∷ [];
  forward_peers = [];
  shared_ingress = [];
  route_localnet_bridges = ("docker0", true) ∷ [];
}

run_rules : RuleSet → Result Error (Unit {0})
unfolding validate_rule_set validate_port_rule validate_bridge_name valid_port atoi all_chars
    parse_addr parse_prefix lookup lookup_or
run_rules r = validate_rule_set r

rules_valid : validate_rule_set rules ≡ ok tt
unfolding run_rules
rules_valid = refl

nft_hostport_batch-lines_example :
    (split b'\n' (nft_hostport_batch rules true) ≡ nft_batch_lines rules true ++ "" ∷ [])
    × ArePlain rules
unfolding lookup
nft_hostport_batch-lines_example = nft_hostport_batch-lines rules true (refl, tt) rules_valid

run_chains : RuleSet → List Chain
unfolding nft_chains lookup lookup_or member sort
run_chains r = nft_chains r

rules_written : map (λ c. length c.rules) (nft_chains rules) ≡ 1 ∷ 2 ∷ 1 ∷ 3 ∷ 5 ∷ []
unfolding run_chains
rules_written = refl

abbrev chain : String → Base → Item
chain name base = record {
  chain = decoded (record { family = "ip"; table = nft_hostports_table; name = name; base = base });
  rule = absent;
}

abbrev rule : String → Item
rule name = record {
  chain = absent;
  rule = decoded (record { family = "ip"; table = nft_hostports_table; chain = name });
}

-- What nft lists right after the batch was loaded.
abbrev items : List Item
items =
    chain "raw_prerouting" (accepting "filter" "prerouting" (negsuc 299))
    ∷ rule "raw_prerouting"
    ∷ chain "prerouting" (accepting "nat" "prerouting" (negsuc 100))
    ∷ rule "prerouting"
    ∷ rule "prerouting"
    ∷ chain "output" (accepting "nat" "output" (negsuc 100))
    ∷ rule "output"
    ∷ chain "postrouting" (accepting "nat" "postrouting" (pos 99))
    ∷ rule "postrouting"
    ∷ rule "postrouting"
    ∷ rule "postrouting"
    ∷ chain "forward" (accepting "filter" "forward" (negsuc 0))
    ∷ rule "forward"
    ∷ rule "forward"
    ∷ rule "forward"
    ∷ rule "forward"
    ∷ rule "forward"
    ∷ []

run_check : Table → RuleSet → Result Error (Unit {0})
unfolding check_nft_rules lookup lookup_or member put sort
run_check t r = check_nft_rules t r

table_accepted : check_nft_rules (listed items) rules ≡ ok tt
unfolding run_check
table_accepted = refl

-- A chain that was flushed is noticed.
flush_noticed :
    check_nft_rules
      (listed (chain "raw_prerouting" (accepting "filter" "prerouting" (negsuc 299)) ∷ []))
      rules
    ≡ err chain_incomplete
unfolding run_check
flush_noticed = refl

check_nft_rules_sound_example : All (IsThere items) (nft_chains rules)
unfolding lookup
check_nft_rules_sound_example = check_nft_rules_sound items rules (refl, tt) table_accepted
