-- ===== src/HostNat/Script.antt =====
-- The texts that hostnat/watcher.go hands to nft and to iptables-restore.
pub mod Clean
pub mod Lines
use network_plugin_manager.Prelude.{
  ℕ, String, Bool, List, [], ◌∷◌, ◌++◌, map, ◌==◌, ◌<>◌, if◌then◌else◌,
}
use network_plugin_manager.Go.Text.{unlines}
use network_plugin_manager.Go.Text.Lines.{glue, concat_map}
use network_plugin_manager.Go.Map.{Map, keys}
use network_plugin_manager.Go.Map.Values.{read_at}
use network_plugin_manager.Go.Sort.{sort}
use network_plugin_manager.HostNat.{MasqRule, IkePortSnatRule, RuleSet, no_masq, no_ike}

-- The rules in the order of their sorted keys
unfoldable pub ike_rules : RuleSet → List IkePortSnatRule
ike_rules rules = read_at no_ike rules.ike (sort (keys rules.ike))

unfoldable pub masq_rules : RuleSet → List MasqRule
masq_rules rules = read_at no_masq rules.masq (sort (keys rules.masq))

abbrev pub nft_nat_table : String
nft_nat_table = "pasturestack_hostnat"

abbrev pub nft_header : String → List String
nft_header table =
    glue ("add table ip " ∷ table ∷ [])
    ∷ glue (
        "add chain ip " ∷ table
        ∷ " postrouting { type nat hook postrouting priority 99; policy accept; }" ∷ [])
    ∷ glue ("flush chain ip " ∷ table ∷ " postrouting" ∷ [])
    ∷ []

-- A rule of the table, with what it says behind the chain
abbrev pub add_rule : String → List String → String
add_rule table ws = glue ("add rule ip " ∷ table ∷ " postrouting " ∷ ws)

abbrev pub nft_exception : String → String
nft_exception bridge = if bridge == "" then "" else glue (" oifname != \"" ∷ bridge ∷ "\"" ∷ [])

abbrev pub nft_ike_words : IkePortSnatRule → List String
nft_ike_words rule =
    "ip saddr "
    ∷ rule.source_ip
    ∷ " udp sport "
    ∷ rule.port
    ∷ nft_exception rule.bridge
    ∷ " snat to "
    ∷ rule.host_ip
    ∷ ":"
    ∷ rule.port
    ∷ []

unfoldable pub nft_ike : String → IkePortSnatRule → List String
nft_ike table rule = add_rule table (nft_ike_words rule) ∷ []

abbrev pub nft_peer_words : MasqRule → String → List String
nft_peer_words rule peer = "ip saddr " ∷ rule.subnet ∷ " ip daddr " ∷ peer ∷ " return" ∷ []

abbrev pub nft_leaving_words : MasqRule → String → List String
nft_leaving_words rule rest =
    "ip saddr " ∷ rule.subnet ∷ " ip daddr != " ∷ rule.subnet ∷ " oifname != \"" ∷ rule.bridge
    ∷ "\"" ∷ rest ∷ []

abbrev pub nft_local_words : MasqRule → List String
nft_local_words rule =
    "oifname \"" ∷ rule.bridge ∷ "\" fib saddr type local fib daddr type unicast masquerade" ∷ []

abbrev pub nft_peer : String → MasqRule → String → String
nft_peer table rule peer = add_rule table (nft_peer_words rule peer)

unfoldable pub nft_masq : String → MasqRule → List String
nft_masq table rule =
    map (nft_peer table rule) rule.peers
    ++ (add_rule table (nft_leaving_words rule " meta l4proto tcp masquerade to :1024-65535")
        ∷ add_rule table (nft_leaving_words rule " meta l4proto udp masquerade to :1024-65535")
        ∷ add_rule table (nft_leaving_words rule " masquerade")
        ∷ add_rule table (nft_local_words rule)
        ∷ [])

unfoldable pub nft_rule_lines : RuleSet → String → List String
unfolding ike_rules masq_rules nft_ike nft_masq sort
nft_rule_lines rules table =
    concat_map (nft_ike table) (ike_rules rules) ++ concat_map (nft_masq table) (masq_rules rules)

unfoldable pub nft_nat_script_for_table : RuleSet → String → String
unfolding nft_rule_lines unlines
nft_nat_script_for_table rules table = unlines (nft_header table ++ nft_rule_lines rules table)

unfoldable pub nft_nat_script : RuleSet → String
unfolding nft_nat_script_for_table
nft_nat_script rules = nft_nat_script_for_table rules nft_nat_table

unfoldable pub nft_nat_replace_script : RuleSet → String
unfolding nft_nat_script
nft_nat_replace_script rules =
    glue ("delete table ip " ∷ nft_nat_table ∷ "\n" ∷ []) <> nft_nat_script rules

abbrev pub nat_chain : String
nat_chain = "CATTLE_NAT_POSTROUTING"

-- A rule of the chain, with what it says behind it
abbrev pub append_rule : List String → String
append_rule ws = glue ("-A " ∷ nat_chain ∷ ws)

abbrev pub iptables_exception : String → String
iptables_exception bridge = if bridge == "" then "" else glue (" ! -o " ∷ bridge ∷ [])

abbrev pub iptables_ike_words : IkePortSnatRule → List String
iptables_ike_words rule =
    " -p udp -m udp -s "
    ∷ rule.source_ip
    ∷ "/32 --sport "
    ∷ rule.port
    ∷ iptables_exception rule.bridge
    ∷ " -j SNAT --to-source "
    ∷ rule.host_ip
    ∷ ":"
    ∷ rule.port
    ∷ []

unfoldable pub iptables_ike : IkePortSnatRule → List String
iptables_ike rule = append_rule (iptables_ike_words rule) ∷ []

abbrev pub iptables_peer_words : MasqRule → String → List String
iptables_peer_words rule peer = " -s " ∷ rule.subnet ∷ " -d " ∷ peer ∷ " -j RETURN" ∷ []

abbrev pub iptables_leaving_words : MasqRule → String → String → List String
iptables_leaving_words rule protocol ports =
    protocol ∷ " -s " ∷ rule.subnet ∷ " ! -d " ∷ rule.subnet ∷ " ! -o " ∷ rule.bridge
    ∷ " -j MASQUERADE" ∷ ports ∷ []

abbrev pub iptables_local_words : MasqRule → List String
iptables_local_words rule =
    " -o " ∷ rule.bridge ∷ " -m addrtype --src-type LOCAL --dst-type UNICAST -j MASQUERADE" ∷ []

abbrev pub iptables_peer : MasqRule → String → String
iptables_peer rule peer = append_rule (iptables_peer_words rule peer)

unfoldable pub iptables_masq : MasqRule → List String
iptables_masq rule =
    map (iptables_peer rule) rule.peers
    ++ (append_rule (iptables_leaving_words rule " -p tcp" " --to-ports 1024-65535")
        ∷ append_rule (iptables_leaving_words rule " -p udp" " --to-ports 1024-65535")
        ∷ append_rule (iptables_leaving_words rule "" "")
        ∷ append_rule (iptables_local_words rule)
        ∷ [])

abbrev pub restore_header : List String
restore_header =
    "*nat" ∷ glue (":" ∷ nat_chain ∷ " -" ∷ []) ∷ glue ("-F " ∷ nat_chain ∷ []) ∷ "" ∷ []

unfoldable pub restore_rule_lines : RuleSet → List String
unfolding ike_rules masq_rules iptables_ike iptables_masq sort
restore_rule_lines rules =
    concat_map iptables_ike (ike_rules rules) ++ concat_map iptables_masq (masq_rules rules)

-- What `apply` writes for iptables-restore. There the newline in front of a rule ends the line before.
unfoldable pub restore_script : RuleSet → String
unfolding restore_rule_lines unlines
restore_script rules = unlines (restore_header ++ (restore_rule_lines rules ++ "COMMIT" ∷ []))
