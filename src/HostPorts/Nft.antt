-- ===== src/HostPorts/Nft.antt =====
-- The native table of published ports: `nftHostportBatch` of hostports/nft.go. A bridge is written with
-- %q, which adds the quotation marks alone for the names that validation lets through.
pub mod Check
pub mod Plain
pub mod Clean
pub mod Lines
pub mod Whole
use network_plugin_manager.Prelude.{
  ℕ, String, Bool, true, false, List, [], ◌∷◌, ◌++◌, map, ◌==◌, if◌then◌else◌,
}
use network_plugin_manager.Go.Text.{unlines}
use network_plugin_manager.Go.Text.Lines.{glue, concat_map}
use network_plugin_manager.Go.Map.{Map, keys}
use network_plugin_manager.Go.Map.Values.{read_at}
use network_plugin_manager.Go.Sort.{sort}
use network_plugin_manager.HostPorts.{PortRule, RuleSet}
use network_plugin_manager.HostPorts.Rules.{
  ForwardNetwork, sorted_forward_networks, sorted_shared_ingress_networks, ForwardPair,
  sorted_forward_peers,
}

abbrev pub nft_hostports_table : String
nft_hostports_table = "pasturestack_hostports"

unfoldable pub enabled_bridges : Map Bool → List String
enabled_bridges [] = []
enabled_bridges ((bridge, enabled) ∷ m) =
    let rest = enabled_bridges m in if enabled then bridge ∷ rest else rest

unfoldable pub sorted_enabled_bridges : Map Bool → List String
unfolding enabled_bridges
sorted_enabled_bridges m = sort (enabled_bridges m)

abbrev pub no_port : PortRule
no_port = record {
  bridge = "";
  source_ip = "";
  source_port = "";
  target_ip = "";
  target_port = "";
  protocol = "";
  masquerade_dnat = false;
}

-- The ports in the order of their sorted keys
unfoldable pub port_rules : RuleSet → List PortRule
port_rules rules = read_at no_port rules.ports (sort (keys rules.ports))

abbrev pub quoted : String → String
quoted bridge = glue ("\"" ∷ bridge ∷ "\"" ∷ [])

-- The address that a packet is sent to, where the port is not published at all of the host's
abbrev pub local_words : PortRule → List String
local_words p =
    "fib daddr type local"
    ∷ (if p.source_ip == "0.0.0.0" then "" else glue (" ip daddr " ∷ p.source_ip ∷ []))
    ∷ []

abbrev pub nft_port_match : PortRule → String
nft_port_match p = glue (glue (local_words p) ∷ " " ∷ p.protocol ∷ " dport " ∷ p.source_port ∷ [])

abbrev pub target_words : PortRule → List String
target_words p = " dnat to " ∷ p.target_ip ∷ ":" ∷ p.target_port ∷ []

abbrev pub nft_dnat : PortRule → String → String
nft_dnat p from =
    glue ("  " ∷ nft_port_match p ∷ from ∷ " meta mark set meta mark | 0x1068" ∷ target_words p)

unfoldable pub nft_prerouting : PortRule → List String
nft_prerouting p =
    if p.bridge == ""
    then nft_dnat p "" ∷ []
    else nft_dnat p (glue (" iifname != " ∷ quoted p.bridge ∷ []))
      ∷ nft_dnat p (glue (" iifname " ∷ quoted p.bridge ∷ []))
      ∷ []

unfoldable pub nft_output : PortRule → List String
nft_output p =
    glue
      ("  " ∷ glue (local_words p) ∷ " " ∷ p.protocol ∷ " dport " ∷ p.source_port ∷ target_words p)
    ∷ []

abbrev pub target_match_words : PortRule → List String
target_match_words p = "ip daddr " ∷ p.target_ip ∷ " " ∷ p.protocol ∷ " dport " ∷ p.target_port ∷ []

-- A peer on the same bridge gets its reply through the host.
abbrev pub nft_hairpin : PortRule → List String
nft_hairpin p =
    if p.bridge == ""
    then []
    else glue (
        "  iifname "
        ∷ quoted p.bridge
        ∷ " oifname "
        ∷ quoted p.bridge
        ∷ " "
        ∷ glue (target_match_words p)
        ∷ " masquerade"
        ∷ [])
      ∷ []

abbrev pub nft_masquerade : PortRule → String
nft_masquerade p = glue (
    (if p.masquerade_dnat then "  ct status dnat " else "  fib saddr type local ct status dnat ")
    ∷ glue (target_match_words p)
    ∷ " masquerade"
    ∷ [])

unfoldable pub nft_postrouting : PortRule → List String
nft_postrouting p =
    nft_hairpin p
    ++ (glue ("  ip saddr " ∷ p.target_ip ∷ " " ∷ glue (target_match_words p) ∷ " masquerade" ∷ [])
        ∷ nft_masquerade p
        ∷ [])

abbrev pub accept_marked : String
accept_marked = " meta mark set meta mark | 0x1068 accept"

unfoldable pub nft_network : ForwardNetwork → List String
nft_network n =
    glue (
      "  iifname "
      ∷ quoted n.bridge
      ∷ " ip saddr "
      ∷ n.subnet
      ∷ " ct state new,established,related"
      ∷ accept_marked
      ∷ [])
    ∷ glue (
        "  oifname "
        ∷ quoted n.bridge
        ∷ " ip daddr "
        ∷ n.subnet
        ∷ " ct state established,related"
        ∷ accept_marked
        ∷ [])
    ∷ []

unfoldable pub nft_shared : ForwardNetwork → List String
nft_shared n =
    glue (
      "  oifname "
      ∷ quoted n.bridge
      ∷ " ip saddr "
      ∷ n.subnet
      ∷ " ip daddr "
      ∷ n.subnet
      ∷ " ct state new,established,related"
      ∷ accept_marked
      ∷ [])
    ∷ []

unfoldable pub nft_pair : ForwardPair → List String
nft_pair pair =
    glue (
      "  oifname "
      ∷ quoted pair.bridge
      ∷ " ip saddr "
      ∷ pair.peer
      ∷ " ip daddr "
      ∷ pair.local
      ∷ accept_marked
      ∷ [])
    ∷ []

unfoldable pub nft_forwarded : PortRule → List String
nft_forwarded p = glue ("  ct status dnat " ∷ glue (target_match_words p) ∷ accept_marked ∷ []) ∷ []

unfoldable pub nft_guard : String → List String
nft_guard bridge = glue ("  iifname " ∷ quoted bridge ∷ " ip daddr 127.0.0.0/8 drop" ∷ []) ∷ []

abbrev pub forward_marks : List String
forward_marks = "  meta mark & 0x1068 == 0x1068 accept" ∷ "  meta mark 0x4000 accept" ∷ []

-- A chain of the table: its name, what it hooks into, and its rules
pub record Chain : Type 0 where
  pub name : String
  pub base : String
  pub rules : List String

unfoldable pub raw_rules : RuleSet → List String
unfolding nft_guard sorted_enabled_bridges sort
raw_rules r = concat_map nft_guard (sorted_enabled_bridges r.route_localnet_bridges)

unfoldable pub forward_rules : RuleSet → List String
unfolding nft_network nft_shared nft_pair nft_forwarded port_rules sorted_forward_networks
    sorted_shared_ingress_networks sorted_forward_peers sort
forward_rules r =
    concat_map nft_network (sorted_forward_networks r)
    ++ (concat_map nft_shared (sorted_shared_ingress_networks r)
        ++ (concat_map nft_pair (sorted_forward_peers r)
            ++ (concat_map nft_forwarded (port_rules r) ++ forward_marks)))

unfoldable pub nft_chains : RuleSet → List Chain
unfolding raw_rules forward_rules nft_prerouting nft_output nft_postrouting port_rules sort
nft_chains r =
    record {
      name = "raw_prerouting";
      base = "filter hook prerouting priority -300";
      rules = raw_rules r;
    }
    ∷ record {
      name = "prerouting";
      base = "nat hook prerouting priority -101";
      rules = concat_map nft_prerouting (port_rules r);
    }
    ∷ record {
      name = "output";
      base = "nat hook output priority -101";
      rules = concat_map nft_output (port_rules r);
    }
    ∷ record {
      name = "postrouting";
      base = "nat hook postrouting priority 99";
      rules = concat_map nft_postrouting (port_rules r);
    }
    ∷ record { name = "forward"; base = "filter hook forward priority -1"; rules = forward_rules r }
    ∷ []

abbrev pub chain_lines : Chain → List String
chain_lines c =
    glue (" chain " ∷ c.name ∷ " {" ∷ [])
    ∷ glue ("  type " ∷ c.base ∷ "; policy accept;" ∷ [])
    ∷ (c.rules ++ " }" ∷ [])

unfoldable pub nft_batch_lines : RuleSet → Bool → List String
unfolding nft_chains
nft_batch_lines rules existing =
    (if existing then glue ("delete table ip " ∷ nft_hostports_table ∷ []) ∷ [] else [])
    ++ (glue ("table ip " ∷ nft_hostports_table ∷ " {" ∷ [])
        ∷ (concat_map chain_lines (nft_chains rules) ++ "}" ∷ []))

unfoldable pub nft_hostport_batch : RuleSet → Bool → String
unfolding nft_batch_lines unlines
nft_hostport_batch rules existing = unlines (nft_batch_lines rules existing)
