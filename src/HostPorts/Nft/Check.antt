-- ===== src/HostPorts/Nft/Check.antt =====
-- `checkNFTRules` of hostports/nft.go: is the table in the kernel still the one that was written? The JSON
-- that nft prints is taken as decoded.
pub mod Sound
pub mod Whole
use network_plugin_manager.Prelude.{
  ℕ, ◌+◌, ◌*◌, String, Bool, true, false, not, ◌&&◌, ◌||◌, Option, none, some, List, [], ◌∷◌, ◌==◌,
  Result, ok, err, ◌>>=◌, ◌>>◌, refuse_if, eqb, length, if◌then◌else◌,
}
use network_plugin_manager.Go.Map.{Map, member, lookup, lookup_or, put}
use network_plugin_manager.Go.Map.Values.{values, total}
use network_plugin_manager.Go.Number.{ℤ, pos, negsuc}
use network_plugin_manager.HostNat.Check.{RuleInfo, Part, absent, malformed, decoded}
use network_plugin_manager.HostPorts.{
  PortRule, RuleSet, Error, table_unreadable, table_undecodable, chain_mismatch, chain_incomplete,
}
use network_plugin_manager.HostPorts.Rules.{
  sorted_forward_networks, sorted_shared_ingress_networks, sorted_forward_peers, each,
}
use network_plugin_manager.HostPorts.Nft.{nft_hostports_table, sorted_enabled_bridges}

pub record Base : Type 0 where
  pub kind : String
  pub hook : String
  pub prio : ℤ
  pub policy : String

pub record ListedChain : Type 0 where
  pub family : String
  pub table : String
  pub name : String
  pub base : Base

pub record Item : Type 0 where
  pub chain : Part ListedChain
  pub rule : Part RuleInfo

pub data Table : Type 0 where
  unreadable undecodable : Table
  listed : List Item → Table

unfoldable pub same_int : ℤ → ℤ → Bool
same_int (pos m) (pos n) = eqb m n
same_int (negsuc m) (negsuc n) = eqb m n
same_int _ _ = false

abbrev pub accepting : String → String → ℤ → Base
accepting kind hook prio = record { kind = kind; hook = hook; prio = prio; policy = "accept" }

abbrev pub expected : Map Base
expected =
    ("raw_prerouting", accepting "filter" "prerouting" (negsuc 299))
    ∷ ("prerouting", accepting "nat" "prerouting" (negsuc 100))
    ∷ ("output", accepting "nat" "output" (negsuc 100))
    ∷ ("postrouting", accepting "nat" "postrouting" (pos 99))
    ∷ ("forward", accepting "filter" "forward" (negsuc 0))
    ∷ []

-- The rules that a port adds to a chain; the second is the one for packets of its own bridge.
abbrev pub bridge_count : PortRule → ℕ
bridge_count p = if p.bridge == "" then 0 else 1

unfoldable pub forward_count : RuleSet → ℕ
unfolding sorted_forward_networks sorted_shared_ingress_networks sorted_forward_peers
forward_count r =
    2
    + 2 * length (sorted_forward_networks r)
    + length (sorted_shared_ingress_networks r)
    + length (sorted_forward_peers r)
    + length r.ports

-- What each chain's entry of `ruleCount` holds behind the loop over the ports
unfoldable pub rule_count : RuleSet → Map ℕ
unfolding forward_count sorted_enabled_bridges
rule_count r =
    ("raw_prerouting", length (sorted_enabled_bridges r.route_localnet_bridges))
    ∷ ("prerouting", total (λ p. 1 + bridge_count p) (values r.ports))
    ∷ ("output", total (λ p. 1) (values r.ports))
    ∷ ("postrouting", total (λ p. bridge_count p + 2) (values r.ports))
    ∷ ("forward", forward_count r)
    ∷ []

pub record Seen : Type 0 where
  pub chains : List String
  pub actual_rules : Map ℕ

unfoldable pub is_expected : ListedChain → Base → Bool
unfolding same_int
is_expected got want =
    got.family == "ip"
    && got.table == nft_hostports_table
    && got.base.kind == want.kind
    && got.base.hook == want.hook
    && same_int got.base.prio want.prio
    && got.base.policy == want.policy

-- A chain that none of the expected ones is named like is passed over.
unfoldable pub see_chain : Part ListedChain → Seen → Result Error Seen
unfolding is_expected lookup
see_chain absent s = ok s
see_chain malformed s = err table_undecodable
see_chain (decoded got) s = elim (lookup got.name expected) [
  | none ↦ ok s
  | some want ↦
      if is_expected got want
      then ok (record s { chains = got.name ∷ s.chains })
      else err chain_mismatch
]

abbrev pub is_owned : RuleInfo → Bool
is_owned r = r.family == "ip" && r.table == nft_hostports_table

unfoldable pub see_rule : Part RuleInfo → Seen → Result Error Seen
unfolding lookup_or put
see_rule absent s = ok s
see_rule malformed s = err table_undecodable
see_rule (decoded r) s = ok (
    if is_owned r
    then record s {
      actual_rules = put r.chain (lookup_or 0 r.chain s.actual_rules + 1) s.actual_rules;
    }
    else s)

unfoldable pub see_items : List Item → Seen → Result Error Seen
unfolding see_chain see_rule
see_items [] s = ok s
see_items (e ∷ es) s = see_chain e.chain s >>= λ t. see_rule e.rule t >>= λ u. see_items es u

unfoldable pub check_chain : RuleSet → Seen → String × Base → Result Error (Unit {0})
unfolding member lookup_or rule_count
check_chain applied s (name, want) =
    refuse_if
      (not (member name s.chains)
        || not (eqb (lookup_or 0 name s.actual_rules) (lookup_or 0 name (rule_count applied))))
      chain_incomplete

abbrev pub nothing_seen : Seen
nothing_seen = record { chains = []; actual_rules = [] }

unfoldable pub check_nft_rules : Table → RuleSet → Result Error (Unit {0})
unfolding see_items check_chain each
check_nft_rules unreadable applied = err table_unreadable
check_nft_rules undecodable applied = err table_undecodable
check_nft_rules (listed items) applied =
    see_items items nothing_seen >>= λ s. each (check_chain applied s) expected
