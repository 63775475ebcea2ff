-- ===== src/HostNat/Check.antt =====
-- `checkNativeState` of hostnat/watcher.go: does the table in the kernel still look as it was written?
-- The JSON that nft prints is taken as decoded.
pub mod Written
use network_plugin_manager.Prelude.{
  ℕ, ◌+◌, ◌*◌, String, Bool, true, false, not, ◌&&◌, ◌||◌, Option, none, some, List, [], ◌∷◌, map,
  ◌==◌, Result, ok, err, ◌>>=◌, ◌>>◌, refuse_if, eqb, length, if◌then◌else◌,
}
use network_plugin_manager.Go.Number.{ℤ, pos, negsuc}
use network_plugin_manager.Go.Map.Values.{total, values}
use network_plugin_manager.HostNat.{
  MasqRule, RuleSet, Error, chain_unreadable, chain_undecodable, hook_mismatch, rule_count_differs,
}
use network_plugin_manager.HostNat.Script.{nft_nat_table}

pub record ChainInfo : Type 0 where
  pub family : String
  pub table : String
  pub name : String
  pub kind : String
  pub hook : String
  pub prio : ℤ
  pub policy : String

pub record RuleInfo : Type 0 where
  pub family : String
  pub table : String
  pub chain : String

-- A key of an entry's object: not there, of another shape, or decoded.
pub data Part (A : Type 0) : Type 0 where
  absent malformed : Part A
  decoded : A → Part A

pub record Entry : Type 0 where
  pub chain : Part ChainInfo
  pub rule : Part RuleInfo

pub data Listing : Type 0 where
  unreadable undecodable : Listing
  listed : List Entry → Listing

abbrev pub is_prio : ℤ → Bool
is_prio (pos n) = eqb n 99
is_prio (negsuc n) = false

abbrev pub is_base_chain : ChainInfo → Bool
is_base_chain c =
    c.family == "ip"
    && c.table == nft_nat_table
    && c.name == "postrouting"
    && c.kind == "nat"
    && c.hook == "postrouting"
    && is_prio c.prio
    && c.policy == "accept"

abbrev pub is_owned_rule : RuleInfo → Bool
is_owned_rule r = r.family == "ip" && r.table == nft_nat_table && r.chain == "postrouting"

pub record Seen : Type 0 where
  pub base_found : Bool
  pub rule_count : ℕ

unfoldable pub see_chain : Part ChainInfo → Seen → Result Error Seen
see_chain absent s = ok s
see_chain malformed s = err chain_undecodable
see_chain (decoded c) s = ok (record s { base_found = is_base_chain c })

unfoldable pub see_rule : Part RuleInfo → Seen → Result Error Seen
see_rule absent s = ok s
see_rule malformed s = err chain_undecodable
see_rule (decoded r) s =
    ok (if is_owned_rule r then record s { rule_count = s.rule_count + 1 } else s)

unfoldable pub see_entries : List Entry → Seen → Result Error Seen
unfolding see_chain see_rule
see_entries [] s = ok s
see_entries (e ∷ es) s = see_chain e.chain s >>= λ t. see_rule e.rule t >>= λ u. see_entries es u

unfoldable pub want_rules : RuleSet → ℕ
want_rules rules =
    length rules.ike + 4 * length rules.masq + total (λ r. length r.peers) (values rules.masq)

unfoldable pub check_seen : RuleSet → Seen → Result Error (Unit {0})
unfolding want_rules
check_seen applied s = do
  refuse_if (not s.base_found) hook_mismatch
  refuse_if (not (eqb s.rule_count (want_rules applied))) rule_count_differs

unfoldable pub check_native_state : Listing → RuleSet → Result Error (Unit {0})
unfolding see_entries check_seen
check_native_state unreadable applied = err chain_unreadable
check_native_state undecodable applied = err chain_undecodable
check_native_state (listed entries) applied =
    see_entries entries (record { base_found = false; rule_count = 0 }) >>= check_seen applied
