-- ===== src/HostNat/Check/Written.antt =====
-- A table that was just written passes the check, and one that lost or gained a rule does not.
use network_plugin_manager.Prelude.{
  ℕ, zero, suc, ◌+◌, ◌≡◌, ◌↔◌, ◌∙◌, sym, true, List, [], ◌∷◌, ok, length, arith, eqb→eq,
}
use network_plugin_manager.HostNat.{RuleSet}
use network_plugin_manager.HostNat.Script.{nft_nat_table, nft_rule_lines}
use network_plugin_manager.HostNat.Script.Lines.{IsGoMaps, nft_rule_lines-count}
use network_plugin_manager.Go.Number.{pos}
use network_plugin_manager.HostNat.Check.{
  absent, decoded, Entry, Listing, listed, see_entries, want_rules, check_seen, check_native_state,
}

-- What nft prints of the manager's chain: an entry about itself, the chain, and its rules.
abbrev pub owned_rule : Entry
owned_rule = record {
  chain = absent;
  rule = decoded (record { family = "ip"; table = nft_nat_table; chain = "postrouting" });
}

abbrev pub owned_rules : ℕ → List Entry
owned_rules zero = []
owned_rules (suc n) = owned_rule ∷ owned_rules n

abbrev pub chain_listing : ℕ → Listing
chain_listing n = listed (
    record { chain = absent; rule = absent }
    ∷ record {
      chain = decoded (record {
        family = "ip";
        table = nft_nat_table;
        name = "postrouting";
        kind = "nat";
        hook = "postrouting";
        prio = pos 99;
        policy = "accept";
      });
      rule = absent;
    }
    ∷ owned_rules n)

see_owned_rules :
    (n k : ℕ)
    → see_entries (owned_rules n) (record { base_found = true; rule_count = k })
      ≡ ok (record { base_found = true; rule_count = k + n })
unfolding see_entries
see_owned_rules zero k = ground arith
see_owned_rules (suc n) k = ground (arith, see_owned_rules n (k + 1))

check_chain_listing :
    (n : ℕ) (rules : RuleSet)
    → check_native_state (chain_listing n) rules
      ≡ check_seen rules (record { base_found = true; rule_count = n })
unfolding check_native_state see_entries
check_chain_listing n rules = rw (see_owned_rules n 0) (ground arith)

check_seen_iff :
    (n : ℕ) (rules : RuleSet)
    → (check_seen rules (record { base_found = true; rule_count = n }) ≡ ok tt)
      ↔ (n ≡ want_rules rules)
unfolding check_seen
check_seen_iff n rules = (λ h. ground (arith, eqb→eq n (want_rules rules)), λ e. ground arith)

-- The check passes on the chain exactly when it holds as many rules as the script of the applied rules
-- writes: so it passes right after the script was loaded, and sees each rule that is lost or added.
pub check_native_state_iff :
    (rules : RuleSet) (n : ℕ)
    → IsGoMaps rules
    → (check_native_state (chain_listing n) rules ≡ ok tt)
      ↔ (n ≡ length (nft_rule_lines rules nft_nat_table))
check_native_state_iff rules n g =
    let seen = check_seen_iff n rules in
    let count = nft_rule_lines-count rules g in
    (
      λ h. seen.0 (sym (check_chain_listing n rules) ∙ h) ∙ sym count,
      λ e. check_chain_listing n rules ∙ seen.1 (e ∙ count),
    )
