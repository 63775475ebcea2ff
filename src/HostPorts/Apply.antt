-- ===== src/HostPorts/Apply.antt =====
-- How a rule set is put in force: `apply` of hostports/watcher.go and `applyNFT` of hostports/nft.go.
pub mod Jumps
pub mod Protection
use network_plugin_manager.Prelude.{
  ℕ, String, Bool, true, false, not, ◌&&◌, ◌||◌, Option, none, some, List, [], ◌∷◌, ◌==◌, any,
  starts_with, if◌then◌else◌,
}
use network_plugin_manager.Go.Text.{split, fields}
use network_plugin_manager.Firewall.{nftables}
use network_plugin_manager.Effects.{
  ◌>>=◌, Oracle, test_script, load_script, run, ◌>>◌, pure, fail, lift, get, modify, perform,
  attempt, ignore,
}
use network_plugin_manager.HostPorts.{
  RuleSet, restore_unselected, command_unselected, preflight_failed, load_failed, base_rules_failed,
  table_unreadable,
}
use network_plugin_manager.HostPorts.Rules.{validate_rule_set}
use network_plugin_manager.HostPorts.Nft.{
  nft_hostports_table, sorted_enabled_bridges, nft_hostport_batch,
}
use network_plugin_manager.HostPorts.Restore.{restore_script, raw_chain, postrouting_chain}
use network_plugin_manager.HostPorts.Localnet.{
  Node, Op, restore_removed_route_localnet, activate_route_localnet,
}

-- What the host answers during one operation: which commands succeed, what `nft list tables` and
-- `iptables -S FORWARD` print, and whether a load by iptables-restore that fails has changed its first
-- table all the same. The operation reads one time, in seconds.
pub record Answers : Type 0 where
  pub oracle : Oracle
  pub now : ℕ
  pub tables : Option String
  pub forward : Option String
  pub committed : Bool

abbrev pub bridges_of : RuleSet → List String
bridges_of rules = sorted_enabled_bridges rules.route_localnet_bridges

abbrev pub is_own_table : String → Bool
is_own_table line = elim (fields line) [
  | a ∷ (b ∷ (c ∷ [])) ↦ a == "table" && b == "ip" && c == nft_hostports_table
  | _ ↦ false
]

unfoldable pub table_exists : String → Bool
unfolding split fields
table_exists text = any is_own_table (split b'\n' text)

-- nft loads a batch as a whole or not at all.
abbrev pub load_batch : Answers → RuleSet → String → Op (Unit {0})
load_batch a rules batch =
    perform a.oracle load_failed (load_script "nft" batch)
    >> modify (λ n. record n { guard = some (bridges_of rules) })

abbrev pub record_applied : Answers → RuleSet → Op (Unit {0})
record_applied a rules = modify λ n. record n { applied = rules; last_applied = some a.now }

unfoldable pub apply_batch : Answers → RuleSet → String → Op (Unit {0})
unfolding restore_removed_route_localnet activate_route_localnet sorted_enabled_bridges
apply_batch a rules batch = do
  perform a.oracle preflight_failed (test_script "nft" batch)
  restore_removed_route_localnet a.oracle rules
  load_batch a rules batch
  activate_route_localnet a.oracle rules
  record_applied a rules

unfoldable pub apply_nft : Answers → RuleSet → Op (Unit {0})
unfolding apply_batch table_exists nft_hostport_batch
apply_nft a rules = elim (a.tables) [
  | none ↦ fail table_unreadable
  | some text ↦ apply_batch a rules (nft_hostport_batch rules (table_exists text))
]

abbrev pub starts_forward : String → Bool
starts_forward line = starts_with line "-A FORWARD "

unfoldable pub first_forward : List String → Bool
first_forward [] = false
first_forward (line ∷ lines) =
    let rest = first_forward lines in
    if starts_forward line then line == "-A FORWARD -j CATTLE_FORWARD" else rest

unfoldable pub forward_jump_is_first : String → Bool
unfolding first_forward split
forward_jump_is_first text = first_forward (split b'\n' text)

-- A rule is looked for, and inserted if it is not there; does it stand now?
abbrev pub ensure_rule : Answers → List String → List String → Op Bool
ensure_rule a check insertion = do
  there ← attempt (perform a.oracle base_rules_failed (run check))
  (if there then pure true else attempt (perform a.oracle base_rules_failed (run insertion)))

abbrev pub nat_jump : String → String → List String → List String
nat_jump iptables flag rest = iptables ∷ "-w" ∷ "-t" ∷ "nat" ∷ flag ∷ rest

abbrev pub to_local : String → String → List String
to_local chain target = chain ∷ "-m" ∷ "addrtype" ∷ "--dst-type" ∷ "LOCAL" ∷ "-j" ∷ target ∷ []

unfoldable pub ensure_forward_jump_first : Answers → String → Op Bool
unfolding forward_jump_is_first
ensure_forward_jump_first a iptables = do
  ignore (perform a.oracle base_rules_failed (run (iptables ∷ "-w" ∷ "-S" ∷ "FORWARD" ∷ [])))
  (if elim (a.forward) [ none ↦ false | some text ↦ forward_jump_is_first text ]
      then pure true
      else attempt (
          perform a.oracle base_rules_failed
            (run (iptables ∷ "-w" ∷ "-I" ∷ "FORWARD" ∷ "1" ∷ "-j" ∷ "CATTLE_FORWARD" ∷ []))))

-- With the jump to the raw chain the chain's rules are in force.
abbrev pub hook_raw : Bool → Op (Unit {0})
hook_raw hooked = if hooked then modify (λ n. record n { guard = some n.raw }) else pure tt

unfoldable pub insert_jumps : Answers → String → Op (Unit {0})
unfolding ensure_forward_jump_first
insert_jumps a iptables = do
  raw ←
      ensure_rule a (iptables ∷ "-w" ∷ "-t" ∷ "raw" ∷ "-C" ∷ "PREROUTING" ∷ "-j" ∷ raw_chain ∷ [])
        (iptables ∷ "-w" ∷ "-t" ∷ "raw" ∷ "-I" ∷ "PREROUTING" ∷ "1" ∷ "-j" ∷ raw_chain ∷ [])
  hook_raw raw
  prerouting ←
      ensure_rule a (nat_jump iptables "-C" (to_local "PREROUTING" "CATTLE_PREROUTING"))
        (nat_jump iptables "-I" (to_local "PREROUTING" "CATTLE_PREROUTING"))
  forward ← ensure_forward_jump_first a iptables
  output ←
      ensure_rule a (nat_jump iptables "-C" (to_local "OUTPUT" "CATTLE_OUTPUT"))
        (nat_jump iptables "-I" (to_local "OUTPUT" "CATTLE_OUTPUT"))
  postrouting ←
      ensure_rule a (nat_jump iptables "-C" ("POSTROUTING" ∷ "-j" ∷ postrouting_chain ∷ []))
        (nat_jump iptables "-I" ("POSTROUTING" ∷ "-j" ∷ postrouting_chain ∷ []))
  (if raw && prerouting && forward && output && postrouting
      then pure tt
      else fail base_rules_failed)

unfoldable pub insert_base_rules : Answers → Op (Unit {0})
unfolding insert_jumps
insert_base_rules a = do
  n ← get
  (if n.backend.mode == nftables
      then pure tt
      else if n.backend.command == ""
      then fail command_unselected
      else insert_jumps a n.backend.command)

-- What is loaded into the raw chain is in force where the chain is hooked in.
abbrev pub load_raw : List String → Node → Node
load_raw bridges n = record n {
  raw = bridges;
  guard = elim (n.guard) [ none ↦ none | some old ↦ some bridges ];
}

abbrev pub load_tables : Answers → RuleSet → String → Op (Unit {0})
load_tables a rules command = do
  loaded ← attempt (perform a.oracle load_failed (load_script command (restore_script rules)))
  (if loaded || a.committed then modify (load_raw (bridges_of rules)) else pure tt)
  (if loaded then pure tt else fail load_failed)

unfoldable pub apply_restore : Answers → RuleSet → String → Op (Unit {0})
unfolding restore_removed_route_localnet insert_base_rules activate_route_localnet restore_script
    sorted_enabled_bridges
apply_restore a rules command = do
  perform a.oracle preflight_failed (test_script command (restore_script rules))
  restore_removed_route_localnet a.oracle rules
  load_tables a rules command
  insert_base_rules a
  activate_route_localnet a.oracle rules
  record_applied a rules

unfoldable pub apply : Answers → RuleSet → Op (Unit {0})
unfolding apply_nft apply_restore
apply a rules = do
  lift (validate_rule_set rules)
  n ← get
  (if n.backend.mode == nftables
      then apply_nft a rules
      else if n.backend.restore == ""
      then fail restore_unselected
      else apply_restore a rules n.backend.restore)
