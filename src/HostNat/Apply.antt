-- ===== src/HostNat/Apply.antt =====
-- How hostnat/watcher.go puts a rule set in force, and keeps it there: `apply`, the second half of
-- `onChange`, and `reconcileNativeState`. One operation reads one time, in seconds.
pub mod Keeps
pub mod Guarded
pub mod Atomic
use network_plugin_manager.Prelude.{
  ℕ, ◌+◌, ◌-◌, String, Bool, true, false, not, ◌&&◌, ◌||◌, Option, none, some, List, [], ◌∷◌, ◌++◌,
  ◌==◌, ◌<>◌, Result, ok, err, ltb, leb, eqb, all, length, if◌then◌else◌,
}
use network_plugin_manager.Go.Map.{Map, lookup}
use network_plugin_manager.Firewall.{Backend, iptables_nft, iptables_legacy, nftables}
use network_plugin_manager.Effects.{
  outcome, Action, test_script, load_script, run, report, Oracle, World, Io, ◌>>=◌, ◌>>◌, pure,
  fail, lift, get, modify, perform, attempt, ignore,
}
use network_plugin_manager.HostNat.{
  MasqRule, IkePortSnatRule, RuleSet, no_rules, Error, backend_unresolved, restore_unselected,
  command_unselected, preflight_failed, routing_failed, apply_failed, base_jump_failed,
  hook_mismatch,
}
use network_plugin_manager.HostNat.Validate.{validate_nat_rules}
use network_plugin_manager.HostNat.Script.{
  nft_nat_script, nft_nat_replace_script, restore_script, nat_chain,
}
use network_plugin_manager.HostNat.Check.{Listing, check_native_state}

-- `applied` is `none` as long as it is the zero rule set, whose maps are nil.
pub record Watcher : Type 0 where
  pub backend : Backend
  pub applied : Option RuleSet
  pub last_applied : Option ℕ
  pub last_ike_sweep : Option ℕ

abbrev pub applied_rules : Watcher → RuleSet
applied_rules w = elim (w.applied) [ none ↦ no_rules | some r ↦ r ]

abbrev pub Op : Type 0 → Type 0
Op A = Io Watcher Error A

unfoldable pub local_routing_setting : MasqRule → String
local_routing_setting rule =
    if rule.bridge == "" then "" else "net.ipv4.conf." <> (rule.bridge <> ".route_localnet=1")

unfoldable pub enable_local_net_routing : Oracle → Map MasqRule → Op (Unit {0})
unfolding local_routing_setting
enable_local_net_routing oracle [] = pure tt
enable_local_net_routing oracle (e ∷ masq) =
    (if local_routing_setting e.1 == ""
      then pure tt
      else perform oracle routing_failed (run ("sysctl" ∷ "-w" ∷ local_routing_setting e.1 ∷ [])))
    >> enable_local_net_routing oracle masq

abbrev pub conntrack_command : String → String → List String
conntrack_command flag port = "conntrack" ∷ "-D" ∷ "-p" ∷ "udp" ∷ flag ∷ port ∷ []

abbrev pub flush_one : Oracle → String → String → Op (Unit {0})
flush_one oracle flag port =
    ignore (perform oracle routing_failed (run (conntrack_command flag port)))

unfoldable pub flush_ike_conntrack : Oracle → Op (Unit {0})
flush_ike_conntrack oracle = do
  flush_one oracle "--sport" "500"
  flush_one oracle "--dport" "500"
  flush_one oracle "--sport" "4500"
  flush_one oracle "--dport" "4500"

-- What every way to apply ends with
unfoldable pub finish : Oracle → ℕ → RuleSet → Op (Unit {0})
unfolding flush_ike_conntrack
finish oracle now rules = do
  (if eqb (length rules.ike) 0
      then pure tt
      else (do flush_ike_conntrack oracle; modify (λ w. record w { last_ike_sweep = some now })))
  modify (λ w. record w { applied = some rules; last_applied = some now })

unfoldable pub apply_nft_script : Oracle → ℕ → RuleSet → String → Op (Unit {0})
unfolding enable_local_net_routing finish
apply_nft_script oracle now rules script = do
  w ← get
  perform oracle preflight_failed (test_script w.backend.command script)
  enable_local_net_routing oracle rules.masq
  perform oracle apply_failed (load_script w.backend.command script)
  finish oracle now rules

unfoldable pub apply_nft : Oracle → ℕ → RuleSet → Op (Unit {0})
unfolding apply_nft_script
apply_nft oracle now rules = apply_nft_script oracle now rules (nft_nat_script rules)

unfoldable pub apply_nft_replacing : Oracle → ℕ → RuleSet → Op (Unit {0})
unfolding apply_nft_script
apply_nft_replacing oracle now rules = do
  lift (validate_nat_rules rules)
  apply_nft_script oracle now rules (nft_nat_replace_script rules)

abbrev pub jump_args : String → String → List String
jump_args iptables flag =
    iptables ∷ "-w" ∷ "-t" ∷ "nat" ∷ flag ∷ "POSTROUTING" ∷ "-j" ∷ nat_chain ∷ []

unfoldable pub insert_base_rules : Oracle → Op (Unit {0})
insert_base_rules oracle = do
  w ← get
  (if w.backend.command == "" then fail command_unselected else (do
    there ← attempt (perform oracle base_jump_failed (run (jump_args w.backend.command "-C")))
    (if there
        then pure tt
        else perform oracle base_jump_failed (run (jump_args w.backend.command "-I")))))

unfoldable pub apply_restore : Oracle → ℕ → RuleSet → Op (Unit {0})
unfolding enable_local_net_routing insert_base_rules finish
apply_restore oracle now rules = do
  w ← get
  (if w.backend.restore == "" then fail restore_unselected else (do
    perform oracle preflight_failed (test_script w.backend.restore (restore_script rules))
    enable_local_net_routing oracle rules.masq
    perform oracle apply_failed (load_script w.backend.restore (restore_script rules))
    insert_base_rules oracle
    finish oracle now rules))

unfoldable pub apply : Oracle → ℕ → RuleSet → Op (Unit {0})
unfolding apply_nft apply_restore
apply oracle now rules = do
  lift (validate_nat_rules rules)
  w ← get
  (if w.backend.mode == nftables
      then apply_nft oracle now rules
      else if not (w.backend.mode == iptables_nft) && not (w.backend.mode == iptables_legacy)
      then fail backend_unresolved
      else apply_restore oracle now rules)

-- `reportStatus`, where a callback is set
unfoldable pub report_status : Oracle → Result Error (Unit {0}) → Op (Unit {0})
report_status oracle (ok done) = ignore (perform oracle routing_failed (report true))
report_status oracle (err e) = ignore (perform oracle routing_failed (report false))

abbrev pub is_hook_mismatch : Error → Bool
is_hook_mismatch hook_mismatch = true
is_hook_mismatch _ = false

unfoldable pub restore_native_state : Oracle → ℕ → Error → Op (Unit {0})
unfolding apply apply_nft_replacing report_status
restore_native_state oracle now e = do
  report_status oracle (err e)
  w ← get
  result ← outcome (
      if is_hook_mismatch e
      then apply_nft_replacing oracle now (applied_rules w)
      else apply oracle now (applied_rules w))
  report_status oracle result

-- Before the first application there is nothing to restore.
unfoldable pub restore_unless : Oracle → ℕ → Option ℕ → Result Error (Unit {0}) → Op (Unit {0})
unfolding restore_native_state
restore_unless oracle now none checked = pure tt
restore_unless oracle now (some t) (ok done) = pure tt
restore_unless oracle now (some t) (err e) = restore_native_state oracle now e

unfoldable pub reconcile_native_state : Oracle → ℕ → Listing → Op (Unit {0})
unfolding restore_unless
reconcile_native_state oracle now listing = do
  w ← get
  restore_unless oracle now w.last_applied (check_native_state listing (applied_rules w))
