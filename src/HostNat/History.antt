-- ===== src/HostNat/History.antt =====
-- Any sequence of metadata changes and of checks of the kernel's table, with any outcome of any command.
use network_plugin_manager.Prelude.{
  ℕ, ◌≡◌, refl, not, ◌||◌, Option, none, some, List, [], ◌∷◌, Result, ok, err, length, eqb,
}
use network_plugin_manager.Go.Map.{Map}
use network_plugin_manager.Metadata.{Client}
use network_plugin_manager.Identity.{Docker}
use network_plugin_manager.Conntrack.{CtEntry, delete_args}
use network_plugin_manager.Firewall.{Backend}
use network_plugin_manager.Effects.{outcome, Oracle, World}
use network_plugin_manager.Effects.Guard.{Guarded}
use network_plugin_manager.Effects.Quiet.{
  IsQuiet, pure-IsQuiet, lift-IsQuiet, run-IsQuiet, ignore-IsQuiet, bind-IsQuiet, if-IsQuiet,
}
use network_plugin_manager.HostNat.{IkePortSnatRule, Error, routing_failed}
use network_plugin_manager.HostNat.Check.{Listing, check_native_state}
use network_plugin_manager.HostNat.Validate.{validate_nat_rules}
use network_plugin_manager.HostNat.Apply.{
  Watcher, Op, applied_rules, is_hook_mismatch, restore_native_state, restore_unless,
  reconcile_native_state,
}
use network_plugin_manager.HostNat.Stale.{
  matching_ike_rule, stale_ike_entry, delete_if, delete_stale, sweep, sweep_due,
  flush_stale_ike_conntrack,
}
use network_plugin_manager.HostNat.Change.{
  new_rules, deep_equal, reapply_due, on_change, change_round,
}
use network_plugin_manager.HostNat.Apply.Keeps.{
  IsScript, IsSafe, Keeps, IsQuiet-Keeps, bind-Keeps, if-Keeps, modify-Keeps, get-IsQuiet,
  report_status-IsQuiet,
}
use network_plugin_manager.HostNat.Apply.Guarded.{apply-Keeps, apply_nft_replacing-Keeps}

-- One thing that the watcher does: a round of `onChange`, or a tick of its check of the kernel.
pub data Event : Type 0 where
  change : Oracle → ℕ → Client → Docker → Option (List CtEntry) → Event
  tick : Oracle → ℕ → Listing → Event

abbrev pub step : Event → World Watcher → World Watcher
step (change oracle now c d entries) w = (change_round oracle now c d entries w).0
step (tick oracle now listing) w = (reconcile_native_state oracle now listing w).0

unfoldable pub history : List Event → World Watcher → World Watcher
history [] w = w
history (e ∷ es) w = history es (step e w)

abbrev pub start : Backend → World Watcher
start backend = record {
  state = record { backend = backend; applied = none; last_applied = none; last_ike_sweep = none };
  trace = [];
}

outcome-Keeps : (s : Op (Unit {0})) → Keeps s → Keeps (outcome s)
outcome-Keeps s k = record { kept = k.kept }

delete_if-IsQuiet :
    (oracle : Oracle) (e : CtEntry) (r : Option IkePortSnatRule) → IsQuiet (delete_if oracle e r)
unfolding delete_if
delete_if-IsQuiet oracle e none = pure-IsQuiet tt
delete_if-IsQuiet oracle e (some rule) =
    if-IsQuiet (stale_ike_entry e rule) _ _
      (ignore-IsQuiet _ (run-IsQuiet oracle routing_failed (delete_args e))) (pure-IsQuiet tt)

delete_stale-IsQuiet :
    (oracle : Oracle) (rules : Map IkePortSnatRule) (es : List CtEntry)
    → IsQuiet (delete_stale oracle rules es)
unfolding delete_stale
delete_stale-IsQuiet oracle rules [] = pure-IsQuiet tt
delete_stale-IsQuiet oracle rules (e ∷ es) =
    bind-IsQuiet _ _ (delete_if-IsQuiet oracle e (matching_ike_rule e rules))
      λ _. delete_stale-IsQuiet oracle rules es

sweep-IsQuiet :
    (oracle : Oracle) (rules : Map IkePortSnatRule) (es : Option (List CtEntry))
    → IsQuiet (sweep oracle rules es)
unfolding sweep
sweep-IsQuiet oracle rules none = pure-IsQuiet tt
sweep-IsQuiet oracle rules (some es) = delete_stale-IsQuiet oracle rules es

flush_stale-Keeps :
    (oracle : Oracle) (now : ℕ) (rules : Map IkePortSnatRule) (es : Option (List CtEntry))
    → Keeps (flush_stale_ike_conntrack oracle now rules es)
unfolding flush_stale_ike_conntrack
flush_stale-Keeps oracle now rules es = bind-Keeps _ _ (IsQuiet-Keeps _ get-IsQuiet) λ w.
    if-Keeps (eqb (length rules) 0 || not (sweep_due now w.last_ike_sweep)) _ _
      (IsQuiet-Keeps _ (pure-IsQuiet tt))
      (bind-Keeps _ _ (modify-Keeps (λ w. record w { last_ike_sweep = some now }) (λ w h. h))
        (λ _. IsQuiet-Keeps _ (sweep-IsQuiet oracle rules es)))

on_change-Keeps :
    (oracle : Oracle) (now : ℕ) (c : Client) (d : Docker) (es : Option (List CtEntry))
    → Keeps (on_change oracle now c d es)
unfolding on_change
on_change-Keeps oracle now c d es =
    bind-Keeps _ _ (IsQuiet-Keeps _ (lift-IsQuiet (new_rules c d))) λ rules.
      bind-Keeps _ _ (IsQuiet-Keeps _ get-IsQuiet) λ w.
        if-Keeps (not (deep_equal w.applied rules) || reapply_due now w.last_applied) _ _
          (apply-Keeps oracle now rules) (flush_stale-Keeps oracle now rules.ike es)

change_round-Keeps :
    (oracle : Oracle) (now : ℕ) (c : Client) (d : Docker) (es : Option (List CtEntry))
    → Keeps (change_round oracle now c d es)
unfolding change_round
change_round-Keeps oracle now c d es =
    bind-Keeps _ _ (outcome-Keeps _ (on_change-Keeps oracle now c d es)) λ result.
      bind-Keeps _ _ (IsQuiet-Keeps _ (report_status-IsQuiet oracle result))
        λ _. IsQuiet-Keeps _ (pure-IsQuiet result)

restore_native_state-Keeps :
    (oracle : Oracle) (now : ℕ) (e : Error) → Keeps (restore_native_state oracle now e)
unfolding restore_native_state
restore_native_state-Keeps oracle now e =
    bind-Keeps _ _ (IsQuiet-Keeps _ (report_status-IsQuiet oracle (err e))) λ _.
      bind-Keeps _ _ (IsQuiet-Keeps _ get-IsQuiet) λ w.
        bind-Keeps _ _
          (outcome-Keeps _ (
            if-Keeps (is_hook_mismatch e) _ _
              (apply_nft_replacing-Keeps oracle now (applied_rules w))
              (apply-Keeps oracle now (applied_rules w))))
          (λ result. IsQuiet-Keeps _ (report_status-IsQuiet oracle result))

restore_unless-Keeps :
    (oracle : Oracle) (now : ℕ) (last : Option ℕ) (checked : Result Error (Unit {0}))
    → Keeps (restore_unless oracle now last checked)
unfolding restore_unless
restore_unless-Keeps oracle now none checked = IsQuiet-Keeps _ (pure-IsQuiet tt)
restore_unless-Keeps oracle now (some t) (ok done) = IsQuiet-Keeps _ (pure-IsQuiet tt)
restore_unless-Keeps oracle now (some t) (err e) = restore_native_state-Keeps oracle now e

reconcile-Keeps :
    (oracle : Oracle) (now : ℕ) (l : Listing) → Keeps (reconcile_native_state oracle now l)
unfolding reconcile_native_state
reconcile-Keeps oracle now l =
    bind-Keeps _ _ (IsQuiet-Keeps _ get-IsQuiet)
      λ w. restore_unless-Keeps oracle now w.last_applied (check_native_state l (applied_rules w))

step-IsSafe : (e : Event) (w : World Watcher) → IsSafe w → IsSafe (step e w)
step-IsSafe (change oracle now c d es) w s = (change_round-Keeps oracle now c d es).kept w s
step-IsSafe (tick oracle now l) w s = (reconcile-Keeps oracle now l).kept w s

history-IsSafe : (es : List Event) (w : World Watcher) → IsSafe w → IsSafe (history es w)
unfolding history
history-IsSafe [] w s = s
history-IsSafe (e ∷ es) w s = history-IsSafe es (step e w) (step-IsSafe e w s)

start-IsSafe : (backend : Backend) → IsSafe (start backend)
unfolding validate_nat_rules
start-IsSafe backend = record { guarded = tt; valid = refl }

-- In every history of a watcher from its start, whichever commands fail: each script that was loaded is
-- one of rules that `validateNATRules` passes, and is the latest that the same program had checked, with success
-- and with no other script handed to a program in between; and the rules taken for applied are such rules.
pub history-Guarded :
    (backend : Backend) (es : List Event)
    → Guarded IsScript (history es (start backend)).trace
      × (validate_nat_rules (applied_rules (history es (start backend)).state) ≡ ok tt)
history-Guarded backend es =
    let s = history-IsSafe es (start backend) (start-IsSafe backend) in (s.guarded, s.valid)
