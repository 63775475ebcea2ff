-- ===== src/HostNat/Apply/Keeps.antt =====
-- The operations of hostnat/watcher.go that load no script, and what any operation keeps.
use network_plugin_manager.Prelude.{
  ◌≡◌, refl, sym, subst, String, Bool, true, false, [], ◌∷◌, ◌==◌, Result, ok, err, if◌then◌else◌,
}
use network_plugin_manager.Go.Map.{Map}
use network_plugin_manager.Effects.{Oracle, World, ◌>>=◌, get, modify}
use network_plugin_manager.Effects.Guard.{nothing, Guarded, OnlyRuns-Guarded}
use network_plugin_manager.Effects.Quiet.{
  bind_elim, IsQuiet, pure-IsQuiet, fail-IsQuiet, run-IsQuiet, report-IsQuiet, ignore-IsQuiet,
  attempt-IsQuiet, bind-IsQuiet, if-IsQuiet,
}
use network_plugin_manager.HostNat.{
  MasqRule, RuleSet, Error, routing_failed, base_jump_failed, command_unselected,
}
use network_plugin_manager.HostNat.Validate.{validate_nat_rules}
use network_plugin_manager.HostNat.Script.{nft_nat_script, nft_nat_replace_script, restore_script}
use network_plugin_manager.HostNat.Apply.{
  Watcher, Op, applied_rules, local_routing_setting, enable_local_net_routing, conntrack_command,
  flush_one, jump_args, flush_ike_conntrack, insert_base_rules, report_status,
}

-- A script that the manager may load
pub data IsScript (text : String) : Type 0 where
  native :
      (rules : RuleSet)
      → validate_nat_rules rules ≡ ok tt
      → text ≡ nft_nat_script rules
      → IsScript text
  replacing :
      (rules : RuleSet)
      → validate_nat_rules rules ≡ ok tt
      → text ≡ nft_nat_replace_script rules
      → IsScript text
  restoring :
      (rules : RuleSet)
      → validate_nat_rules rules ≡ ok tt
      → text ≡ restore_script rules
      → IsScript text

pub enable-IsQuiet :
    (oracle : Oracle) (masq : Map MasqRule) → IsQuiet (enable_local_net_routing oracle masq)
unfolding enable_local_net_routing
enable-IsQuiet oracle [] = pure-IsQuiet tt
enable-IsQuiet oracle (e ∷ masq) =
    bind-IsQuiet _ _
      (if-IsQuiet (local_routing_setting e.1 == "") _ _ (pure-IsQuiet tt)
        (run-IsQuiet oracle routing_failed _))
      (λ _. enable-IsQuiet oracle masq)

flush_one-IsQuiet : (oracle : Oracle) (flag port : String) → IsQuiet (flush_one oracle flag port)
flush_one-IsQuiet oracle flag port =
    ignore-IsQuiet _ (run-IsQuiet oracle routing_failed (conntrack_command flag port))

pub flush-IsQuiet : (oracle : Oracle) → IsQuiet (flush_ike_conntrack oracle)
unfolding flush_ike_conntrack
flush-IsQuiet oracle = bind-IsQuiet _ _ (flush_one-IsQuiet oracle "--sport" "500") λ _.
    bind-IsQuiet _ _ (flush_one-IsQuiet oracle "--dport" "500") λ _.
      bind-IsQuiet _ _ (flush_one-IsQuiet oracle "--sport" "4500")
        λ _. flush_one-IsQuiet oracle "--dport" "4500"

pub get-IsQuiet : IsQuiet {S = Watcher} {E = Error} get
get-IsQuiet = record { same = λ w. refl; runs = λ w. nothing }

pub insert-IsQuiet : (oracle : Oracle) → IsQuiet (insert_base_rules oracle)
unfolding insert_base_rules
insert-IsQuiet oracle = bind-IsQuiet _ _ get-IsQuiet λ w.
    if-IsQuiet (w.backend.command == "") _ _ (fail-IsQuiet command_unselected) (
      bind-IsQuiet _ _
        (attempt-IsQuiet _ (run-IsQuiet oracle base_jump_failed (jump_args w.backend.command "-C")))
        λ there.
          if-IsQuiet there _ _ (pure-IsQuiet tt)
            (run-IsQuiet oracle base_jump_failed (jump_args w.backend.command "-I")))

pub report_status-IsQuiet :
    (oracle : Oracle) (r : Result Error (Unit {0})) → IsQuiet (report_status oracle r)
unfolding report_status
report_status-IsQuiet oracle (ok done) =
    ignore-IsQuiet _ (report-IsQuiet oracle routing_failed true)
report_status-IsQuiet oracle (err e) = ignore-IsQuiet _ (report-IsQuiet oracle routing_failed false)

-- What holds at any time of a run.
pub record IsSafe (w : World Watcher) : Type 0 where
  pub guarded : Guarded IsScript w.trace
  pub valid : validate_nat_rules (applied_rules w.state) ≡ ok tt

pub record Keeps {A : Type 0} (step : Op A) : Type 0 where
  pub kept : (w : World Watcher) → IsSafe w → IsSafe (step w).0

pub IsQuiet-Keeps : {A : Type 0} (step : Op A) → IsQuiet step → Keeps step
IsQuiet-Keeps step q = record {
  kept = λ w s. record {
    guarded = OnlyRuns-Guarded IsScript (q.runs w) s.guarded;
    valid = subst (λ v. validate_nat_rules (applied_rules v) ≡ ok tt) (sym (q.same w)) s.valid;
  };
}

pub bind-Keeps :
    {A B : Type 0} (first : Op A) (next : A → Op B)
    → Keeps first
    → ((a : A) → Keeps (next a))
    → Keeps (first >>= next)
bind-Keeps first next f n = record {
  kept = λ w s.
      bind_elim (λ v b. IsSafe v) first next w (λ a h. (n a).kept (first w).0 (f.kept w s))
        (λ e h. f.kept w s);
}

pub if-Keeps : {A : Type 0} (b : Bool) (s t : Op A) → Keeps s → Keeps t → Keeps (if b then s else t)
if-Keeps true s t p q = p
if-Keeps false s t p q = q

abbrev pub IsValid : Watcher → Type 0
IsValid w = validate_nat_rules (applied_rules w) ≡ ok tt

pub modify-Keeps :
    (change : Watcher → Watcher)
    → ((w : Watcher) → IsValid w → IsValid (change w))
    → Keeps (modify change)
modify-Keeps change h = record {
  kept = λ w s. record { guarded = s.guarded; valid = h w.state s.valid };
}
