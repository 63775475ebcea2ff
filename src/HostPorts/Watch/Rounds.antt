-- ===== src/HostPorts/Watch/Rounds.antt =====
-- A round of the watcher keeps the invariant of the node.
use network_plugin_manager.Prelude.{
  ◌≡◌, String, Bool, true, false, not, ◌||◌, ◌==◌, Result, ok, err, if◌then◌else◌,
}
use network_plugin_manager.Firewall.{nftables}
use network_plugin_manager.Effects.{outcome, Oracle, report, pure, get}
use network_plugin_manager.Effects.Triple.{
  Triple, Ends, bind-Triple, ignore-Triple, pure-Triple, get-Triple, if-Triple, lift-Triple,
  weaken-Triple,
}
use network_plugin_manager.HostPorts.{RuleSet, Error, base_rules_failed}
use network_plugin_manager.HostPorts.Nft.Check.{Table, check_nft_rules}
use network_plugin_manager.HostPorts.Localnet.{Node, Op}
use network_plugin_manager.HostPorts.Localnet.Invariant.{Inv}
use network_plugin_manager.HostPorts.Apply.{apply}
use network_plugin_manager.HostPorts.Apply.Jumps.{insert_base_rules-Triple}
use network_plugin_manager.HostPorts.Apply.Protection.{apply-Triple}
use network_plugin_manager.HostPorts.Watch.{
  Round, new_rules, deep_equal, on_change_locked, report_locked, change_round, forced,
  check_or_insert, repair_once,
}
use network_plugin_manager.HostNat.Change.{reapply_due}

module _ (initial : String → Bool) (mode : String) where
  abbrev Safe : Node → Type 0
  Safe = Inv initial mode

  outcome-Triple :
      (step : Op (Unit {0}))
      → Triple Safe step (λ _. Safe) Safe
      → Triple Safe (outcome step) (λ _. Safe) Safe
  outcome-Triple step t = record { ends = λ w h. ended (step w).0.state (step w).1 (t.ends w h) }
    where
      ended : (n : Node) (r : Result Error (Unit {0})) → Ends (λ _. Safe) Safe n r → Safe n
      ended n (ok done) h = h
      ended n (err e) h = h

  report-Triple :
      (oracle : Oracle) (r : Result Error (Unit {0}))
      → Triple Safe (report_locked oracle r) (λ _. Safe) Safe
  unfolding report_locked
  report-Triple oracle (ok done) = ignore-Triple oracle base_rules_failed (report true)
  report-Triple oracle (err e) = ignore-Triple oracle base_rules_failed (report false)

  applied-Triple :
      (r : Round) (rules : RuleSet) → Triple Safe (apply r.answers rules) (λ _. Safe) Safe
  applied-Triple r rules =
      weaken-Triple (λ n i. i) (λ u n h. h.inv) (λ n i. i)
        (apply-Triple initial mode r.answers rules)

  -- The same rules are applied again where they are due.
  when_due : Round → RuleSet → Node → Op (Unit {0})
  when_due r rules s =
      if reapply_due (r.answers).now s.last_applied then apply r.answers rules else pure tt

  when_due-Triple :
      (r : Round) (rules : RuleSet) (s : Node) → Triple Safe (when_due r rules s) (λ _. Safe) Safe
  unfolding when_due
  when_due-Triple r rules s =
      if-Triple (reapply_due (r.answers).now s.last_applied) _ _ (λ _. applied-Triple r rules)
        (λ _. pure-Triple tt (λ n i. i))

  on_change-Triple :
      (r : Round) (force : Bool) → Triple Safe (on_change_locked r force) (λ _. Safe) Safe
  unfolding on_change_locked when_due
  on_change-Triple r force =
      bind-Triple (λ rules n. (new_rules r ≡ ok rules) × Safe n) _ _
        (lift-Triple (new_rules r) (λ n i. i))
        λ rules.
          bind-Triple (λ s n. (s ≡ n) × ((new_rules r ≡ ok rules) × Safe n)) get
            (λ (s : Node).
              if force || not (deep_equal s.applied rules)
              then apply r.answers rules
              else when_due r rules s)
            get-Triple
            λ s.
              weaken-Triple (λ n h. h.1.1) (λ u n i. i) (λ n i. i)
                (if-Triple (force || not (deep_equal s.applied rules)) _ _
                  (λ _. applied-Triple r rules) (λ _. when_due-Triple r rules s))

  pub change_round-Triple : (r : Round) → Triple Safe (change_round r) (λ _. Safe) Safe
  unfolding change_round
  change_round-Triple r =
      bind-Triple (λ _. Safe) _ _ (outcome-Triple _ (on_change-Triple r false))
        λ result.
          bind-Triple (λ _. Safe) _ _ (report-Triple (r.answers).oracle result)
            λ _. pure-Triple result (λ n i. i)

  forced-Triple :
      (oracle : Oracle) (r : Result Error (Unit {0}))
      → Triple Safe (forced oracle r) (λ _. Safe) Safe
  forced-Triple oracle (ok done) = pure-Triple false (λ n i. i)
  forced-Triple oracle (err e) =
      bind-Triple (λ _. Safe) _ _ (report-Triple oracle (err e)) λ _. pure-Triple true (λ n i. i)

  check-Triple :
      (r : Round) (table : Table) (s : Node)
      → Triple Safe (check_or_insert r table s) (λ _. Safe) Safe
  check-Triple r table s =
      if-Triple (s.backend.mode == nftables) _ _
        (λ _.
          weaken-Triple (λ n i. i) (λ u n h. h.1) (λ n i. i)
            (lift-Triple (check_nft_rules table s.applied) (λ n i. i)))
        (λ _. insert_base_rules-Triple initial mode r.answers)

  pub repair_once-Triple :
      (r : Round) (table : Table) → Triple Safe (repair_once r table) (λ _. Safe) Safe
  unfolding repair_once
  repair_once-Triple r table =
      bind-Triple (λ s n. (s ≡ n) × Safe n) _ _ get-Triple
        λ s.
          weaken-Triple (λ n h. h.1) (λ u n i. i) (λ n i. i)
            (bind-Triple (λ _. Safe) _ _ (outcome-Triple _ (check-Triple r table s))
              λ checked.
                bind-Triple (λ _. Safe) _ _ (forced-Triple (r.answers).oracle checked)
                  λ force.
                    bind-Triple (λ _. Safe) _ _ (outcome-Triple _ (on_change-Triple r force))
                      λ result.
                        bind-Triple (λ _. Safe) _ _ (report-Triple (r.answers).oracle result)
                          λ _. pure-Triple result (λ n i. i))
