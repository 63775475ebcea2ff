-- ===== src/HostNat/Apply/Guarded.antt =====
-- Every script that reaches the kernel is one of validated rules, and has just passed the check; so are the
-- rules that are taken for applied.
use network_plugin_manager.Prelude.{
  ℕ, ◌≡◌, refl, sym, subst, String, true, arith, not, ◌&&◌, some, ◌∷◌, ◌==◌, ok, eqb, length,
}
use network_plugin_manager.Firewall.{iptables_nft, iptables_legacy, nftables}
use network_plugin_manager.Effects.{test_script, load_script, Oracle, World, ◌>>◌, lift, perform}
use network_plugin_manager.Effects.Guard.{Passed, checked, OnlyRuns-Passed}
use network_plugin_manager.Effects.Quiet.{bind_elim, IsQuiet, pure-IsQuiet, fail-IsQuiet}
use network_plugin_manager.HostNat.{
  RuleSet, preflight_failed, apply_failed, restore_unselected, backend_unresolved,
}
use network_plugin_manager.HostNat.Validate.{validate_nat_rules}
use network_plugin_manager.HostNat.Script.{nft_nat_script, nft_nat_replace_script, restore_script}
use network_plugin_manager.HostNat.Apply.Keeps.{
  IsScript, native, replacing, restoring, enable-IsQuiet, flush-IsQuiet, get-IsQuiet,
  insert-IsQuiet, IsSafe, Keeps, IsQuiet-Keeps, bind-Keeps, if-Keeps, modify-Keeps,
}
use network_plugin_manager.HostNat.Apply.{
  Watcher, Op, enable_local_net_routing, finish, apply_nft_script, apply_nft, apply_nft_replacing,
  insert_base_rules, apply_restore, apply,
}

finish-Keeps :
    (oracle : Oracle) (now : ℕ) (rules : RuleSet)
    → validate_nat_rules rules ≡ ok tt
    → Keeps (finish oracle now rules)
unfolding finish
finish-Keeps oracle now rules v =
    bind-Keeps _ _
      (if-Keeps (eqb (length rules.ike) 0) _ _ (IsQuiet-Keeps _ (pure-IsQuiet tt)) (
        bind-Keeps _ _ (IsQuiet-Keeps _ (flush-IsQuiet oracle))
          λ _. modify-Keeps (λ w. record w { last_ike_sweep = some now }) (λ w h. h)))
      λ _. modify-Keeps (λ w. record w { applied = some rules; last_applied = some now }) (λ w h. v)

-- A script is checked, other commands run, it is loaded, and the rest keeps things safe.
loaded-Keeps :
    (oracle : Oracle) (name script : String) (middle rest : Op (Unit {0}))
    → IsScript script
    → IsQuiet middle
    → Keeps rest
    → Keeps (
        perform oracle preflight_failed (test_script name script)
        >> (middle >> (perform oracle apply_failed (load_script name script) >> rest)))
loaded-Keeps oracle name script middle rest good quiet keeps = record {
  kept = λ w s.
      bind_elim (λ v b. IsSafe v) (perform oracle preflight_failed (test_script name script))
        (λ _. middle >> (perform oracle apply_failed (load_script name script) >> rest)) w
        (λ _ h.
          behind
            (record w {
              trace = (test_script name script, oracle w.trace (test_script name script)) ∷ w.trace;
            })
            (passed w (ground (arith, h))) (tested w s))
        (λ e h. tested w s);
}
  where
    tested :
        (w : World Watcher)
        → IsSafe w
        → IsSafe (record w {
          trace = (test_script name script, oracle w.trace (test_script name script)) ∷ w.trace;
        })
    tested w s = record { guarded = (tt, s.guarded); valid = s.valid }

    passed :
        (w : World Watcher)
        → oracle w.trace (test_script name script) ≡ true
        → Passed name script
            ((test_script name script, oracle w.trace (test_script name script)) ∷ w.trace)
    passed w e =
        subst (λ b. Passed name script ((test_script name script, b) ∷ w.trace)) (sym e) checked

    loading :
        (w : World Watcher)
        → Passed name script w.trace
        → IsSafe w
        → IsSafe (record w {
          trace = (load_script name script, oracle w.trace (load_script name script)) ∷ w.trace;
        })
    loading w t s = record { guarded = ((good, t), s.guarded); valid = s.valid }

    behind :
        (w : World Watcher)
        → Passed name script w.trace
        → IsSafe w
        → IsSafe ((middle >> (perform oracle apply_failed (load_script name script) >> rest)) w).0
    behind w t s =
        let moved = (IsQuiet-Keeps middle quiet).kept w s in
        let after = loading (middle w).0 (OnlyRuns-Passed name script (quiet.runs w) t) moved in
        bind_elim (λ v b. IsSafe v) middle
          (λ _. perform oracle apply_failed (load_script name script) >> rest) w
          (λ _ h.
            bind_elim (λ v b. IsSafe v) (perform oracle apply_failed (load_script name script))
              (λ _. rest) (middle w).0 (λ _ k. keeps.kept _ after) (λ e k. after))
          (λ e h. moved)

apply_nft_script-Keeps :
    (oracle : Oracle) (now : ℕ) (rules : RuleSet) (script : String)
    → validate_nat_rules rules ≡ ok tt
    → IsScript script
    → Keeps (apply_nft_script oracle now rules script)
unfolding apply_nft_script
apply_nft_script-Keeps oracle now rules script v good =
    bind-Keeps _ _ (IsQuiet-Keeps _ get-IsQuiet) λ w.
      loaded-Keeps oracle w.backend.command script (enable_local_net_routing oracle rules.masq)
        (finish oracle now rules) good (enable-IsQuiet oracle rules.masq)
        (finish-Keeps oracle now rules v)

-- What follows a successful validation may use it.
validated-Keeps :
    (rules : RuleSet) (rest : Op (Unit {0}))
    → (validate_nat_rules rules ≡ ok tt → Keeps rest)
    → Keeps (lift (validate_nat_rules rules) >> rest)
validated-Keeps rules rest k = record {
  kept = λ w s.
      bind_elim (λ v b. IsSafe v) (lift (validate_nat_rules rules)) (λ _. rest) w
        (λ _ h. (k h).kept w s) (λ e h. s);
}

pub apply_nft_replacing-Keeps :
    (oracle : Oracle) (now : ℕ) (rules : RuleSet) → Keeps (apply_nft_replacing oracle now rules)
unfolding apply_nft_replacing
apply_nft_replacing-Keeps oracle now rules = validated-Keeps rules _ λ v.
    apply_nft_script-Keeps oracle now rules (nft_nat_replace_script rules) v
      (replacing rules v refl)

apply_restore-Keeps :
    (oracle : Oracle) (now : ℕ) (rules : RuleSet)
    → validate_nat_rules rules ≡ ok tt
    → Keeps (apply_restore oracle now rules)
unfolding apply_restore
apply_restore-Keeps oracle now rules v = bind-Keeps _ _ (IsQuiet-Keeps _ get-IsQuiet) λ w.
    if-Keeps (w.backend.restore == "") _ _ (IsQuiet-Keeps _ (fail-IsQuiet restore_unselected)) (
      loaded-Keeps oracle w.backend.restore (restore_script rules)
        (enable_local_net_routing oracle rules.masq)
        (insert_base_rules oracle >> finish oracle now rules) (restoring rules v refl)
        (enable-IsQuiet oracle rules.masq)
        (bind-Keeps _ _ (IsQuiet-Keeps _ (insert-IsQuiet oracle))
          λ _. finish-Keeps oracle now rules v))

pub apply-Keeps : (oracle : Oracle) (now : ℕ) (rules : RuleSet) → Keeps (apply oracle now rules)
unfolding apply apply_nft
apply-Keeps oracle now rules = validated-Keeps rules _ λ v.
    bind-Keeps _ _ (IsQuiet-Keeps _ get-IsQuiet) λ w.
      if-Keeps (w.backend.mode == nftables) _ _
        (apply_nft_script-Keeps oracle now rules (nft_nat_script rules) v (native rules v refl))
        (if-Keeps (not (w.backend.mode == iptables_nft) && not (w.backend.mode == iptables_legacy))
          _ _ (IsQuiet-Keeps _ (fail-IsQuiet backend_unresolved))
          (apply_restore-Keeps oracle now rules v))
