-- ===== src/HostNat/Apply/Atomic.antt =====
-- A rule set is put in force whole, or the watcher goes on with the one before.
use network_plugin_manager.Prelude.{
  ℕ, ◌≡◌, refl, subst, inl, inr, String, Bool, true, false, not, ◌&&◌, some, ◌==◌, Result, ok, err,
  Bool-cases, if◌then◌else◌, eqb, length,
}
use network_plugin_manager.Firewall.{iptables_nft, iptables_legacy, nftables}
use network_plugin_manager.Effects.{
  Action, test_script, load_script, Oracle, World, ◌>>=◌, ◌>>◌, fail, perform,
}
use network_plugin_manager.Effects.Quiet.{bind_elim, IsQuiet, lift-IsQuiet}
use network_plugin_manager.HostNat.{
  RuleSet, Error, preflight_failed, apply_failed, restore_unselected, backend_unresolved,
}
use network_plugin_manager.HostNat.Validate.{validate_nat_rules}
use network_plugin_manager.HostNat.Script.{nft_nat_script, nft_nat_replace_script, restore_script}
use network_plugin_manager.HostNat.Apply.{
  Watcher, Op, flush_ike_conntrack, finish, apply_nft_script, apply_nft, apply_nft_replacing,
  apply_restore, apply,
}
use network_plugin_manager.HostNat.Apply.Keeps.{enable-IsQuiet, get-IsQuiet, insert-IsQuiet}

-- The state behind an attempt to put rules in force, from the state before it and its outcome
pub data Settles (rules : RuleSet) (now : ℕ) (before after : Watcher)
    : Result Error (Unit {0}) → Type 0 where
  in_force :
      after.applied ≡ some rules
      → after.last_applied ≡ some now
      → after.backend ≡ before.backend
      → Settles rules now before after (ok tt)
  as_before : (e : Error) → after ≡ before → Settles rules now before after (err e)

module _ (rules : RuleSet) (now : ℕ) where
  pub record IsAtomic (step : Op (Unit {0})) : Type 0 where
    pub settles : (w : World Watcher) → Settles rules now w.state (step w).0.state (step w).1

  fail-IsAtomic : (e : Error) → IsAtomic (fail e)
  fail-IsAtomic e = record { settles = λ w. as_before e refl }

  if-IsAtomic :
      (b : Bool) (s t : Op (Unit {0})) → IsAtomic s → IsAtomic t → IsAtomic (if b then s else t)
  if-IsAtomic true s t p q = p
  if-IsAtomic false s t p q = q

  still-IsAtomic :
      {A : Type 0} (first : Op A) (next : A → Op (Unit {0}))
      → ((w : World Watcher) → (first w).0.state ≡ w.state)
      → ((a : A) → IsAtomic (next a))
      → IsAtomic (first >>= next)
  still-IsAtomic first next same n = record {
    settles = λ w.
        bind_elim (λ v r. Settles rules now w.state v.state r) first next w
          (λ a h.
            subst (λ s. Settles rules now s (next a (first w).0).0.state (next a (first w).0).1)
              (same w) ((n a).settles (first w).0))
          (λ e h. as_before e (same w));
  }

  finish-IsAtomic : (oracle : Oracle) → IsAtomic (finish oracle now rules)
  unfolding finish flush_ike_conntrack
  finish-IsAtomic oracle = record {
    settles = λ w. elim (Bool-cases (eqb (length rules.ike) 0)) [
      | inl e ↦ rw (e) (in_force refl refl refl)
      | inr e ↦ rw (e) (in_force refl refl refl)
    ];
  }

  perform-IsAtomic :
      (oracle : Oracle) (e : Error) (a : Action) (next : Op (Unit {0}))
      → IsAtomic next
      → IsAtomic (perform oracle e a >> next)
  perform-IsAtomic oracle e a next n =
      still-IsAtomic (perform oracle e a) (λ _. next) (λ v. refl) (λ _. n)

  quiet-IsAtomic :
      {A : Type 0} (first : Op A) (next : A → Op (Unit {0}))
      → IsQuiet first
      → ((a : A) → IsAtomic (next a))
      → IsAtomic (first >>= next)
  quiet-IsAtomic first next q n = still-IsAtomic first next q.same n

  script-IsAtomic :
      (oracle : Oracle) (script : String) → IsAtomic (apply_nft_script oracle now rules script)
  unfolding apply_nft_script
  script-IsAtomic oracle script = quiet-IsAtomic _ _ get-IsQuiet λ w.
      perform-IsAtomic oracle preflight_failed (test_script w.backend.command script) _ (
        quiet-IsAtomic _ _ (enable-IsQuiet oracle rules.masq) λ _.
          perform-IsAtomic oracle apply_failed (load_script w.backend.command script) _
            (finish-IsAtomic oracle))

  restore-IsAtomic : (oracle : Oracle) → IsAtomic (apply_restore oracle now rules)
  unfolding apply_restore
  restore-IsAtomic oracle = quiet-IsAtomic _ _ get-IsQuiet λ w.
      if-IsAtomic (w.backend.restore == "") _ _ (fail-IsAtomic restore_unselected) (
        perform-IsAtomic oracle preflight_failed
          (test_script w.backend.restore (restore_script rules)) _
          (quiet-IsAtomic _ _ (enable-IsQuiet oracle rules.masq) λ _.
            perform-IsAtomic oracle apply_failed
              (load_script w.backend.restore (restore_script rules)) _
              (quiet-IsAtomic _ _ (insert-IsQuiet oracle) λ _. finish-IsAtomic oracle)))

  pub apply_nft_replacing-IsAtomic :
      (oracle : Oracle) → IsAtomic (apply_nft_replacing oracle now rules)
  unfolding apply_nft_replacing
  apply_nft_replacing-IsAtomic oracle =
      quiet-IsAtomic _ _ (lift-IsQuiet (validate_nat_rules rules))
        λ _. script-IsAtomic oracle (nft_nat_replace_script rules)

  -- Whatever commands fail, `apply` either succeeds, and the watcher then takes exactly these rules for
  -- applied, at this time; or it returns an error, and the watcher's state is what it was.
  pub apply-IsAtomic : (oracle : Oracle) → IsAtomic (apply oracle now rules)
  unfolding apply apply_nft
  apply-IsAtomic oracle = quiet-IsAtomic _ _ (lift-IsQuiet (validate_nat_rules rules)) λ _.
      quiet-IsAtomic _ _ get-IsQuiet λ w.
        if-IsAtomic (w.backend.mode == nftables) _ _ (script-IsAtomic oracle (nft_nat_script rules))
          (if-IsAtomic
            (not (w.backend.mode == iptables_nft) && not (w.backend.mode == iptables_legacy)) _ _
            (fail-IsAtomic backend_unresolved) (restore-IsAtomic oracle))
