-- ===== src/HostPorts/Apply/Protection.antt =====
-- Every operation that puts rules in force keeps the invariant of the node, also where it fails.
use network_plugin_manager.Prelude.{
  ◌≡◌, refl, sym, ap, ◌∙◌, inl, inr, ◌⊎◌, String, Bool, true, false, ◌||◌, Option, none, some, List,
  ◌==◌, ok, arith, if◌then◌else◌,
}
use network_plugin_manager.Firewall.{nftables}
use network_plugin_manager.Effects.{test_script, load_script, fail, get}
use network_plugin_manager.Effects.Triple.{
  Triple, bind-Triple, perform-Triple, attempt-Triple, modify-Triple, pure-Triple, fail-Triple,
  get-Triple, lift-Triple, if-Triple, weaken-Triple,
}
use network_plugin_manager.HostPorts.{
  RuleSet, preflight_failed, load_failed, table_unreadable, restore_unselected,
}
use network_plugin_manager.HostPorts.Rules.{validate_rule_set}
use network_plugin_manager.HostPorts.Nft.{nft_hostport_batch}
use network_plugin_manager.HostPorts.Restore.{restore_script}
use network_plugin_manager.HostPorts.Localnet.{Node, Op}
use network_plugin_manager.HostPorts.Localnet.Invariant.{Inv, Restored, guard-Inv}
use network_plugin_manager.HostPorts.Localnet.Steps.{restore_removed-Triple}
use network_plugin_manager.HostPorts.Localnet.Activate.{Shielded, activate-Triple}
use network_plugin_manager.HostPorts.Apply.{
  Answers, bridges_of, table_exists, load_batch, record_applied, apply_batch, apply_nft, load_raw,
  load_tables, apply_restore, apply,
}
use network_plugin_manager.HostPorts.Apply.Jumps.{hook-Inv, inserted-Triple}

module _ (initial : String → Bool) (mode : String) where
  module _ (a : Answers) (rules : RuleSet) where
    -- What a successful application ends with
    pub record Applied (n : Node) : Type 0 where
      pub inv : Inv initial mode n
      pub restored : Restored initial mode (bridges_of rules) n
      pub guard : n.guard ≡ some (bridges_of rules)
      pub applied : n.applied ≡ rules

    recorded :
        Triple
          (Shielded initial mode (bridges_of rules))
          (record_applied a rules)
          (λ _. Applied)
          (Inv initial mode)
    recorded =
        modify-Triple (λ n. record n { applied = rules; last_applied = some a.now })
          λ n s. record {
            inv = record {
              owned = (s.inv).owned;
              known = (s.inv).known;
              kept = (s.inv).kept;
              guarded = (s.inv).guarded;
              filled = (s.inv).filled;
              backend = (s.inv).backend;
            };
            restored = s.restored;
            guard = s.guard;
            applied = refl;
          }

    Cleared : Node → Type 0
    Cleared n = Inv initial mode n × Restored initial mode (bridges_of rules) n

    load_batch-Triple :
        (batch : String)
        → (mode == nftables) ≡ true
        → Triple Cleared
            (load_batch a rules batch)
            (λ _. Shielded initial mode (bridges_of rules))
            (Inv initial mode)
    unfolding Cleared
    load_batch-Triple batch m =
        bind-Triple (λ _. Cleared) _ _
          (perform-Triple a.oracle load_failed (load_script "nft" batch) (λ n h. h.0))
          λ _.
            modify-Triple (λ n. record n { guard = some (bridges_of rules) })
              λ n h. record {
                inv =
                    guard-Inv initial mode n (bridges_of rules) n.raw (some (bridges_of rules)) h.0
                      h.1 (inr refl) (inr m);
                restored = h.1;
                guard = refl;
                raw = inl m;
              }

    apply_batch-Triple :
        (batch : String)
        → (mode == nftables) ≡ true
        → Triple (Inv initial mode) (apply_batch a rules batch) (λ _. Applied) (Inv initial mode)
    unfolding apply_batch Cleared
    apply_batch-Triple batch m =
        bind-Triple (λ _. Inv initial mode) _ _
          (perform-Triple a.oracle preflight_failed (test_script "nft" batch) (λ n i. i))
          λ _.
            bind-Triple (λ _. Cleared) _ _ (restore_removed-Triple initial mode a.oracle rules)
              λ _.
                bind-Triple (λ _. Shielded initial mode (bridges_of rules)) _ _
                  (load_batch-Triple batch m)
                  λ _.
                    bind-Triple (λ _. Shielded initial mode (bridges_of rules)) _ _
                      (activate-Triple initial mode a.oracle rules) λ _. recorded

    chosen : Option String → Op (Unit {0})
    chosen none = fail table_unreadable
    chosen (some text) = apply_batch a rules (nft_hostport_batch rules (table_exists text))

    answered :
        (mode == nftables) ≡ true
        → (t : Option String)
        → Triple (Inv initial mode) (chosen t) (λ _. Applied) (Inv initial mode)
    unfolding chosen
    answered m none = fail-Triple table_unreadable (λ n i. i)
    answered m (some text) = apply_batch-Triple (nft_hostport_batch rules (table_exists text)) m

    pub apply_nft-Triple :
        (mode == nftables) ≡ true
        → Triple (Inv initial mode) (apply_nft a rules) (λ _. Applied) (Inv initial mode)
    unfolding apply_nft chosen
    apply_nft-Triple m = record { ends = λ w i. (answered m a.tables).ends w i }

    -- The raw chain is filled, at least where the load succeeded.
    load_raw-Inv : (n : Node) → Cleared n → Cleared (load_raw (bridges_of rules) n)
    unfolding Cleared
    load_raw-Inv n h = (
      guard-Inv initial mode n (bridges_of rules) (bridges_of rules) _ h.0 h.1 (one_of n.guard)
          (inl refl),
      h.1,
    )
      where
        one_of :
            (g : Option (List String))
            → (elim g [ none ↦ none | some old ↦ some (bridges_of rules) ] ≡ none)
              ⊎ (elim g [ none ↦ none | some old ↦ some (bridges_of rules) ]
                  ≡ some (bridges_of rules))
        one_of none = inl refl
        one_of (some old) = inr refl

    Filled : Node → Type 0
    Filled n = Cleared n × (n.raw ≡ bridges_of rules)

    load_tables-Triple :
        (command : String)
        → Triple Cleared (load_tables a rules command) (λ _. Filled) (Inv initial mode)
    unfolding Filled Cleared
    load_tables-Triple command =
        bind-Triple (λ _. Cleared) _ _
          (attempt-Triple a.oracle load_failed (load_script command (restore_script rules)))
          λ loaded.
            bind-Triple (λ _ n. Cleared n × (loaded ≡ true → n.raw ≡ bridges_of rules)) _ _
              (if-Triple (loaded || a.committed) _ _
                (λ _.
                  modify-Triple (load_raw (bridges_of rules))
                    (λ n h. (load_raw-Inv n h, λ e. refl)))
                (λ f. pure-Triple tt (λ n h. (h, λ e. absurd (ground (arith, e, f))))))
              λ _.
                if-Triple loaded _ _ (λ e. pure-Triple tt (λ n h. (h.0, h.1 e)))
                  (λ _. fail-Triple load_failed (λ n h. h.0.0))

    apply_restore-Triple :
        (command : String)
        → (mode == nftables) ≡ false
        → Triple
            (Inv initial mode)
            (apply_restore a rules command)
            (λ _. Applied)
            (Inv initial mode)
    unfolding apply_restore Filled Cleared
    apply_restore-Triple command m =
        bind-Triple (λ _. Inv initial mode) _ _
          (perform-Triple a.oracle preflight_failed (test_script command (restore_script rules))
            (λ n i. i))
          λ _.
            bind-Triple (λ _. Cleared) _ _ (restore_removed-Triple initial mode a.oracle rules)
              λ _.
                bind-Triple (λ _. Filled) _ _ (load_tables-Triple command)
                  λ _.
                    bind-Triple (λ _. Shielded initial mode (bridges_of rules)) _ _
                      (weaken-Triple (λ n h. h) (λ u n h. shielded n h) (λ n i. i)
                        (inserted-Triple initial mode {before = Filled} a (λ n h. h.0.0)
                          (λ p n h. ((hook-Inv initial mode p n h.0.0, h.0.1), h.1))))
                      λ _.
                        bind-Triple (λ _. Shielded initial mode (bridges_of rules)) _ _
                          (activate-Triple initial mode a.oracle rules) λ _. recorded
      where
        shielded :
            (n : Node)
            → Filled n × (((mode == nftables) ≡ true) ⊎ (n.guard ≡ some n.raw))
            → Shielded initial mode (bridges_of rules) n
        shielded n h = elim (h.1) [
          | inl e ↦ absurd (ground (arith, e, m))
          | inr e ↦ record {
            inv = h.0.0.0;
            restored = h.0.0.1;
            guard = e ∙ ap some h.0.1;
            raw = inr h.0.1;
          }
        ]

    dispatch : Node → Op (Unit {0})
    dispatch s =
        if s.backend.mode == nftables
        then apply_nft a rules
        else if s.backend.restore == ""
        then fail restore_unselected
        else apply_restore a rules s.backend.restore

    dispatch-Triple :
        (s : Node)
        → s.backend.mode ≡ mode
        → Triple (Inv initial mode) (dispatch s) (λ _. Applied) (Inv initial mode)
    unfolding dispatch
    dispatch-Triple s e =
        if-Triple (s.backend.mode == nftables) _ _
          (λ m. apply_nft-Triple (ap (λ k. k == nftables) (sym e) ∙ m))
          (λ m.
            if-Triple (s.backend.restore == "") _ _ (λ _. fail-Triple restore_unselected (λ n i. i))
              (λ _. apply_restore-Triple s.backend.restore (ap (λ k. k == nftables) (sym e) ∙ m)))

    pub apply-Triple : Triple (Inv initial mode) (apply a rules) (λ _. Applied) (Inv initial mode)
    unfolding apply dispatch
    apply-Triple =
        bind-Triple (λ u n. (validate_rule_set rules ≡ ok u) × Inv initial mode n) _ _
          (lift-Triple (validate_rule_set rules) (λ n i. i))
          λ u.
            bind-Triple (λ s n. (s ≡ n) × ((validate_rule_set rules ≡ ok u) × Inv initial mode n))
              get dispatch get-Triple
              λ s. record {
                ends = λ w h.
                    (dispatch-Triple s
                        (ap (λ (k : Node). k.backend.mode) h.0 ∙ (h.1.1).backend)).ends
                      w h.1.1;
              }
