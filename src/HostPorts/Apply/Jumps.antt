-- ===== src/HostPorts/Apply/Jumps.antt =====
-- `insertBaseRules`: the jumps into the chains, and with them the guard, come into force.
use network_plugin_manager.Prelude.{
  ◌≡◌, refl, sym, ap, ◌∙◌, inl, inr, ◌⊎◌, String, Bool, true, false, ◌&&◌, none, some, List, [],
  ◌∷◌, ◌==◌, arith,
}
use network_plugin_manager.Firewall.{nftables}
use network_plugin_manager.Effects.{Action, run, pure, perform, attempt}
use network_plugin_manager.Effects.Triple.{
  Triple, bind-Triple, attempt-Triple, ignore-Triple, modify-Triple, pure-Triple, fail-Triple,
  get-Triple, if-Triple, weaken-Triple,
}
use network_plugin_manager.HostPorts.{base_rules_failed, command_unselected}
use network_plugin_manager.HostPorts.Localnet.{Node}
use network_plugin_manager.HostPorts.Localnet.Invariant.{Inv}
use network_plugin_manager.HostPorts.Apply.{
  Answers, forward_jump_is_first, ensure_rule, ensure_forward_jump_first, hook_raw, insert_jumps,
  insert_base_rules,
}

ensure_rule-Triple :
    {before : Node → Type 0} {bad : Node → Type 0} (a : Answers) (check insertion : List String)
    → Triple before (ensure_rule a check insertion) (λ _. before) bad
ensure_rule-Triple {before} a check insertion =
    bind-Triple (λ _. before) _ _ (attempt-Triple a.oracle base_rules_failed (run check))
      λ there.
        if-Triple there _ _ (λ _. pure-Triple true (λ n h. h))
          (λ _. attempt-Triple a.oracle base_rules_failed (run insertion))

forward-Triple :
    {before : Node → Type 0} {bad : Node → Type 0} (a : Answers) (iptables : String)
    → Triple before (ensure_forward_jump_first a iptables) (λ _. before) bad
unfolding ensure_forward_jump_first
forward-Triple {before} a iptables =
    let first : Bool = elim (a.forward) [ none ↦ false | some text ↦ forward_jump_is_first text ] in
    let insertion : Action =
      run (iptables ∷ "-w" ∷ "-I" ∷ "FORWARD" ∷ "1" ∷ "-j" ∷ "CATTLE_FORWARD" ∷ []) in
    bind-Triple (λ _. before) _ _
      (ignore-Triple a.oracle base_rules_failed (run (iptables ∷ "-w" ∷ "-S" ∷ "FORWARD" ∷ [])))
      λ _.
        if-Triple first (pure true) (attempt (perform a.oracle base_rules_failed insertion))
          (λ _. pure-Triple true (λ n h. h))
          (λ _. attempt-Triple a.oracle base_rules_failed insertion)

-- What is true of the node stays so when its raw chain is hooked in, and then the chain is in force.
insert_jumps-Triple :
    {before : Node → Type 0} {bad : Node → Type 0} (a : Answers) (iptables : String)
    → ((n : Node) → before n → before (record n { guard = some n.raw }))
    → ((n : Node) → before n → bad n)
    → Triple before (insert_jumps a iptables) (λ _ n. before n × (n.guard ≡ some n.raw)) bad
unfolding insert_jumps
insert_jumps-Triple {before} {bad} a iptables hook f =
    bind-Triple (λ _. before) _ _ (ensure_rule-Triple a _ _)
      λ raw.
        bind-Triple (λ _. Hooked raw) _ _ (hooked raw)
          λ _.
            bind-Triple (λ _. Hooked raw) _ _ (ensure_rule-Triple a _ _)
              λ prerouting.
                bind-Triple (λ _. Hooked raw) _ _ (forward-Triple a iptables)
                  λ forward.
                    bind-Triple (λ _. Hooked raw) _ _ (ensure_rule-Triple a _ _)
                      λ output.
                        bind-Triple (λ _. Hooked raw) _ _ (ensure_rule-Triple a _ _)
                          λ postrouting.
                            if-Triple (raw && prerouting && forward && output && postrouting) _ _
                              (λ all. pure-Triple tt (λ n h. (h.0, h.1 (ground (arith, all)))))
                              (λ _. fail-Triple base_rules_failed (λ n h. f n h.0))
  where
    Hooked : Bool → Node → Type 0
    Hooked raw n = before n × (raw ≡ true → n.guard ≡ some n.raw)

    hooked : (raw : Bool) → Triple before (hook_raw raw) (λ _. Hooked raw) bad
    hooked true =
        modify-Triple (λ n. record n { guard = some n.raw }) (λ n h. (hook n h, λ e. refl))
    hooked false = pure-Triple tt (λ n h. (h, λ e. cc))

module _ (initial : String → Bool) (mode : String) where
  -- Hooking the raw chain in is safe where it is used.
  pub hook-Inv :
      (mode == nftables) ≡ false
      → (n : Node) → Inv initial mode n
      → Inv initial mode (record n { guard = some n.raw })
  hook-Inv m n i = record {
    owned = i.owned;
    known = i.known;
    kept = i.kept;
    guarded =
        λ b on off. elim (i.filled b on off) [ inl e ↦ absurd (ground (arith, e, m)) | inr e ↦ e ];
    filled = i.filled;
    backend = i.backend;
  }

  -- The base rules are inserted for the same backend all the time.
  pub inserted-Triple :
      {before : Node → Type 0} (a : Answers)
      → ((n : Node) → before n → Inv initial mode n)
      → ((mode == nftables) ≡ false
          → (n : Node) → before n
          → before (record n { guard = some n.raw }))
      → Triple before
          (insert_base_rules a)
          (λ _ n. before n × (((mode == nftables) ≡ true) ⊎ (n.guard ≡ some n.raw)))
          (Inv initial mode)
  unfolding insert_base_rules
  inserted-Triple {before} a inv hook =
      bind-Triple (λ s n. (s ≡ n) × before n) _ _ get-Triple
        λ s.
          if-Triple (s.backend.mode == nftables) _ _
            (λ m. pure-Triple tt (λ n h. (h.1, inl (same s n h.0 (inv n h.1) ∙ m))))
            (λ m.
              if-Triple (s.backend.command == "") _ _
                (λ _. fail-Triple command_unselected (λ n h. inv n h.1))
                (λ _. record {
                  ends = λ w h.
                      let p : (mode == nftables) ≡ false =
                        same s w.state h.0 (inv w.state h.1) ∙ m in
                      let t : Triple before (insert_jumps a s.backend.command)
                          (λ _ n. before n × (((mode == nftables) ≡ true) ⊎ (n.guard ≡ some n.raw)))
                          (Inv initial mode) =
                        weaken-Triple (λ n k. k) (λ u n k. (k.0, inr k.1)) (λ n k. k)
                          (insert_jumps-Triple a s.backend.command (hook p) inv) in
                      t.ends w h.1;
                }))
    where
      same :
          (s n : Node)
          → s ≡ n
          → Inv initial mode n
          → (mode == nftables) ≡ (s.backend.mode == nftables)
      same s n e i =
          ap (λ m. m == nftables) (sym i.backend)
          ∙ ap (λ (k : Node). k.backend.mode == nftables) (sym e)

  pub insert_base_rules-Triple :
      (a : Answers)
      → Triple (Inv initial mode) (insert_base_rules a) (λ _. Inv initial mode) (Inv initial mode)
  insert_base_rules-Triple a =
      weaken-Triple (λ n i. i) (λ u n h. h.0) (λ n i. i) (inserted-Triple a (λ n i. i) hook-Inv)
