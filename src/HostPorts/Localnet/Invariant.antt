-- ===== src/HostPorts/Localnet/Invariant.antt =====
-- What a node keeps: every bridge whose setting the manager changed is remembered with what it had.
use network_plugin_manager.Prelude.{
  ◌≡◌, sym, subst, inl, inr, ◌⊎◌, String, Bool, true, false, Option, none, some, List, ◌==◌,
  Bool-cases, arith, eq_iff,
}
use network_plugin_manager.Go.Map.{member, lookup}
use network_plugin_manager.Firewall.{nftables}
use network_plugin_manager.HostPorts.Localnet.{Node, set_at}

-- The bridge is among those that the guard protects, where there is a guard.
abbrev pub Shields : Option (List String) → String → Type 0
Shields none b = Unit
Shields (some bridges) b = member b bridges ≡ true

-- What the settings were before the first process of the manager, and the firewall's mode.
module _ (initial : String → Bool) (mode : String) where
  pub record Inv (n : Node) : Type 0 where
    pub owned : (b : String) → (n.localnet b ≡ initial b) ⊎ (lookup b n.original ≡ some (initial b))
    pub known : (b : String) (v : Bool) → lookup b n.original ≡ some v → v ≡ initial b
    pub kept : n.saved ≡ n.original
    pub guarded : (b : String) → n.localnet b ≡ true → initial b ≡ false → Shields n.guard b
    pub filled :
        (b : String)
        → n.localnet b ≡ true
        → initial b ≡ false
        → ((mode == nftables) ≡ true) ⊎ (member b n.raw ≡ true)
    pub backend : n.backend.mode ≡ mode

  -- Every bridge outside these has what it had at first.
  abbrev pub Restored : List String → Node → Type 0
  Restored bridges n = (b : String) → member b bridges ≡ false → n.localnet b ≡ initial b

  -- A bridge may be set to what it was, or to anything once it is recorded and guarded.
  pub set_at-Inv :
      (n : Node) (bridge : String) (v : Bool)
      → Inv n
      → (v ≡ initial bridge)
        ⊎ ((lookup bridge n.original ≡ some (initial bridge))
            × Shields n.guard bridge
            × (((mode == nftables) ≡ true) ⊎ (member bridge n.raw ≡ true)))
      → Inv (record n { localnet = set_at bridge v n.localnet })
  set_at-Inv n bridge v i which = record {
    owned = λ b. elim (Bool-cases (b == bridge)) [
      | inr f ↦ elim (i.owned b) [ inl p ↦ inl (ground (arith, f, p)) | inr p ↦ inr p ]
      | inl e ↦ elim which [
        | inl p ↦ inl (ground (arith, e, p, (eq_iff b bridge).0 e))
        | inr p ↦ inr (ground (arith, p.0, (eq_iff b bridge).0 e))
      ]
    ];
    known = i.known;
    kept = i.kept;
    guarded = λ b on off. elim (Bool-cases (b == bridge)) [
      | inr f ↦ i.guarded b (ground (arith, f, on)) off
      | inl e ↦ elim which [
        | inl p ↦ absurd (ground (arith, e, p, on, off, (eq_iff b bridge).0 e))
        | inr p ↦ subst (Shields n.guard) (sym ((eq_iff b bridge).0 e)) p.1
      ]
    ];
    filled = λ b on off. elim (Bool-cases (b == bridge)) [
      | inr f ↦ i.filled b (ground (arith, f, on)) off
      | inl e ↦ elim which [
        | inl p ↦ absurd (ground (arith, e, p, on, off, (eq_iff b bridge).0 e))
        | inr p ↦
            subst (λ c. ((mode == nftables) ≡ true) ⊎ (member c n.raw ≡ true))
              (sym ((eq_iff b bridge).0 e)) p.2
      ]
    ];
    backend = i.backend;
  }

  -- A guard of all bridges that are not as they were may come into force.
  pub guard-Inv :
      (n : Node) (bridges raw : List String) (guard : Option (List String))
      → Inv n
      → Restored bridges n
      → ((guard ≡ none) ⊎ (guard ≡ some bridges))
      → ((raw ≡ bridges) ⊎ ((mode == nftables) ≡ true))
      → Inv (record n { raw = raw; guard = guard })
  guard-Inv n bridges raw guard i r g f = record {
    owned = i.owned;
    known = i.known;
    kept = i.kept;
    guarded = λ b on off. elim g [
      | inl e ↦ subst (λ o. Shields o b) (sym e) tt
      | inr e ↦ subst (λ o. Shields o b) (sym e) (among b on off)
    ];
    filled = λ b on off. elim f [
      | inl e ↦ inr (subst (λ l. member b l ≡ true) (sym e) (among b on off))
      | inr e ↦ inl e
    ];
    backend = i.backend;
  }
    where
      among : (b : String) → n.localnet b ≡ true → initial b ≡ false → member b bridges ≡ true
      among b on off = elim (Bool-cases (member b bridges)) [
        | inl e ↦ e
        | inr e ↦ absurd (ground (arith, r b e, on, off))
      ]
