-- ===== src/HostPorts/Localnet/Activate.antt =====
-- `activateRouteLocalnet`: what the bridges had is recorded before the setting is enabled, and the guard
-- stands by then.
use network_plugin_manager.Prelude.{
  ◌≡◌, refl, sym, subst, ap, ◌∙◌, inl, inr, ◌⊎◌, String, Bool, true, ◌||◌, Option, none, some, List,
  [], ◌∷◌, ◌==◌, ok, arith, eq_iff, Bool-cases,
}
use network_plugin_manager.Go.Map.{Map, member, lookup, put}
use network_plugin_manager.Firewall.{nftables}
use network_plugin_manager.Effects.{Oracle, file}
use network_plugin_manager.Effects.Triple.{
  Triple, bind-Triple, perform-Triple, modify-Triple, pure-Triple, get-Triple, lift-Triple,
  weaken-Triple, fact-Triple,
}
use network_plugin_manager.HostPorts.{RuleSet, localnet_unknown}
use network_plugin_manager.HostPorts.Parse.{validate_bridge_name}
use network_plugin_manager.HostPorts.Nft.{sorted_enabled_bridges}
use network_plugin_manager.HostPorts.Localnet.{
  Node, set_at, localnet_path, read_bridge_route_localnet, known_or_read, collect, enable_bridges,
  activate_route_localnet,
}
use network_plugin_manager.Go.Map.Values.{lookup-put}
use network_plugin_manager.HostPorts.Localnet.Invariant.{Shields, Inv, Restored, set_at-Inv}
use network_plugin_manager.HostPorts.Localnet.Steps.{set_bridge-Triple, save-Triple}

module _ (initial : String → Bool) (mode : String) (bridges : List String) where
  -- The guard of these bridges stands, and all others have what they had.
  pub record Shielded (n : Node) : Type 0 where
    pub inv : Inv initial mode n
    pub restored : Restored initial mode bridges n
    pub guard : n.guard ≡ some bridges
    pub raw : ((mode == nftables) ≡ true) ⊎ (n.raw ≡ bridges)

  -- A record of what bridges had, with these among them
  record Recorded (done : List String) (next : Map Bool) : Type 0 where
    has : (b : String) → member b done ≡ true → lookup b next ≡ some (initial b)
    right : (b : String) (v : Bool) → lookup b next ≡ some v → v ≡ initial b

  put-Recorded :
      (done : List String) (next : Map Bool) (bridge : String) (v : Bool)
      → v ≡ initial bridge
      → Recorded done next
      → Recorded (bridge ∷ done) (put bridge v next)
  unfolding member
  put-Recorded done next bridge v e r = record {
    has = λ b h. elim (Bool-cases (b == bridge)) [
      | inl q ↦
          ground (arith, lookup-put bridge b v next, e, (eq_iff b bridge).0 q, eq_iff bridge b)
      | inr q ↦
          ground
            (arith, lookup-put bridge b v next, eq_iff bridge b, eq_iff b bridge, q, h, r.has b)
    ];
    right = λ b w h. elim (Bool-cases (bridge == b)) [
      | inl q ↦ ground (arith, lookup-put bridge b v next, e, (eq_iff bridge b).0 q, q, h)
      | inr q ↦ r.right b w (ground (arith, lookup-put bridge b v next, q, h))
    ];
  }

  record Reading (original : Map Bool) (n : Node) : Type 0 where
    shielded : Shielded n
    same : n.original ≡ original

  known_or_read-Triple :
      (oracle : Oracle) (original : Map Bool) (bridge : String) (o : Option Bool)
      → lookup bridge original ≡ o
      → Triple
          (Reading original)
          (known_or_read oracle bridge o)
          (λ v n. Reading original n × (v ≡ initial bridge))
          (Inv initial mode)
  unfolding known_or_read read_bridge_route_localnet
  known_or_read-Triple oracle original bridge (some v) e = pure-Triple v (λ n r.
      (r, ((r.shielded).inv).known bridge v (subst (λ o. lookup bridge o ≡ some v) (sym r.same) e)))
  known_or_read-Triple oracle original bridge none e =
      bind-Triple (λ u n. (validate_bridge_name bridge ≡ ok u) × Reading original n) _ _
        (lift-Triple (validate_bridge_name bridge) (λ n r. (r.shielded).inv))
        λ u.
          bind-Triple (λ _ n. (validate_bridge_name bridge ≡ ok u) × Reading original n) _ _
            (perform-Triple oracle localnet_unknown (file "read" (localnet_path bridge))
              (λ n r. (r.1.shielded).inv))
            λ _.
              bind-Triple
                (λ s n. (s ≡ n) × ((validate_bridge_name bridge ≡ ok u) × Reading original n)) _ _
                get-Triple
                λ s. pure-Triple (s.localnet bridge) (λ n r. (r.1.1, value s n r.0 r.1.1))
    where
      value : (s n : Node) → s ≡ n → Reading original n → s.localnet bridge ≡ initial bridge
      value s n q r = elim (((r.shielded).inv).owned bridge) [
        | inl p ↦ ap (λ (m : Node). m.localnet bridge) q ∙ p
        | inr p ↦ cc (p, ap (lookup bridge) r.same, e)
      ]

  collect-Triple :
      (oracle : Oracle) (original : Map Bool) (bs done : List String) (next : Map Bool)
      → Recorded done next
      → Triple
          (Reading original)
          (collect oracle original bs next)
          (λ final n.
            Reading original n
            × ((b : String)
                → (member b bs || member b done) ≡ true
                → lookup b final ≡ some (initial b))
            × ((b : String) (v : Bool) → lookup b final ≡ some v → v ≡ initial b))
          (Inv initial mode)
  unfolding collect member
  collect-Triple oracle original [] done next r = pure-Triple next (λ n p. (p, r.has, r.right))
  collect-Triple oracle original (bridge ∷ bs) done next r =
      bind-Triple (λ v n. Reading original n × (v ≡ initial bridge)) _ _
        (known_or_read-Triple oracle original bridge (lookup bridge original) refl)
        λ v. fact-Triple λ e.
          weaken-Triple (λ n p. p) (λ final n q. (q.0, λ b k. q.1 b (ground (arith, k)), q.2))
            (λ n i. i)
            (collect-Triple oracle original bs (bridge ∷ done) (put bridge v next)
              (put-Recorded done next bridge v e r))

  -- The settings are recorded in the file, and then in memory.
  Stored : Map Bool → Node → Type 0
  Stored next n =
      (m : Node) × Shielded m
      × ((b : String) → member b bridges ≡ true → lookup b next ≡ some (initial b))
      × ((b : String) (v : Bool) → lookup b next ≡ some v → v ≡ initial b)
      × (n ≡ record m { saved = next })

  recorded-Inv :
      (m : Node) (next : Map Bool)
      → Shielded m
      → ((b : String) → member b bridges ≡ true → lookup b next ≡ some (initial b))
      → ((b : String) (v : Bool) → lookup b next ≡ some v → v ≡ initial b)
      → Inv initial mode (record m { saved = next; original = next })
  recorded-Inv m next s h k = record {
    owned = λ b. elim (Bool-cases (member b bridges)) [
      | inl e ↦ inr (h b e)
      | inr e ↦ inl (s.restored b e)
    ];
    known = k;
    kept = refl;
    guarded = (s.inv).guarded;
    filled = (s.inv).filled;
    backend = (s.inv).backend;
  }

  -- From here on only these bridges are set, and what each had is recorded.
  record Ready (n : Node) : Type 0 where
    shielded : Shielded n
    has : (b : String) → member b bridges ≡ true → lookup b n.original ≡ some (initial b)

  recorded-Ready :
      (next : Map Bool) (n : Node) → Stored next n → Ready (record n { original = next })
  unfolding Stored
  recorded-Ready next n (m, s, h, k, e) =
      subst (λ (t : Node). Ready (record t { original = next })) (sym e)
        (record {
          shielded = record {
            inv = recorded-Inv m next s h k;
            restored = s.restored;
            guard = s.guard;
            raw = s.raw;
          };
          has = h;
        })

  enable-Ready :
      (bridge : String) (n : Node)
      → member bridge bridges ≡ true
      → Ready n
      → Ready (record n { localnet = set_at bridge true n.localnet })
  enable-Ready bridge n h r = record {
    shielded = record {
      inv = set_at-Inv initial mode n bridge true (r.shielded).inv (
          inr (
            r.has bridge h,
            subst (λ g. Shields g bridge) (sym (r.shielded).guard) h,
            elim ((r.shielded).raw) [ inl e ↦ inl e | inr e ↦ inr (ap (member bridge) e ∙ h) ],
          ));
      restored = λ b k. elim (Bool-cases (b == bridge)) [
        | inl e ↦ absurd (ground (arith, ap (λ c. member c bridges) ((eq_iff b bridge).0 e), h, k))
        | inr e ↦ ground (arith, e, (r.shielded).restored b k)
      ];
      guard = (r.shielded).guard;
      raw = (r.shielded).raw;
    };
    has = r.has;
  }

  enable-Triple :
      (oracle : Oracle) (bs : List String)
      → ((b : String) → member b bs ≡ true → member b bridges ≡ true)
      → Triple Ready (enable_bridges oracle bs) (λ _. Ready) (Inv initial mode)
  unfolding enable_bridges member
  enable-Triple oracle [] f = pure-Triple tt (λ n r. r)
  enable-Triple oracle (bridge ∷ bs) f =
      bind-Triple (λ _. Ready) _ _
        (set_bridge-Triple oracle bridge true
          (λ n r. enable-Ready bridge n (f bridge (ground (arith, eq_iff bridge bridge))) r)
          (λ n r. (r.shielded).inv))
        λ _. enable-Triple oracle bs (λ b h. f b (ground (arith, h)))

module _ (initial : String → Bool) (mode : String) where
  pub activate-Triple :
      (oracle : Oracle) (rules : RuleSet)
      → Triple
          (Shielded initial mode (sorted_enabled_bridges rules.route_localnet_bridges))
          (activate_route_localnet oracle rules)
          (λ _. Shielded initial mode (sorted_enabled_bridges rules.route_localnet_bridges))
          (Inv initial mode)
  unfolding activate_route_localnet member lookup Stored
  activate-Triple oracle rules =
      let bridges = sorted_enabled_bridges rules.route_localnet_bridges in
      bind-Triple (λ s n. (s ≡ n) × Shielded initial mode bridges n) _ _ get-Triple
        λ s.
          bind-Triple
            (λ next n.
              Reading initial mode bridges s.original n
              × ((b : String)
                  → (member b bridges || member b []) ≡ true
                  → lookup b next ≡ some (initial b))
              × ((b : String) (v : Bool) → lookup b next ≡ some v → v ≡ initial b))
            _ _
            (weaken-Triple
              (λ n p. record { shielded = p.1; same = ap (λ (m : Node). m.original) (sym p.0) })
              (λ next n q. q) (λ n i. i)
              (collect-Triple initial mode bridges oracle s.original bridges [] []
                (record { has = λ b h. cc; right = λ b v h. cc })))
            λ next.
              bind-Triple (λ _. Stored initial mode bridges next) _ _
                (save-Triple oracle next
                  (λ n p. (n, p.0.shielded, λ b h. p.1 b (ground (arith, h)), p.2, refl))
                  (λ n p. (p.0.shielded).inv))
                λ _.
                  bind-Triple (λ _. Ready initial mode bridges) _ _
                    (modify-Triple (λ n. record n { original = next })
                      (λ n t. recorded-Ready initial mode bridges next n t))
                    λ _.
                      weaken-Triple (λ n r. r) (λ u n r. r.shielded) (λ n i. i)
                        (enable-Triple initial mode bridges oracle bridges (λ b h. h))
