-- ===== src/HostPorts/Localnet/Steps.antt =====
-- What the operations of hostports/route_localnet.go keep of a node, and what they bring about.
use network_plugin_manager.Prelude.{
  ◌≡◌, ◌≢◌, sym, subst, ap, inl, inr, String, Bool, true, false, ◌||◌, none, some, List, [], ◌∷◌,
  ◌==◌, ok, arith, eq_iff, Bool-cases, Option-cases,
}
use network_plugin_manager.Go.Map.{Map, member, lookup, lookup_or}
use network_plugin_manager.Effects.{Oracle, file, perform}
use network_plugin_manager.Effects.Triple.{
  Triple, bind-Triple, perform-Triple, deferred-Triple, modify-Triple, pure-Triple, get-Triple,
  lift-Triple, weaken-Triple,
}
use network_plugin_manager.HostPorts.{RuleSet, localnet_failed, save_failed}
use network_plugin_manager.HostPorts.Parse.{validate_bridge_name}
use network_plugin_manager.HostPorts.Nft.{sorted_enabled_bridges}
use network_plugin_manager.HostPorts.Localnet.{
  Node, set_at, save_route_localnet_state, localnet_path, state_directory,
  route_localnet_state_path, set_bridge_route_localnet, removed_bridges, restore_bridges,
  restore_removed_route_localnet,
}
use network_plugin_manager.HostPorts.Localnet.Bridges.{removed-member, removed-known}
use network_plugin_manager.HostPorts.Localnet.Invariant.{Inv, Restored, set_at-Inv}

pub set_bridge-Triple :
    {before : Node → Type 0} {good : Node → Type 0} {bad : Node → Type 0} (oracle : Oracle)
    (bridge : String) (v : Bool)
    → ((n : Node) → before n → good (record n { localnet = set_at bridge v n.localnet }))
    → ((n : Node) → before n → bad n)
    → Triple before (set_bridge_route_localnet oracle bridge v) (λ _. good) bad
unfolding set_bridge_route_localnet
set_bridge-Triple {before} oracle bridge v g f =
    bind-Triple (λ u n. (validate_bridge_name bridge ≡ ok u) × before n) _ _
      (lift-Triple (validate_bridge_name bridge) f)
      λ u.
        bind-Triple (λ _ n. (validate_bridge_name bridge ≡ ok u) × before n) _ _
          (perform-Triple oracle localnet_failed (file "write" (localnet_path bridge))
            (λ n h. f n h.1))
          λ _.
            modify-Triple (λ n. record n { localnet = set_at bridge v n.localnet }) (λ n h. g n h.1)

pub save-Triple :
    {before : Node → Type 0} {good : Node → Type 0} {bad : Node → Type 0} (oracle : Oracle)
    (next : Map Bool)
    → ((n : Node) → before n → good (record n { saved = next }))
    → ((n : Node) → before n → bad n)
    → Triple before (save_route_localnet_state oracle next) (λ _. good) bad
unfolding save_route_localnet_state
save-Triple {before} {good} {bad} oracle next g f =
    bind-Triple (λ _. before) _ _ (one "mkdir" state_directory)
      λ _.
        bind-Triple (λ _. before) _ _ (one "create" state_directory)
          λ _. deferred-Triple _ oracle save_failed (file "remove" state_directory) (
            bind-Triple (λ _. before) _ _ (one "chmod" state_directory)
              λ _.
                bind-Triple (λ _. before) _ _ (one "write" state_directory)
                  λ _.
                    bind-Triple (λ _. before) _ _ (one "sync" state_directory)
                      λ _.
                        bind-Triple (λ _. before) _ _ (one "close" state_directory)
                          λ _.
                            bind-Triple (λ _. before) _ _ (one "rename" route_localnet_state_path)
                              λ _. modify-Triple (λ n. record n { saved = next }) g)
  where
    one :
        (operation path : String)
        → Triple before (perform oracle save_failed (file operation path)) (λ _. before) bad
    one operation path = perform-Triple oracle save_failed (file operation path) f

module _ (initial : String → Bool) (mode : String) where
  -- While the changed settings are put back: those of these bridges are.
  record Putting (original : Map Bool) (fixed : List String) (n : Node) : Type 0 where
    inv : Inv initial mode n
    same : n.original ≡ original
    back : (b : String) → member b fixed ≡ true → n.localnet b ≡ initial b

  put_back :
      (original : Map Bool) (fixed : List String) (bridge : String) (n : Node)
      → lookup bridge original ≢ none
      → Putting original fixed n
      → Putting original
          (bridge ∷ fixed)
          (record n { localnet = set_at bridge (lookup_or false bridge original) n.localnet })
  unfolding lookup_or member
  put_back original fixed bridge n k p =
      let v : lookup_or false bridge original ≡ initial bridge =
        elim (Option-cases (lookup bridge original)) [
          | inl e ↦ absurd (k e)
          | inr (v, e) ↦ ground (arith, e, (p.inv).known bridge v (ground (arith, e, p.same)))
        ] in
      record {
        inv = set_at-Inv initial mode n bridge (lookup_or false bridge original) p.inv (inl v);
        same = p.same;
        back = λ b h. elim (Bool-cases (b == bridge)) [
          | inl e ↦ ground (arith, e, v, (eq_iff b bridge).0 e)
          | inr f ↦ ground (arith, f, h, p.back b)
        ];
      }

  restore_bridges-Triple :
      (oracle : Oracle) (original : Map Bool) (bridges fixed : List String)
      → ((b : String) → member b bridges ≡ true → lookup b original ≢ none)
      → Triple
          (Putting original fixed)
          (restore_bridges oracle original bridges)
          (λ _ n.
            Inv initial mode n
            × (n.original ≡ original)
            × ((b : String)
                → (member b bridges || member b fixed) ≡ true
                → n.localnet b ≡ initial b))
          (Inv initial mode)
  unfolding restore_bridges member
  restore_bridges-Triple oracle original [] fixed k =
      pure-Triple tt (λ n p. (p.inv, p.same, λ b h. p.back b h))
  restore_bridges-Triple oracle original (bridge ∷ bridges) fixed k =
      bind-Triple (λ _. Putting original (bridge ∷ fixed)) _ _
        (set_bridge-Triple oracle bridge (lookup_or false bridge original)
          (λ n p.
            put_back original fixed bridge n (k bridge (ground (arith, eq_iff bridge bridge))) p)
          (λ n p. p.inv))
        λ _.
          weaken-Triple (λ n p. p) (λ u n q. (q.0, q.1, λ b h. q.2 b (ground (arith, h))))
            (λ n i. i)
            (restore_bridges-Triple oracle original bridges (bridge ∷ fixed)
              (λ b h. k b (ground (arith, h))))

  -- Behind it every bridge that the rules do not name has what it had at first.
  pub restore_removed-Triple :
      (oracle : Oracle) (rules : RuleSet)
      → Triple
          (Inv initial mode)
          (restore_removed_route_localnet oracle rules)
          (λ _ n.
            Inv initial mode n
            × Restored initial mode (sorted_enabled_bridges rules.route_localnet_bridges) n)
          (Inv initial mode)
  unfolding restore_removed_route_localnet member
  restore_removed-Triple oracle rules =
      bind-Triple (λ s n. (s ≡ n) × Inv initial mode n) _ _ get-Triple
        λ s.
          weaken-Triple
            (λ n p. record {
              inv = p.1;
              same = ap (λ (m : Node). m.original) (sym p.0);
              back = λ b h. cc;
            })
            (λ u n q. (q.0, λ b h. outside s.original n q.0 q.1 q.2 b h)) (λ n i. i)
            (restore_bridges-Triple oracle s.original (removed_bridges rules s.original) []
              (λ b. removed-known rules s.original b))
    where
      outside :
          (original : Map Bool) (n : Node)
          → Inv initial mode n
          → n.original ≡ original
          → ((b : String)
              → (member b (removed_bridges rules original) || member b []) ≡ true
              → n.localnet b ≡ initial b)
          → (b : String) → member b (sorted_enabled_bridges rules.route_localnet_bridges) ≡ false
          → n.localnet b ≡ initial b
      outside original n i same back b h = elim (i.owned b) [
        | inl e ↦ e
        | inr e ↦ back b (
            ground (
              arith,
              removed-member rules original b (initial b)
                  (subst (λ o. lookup b o ≡ some (initial b)) same e) h,
            ))
      ]
