-- ===== src/HostPorts/Bridge/Agreement.antt =====
-- All bridge entries of a network agree with the configuration chosen, in whatever order they stand.
use mathlib.Core.List.{Permᴰ}
use network_plugin_manager.Prelude.{
  ◌≡◌, refl, ap, subst, inl, inr, String, true, Option, none, some, List, [], ◌∷◌, ◌==◌, ok, ◌>>=◌,
  >>=-eq-ok, arith, eq_iff, fun_ext, Bool-cases, Result-cases,
}
use network_plugin_manager.Go.Map.{Map, keys, lookup, lookup-perm, keys-perm, Distinct, member}
use network_plugin_manager.Go.Sort.{sort, sort-permᴰ, member-sort}
use network_plugin_manager.Metadata.{Json, as_object}
use network_plugin_manager.HostPorts.Bridge.{
  BridgeConfig, no_bridge, candidate_of, config_eq, is_bridge_entry, merge, bridge_step,
  bridge_loop, bridge_config,
}

config_eq-eq : (a b : BridgeConfig) → config_eq a b ≡ true → a ≡ b
config_eq-eq a b h = ground (arith, eq_iff a.bridge b.bridge, eq_iff a.subnet b.subnet)

bridge_loop-same :
    (m n : Map Json) (ks : List String) (r : Option BridgeConfig)
    → ((k : String) → lookup k m ≡ lookup k n)
    → bridge_loop m ks r ≡ bridge_loop n ks r
unfolding bridge_loop
bridge_loop-same m n [] r h = refl
bridge_loop-same m n (k ∷ ks) r h = rw (h k) (
    ap (λ f. bridge_step (as_object (lookup k n)) r >>= f)
      (fun_ext λ q. bridge_loop-same m n ks q h))

-- The configuration of a network does not depend on the order in which Go's map yields its entries.
pub bridge_config-perm :
    {m n : Map Json} → Permᴰ m n → Distinct m → bridge_config m ≡ bridge_config n
unfolding bridge_config
bridge_config-perm {m} {n} p d = rw (sort-permᴰ (keys-perm p)) (
    ap (λ r. r >>= λ q. ok (elim q [ none ↦ no_bridge | some c ↦ c ]))
      (bridge_loop-same m n (sort (keys n)) none (λ k. lookup-perm k p d)))

-- A round keeps what was found, and finds what a bridge entry says.
bridge_step-keeps :
    (props : Map Json) (a : BridgeConfig) (q : Option BridgeConfig)
    → bridge_step props (some a) ≡ ok q
    → q ≡ some a
unfolding bridge_step merge
bridge_step-keeps props a q h = elim (Result-cases (candidate_of props)) [
  | inl (c, e) ↦ ground (arith, e)
  | inr (x, e) ↦ ground (arith, e)
]

bridge_step-finds :
    (props : Map Json) (r q : Option BridgeConfig)
    → is_bridge_entry props ≡ true
    → bridge_step props r ≡ ok q
    → (c : BridgeConfig) × (candidate_of props ≡ ok c) × (q ≡ some c)
unfolding bridge_step merge
bridge_step-finds props r q b h = elim (Result-cases (candidate_of props)) [
  | inl (c, e) ↦ (c, e, found r c q (ground (arith, e)))
  | inr (x, e) ↦ absurd (ground (arith, e))
]
  where
    found :
        (r : Option BridgeConfig) (c : BridgeConfig) (q : Option BridgeConfig)
        → merge r c ≡ ok q
        → q ≡ some c
    found none c q h = ground arith
    found (some a) c q h = ground (arith, config_eq-eq c a)

bridge_loop-keeps :
    (conf : Map Json) (ks : List String) (a : BridgeConfig) (q : Option BridgeConfig)
    → bridge_loop conf ks (some a) ≡ ok q
    → q ≡ some a
unfolding bridge_loop
bridge_loop-keeps conf [] a q h = ground arith
bridge_loop-keeps conf (k ∷ ks) a q h =
    let (r, s, t) = >>=-eq-ok (bridge_step (as_object (lookup k conf)) (some a)) _ h in
    bridge_loop-keeps conf ks a q
      (subst (λ x. bridge_loop conf ks x ≡ ok q) (bridge_step-keeps _ a r s) t)

bridge_loop-finds :
    (conf : Map Json) (ks : List String) (r q : Option BridgeConfig) (k : String)
    → member k ks ≡ true
    → is_bridge_entry (as_object (lookup k conf)) ≡ true
    → bridge_loop conf ks r ≡ ok q
    → (c : BridgeConfig) × (candidate_of (as_object (lookup k conf)) ≡ ok c) × (q ≡ some c)
unfolding bridge_loop member
bridge_loop-finds conf [] r q k m b h = cc
bridge_loop-finds conf (j ∷ ks) r q k m b h =
    let (x, s, t) = >>=-eq-ok (bridge_step (as_object (lookup j conf)) r) _ h in
    elim (Bool-cases (k == j)) [
      | inr other ↦ bridge_loop-finds conf ks x q k (ground arith) b t
      | inl same ↦
          let e : k ≡ j = (eq_iff k j).0 same in
          let f = bridge_step-finds (as_object (lookup j conf)) r x (rw (← e) b) s in
          (
            f.0,
            rw e (f.1),
            bridge_loop-keeps conf ks f.0 q (subst (λ y. bridge_loop conf ks y ≡ ok q) f.2 t),
          )
    ]

-- Where a configuration is chosen, every entry of a bridge type says that very configuration: no entry
-- that disagrees is passed over.
pub bridge_config-agrees :
    (conf : Map Json) (c : BridgeConfig) (k : String)
    → bridge_config conf ≡ ok c
    → member k (keys conf) ≡ true
    → is_bridge_entry (as_object (lookup k conf)) ≡ true
    → candidate_of (as_object (lookup k conf)) ≡ ok c
unfolding bridge_config
bridge_config-agrees conf c k h m b =
    let (q, l, e) = >>=-eq-ok (bridge_loop conf (sort (keys conf)) none) _ h in
    let f = bridge_loop-finds conf (sort (keys conf)) none q k (member-sort k (keys conf) m) b l in
    ground (arith, f.1, f.2, e)
