-- ===== src/HostPorts/Localnet/Bridges.antt =====
-- Which bridges are among those that are sorted, enabled or removed.
use network_plugin_manager.Prelude.{
  ◌≡◌, ◌≢◌, sym, subst, ◌∙◌, inl, inr, String, Bool, true, false, not, none, some, List, [], ◌∷◌,
  ◌==◌, keep, arith, eq_iff, Bool-cases,
}
use network_plugin_manager.Go.Map.{Map, member, lookup, lookup_or, keys}
use network_plugin_manager.Go.Sort.{member-sort_same}
use network_plugin_manager.HostPorts.{RuleSet}
use network_plugin_manager.HostPorts.Nft.{enabled_bridges, sorted_enabled_bridges}
use network_plugin_manager.HostPorts.Localnet.{removed_bridges}

-- A bridge that the rules enable is among the sorted ones.
lookup-enabled :
    (b : String) (m : Map Bool) → lookup_or false b m ≡ true → member b (enabled_bridges m) ≡ true
unfolding lookup_or lookup member enabled_bridges
lookup-enabled b [] h = ground (arith, h)
lookup-enabled b ((k, true) ∷ m) h = ground (arith, eq_iff k b, eq_iff b k, lookup-enabled b m)
lookup-enabled b ((k, false) ∷ m) h = ground (arith, eq_iff k b, eq_iff b k, lookup-enabled b m)

member-keys :
    {V : Type 0} (b : String) (v : V) (m : Map V) → lookup b m ≡ some v → member b (keys m) ≡ true
unfolding member lookup
member-keys b v [] h = cc
member-keys b v (e ∷ m) h = ground (arith, eq_iff e.0 b, eq_iff b e.0, member-keys b v m)

keys-known : {V : Type 0} (b : String) (m : Map V) → member b (keys m) ≡ true → lookup b m ≢ none
unfolding member lookup
keys-known b [] h e = cc
keys-known b (e ∷ m) h n =
    keys-known b m (ground (arith, eq_iff e.0 b, eq_iff b e.0)) (ground arith)

member-keep :
    (test : String → Bool) (b : String) (xs : List String)
    → member b xs ≡ true
    → test b ≡ true
    → member b (keep test xs) ≡ true
unfolding member
member-keep test b [] h t = ground (arith, h)
member-keep test b (x ∷ xs) h t = elim (Bool-cases (b == x)) [
  | inl e ↦
      let g : test x ≡ true = subst (λ y. test y ≡ true) ((eq_iff b x).0 e) t in
      rw (g) (ground (arith, e))
  | inr f ↦ elim (Bool-cases (test x)) [
    | inl g ↦ rw (g) (ground (arith, f, h, member-keep test b xs))
    | inr g ↦ rw (g) (member-keep test b xs (ground (arith, f, h)) t)
  ]
]

keep-member :
    (test : String → Bool) (b : String) (xs : List String)
    → member b (keep test xs) ≡ true
    → member b xs ≡ true
unfolding member
keep-member test b [] h = h
keep-member test b (x ∷ xs) h = elim (Bool-cases (test x)) [
  | inl g ↦ ground (arith, g, keep-member test b xs)
  | inr g ↦ ground (arith, g, keep-member test b xs)
]

-- What was recorded and is not enabled any more is removed.
pub removed-member :
    (rules : RuleSet) (original : Map Bool) (b : String) (v : Bool)
    → lookup b original ≡ some v
    → member b (sorted_enabled_bridges rules.route_localnet_bridges) ≡ false
    → member b (removed_bridges rules original) ≡ true
unfolding removed_bridges sorted_enabled_bridges
removed-member rules original b v h n =
    let test = λ (bridge : String). not (lookup_or false bridge rules.route_localnet_bridges) in
    member-sort_same b (keep test (keys original))
    ∙ member-keep test b (keys original) (member-keys b v original h) (
        ground (
          arith,
          n,
          member-sort_same b (enabled_bridges rules.route_localnet_bridges),
          lookup-enabled b rules.route_localnet_bridges,
        ))

pub removed-known :
    (rules : RuleSet) (original : Map Bool) (b : String)
    → member b (removed_bridges rules original) ≡ true
    → lookup b original ≢ none
unfolding removed_bridges
removed-known rules original b h =
    let test = λ (bridge : String). not (lookup_or false bridge rules.route_localnet_bridges) in
    keys-known b original (
      keep-member test b (keys original) (sym (member-sort_same b (keep test (keys original))) ∙ h))
