-- ===== src/HostPorts/Rules/Safe.antt =====
-- What a validated rule set guarantees of the lists that the scripts are written from.
use network_plugin_manager.Prelude.{
  ◌≡◌, ◌≢◌, subst, inl, inr, String, true, ◌||◌, List, [], ◌∷◌, map, ◌==◌, Result, ok, >>=-eq-ok,
  All, arith, eq_iff, Bool-cases, Option-cases,
}
use network_plugin_manager.Go.Map.{member, lookup, lookup_or, keys}
use network_plugin_manager.Go.Text.Lines.{append-All}
use network_plugin_manager.Go.Map.Values.{lookup-All}
use network_plugin_manager.Go.Sort.{str_leb, place, sort}
use network_plugin_manager.HostPorts.{RuleSet, Error}
use network_plugin_manager.HostPorts.Parse.{validate_port_rule, validate_bridge_name}
use network_plugin_manager.HostPorts.Rules.{
  each, is_subnet, subnet_of, bridge_of, check_forward, check_bridge, check_ingress, check_peer,
  check_peers, validate_rule_set, ForwardNetwork, network_of, identity, forward_networks,
  sorted_forward_networks, ForwardPair, pair_of, forward_pairs, sorted_forward_peers,
}

pub each-All {ℓ} :
    {A : Type ℓ} (check : A → Result Error (Unit {0})) (xs : List A)
    → each check xs ≡ ok tt
    → All (λ x. check x ≡ ok tt) xs
unfolding each
each-All check [] h = tt
each-All check (x ∷ xs) h = let (u, c, r) = >>=-eq-ok (check x) _ h in (c, each-All check xs r)

-- A network that a script may name.
pub record IsForwardable (n : ForwardNetwork) : Type 0 where
  pub subnet : is_subnet n.subnet ≡ true
  pub bridge : validate_bridge_name n.bridge ≡ ok tt

pub record IsPairForwardable (p : ForwardPair) : Type 0 where
  pub peer : is_subnet p.peer ≡ true
  pub local : is_subnet p.local ≡ true
  pub bridge : validate_bridge_name p.bridge ≡ ok tt

-- The parts of the validation that the two lists rest on.
record Checked (rules : RuleSet) : Type 0 where
  pub forward : All (λ e. check_forward rules e ≡ ok tt) rules.forward_subnets
  pub peers : All (λ e. check_peers rules e ≡ ok tt) rules.forward_peers

validate-Checked : (rules : RuleSet) → validate_rule_set rules ≡ ok tt → Checked rules
unfolding validate_rule_set
validate-Checked rules h =
    let (u, p, h₁) = >>=-eq-ok (each (λ e. validate_port_rule e.1) rules.ports) _ h in
    let (u, f, h₂) = >>=-eq-ok (each (check_forward rules) rules.forward_subnets) _ h₁ in
    let (u, b, h₃) = >>=-eq-ok (each (check_bridge rules) rules.forward_bridges) _ h₂ in
    let (u, i, h₄) = >>=-eq-ok (each (check_ingress rules) rules.shared_ingress) _ h₃ in
    let (u, q, h₅) = >>=-eq-ok (each (check_peers rules) rules.forward_peers) _ h₄ in
    record {
      forward = each-All (check_forward rules) rules.forward_subnets f;
      peers = each-All (check_peers rules) rules.forward_peers q;
    }

network_of-IsForwardable :
    (rules : RuleSet) (key : String)
    → Checked rules
    → subnet_of rules key ≢ ""
    → IsForwardable (network_of rules key)
unfolding lookup_or check_forward
network_of-IsForwardable rules key c n = elim (Option-cases (lookup key rules.forward_subnets)) [
  | inl gone ↦ absurd (n (ground (arith, gone)))
  | inr (subnet, e) ↦
      let h =
        lookup-All (λ e. check_forward rules e ≡ ok tt) rules.forward_subnets key c.forward e in
      record { subnet = ground (arith, e, h); bridge = ground (arith, e, h) }
]

forward_networks-IsForwardable :
    (rules : RuleSet) (ks seen : List String)
    → Checked rules
    → All IsForwardable (forward_networks rules ks seen)
unfolding forward_networks
forward_networks-IsForwardable rules [] seen c = tt
forward_networks-IsForwardable rules (key ∷ ks) seen c =
    elim (Bool-cases (
      bridge_of rules key == ""
      || subnet_of rules key == ""
      || member (identity (network_of rules key)) seen)) [
        | inl t ↦ rw (t) (forward_networks-IsForwardable rules ks seen c)
        | inr f ↦ rw (f) (
          network_of-IsForwardable rules key c
              (λ e. ground (arith, eq_iff (subnet_of rules key) "")),
          forward_networks-IsForwardable rules ks (identity (network_of rules key) ∷ seen) c,
        )
      ]

pub sorted_forward_networks-IsForwardable :
    (rules : RuleSet)
    → validate_rule_set rules ≡ ok tt
    → All IsForwardable (sorted_forward_networks rules)
unfolding sorted_forward_networks
sorted_forward_networks-IsForwardable rules h =
    forward_networks-IsForwardable rules (sort (keys rules.forward_subnets)) []
      (validate-Checked rules h)

place-All :
    (P : String → Type 0) (x : String) (xs : List String) → P x → All P xs → All P (place x xs)
unfolding place
place-All P x [] p a = (p, tt)
place-All P x (y ∷ ys) p a = elim (Bool-cases (str_leb x y)) [
  | inl t ↦ rw (t) (p, a)
  | inr f ↦ rw (f) (a.0, place-All P x ys p a.1)
]

pub sort-All : (P : String → Type 0) (xs : List String) → All P xs → All P (sort xs)
unfolding sort
sort-All P [] a = tt
sort-All P (x ∷ xs) a = place-All P x (sort xs) a.0 (sort-All P xs a.1)

pairs-All :
    (rules : RuleSet) (key : String) (peers : List String)
    → IsForwardable (network_of rules key)
    → All (λ peer. check_peer peer ≡ ok tt) peers
    → All IsPairForwardable (map (pair_of rules key) peers)
pairs-All rules key [] n a = tt
pairs-All rules key (peer ∷ peers) n a = (
  record { peer = ground (arith, a.0); local = n.subnet; bridge = n.bridge },
  pairs-All rules key peers n a.1,
)

key_pairs-All :
    (rules : RuleSet) (key : String)
    → Checked rules
    → All IsPairForwardable (map (pair_of rules key) (sort (lookup_or [] key rules.forward_peers)))
unfolding lookup_or check_peers sort
key_pairs-All rules key c = elim (Option-cases (lookup key rules.forward_peers)) [
  | inl gone ↦ of_peers [] (ground (arith, gone)) tt
  | inr (peers, e) ↦
      let h = lookup-All (λ e. check_peers rules e ≡ ok tt) rules.forward_peers key c.peers e in
      let n =
        network_of-IsForwardable rules key c
          (λ z. ground (arith, h, eq_iff (subnet_of rules key) "")) in
      let listed = each-All check_peer peers (ground (arith, h)) in
      of_peers peers (ground (arith, e)) (
        pairs-All rules key (sort peers) n
          (sort-All (λ peer. check_peer peer ≡ ok tt) peers listed))
]
  where
    of_peers :
        (l : List String)
        → l ≡ lookup_or [] key rules.forward_peers
        → All IsPairForwardable (map (pair_of rules key) (sort l))
        → All IsPairForwardable
            (map (pair_of rules key) (sort (lookup_or [] key rules.forward_peers)))
    of_peers l q a = subst (λ l. All IsPairForwardable (map (pair_of rules key) (sort l))) q a

forward_pairs-All :
    (rules : RuleSet) (ks : List String)
    → Checked rules
    → All IsPairForwardable (forward_pairs rules ks)
unfolding forward_pairs
forward_pairs-All rules [] c = tt
forward_pairs-All rules (key ∷ ks) c =
    append-All IsPairForwardable
      (map (pair_of rules key) (sort (lookup_or [] key rules.forward_peers)))
      (forward_pairs rules ks) (key_pairs-All rules key c) (forward_pairs-All rules ks c)

pub sorted_forward_peers-IsPairForwardable :
    (rules : RuleSet)
    → validate_rule_set rules ≡ ok tt
    → All IsPairForwardable (sorted_forward_peers rules)
unfolding sorted_forward_peers
sorted_forward_peers-IsPairForwardable rules h =
    forward_pairs-All rules (sort (keys rules.forward_peers)) (validate-Checked rules h)
