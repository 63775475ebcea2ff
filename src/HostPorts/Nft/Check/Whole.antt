-- ===== src/HostPorts/Nft/Check/Whole.antt =====
-- As many rules are looked for in each chain as the batch writes for it.
use mathlib.Core.List.{Permᴰ}
use network_plugin_manager.Prelude.{
  ℕ, ◌+◌, ◌*◌, ◌≡◌, refl, sym, subst, ◌∙◌, inl, inr, String, some, List, [], ◌∷◌, ◌++◌, ◌==◌, ok,
  >>=-eq-ok, All, length, length-append, arith, Bool-cases,
}
use network_plugin_manager.Go.Map.{Distinct, lookup, lookup_or}
use network_plugin_manager.Go.Map.Values.{
  values, total, total-perm, sorted_values-perm, length-values,
}
use network_plugin_manager.Go.Text.Lines.{glue, concat_map, length-concat_map, map-All}
use network_plugin_manager.HostPorts.{PortRule, RuleSet}
use network_plugin_manager.HostPorts.Rules.{
  sorted_forward_networks, sorted_shared_ingress_networks, sorted_forward_peers, each,
}
use network_plugin_manager.HostPorts.Rules.Safe.{each-All}
use network_plugin_manager.HostPorts.Nft.{
  sorted_enabled_bridges, no_port, port_rules, nft_prerouting, nft_output, nft_postrouting,
  nft_network, nft_shared, nft_pair, nft_forwarded, nft_guard, forward_marks, raw_rules,
  forward_rules, nft_chains,
}
use network_plugin_manager.HostPorts.Nft.Check.{
  Item, listed, accepting, expected, bridge_count, forward_count, rule_count, see_items,
  check_chain, nothing_seen, check_nft_rules,
}
use network_plugin_manager.HostPorts.Nft.Check.Sound.{
  IsIntact, IsHookOf, IsThere, IsIntact-IsThere, check_chain-IsIntact,
}
use network_plugin_manager.Go.Number.{ℤ, pos, negsuc, atoi}

port_rules-perm : (r : RuleSet) → Distinct r.ports → Permᴰ (port_rules r) (values r.ports)
unfolding port_rules
port_rules-perm r d = sorted_values-perm no_port r.ports d

-- Lines that are written for each port
length-ports :
    (r : RuleSet) (f : PortRule → List String) (n : PortRule → ℕ)
    → Distinct r.ports
    → ((p : PortRule) → length (f p) ≡ n p)
    → length (concat_map f (port_rules r)) ≡ total n (values r.ports)
length-ports r f n d h =
    length-concat_map f (port_rules r)
    ∙ (total-perm (λ p. length (f p)) (port_rules-perm r d) ∙ total_same (values r.ports))
  where
    total_same : (ps : List PortRule) → total (λ p. length (f p)) ps ≡ total n ps
    total_same [] = refl
    total_same (p ∷ ps) = omega (arith, h p, total_same ps)

length-each :
    {A : Type 0} (f : A → List String) (k : ℕ) (xs : List A)
    → ((x : A) → length (f x) ≡ k)
    → length (concat_map f xs) ≡ k * length xs
length-each f k [] h = omega arith
length-each f k (x ∷ xs) h =
    ground (arith, length-append (f x) (concat_map f xs), h x, length-each f k xs h)

length-prerouting : (p : PortRule) → length (nft_prerouting p) ≡ 1 + bridge_count p
unfolding nft_prerouting
length-prerouting p = elim (Bool-cases (p.bridge == "")) [
  | inl e ↦ rw (e) refl
  | inr e ↦ rw (e) refl
]

length-postrouting : (p : PortRule) → length (nft_postrouting p) ≡ bridge_count p + 2
unfolding nft_postrouting
length-postrouting p = elim (Bool-cases (p.bridge == "")) [
  | inl e ↦ rw (e) refl
  | inr e ↦ rw (e) refl
]

length-output : (p : PortRule) → length (nft_output p) ≡ 1
unfolding nft_output
length-output p = refl

length-raw_rules :
    (r : RuleSet) → length (raw_rules r) ≡ length (sorted_enabled_bridges r.route_localnet_bridges)
unfolding raw_rules nft_guard
length-raw_rules r =
    omega
      (arith, length-each nft_guard 1 (sorted_enabled_bridges r.route_localnet_bridges) (λ b. refl))

total_ones : {A : Type 0} (xs : List A) → total (λ x. 1) xs ≡ length xs
total_ones [] = refl
total_ones (x ∷ xs) = omega (arith, total_ones xs)

length-forward_rules : (r : RuleSet) → Distinct r.ports → length (forward_rules r) ≡ forward_count r
unfolding forward_rules forward_count nft_network nft_shared nft_pair nft_forwarded
length-forward_rules r d =
    let networks = concat_map nft_network (sorted_forward_networks r) in
    let shared = concat_map nft_shared (sorted_shared_ingress_networks r) in
    let pairs = concat_map nft_pair (sorted_forward_peers r) in
    let ports = concat_map nft_forwarded (port_rules r) in
    omega (
      arith,
      length-append networks (shared ++ (pairs ++ (ports ++ forward_marks))),
      length-append shared (pairs ++ (ports ++ forward_marks)),
      length-append pairs (ports ++ forward_marks),
      length-append ports forward_marks,
      length-each nft_network 2 (sorted_forward_networks r) (λ n. refl),
      length-each nft_shared 1 (sorted_shared_ingress_networks r) (λ n. refl),
      length-each nft_pair 1 (sorted_forward_peers r) (λ n. refl),
      length-ports r nft_forwarded (λ p. 1) d (λ p. refl),
      total_ones (values r.ports),
      length-values r.ports,
    )

-- Every chain is found, with as many rules as are written for it.
check_nft_rules-IsIntact :
    (es : List Item) (r : RuleSet)
    → Distinct r.ports
    → check_nft_rules (listed es) r ≡ ok tt
    → All (λ c. IsIntact es c.name (length c.rules)) (nft_chains r)
unfolding check_nft_rules each nft_chains rule_count lookup_or lookup
check_nft_rules-IsIntact es r d h =
    let (t, s, h₀) = >>=-eq-ok (see_items es nothing_seen) _ h in
    let checks = each-All (check_chain r t) expected h₀ in
    let intact =
      map-All (λ e. check_chain r t e ≡ ok tt)
        (λ e. IsIntact es e.0 (lookup_or 0 e.0 (rule_count r))) (λ e. e) expected
        (λ e c. check_chain-IsIntact es r t e.0 e.1 s c) checks in
    (
      subst (IsIntact es "raw_prerouting") (sym (length-raw_rules r)) intact.0,
      (
        subst (IsIntact es "prerouting") (sym (length-ports r nft_prerouting _ d length-prerouting))
            intact.1.0,
        (
          subst (IsIntact es "output") (sym (length-ports r nft_output _ d length-output))
              intact.1.1.0,
          (
            subst (IsIntact es "postrouting")
                (sym (length-ports r nft_postrouting _ d length-postrouting)) intact.1.1.1.0,
            (subst (IsIntact es "forward") (sym (length-forward_rules r d)) intact.1.1.1.1.0, tt),
          ),
        ),
      ),
    )

hook_of :
    (kind hook prio : String) (n : ℤ)
    → atoi prio ≡ some n
    → IsHookOf (glue (kind ∷ " hook " ∷ hook ∷ " priority " ∷ prio ∷ [])) (accepting kind hook n)
hook_of kind hook prio n e = record { prio = prio; number = e; written = refl; accepts = refl }

-- Where the check passes, the kernel's table has every chain of the batch that the applied rules write,
-- with the type, the hook, the priority and the policy that the batch writes, and in each chain as many
-- rules as the batch has lines for it.
pub check_nft_rules_sound :
    (es : List Item) (r : RuleSet)
    → Distinct r.ports
    → check_nft_rules (listed es) r ≡ ok tt
    → All (IsThere es) (nft_chains r)
unfolding nft_chains lookup atoi
check_nft_rules_sound es r d h =
    let i = check_nft_rules-IsIntact es r d h in
    (
      IsIntact-IsThere es _ _ refl (hook_of "filter" "prerouting" "-300" (negsuc 299) refl) i.0,
      (
        IsIntact-IsThere es _ _ refl (hook_of "nat" "prerouting" "-101" (negsuc 100) refl) i.1.0,
        (
          IsIntact-IsThere es _ _ refl (hook_of "nat" "output" "-101" (negsuc 100) refl) i.1.1.0,
          (
            IsIntact-IsThere es _ _ refl (hook_of "nat" "postrouting" "99" (pos 99) refl) i.1.1.1.0,
            (
              IsIntact-IsThere es _ _ refl (hook_of "filter" "forward" "-1" (negsuc 0) refl)
                  i.1.1.1.1.0,
              tt,
            ),
          ),
        ),
      ),
    )
