-- ===== src/HostPorts/Nft/Check/Sound.antt =====
-- A table that passes the check has every chain, with as many rules as the batch writes for it.
use network_plugin_manager.Prelude.{
  ℕ, ◌+◌, ◌≡◌, refl, sym, ap, subst, length, ◌∙◌, inl, inr, ◌⊎◌, String, Bool, true, false, ◌&&◌,
  some, List, [], ◌∷◌, ◌==◌, ok, >>=-eq-ok, Any, eqb→eq, if◌then◌else◌, arith, eq_iff, Bool-cases,
  Option-cases,
}
use network_plugin_manager.Go.Map.{Map, member, lookup, lookup_or, put}
use network_plugin_manager.Go.Map.Values.{lookup-remove}
use network_plugin_manager.HostNat.Check.{RuleInfo, Part, absent, malformed, decoded}
use network_plugin_manager.HostPorts.{RuleSet}
use network_plugin_manager.Go.Number.{ℤ, pos, negsuc, atoi}
use network_plugin_manager.Go.Text.Lines.{glue}
use network_plugin_manager.HostPorts.Nft.{nft_hostports_table, Chain}
use network_plugin_manager.HostPorts.Nft.Check.{
  Base, ListedChain, Item, same_int, expected, is_expected, rule_count, Seen, see_chain, is_owned,
  see_rule, see_items, check_chain, nothing_seen,
}

-- The rules of the manager's table that are listed for a chain
unfoldable pub is_rule_of : String → Part RuleInfo → Bool
is_rule_of name (decoded r) = is_owned r && r.chain == name
is_rule_of name _ = false

unfoldable pub rules_listed : String → List Item → ℕ
unfolding is_rule_of
rules_listed name [] = 0
rules_listed name (e ∷ es) = (if is_rule_of name e.rule then 1 else 0) + rules_listed name es

-- An item lists the base chain of this name, hooked as it is to be.
pub record IsBaseOf (name : String) (c : Part ListedChain) : Type 0 where
  pub chain : ListedChain
  pub base : Base
  pub there : c ≡ decoded chain
  pub named : chain.name ≡ name
  pub wanted : lookup name expected ≡ some base
  pub hooked : is_expected chain base ≡ true

lookup_or-put :
    (n k : String) (v : ℕ) (m : Map ℕ)
    → lookup_or 0 n (put k v m) ≡ (if k == n then v else lookup_or 0 n m)
unfolding lookup_or put lookup
lookup_or-put n k v m = ground (arith, lookup-remove k n m)

see_chain-rules :
    (c : Part ListedChain) (s t : Seen) → see_chain c s ≡ ok t → t.actual_rules ≡ s.actual_rules
unfolding see_chain
see_chain-rules absent s t h = ground (arith, h)
see_chain-rules malformed s t h = cc
see_chain-rules (decoded c) s t h = elim (Option-cases (lookup c.name expected)) [
  | inl e ↦ ground (arith, h, e)
  | inr (b, e) ↦ ground (arith, h, e)
]

see_rule-counts :
    (n : String) (r : Part RuleInfo) (s t : Seen)
    → see_rule r s ≡ ok t
    → lookup_or 0 n t.actual_rules
      ≡ (if is_rule_of n r then 1 else 0) + lookup_or 0 n s.actual_rules
unfolding see_rule is_rule_of
see_rule-counts n absent s t h = ground (arith, h)
see_rule-counts n malformed s t h = cc
see_rule-counts n (decoded r) s t h = ground (
  arith,
  h,
  eq_iff r.chain n,
  lookup_or-put n r.chain (lookup_or 0 r.chain s.actual_rules + 1) s.actual_rules,
)

see_items-counts :
    (n : String) (es : List Item) (s t : Seen)
    → see_items es s ≡ ok t
    → lookup_or 0 n t.actual_rules ≡ rules_listed n es + lookup_or 0 n s.actual_rules
unfolding see_items rules_listed
see_items-counts n [] s t h = ground (arith, h)
see_items-counts n (e ∷ es) s t h =
    let (u, a, h₁) = >>=-eq-ok (see_chain e.chain s) _ h in
    let (v, b, h₂) = >>=-eq-ok (see_rule e.rule u) _ h₁ in
    omega (
      arith,
      see_items-counts n es v t h₂,
      see_rule-counts n e.rule u v b,
      ap (lookup_or 0 n) (see_chain-rules e.chain s u a),
    )

see_chain-listed :
    (n : String) (c : Part ListedChain) (s t : Seen)
    → see_chain c s ≡ ok t
    → member n t.chains ≡ true
    → (member n s.chains ≡ true) ⊎ IsBaseOf n c
unfolding see_chain member
see_chain-listed n absent s t h m = inl (ground (arith, h))
see_chain-listed n malformed s t h m = cc
see_chain-listed n (decoded c) s t h m = elim (Option-cases (lookup c.name expected)) [
  | inl e ↦ inl (ground (arith, h, e))
  | inr (b, e) ↦ elim (Bool-cases (c.name == n)) [
    | inr f ↦ inl (ground (arith, h, e, eq_iff n c.name, eq_iff c.name n))
    | inl q ↦ elim (Bool-cases (is_expected c b)) [
      | inr f ↦ absurd (ground (arith, h, e, f))
      | inl g ↦
          let same : c.name ≡ n = (eq_iff c.name n).0 q in
          inr (record {
            chain = c;
            base = b;
            there = refl;
            named = same;
            wanted = ap (λ k. lookup k expected) (sym same) ∙ e;
            hooked = g;
          })
    ]
  ]
]

see_rule-chains : (r : Part RuleInfo) (s t : Seen) → see_rule r s ≡ ok t → t.chains ≡ s.chains
unfolding see_rule
see_rule-chains absent s t h = ground (arith, h)
see_rule-chains malformed s t h = cc
see_rule-chains (decoded r) s t h = ground (arith, h)

see_items-listed :
    (n : String) (es : List Item) (s t : Seen)
    → see_items es s ≡ ok t
    → member n t.chains ≡ true
    → (member n s.chains ≡ true) ⊎ Any (λ e. IsBaseOf n e.chain) es
unfolding see_items
see_items-listed n [] s t h m = inl (ground (arith, h))
see_items-listed n (e ∷ es) s t h m =
    let (u, a, h₁) = >>=-eq-ok (see_chain e.chain s) _ h in
    let (v, b, h₂) = >>=-eq-ok (see_rule e.rule u) _ h₁ in
    elim (see_items-listed n es v t h₂ m) [
      | inr later ↦ inr (inr later)
      | inl before ↦
          elim (see_chain-listed n e.chain s u a
            (ap (member n) (sym (see_rule-chains e.rule u v b)) ∙ before)) [
              | inl k ↦ inl k
              | inr base ↦ inr (inl base)
            ]
    ]

-- What a chain of the table is found to have, when the check passes.
pub record IsIntact (es : List Item) (name : String) (count : ℕ) : Type 0 where
  pub base : Any (λ e. IsBaseOf name e.chain) es
  pub rules : rules_listed name es ≡ count

-- The hook is the one that the batch writes for the chain, with the policy to accept.
pub record IsHookOf (text : String) (b : Base) : Type 0 where
  pub prio : String
  pub number : atoi prio ≡ some b.prio
  pub written : text ≡ glue (b.kind ∷ " hook " ∷ b.hook ∷ " priority " ∷ prio ∷ [])
  pub accepts : b.policy ≡ "accept"

-- The table of the manager has a chain of this name, hooked in as the batch writes it.
pub record IsHooked (name text : String) (c : Part ListedChain) : Type 0 where
  pub chain : ListedChain
  pub there : c ≡ decoded chain
  pub family : chain.family ≡ "ip"
  pub table : chain.table ≡ nft_hostports_table
  pub named : chain.name ≡ name
  pub hook : IsHookOf text chain.base

same_int-eq : (m n : ℤ) → same_int m n ≡ true → m ≡ n
unfolding same_int
same_int-eq (pos m) (pos n) h = ap pos (eqb→eq m n h)
same_int-eq (negsuc m) (negsuc n) h = ap negsuc (eqb→eq m n h)
same_int-eq (pos m) (negsuc n) h = absurd (ground (arith, h))
same_int-eq (negsuc m) (pos n) h = absurd (ground (arith, h))

expected-base :
    (b want : Base)
    → b.kind ≡ want.kind
    → b.hook ≡ want.hook
    → b.prio ≡ want.prio
    → b.policy ≡ want.policy
    → b ≡ want
expected-base b want k h p q = cc

IsBaseOf-IsHooked :
    (name text : String) (want : Base) (c : Part ListedChain)
    → lookup name expected ≡ some want
    → IsHookOf text want
    → IsBaseOf name c
    → IsHooked name text c
unfolding is_expected
IsBaseOf-IsHooked name text want c w t i =
    let same : i.base ≡ want = ground (arith, i.wanted, w) in
    let b : i.chain.base ≡ i.base =
      expected-base i.chain.base i.base
        (ground (arith, i.hooked, eq_iff i.chain.base.kind i.base.kind))
        (ground (arith, i.hooked, eq_iff i.chain.base.hook i.base.hook))
        (same_int-eq i.chain.base.prio i.base.prio (ground (arith, i.hooked)))
        (ground (arith, i.hooked, eq_iff i.chain.base.policy i.base.policy)) in
    record {
      chain = i.chain;
      there = i.there;
      family = ground (arith, i.hooked, eq_iff i.chain.family "ip");
      table = ground (arith, i.hooked, eq_iff i.chain.table nft_hostports_table);
      named = i.named;
      hook = subst (IsHookOf text) (sym (b ∙ same)) t;
    }

-- The table has the chain as the batch writes it, with as many rules.
pub record IsThere (es : List Item) (c : Chain) : Type 0 where
  pub hooked : Any (λ e. IsHooked c.name c.base e.chain) es
  pub rules : rules_listed c.name es ≡ length c.rules

pub IsIntact-IsThere :
    (es : List Item) (c : Chain) (want : Base)
    → lookup c.name expected ≡ some want
    → IsHookOf c.base want
    → IsIntact es c.name (length c.rules)
    → IsThere es c
IsIntact-IsThere es c want w t i = record { hooked = hooked_in es i.base; rules = i.rules }
  where
    hooked_in :
        (xs : List Item)
        → Any (λ e. IsBaseOf c.name e.chain) xs
        → Any (λ e. IsHooked c.name c.base e.chain) xs
    hooked_in [] l = elim l [ ]
    hooked_in (e ∷ xs) (inl b) = inl (IsBaseOf-IsHooked c.name c.base want e.chain w t b)
    hooked_in (e ∷ xs) (inr l) = inr (hooked_in xs l)

pub check_chain-IsIntact :
    (es : List Item) (r : RuleSet) (t : Seen) (name : String) (want : Base)
    → see_items es nothing_seen ≡ ok t
    → check_chain r t (name, want) ≡ ok tt
    → IsIntact es name (lookup_or 0 name (rule_count r))
unfolding check_chain member lookup_or
check_chain-IsIntact es r t name want h c = record {
  base = elim (see_items-listed name es nothing_seen t h (ground (arith, c))) [
    | inl nowhere ↦ absurd (ground (arith, nowhere))
    | inr found ↦ found
  ];
  rules =
      let counted = see_items-counts name es nothing_seen t h in
      let same =
        eqb→eq (lookup_or 0 name t.actual_rules) (lookup_or 0 name (rule_count r))
          (ground (arith, c)) in
      omega (arith, counted, same);
}
