-- ===== src/Firewall/Hooks/Sound.antt =====
-- What the search of `platformHook` finds is a hook.
use network_plugin_manager.Prelude.{
  ℕ, suc, zero, ◌+◌, ◌≡◌, refl, sym, subst, inl, inr, String, true, some, List, [], ◌∷◌, ◌++◌, ◌==◌,
  length, arith, eq_iff, Bool-cases, Option-cases,
}
use network_plugin_manager.Go.Map.{member, member-append}
use network_plugin_manager.Firewall.Hooks.{
  Jump, outgoing, is_owned, first_owned, targets, hook, walk, built_in, search_hook,
}
use network_plugin_manager.Firewall.Hooks.Reach.{Listed, Reaches, root, follow, Finds}

-- What the loop over one chain's jumps returns is the line of an owned jump of that chain.
first_owned-outgoing :
    (chain line : String) (js : List Jump)
    → first_owned (outgoing chain js) ≡ some line
    → (j : Jump) × Listed j js × (j.chain ≡ chain) × (is_owned j ≡ true) × (j.line ≡ line)
unfolding first_owned
first_owned-outgoing chain line [] h = cc
first_owned-outgoing chain line (i ∷ js) h = elim (Bool-cases (i.chain == chain)) [
  | inr other ↦
      let r = first_owned-outgoing chain line js (ground arith) in (r.0, inr r.1, r.2, r.3, r.4)
  | inl same ↦ elim (Bool-cases (is_owned i)) [
    | inl own ↦ (i, inl refl, (eq_iff i.chain chain).0 same, own, ground arith)
    | inr foreign ↦
        let r = first_owned-outgoing chain line js (ground arith) in (r.0, inr r.1, r.2, r.3, r.4)
  ]
]

member-targets :
    (chain c : String) (js : List Jump)
    → member c (targets (outgoing chain js)) ≡ true
    → (j : Jump) × Listed j js × (j.chain ≡ chain) × (c ≡ j.target)
unfolding member
member-targets chain c [] h = cc
member-targets chain c (i ∷ js) h = elim (Bool-cases (i.chain == chain)) [
  | inr other ↦ let r = member-targets chain c js (ground arith) in (r.0, inr r.1, r.2, r.3)
  | inl same ↦ elim (Bool-cases (c == i.target)) [
    | inl hit ↦ (i, inl refl, (eq_iff i.chain chain).0 same, (eq_iff c i.target).0 hit)
    | inr miss ↦ let r = member-targets chain c js (ground arith) in (r.0, inr r.1, r.2, r.3)
  ]
]

member-tail :
    (c chain : String) (queue : List String)
    → member c queue ≡ true
    → member c (chain ∷ queue) ≡ true
unfolding member
member-tail c chain queue h = ground arith

member-head : (chain : String) (queue : List String) → member chain (chain ∷ queue) ≡ true
unfolding member
member-head chain queue = ground (arith, eq_iff chain chain)

-- Behind a reachable chain the queue stays reachable.
Reaches-extend :
    (js : List Jump) (chain : String) (queue : List String)
    → ((c : String) → member c (chain ∷ queue) ≡ true → Reaches js c)
    → (c : String) → member c (queue ++ targets (outgoing chain js)) ≡ true
    → Reaches js c
Reaches-extend js chain queue r c h = elim (Bool-cases (member c queue)) [
  | inl old ↦ r c (member-tail c chain queue old)
  | inr new ↦
      let t =
        member-targets chain c js
          (ground (arith, member-append c queue (targets (outgoing chain js)))) in
      follow t.0 t.1 (subst (Reaches js) (sym t.2) (r chain (member-head chain queue))) t.3
]

-- If all that waits in the queue is reachable, what is found is a hook.
walk_sound :
    (js : List Jump) (fuel : ℕ) (queue seen : List String) (line : String)
    → ((c : String) → member c queue ≡ true → Reaches js c)
    → walk js fuel queue seen ≡ hook line
    → Finds js line
unfolding walk
walk_sound js zero queue seen line r h = cc
walk_sound js (suc fuel) [] seen line r h = cc
walk_sound js (suc fuel) (chain ∷ queue) seen line r h = elim (Bool-cases (member chain seen)) [
  | inl old ↦
      walk_sound js fuel queue seen line (λ c m. r c (member-tail c chain queue m)) (ground arith)
  | inr fresh ↦ elim (Option-cases (first_owned (outgoing chain js))) [
    | inl none_owned ↦
        walk_sound js fuel (queue ++ targets (outgoing chain js)) (chain ∷ seen) line
          (Reaches-extend js chain queue r) (ground arith)
    | inr (l, e) ↦
        let o = first_owned-outgoing chain l js e in
        (
          o.0,
          record {
            listed = o.1;
            reached = subst (Reaches js) (sym o.2) (r chain (member-head chain queue));
            owned = o.3;
          },
          ground arith,
        )
  ]
]

-- What the search finds is the line of a hook that packets reach.
pub search_hook_sound :
    (js : List Jump) (line : String) → search_hook js ≡ hook line → Finds js line
unfolding search_hook
search_hook_sound js line h = walk_sound js (6 + length js) built_in [] line (λ c m. root m) h
