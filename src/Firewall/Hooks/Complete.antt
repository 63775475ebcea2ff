-- ===== src/Firewall/Hooks/Complete.antt =====
-- Where the search of `platformHook` ends with nothing found there is no hook.
use network_plugin_manager.Prelude.{
  ℕ, suc, zero, ◌+◌, ◌≡◌, ap, inl, inr, ◌↔◌, String, true, false, ◌||◌, none, some, List, [], ◌∷◌,
  ◌++◌, ◌==◌, length, arith, eq_iff, Bool-cases, Option-cases,
}
use network_plugin_manager.Go.Map.{member, member-append}
use network_plugin_manager.Firewall.Hooks.{
  Jump, outgoing, is_owned, first_owned, targets, clear, walk, built_in, search_hook, platform_hook,
  jumps_of,
}
use network_plugin_manager.Firewall.Hooks.Ends.{search_hook_ends}
use network_plugin_manager.Firewall.Hooks.Reach.{Listed, Reaches, root, follow, IsHook, Finds}
use network_plugin_manager.Firewall.Hooks.Sound.{search_hook_sound}

-- Where the search ends clear, the visited chains are closed under jumps and own no hook.
record Closed (js : List Jump) (queue seen : List String) (j : Jump) : Type 0 where
  foreign : is_owned j ≡ false
  onward : (member j.target seen || member j.target queue) ≡ true

abbrev Explored : List Jump → List String → List String → Type 0
Explored js queue seen =
    (j : Jump) → Listed j js → member j.chain seen ≡ true → Closed js queue seen j

outgoing-Closed :
    (chain : String) (js : List Jump) (j : Jump)
    → Listed j js
    → j.chain ≡ chain
    → first_owned (outgoing chain js) ≡ none
    → (is_owned j ≡ false) × (member j.target (targets (outgoing chain js)) ≡ true)
unfolding first_owned member
outgoing-Closed chain [] j l e h = elim l [ ]
outgoing-Closed chain (i ∷ js) j (inl same) e h =
    ground (arith, ap Jump.chain same, eq_iff i.chain chain, eq_iff j.target i.target)
outgoing-Closed chain (i ∷ js) j (inr l) e h =
    ground (arith, eq_iff i.chain chain, outgoing-Closed chain js j l e)

-- A visit keeps what was explored, and adds the chain.
Explored-visit :
    (js : List Jump) (chain : String) (queue seen : List String)
    → first_owned (outgoing chain js) ≡ none
    → Explored js (chain ∷ queue) seen
    → Explored js (queue ++ targets (outgoing chain js)) (chain ∷ seen)
unfolding member
Explored-visit js chain queue seen h x j l m = elim (Bool-cases (j.chain == chain)) [
  | inl now ↦
      let c = outgoing-Closed chain js j l ((eq_iff j.chain chain).0 now) h in
      record {
        foreign = c.0;
        onward = ground (arith, member-append j.target queue (targets (outgoing chain js)), c.1);
      }
  | inr before ↦
      let c = x j l (ground arith) in
      record {
        foreign = c.foreign;
        onward =
            ground (arith, c.onward, member-append j.target queue (targets (outgoing chain js)));
      }
]

-- Of a chain that was seen already nothing has to be done again.
Explored-skip :
    (js : List Jump) (chain : String) (queue seen : List String)
    → member chain seen ≡ true
    → Explored js (chain ∷ queue) seen
    → Explored js queue seen
unfolding member
Explored-skip js chain queue seen old x j l m =
    let c = x j l m in
    record { foreign = c.foreign; onward = ground (arith, c.onward, eq_iff j.target chain) }

abbrev Covers : List String → List String → Type 0
Covers queue seen =
    (c : String) → member c built_in ≡ true → (member c seen || member c queue) ≡ true

Covers-visit :
    (js : List Jump) (chain : String) (queue seen : List String)
    → Covers (chain ∷ queue) seen
    → Covers (queue ++ targets (outgoing chain js)) (chain ∷ seen)
unfolding member
Covers-visit js chain queue seen v b m =
    ground (arith, v b m, member-append b queue (targets (outgoing chain js)))

Covers-skip :
    (chain : String) (queue seen : List String)
    → member chain seen ≡ true
    → Covers (chain ∷ queue) seen
    → Covers queue seen
unfolding member
Covers-skip chain queue seen old v b m = ground (arith, v b m, eq_iff b chain)

walk_complete :
    (js : List Jump) (fuel : ℕ) (queue seen : List String)
    → Explored js queue seen
    → Covers queue seen
    → walk js fuel queue seen ≡ clear
    → (s : List String) × Explored js [] s × Covers [] s
unfolding walk
walk_complete js zero queue seen x v h = cc
walk_complete js (suc fuel) [] seen x v h = (seen, x, v)
walk_complete js (suc fuel) (chain ∷ queue) seen x v h = elim (Bool-cases (member chain seen)) [
  | inl old ↦
      walk_complete js fuel queue seen (Explored-skip js chain queue seen old x)
        (Covers-skip chain queue seen old v) (ground arith)
  | inr fresh ↦ elim (Option-cases (first_owned (outgoing chain js))) [
    | inl e ↦
        walk_complete js fuel (queue ++ targets (outgoing chain js)) (chain ∷ seen)
          (Explored-visit js chain queue seen e x) (Covers-visit js chain queue seen v)
          (ground arith)
    | inr (line, e) ↦ absurd (ground arith)
  ]
]

Reaches-member :
    {js : List Jump} (s : List String)
    → Explored js [] s
    → Covers [] s
    → {c : String} → Reaches js c
    → member c s ≡ true
unfolding member
Reaches-member s x v (root {c} m) = ground (arith, v c m)
Reaches-member s x v (follow {c} j l r e) =
    ground (arith, (x j l (Reaches-member s x v r)).onward, ap (λ d. member d s) e)

-- Where the search ends clear there is no hook.
pub search_hook_complete : (js : List Jump) (j : Jump) → search_hook js ≡ clear → ¬ IsHook js j
unfolding search_hook member
search_hook_complete js j h k =
    let w = walk_complete js (6 + length js) built_in [] (λ i l m. cc) (λ c m. ground arith) h in
    ground (arith, (w.1 j k.listed (Reaches-member w.0 w.1 w.2 k.reached)).foreign, k.owned)

-- The text found is the line of a rule in an active chain that jumps to a chain of the platform's.
pub platform_hook_sound :
    (rules line : String) → platform_hook rules ≡ some line → Finds (jumps_of rules) line
unfolding platform_hook
platform_hook_sound rules line h = search_hook_sound (jumps_of rules) line (ground arith)

-- No hook is reported exactly when no rule that packets can reach jumps to a chain of the
-- platform's: the loop over the queue ends, follows every jump, and ignores disconnected chains.
pub platform_hook-none_iff :
    (rules : String) → (platform_hook rules ≡ none) ↔ ((j : Jump) → ¬ IsHook (jumps_of rules) j)
unfolding platform_hook
platform_hook-none_iff rules = (
  λ h j.
      search_hook_complete (jumps_of rules) j (ground (arith, search_hook_ends (jumps_of rules))),
  λ h. elim (Option-cases (platform_hook rules)) [
    | inl e ↦ ground (arith, e)
    | inr (line, e) ↦ let f = platform_hook_sound rules line e in absurd (h f.0 f.1)
  ],
)
