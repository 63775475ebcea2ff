-- ===== src/Firewall/Hooks/Ends.antt =====
-- The search of `platformHook` ends: its fuel is enough.
use network_plugin_manager.Prelude.{
  ℕ, suc, zero, ◌+◌, ◌<◌, ◌≡◌, refl, ◌≢◌, String, false, not, List, [], ◌∷◌, ◌++◌, length,
  length-append, keep, arith, eq_iff,
}
use network_plugin_manager.Go.Map.{member}
use network_plugin_manager.Firewall.Hooks.{
  Jump, outgoing, targets, out_of_fuel, walk, built_in, search_hook,
}

-- The jumps that no visited chain has given to the queue yet.
abbrev pending : List String → List Jump → List Jump
pending seen = keep (λ j. not (member j.chain seen))

length-targets : (js : List Jump) → length (targets js) ≡ length js
length-targets [] = refl
length-targets (j ∷ js) = omega (arith, length-targets js)

-- A visit moves the chain's jumps from the pending ones to the queue.
pending-visit :
    (chain : String) (seen : List String) (js : List Jump)
    → member chain seen ≡ false
    → length (pending seen js) ≡ length (pending (chain ∷ seen) js) + length (outgoing chain js)
unfolding member
pending-visit chain seen [] fresh = omega arith
pending-visit chain seen (j ∷ js) fresh =
    ground (arith, eq_iff j.chain chain, pending-visit chain seen js fresh)

-- With fuel above the queue and the pending jumps the search comes to an answer.
walk_ends :
    (js : List Jump) (fuel : ℕ) (queue seen : List String)
    → length queue + length (pending seen js) < fuel
    → walk js fuel queue seen ≢ out_of_fuel
unfolding walk
walk_ends js zero queue seen h = absurd (omega arith)
walk_ends js (suc fuel) [] seen h = λ e. cc
walk_ends js (suc fuel) (chain ∷ queue) seen h = ground (
  arith,
  length-append queue (targets (outgoing chain js)),
  length-targets (outgoing chain js),
  pending-visit chain seen js,
  walk_ends js fuel queue seen,
  walk_ends js fuel (queue ++ targets (outgoing chain js)) (chain ∷ seen),
)

length-pending : (js : List Jump) → length (pending [] js) ≡ length js
unfolding member
length-pending [] = refl
length-pending (j ∷ js) = omega (arith, length-pending js)

-- The fuel given is enough: the search for a hook always comes to an answer.
pub search_hook_ends : (js : List Jump) → search_hook js ≢ out_of_fuel
unfolding search_hook
search_hook_ends js = walk_ends js (6 + length js) built_in [] (omega (arith, length-pending js))
