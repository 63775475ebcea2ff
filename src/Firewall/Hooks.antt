-- ===== src/Firewall/Hooks.antt =====
-- `platformHook` of internal/firewall/backend.go: is a chain of the platform's reachable from a
-- built-in hook, in the listing that `iptables -S` prints?
pub mod Ends
pub mod Reach
pub mod Sound
pub mod Complete
use network_plugin_manager.Prelude.{
  ℕ, suc, zero, ◌+◌, String, Bool, true, false, ◌&&◌, ◌||◌, Option, none, some, List, [], ◌∷◌, ◌++◌,
  map, ◌==◌, starts_with, leb, keep, length, if◌then◌else◌,
}
use network_plugin_manager.Go.Text.{split, fields, trim_space}
use network_plugin_manager.Go.Map.{member}

-- A rule of chain `chain` that jumps. The source keeps these in the map `jumps`, under the chain.
pub record Jump : Type 0 where
  pub chain : String
  pub target : String
  pub line : String

abbrev pub is_jump_flag : String → Bool
is_jump_flag f = f == "-j" || f == "-g" || f == "--jump" || f == "--goto"

-- The field behind the first jump flag.
jump_target : List String → Option String
jump_target (f ∷ (t ∷ rest)) = if is_jump_flag f then some t else jump_target (t ∷ rest)
jump_target _ = none

jump_of_fields : String → List String → Option Jump
unfolding jump_target
jump_of_fields line (verb ∷ (chain ∷ rest)) =
    if verb == "-A" && leb 2 (length rest)
    then elim (jump_target rest) [
      | none ↦ none
      | some t ↦ some (record { chain = chain; target = t; line = trim_space line })
    ]
    else none
jump_of_fields line _ = none

jumps_of_lines : List String → List Jump
unfolding jump_of_fields
jumps_of_lines [] = []
jumps_of_lines (line ∷ lines) =
    let rest = jumps_of_lines lines in
    elim (jump_of_fields line (fields line)) [ none ↦ rest | some j ↦ j ∷ rest ]

unfoldable pub jumps_of : String → List Jump
unfolding jumps_of_lines fields split trim_space
jumps_of rules = jumps_of_lines (split b'\n' rules)

-- `jumps[chain]`
abbrev pub outgoing : String → List Jump → List Jump
outgoing chain = keep (λ j. j.chain == chain)

abbrev pub is_owned : Jump → Bool
is_owned j = starts_with j.target "CATTLE_"

-- The loop over the jumps of one chain: the first owned one ends the search.
unfoldable pub first_owned : List Jump → Option String
first_owned [] = none
first_owned (j ∷ js) = if is_owned j then some j.line else first_owned js

abbrev pub targets : List Jump → List String
targets = map λ j. j.target

pub data Found : Type 0 where
  hook : String → Found
  clear : Found
  out_of_fuel : Found

-- One round of the loop over the queue takes one unit of fuel.
unfoldable pub walk : List Jump → ℕ → List String → List String → Found
walk jumps zero queue seen = out_of_fuel
walk jumps (suc fuel) [] seen = clear
walk jumps (suc fuel) (chain ∷ queue) seen =
    let skip = walk jumps fuel queue seen in
    let visit = walk jumps fuel (queue ++ targets (outgoing chain jumps)) (chain ∷ seen) in
    if member chain seen
    then skip
    else elim (first_owned (outgoing chain jumps)) [ some line ↦ hook line | none ↦ visit ]

abbrev pub built_in : List String
built_in = "INPUT" ∷ "FORWARD" ∷ "OUTPUT" ∷ "PREROUTING" ∷ "POSTROUTING" ∷ []

unfoldable pub search_hook : List Jump → Found
unfolding walk first_owned member
search_hook jumps = walk jumps (6 + length jumps) built_in []

-- The line of the rule found; `none` is the source's empty text.
unfoldable pub platform_hook : String → Option String
unfolding search_hook jumps_of
platform_hook rules = elim (search_hook (jumps_of rules)) [ hook line ↦ some line | _ ↦ none ]
