-- ===== src/Binexec.antt =====
-- binexec/watcher.go: the choice between two providers of one CNI binary, and the quoting in the wrapper
-- that is written for the one chosen.
pub mod Quoting
pub mod Preference
use network_plugin_manager.Prelude.{
  ℕ, String, Bool, true, false, not, ◌&&◌, ◌||◌, Option, none, some, List, [], ◌∷◌, ◌==◌, ◌<>◌, ltb,
  eqb, if◌then◌else◌,
}
use Prim.Native.Char.{Char, code}
use network_plugin_manager.Go.Text.{
  split, trim_prefix, trim_space, all_chars, any_char, is_letter, is_digit,
}
use network_plugin_manager.Go.Number.{atoi, pos, negsuc}
use network_plugin_manager.Go.Sort.{str_leb}

unfoldable pub version_number : String → Option ℕ
version_number part =
    if part == ""
    then none
    else elim (atoi part) [ none ↦ none | some (negsuc n) ↦ none | some (pos n) ↦ some n ]

unfoldable pub version_numbers : List String → Option (List ℕ)
unfolding version_number
version_numbers [] = some []
version_numbers (part ∷ parts) = elim (version_number part) [
  | none ↦ none
  | some n ↦ elim (version_numbers parts) [ none ↦ none | some ns ↦ some (n ∷ ns) ]
]

-- `none` is the source's false.
unfoldable pub numeric_version_parts : String → Option (List ℕ)
unfolding version_numbers split trim_prefix trim_space
numeric_version_parts value =
    let stripped = trim_prefix "v" (trim_space value) in
    if stripped == "" then none else version_numbers (split b'.' stripped)

pub data Comparison : Type 0 where
  less same greater : Comparison

unfoldable pub compare_number : ℕ → ℕ → Comparison
compare_number l r = if ltb l r then less else if ltb r l then greater else same

-- A comparison, and the next one where that one finds no difference
abbrev pub or_else : Comparison → Comparison → Comparison
or_else less rest = less
or_else greater rest = greater
or_else same rest = rest

-- The loop over the places of both; a missing place is 0.
unfoldable pub compare_parts : List ℕ → List ℕ → Comparison
unfolding compare_number
compare_parts [] [] = same
compare_parts (l ∷ ls) [] = or_else (compare_number l 0) (compare_parts ls [])
compare_parts [] (r ∷ rs) = or_else (compare_number 0 r) (compare_parts [] rs)
compare_parts (l ∷ ls) (r ∷ rs) = or_else (compare_number l r) (compare_parts ls rs)

-- `none` where one of the versions is not numeric
unfoldable pub compare_numeric_versions : String → String → Option Comparison
unfolding compare_parts numeric_version_parts
compare_numeric_versions left right = elim (numeric_version_parts left) [
  | none ↦ none
  | some ls ↦ elim (numeric_version_parts right) [
    | none ↦ none
    | some rs ↦ some (compare_parts ls rs)
  ]
]

abbrev pub is_numeric : String → Bool
is_numeric version = elim (numeric_version_parts version) [ none ↦ false | some ns ↦ true ]

-- `candidate < current`
abbrev pub str_ltb : String → String → Bool
str_ltb s t = not (str_leb t s)

-- The last tests of `preferProvider`, where the numbers do not decide
unfoldable pub prefer_undecided : String → String → String → String → Bool
prefer_undecided current current_version candidate candidate_version =
    if is_numeric current_version && not (is_numeric candidate_version)
    then false
    else if is_numeric candidate_version && not (is_numeric current_version)
    then true
    else str_ltb candidate current

unfoldable pub prefer_provider : String → String → String → String → Bool
unfolding prefer_undecided compare_numeric_versions str_leb
prefer_provider current current_version candidate candidate_version =
    elim (compare_numeric_versions candidate_version current_version) [
      | some greater ↦ true
      | some less ↦ false
      | some same ↦ prefer_undecided current current_version candidate candidate_version
      | none ↦ prefer_undecided current current_version candidate candidate_version
    ]

abbrev is_binary_char : ℕ → Bool
is_binary_char c = is_letter c || is_digit c || eqb c b'.' || eqb c b'_' || eqb c b'-'

abbrev is_slash : ℕ → Bool
is_slash c = eqb c b'/' || eqb c b'\\'

unfoldable pub valid_binary_name : String → Bool
valid_binary_name value =
    not (value == "" || value == "." || value == ".." || any_char is_slash value)
    && all_chars is_binary_char value

-- A quotation mark ends the quoted part, stands in double quotes, and begins a quoted part.
unfoldable pub replace_quotes : String → String
replace_quotes String.[] = ""
replace_quotes (String.◌∷◌ c s) =
    let rest = replace_quotes s in
    if eqb (code c) b'\'' then "'\"'\"'" <> rest else String.◌∷◌ c rest

unfoldable pub shell_quote : String → String
unfolding replace_quotes
shell_quote value = "'" <> (replace_quotes value <> "'")
