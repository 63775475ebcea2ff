-- ===== src/Go/Text.antt =====
-- Packages strings and unicode, over code points.
pub mod Laws
pub mod Lines
use Prim.Native.Char.{Char, code}
use Prim.Native.String.{char_at}
use network_plugin_manager.Prelude.{
  ℕ, ◌-◌, ◌+◌, ◌≡◌, refl, String, Bool, true, false, not, ◌&&◌, ◌||◌, Option, none, some, List, [],
  ◌∷◌, ◌==◌, ◌<>◌, starts_with, leb, ltb, eqb, keep, if◌then◌else◌,
}

-- unicode.IsSpace
abbrev pub is_space : ℕ → Bool
is_space c =
    (leb 9 c && leb c 13)
    || eqb c 32
    || eqb c 0x85
    || eqb c 0xa0
    || eqb c 0x1680
    || (leb 0x2000 c && leb c 0x200a)
    || eqb c 0x2028
    || eqb c 0x2029
    || eqb c 0x202f
    || eqb c 0x205f
    || eqb c 0x3000

abbrev pub is_digit : ℕ → Bool
is_digit c = leb b'0' c && leb c b'9'

abbrev pub is_letter : ℕ → Bool
is_letter c = (leb b'a' c && leb c b'z') || (leb b'A' c && leb c b'Z')

abbrev pub prepend : Char → List String → List String
prepend c [] = (String.◌∷◌ c "") ∷ []
prepend c (w ∷ ws) = (String.◌∷◌ c w) ∷ ws

-- The pieces between the characters that pass the test; a piece may be empty.
unfoldable pub split_by : (ℕ → Bool) → String → List String
split_by p String.[] = "" ∷ []
split_by p (String.◌∷◌ c s) =
    let rest = split_by p s in if p (code c) then "" ∷ rest else prepend c rest

-- strings.Split, for a separator of one character
unfoldable pub split : ℕ → String → List String
unfolding split_by
split sep s = split_by (λ c. eqb c sep) s

-- strings.Fields
unfoldable pub fields : String → List String
unfolding split_by
fields s = keep (λ w. not (w == "")) (split_by is_space s)

-- strings.TrimPrefix of one that is known to be there is `some`, and of another `none`.
unfoldable pub strip_prefix : String → String → Option String
strip_prefix String.[] s = some s
strip_prefix (String.◌∷◌ c p) String.[] = none
strip_prefix (String.◌∷◌ c p) (String.◌∷◌ d s) =
    let rest = strip_prefix p s in if eqb (code c) (code d) then rest else none

-- strings.TrimPrefix
unfoldable pub trim_prefix : String → String → String
unfolding strip_prefix
trim_prefix p s = elim (strip_prefix p s) [ none ↦ s | some rest ↦ rest ]

abbrev pub trim_left : String → String
trim_left String.[] = ""
trim_left (String.◌∷◌ c s) =
    let rest = trim_left s in if is_space (code c) then rest else String.◌∷◌ c s

-- Without the white space at the end.
abbrev pub trim_right : String → String
trim_right String.[] = ""
trim_right (String.◌∷◌ c s) =
    let rest = trim_right s in if is_space (code c) && rest == "" then "" else String.◌∷◌ c rest

-- strings.TrimSpace
unfoldable pub trim_space : String → String
trim_space s = trim_right (trim_left s)

-- strings.Contains
unfoldable pub contains : String → String → Bool
contains String.[] sub = sub == ""
contains (String.◌∷◌ c s) sub = starts_with (String.◌∷◌ c s) sub || contains s sub

-- strings.ContainsAny, and loops over the characters that look for one that passes a test
unfoldable pub any_char : (ℕ → Bool) → String → Bool
any_char p String.[] = false
any_char p (String.◌∷◌ c s) = p (code c) || any_char p s

unfoldable pub all_chars : (ℕ → Bool) → String → Bool
all_chars p String.[] = true
all_chars p (String.◌∷◌ c s) = p (code c) && all_chars p s

-- The part before the first such character, and the part behind it.
unfoldable pub cut : ℕ → String → Option (String × String)
cut sep String.[] = none
cut sep (String.◌∷◌ c s) =
    let rest = cut sep s in
    if eqb (code c) sep
    then some ("", s)
    else elim rest [ none ↦ none | some r ↦ some (String.◌∷◌ c r.0, r.1) ]

-- The part before the last such character, and the part behind it.
unfoldable pub cut_last : ℕ → String → Option (String × String)
cut_last sep String.[] = none
cut_last sep (String.◌∷◌ c s) = elim (cut_last sep s) [
  | some r ↦ some (String.◌∷◌ c r.0, r.1)
  | none ↦ if eqb (code c) sep then some ("", s) else none
]

-- strings.Join
unfoldable pub join : String → List String → String
join sep [] = ""
join sep (w ∷ []) = w
join sep (w ∷ (v ∷ ws)) = w <> (sep <> join sep (v ∷ ws))

-- strings.ToLower for ASCII letters; other characters are kept.
abbrev lower : Char → Char
lower c =
    if leb b'A' (code c) && leb (code c) b'Z'
    then char_at "abcdefghijklmnopqrstuvwxyz" (code c - b'A')
    else c

unfoldable pub to_lower : String → String
to_lower String.[] = ""
to_lower (String.◌∷◌ c s) = String.◌∷◌ (lower c) (to_lower s)

-- Lines as they are written one behind the other, each with its newline
unfoldable pub unlines : List String → String
unlines [] = ""
unlines (l ∷ ls) = l <> ("\n" <> unlines ls)

-- The part behind the first occurrence of a text
unfoldable pub after : String → String → Option String
unfolding strip_prefix
after sub String.[] = strip_prefix sub ""
after sub (String.◌∷◌ c s) =
    let rest = after sub s in
    elim (strip_prefix sub (String.◌∷◌ c s)) [ some r ↦ some r | none ↦ rest ]
