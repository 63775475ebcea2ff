-- ===== src/Go/Number.antt =====
-- strconv.Atoi: an optional sign and decimal digits, within 64 bits.
pub mod Laws
use Prim.Native.Char.{code}
use network_plugin_manager.Prelude.{
  ℕ, ◌+◌, ◌-◌, ◌*◌, ◌^◌, ◌≡◌, refl, String, Bool, true, false, Option, none, some, ltb, leb, eqb,
  if◌then◌else◌,
}
use network_plugin_manager.Go.Text.{is_digit}

-- `negsuc n` is -(n + 1).
pub data ℤ : Type 0 where
  pos : ℕ → ℤ
  negsuc : ℕ → ℤ

-- The value of digits, onto those read before; `none` where another character stands.
unfoldable pub digits_from : ℕ → String → Option ℕ
digits_from acc String.[] = some acc
digits_from acc (String.◌∷◌ c s) =
    let rest = digits_from (10 * acc + (code c - b'0')) s in
    if is_digit (code c) then rest else none

unfoldable pub digits : String → Option ℕ
unfolding digits_from
digits String.[] = none
digits (String.◌∷◌ c s) = digits_from 0 (String.◌∷◌ c s)

abbrev in_range : ℕ → ℤ → Option ℤ
in_range limit (pos n) = if ltb n limit then some (pos n) else none
in_range limit (negsuc n) = if ltb n limit then some (negsuc n) else none

abbrev negative : ℕ → ℤ
negative n = if eqb n 0 then pos 0 else negsuc (n - 1)

unfoldable pub atoi : String → Option ℤ
unfolding digits
atoi String.[] = none
atoi (String.◌∷◌ c s) =
    if eqb (code c) b'-'
    then elim (digits s) [ none ↦ none | some n ↦ in_range (2 ^ 63) (negative n) ]
    else if eqb (code c) b'+'
    then elim (digits s) [ none ↦ none | some n ↦ in_range (2 ^ 63) (pos n) ]
    else elim (digits (String.◌∷◌ c s)) [ none ↦ none | some n ↦ in_range (2 ^ 63) (pos n) ]

atoi_example : atoi "-042" ≡ some (negsuc 41)
unfolding atoi
atoi_example = refl

atoi_overflow : atoi "9223372036854775808" ≡ none
unfolding atoi
atoi_overflow = refl
