-- ===== src/Go/Number/Laws.antt =====
-- The characters of a text that is a number or an address.
use Prim.Native.Char.{code}
use network_plugin_manager.Prelude.{
  ℕ, ◌+◌, ◌*◌, ◌-◌, ◌≡◌, ◌≢◌, refl, String, Bool, true, false, none, arith, eqb→eq, ap,
}
use network_plugin_manager.Go.Text.{any_char, is_digit}
use network_plugin_manager.Go.Number.{digits_from, digits, atoi}

module _ (q : ℕ → Bool) (no_digit : (c : ℕ) → is_digit c ≡ true → q c ≡ false) where
  digits_from-clean : (acc : ℕ) (s : String) → digits_from acc s ≢ none → any_char q s ≡ false
  unfolding digits_from any_char
  digits_from-clean acc String.[] h = refl
  digits_from-clean acc (String.◌∷◌ c s) h =
      ground (arith, no_digit (code c), digits_from-clean (10 * acc + (code c - b'0')) s)

  pub digits-clean : (s : String) → digits s ≢ none → any_char q s ≡ false
  unfolding digits
  digits-clean String.[] h = absurd (h refl)
  digits-clean (String.◌∷◌ c s) h = digits_from-clean 0 (String.◌∷◌ c s) h

  pub atoi-clean :
      q b'-' ≡ false → q b'+' ≡ false → (s : String) → atoi s ≢ none → any_char q s ≡ false
  unfolding atoi any_char
  atoi-clean m p String.[] h = refl
  atoi-clean m p (String.◌∷◌ c s) h = ground (
    arith,
    eqb→eq (code c) b'-',
    eqb→eq (code c) b'+',
    digits-clean s,
    digits-clean (String.◌∷◌ c s),
    ap q,
  )
