-- ===== src/Go/Netip/Laws.antt =====
-- The characters of an IPv4 address.
use network_plugin_manager.Prelude.{
  ℕ, ◌≡◌, ◌≢◌, refl, String, Bool, true, false, Option, none, inl, inr, Option-cases, arith, eqb,
  eqb→eq, List, [], ◌∷◌, All,
}
use network_plugin_manager.Go.Text.{any_char, is_digit, split, cut_last}
use network_plugin_manager.Go.Text.Laws.{any_char-split_by, any_char-cut_last}
use network_plugin_manager.Go.Number.Laws.{digits-clean, atoi-clean}
use network_plugin_manager.Go.Netip.{
  octet, quad, dotted, parse_addr, prefix_bits, prefix_of, parse_prefix,
}

module _ (q : ℕ → Bool) (no_digit : (c : ℕ) → is_digit c ≡ true → q c ≡ false)
    (no_dot : q b'.' ≡ false) where
  octet-clean : (s : String) → octet s ≢ none → any_char q s ≡ false
  unfolding octet
  octet-clean s h = digits-clean q no_digit s (λ e. h (ground arith))

  quad-some :
      (a b c d : Option ℕ) → quad a b c d ≢ none → (a ≢ none) × (b ≢ none) × (c ≢ none) × (d ≢ none)
  unfolding quad
  quad-some a b c d h =
      (λ e. h (ground arith), λ e. h (ground arith), λ e. h (ground arith), λ e. h (ground arith))

  dotted-clean : (ws : List String) → dotted ws ≢ none → All (λ w. any_char q w ≡ false) ws
  unfolding dotted
  dotted-clean (a ∷ (b ∷ (c ∷ (d ∷ [])))) h =
      let k = quad-some (octet a) (octet b) (octet c) (octet d) h in
      (octet-clean a k.0, (octet-clean b k.1, (octet-clean c k.2, (octet-clean d k.3, tt))))
  dotted-clean _ h = absurd (h refl)

  pub parse_addr-clean : (s : String) → parse_addr s ≢ none → any_char q s ≡ false
  unfolding parse_addr
  parse_addr-clean s h =
      any_char-split_by (λ c. eqb c b'.') q (λ c e. rw (eqb→eq c b'.' e) no_dot) s
        (dotted-clean (split b'.' s) h)

  prefix_bits-clean :
      q b'-' ≡ false → q b'+' ≡ false → (s : String) → prefix_bits s ≢ none → any_char q s ≡ false
  unfolding prefix_bits
  prefix_bits-clean m p s h = atoi-clean q no_digit m p s (λ e. h (ground (arith, e)))

  -- What neither a digit nor one of the signs of the notation is does not stand in a prefix.
  pub parse_prefix-clean :
      q b'-' ≡ false
      → q b'+' ≡ false
      → q b'/' ≡ false
      → (s : String) → parse_prefix s ≢ none
      → any_char q s ≡ false
  unfolding parse_prefix prefix_of
  parse_prefix-clean m p l s h = elim (Option-cases (cut_last b'/' s)) [
    | inl e ↦ absurd (h (ground (arith, e)))
    | inr (r, e) ↦
        any_char-cut_last q b'/' s r l e (parse_addr-clean r.0 (λ z. h (ground (arith, e, z))))
          (prefix_bits-clean m p r.1 (λ z. h (ground (arith, e, z))))
  ]
