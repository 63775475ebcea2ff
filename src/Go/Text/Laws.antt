-- ===== src/Go/Text/Laws.antt =====
-- Laws of splitting and of the characters that a text has.
use Prim.Native.Char.{Char, code}
use text.Mathlib.TextLemmas.{nil-append, cons-append}
use network_plugin_manager.Prelude.{
  ℕ, ◌≡◌, refl, ap, ◌∙◌, ◌++◌, some, Option-cases, eqb→eq, String, Bool, true, false, ◌||◌, List,
  [], ◌∷◌, ◌<>◌, All, arith, eqb, Bool-cases, inl, inr,
}
use network_plugin_manager.Go.Text.{split, split_by, prepend, any_char, unlines, cut_last}

module _ (p : ℕ → Bool) where
  -- A text without separators is one piece.
  pub split_by_whole : (s : String) → any_char p s ≡ false → split_by p s ≡ s ∷ []
  unfolding split_by any_char
  split_by_whole String.[] h = refl
  split_by_whole (String.◌∷◌ c s) h = ground (arith, split_by_whole s)

  -- The first separator ends the first piece.
  pub split_by-append :
      (s : String) (c : Char) (t : String)
      → any_char p s ≡ false
      → p (code c) ≡ true
      → split_by p (s <> String.◌∷◌ c t) ≡ s ∷ split_by p t
  unfolding split_by any_char
  split_by-append String.[] c t h k = rw (nil-append, split_by) (ground arith)
  split_by-append (String.◌∷◌ d s) c t h k =
      rw (cons-append, split_by) (ground (arith, split_by-append s c t))

  module _ (q : ℕ → Bool) where
    prepend-clean :
        (c : Char) (ws : List String)
        → All (λ w. any_char q w ≡ false) (prepend c ws)
        → (q (code c) ≡ false) × All (λ w. any_char q w ≡ false) ws
    unfolding any_char
    prepend-clean c [] h = ground arith
    prepend-clean c (w ∷ ws) h = (ground arith, (ground arith, h.1))

    -- What no piece holds and no separator is, the text does not hold.
    pub any_char-split_by :
        ((c : ℕ) → p c ≡ true → q c ≡ false)
        → (s : String) → All (λ w. any_char q w ≡ false) (split_by p s)
        → any_char q s ≡ false
    unfolding split_by any_char
    any_char-split_by apart String.[] h = refl
    any_char-split_by apart (String.◌∷◌ c s) h = elim (Bool-cases (p (code c))) [
      | inl sep ↦
          let rest = any_char-split_by apart s ((rw sep at h).1) in
          ground (arith, apart (code c) sep, rest)
      | inr plain ↦
          let k = prepend-clean c (split_by p s) (rw plain at h) in
          ground (arith, k.0, any_char-split_by apart s k.1)
    ]

pub any_char-append :
    (q : ℕ → Bool) (s t : String) → any_char q (s <> t) ≡ (any_char q s || any_char q t)
unfolding any_char
any_char-append q String.[] t = rw nil-append
any_char-append q (String.◌∷◌ c s) t = rw cons-append (ground (arith, any_char-append q s t))

-- `strings.Split` at a separator written in front of the rest.
pub split-append :
    (c : Char) (s t : String)
    → any_char (λ d. eqb d (code c)) s ≡ false
    → split (code c) (s <> (String.◌∷◌ c "" <> t)) ≡ s ∷ split (code c) t
unfolding split
split-append c s t h =
    rw (cons-append, nil-append) (split_by-append (λ d. eqb d (code c)) s c t h (ground arith))

pub split_whole :
    (sep : ℕ) (s : String) → any_char (λ d. eqb d sep) s ≡ false → split sep s ≡ s ∷ []
unfolding split
split_whole sep s h = split_by_whole (λ d. eqb d sep) s h

abbrev pub has_newline : String → Bool
has_newline = any_char λ c. eqb c b'\n'

abbrev newline : Char
newline = "\n"

-- Lines that hold no newline are read back as they were written.
pub split-unlines :
    (ls : List String)
    → All (λ l. has_newline l ≡ false) ls
    → split b'\n' (unlines ls) ≡ ls ++ "" ∷ []
unfolding unlines split split_by
split-unlines [] h = refl
split-unlines (l ∷ ls) h =
    split-append newline l (unlines ls) h.0 ∙ ap (◌∷◌ l) (split-unlines ls h.1)

-- A text cut at a separator has no character that neither part nor the separator is.
pub any_char-cut_last :
    (q : ℕ → Bool) (sep : ℕ) (s : String) (r : String × String)
    → q sep ≡ false
    → cut_last sep s ≡ some r
    → any_char q r.0 ≡ false
    → any_char q r.1 ≡ false
    → any_char q s ≡ false
unfolding any_char cut_last
any_char-cut_last q sep String.[] r n h ca cb = refl
any_char-cut_last q sep (String.◌∷◌ c s) r n h ca cb = elim (Option-cases (cut_last sep s)) [
  | inl e ↦ ground (arith, e, eqb→eq (code c) sep, ap q)
  | inr (p, e) ↦
      let same : (String.◌∷◌ c p.0, p.1) ≡ r = ground (arith, e) in
      let left : (q (code c) || any_char q p.0) ≡ false =
        ap (λ (t : String × String). any_char q t.0) same ∙ ca in
      let right : any_char q p.1 ≡ false = ap (λ (t : String × String). any_char q t.1) same ∙ cb in
      ground (arith, left, any_char-cut_last q sep s p n e (ground arith) right)
]
