-- ===== src/Go/Text/Lines.antt =====
-- Texts that are written line by line, each line from its parts.
use mathlib.Core.List.{Permᴰ}
use network_plugin_manager.Prelude.{
  ℕ, ◌≡◌, refl, sym, String, Bool, not, ◌||◌, true, false, List, [], ◌∷◌, ◌++◌, map, ◌<>◌, All,
  length, length-append, arith, eqb,
}
use network_plugin_manager.Go.Text.{any_char, is_letter, is_digit}
use network_plugin_manager.Go.Text.Laws.{any_char-append, has_newline}
use network_plugin_manager.Go.Map.Values.{total}

-- The parts of a line, one behind the other
abbrev pub glue : List String → String
glue [] = ""
glue (w ∷ ws) = w <> glue ws

abbrev pub concat_map {ℓ κ} : {A : Type ℓ} {B : Type κ} → (A → List B) → List A → List B
concat_map f [] = []
concat_map f (x ∷ xs) = f x ++ concat_map f xs

-- Fits on one line
abbrev pub IsClean : String → Type 0
IsClean s = has_newline s ≡ false

-- A character that stands for itself inside and outside of quotes, in the scripts of nft and of iptables-restore:
-- a letter, a digit or one of the signs of addresses and names
abbrev pub is_plain_char : ℕ → Bool
is_plain_char c =
    is_letter c
    || is_digit c
    || eqb c b'.'
    || eqb c b'_'
    || eqb c b'-'
    || eqb c b':'
    || eqb c b'/'
    || eqb c b'+'

abbrev pub is_special : ℕ → Bool
is_special c = not (is_plain_char c)

-- It has no blank, quote, semicolon, brace or newline, nor any other special character.
abbrev pub IsPlain : String → Type 0
IsPlain s = any_char is_special s ≡ false

pub plain-IsClean : (s : String) → IsPlain s → IsClean s
unfolding any_char
plain-IsClean String.[] h = refl
plain-IsClean (String.◌∷◌ c s) h = ground (arith, plain-IsClean s)

pub no_special : (c : ℕ) → is_digit c ≡ true → is_special c ≡ false
no_special c h = ground (arith, h)

pub no_digit : (c : ℕ) → is_digit c ≡ true → eqb c b'\n' ≡ false
no_digit c h = ground arith

pub glue-IsClean : (ws : List String) → All IsClean ws → IsClean (glue ws)
unfolding any_char
glue-IsClean [] h = refl
glue-IsClean (w ∷ ws) h =
    ground (arith, any_char-append (λ c. eqb c b'\n') w (glue ws), glue-IsClean ws h.1)

pub append-All {ℓ} :
    {A : Type ℓ} (P : A → Type 0) (xs ys : List A) → All P xs → All P ys → All P (xs ++ ys)
append-All P [] ys a b = b
append-All P (x ∷ xs) ys a b = (a.0, append-All P xs ys a.1 b)

pub concat_map-All :
    {A : Type 0} (P : A → Type 0) (f : A → List String) (xs : List A)
    → ((x : A) → P x → All IsClean (f x))
    → All P xs
    → All IsClean (concat_map f xs)
concat_map-All P f [] h a = tt
concat_map-All P f (x ∷ xs) h a =
    append-All IsClean (f x) (concat_map f xs) (h x a.0) (concat_map-All P f xs h a.1)

pub map-All :
    {A B : Type 0} (P : A → Type 0) (Q : B → Type 0) (f : A → B) (xs : List A)
    → ((x : A) → P x → Q (f x))
    → All P xs
    → All Q (map f xs)
map-All P Q f [] h a = tt
map-All P Q f (x ∷ xs) h a = (h x a.0, map-All P Q f xs h a.1)

pub length-concat_map :
    {A : Type 0} (f : A → List String) (xs : List A)
    → length (concat_map f xs) ≡ total (λ x. length (f x)) xs
length-concat_map f [] = refl
length-concat_map f (x ∷ xs) =
    omega (arith, length-append (f x) (concat_map f xs), length-concat_map f xs)

pub length-map : {A B : Type 0} (f : A → B) (xs : List A) → length (map f xs) ≡ length xs
length-map f [] = refl
length-map f (x ∷ xs) = omega (arith, length-map f xs)

pub symm-perm : {A : Type 0} {xs ys : List A} → Permᴰ xs ys → Permᴰ ys xs
symm-perm Permᴰ.nil = Permᴰ.nil
symm-perm (Permᴰ.cons e p) = Permᴰ.cons (sym e) (symm-perm p)
symm-perm (Permᴰ.swap e f) = Permᴰ.swap (sym f) (sym e)
symm-perm (Permᴰ.trans p q) = Permᴰ.trans (symm-perm q) (symm-perm p)
