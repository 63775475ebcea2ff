-- ===== src/Go/Sort.antt =====
-- Package sort: `sort.Strings`. The order is that of the code points, which is that of the bytes.
use Prim.Native.Char.{code}
use text.Mathlib.TextEquality.{Char-path}
use mathlib.Core.List.{Permᴰ}
use mathlib.Core.List.Permᴰ
use network_plugin_manager.Prelude.{
  ◌≡◌, refl, ◌∙◌, inl, inr, String, Bool, true, false, List, [], ◌∷◌, ltb, eqb, arith, Bool-cases,
  if◌then◌else◌,
}
use network_plugin_manager.Go.Map.{member}

unfoldable pub str_leb : String → String → Bool
str_leb String.[] t = true
str_leb (String.◌∷◌ c s) String.[] = false
str_leb (String.◌∷◌ c s) (String.◌∷◌ d t) =
    let rest = str_leb s t in
    if ltb (code c) (code d) then true else if eqb (code c) (code d) then rest else false

pub str_leb_total : (s t : String) → str_leb s t ≡ false → str_leb t s ≡ true
unfolding str_leb
str_leb_total String.[] t h = cc
str_leb_total (String.◌∷◌ c s) String.[] h = refl
str_leb_total (String.◌∷◌ c s) (String.◌∷◌ d t) h = ground (arith, str_leb_total s t)

pub str_leb_antisymm : (s t : String) → str_leb s t ≡ true → str_leb t s ≡ true → s ≡ t
unfolding str_leb
str_leb_antisymm String.[] String.[] h k = refl
str_leb_antisymm String.[] (String.◌∷◌ d t) h k = cc
str_leb_antisymm (String.◌∷◌ c s) String.[] h k = cc
str_leb_antisymm (String.◌∷◌ c s) (String.◌∷◌ d t) h k =
    ground (arith, Char-path c d, str_leb_antisymm s t)

str_leb_trans : (s t u : String) → str_leb s t ≡ true → str_leb t u ≡ true → str_leb s u ≡ true
unfolding str_leb
str_leb_trans String.[] t u h k = refl
str_leb_trans (String.◌∷◌ c s) String.[] u h k = cc
str_leb_trans (String.◌∷◌ c s) (String.◌∷◌ d t) String.[] h k = cc
str_leb_trans (String.◌∷◌ c s) (String.◌∷◌ d t) (String.◌∷◌ e u) h k =
    ground (arith, str_leb_trans s t u)

unfoldable pub place : String → List String → List String
place x [] = x ∷ []
place x (y ∷ ys) = if str_leb x y then x ∷ y ∷ ys else y ∷ place x ys

unfoldable pub sort : List String → List String
unfolding place str_leb
sort [] = []
sort (x ∷ xs) = place x (sort xs)

place_comm : (x y : String) (zs : List String) → place x (place y zs) ≡ place y (place x zs)
unfolding place
place_comm x y [] = ground (arith, str_leb_total x y, str_leb_antisymm x y)
place_comm x y (z ∷ zs) = ground (
  arith,
  str_leb_total x y,
  str_leb_total x z,
  str_leb_total y z,
  str_leb_antisymm x y,
  str_leb_trans x y z,
  str_leb_trans y x z,
  place_comm x y zs,
)

-- Sorting forgets the order, so what is done over sorted keys does not depend on a map's order.
pub sort-permᴰ : {xs ys : List String} → Permᴰ xs ys → sort xs ≡ sort ys
unfolding sort
sort-permᴰ Permᴰ.nil = refl
sort-permᴰ (Permᴰ.cons e p) = cc (e, sort-permᴰ p)
sort-permᴰ (Permᴰ.swap {a} {b} {l} e f) = place_comm a b (sort l) ∙ cc (e, f)
sort-permᴰ (Permᴰ.trans p q) = sort-permᴰ p ∙ sort-permᴰ q

-- Each text is at most the next.
abbrev pub IsSorted : List String → Type 0
IsSorted [] = Unit
IsSorted (x ∷ []) = Unit
IsSorted (x ∷ (y ∷ ys)) = (str_leb x y ≡ true) × IsSorted (y ∷ ys)

place-IsSorted : (x : String) (ys : List String) → IsSorted ys → IsSorted (place x ys)
unfolding place
place-IsSorted x [] h = tt
place-IsSorted x (y ∷ []) h = ground (arith, str_leb_total x y)
place-IsSorted x (y ∷ (z ∷ zs)) h =
    ground (arith, str_leb_total x y, str_leb_total x z, place-IsSorted x (z ∷ zs) h.1)

pub sort-IsSorted : (xs : List String) → IsSorted (sort xs)
unfolding sort
sort-IsSorted [] = tt
sort-IsSorted (x ∷ xs) = place-IsSorted x (sort xs) (sort-IsSorted xs)

place-permᴰ : (x : String) (ys : List String) → Permᴰ (place x ys) (x ∷ ys)
unfolding place
place-permᴰ x [] = Permᴰ.refl (x ∷ [])
place-permᴰ x (y ∷ ys) = elim (Bool-cases (str_leb x y)) [
  | inl h ↦ rw (h, place) (Permᴰ.refl (x ∷ y ∷ ys))
  | inr h ↦ rw (h, place) (Permᴰ.trans (Permᴰ.cons refl (place-permᴰ x ys)) (Permᴰ.swap refl refl))
]

-- Sorting keeps every entry, as often as it occurs.
pub sort_permᴰ : (xs : List String) → Permᴰ (sort xs) xs
unfolding sort
sort_permᴰ [] = Permᴰ.nil
sort_permᴰ (x ∷ xs) = Permᴰ.trans (place-permᴰ x (sort xs)) (Permᴰ.cons refl (sort_permᴰ xs))

member-place : (v x : String) (ys : List String) → member v (place x ys) ≡ member v (x ∷ ys)
unfolding place member
member-place v x [] = refl
member-place v x (y ∷ ys) = ground (arith, member-place v x ys)

pub member-sort_same : (v : String) (xs : List String) → member v (sort xs) ≡ member v xs
unfolding sort member
member-sort_same v [] = refl
member-sort_same v (x ∷ xs) = ground (arith, member-place v x (sort xs), member-sort_same v xs)

pub member-sort : (v : String) (xs : List String) → member v xs ≡ true → member v (sort xs) ≡ true
member-sort v xs h = member-sort_same v xs ∙ h
