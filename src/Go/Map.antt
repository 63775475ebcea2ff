-- ===== src/Go/Map.antt =====
-- Maps keyed by texts as the list of their entries, in the order in which a `range` loop meets
-- them. Go leaves that order open: what holds for every such list holds for every order.
pub mod Values
use mathlib.Core.List.{Permᴰ}
use network_plugin_manager.Prelude.{
  ◌≡◌, refl, subst, ap, ◌∙◌, String, Bool, false, ◌||◌, Option, none, some, List, [], ◌∷◌, ◌++◌,
  map, ◌==◌, eq_iff, arith, if◌then◌else◌,
}

abbrev pub Map {ℓ} : Type ℓ → Type ℓ
Map V = List (String × V)

-- A set of texts, or the `map[string]bool` of those that were seen.
unfoldable pub member : String → List String → Bool
member k [] = false
member k (j ∷ ks) = k == j || member k ks

pub member-append :
    (k : String) (xs ys : List String) → member k (xs ++ ys) ≡ (member k xs || member k ys)
unfolding member
member-append k [] ys = refl
member-append k (x ∷ xs) ys = ground (arith, member-append k xs ys)

module _ {ℓ} {V : Type ℓ} where
  unfoldable pub lookup : String → Map V → Option V
  lookup k [] = none
  lookup k (e ∷ m) = if e.0 == k then some e.1 else lookup k m

  -- `m[k]`, where a missing key reads as the zero value
  unfoldable pub lookup_or : V → String → Map V → V
  unfolding lookup
  lookup_or zero_value k m = elim (lookup k m) [ none ↦ zero_value | some v ↦ v ]

module _ {ℓ} {V : Type ℓ} where
  -- `delete(m, k)`
  unfoldable pub remove : String → Map V → Map V
  remove k [] = []
  remove k (e ∷ m) = let rest = remove k m in if e.0 == k then rest else e ∷ rest

  -- `m[k] = v`
  unfoldable pub put : String → V → Map V → Map V
  unfolding remove
  put k v m = (k, v) ∷ remove k m

abbrev pub keys {ℓ} : {V : Type ℓ} → Map V → List String
keys = map λ e. e.0

module _ {V : Type 0} where
  -- No key stands twice, as in every Go map.
  abbrev pub Distinct : Map V → Type 0
  Distinct [] = Unit
  Distinct (e ∷ m) = (lookup e.0 m ≡ none) × Distinct m

  lookup-none-perm : {m n : Map V} (k : String) → Permᴰ m n → lookup k m ≡ none → lookup k n ≡ none
  unfolding lookup
  lookup-none-perm k Permᴰ.nil h = refl
  lookup-none-perm k (Permᴰ.cons {a} {b} e p) h = ground (arith, e, lookup-none-perm k p)
  lookup-none-perm k (Permᴰ.swap e f) h = ground (arith, e, f)
  lookup-none-perm k (Permᴰ.trans p q) h = lookup-none-perm k q (lookup-none-perm k p h)

  Distinct-perm : {m n : Map V} → Permᴰ m n → Distinct m → Distinct n
  unfolding lookup
  Distinct-perm Permᴰ.nil d = tt
  Distinct-perm (Permᴰ.cons {a} {b} {l₂} e p) d =
      (subst (λ c. lookup c.0 l₂ ≡ none) e (lookup-none-perm a.0 p d.0), Distinct-perm p d.1)
  Distinct-perm (Permᴰ.swap {a} {b} {a'} {b'} {l} e f) d =
      ground (
        arith,
        e,
        f,
        d.0,
        d.1.0,
        eq_iff a.0 b.0,
        eq_iff b.0 a.0,
        eq_iff a'.0 b'.0,
        eq_iff b'.0 a'.0,
      )
  Distinct-perm (Permᴰ.trans p q) d = Distinct-perm q (Distinct-perm p d)

  -- A lookup does not depend on the order of the entries.
  pub lookup-perm : {m n : Map V} (k : String) → Permᴰ m n → Distinct m → lookup k m ≡ lookup k n
  unfolding lookup
  lookup-perm k Permᴰ.nil d = refl
  lookup-perm k (Permᴰ.cons {a} {b} e p) d = ground (arith, e, lookup-perm k p d.1)
  lookup-perm k (Permᴰ.swap {a} {b} {a'} {b'} e f) d =
      ground (arith, e, f, d.0, eq_iff a.0 k, eq_iff b.0 k, eq_iff b.0 a.0)
  lookup-perm k (Permᴰ.trans p q) d = lookup-perm k p d ∙ lookup-perm k q (Distinct-perm p d)

  pub keys-perm : {m n : Map V} → Permᴰ m n → Permᴰ (keys m) (keys n)
  keys-perm Permᴰ.nil = Permᴰ.nil
  keys-perm (Permᴰ.cons e p) = Permᴰ.cons (ap (λ (c : String × V). c.0) e) (keys-perm p)
  keys-perm (Permᴰ.swap e f) =
      Permᴰ.swap (ap (λ (c : String × V). c.0) e) (ap (λ (c : String × V). c.0) f)
  keys-perm (Permᴰ.trans p q) = Permᴰ.trans (keys-perm p) (keys-perm q)
