-- ===== src/Go/Map/Values.antt =====
-- The values of a map in the order of its sorted keys, and what a write does to a map.
use mathlib.Core.List.{Permᴰ}
use network_plugin_manager.Prelude.{
  ℕ, ◌+◌, ◌≡◌, ◌≢◌, refl, subst, ap, ◌∙◌, inl, inr, String, none, some, List, [], ◌∷◌, map, ◌==◌,
  length, eq_iff, arith, if◌then◌else◌, Bool-cases, All,
}
use network_plugin_manager.Go.Sort.{sort, sort_permᴰ}
use network_plugin_manager.Go.Map.{Map, lookup, lookup_or, keys, Distinct, remove, put}

module _ {V : Type 0} where
  pub lookup-remove :
      (k j : String) (m : Map V) → lookup j (remove k m) ≡ (if k == j then none else lookup j m)
  unfolding lookup remove
  lookup-remove k j [] = ground arith
  lookup-remove k j (e ∷ m) =
      ground (arith, eq_iff k j, eq_iff e.0 k, eq_iff e.0 j, lookup-remove k j m)

  pub lookup-put :
      (k j : String) (v : V) (m : Map V)
      → lookup j (put k v m) ≡ (if k == j then some v else lookup j m)
  unfolding lookup put
  lookup-put k j v m = ground (arith, lookup-remove k j m)

  remove-Distinct : (k : String) (m : Map V) → Distinct m → Distinct (remove k m)
  unfolding remove
  remove-Distinct k [] d = tt
  remove-Distinct k (e ∷ m) d = ground (arith, lookup-remove k e.0 m, remove-Distinct k m d.1)

  pub put-Distinct : (k : String) (v : V) (m : Map V) → Distinct m → Distinct (put k v m)
  unfolding put
  put-Distinct k v m d = (ground (arith, lookup-remove k k m, eq_iff k k), remove-Distinct k m d)

  remove-All : (P : String × V → Type 0) (k : String) (m : Map V) → All P m → All P (remove k m)
  unfolding remove
  remove-All P k [] a = tt
  remove-All P k (e ∷ m) a = elim (Bool-cases (e.0 == k)) [
    | inl t ↦ rw (t) (remove-All P k m a.1)
    | inr f ↦ rw (f) (a.0, remove-All P k m a.1)
  ]

  pub put-All :
      (P : String × V → Type 0) (k : String) (v : V) (m : Map V)
      → P (k, v)
      → All P m
      → All P (put k v m)
  unfolding put
  put-All P k v m p a = (p, remove-All P k m a)

  pub lookup-All :
      (P : String × V → Type 0) (m : Map V) (k : String) {v : V}
      → All P m
      → lookup k m ≡ some v
      → P (k, v)
  unfolding lookup
  lookup-All P [] k a h = cc
  lookup-All P (e ∷ m) k a h = elim (Bool-cases (e.0 == k)) [
    | inl t ↦ subst P (ground (arith, eq_iff e.0 k)) a.0
    | inr f ↦ lookup-All P m k a.1 (ground arith)
  ]

abbrev pub values : {V : Type 0} → Map V → List V
values = map λ e. e.1

-- What a loop over the keys reads.
abbrev pub read_at : {V : Type 0} → V → Map V → List String → List V
read_at zero_value m = map λ k. lookup_or zero_value k m

module _ {V : Type 0} (zero_value : V) where
  read_at-skip :
      (e : String × V) (m : Map V) (ks : List String)
      → All (λ k. e.0 ≢ k) ks
      → read_at zero_value (e ∷ m) ks ≡ read_at zero_value m ks
  unfolding lookup lookup_or
  read_at-skip e m [] h = refl
  read_at-skip e m (k ∷ ks) h = cc (
    let f : lookup_or zero_value k (e ∷ m) ≡ lookup_or zero_value k m =
          ground (arith, eq_iff e.0 k, h.0) in
        f,
    read_at-skip e m ks h.1,
  )

  absent-ne : (j : String) (m : Map V) → lookup j m ≡ none → All (λ k. j ≢ k) (keys m)
  unfolding lookup
  absent-ne j [] h = tt
  absent-ne j (e ∷ m) h = (λ q. ground (arith, eq_iff e.0 j, q), absent-ne j m (ground arith))

  -- Every key of a Go map reads its own value.
  pub read_at-keys : (m : Map V) → Distinct m → read_at zero_value m (keys m) ≡ values m
  unfolding lookup_or lookup
  read_at-keys [] d = refl
  read_at-keys (e ∷ m) d =
      let head : lookup_or zero_value e.0 (e ∷ m) ≡ e.1 = ground (arith, eq_iff e.0 e.0) in
      cc (head, read_at-skip e m (keys m) (absent-ne e.0 m d.0), read_at-keys m d.1)

  pub read_at-perm :
      {ks js : List String} (m : Map V)
      → Permᴰ ks js
      → Permᴰ (read_at zero_value m ks) (read_at zero_value m js)
  read_at-perm m Permᴰ.nil = Permᴰ.nil
  read_at-perm m (Permᴰ.cons e p) =
      Permᴰ.cons (ap (λ k. lookup_or zero_value k m) e) (read_at-perm m p)
  read_at-perm m (Permᴰ.swap e f) =
      Permᴰ.swap (ap (λ k. lookup_or zero_value k m) e) (ap (λ k. lookup_or zero_value k m) f)
  read_at-perm m (Permᴰ.trans p q) = Permᴰ.trans (read_at-perm m p) (read_at-perm m q)

-- A sum over a list, and over its permutations.
abbrev pub total {ℓ} : {A : Type ℓ} → (A → ℕ) → List A → ℕ
total f [] = 0
total f (x ∷ xs) = f x + total f xs

pub total-perm {ℓ} :
    {A : Type ℓ} (f : A → ℕ) {xs ys : List A} → Permᴰ xs ys → total f xs ≡ total f ys
total-perm f Permᴰ.nil = refl
total-perm f (Permᴰ.cons e p) = omega (arith, ap f e, total-perm f p)
total-perm f (Permᴰ.swap e g) = omega (arith, ap f e, ap f g)
total-perm f (Permᴰ.trans p q) = total-perm f p ∙ total-perm f q

pub All-perm {ℓ} :
    {A : Type ℓ} (P : A → Type 0) {xs ys : List A} → Permᴰ xs ys → All P xs → All P ys
All-perm P Permᴰ.nil a = tt
All-perm P (Permᴰ.cons e p) a = (subst P e a.0, All-perm P p a.1)
All-perm P (Permᴰ.swap e g) a = (subst P g a.1.0, (subst P e a.0, a.1.1))
All-perm P (Permᴰ.trans p q) a = All-perm P q (All-perm P p a)

-- A loop over the sorted keys of a Go map meets each of its values once.
pub sorted_values-perm :
    {V : Type 0} (zero_value : V) (m : Map V)
    → Distinct m
    → Permᴰ (read_at zero_value m (sort (keys m))) (values m)
sorted_values-perm zero_value m d =
    subst (λ vs. Permᴰ (read_at zero_value m (sort (keys m))) vs) (read_at-keys zero_value m d)
      (read_at-perm zero_value m (sort_permᴰ (keys m)))

pub length-values : {V : Type 0} (m : Map V) → length (values m) ≡ length m
length-values [] = refl
length-values (e ∷ m) = omega (arith, length-values m)
