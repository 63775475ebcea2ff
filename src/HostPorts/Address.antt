-- ===== src/HostPorts/Address.antt =====
-- `selectContainerIPv4` of hostports/watcher.go: the address of a container that has none in the metadata.
-- The result is the address itself in place of its text.
use network_plugin_manager.Prelude.{
  ℕ, ◌≡◌, ◌≢◌, ◌↔◌, refl, ap, subst, ◌∙◌, true, false, ◌/◌, ◌^◌, inl, inr, ◌⊎◌, not, ◌||◌, Option,
  none, some, List, [], ◌∷◌, ◌++◌, eqb, eqb→eq, any, All, Any, if◌then◌else◌, arith, Bool-cases,
  Option-cases,
}
use network_plugin_manager.Go.Netip.{Prefix, contains, is_loopback}

-- What netlink lists: an entry without a network, with bytes that are no address, or with an address,
-- where one of IPv4 that is mapped to IPv6 counts as IPv4.
pub data Address : Type 0 where
  no_ip_net not_an_address ipv6 : Address
  ipv4 : ℕ → Address

unfoldable pub candidate : Prefix → Address → Option ℕ
unfolding contains
candidate prefix (ipv4 a) = if is_loopback a || not (contains prefix a) then none else some a
candidate prefix _ = none

unfoldable pub add_candidate : ℕ → List ℕ → List ℕ
add_candidate a cs = if any (λ c. eqb c a) cs then cs else cs ++ a ∷ []

unfoldable pub candidates : Prefix → List Address → List ℕ → List ℕ
unfolding candidate add_candidate
candidates prefix [] cs = cs
candidates prefix (x ∷ xs) cs =
    candidates prefix xs (elim (candidate prefix x) [ none ↦ cs | some a ↦ add_candidate a cs ])

-- `none` is the error of no address or of several.
unfoldable pub only : List ℕ → Option ℕ
only (a ∷ []) = some a
only _ = none

unfoldable pub select_container_ipv4 : List Address → Prefix → Option ℕ
unfolding candidates only
select_container_ipv4 addresses prefix = only (candidates prefix addresses [])

module _ (prefix : Prefix) where
  -- No other address than this one comes into question.
  abbrev pub AreAll : ℕ → List Address → Type 0
  AreAll a = All λ x. (candidate prefix x ≡ none) ⊎ (candidate prefix x ≡ some a)

  candidates_many :
      (xs : List Address) (c d : ℕ) (cs : List ℕ)
      → only (candidates prefix xs (c ∷ (d ∷ cs))) ≡ none
  unfolding candidates only add_candidate
  candidates_many [] c d cs = refl
  candidates_many (x ∷ xs) c d cs = elim (Option-cases (candidate prefix x)) [
    | inl e ↦ rw (e) (candidates_many xs c d cs)
    | inr (a, e) ↦ elim (Bool-cases (any (λ k. eqb k a) (c ∷ (d ∷ cs)))) [
      | inl t ↦ rw (e, t) (candidates_many xs c d cs)
      | inr f ↦ rw (e, f) (candidates_many xs c d (cs ++ a ∷ []))
    ]
  ]

  candidates_one :
      (xs : List Address) (c a : ℕ)
      → only (candidates prefix xs (c ∷ [])) ≡ some a
      → (c ≡ a) × AreAll a xs
  unfolding candidates only add_candidate
  candidates_one [] c a h = (ground (arith, h), tt)
  candidates_one (x ∷ xs) c a h = elim (Option-cases (candidate prefix x)) [
    | inl e ↦ let r = candidates_one xs c a (rw e at h) in (r.0, (inl e, r.1))
    | inr (b, e) ↦ elim (Bool-cases (eqb c b)) [
      | inl t ↦
          let r = candidates_one xs c a (ground (arith, h, e, t)) in
          (r.0, (inr (ground (arith, e, eqb→eq c b t, r.0)), r.1))
      | inr f ↦ absurd (ground (arith, h, e, f, candidates_many xs c b []))
    ]
  ]

  candidates_none :
      (xs : List Address) (a : ℕ)
      → only (candidates prefix xs []) ≡ some a
      → Any (λ x. candidate prefix x ≡ some a) xs × AreAll a xs
  unfolding candidates only add_candidate
  candidates_none [] a h = cc
  candidates_none (x ∷ xs) a h = elim (Option-cases (candidate prefix x)) [
    | inl e ↦ let r = candidates_none xs a (rw e at h) in (inr r.0, (inl e, r.1))
    | inr (b, e) ↦
        let r = candidates_one xs b a (ground (arith, h, e)) in
        let same : candidate prefix x ≡ some a = ground (arith, e, r.0) in
        (inl same, (inr same, r.1))
  ]

  one_candidates :
      (xs : List Address) (a : ℕ) → AreAll a xs → candidates prefix xs (a ∷ []) ≡ a ∷ []
  unfolding candidates add_candidate
  one_candidates [] a h = refl
  one_candidates (x ∷ xs) a (inl e, h) = ground (arith, e, one_candidates xs a h)
  one_candidates (x ∷ xs) a (inr e, h) = ground (arith, e, one_candidates xs a h)

  none_candidates :
      (xs : List Address) (a : ℕ)
      → Any (λ x. candidate prefix x ≡ some a) xs
      → AreAll a xs
      → candidates prefix xs [] ≡ a ∷ []
  unfolding candidates add_candidate
  none_candidates [] a l h = elim l [ ]
  none_candidates (x ∷ xs) a (inl e) h = ground (arith, e, one_candidates xs a h.1)
  none_candidates (x ∷ xs) a (inr l) (inr e, h) = ground (arith, e, one_candidates xs a h)
  none_candidates (x ∷ xs) a (inr l) (inl e, h) = ground (arith, e, none_candidates xs a l h)

-- What is listed and cannot be the container's address: no address of IPv4, one of the loopback block
-- 127.0.0.0/8, or one outside of the subnet
pub data IsOutside (prefix : Prefix) : Address → Type 0 where
  without_network : IsOutside prefix no_ip_net
  without_address : IsOutside prefix not_an_address
  of_ipv6 : IsOutside prefix ipv6
  loopback : (b : ℕ) → b / 2 ^ 24 ≡ 127 → IsOutside prefix (ipv4 b)
  elsewhere : (b : ℕ) → contains prefix b ≡ false → IsOutside prefix (ipv4 b)

-- The address is listed in the subnet and is no loopback address, and no other such address is listed.
pub record IsOnlyAddress (prefix : Prefix) (addresses : List Address) (a : ℕ) : Type 0 where
  pub listed : Any (λ x. x ≡ ipv4 a) addresses
  pub managed : contains prefix a ≡ true
  pub not_loopback : a / 2 ^ 24 ≢ 127
  pub others : All (λ x. IsOutside prefix x ⊎ (x ≡ ipv4 a)) addresses

module _ (prefix : Prefix) where
  candidate-some :
      (x : Address) (a : ℕ)
      → candidate prefix x ≡ some a
      → (x ≡ ipv4 a) × ((contains prefix a ≡ true) × (a / 2 ^ 24 ≢ 127))
  unfolding candidate
  candidate-some no_ip_net a h = absurd (ground (arith, h))
  candidate-some not_an_address a h = absurd (ground (arith, h))
  candidate-some ipv6 a h = absurd (ground (arith, h))
  candidate-some (ipv4 b) a h =
      let same : b ≡ a = ground (arith, h) in
      let facts : (contains prefix b ≡ true) × (b / 2 ^ 24 ≢ 127) =
        (ground (arith, h), λ e. ground (arith, h, e)) in
      (ap ipv4 same, subst (λ c. (contains prefix c ≡ true) × (c / 2 ^ 24 ≢ 127)) same facts)

  some-candidate :
      (x : Address) (a : ℕ)
      → x ≡ ipv4 a
      → contains prefix a ≡ true
      → a / 2 ^ 24 ≢ 127
      → candidate prefix x ≡ some a
  unfolding candidate
  some-candidate x a e c k = ap (candidate prefix) e ∙ ground (arith, c, eqb→eq (a / 2 ^ 24) 127, k)

  candidate-none : (x : Address) → candidate prefix x ≡ none → IsOutside prefix x
  unfolding candidate
  candidate-none no_ip_net h = without_network
  candidate-none not_an_address h = without_address
  candidate-none ipv6 h = of_ipv6
  candidate-none (ipv4 b) h = elim (Bool-cases (is_loopback b)) [
    | inl t ↦ loopback b (eqb→eq (b / 2 ^ 24) 127 t)
    | inr f ↦ elsewhere b (ground (arith, h, f))
  ]

  none-candidate : (x : Address) → IsOutside prefix x → candidate prefix x ≡ none
  unfolding candidate
  none-candidate x without_network = refl
  none-candidate x without_address = refl
  none-candidate x of_ipv6 = refl
  none-candidate x (loopback b e) = ground (arith, e)
  none-candidate x (elsewhere b e) = ground (arith, e)

  only_address :
      (addresses : List Address) (a : ℕ)
      → Any (λ x. candidate prefix x ≡ some a) addresses
      → AreAll prefix a addresses
      → IsOnlyAddress prefix addresses a
  only_address (x ∷ xs) a l h = record {
    listed = found (x ∷ xs) l;
    managed = (one (x ∷ xs) l).0;
    not_loopback = (one (x ∷ xs) l).1;
    others = all (x ∷ xs) h;
  }
    where
      found :
          (ys : List Address) → Any (λ y. candidate prefix y ≡ some a) ys → Any (λ y. y ≡ ipv4 a) ys
      found [] l = elim l [ ]
      found (y ∷ ys) (inl e) = inl (candidate-some y a e).0
      found (y ∷ ys) (inr l) = inr (found ys l)

      one :
          (ys : List Address)
          → Any (λ y. candidate prefix y ≡ some a) ys
          → (contains prefix a ≡ true) × (a / 2 ^ 24 ≢ 127)
      one [] l = elim l [ ]
      one (y ∷ ys) (inl e) = (candidate-some y a e).1
      one (y ∷ ys) (inr l) = one ys l

      all :
          (ys : List Address) → AreAll prefix a ys → All (λ y. IsOutside prefix y ⊎ (y ≡ ipv4 a)) ys
      all [] h = tt
      all (y ∷ ys) (inl e, h) = (inl (candidate-none y e), all ys h)
      all (y ∷ ys) (inr e, h) = (inr (candidate-some y a e).0, all ys h)
  only_address [] a l h = elim l [ ]

  address_found :
      (a : ℕ)
      → contains prefix a ≡ true
      → a / 2 ^ 24 ≢ 127
      → (xs : List Address) → Any (λ x. x ≡ ipv4 a) xs
      → Any (λ x. candidate prefix x ≡ some a) xs
  address_found a c k [] l = elim l [ ]
  address_found a c k (x ∷ xs) (inl e) = inl (some-candidate x a e c k)
  address_found a c k (x ∷ xs) (inr l) = inr (address_found a c k xs l)

  address_alone :
      (a : ℕ)
      → contains prefix a ≡ true
      → a / 2 ^ 24 ≢ 127
      → (xs : List Address) → All (λ x. IsOutside prefix x ⊎ (x ≡ ipv4 a)) xs
      → AreAll prefix a xs
  address_alone a c k [] h = tt
  address_alone a c k (x ∷ xs) (inl e, h) = (inl (none-candidate x e), address_alone a c k xs h)
  address_alone a c k (x ∷ xs) (inr e, h) =
      (inr (some-candidate x a e c k), address_alone a c k xs h)

-- An address is selected exactly when it is listed, is an IPv4 address in the managed subnet and outside of
-- 127.0.0.0/8, and no other such address is listed; so the order of the listing does not matter.
pub select_container_ipv4_iff :
    (addresses : List Address) (prefix : Prefix) (a : ℕ)
    → (select_container_ipv4 addresses prefix ≡ some a) ↔ IsOnlyAddress prefix addresses a
unfolding select_container_ipv4 only
select_container_ipv4_iff addresses prefix a = (
  λ h. let (l, all) = candidates_none prefix addresses a h in only_address prefix addresses a l all,
  λ o. ap only (
      none_candidates prefix addresses a
        (address_found prefix a o.managed o.not_loopback addresses o.listed)
        (address_alone prefix a o.managed o.not_loopback addresses o.others)),
)
