-- ===== src/Keylock/Sections.antt =====
-- Every section of a worker keeps what the counts say.
use network_plugin_manager.Prelude.{
  ◌≡◌, refl, sym, subst, ap, inl, inr, ℕ, ◌+◌, ◌-◌, String, true, false, ◌&&◌, ◌==◌, eqb, leb,
  arith, eq_iff, Bool-cases, if◌then◌else◌,
}
use network_plugin_manager.Go.Map.{lookup, remove}
use network_plugin_manager.Go.Map.Values.{lookup-remove}
use network_plugin_manager.Keylock.{
  Locks, update, Worker, idle, waiting, holding, releasing, unregister, section, uses, holds, one,
}
use network_plugin_manager.Keylock.Counts.{
  Counts, is_entry, registered, own_entry, waiting-Counts, holding-Counts, idle-Counts,
}

module _ (used held : String → ℕ → ℕ)
    (fewer : (key : String) (e : ℕ) → leb (held key e) (used key e) ≡ true) where
  abbrev With : Locks → Worker → Type 0
  With l w =
      Counts l (λ key e. used key e + one (uses key e w))
        (λ key e. held key e + one (holds key e w))

  registered-remove :
      (key k : String) (d : ℕ) (l : Locks)
      → is_entry (lookup k (remove key l.entries)) d
        ≡ (if key == k then false else registered l k d)
  registered-remove key k d l = ground (arith, lookup-remove key k l.entries)

  -- A key has one entry at most.
  single :
      (key k : String) (e d : ℕ) (l : Locks)
      → registered l key e ≡ true
      → (key == k) ≡ true
      → registered l k d ≡ true
      → eqb d e ≡ true
  single key k e d l r q t =
      let u : registered l key d ≡ true =
        subst (λ x. registered l x d ≡ true) (sym ((eq_iff key k).0 q)) t in
      ground (arith, r, u)

  last-Counts :
      (key : String) (e : ℕ) (l : Locks)
      → With l (releasing key e)
      → (eqb (l.refs e - 1) 0) ≡ true
      → With
          (record l { refs = update e (l.refs e - 1) l.refs; entries = remove key l.entries })
          idle
  unfolding uses holds
  last-Counts key e l c z = record {
    users = λ k d. (facts k d).0;
    holders = λ k d. (facts k d).1;
    below = λ k d t. ground (arith, registered-remove key k d l, c.below k d, t);
    apart = λ j k d s t.
        ground
          (arith, registered-remove key k d l, registered-remove key j d l, c.apart j k d, s, t);
    positive = λ k d t. elim (Bool-cases (eqb d e)) [
      | inr q ↦ ground (arith, q, registered-remove key k d l, c.positive k d, t)
      | inl q ↦
          let o =
            own_entry used held fewer key e l (releasing key e) (ground (arith, eq_iff key key)) c k
              d q in
          absurd (ground (arith, o.1, registered-remove key k d l, t))
    ];
  }
    where
      mine : registered l key e ≡ true
      mine =
          (own_entry used held fewer key e l (releasing key e) (ground (arith, eq_iff key key)) c
            key e (ground arith)).0

      facts :
          (k : String) (d : ℕ)
          → (used k d + 0 ≡ (
              if is_entry (lookup k (remove key l.entries)) d
              then update e (l.refs e - 1) l.refs d
              else 0))
            × (held k d + 0 ≡ one (is_entry (lookup k (remove key l.entries)) d && l.locked d))
      facts k d = elim (Bool-cases (eqb d e)) [
        | inr q ↦ (
          ground (arith, q, registered-remove key k d l, c.users k d, single key k e d l mine),
          ground (arith, q, registered-remove key k d l, c.holders k d, single key k e d l mine),
        )
        | inl q ↦
            let o =
              own_entry used held fewer key e l (releasing key e) (ground (arith, eq_iff key key)) c
                k d q in
            let g : l.refs d ≡ l.refs e = ap (l.refs) (ground (arith, q)) in
            let u : used k d ≡ 0 = ground (arith, q, z, g, o.0, o.1, c.users k d) in
            (
              ground (arith, u, o.1, registered-remove key k d l),
              ground (arith, u, fewer k d, o.1, registered-remove key k d l),
            )
      ]

  fewer-Counts :
      (key : String) (e : ℕ) (l : Locks)
      → With l (releasing key e)
      → (eqb (l.refs e - 1) 0) ≡ false
      → With (record l { refs = update e (l.refs e - 1) l.refs }) idle
  unfolding uses holds
  fewer-Counts key e l c z = record {
    users = λ k d. elim (Bool-cases (eqb d e)) [
      | inr q ↦ ground (arith, q, c.users k d)
      | inl q ↦
          let o =
            own_entry used held fewer key e l (releasing key e) (ground (arith, eq_iff key key)) c k
              d q in
          let g : l.refs d ≡ l.refs e = ap (l.refs) (ground (arith, q)) in
          ground (arith, q, z, g, o.1, c.users k d)
    ];
    holders = c.holders;
    below = c.below;
    apart = c.apart;
    positive = λ k d t. ground (arith, z, c.positive k d t);
  }

  releasing-Counts :
      (key : String) (e : ℕ) (l : Locks) → With l (releasing key e) → With (unregister key e l) idle
  unfolding unregister
  releasing-Counts key e l c = elim (Bool-cases (eqb (l.refs e - 1) 0)) [
    | inl z ↦ rw (z) (last-Counts key e l c z)
    | inr z ↦ rw (z) (fewer-Counts key e l c z)
  ]

  -- Whatever section a worker is at
  pub section-Counts :
      (key : String) (w : Worker) (l : Locks)
      → With l w
      → With (section key w l).0 (section key w l).1
  unfolding section
  section-Counts key idle l c = idle-Counts used held fewer key l (lookup key l.entries) refl c
  section-Counts key (waiting k e) l c = elim (Bool-cases (l.locked e)) [
    | inl t ↦ rw (t) c
    | inr f ↦ rw (f) (waiting-Counts used held fewer k e l c f)
  ]
  section-Counts key (holding k e) l c = holding-Counts used held fewer k e l c
  section-Counts key (releasing k e) l c = releasing-Counts k e l c
