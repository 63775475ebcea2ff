-- ===== src/Keylock/Counts.antt =====
-- The counts of an entry say how many workers use it and how many hold it, in every order of steps.
use network_plugin_manager.Prelude.{
  ◌≡◌, sym, subst, ap, inl, inr, ℕ, ◌+◌, String, Bool, true, false, ◌&&◌, Option, none, some, ◌==◌,
  eqb, leb, ltb, arith, eq_iff, Bool-cases, if◌then◌else◌,
}
use network_plugin_manager.Go.Map.{lookup, put}
use network_plugin_manager.Go.Map.Values.{lookup-put}
use network_plugin_manager.Keylock.{
  Locks, update, Worker, idle, waiting, holding, releasing, entry_of, register, uses, holds, one,
}

abbrev pub is_entry : Option ℕ → ℕ → Bool
is_entry none e = false
is_entry (some f) e = eqb f e

abbrev pub registered : Locks → String → ℕ → Bool
registered l key e = is_entry (lookup key l.entries) e

-- How many use and hold each entry, with what the map says of it
pub record Counts (l : Locks) (used held : String → ℕ → ℕ) : Type 0 where
  pub users : (key : String) (e : ℕ) → used key e ≡ (if registered l key e then l.refs e else 0)
  pub holders : (key : String) (e : ℕ) → held key e ≡ one (registered l key e && l.locked e)
  pub below : (key : String) (e : ℕ) → registered l key e ≡ true → ltb e l.next ≡ true
  pub apart : (j k : String) (e : ℕ) → registered l j e ≡ true → registered l k e ≡ true → j ≡ k
  pub positive : (key : String) (e : ℕ) → registered l key e ≡ true → ltb 0 (l.refs e) ≡ true

module _ (used held : String → ℕ → ℕ)
    (fewer : (key : String) (e : ℕ) → leb (held key e) (used key e) ≡ true) where
  abbrev With : Locks → Worker → Type 0
  With l w =
      Counts l (λ key e. used key e + one (uses key e w))
        (λ key e. held key e + one (holds key e w))

  -- A worker's entry is the one that the map has for its key, and for no other key.
  pub own_entry :
      (key : String) (e : ℕ) (l : Locks) (w : Worker)
      → uses key e w ≡ true
      → With l w
      → (k : String) (d : ℕ) → eqb d e ≡ true
      → (registered l key d ≡ true) × (registered l k d ≡ (key == k))
  own_entry key e l w u c k d q =
      let p : d ≡ e = ground (arith, q) in
      let r : registered l key d ≡ true =
        subst (λ x. registered l key x ≡ true) (sym p) (ground (arith, c.users key e, u)) in
      (r, ground (arith, r, c.apart key k d, eq_iff key k))

  pub waiting-Counts :
      (key : String) (e : ℕ) (l : Locks)
      → With l (waiting key e)
      → l.locked e ≡ false
      → With (record l { locked = update e true l.locked }) (holding key e)
  unfolding uses holds
  waiting-Counts key e l c f = record {
    users = c.users;
    holders = λ k d. elim (Bool-cases (eqb d e)) [
      | inr q ↦ ground (arith, q, c.holders k d)
      | inl q ↦
          let o = own_entry key e l (waiting key e) (ground (arith, eq_iff key key)) c k d q in
          let g : l.locked d ≡ false = subst (λ x. l.locked x ≡ false) (ground (arith, q)) f in
          ground (arith, q, g, o.0, o.1, c.holders k d)
    ];
    below = c.below;
    apart = c.apart;
    positive = c.positive;
  }

  pub holding-Counts :
      (key : String) (e : ℕ) (l : Locks)
      → With l (holding key e)
      → With (record l { locked = update e false l.locked }) (releasing key e)
  unfolding uses holds
  holding-Counts key e l c = record {
    users = c.users;
    holders = λ k d. elim (Bool-cases (eqb d e)) [
      | inr q ↦ ground (arith, q, c.holders k d)
      | inl q ↦
          let o = own_entry key e l (holding key e) (ground (arith, eq_iff key key)) c k d q in
          ground (arith, q, o.0, o.1, c.holders k d)
    ];
    below = c.below;
    apart = c.apart;
    positive = c.positive;
  }

  registered-put :
      (key k : String) (e d : ℕ) (l : Locks)
      → is_entry (lookup k (put key e l.entries)) d
        ≡ (if key == k then eqb e d else registered l k d)
  registered-put key k e d l = ground (arith, lookup-put key k e l.entries)

  pub idle-Counts :
      (key : String) (l : Locks) (o : Option ℕ)
      → lookup key l.entries ≡ o
      → With l idle
      → With (register key o l) (waiting key (entry_of o l))
  unfolding uses holds register
  idle-Counts key l (some e) h c =
      let r : registered l key e ≡ true = ground (arith, h) in
      record {
        users = λ k d. elim (Bool-cases (eqb d e)) [
          | inr q ↦ ground (arith, q, c.users k d)
          | inl q ↦
              let p : d ≡ e = ground (arith, q) in
              let t : registered l key d ≡ true =
                subst (λ x. registered l key x ≡ true) (sym p) r in
              let g : l.refs d ≡ l.refs e = ap (l.refs) p in
              ground (arith, q, t, g, c.users k d, c.apart key k d, eq_iff key k)
        ];
        holders = c.holders;
        below = c.below;
        apart = c.apart;
        positive = λ k d t. ground (arith, c.positive k d t);
      }
  idle-Counts key l none h c = record {
    users =
        λ k d. ground (arith, registered-put key k l.next d l, c.users k d, c.below k d, free k d);
    holders = λ k d. ground (
      arith,
      registered-put key k l.next d l,
      c.holders k d,
      c.users k d,
      fewer k d,
      c.below k d,
      free k d,
    );
    below = λ k d t. ground (arith, registered-put key k l.next d l, c.below k d, t);
    apart = λ j k d s t. ground (
      arith,
      registered-put key k l.next d l,
      registered-put key j l.next d l,
      c.below k d,
      c.below j d,
      c.apart j k d,
      s,
      t,
      eq_iff key j,
      eq_iff key k,
    );
    positive = λ k d t. ground (arith, registered-put key k l.next d l, c.positive k d, t);
  }
    where
      free : (k : String) (d : ℕ) → (key == k) ≡ true → registered l k d ≡ false
      free k d e =
          subst (λ x. registered l x d ≡ false) ((eq_iff key k).0 e) (ap (λ o. is_entry o d) h)
