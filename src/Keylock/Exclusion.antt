-- ===== src/Keylock/Exclusion.antt =====
-- What the locks promise to the workers, in every order of their steps.
use network_plugin_manager.Prelude.{
  ◌≡◌, refl, sym, subst, ◌∙◌, inl, inr, ◌↔◌, ℕ, String, Bool, true, false, ◌&&◌, Option, none, some,
  List, [], ◌∷◌, eqb, leb, ltb, arith, Bool-cases, Option-cases,
}
use network_plugin_manager.Go.Map.{lookup}
use network_plugin_manager.Keylock.{
  Locks, Worker, idle, waiting, holding, releasing, section, run, no_locks, all_idle, uses, holds,
  count, uses_key, holds_key, waits,
}
use network_plugin_manager.Keylock.Runs.{Total, nothing, reached}

slot : Worker → ℕ
slot idle = 0
slot (waiting k f) = f
slot (holding k f) = f
slot (releasing k f) = f

-- Where all those of a key are at one entry, they are counted there.
count-slot :
    (any : Worker → Bool) (at : ℕ → Worker → Bool)
    → ((e : ℕ) (w : Worker) → at e w ≡ (any w && eqb (slot w) e))
    → (f : ℕ) (ws : List Worker) → ((e : ℕ) → eqb f e ≡ false → count (at e) ws ≡ 0)
    → count any ws ≡ count (at f) ws
unfolding count
count-slot any at same f [] h = refl
count-slot any at same f (w ∷ ws) h =
    let rest : count any ws ≡ count (at f) ws =
      count-slot any at same f ws (λ e q. ground (arith, h e q)) in
    elim (Bool-cases (eqb f (slot w))) [
      | inl q ↦ ground (arith, rest, q, same f w)
      | inr q ↦ ground (arith, rest, q, same f w, same (slot w) w, h (slot w) q)
    ]

holds-slot :
    (key : String) (e : ℕ) (w : Worker) → holds key e w ≡ (holds_key key w && eqb (slot w) e)
unfolding holds holds_key slot
holds-slot key e idle = refl
holds-slot key e (waiting k f) = refl
holds-slot key e (holding k f) = refl
holds-slot key e (releasing k f) = refl

uses-slot : (key : String) (e : ℕ) (w : Worker) → uses key e w ≡ (uses_key key w && eqb (slot w) e)
unfolding uses uses_key slot
uses-slot key e idle = refl
uses-slot key e (waiting k f) = refl
uses-slot key e (holding k f) = refl
uses-slot key e (releasing k f) = refl

waits-uses :
    (key : String) (e : ℕ) (ws : List Worker)
    → leb (count (waits key e) ws) (count (uses key e) ws) ≡ true
unfolding count waits uses
waits-uses key e [] = ground arith
waits-uses key e (idle ∷ ws) = ground (arith, waits-uses key e ws)
waits-uses key e (waiting k f ∷ ws) = ground (arith, waits-uses key e ws)
waits-uses key e (holding k f ∷ ws) = ground (arith, waits-uses key e ws)
waits-uses key e (releasing k f ∷ ws) = ground (arith, waits-uses key e ws)

module _ (l : Locks) (ws : List Worker) (c : Total nothing nothing l ws) (key : String) where
  -- All users, and all holders, of a key are at the entry that the map has.
  at_entry :
      (o : Option ℕ)
      → lookup key l.entries ≡ o
      → (count (holds_key key) ws
          ≡ elim o as (λ x. ℕ) [ none ↦ 0 | some f ↦ count (holds key f) ws ])
        × (count (uses_key key) ws
            ≡ elim o as (λ x. ℕ) [ none ↦ 0 | some f ↦ count (uses key f) ws ])
  at_entry none h = (
    count-slot _ _ (holds-slot key) 0 ws (λ e q. ground (arith, c.holders key e, h))
        ∙ ground (arith, c.holders key 0, h),
    count-slot _ _ (uses-slot key) 0 ws (λ e q. ground (arith, c.users key e, h))
        ∙ ground (arith, c.users key 0, h),
  )
  at_entry (some f) h = (
    count-slot _ _ (holds-slot key) f ws (λ e q. ground (arith, c.holders key e, h, q)),
    count-slot _ _ (uses-slot key) f ws (λ e q. ground (arith, c.users key e, h, q)),
  )

  one_holder : leb (count (holds_key key) ws) 1 ≡ true
  one_holder = elim (Option-cases (lookup key l.entries)) [
    | inl h ↦ ground (arith, (at_entry none h).0)
    | inr (f, h) ↦ ground (arith, (at_entry (some f) h).0, c.holders key f)
  ]

  kept_while_used : (lookup key l.entries ≡ none) ↔ (count (uses_key key) ws ≡ 0)
  kept_while_used = (
    λ h. (at_entry none h).1,
    λ z. elim (Option-cases (lookup key l.entries)) [
      | inl h ↦ h
      | inr (f, h) ↦
          absurd (ground (arith, z, (at_entry (some f) h).1, c.users key f, c.positive key f, h))
    ],
  )

  unlocked :
      (e : ℕ)
      → ltb 0 (count (waits key e) ws) ≡ true
      → count (holds_key key) ws ≡ 0
      → l.locked e ≡ false
  unlocked e w z = elim (Option-cases (lookup key l.entries)) [
    | inl h ↦ absurd (ground (arith, w, waits-uses key e ws, c.users key e, h))
    | inr (f, h) ↦
        let r : eqb f e ≡ true = ground (arith, w, waits-uses key e ws, c.users key e, h) in
        let g : count (holds key f) ws ≡ 0 = sym ((at_entry (some f) h).0) ∙ z in
        let u : l.locked f ≡ false = ground (arith, g, c.holders key f, h) in
        subst (λ x. l.locked x ≡ false) (ground (arith, r)) u
  ]

-- In every order of steps of any number of workers, at most one of them holds a key.
pub one_holder_of_key :
    (schedule : List (ℕ × String)) (n : ℕ) (key : String)
    → leb (count (holds_key key) (run schedule no_locks (all_idle n)).1) 1 ≡ true
one_holder_of_key schedule n key =
    one_holder (run schedule no_locks (all_idle n)).0 (run schedule no_locks (all_idle n)).1
      (reached schedule n) key

-- In every order of steps of any number of workers, the map has no entry for a key exactly when no worker holds it,
-- waits for it or is releasing it.
pub entry-none_iff :
    (schedule : List (ℕ × String)) (n : ℕ) (key : String)
    → (lookup key (run schedule no_locks (all_idle n)).0.entries ≡ none)
      ↔ (count (uses_key key) (run schedule no_locks (all_idle n)).1 ≡ 0)
entry-none_iff schedule n key =
    kept_while_used (run schedule no_locks (all_idle n)).0 (run schedule no_locks (all_idle n)).1
      (reached schedule n) key

-- In every order of steps of any number of workers: where a worker waits for a key at an entry and no worker holds the
-- key, the next step of the waiting worker takes it.
pub waiting-takes :
    (schedule : List (ℕ × String)) (n : ℕ) (key : String) (e : ℕ) (other : String)
    → ltb 0 (count (waits key e) (run schedule no_locks (all_idle n)).1) ≡ true
    → count (holds_key key) (run schedule no_locks (all_idle n)).1 ≡ 0
    → (section other (waiting key e) (run schedule no_locks (all_idle n)).0).1 ≡ holding key e
unfolding section
waiting-takes schedule n key e other w z =
    let f =
      unlocked (run schedule no_locks (all_idle n)).0 (run schedule no_locks (all_idle n)).1
        (reached schedule n) key e w z in
    ground (arith, f)
