-- ===== src/Keylock/Runs.antt =====
-- The counts after any sequence of steps of any number of workers.
use network_plugin_manager.Prelude.{
  ◌≡◌, refl, sym, ◌∙◌, ℕ, suc, zero, ◌+◌, String, true, List, [], ◌∷◌, leb, arith,
}
use network_plugin_manager.Go.Map.{lookup}
use network_plugin_manager.Keylock.{
  Locks, Worker, idle, waiting, holding, releasing, section, step_at, run, no_locks, all_idle, uses,
  holds, one, count,
}
use network_plugin_manager.Keylock.Counts.{Counts}
use network_plugin_manager.Keylock.Sections.{section-Counts}

abbrev pub Total : (String → ℕ → ℕ) → (String → ℕ → ℕ) → Locks → List Worker → Type 0
Total used held l ws =
    Counts l (λ key e. used key e + count (uses key e) ws)
      (λ key e. held key e + count (holds key e) ws)

same-Counts :
    (l : Locks) (used used' held held' : String → ℕ → ℕ)
    → ((key : String) (e : ℕ) → used key e ≡ used' key e)
    → ((key : String) (e : ℕ) → held key e ≡ held' key e)
    → Counts l used held
    → Counts l used' held'
same-Counts l used used' held held' u h c = record {
  users = λ k e. sym (u k e) ∙ c.users k e;
  holders = λ k e. sym (h k e) ∙ c.holders k e;
  below = c.below;
  apart = c.apart;
  positive = c.positive;
}

-- Who holds an entry uses it.
holds-uses :
    (key : String) (e : ℕ) (w : Worker) → leb (one (holds key e w)) (one (uses key e w)) ≡ true
unfolding holds uses
holds-uses key e idle = ground arith
holds-uses key e (waiting k f) = ground arith
holds-uses key e (holding k f) = ground arith
holds-uses key e (releasing k f) = ground arith

count-holds :
    (key : String) (e : ℕ) (ws : List Worker)
    → leb (count (holds key e) ws) (count (uses key e) ws) ≡ true
unfolding count
count-holds key e [] = ground arith
count-holds key e (w ∷ ws) = ground (arith, holds-uses key e w, count-holds key e ws)

step_at-Counts :
    (i : ℕ) (key : String) (l : Locks) (ws : List Worker) (used held : String → ℕ → ℕ)
    → ((k : String) (e : ℕ) → leb (held k e) (used k e) ≡ true)
    → Total used held l ws
    → Total used held (step_at i key l ws).0 (step_at i key l ws).1
unfolding step_at count
step_at-Counts i key l [] used held fewer c = c
step_at-Counts zero key l (w ∷ ws) used held fewer c =
    let used' : String → ℕ → ℕ = λ k e. used k e + count (uses k e) ws in
    let held' : String → ℕ → ℕ = λ k e. held k e + count (holds k e) ws in
    same-Counts (section key w l).0 _ _ _ _ (λ k e. ground arith) (λ k e. ground arith)
      (section-Counts used' held' (λ k e. ground (arith, fewer k e, count-holds k e ws)) key w l
        (same-Counts l _ _ _ _ (λ k e. ground arith) (λ k e. ground arith) c))
step_at-Counts (suc i) key l (w ∷ ws) used held fewer c =
    let used' : String → ℕ → ℕ = λ k e. used k e + one (uses k e w) in
    let held' : String → ℕ → ℕ = λ k e. held k e + one (holds k e w) in
    same-Counts (step_at i key l ws).0 _ _ _ _ (λ k e. ground arith) (λ k e. ground arith)
      (step_at-Counts i key l ws used' held' (λ k e. ground (arith, fewer k e, holds-uses k e w))
        (same-Counts l _ _ _ _ (λ k e. ground arith) (λ k e. ground arith) c))

abbrev pub nothing : String → ℕ → ℕ
nothing key e = 0

run-Counts :
    (schedule : List (ℕ × String)) (l : Locks) (ws : List Worker)
    → Total nothing nothing l ws
    → Total nothing nothing (run schedule l ws).0 (run schedule l ws).1
unfolding run
run-Counts [] l ws c = c
run-Counts ((i, key) ∷ schedule) l ws c =
    run-Counts schedule (step_at i key l ws).0 (step_at i key l ws).1
      (step_at-Counts i key l ws nothing nothing (λ k e. ground arith) c)

idle-count :
    (key : String) (e n : ℕ)
    → (count (uses key e) (all_idle n) ≡ 0) × (count (holds key e) (all_idle n) ≡ 0)
unfolding count uses holds all_idle
idle-count key e zero = (refl, refl)
idle-count key e (suc n) = let h = idle-count key e n in (ground (arith, h.0), ground (arith, h.1))

pub reached :
    (schedule : List (ℕ × String)) (n : ℕ)
    → Total nothing nothing
        (run schedule no_locks (all_idle n)).0
        (run schedule no_locks (all_idle n)).1
unfolding lookup
reached schedule n = run-Counts schedule no_locks (all_idle n) (record {
  users = λ k e. ground (arith, (idle-count k e n).0);
  holders = λ k e. ground (arith, (idle-count k e n).1);
  below = λ k e h. ground (arith, h);
  apart = λ j k e h. ground (arith, h);
  positive = λ k e h. ground (arith, h);
})
