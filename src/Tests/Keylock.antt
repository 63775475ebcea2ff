-- ===== src/Tests/Keylock.antt =====
-- internal/keylock/keylock.go with two workers that ask for one key.
use network_plugin_manager.Prelude.{◌≡◌, ◌↔◌, refl, ℕ, String, true, none, List, [], ◌∷◌, leb}
use network_plugin_manager.Go.Map.{lookup}
use network_plugin_manager.Keylock.{
  Locks, Worker, waiting, holding, section, run, no_locks, all_idle, count, uses_key, holds_key,
  waits,
}
use network_plugin_manager.Keylock.Exclusion.{one_holder_of_key, entry-none_iff, waiting-takes}

-- Both ask; the first takes the key and gives it back.
abbrev schedule : List (ℕ × String)
schedule = (0, "c") ∷ (1, "c") ∷ (0, "c") ∷ (0, "c") ∷ []

run_two : List (ℕ × String) → Locks × List Worker
unfolding run section lookup all_idle count holds_key waits
run_two s = run s no_locks (all_idle 2)

one_holder_of_key_example :
    leb (count (holds_key "c") (run schedule no_locks (all_idle 2)).1) 1 ≡ true
one_holder_of_key_example = one_holder_of_key schedule 2 "c"

entry-none_iff_example :
    (lookup "c" (run schedule no_locks (all_idle 2)).0.entries ≡ none)
    ↔ (count (uses_key "c") (run schedule no_locks (all_idle 2)).1 ≡ 0)
entry-none_iff_example = entry-none_iff schedule 2 "c"

-- The second is left waiting, and takes the key.
waiting-takes_example :
    (section "d" (waiting "c" 0) (run schedule no_locks (all_idle 2)).0).1 ≡ holding "c" 0
unfolding run_two
waiting-takes_example = waiting-takes schedule 2 "c" 0 "d" refl refl
