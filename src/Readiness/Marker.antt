-- ===== src/Readiness/Marker.antt =====
-- What the marker tells: it follows the latest reports of both watchers.
use network_plugin_manager.Prelude.{
  ◌≡◌, ◌⊎◌, inl, inr, String, Bool, true, false, ◌&&◌, none, some, List, [], ◌∷◌, ok, arith,
  Option-cases, All,
}
use network_plugin_manager.Readiness.{
  host_nat, host_ports, Tracker, Disk, State, Answers, new, note, clear, publish, settle, report,
  is_present, cleanup, ready_text,
}
use network_plugin_manager.Readiness.History.{
  Call, after, run, succeeds, all_succeed, latest, run-nat, run-ports,
}

abbrev pub is_ready : State → Bool
is_ready s = is_present s.disk.marker

-- The marker is there exactly when both watchers were well when they last reported.
abbrev pub Agrees : State → Type 0
Agrees s = is_ready s ≡ (s.tracker.nat && s.tracker.ports)

-- Only where both were well is the marker there.
abbrev pub IsSafe : State → Type 0
IsSafe s = is_ready s ≡ true → (s.tracker.nat && s.tracker.ports) ≡ true

settle-agrees :
    (a : Answers) (t : Tracker) (d : Disk)
    → (settle a t d).1 ≡ ok tt
    → is_present (settle a t d).0.marker ≡ (t.nat && t.ports)
unfolding settle clear publish cleanup
settle-agrees a t d h = ground arith

settle-safe :
    (a : Answers) (t : Tracker) (d : Disk)
    → a.remove_fails ≡ false
    → is_present (settle a t d).0.marker ≡ true
    → (t.nat && t.ports) ≡ true
unfolding settle clear publish cleanup
settle-safe a t d h = ground arith

after-Agrees : (c : Call) (s : State) → succeeds c s ≡ true → Agrees (after c s)
unfolding report
after-Agrees c s h = elim (Option-cases (note c.component c.well s.tracker)) [
  | inl e ↦ absurd (ground (arith, e))
  | inr (t, e) ↦ rw (after, report, e) (settle-agrees c.answers t s.disk (ground (arith, e)))
]

after-IsSafe :
    (c : Call) (s : State) → c.answers.remove_fails ≡ false → IsSafe s → IsSafe (after c s)
unfolding report
after-IsSafe c s r safe = elim (Option-cases (note c.component c.well s.tracker)) [
  | inl e ↦ rw (after, report, e) safe
  | inr (t, e) ↦ rw (after, report, e) (settle-safe c.answers t s.disk r)
]

run-Agrees : (cs : List Call) (s : State) → all_succeed cs s ≡ true → Agrees s → Agrees (run cs s)
unfolding run all_succeed
run-Agrees [] s h a = a
run-Agrees (c ∷ cs) s h a =
    run-Agrees cs (after c s) (ground arith) (after-Agrees c s (ground arith))

run-IsSafe :
    (cs : List Call) (s : State)
    → All (λ c. c.answers.remove_fails ≡ false) cs
    → IsSafe s
    → IsSafe (run cs s)
unfolding run
run-IsSafe [] s h safe = safe
run-IsSafe (c ∷ cs) s h safe = run-IsSafe cs (after c s) h.1 (after-IsSafe c s h.0 safe)

-- What a process starts from: no marker, and no report of either watcher.
pub record IsFresh (s : State) : Type 0 where
  pub absent : s.disk.marker ≡ none
  pub nat : s.tracker.nat ≡ false
  pub ports : s.tracker.ports ≡ false

new-IsFresh : (a : Answers) (path : String) (d : Disk) {s : State} → new a path d ≡ ok s → IsFresh s
unfolding new
new-IsFresh a path d h = record { absent = ground arith; nat = ground arith; ports = ground arith }

-- As long as every call succeeds, the marker is there exactly when the latest report of each of both
-- watchers said that it is well, whatever marker an earlier process left behind.
pub readiness_iff :
    (a : Answers) (path : String) (d : Disk) (s : State) (cs : List Call)
    → new a path d ≡ ok s
    → all_succeed cs s ≡ true
    → is_ready (run cs s) ≡ (latest host_nat false cs && latest host_ports false cs)
readiness_iff a path d s cs n h =
    let f = new-IsFresh a path d n in
    let agrees = run-Agrees cs s h (ground (arith, f.absent, f.nat, f.ports)) in
    ground (arith, agrees, run-nat cs s, run-ports cs s, f.nat, f.ports)

-- Also where reports fail, as long as a marker that is there can be removed: the marker is there only
-- when the latest report of each of both watchers said that it is well.
pub readiness_safe :
    (a : Answers) (path : String) (d : Disk) (s : State) (cs : List Call)
    → new a path d ≡ ok s
    → All (λ c. c.answers.remove_fails ≡ false) cs
    → is_ready (run cs s) ≡ true
    → (latest host_nat false cs && latest host_ports false cs) ≡ true
readiness_safe a path d s cs n h r =
    let f = new-IsFresh a path d n in
    let safe = run-IsSafe cs s h (λ p. ground (arith, f.absent)) r in
    ground (arith, safe, run-nat cs s, run-ports cs s, f.nat, f.ports)

-- A marker that is there is whole.
abbrev pub IsWhole : Disk → Type 0
IsWhole d = (d.marker ≡ none) ⊎ (d.marker ≡ some ready_text)

settle-IsWhole : (a : Answers) (t : Tracker) (d : Disk) → IsWhole d → IsWhole (settle a t d).0
unfolding settle clear publish cleanup
settle-IsWhole a t d w = ground (arith, w)

after-IsWhole : (c : Call) (s : State) → IsWhole s.disk → IsWhole (after c s).disk
unfolding report
after-IsWhole c s w = elim (Option-cases (note c.component c.well s.tracker)) [
  | inl e ↦ rw (after, report, e) w
  | inr (t, e) ↦ rw (after, report, e) (settle-IsWhole c.answers t s.disk w)
]

-- Whichever calls of the file system fail in between, nobody ever sees a marker that is half written:
-- it is absent or has its full text.
pub readiness-IsWhole : (cs : List Call) (s : State) → IsWhole s.disk → IsWhole (run cs s).disk
unfolding run
readiness-IsWhole [] s w = w
readiness-IsWhole (c ∷ cs) s w = readiness-IsWhole cs (after c s) (after-IsWhole c s w)
