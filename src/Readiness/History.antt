-- ===== src/Readiness/History.antt =====
-- Sequences of calls of `Report`, and what they say about the watchers.
use network_plugin_manager.Prelude.{
  ◌≡◌, refl, Bool, true, false, ◌&&◌, List, [], ◌∷◌, ◌==◌, Result, ok, err, if◌then◌else◌, arith,
  eq_iff,
}
use network_plugin_manager.Readiness.{
  Component, Error, host_nat, host_ports, State, Answers, note, report,
}

pub record Call : Type 0 where
  pub component : Component
  pub well : Bool
  pub answers : Answers

abbrev pub after : Call → State → State
after c s = (report c.answers c.component c.well s).0

-- The state behind a sequence of calls, whatever they return.
unfoldable pub run : List Call → State → State
run [] s = s
run (c ∷ cs) s = run cs (after c s)

abbrev is_ok : Result Error (Unit {0}) → Bool
is_ok (ok done) = true
is_ok (err e) = false

abbrev pub succeeds : Call → State → Bool
succeeds c s = is_ok (report c.answers c.component c.well s).1

unfoldable pub all_succeed : List Call → State → Bool
all_succeed [] s = true
all_succeed (c ∷ cs) s = succeeds c s && all_succeed cs (after c s)

-- What the latest call of a component said, from what held before all of them.
abbrev pub latest : Component → Bool → List Call → Bool
latest component before [] = before
latest component before (c ∷ cs) =
    latest component (if c.component == component then c.well else before) cs

after-nat :
    (c : Call) (s : State)
    → (after c s).tracker.nat ≡ (if c.component == host_nat then c.well else s.tracker.nat)
unfolding report note
after-nat c s = ground (arith, eq_iff c.component host_nat, eq_iff c.component host_ports)

after-ports :
    (c : Call) (s : State)
    → (after c s).tracker.ports ≡ (if c.component == host_ports then c.well else s.tracker.ports)
unfolding report note
after-ports c s =
    ground (
      arith,
      eq_iff c.component host_nat,
      eq_iff c.component host_ports,
      eq_iff host_nat host_ports,
    )

pub run-nat :
    (cs : List Call) (s : State) → (run cs s).tracker.nat ≡ latest host_nat s.tracker.nat cs
unfolding run
run-nat [] s = refl
run-nat (c ∷ cs) s = rw (run-nat cs (after c s), after-nat c s)

pub run-ports :
    (cs : List Call) (s : State) → (run cs s).tracker.ports ≡ latest host_ports s.tracker.ports cs
unfolding run
run-ports [] s = refl
run-ports (c ∷ cs) s = rw (run-ports cs (after c s), after-ports c s)
