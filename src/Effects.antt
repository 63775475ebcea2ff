-- ===== src/Effects.antt =====
-- Operations that run commands on the host: a state, and the record of what was run, the newest first.
-- Whether a command succeeds is said by an oracle, which sees all that was run before.
pub mod Guard
pub mod Quiet
pub mod Triple
use network_plugin_manager.Prelude.{
  String, Bool, true, false, List, ◌∷◌, Result, ok, err, if◌then◌else◌,
}

-- Handing a script to a firewall program, to check it or to load it, running a command, an operation on
-- a file, and a report that says whether all is well.
pub data Action : Type 0 where
  test_script : String → String → Action
  load_script : String → String → Action
  run : List String → Action
  file : String → String → Action
  report : Bool → Action

-- What was done, and whether it succeeded
abbrev pub Trace : Type 0
Trace = List (Action × Bool)

abbrev pub Oracle : Type 0
Oracle = Trace → Action → Bool

pub record World (S : Type 0) : Type 0 where
  pub state : S
  pub trace : Trace

abbrev pub Io : Type 0 → Type 0 → Type 0 → Type 0
Io S E A = World S → World S × Result E A

abbrev pub resume :
    {S E A B : Type 0} → (A → Io S E B) → World S → Result E A → World S × Result E B
resume next w (ok value) = next value w
resume next w (err e) = (w, err e)

infixl 5 ◌>>=◌ ◌>>◌
abbrev pub ◌>>=◌ : {S E A B : Type 0} → Io S E A → (A → Io S E B) → Io S E B
◌>>=◌ first next w = let done = first w in resume next done.0 done.1

abbrev pub ◌>>◌ : {S E B : Type 0} → Io S E (Unit {0}) → Io S E B → Io S E B
check >> rest = check >>= λ done. rest

abbrev pub pure : {S E A : Type 0} → A → Io S E A
pure value w = (w, ok value)

abbrev pub fail : {S E A : Type 0} → E → Io S E A
fail e w = (w, err e)

-- A computation without effects
abbrev pub lift : {S E A : Type 0} → Result E A → Io S E A
lift r w = (w, r)

abbrev pub get : {S E : Type 0} → Io S E S
get w = (w, ok w.state)

abbrev pub modify : {S E : Type 0} → (S → S) → Io S E (Unit {0})
modify change w = (record w { state = change w.state }, ok tt)

abbrev pub perform : {S E : Type 0} → Oracle → E → Action → Io S E (Unit {0})
perform oracle e a w = (
  record w { trace = (a, oracle w.trace a) ∷ w.trace },
  if oracle w.trace a then ok tt else err e,
)

-- An operation whose error is only looked at: did it succeed?
abbrev pub attempt : {S E : Type 0} → Io S E (Unit {0}) → Io S E Bool
attempt step w =
    let done = step w in (done.0, ok (elim (done.1) [ ok value ↦ true | err e ↦ false ]))

-- The same, where the error is logged and forgotten
abbrev pub ignore : {S E : Type 0} → Io S E (Unit {0}) → Io S E (Unit {0})
ignore step w = let done = step w in (done.0, ok tt)

-- An operation with one that is deferred behind it, whose error is forgotten
abbrev pub deferred : {S E : Type 0} → Io S E (Unit {0}) → Io S E (Unit {0}) → Io S E (Unit {0})
deferred step cleanup w = let done = step w in let after = cleanup done.0 in (after.0, done.1)

-- An operation together with its outcome
abbrev pub outcome : {S E A : Type 0} → Io S E A → Io S E (Result E A)
outcome step w = let done = step w in (done.0, ok done.1)
