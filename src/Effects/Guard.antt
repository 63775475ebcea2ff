-- ===== src/Effects/Guard.antt =====
-- Firewall scripts are checked before they are loaded: a property of the record of a run.
use network_plugin_manager.Prelude.{String, Bool, true, List, [], ◌∷◌}
use network_plugin_manager.Effects.{Action, Trace, test_script, load_script, run, file, report}

-- Commands and reports may be added; scripts may not.
pub data OnlyRuns (before : Trace) : Trace → Type 0 where
  nothing : OnlyRuns before before
  ran :
      {tr : Trace} (args : List String) (well : Bool)
      → OnlyRuns before tr
      → OnlyRuns before ((run args, well) ∷ tr)
  reported :
      {tr : Trace} (fine well : Bool)
      → OnlyRuns before tr
      → OnlyRuns before ((report fine, well) ∷ tr)

pub OnlyRuns-trans : {a b c : Trace} → OnlyRuns a b → OnlyRuns b c → OnlyRuns a c
OnlyRuns-trans p nothing = p
OnlyRuns-trans p (ran args well q) = ran args well (OnlyRuns-trans p q)
OnlyRuns-trans p (reported fine well q) = reported fine well (OnlyRuns-trans p q)

-- The latest script that was handed to a program is this one: this program was to check it, and passed it.
-- Only commands and reports come behind that.
pub data Passed (name script : String) : Trace → Type 0 where
  checked : {before : Trace} → Passed name script ((test_script name script, true) ∷ before)
  behind_run :
      {before : Trace} (args : List String) (well : Bool)
      → Passed name script before
      → Passed name script ((run args, well) ∷ before)
  behind_report :
      {before : Trace} (fine well : Bool)
      → Passed name script before
      → Passed name script ((report fine, well) ∷ before)

pub OnlyRuns-Passed :
    {before tr : Trace} (name script : String)
    → OnlyRuns before tr
    → Passed name script before
    → Passed name script tr
OnlyRuns-Passed name script nothing t = t
OnlyRuns-Passed name script (ran args well p) t =
    behind_run args well (OnlyRuns-Passed name script p t)
OnlyRuns-Passed name script (reported fine well p) t =
    behind_report fine well (OnlyRuns-Passed name script p t)

-- What is asked of an action by those before it: a script that is loaded is a proper one, and the same program
-- has just passed it.
module _ (IsScript : String → Type 0) where
  abbrev pub Allowed : Action → Trace → Type 0
  Allowed (load_script name script) before = IsScript script × Passed name script before
  Allowed (test_script name script) before = Unit
  Allowed (run args) before = Unit
  Allowed (file operation path) before = Unit
  Allowed (report well) before = Unit

  abbrev pub Guarded : Trace → Type 0
  Guarded [] = Unit
  Guarded (a ∷ before) = Allowed a.0 before × Guarded before

  pub OnlyRuns-Guarded : {before tr : Trace} → OnlyRuns before tr → Guarded before → Guarded tr
  OnlyRuns-Guarded nothing g = g
  OnlyRuns-Guarded (ran args well p) g = (tt, OnlyRuns-Guarded p g)
  OnlyRuns-Guarded (reported fine well p) g = (tt, OnlyRuns-Guarded p g)
