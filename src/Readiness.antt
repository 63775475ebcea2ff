-- ===== src/Readiness.antt =====
-- internal/readiness/readiness.go: the marker file that says whether both firewall watchers are well.
-- A mutex covers each report, so reports come one behind the other. What the calls of the file system
-- answer is an argument: a call that fails changes nothing.
pub mod History
pub mod Marker
use network_plugin_manager.Prelude.{
  String, Bool, true, false, not, ◌&&◌, ◌||◌, Option, none, some, List, [], ◌∷◌, ◌==◌, Result, ok,
  err, if◌then◌else◌,
}

abbrev pub Component : Type 0
Component = String

abbrev pub host_nat : Component
host_nat = "hostnat"

abbrev pub host_ports : Component
host_ports = "hostports"

pub record Tracker : Type 0 where
  pub nat : Bool
  pub ports : Bool

-- The contents of the marker and of the temporary file beside it.
pub record Disk : Type 0 where
  pub marker : Option String
  pub temporary : Option String

pub record State : Type 0 where
  pub tracker : Tracker
  pub disk : Disk

-- Which calls fail. `written` is what a failing write or a failing
-- close leaves in the temporary file.
pub record Answers : Type 0 where
  pub remove_fails : Bool
  pub stat_fails : Bool
  pub create_fails : Bool
  pub write_fails : Bool
  pub written : String
  pub close_fails : Bool
  pub rename_fails : Bool
  pub cleanup_fails : Bool

pub data Error : Type 0 where
  empty_path stale_not_cleared unknown_component unhealthy_not_cleared : Error
  not_inspected not_created not_written not_closed not_published : Error

abbrev pub is_present : Option String → Bool
is_present none = false
is_present (some text) = true

-- `New`, on the disk as an earlier process left it
unfoldable pub new : Answers → String → Disk → Result Error State
new a path disk =
    if path == ""
    then err empty_path
    else if a.remove_fails
    then err stale_not_cleared
    else ok (record {
      tracker = record { nat = false; ports = false };
      disk = record disk { marker = none };
    })

-- The switch of `Report`; `well` says that the reconcile error is nil.
unfoldable pub note : Component → Bool → Tracker → Option Tracker
note component well t =
    if component == host_nat
    then some (record t { nat = well })
    else if component == host_ports
    then some (record t { ports = well })
    else none

unfoldable pub clear : Answers → Disk → Disk × Result Error (Unit {0})
clear a disk =
    if a.remove_fails
    then (disk, err unhealthy_not_cleared)
    else (record disk { marker = none }, ok tt)

abbrev pub ready_text : String
ready_text = "ready\n"

-- The deferred removal of the temporary file, after a step that left `temporary` there
unfoldable pub cleanup : Answers → Disk → Disk
cleanup a disk = if a.cleanup_fails then disk else record disk { temporary = none }

-- The temporary file behind the write and behind its closing, which may both lose a part of the text
abbrev pub wrote : Answers → Disk → Disk
wrote a disk = record disk { temporary = some (if a.write_fails then a.written else ready_text) }

abbrev pub closed : Answers → Disk → Disk
closed a disk = if a.close_fails then record disk { temporary = some a.written } else disk

-- The temporary file takes the marker's name, with what it holds.
abbrev pub renamed : Disk → Disk
renamed disk = record { marker = disk.temporary; temporary = none }

unfoldable pub publish : Answers → Disk → Disk × Result Error (Unit {0})
unfolding cleanup
publish a disk =
    if a.stat_fails
    then (disk, err not_inspected)
    else if is_present disk.marker
    then (disk, ok tt)
    else if a.create_fails
    then (disk, err not_created)
    else if a.write_fails
    then (cleanup a (wrote a disk), err not_written)
    else if a.close_fails
    then (cleanup a (closed a (wrote a disk)), err not_closed)
    else if a.rename_fails
    then (cleanup a (closed a (wrote a disk)), err not_published)
    else (cleanup a (renamed (closed a (wrote a disk))), ok tt)

unfoldable pub settle : Answers → Tracker → Disk → Disk × Result Error (Unit {0})
settle a t disk = if not t.nat || not t.ports then clear a disk else publish a disk

unfoldable pub report : Answers → Component → Bool → State → State × Result Error (Unit {0})
report a component well s = elim (note component well s.tracker) [
  | none ↦ (s, err unknown_component)
  | some t ↦
      let (disk, outcome) = settle a t s.disk in (record { tracker = t; disk = disk }, outcome)
]
