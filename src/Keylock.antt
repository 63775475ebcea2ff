-- ===== src/Keylock.antt =====
-- internal/keylock/keylock.go, and the workers that take locks of its map. A step is one critical section of
-- `Lock` or of the function that it returns; the workers' steps come in any order. An entry is a number,
-- which stands for the pointer.
pub mod Counts
pub mod Sections
pub mod Runs
pub mod Exclusion
use network_plugin_manager.Prelude.{
  ℕ, suc, zero, ◌+◌, ◌-◌, String, Bool, true, false, ◌&&◌, Option, none, some, List, [], ◌∷◌, ◌==◌,
  eqb, if◌then◌else◌,
}
use network_plugin_manager.Go.Map.{Map, lookup, remove, put}

-- The map, and of each entry how many hold or wait for it, and whether its mutex is locked
pub record Locks : Type 0 where
  pub entries : Map ℕ
  pub refs : ℕ → ℕ
  pub locked : ℕ → Bool
  pub next : ℕ

abbrev pub update : {A : Type 0} → ℕ → A → (ℕ → A) → ℕ → A
update i value f j = if eqb j i then value else f j

-- A worker that waits is behind the first section of `Lock`; one that is releasing has unlocked the
-- entry's mutex. The function returned works once, so it is called by a holder only.
pub data Worker : Type 0 where
  idle : Worker
  waiting holding releasing : String → ℕ → Worker

abbrev pub entry_of : Option ℕ → Locks → ℕ
entry_of none l = l.next
entry_of (some e) l = e

unfoldable pub register : String → Option ℕ → Locks → Locks
unfolding put
register key none l = record {
  entries = put key l.next l.entries;
  refs = update l.next 1 l.refs;
  locked = update l.next false l.locked;
  next = l.next + 1;
}
register key (some e) l = record l { refs = update e (l.refs e + 1) l.refs }

-- The count is at least one here.
unfoldable pub unregister : String → ℕ → Locks → Locks
unfolding remove
unregister key e l = record l {
  refs = update e (l.refs e - 1) l.refs;
  entries = if eqb (l.refs e - 1) 0 then remove key l.entries else l.entries;
}

-- A worker's next section; an idle worker asks for the key. One that finds the mutex locked stays.
unfoldable pub section : String → Worker → Locks → Locks × Worker
unfolding register unregister lookup
section key idle l =
    (register key (lookup key l.entries) l, waiting key (entry_of (lookup key l.entries) l))
section key (waiting k e) l =
    if l.locked e
    then (l, waiting k e)
    else (record l { locked = update e true l.locked }, holding k e)
section key (holding k e) l = (record l { locked = update e false l.locked }, releasing k e)
section key (releasing k e) l = (unregister k e l, idle)

-- The worker at a place makes a step.
unfoldable pub step_at : ℕ → String → Locks → List Worker → Locks × List Worker
unfolding section
step_at i key l [] = (l, [])
step_at zero key l (w ∷ ws) = let done = section key w l in (done.0, done.1 ∷ ws)
step_at (suc i) key l (w ∷ ws) = let done = step_at i key l ws in (done.0, w ∷ done.1)

unfoldable pub run : List (ℕ × String) → Locks → List Worker → Locks × List Worker
unfolding step_at
run [] l ws = (l, ws)
run ((i, key) ∷ schedule) l ws = let done = step_at i key l ws in run schedule done.0 done.1

abbrev pub no_locks : Locks
no_locks = record { entries = []; refs = λ e. 0; locked = λ e. false; next = 0 }

unfoldable pub all_idle : ℕ → List Worker
all_idle zero = []
all_idle (suc n) = idle ∷ all_idle n

unfoldable pub uses : String → ℕ → Worker → Bool
uses key e idle = false
uses key e (waiting k f) = k == key && eqb f e
uses key e (holding k f) = k == key && eqb f e
uses key e (releasing k f) = k == key && eqb f e

unfoldable pub holds : String → ℕ → Worker → Bool
holds key e (holding k f) = k == key && eqb f e
holds key e _ = false

abbrev pub one : Bool → ℕ
one b = if b then 1 else 0

unfoldable pub count : (Worker → Bool) → List Worker → ℕ
count test [] = 0
count test (w ∷ ws) = one (test w) + count test ws

-- A worker that uses, holds or waits for any entry of a key
unfoldable pub uses_key : String → Worker → Bool
uses_key key idle = false
uses_key key (waiting k f) = k == key
uses_key key (holding k f) = k == key
uses_key key (releasing k f) = k == key

unfoldable pub holds_key : String → Worker → Bool
holds_key key (holding k f) = k == key
holds_key key _ = false

unfoldable pub waits : String → ℕ → Worker → Bool
waits key e (waiting k f) = k == key && eqb f e
waits key e _ = false
