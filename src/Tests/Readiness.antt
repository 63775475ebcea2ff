-- ===== src/Tests/Readiness.antt =====
-- internal/readiness/readiness.go on a start with a stale marker and three reports.
use network_plugin_manager.Prelude.{
  ◌≡◌, refl, inl, Bool, true, false, ◌&&◌, none, some, List, [], ◌∷◌, ok,
}
use network_plugin_manager.Readiness.{
  host_nat, host_ports, Disk, State, Answers, new, report, note, settle, clear, publish, ready_text,
}
use network_plugin_manager.Readiness.History.{Call, run, all_succeed, latest}
use network_plugin_manager.Readiness.Marker.{
  is_ready, IsWhole, readiness_iff, readiness_safe, readiness-IsWhole,
}

abbrev works : Answers
works = record {
  remove_fails = false;
  stat_fails = false;
  create_fails = false;
  write_fails = false;
  written = "";
  close_fails = false;
  rename_fails = false;
  cleanup_fails = false;
}

-- A disk that is full: the write stops behind three letters.
abbrev full : Answers
full = record works { write_fails = true; written = "rea" }

abbrev stale : Disk
stale = record { marker = some ready_text; temporary = none }

abbrev calls : Answers → List Call
calls a =
    record { component = host_nat; well = true; answers = works }
    ∷ record { component = host_ports; well = true; answers = a }
    ∷ []

abbrev fresh : State
fresh = record {
  tracker = record { nat = false; ports = false };
  disk = record { marker = none; temporary = none };
}

fresh-new : new works "/tmp/ready" stale ≡ ok fresh
unfolding new
fresh-new = refl

run_calls : List Call → Bool × State
unfolding all_succeed run report note settle clear publish
run_calls cs = (all_succeed cs fresh, run cs fresh)

calls_succeed : all_succeed (calls works) fresh ≡ true
unfolding run_calls
calls_succeed = refl

calls_ready : is_ready (run (calls works) fresh) ≡ true
unfolding run_calls
calls_ready = refl

-- A report that cannot write its marker publishes none.
full_not_ready : is_ready (run (calls full) fresh) ≡ false
unfolding run_calls
full_not_ready = refl

readiness_iff_example :
    is_ready (run (calls works) fresh)
    ≡ (latest host_nat false (calls works) && latest host_ports false (calls works))
readiness_iff_example =
    readiness_iff works "/tmp/ready" stale fresh (calls works) fresh-new calls_succeed

readiness_safe_example :
    (latest host_nat false (calls works) && latest host_ports false (calls works)) ≡ true
readiness_safe_example =
    readiness_safe works "/tmp/ready" stale fresh (calls works) fresh-new (refl, (refl, tt))
      calls_ready

readiness-IsWhole_example : IsWhole (run (calls full) fresh).disk
readiness-IsWhole_example = readiness-IsWhole (calls full) fresh (inl refl)
