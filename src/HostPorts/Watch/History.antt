-- ===== src/HostPorts/Watch/History.antt =====
-- Any sequence of starts, rounds and stops, with any outcome of any command, and of removals of the guard by
-- others.
pub mod Protection
use network_plugin_manager.Prelude.{String, Bool, false, none, List, [], ◌∷◌, Result, if◌then◌else◌}
use network_plugin_manager.Firewall.{Backend}
use network_plugin_manager.HostPorts.{Error}
use network_plugin_manager.HostPorts.Build.{no_rules}
use network_plugin_manager.HostPorts.Nft.Check.{Table}
use network_plugin_manager.HostPorts.Localnet.{Op}
use network_plugin_manager.HostPorts.Watch.{
  Round, change_round, repair_once, watcher, Machine, watch,
}

pub data Event : Type 0 where
  start : Bool → Event
  change : Round → Event
  repair : Round → Table → Event
  stop unhook : Event

abbrev pub when_running : Op (Result Error (Unit {0})) → Machine → Machine
when_running round m = if m.running then record m { world = (round m.world).0 } else m

-- A stop forgets what the watcher had in memory when the next one starts.
unfoldable pub step : Event → Machine → Machine
unfolding watch change_round repair_once
step (start readable) m = if m.running then m else watch readable m.world
step (change r) m = when_running (change_round r) m
step (repair r table) m = when_running (repair_once r table) m
step stop m = record m { running = false }
step unhook m = record m {
  world = record (m.world) { state = record (m.world.state) { guard = none } };
}

unfoldable pub history : List Event → Machine → Machine
unfolding step
history [] m = m
history (e ∷ es) m = history es (step e m)

-- A host on which no watcher has run yet
abbrev pub fresh : Backend → (String → Bool) → Machine
fresh backend initial = record {
  world = record {
    state = record {
      backend = backend;
      applied = no_rules;
      last_applied = none;
      original = [];
      localnet = initial;
      saved = [];
      raw = [];
      guard = none;
    };
    trace = [];
  };
  running = false;
}
