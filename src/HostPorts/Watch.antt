-- ===== src/HostPorts/Watch.antt =====
-- The watcher of hostports/watcher.go: rounds of `onChange` and `repairOnce`, one at a time under the lock, on a
-- host whose process may stop and start again at any point between them.
pub mod Rounds
pub mod History
use network_plugin_manager.Prelude.{
  String, Bool, true, false, not, ◌&&◌, ◌||◌, Option, none, some, List, [], ◌∷◌, ◌==◌, Result, ok,
  err, if◌then◌else◌,
}
use network_plugin_manager.Go.Map.{Map, keys}
use network_plugin_manager.Metadata.{Client}
use network_plugin_manager.Identity.{Docker, local_host}
use network_plugin_manager.Firewall.{nftables}
use network_plugin_manager.Effects.{
  ◌>>=◌, outcome, Oracle, World, report, ◌>>◌, pure, lift, get, perform, ignore,
}
use network_plugin_manager.HostNat.Change.{texts_eq, map_eq, reapply_due}
use network_plugin_manager.HostPorts.{
  PortRule, RuleSet, Error, local_host_unknown, base_rules_failed,
}
use network_plugin_manager.HostPorts.Bridge.{bool_eq}
use network_plugin_manager.HostPorts.Build.{no_rules, build_rule_set}
use network_plugin_manager.HostPorts.Nft.Check.{Table, check_nft_rules}
use network_plugin_manager.HostPorts.Localnet.{
  Node, Op, Stored, decoded, unreadable, load_route_localnet_state,
}
use network_plugin_manager.HostPorts.Apply.{Answers, insert_base_rules, apply}

abbrev pub text_eq : String → String → Bool
text_eq s t = s == t

abbrev pub port_rule_eq : PortRule → PortRule → Bool
port_rule_eq p q =
    p.bridge == q.bridge
    && p.source_ip == q.source_ip
    && p.source_port == q.source_port
    && p.target_ip == q.target_ip
    && p.target_port == q.target_port
    && p.protocol == q.protocol
    && bool_eq p.masquerade_dnat q.masquerade_dnat

-- reflect.DeepEqual. A map of rules that is empty is nil or not by its field alone.
unfoldable pub deep_equal : RuleSet → RuleSet → Bool
unfolding map_eq
deep_equal r s =
    map_eq port_rule_eq r.ports s.ports
    && map_eq text_eq r.forward_subnets s.forward_subnets
    && map_eq text_eq r.forward_bridges s.forward_bridges
    && map_eq texts_eq r.forward_peers s.forward_peers
    && map_eq bool_eq r.shared_ingress s.shared_ingress
    && map_eq bool_eq r.route_localnet_bridges s.route_localnet_bridges

-- What a round is answered: by the host, by the metadata and by Docker, and the address that the container
-- has in a subnet, where it is found
pub record Round : Type 0 where
  pub answers : Answers
  pub client : Client
  pub docker : Docker
  pub address : String → String → Option String

abbrev pub new_rules : Round → Result Error RuleSet
new_rules r = elim (local_host r.client r.docker) [
  | err e ↦ err local_host_unknown
  | ok host ↦ build_rule_set r.address r.client host
]

unfoldable pub on_change_locked : Round → Bool → Op (Unit {0})
unfolding deep_equal apply
on_change_locked r force = do
  rules ← lift (new_rules r)
  n ← get
  (if force || not (deep_equal n.applied rules)
      then apply r.answers rules
      else if reapply_due (r.answers).now n.last_applied
      then apply r.answers rules
      else pure tt)

unfoldable pub report_locked : Oracle → Result Error (Unit {0}) → Op (Unit {0})
report_locked oracle (ok done) = ignore (perform oracle base_rules_failed (report true))
report_locked oracle (err e) = ignore (perform oracle base_rules_failed (report false))

-- One round of the loop of `onChangeNoError`: an error is reported, and the loop goes on.
unfoldable pub change_round : Round → Op (Result Error (Unit {0}))
unfolding on_change_locked report_locked
change_round r = do
  result ← outcome (on_change_locked r false)
  report_locked (r.answers).oracle result
  pure result

-- An error found by a check is reported, and the rules are then applied in any case.
abbrev pub forced : Oracle → Result Error (Unit {0}) → Op Bool
forced oracle (ok done) = pure false
forced oracle (err e) = report_locked oracle (err e) >> pure true

abbrev pub check_or_insert : Round → Table → Node → Op (Unit {0})
check_or_insert r table n =
    if n.backend.mode == nftables
    then lift (check_nft_rules table n.applied)
    else insert_base_rules r.answers

unfoldable pub repair_once : Round → Table → Op (Result Error (Unit {0}))
unfolding insert_base_rules on_change_locked report_locked check_nft_rules
repair_once r table = do
  n ← get
  checked ← outcome (check_or_insert r table n)
  force ← forced (r.answers).oracle checked
  result ← outcome (on_change_locked r force)
  report_locked (r.answers).oracle result
  pure result

abbrev pub all_true : List String → Map Bool
all_true [] = []
all_true (key ∷ keys) = (key, true) ∷ all_true keys

-- `Watch`: the bridges of the state file are taken for those of the rules that are in force.
abbrev pub watcher : Map Bool → Node → Node
watcher original n = record n {
  applied = record no_rules { route_localnet_bridges = all_true (keys original) };
  last_applied = none;
  original = original;
}

-- A host, and whether a watcher runs on it
pub record Machine : Type 0 where
  pub world : World Node
  pub running : Bool

-- The file holds what was last saved, as version 1; no file and one without bridges load alike. The
-- watcher does not start where the file cannot be read.
abbrev pub started : World Node → Result Error (Map Bool) → Machine
started w (ok original) = record {
  world = record w { state = watcher original w.state };
  running = true;
}
started w (err e) = record { world = w; running = false }

abbrev pub stored : Bool → Node → Stored
stored readable n = if readable then decoded 1 (some n.saved) else unreadable

unfoldable pub watch : Bool → World Node → Machine
unfolding load_route_localnet_state
watch readable w = started w (load_route_localnet_state (stored readable w.state))
