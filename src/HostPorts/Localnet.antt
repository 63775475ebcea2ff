-- ===== src/HostPorts/Localnet.antt =====
-- hostports/route_localnet.go: the setting route_localnet of the bridges, which lets packets of the host's
-- own loopback addresses in, and the file that remembers what it was. A node is the watcher with the
-- part of the host that it changes.
pub mod Bridges
pub mod Invariant
pub mod Steps
pub mod Activate
use network_plugin_manager.Prelude.{
  ℕ, String, Bool, true, false, not, Option, none, some, List, [], ◌∷◌, ◌==◌, ◌<>◌, Result, ok, err,
  eqb, keep, if◌then◌else◌,
}
use network_plugin_manager.Go.Map.{Map, lookup, lookup_or, keys, put}
use network_plugin_manager.Go.Sort.{sort}
use network_plugin_manager.Firewall.{Backend}
use network_plugin_manager.Effects.{
  Oracle, file, Io, ◌>>=◌, ◌>>◌, pure, lift, get, modify, perform, deferred,
}
use network_plugin_manager.HostPorts.{
  RuleSet, Error, localnet_failed, localnet_unknown, save_failed,
}
use network_plugin_manager.HostPorts.Parse.{validate_bridge_name}
use network_plugin_manager.HostPorts.Nft.{sorted_enabled_bridges}

-- The watcher's fields; then the setting of each bridge, the file, the rules of the guarding chain that is
-- filled by iptables-restore, and the bridges that a guard in force protects. It is `none` where no guard is
-- in force, as on a fresh host.
pub record Node : Type 0 where
  pub backend : Backend
  pub applied : RuleSet
  pub last_applied : Option ℕ
  pub original : Map Bool
  pub localnet : String → Bool
  pub saved : Map Bool
  pub raw : List String
  pub guard : Option (List String)

abbrev pub Op : Type 0 → Type 0
Op A = Io Node Error A

-- What the state file holds, decoded by encoding/json
pub data Stored : Type 0 where
  absent unreadable undecodable : Stored
  decoded : ℕ → Option (Map Bool) → Stored

unfoldable pub valid_names : Map Bool → Result Error (Map Bool) → Result Error (Map Bool)
valid_names [] whole = whole
valid_names (e ∷ m) whole = elim (validate_bridge_name e.0) [
  | err x ↦ err localnet_unknown
  | ok done ↦ valid_names m whole
]

unfoldable pub load_route_localnet_state : Stored → Result Error (Map Bool)
unfolding valid_names
load_route_localnet_state absent = ok []
load_route_localnet_state unreadable = err localnet_unknown
load_route_localnet_state undecodable = err localnet_unknown
load_route_localnet_state (decoded version none) = err localnet_unknown
load_route_localnet_state (decoded version (some original)) =
    if eqb version 1 then valid_names original (ok original) else err localnet_unknown

abbrev pub state_directory : String
state_directory = "/run/pasturestack/network-plugin-manager"

abbrev pub route_localnet_state_path : String
route_localnet_state_path = state_directory <> "/route-localnet.json"

-- A new file under a temporary name, then renamed; only the last step changes what is stored.
unfoldable pub save_route_localnet_state : Oracle → Map Bool → Op (Unit {0})
save_route_localnet_state oracle next = do
  perform oracle save_failed (file "mkdir" state_directory)
  perform oracle save_failed (file "create" state_directory)
  deferred
      (do
        perform oracle save_failed (file "chmod" state_directory)
        perform oracle save_failed (file "write" state_directory)
        perform oracle save_failed (file "sync" state_directory)
        perform oracle save_failed (file "close" state_directory)
        perform oracle save_failed (file "rename" route_localnet_state_path)
        modify (λ n. record n { saved = next }))
      (perform oracle save_failed (file "remove" state_directory))

abbrev pub localnet_path : String → String
localnet_path bridge = "/proc/sys/net/ipv4/conf/" <> (bridge <> "/route_localnet")

-- A text other than 0 and 1 counts as a failing read.
unfoldable pub read_bridge_route_localnet : Oracle → String → Op Bool
read_bridge_route_localnet oracle bridge = do
  lift (validate_bridge_name bridge)
  perform oracle localnet_unknown (file "read" (localnet_path bridge))
  n ← get
  pure (n.localnet bridge)

abbrev pub set_at : String → Bool → (String → Bool) → String → Bool
set_at bridge enabled f b = if b == bridge then enabled else f b

-- The setting of a bridge that is gone counts as written, if it is to be off.
unfoldable pub set_bridge_route_localnet : Oracle → String → Bool → Op (Unit {0})
set_bridge_route_localnet oracle bridge enabled = do
  lift (validate_bridge_name bridge)
  perform oracle localnet_failed (file "write" (localnet_path bridge))
  modify (λ n. record n { localnet = set_at bridge enabled n.localnet })

-- The bridges that were changed before and that the rules do not name
unfoldable pub removed_bridges : RuleSet → Map Bool → List String
unfolding lookup_or
removed_bridges rules original =
    sort
      (keep (λ bridge. not (lookup_or false bridge rules.route_localnet_bridges)) (keys original))

unfoldable pub restore_bridges : Oracle → Map Bool → List String → Op (Unit {0})
unfolding set_bridge_route_localnet lookup_or
restore_bridges oracle original [] = pure tt
restore_bridges oracle original (bridge ∷ bridges) =
    set_bridge_route_localnet oracle bridge (lookup_or false bridge original)
    >> restore_bridges oracle original bridges

unfoldable pub restore_removed_route_localnet : Oracle → RuleSet → Op (Unit {0})
unfolding restore_bridges removed_bridges
restore_removed_route_localnet oracle rules =
    get >>= λ n. restore_bridges oracle n.original (removed_bridges rules n.original)

unfoldable pub known_or_read : Oracle → String → Option Bool → Op Bool
unfolding read_bridge_route_localnet
known_or_read oracle bridge (some known) = pure known
known_or_read oracle bridge none = read_bridge_route_localnet oracle bridge

-- What each of these bridges had, from memory or else from the kernel
unfoldable pub collect : Oracle → Map Bool → List String → Map Bool → Op (Map Bool)
unfolding known_or_read put lookup
collect oracle original [] next = pure next
collect oracle original (bridge ∷ bridges) next =
    known_or_read oracle bridge (lookup bridge original) >>= λ value.
    collect oracle original bridges (put bridge value next)

unfoldable pub enable_bridges : Oracle → List String → Op (Unit {0})
unfolding set_bridge_route_localnet
enable_bridges oracle [] = pure tt
enable_bridges oracle (bridge ∷ bridges) =
    set_bridge_route_localnet oracle bridge true >> enable_bridges oracle bridges

unfoldable pub activate_route_localnet : Oracle → RuleSet → Op (Unit {0})
unfolding collect save_route_localnet_state enable_bridges sorted_enabled_bridges
activate_route_localnet oracle rules = do
  n ← get
  next ← collect oracle n.original (sorted_enabled_bridges rules.route_localnet_bridges) []
  save_route_localnet_state oracle next
  modify (λ n. record n { original = next })
  enable_bridges oracle (sorted_enabled_bridges rules.route_localnet_bridges)
