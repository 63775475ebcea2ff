-- ===== src/Conntrack/Sync.antt =====
-- conntracksync/watcher.go: connections of published ports that lead to an address which is no longer
-- their container's.
pub mod Deleted
use network_plugin_manager.Prelude.{
  String, Bool, true, false, not, ◌&&◌, Option, none, some, List, [], ◌∷◌, ◌++◌, ◌==◌, ◌<>◌, keep,
  Result, ok, err, ◌>>=◌, if◌then◌else◌,
}
use network_plugin_manager.Go.Text.{split}
use network_plugin_manager.Go.Map.{Map, lookup, put}
use network_plugin_manager.Metadata.{Host, Container, Client}
use network_plugin_manager.Identity.{Docker, local_host}
use network_plugin_manager.Conntrack.{CtEntry}

pub data Error : Type 0 where
  local_host_unknown containers_failed dnat_failed snat_failed : Error

abbrev pub port_key : String → String → String → String
port_key ip port protocol = ip <> (":" <> (port <> ("/" <> protocol)))

-- The protocol in the last part of a port definition
unfoldable pub protocol_of : List String → String
protocol_of (port ∷ (protocol ∷ [])) = protocol
protocol_of _ = "tcp"

-- The key of a port definition that has three parts
unfoldable pub key_of_parts : List String → Option String
unfolding protocol_of split
key_of_parts (host_ip ∷ (host_port ∷ (target_port ∷ []))) =
    some (port_key host_ip host_port (protocol_of (split b'/' target_port)))
key_of_parts _ = none

unfoldable pub add_ports : Container → List String → Map Container → Map Container
unfolding key_of_parts split put
add_ports c [] m = m
add_ports c (p ∷ ps) m =
    add_ports c ps (elim (key_of_parts (split b':' p)) [ none ↦ m | some key ↦ put key c m ])

-- The source's test for a container without ports is that of an empty loop.
unfoldable pub add_containers : Host → List Container → Map Container → Map Container
unfolding add_ports
add_containers host [] m = m
add_containers host (c ∷ cs) m =
    add_containers host cs (if c.host_uuid == host.uuid then add_ports c c.ports m else m)

unfoldable pub build_containers_maps : Client → Docker → Result Error (Map Container)
unfolding add_containers
build_containers_maps c d = elim (local_host c d) [
  | err e ↦ err local_host_unknown
  | ok host ↦ elim (c.containers) [
    | none ↦ err containers_failed
    | some containers ↦ ok (add_containers host containers [])
  ]
]

-- The container that publishes a port: at this address, or at all of the host's
unfoldable pub container_at : Map Container → String → String → String → Option Container
unfolding lookup
container_at m ip port protocol = elim (lookup (port_key ip port protocol) m) [
  | some c ↦ some c
  | none ↦ lookup (port_key "0.0.0.0" port protocol) m
]

abbrev pub is_elsewhere : Option Container → String → Bool
is_elsewhere none ip = false
is_elsewhere (some c) ip = not (c.primary_ip == "") && not (ip == c.primary_ip)

unfoldable pub is_stale_dnat : Map Container → CtEntry → Bool
unfolding container_at
is_stale_dnat m e =
    is_elsewhere (container_at m e.original_destination_ip e.original_destination_port e.protocol)
      e.reply_source_ip

unfoldable pub is_stale_snat : Map Container → CtEntry → Bool
unfolding container_at
is_stale_snat m e =
    is_elsewhere (container_at m e.reply_destination_ip e.reply_destination_port e.protocol)
      e.original_source_ip

-- The entries that `doSync` deletes, in order, from what the two listings answer; a failing deletion
-- is logged and the loop goes on. An error comes with what was deleted before it.
unfoldable pub do_sync :
    Client
    → Docker
    → Option (List CtEntry)
    → Option (List CtEntry)
    → List CtEntry × Result Error (Unit {0})
unfolding is_stale_dnat is_stale_snat build_containers_maps
do_sync c d dnat snat = elim (build_containers_maps c d) [
  | err e ↦ ([], err e)
  | ok m ↦ elim dnat [
    | none ↦ ([], err dnat_failed)
    | some ds ↦ elim snat [
      | none ↦ (keep (is_stale_dnat m) ds, err snat_failed)
      | some ss ↦ (keep (is_stale_dnat m) ds ++ keep (is_stale_snat m) ss, ok tt)
    ]
  ]
]
