-- ===== src/Tests/Arpsync.antt =====
-- arpsync/watcher.go on a host with one container, which knows of another host's.
use network_plugin_manager.Prelude.{◌≡◌, refl, String, true, false, some, List, [], ◌∷◌, All}
use network_plugin_manager.Go.Map.{put, lookup, member}
use network_plugin_manager.Metadata.{Container, Network, Host}
use network_plugin_manager.Arpsync.{
  Entry, Change, fix, add, build_containers_map, is_network_driver_context, sync_arp_table,
}
use network_plugin_manager.Arpsync.Known.{IsRight}
use network_plugin_manager.Arpsync.Sound.{sync_arp_table-AreRight}

abbrev host : Host
host = record { agent_ip = "192.0.2.1"; labels = []; state = "active"; uuid = "a" }

abbrev network : Network
network = record { is_default = true; host_ports = true; metadata = []; name = "ipsec"; uuid = "n" }

abbrev near : Container
near = record {
  external_id = "c1";
  host_uuid = "a";
  labels = [];
  name = "web";
  network_uuid = "n";
  ports = [];
  primary_ip = "10.42.0.9";
  primary_mac_address = "02:00:00:00:00:09";
  service_name = "web";
  stack_name = "shop";
  state = "running";
  system = false;
  uuid = "u1";
}

abbrev far : Container
far = record near {
  external_id = "c2";
  host_uuid = "b";
  primary_ip = "10.42.0.8";
  primary_mac_address = "02:00:00:00:00:08";
}

-- The near container is listed with the far one's address, and one entry is nobody's.
abbrev entries : List Entry
entries =
    record { ip = some "10.42.0.9"; mac = "02:00:00:00:00:08" }
    ∷ record { ip = some "10.42.0.7"; mac = "02:00:00:00:00:07" }
    ∷ []

abbrev containers : List Container
containers = near ∷ far ∷ []

abbrev driver_mac : String
driver_mac = "02:00:00:00:00:01"

run_sync : List Entry → List Change
unfolding sync_arp_table build_containers_map put lookup member
run_sync es =
    sync_arp_table "host" driver_mac (build_containers_map network containers []) host es []

repaired :
    run_sync entries
    ≡ fix "10.42.0.9" "02:00:00:00:00:09" ∷ add "10.42.0.8" "02:00:00:00:00:01" ∷ []
unfolding run_sync
repaired = refl

sync_arp_table-AreRight_example :
    All
      (IsRight network containers "host" driver_mac host
        (is_network_driver_context "host" driver_mac (build_containers_map network containers []))
        entries)
      (sync_arp_table "host" driver_mac
        (build_containers_map network containers [])
        host
        entries
        [])
sync_arp_table-AreRight_example =
    sync_arp_table-AreRight "host" driver_mac network containers host entries []
