-- ===== src/Tests/HostLabel.antt =====
-- internal/hostlabel/resolve.go on two hosts: the local one and a peer.
use network_plugin_manager.Prelude.{
  ◌≡◌, refl, String, List, [], ◌∷◌, true, Result, ok, err, inl, inr, eq_iff, arith, ◌≢◌,
}
use network_plugin_manager.Go.Map.{member}
use network_plugin_manager.Metadata.{Host}
use network_plugin_manager.HostLabel.{
  Error, is_reference, resolve, resolve_key, peer_subnets, overlapping_peer,
}
use network_plugin_manager.HostLabel.Overlap.{AreApart, peer_subnets-AreApart, peer_subnets_active}

abbrev reference : String
reference = "__host_label__: subnet"

abbrev host_of : String → String → Host
host_of uuid subnet = record {
  agent_ip = "";
  labels = ("subnet", subnet) ∷ [];
  state = "active";
  uuid = uuid;
}

abbrev peer : Host
peer = host_of "b" "10.43.0.0/16"

abbrev hosts : List Host
hosts = host_of "a" "10.42.0.0/16" ∷ peer ∷ []

-- The subnets of the peers, with all that their computation calls unfolded.
run_peers : List Host → Result Error (List String)
unfolding peer_subnets is_reference resolve resolve_key network_plugin_manager.Go.Map.lookup_or
    network_plugin_manager.Go.Map.lookup network_plugin_manager.Go.Text.trim_prefix
    network_plugin_manager.Go.Text.trim_space network_plugin_manager.Go.Text.strip_prefix
    network_plugin_manager.Go.Text.any_char network_plugin_manager.Go.Netip.parse_prefix
    network_plugin_manager.Go.Netip.parse_addr network_plugin_manager.Go.Netip.contains
    network_plugin_manager.Go.Netip.masked network_plugin_manager.Go.Netip.is_canonical_cidr
    network_plugin_manager.Go.Sort.sort
run_peers hs = peer_subnets reference "a" "10.42.0.0/16" hs

peers_found : peer_subnets reference "a" "10.42.0.0/16" hosts ≡ ok ("10.43.0.0/16" ∷ [])
unfolding run_peers
peers_found = refl

-- A peer inside the local subnet is refused.
overlap_refused :
    peer_subnets reference "a" "10.42.0.0/16" (host_of "c" "10.42.7.0/24" ∷ [])
    ≡ err overlapping_peer
unfolding run_peers
overlap_refused = refl

reference_is : is_reference reference ≡ true
unfolding run_peers
reference_is = refl

peer_resolved : resolve reference peer.labels ≡ ok "10.43.0.0/16"
unfolding run_peers
peer_resolved = refl

peer_not_local : ◌≢◌ {A = String} "b" "a"
peer_not_local = ground (arith, eq_iff "b" "a")

peer_subnets-AreApart_example : AreApart "10.42.0.0/16" ("10.43.0.0/16" ∷ [])
peer_subnets-AreApart_example =
    peer_subnets-AreApart reference "a" "10.42.0.0/16" hosts ("10.43.0.0/16" ∷ []) reference_is
      peers_found

subnet_of_active_peer : member "10.43.0.0/16" ("10.43.0.0/16" ∷ []) ≡ true
subnet_of_active_peer =
    peer_subnets_active reference "a" "10.42.0.0/16" hosts ("10.43.0.0/16" ∷ []) peer "10.43.0.0/16"
      reference_is peers_found (inr (inl refl)) refl peer_not_local peer_resolved
