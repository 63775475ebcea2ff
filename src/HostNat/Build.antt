-- ===== src/HostNat/Build.antt =====
-- The rules that hostnat/watcher.go makes of the metadata: the first half of `onChange`.
pub mod Masquerade
pub mod Ike
pub mod Built
use network_plugin_manager.Prelude.{
  String, Bool, true, false, not, ◌&&◌, ◌||◌, Option, none, some, List, [], ◌∷◌, ◌==◌, ◌<>◌, Result,
  ok, err, ◌>>=◌, ◌>>◌, if◌then◌else◌,
}
use network_plugin_manager.Go.Map.{Map, lookup, lookup_or, put}
use network_plugin_manager.Metadata.{
  Json, Host, Network, Container, Client, as_object, as_text, as_bool, cni_config,
}
use network_plugin_manager.HostLabel.{is_reference, resolve, peer_subnets}
use network_plugin_manager.HostNat.{
  MasqRule, IkePortSnatRule, RuleSet, Error, networks_failed, hosts_failed, containers_failed,
  subnet_unresolved, peers_unresolved,
}

unfoldable pub is_bridge_cni_type : String → Bool
is_bridge_cni_type t = t == "pasture-bridge" || t == "rancher-bridge"

abbrev pub is_nat_entry : Map Json → Bool
is_nat_entry props =
    as_bool (lookup "hostNat" props)
    && is_bridge_cni_type (as_text (lookup "type" props))
    && not (as_text (lookup "bridge" props) == "")
    && not (as_text (lookup "bridgeSubnet" props) == "")

-- The loop over the entries, in the order of the map: the first that qualifies.
unfoldable pub first_rule : Map Json → Option MasqRule
unfolding is_bridge_cni_type lookup
first_rule [] = none
first_rule (e ∷ conf) =
    let props = as_object (some e.1) in
    let rest = first_rule conf in
    if is_nat_entry props
    then some (record {
      subnet = as_text (lookup "bridgeSubnet" props);
      bridge = as_text (lookup "bridge" props);
      peers = [];
    })
    else rest

unfoldable pub network_to_rule : Network → Option MasqRule
unfolding first_rule cni_config
network_to_rule network = first_rule (cni_config network)

unfoldable pub first_bridge : Map Json → String
unfolding is_bridge_cni_type lookup
first_bridge [] = ""
first_bridge (e ∷ conf) =
    let props = as_object (some e.1) in
    let bridge = as_text (lookup "bridge" props) in
    let rest = first_bridge conf in
    if is_bridge_cni_type (as_text (lookup "type" props)) && not (bridge == "")
    then bridge
    else rest

unfoldable pub bridge_for_network : Network → String
unfolding first_bridge cni_config
bridge_for_network network = first_bridge (cni_config network)

unfoldable pub is_ipsec_overlay_container : Container → Bool
unfolding lookup_or
is_ipsec_overlay_container c =
    lookup_or "" "io.pasturestack.component" c.labels == "ipsec-overlay"
    || (c.stack_name == "ipsec" && c.service_name == "ipsec")

-- The peers of a network whose subnet is a host label. The source asks for the hosts once.
unfoldable pub peers_of : Client → Host → String → String → Result Error (List String)
peers_of c host reference resolved =
    if is_reference reference
    then elim c.hosts [
      | none ↦ err hosts_failed
      | some hosts ↦ elim (peer_subnets reference host.uuid resolved hosts) [
        | ok peers ↦ ok peers
        | err e ↦ err peers_unresolved
      ]
    ]
    else ok []

-- A rule with its subnet resolved and its peers filled in
unfoldable pub complete_rule : Client → Host → MasqRule → Result Error MasqRule
unfolding peers_of
complete_rule c host rule = elim (resolve rule.subnet host.labels) [
  | err e ↦ err subnet_unresolved
  | ok resolved ↦ peers_of c host rule.subnet resolved >>= λ peers.
      ok (record { subnet = resolved; bridge = rule.bridge; peers = peers })
]

-- One round of the loop over the networks.
unfoldable pub add_network : Client → Host → Network → Map MasqRule → Result Error (Map MasqRule)
unfolding complete_rule network_to_rule
add_network c host network masq = elim (network_to_rule network) [
  | none ↦ ok masq
  | some rule ↦ complete_rule c host rule >>= λ r. ok (put network.uuid r masq)
]

unfoldable pub add_networks :
    Client → Host → List Network → Map MasqRule → Result Error (Map MasqRule)
unfolding add_network
add_networks c host [] masq = ok masq
add_networks c host (n ∷ ns) masq = add_network c host n masq >>= λ m. add_networks c host ns m

unfoldable pub networks_by_uuid : List Network → Map Network → Map Network
unfolding put
networks_by_uuid [] m = m
networks_by_uuid (n ∷ ns) m = networks_by_uuid ns (put n.uuid n m)

unfoldable pub is_ike_container : Host → Container → Bool
unfolding is_ipsec_overlay_container
is_ike_container host c =
    c.host_uuid == host.uuid
    && is_ipsec_overlay_container c
    && not (c.primary_ip == "")
    && (c.state == "running" || c.state == "starting")

unfoldable pub container_bridge : Map Network → Container → String
unfolding lookup bridge_for_network
container_bridge networks c = elim (lookup c.network_uuid networks) [
  | none ↦ ""
  | some n ↦ bridge_for_network n
]

abbrev pub ike_rule : Host → String → Container → String → IkePortSnatRule
ike_rule host bridge c port = record {
  source_ip = c.primary_ip;
  host_ip = host.agent_ip;
  bridge = bridge;
  port = port;
}

-- The two ports of one container.
unfoldable pub add_ike_ports : Host → String → Container → Map IkePortSnatRule → Map IkePortSnatRule
unfolding put
add_ike_ports host bridge c rules =
    put (c.external_id <> ("/" <> "4500")) (ike_rule host bridge c "4500")
      (put (c.external_id <> ("/" <> "500")) (ike_rule host bridge c "500") rules)

unfoldable pub add_ike_containers :
    Host → Map Network → List Container → Map IkePortSnatRule → Map IkePortSnatRule
unfolding is_ike_container add_ike_ports container_bridge
add_ike_containers host networks [] rules = rules
add_ike_containers host networks (c ∷ cs) rules = add_ike_containers host networks cs (
    if is_ike_container host c
    then add_ike_ports host (container_bridge networks c) c rules
    else rules)

unfoldable pub add_ike_snat_rules : Client → Host → Map Network → Result Error (Map IkePortSnatRule)
unfolding add_ike_containers
add_ike_snat_rules c host networks = if host.agent_ip == "" then ok [] else elim c.containers [
  | none ↦ err containers_failed
  | some containers ↦ ok (add_ike_containers host networks containers [])
]

unfoldable pub build_rules : Client → Host → Result Error RuleSet
unfolding add_networks add_ike_snat_rules networks_by_uuid
build_rules c host = elim c.networks [
  | none ↦ err networks_failed
  | some networks ↦ do
    masq ← add_networks c host networks []
    ike ← add_ike_snat_rules c host (networks_by_uuid networks [])
    ok (record { masq = masq; ike = ike })
]
