-- ===== src/HostPorts/Bridge.antt =====
-- `bridgeConfigForNetwork` of hostports/watcher.go: the bridge that a network's CNI configuration
-- names.
pub mod Agreement
use network_plugin_manager.Prelude.{
  String, Bool, true, false, not, ◌&&◌, ◌||◌, Option, none, some, List, [], ◌∷◌, ◌==◌, Result, ok,
  err, ◌>>=◌, ◌>>◌, refuse_if, if◌then◌else◌,
}
use network_plugin_manager.Go.Map.{Map, keys, lookup}
use network_plugin_manager.Go.Sort.{sort}
use network_plugin_manager.Metadata.{Json, bool, Network, as_object, as_text, as_bool, cni_config}
use network_plugin_manager.HostLabel.{is_reference}
use network_plugin_manager.HostPorts.{
  Error, not_boolean_ingress, shared_reference, conflicting_bridges,
}

pub record BridgeConfig : Type 0 where
  pub bridge : String
  pub subnet : String
  pub external_gateway : Bool
  pub shared_ingress : Bool

abbrev pub no_bridge : BridgeConfig
no_bridge = record { bridge = ""; subnet = ""; external_gateway = false; shared_ingress = false }

unfoldable pub is_bridge_cni_type : String → Bool
is_bridge_cni_type t = t == "pasture-bridge" || t == "rancher-bridge"

-- `hostNat` implies shared ingress, unless the entry says otherwise.
unfoldable pub shared_ingress_of : Map Json → Result Error Bool
shared_ingress_of props =
    let subnet = as_text (lookup "bridgeSubnet" props) in
    elim (lookup "allowSharedSubnetIngress" props) [
      | none ↦
          ok (as_bool (lookup "hostNat" props) && not (subnet == "") && not (is_reference subnet))
      | some (bool b) ↦ ok b
      | some _ ↦ err not_boolean_ingress
    ]

-- The configuration of one entry of a bridge type.
unfoldable pub candidate_of : Map Json → Result Error BridgeConfig
unfolding shared_ingress_of
candidate_of props = do
  let subnet = as_text (lookup "bridgeSubnet" props)
  shared ← shared_ingress_of props
  refuse_if (shared && is_reference subnet) shared_reference
  ok (record {
    bridge = as_text (lookup "bridge" props);
    subnet = subnet;
    external_gateway = as_bool (lookup "skipBridgeConfigureIP" props);
    shared_ingress = shared;
  })

abbrev pub bool_eq : Bool → Bool → Bool
bool_eq true b = b
bool_eq false b = not b

abbrev pub config_eq : BridgeConfig → BridgeConfig → Bool
config_eq a b =
    a.bridge == b.bridge
    && a.subnet == b.subnet
    && bool_eq a.external_gateway b.external_gateway
    && bool_eq a.shared_ingress b.shared_ingress

abbrev pub is_bridge_entry : Map Json → Bool
is_bridge_entry props = is_bridge_cni_type (as_text (lookup "type" props))

-- What was found so far, held against the next entry.
unfoldable pub merge : Option BridgeConfig → BridgeConfig → Result Error (Option BridgeConfig)
merge none c = ok (some c)
merge (some r) c = if config_eq c r then ok (some r) else err conflicting_bridges

-- One round of the loop over the sorted keys.
unfoldable pub bridge_step : Map Json → Option BridgeConfig → Result Error (Option BridgeConfig)
unfolding candidate_of merge
bridge_step props result =
    if is_bridge_entry props then candidate_of props >>= merge result else ok result

unfoldable pub bridge_loop :
    Map Json → List String → Option BridgeConfig → Result Error (Option BridgeConfig)
unfolding bridge_step
bridge_loop conf [] result = ok result
bridge_loop conf (key ∷ ks) result =
    bridge_step (as_object (lookup key conf)) result >>= λ r. bridge_loop conf ks r

unfoldable pub bridge_config : Map Json → Result Error BridgeConfig
unfolding bridge_loop
bridge_config conf =
    bridge_loop conf (sort (keys conf)) none >>= λ r. ok (elim r [ none ↦ no_bridge | some c ↦ c ])

unfoldable pub bridge_config_for_network : Network → Result Error BridgeConfig
unfolding bridge_config
bridge_config_for_network network = bridge_config (cni_config network)
