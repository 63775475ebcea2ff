-- ===== src/HostPorts/Rules/Order.antt =====
-- The lists that the scripts are written from do not depend on the order of Go's maps.
use mathlib.Core.List.{Permᴰ}
use network_plugin_manager.Prelude.{◌≡◌, refl, ◌∙◌, ap, String, List, [], ◌∷◌, map, arith}
use network_plugin_manager.Go.Map.{Distinct, lookup_or, lookup-perm, keys, keys-perm}
use network_plugin_manager.Go.Sort.{sort, sort-permᴰ}
use network_plugin_manager.HostPorts.{RuleSet}
use network_plugin_manager.HostPorts.Rules.{
  network_of, identity, forward_networks, sorted_forward_networks, forward_pairs, pair_of,
  sorted_forward_peers, subnet_of, bridge_of,
}

-- Two lists of entries of one rule set: the maps that forwarding reads, each in two orders.
pub record SameForwards (r s : RuleSet) : Type 0 where
  pub subnets : Permᴰ r.forward_subnets s.forward_subnets
  pub bridges : Permᴰ r.forward_bridges s.forward_bridges
  pub peers : Permᴰ r.forward_peers s.forward_peers
  pub subnets_distinct : Distinct r.forward_subnets
  pub bridges_distinct : Distinct r.forward_bridges
  pub peers_distinct : Distinct r.forward_peers

subnet_of-same : (r s : RuleSet) (k : String) → SameForwards r s → subnet_of r k ≡ subnet_of s k
unfolding lookup_or
subnet_of-same r s k e = ground (arith, lookup-perm k e.subnets e.subnets_distinct)

bridge_of-same : (r s : RuleSet) (k : String) → SameForwards r s → bridge_of r k ≡ bridge_of s k
unfolding lookup_or
bridge_of-same r s k e = ground (arith, lookup-perm k e.bridges e.bridges_distinct)

peers_of-same :
    (r s : RuleSet) (k : String)
    → SameForwards r s
    → lookup_or [] k r.forward_peers ≡ lookup_or [] k s.forward_peers
unfolding lookup_or
peers_of-same r s k e = ground (arith, lookup-perm k e.peers e.peers_distinct)

network_of-same : (r s : RuleSet) (k : String) → SameForwards r s → network_of r k ≡ network_of s k
network_of-same r s k e = cc (subnet_of-same r s k e, bridge_of-same r s k e)

forward_networks-same :
    (r s : RuleSet) (ks seen : List String)
    → SameForwards r s
    → forward_networks r ks seen ≡ forward_networks s ks seen
unfolding forward_networks
forward_networks-same r s [] seen e = refl
forward_networks-same r s (k ∷ ks) seen e = ground (
  arith,
  subnet_of-same r s k e,
  bridge_of-same r s k e,
  forward_networks-same r s ks seen e,
  forward_networks-same r s ks (identity (network_of s k) ∷ seen) e,
)

-- The networks to forward for, and of two with the same bridge and subnet which one is kept, do not
-- depend on the order in which Go's maps yield their entries.
pub sorted_forward_networks-same :
    (r s : RuleSet) → SameForwards r s → sorted_forward_networks r ≡ sorted_forward_networks s
unfolding sorted_forward_networks
sorted_forward_networks-same r s e =
    forward_networks-same r s (sort (keys r.forward_subnets)) [] e
    ∙ ap (λ ks. forward_networks s ks []) (sort-permᴰ (keys-perm e.subnets))

pair_of-same :
    (r s : RuleSet) (k : String) (peers : List String)
    → SameForwards r s
    → map (pair_of r k) peers ≡ map (pair_of s k) peers
pair_of-same r s k [] e = refl
pair_of-same r s k (p ∷ ps) e =
    cc (subnet_of-same r s k e, bridge_of-same r s k e, pair_of-same r s k ps e)

forward_pairs-same :
    (r s : RuleSet) (ks : List String) → SameForwards r s → forward_pairs r ks ≡ forward_pairs s ks
unfolding forward_pairs
forward_pairs-same r s [] e = refl
forward_pairs-same r s (k ∷ ks) e = cc (
  peers_of-same r s k e,
  pair_of-same r s k (sort (lookup_or [] k r.forward_peers)) e,
  forward_pairs-same r s ks e,
)

-- The pairs of a peer's subnet and a local one do not depend on the order in which Go's maps yield
-- their entries.
pub sorted_forward_peers-same :
    (r s : RuleSet) → SameForwards r s → sorted_forward_peers r ≡ sorted_forward_peers s
unfolding sorted_forward_peers
sorted_forward_peers-same r s e =
    forward_pairs-same r s (sort (keys r.forward_peers)) e
    ∙ ap (forward_pairs s) (sort-permᴰ (keys-perm e.peers))
