-- ===== src/HostPorts/Nft/Clean.antt =====
-- No part of a validated rule set holds a special character.
use network_plugin_manager.Prelude.{
  ◌≡◌, inl, inr, String, Bool, true, false, List, [], ◌∷◌, ok, >>=-eq-ok, keep, All, Bool-cases,
}
use network_plugin_manager.Go.Text.Lines.{IsClean, IsPlain, plain-IsClean, map-All, symm-perm}
use network_plugin_manager.Go.Map.{Map, Distinct}
use network_plugin_manager.Go.Map.Values.{All-perm, sorted_values-perm}
use network_plugin_manager.HostPorts.{PortRule, RuleSet}
use network_plugin_manager.HostPorts.Parse.{validate_bridge_name, validate_port_rule}
use network_plugin_manager.HostPorts.Rules.{
  each, check_forward, check_bridge, check_ingress, check_peers, validate_rule_set, ForwardNetwork,
  ForwardPair, sorted_forward_networks, sorted_shared_ingress_networks, sorted_forward_peers,
}
use network_plugin_manager.HostPorts.Rules.Safe.{
  IsForwardable, IsPairForwardable, each-All, sort-All, sorted_forward_networks-IsForwardable,
  sorted_forward_peers-IsPairForwardable,
}
use network_plugin_manager.HostPorts.Nft.{
  enabled_bridges, sorted_enabled_bridges, no_port, port_rules,
}
use network_plugin_manager.HostPorts.Nft.Plain.{
  IsPortOf, bridge-IsPlain, subnet-IsPlain, validate_port-IsPortOf,
}

pub record IsNetworkOf (Q : String → Type 0) (n : ForwardNetwork) : Type 0 where
  pub bridge : Q n.bridge
  pub subnet : Q n.subnet

pub record IsPairOf (Q : String → Type 0) (p : ForwardPair) : Type 0 where
  pub bridge : Q p.bridge
  pub peer : Q p.peer
  pub local : Q p.local

abbrev pub IsPortClean : PortRule → Type 0
IsPortClean = IsPortOf IsClean

abbrev pub IsNetworkClean : ForwardNetwork → Type 0
IsNetworkClean = IsNetworkOf IsClean

abbrev pub IsPairClean : ForwardPair → Type 0
IsPairClean = IsPairOf IsClean

enabled_bridges-IsPlain :
    (m : Map Bool) → All (λ e. validate_bridge_name e.0 ≡ ok tt) m → All IsPlain (enabled_bridges m)
unfolding enabled_bridges
enabled_bridges-IsPlain [] a = tt
enabled_bridges-IsPlain ((bridge, true) ∷ m) a =
    (bridge-IsPlain bridge a.0, enabled_bridges-IsPlain m a.1)
enabled_bridges-IsPlain ((bridge, false) ∷ m) a = enabled_bridges-IsPlain m a.1

-- Whatever the scripts are written from
pub record AreOf (Q : String → Type 0) (r : RuleSet) : Type 0 where
  pub ports : All (IsPortOf Q) (port_rules r)
  pub networks : All (IsNetworkOf Q) (sorted_forward_networks r)
  pub shared : All (IsNetworkOf Q) (sorted_shared_ingress_networks r)
  pub pairs : All (IsPairOf Q) (sorted_forward_peers r)
  pub guarded : All Q (sorted_enabled_bridges r.route_localnet_bridges)

abbrev pub AreClean : RuleSet → Type 0
AreClean = AreOf IsClean

abbrev pub ArePlain : RuleSet → Type 0
ArePlain = AreOf IsPlain

All-keep :
    {A : Type 0} (P : A → Type 0) (test : A → Bool) (xs : List A) → All P xs → All P (keep test xs)
All-keep P test [] a = tt
All-keep P test (x ∷ xs) a = elim (Bool-cases (test x)) [
  | inl t ↦ rw (t) (a.0, All-keep P test xs a.1)
  | inr t ↦ rw (t) (All-keep P test xs a.1)
]

All-weaken :
    {A : Type 0} (P Q : A → Type 0) (xs : List A) → ((x : A) → P x → Q x) → All P xs → All Q xs
All-weaken P Q [] h a = tt
All-weaken P Q (x ∷ xs) h a = (h x a.0, All-weaken P Q xs h a.1)

networks-IsClean :
    (r : RuleSet)
    → validate_rule_set r ≡ ok tt
    → All (IsNetworkOf IsPlain) (sorted_forward_networks r)
networks-IsClean r h =
    All-weaken IsForwardable (IsNetworkOf IsPlain) (sorted_forward_networks r)
      (λ n f. record {
        bridge = bridge-IsPlain n.bridge f.bridge;
        subnet = subnet-IsPlain n.subnet f.subnet;
      })
      (sorted_forward_networks-IsForwardable r h)

pairs-IsClean :
    (r : RuleSet) → validate_rule_set r ≡ ok tt → All (IsPairOf IsPlain) (sorted_forward_peers r)
pairs-IsClean r h =
    All-weaken IsPairForwardable (IsPairOf IsPlain) (sorted_forward_peers r)
      (λ p f. record {
        bridge = bridge-IsPlain p.bridge f.bridge;
        peer = subnet-IsPlain p.peer f.peer;
        local = subnet-IsPlain p.local f.local;
      })
      (sorted_forward_peers-IsPairForwardable r h)

ports-IsClean :
    (r : RuleSet)
    → Distinct r.ports
    → each (λ e. validate_port_rule e.1) r.ports ≡ ok tt
    → All (IsPortOf IsPlain) (port_rules r)
unfolding port_rules
ports-IsClean r d h =
    All-perm (IsPortOf IsPlain) (symm-perm (sorted_values-perm no_port r.ports d)) (
      map-All (λ (e : String × PortRule). validate_port_rule e.1 ≡ ok tt) (IsPortOf IsPlain)
        (λ e. e.1) r.ports validate_port-IsPortOf
        (each-All (λ e. validate_port_rule e.1) r.ports h))

pub validate-ArePlain : (r : RuleSet) → Distinct r.ports → validate_rule_set r ≡ ok tt → ArePlain r
unfolding validate_rule_set sorted_shared_ingress_networks sorted_enabled_bridges
validate-ArePlain r d h =
    let (u, p, h₁) = >>=-eq-ok (each (λ e. validate_port_rule e.1) r.ports) _ h in
    let (u, f, h₂) = >>=-eq-ok (each (check_forward r) r.forward_subnets) _ h₁ in
    let (u, b, h₃) = >>=-eq-ok (each (check_bridge r) r.forward_bridges) _ h₂ in
    let (u, i, h₄) = >>=-eq-ok (each (check_ingress r) r.shared_ingress) _ h₃ in
    let (u, q, h₅) = >>=-eq-ok (each (check_peers r) r.forward_peers) _ h₄ in
    record {
      ports = ports-IsClean r d p;
      networks = networks-IsClean r h;
      shared = All-keep (IsNetworkOf IsPlain) _ (sorted_forward_networks r) (networks-IsClean r h);
      pairs = pairs-IsClean r h;
      guarded = sort-All IsPlain (enabled_bridges r.route_localnet_bridges) (
          enabled_bridges-IsPlain r.route_localnet_bridges
            (each-All (λ e. validate_bridge_name e.0) r.route_localnet_bridges h₅));
    }

-- Plain texts fit on a line.
plain_clean : (r : RuleSet) → ArePlain r → AreClean r
plain_clean r p = record {
  ports = All-weaken (IsPortOf IsPlain) IsPortClean (port_rules r) port p.ports;
  networks =
      All-weaken (IsNetworkOf IsPlain) IsNetworkClean (sorted_forward_networks r) network
        p.networks;
  shared =
      All-weaken (IsNetworkOf IsPlain) IsNetworkClean (sorted_shared_ingress_networks r) network
        p.shared;
  pairs = All-weaken (IsPairOf IsPlain) IsPairClean (sorted_forward_peers r) pair p.pairs;
  guarded =
      All-weaken IsPlain IsClean (sorted_enabled_bridges r.route_localnet_bridges) plain-IsClean
        p.guarded;
}
  where
    port : (x : PortRule) → IsPortOf IsPlain x → IsPortClean x
    port x q = record {
      bridge = plain-IsClean x.bridge q.bridge;
      source_ip = plain-IsClean x.source_ip q.source_ip;
      source_port = plain-IsClean x.source_port q.source_port;
      target_ip = plain-IsClean x.target_ip q.target_ip;
      target_port = plain-IsClean x.target_port q.target_port;
      protocol = plain-IsClean x.protocol q.protocol;
    }

    network : (x : ForwardNetwork) → IsNetworkOf IsPlain x → IsNetworkClean x
    network x q = record {
      bridge = plain-IsClean x.bridge q.bridge;
      subnet = plain-IsClean x.subnet q.subnet;
    }

    pair : (x : ForwardPair) → IsPairOf IsPlain x → IsPairClean x
    pair x q = record {
      bridge = plain-IsClean x.bridge q.bridge;
      peer = plain-IsClean x.peer q.peer;
      local = plain-IsClean x.local q.local;
    }

pub validate-AreClean : (r : RuleSet) → Distinct r.ports → validate_rule_set r ≡ ok tt → AreClean r
validate-AreClean r d h = plain_clean r (validate-ArePlain r d h)
