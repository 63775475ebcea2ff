-- ===== src/HostPorts/Build/Published.antt =====
-- Which ports the rules publish.
use network_plugin_manager.Prelude.{
  ◌≡◌, refl, sym, subst, ◌∙◌, inl, inr, ◌⊎◌, String, true, not, ◌&&◌, Option, none, some, List, [],
  ◌∷◌, ◌==◌, ◌<>◌, ok, >>=-eq-ok, All, Any, arith, eq_iff, Bool-cases, Option-cases, Result-cases,
  if◌then◌else◌,
}
use network_plugin_manager.Go.Map.{Map, Distinct, lookup, lookup_or, put}
use network_plugin_manager.Go.Map.Values.{put-Distinct, put-All}
use network_plugin_manager.Metadata.{Host, Network, Container, Client}
use network_plugin_manager.HostLabel.{is_reference, resolve, peer_subnets}
use network_plugin_manager.HostNat.Build.{networks_by_uuid}
use network_plugin_manager.HostPorts.{PortRule, RuleSet}
use network_plugin_manager.HostPorts.Parse.{parse_port_rule}
use network_plugin_manager.HostPorts.Bridge.{BridgeConfig, bridge_config_for_network}
use network_plugin_manager.HostPorts.Build.{
  no_rules, add_forward_peers, with_forward, add_forward, add_forwards, publishes, host_ports_label,
  no_network, target_ip, add_port, add_port_rules, has_no_ports, add_container, add_publishers,
  build_rule_set,
}

-- The container runs or starts on this host, and its network lets it publish ports, or it is a container of the
-- system with a label that does.
pub record MayPublish (host : Host) (network : Network) (c : Container) : Type 0 where
  pub live : (c.state ≡ "running") ⊎ (c.state ≡ "starting")
  pub here : c.host_uuid ≡ host.uuid
  pub permitted :
      (network.host_ports ≡ true)
      ⊎ ((c.system ≡ true) × (lookup host_ports_label c.labels ≡ some "true"))

publishes-MayPublish :
    (host : Host) (network : Network) (c : Container)
    → publishes host network c ≡ true
    → MayPublish host network c
unfolding publishes lookup_or
publishes-MayPublish host network c h = record {
  live = ground (arith, h, eq_iff c.state "running", eq_iff c.state "starting");
  here = ground (arith, h, eq_iff c.host_uuid host.uuid);
  permitted = elim (Bool-cases (network.host_ports)) [
    | inl q ↦ inl q
    | inr q ↦
        inr
          (ground (arith, h, q), labelled (lookup host_ports_label c.labels) (ground (arith, h, q)))
  ];
}
  where
    labelled :
        (o : Option String)
        → ((elim o as (λ x. String) [ none ↦ "" | some v ↦ v ]) == "true") ≡ true
        → o ≡ some "true"
    labelled none e = absurd (ground (arith, e, eq_iff "" "true"))
    labelled (some v) e = ground (arith, e, eq_iff v "true")

-- An entry of the rules' ports: the container's, by one of its definitions, on its network's bridge
pub record IsPublished (host : Host) (networks : Map Network) (cs : List Container)
    (z : String × PortRule) : Type 0 where
  pub container : Container
  pub listed : Any (λ k. k ≡ container) cs
  pub allowed : MayPublish host (lookup_or no_network container.network_uuid networks) container
  pub definition : String
  pub defined : Any (λ p. p ≡ definition) container.ports
  pub key : z.0 ≡ container.external_id <> ("/" <> definition)
  pub config : BridgeConfig
  pub of_network :
      bridge_config_for_network (lookup_or no_network container.network_uuid networks) ≡ ok config
  pub ip : String
  pub address : (container.primary_ip ≡ "") ⊎ (container.primary_ip ≡ ip)
  pub parsed : PortRule
  pub parses : parse_port_rule config.bridge ip definition ≡ some parsed
  pub written : z.1 ≡ record parsed { masquerade_dnat = config.external_gateway }

add_forward_peers-ports :
    (c : Client) (host : Host) (uuid reference resolved : String) (rules r : RuleSet)
    → add_forward_peers c host uuid reference resolved rules ≡ ok r
    → r.ports ≡ rules.ports
unfolding add_forward_peers
add_forward_peers-ports c host uuid reference resolved rules r h =
    elim (Bool-cases (is_reference reference)) [
      | inr f ↦ ground (arith, h, f)
      | inl t ↦ elim (Option-cases (c.hosts)) [
        | inl e ↦ absurd (ground (arith, h, t, e))
        | inr (hosts, e) ↦ elim (Result-cases (peer_subnets reference host.uuid resolved hosts)) [
          | inl (ps, q) ↦ ground (arith, h, t, e, q)
          | inr (x, q) ↦ absurd (ground (arith, h, t, e, q))
        ]
      ]
    ]

add_forward-ports :
    (c : Client) (host : Host) (uuid : String) (config : BridgeConfig) (rules r : RuleSet)
    → add_forward c host uuid config rules ≡ ok r
    → r.ports ≡ rules.ports
unfolding add_forward
add_forward-ports c host uuid config rules r h = elim (Bool-cases (config.subnet == "")) [
  | inl e ↦ ground (arith, h, e)
  | inr f ↦ elim (Bool-cases (config.bridge == "")) [
    | inl e ↦ absurd (ground (arith, h, f, e))
    | inr g ↦ elim (Result-cases (resolve config.subnet host.labels)) [
      | inr (x, q) ↦ absurd (ground (arith, h, f, g, q))
      | inl (resolved, q) ↦
          add_forward_peers-ports c host uuid config.subnet resolved
            (with_forward uuid resolved config rules) r (ground (arith, h, f, g, q))
    ]
  ]
]

add_forwards-ports :
    (c : Client) (host : Host) (ns : Map Network) (rules r : RuleSet)
    → add_forwards c host ns rules ≡ ok r
    → r.ports ≡ rules.ports
unfolding add_forwards
add_forwards-ports c host [] rules r h = ground (arith, h)
add_forwards-ports c host (n ∷ ns) rules r h =
    let (config, p, h₁) = >>=-eq-ok (bridge_config_for_network n.1) _ h in
    let (t, q, h₂) = >>=-eq-ok (add_forward c host n.0 config rules) _ h₁ in
    add_forwards-ports c host ns t r h₂ ∙ add_forward-ports c host n.0 config rules t q

module _ (host : Host) (networks : Map Network) (every : List Container) where
  ArePublished : Map PortRule → Type 0
  ArePublished m = Distinct m × All (IsPublished host networks every) m

  -- What is known of the container whose ports are added
  record Adding (c : Container) (config : BridgeConfig) (ip : String) : Type 0 where
    listed : Any (λ k. k ≡ c) every
    allowed : publishes host (lookup_or no_network c.network_uuid networks) c ≡ true
    of_network :
        bridge_config_for_network (lookup_or no_network c.network_uuid networks) ≡ ok config
    address : (c.primary_ip ≡ "") ⊎ (c.primary_ip ≡ ip)

  add_port-ArePublished :
      (c : Container) (config : BridgeConfig) (ip port : String) (rules r : RuleSet)
      → Adding c config ip
      → Any (λ p. p ≡ port) c.ports
      → add_port config ip c.external_id port rules ≡ ok r
      → ArePublished rules.ports
      → ArePublished r.ports
  unfolding add_port ArePublished
  add_port-ArePublished c config ip port rules r k d h a =
      elim (Option-cases (parse_port_rule config.bridge ip port)) [
        | inl e ↦ absurd (ground (arith, h, e))
        | inr (rule, e) ↦
            let key = c.external_id <> ("/" <> port) in
            let final = record rule { masquerade_dnat = config.external_gateway } in
            let same : put key final rules.ports ≡ r.ports = ground (arith, h, e) in
            let entry : IsPublished host networks every (key, final) = record {
              container = c;
              listed = k.listed;
              allowed =
                  publishes-MayPublish host (lookup_or no_network c.network_uuid networks) c
                    k.allowed;
              definition = port;
              defined = d;
              key = refl;
              config = config;
              of_network = k.of_network;
              ip = ip;
              address = k.address;
              parsed = rule;
              parses = e;
              written = refl;
            } in
            subst (λ m. Distinct m × All (IsPublished host networks every) m) same
              (
                put-Distinct key final rules.ports a.0,
                put-All (IsPublished host networks every) key final rules.ports entry a.1,
              )
      ]

  add_port_rules-ArePublished :
      (c : Container) (config : BridgeConfig) (ip : String) (ports : List String)
      (rules r : RuleSet)
      → Adding c config ip
      → ((p : String) → Any (λ q. q ≡ p) ports → Any (λ q. q ≡ p) c.ports)
      → add_port_rules config ip c.external_id ports rules ≡ ok r
      → ArePublished rules.ports
      → ArePublished r.ports
  unfolding add_port_rules
  add_port_rules-ArePublished c config ip [] rules r k f h a =
      let same : rules ≡ r = ground (arith, h) in subst (λ s. ArePublished s.ports) same a
  add_port_rules-ArePublished c config ip (port ∷ ports) rules r k f h a =
      let (t, p, q) = >>=-eq-ok (add_port config ip c.external_id port rules) _ h in
      add_port_rules-ArePublished c config ip ports t r k (λ z d. f z (inr d)) q
        (add_port-ArePublished c config ip port rules t k (f port (inl refl)) p a)

  target_ip_cases :
      (address : String → String → Option String) (rules : RuleSet) (c : Container) (ip : String)
      → target_ip address rules c ≡ ok ip
      → (c.primary_ip ≡ "") ⊎ (c.primary_ip ≡ ip)
  unfolding target_ip
  target_ip_cases address rules c ip h = elim (Bool-cases (c.primary_ip == "")) [
    | inl e ↦ inl ((eq_iff c.primary_ip "").0 e)
    | inr f ↦ inr (ground (arith, h, f))
  ]

  add_container-ArePublished :
      (address : String → String → Option String) (c : Container) (rules r : RuleSet)
      → Any (λ k. k ≡ c) every
      → publishes host (lookup_or no_network c.network_uuid networks) c ≡ true
      → add_container address (lookup_or no_network c.network_uuid networks) c rules ≡ ok r
      → ArePublished rules.ports
      → ArePublished r.ports
  unfolding add_container
  add_container-ArePublished address c rules r l p h a =
      let (config, n, h₁) =
        >>=-eq-ok (bridge_config_for_network (lookup_or no_network c.network_uuid networks)) _ h in
      let (ip, t, h₂) = >>=-eq-ok (target_ip address rules c) _ h₁ in
      add_port_rules-ArePublished c config ip c.ports rules r
        (record {
          listed = l;
          allowed = p;
          of_network = n;
          address = target_ip_cases address rules c ip t;
        })
        (λ z d. d) h₂ a

  add_publishers-ArePublished :
      (address : String → String → Option String) (cs : List Container) (rules r : RuleSet)
      → ((c : Container) → Any (λ k. k ≡ c) cs → Any (λ k. k ≡ c) every)
      → add_publishers address host networks cs rules ≡ ok r
      → ArePublished rules.ports
      → ArePublished r.ports
  unfolding add_publishers
  add_publishers-ArePublished address [] rules r f h a =
      let same : rules ≡ r = ground (arith, h) in subst (λ s. ArePublished s.ports) same a
  add_publishers-ArePublished address (c ∷ cs) rules r f h a =
      let chosen =
        publishes host (lookup_or no_network c.network_uuid networks) c && not (has_no_ports c) in
      let (t, p, q) =
        >>=-eq-ok
          (if chosen
            then add_container address (lookup_or no_network c.network_uuid networks) c rules
            else ok rules)
          _ h in
      let b : ArePublished t.ports = elim (Bool-cases chosen) [
        | inr e ↦
            let same : rules ≡ t = ground (arith, p, e) in subst (λ s. ArePublished s.ports) same a
        | inl e ↦
            add_container-ArePublished address c rules t (f c (inl refl)) (ground (arith, e))
              (ground (arith, p, e)) a
      ] in
      add_publishers-ArePublished address cs t r (λ k l. f k (inr l)) q b

-- Rules that are built have no key twice, and every port in them is published by a container of the
-- metadata that runs or starts on this host and whose network lets it publish ports, or which is of the
-- system with a label that does; its rule is what one of the container's
-- definitions says, on the bridge of its network, towards the container's own address if it has one.
pub build_rule_set-ArePublished :
    (address : String → String → Option String) (c : Client) (host : Host) (networks : List Network)
    (containers : List Container) (rules : RuleSet)
    → c.networks ≡ some networks
    → c.containers ≡ some containers
    → build_rule_set address c host ≡ ok rules
    → Distinct rules.ports
      × All (IsPublished host (networks_by_uuid networks []) containers) rules.ports
unfolding build_rule_set ArePublished
build_rule_set-ArePublished address c host networks containers rules n k h =
    let (t, p, q) =
      >>=-eq-ok {B = RuleSet} (add_forwards c host (networks_by_uuid networks []) no_rules)
        (λ s. add_publishers address host (networks_by_uuid networks []) containers s)
        {final = rules} (ground (arith, h, n, k)) in
    let none_yet : t.ports ≡ [] =
      add_forwards-ports c host (networks_by_uuid networks []) no_rules t p in
    add_publishers-ArePublished host (networks_by_uuid networks []) containers address containers t
      rules (λ z l. l) q
      (subst (ArePublished host (networks_by_uuid networks []) containers) (sym none_yet) (tt, tt))
