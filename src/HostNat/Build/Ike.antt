-- ===== src/HostNat/Build/Ike.antt =====
-- The rules for IKE belong to IPsec containers of this host.
use network_plugin_manager.Prelude.{
  ◌≡◌, ◌≢◌, refl, ◌&&◌, Option, none, Any, inl, inr, ◌⊎◌, String, true, some, List, [], ◌∷◌, ◌==◌,
  ◌<>◌, All, arith, eq_iff, Bool-cases,
}
use network_plugin_manager.Go.Map.{Map, Distinct, lookup, lookup_or, put}
use network_plugin_manager.Go.Map.Values.{put-Distinct, put-All}
use network_plugin_manager.Metadata.{Host, Network, Container, Client}
use network_plugin_manager.HostNat.{IkePortSnatRule}
use network_plugin_manager.HostNat.Build.{
  is_ipsec_overlay_container, is_ike_container, container_bridge, ike_rule, add_ike_ports,
  add_ike_containers,
}

-- A container of this host that runs IPsec, runs or starts, and has an address
pub record IsIpsecOn (host : Host) (k : Container) : Type 0 where
  pub here : k.host_uuid ≡ host.uuid
  pub ipsec :
      (lookup "io.pasturestack.component" k.labels ≡ some "ipsec-overlay")
      ⊎ ((k.stack_name ≡ "ipsec") × (k.service_name ≡ "ipsec"))
  pub live : (k.state ≡ "running") ⊎ (k.state ≡ "starting")
  pub has_address : k.primary_ip ≢ ""

-- A rule of such a container: from its address to the host's, on one of the two ports of IKE.
pub record IsIkeOf (c : Client) (host : Host) (networks : Map Network)
    (e : String × IkePortSnatRule) : Type 0 where
  pub containers : List Container
  pub asked : c.containers ≡ some containers
  pub container : Container
  pub listed : Any (λ k. k ≡ container) containers
  pub of : IsIpsecOn host container
  pub key : e.0 ≡ container.external_id <> ("/" <> e.1.port)
  pub port : (e.1.port ≡ "500") ⊎ (e.1.port ≡ "4500")
  pub from : e.1.source_ip ≡ container.primary_ip
  pub to_host : e.1.host_ip ≡ host.agent_ip
  pub has_host : host.agent_ip ≢ ""
  pub bridge : e.1.bridge ≡ container_bridge networks container

is_ike-IsIpsecOn : (host : Host) (k : Container) → is_ike_container host k ≡ true → IsIpsecOn host k
unfolding is_ike_container is_ipsec_overlay_container lookup_or
is_ike-IsIpsecOn host k h = record {
  here = ground (arith, h, eq_iff k.host_uuid host.uuid);
  ipsec = elim (Bool-cases (k.stack_name == "ipsec" && k.service_name == "ipsec")) [
    | inl q ↦ inr (
      ground (arith, q, eq_iff k.stack_name "ipsec"),
      ground (arith, q, eq_iff k.service_name "ipsec"),
    )
    | inr q ↦ inl (labelled (lookup "io.pasturestack.component" k.labels) (ground (arith, h, q)))
  ];
  live = ground (arith, h, eq_iff k.state "running", eq_iff k.state "starting");
  has_address = λ e. ground (arith, h, e, eq_iff k.primary_ip "");
}
  where
    labelled :
        (o : Option String)
        → ((elim o as (λ x. String) [ none ↦ "" | some v ↦ v ]) == "ipsec-overlay") ≡ true
        → o ≡ some "ipsec-overlay"
    labelled none e = absurd (ground (arith, e, eq_iff "" "ipsec-overlay"))
    labelled (some v) e = ground (arith, e, eq_iff v "ipsec-overlay")

module _ (c : Client) (host : Host) (networks : Map Network) (every : List Container)
    (asked : c.containers ≡ some every) (has_host : host.agent_ip ≢ "") where
  abbrev pub AreIkeOf : Map IkePortSnatRule → Type 0
  AreIkeOf m = Distinct m × All (IsIkeOf c host networks) m

  ike_rule-IsIkeOf :
      (k : Container) (port : String)
      → Any (λ x. x ≡ k) every
      → IsIpsecOn host k
      → (port ≡ "500") ⊎ (port ≡ "4500")
      → IsIkeOf c host networks
          (k.external_id <> ("/" <> port), ike_rule host (container_bridge networks k) k port)
  ike_rule-IsIkeOf k port l o p = record {
    containers = every;
    asked = asked;
    container = k;
    listed = l;
    of = o;
    key = refl;
    port = p;
    from = refl;
    to_host = refl;
    has_host = has_host;
    bridge = refl;
  }

  add_ike_ports-built :
      (k : Container) (m : Map IkePortSnatRule)
      → Any (λ x. x ≡ k) every
      → IsIpsecOn host k
      → AreIkeOf m
      → AreIkeOf (add_ike_ports host (container_bridge networks k) k m)
  unfolding add_ike_ports
  add_ike_ports-built k m l o a =
      let first = ike_rule host (container_bridge networks k) k "500" in
      let second = ike_rule host (container_bridge networks k) k "4500" in
      let low = k.external_id <> ("/" <> "500") in
      let high = k.external_id <> ("/" <> "4500") in
      (
        put-Distinct high second (put low first m) (put-Distinct low first m a.0),
        put-All (IsIkeOf c host networks) high second (put low first m)
            (ike_rule-IsIkeOf k "4500" l o (inr refl))
            (put-All (IsIkeOf c host networks) low first m (ike_rule-IsIkeOf k "500" l o (inl refl))
              a.1),
      )

  pub add_ike_containers-built :
      (cs : List Container) (m : Map IkePortSnatRule)
      → ((k : Container) → Any (λ x. x ≡ k) cs → Any (λ x. x ≡ k) every)
      → AreIkeOf m
      → AreIkeOf (add_ike_containers host networks cs m)
  unfolding add_ike_containers
  add_ike_containers-built [] m f a = a
  add_ike_containers-built (k ∷ cs) m f a = elim (Bool-cases (is_ike_container host k)) [
    | inr q ↦ rw (q) (add_ike_containers-built cs m (λ x l. f x (inr l)) a)
    | inl q ↦ rw (q) (
        add_ike_containers-built cs _ (λ x l. f x (inr l))
          (add_ike_ports-built k m (f k (inl refl)) (is_ike-IsIpsecOn host k q) a))
  ]
