-- ===== src/HostNat/Build/Built.antt =====
-- What the rules that are built from the metadata are like.
use network_plugin_manager.Prelude.{
  ◌≡◌, subst, inl, inr, some, List, [], ◌==◌, ok, ◌>>=◌, >>=-eq-ok, All, arith, eq_iff, Bool-cases,
  Option-cases,
}
use network_plugin_manager.Go.Map.{Map, Distinct}
use network_plugin_manager.Metadata.{Host, Network, Client}
use network_plugin_manager.HostNat.{IkePortSnatRule, RuleSet}
use network_plugin_manager.HostNat.Script.Lines.{IsGoMaps}
use network_plugin_manager.HostNat.Build.{
  add_networks, networks_by_uuid, add_ike_containers, add_ike_snat_rules, build_rules,
}
use network_plugin_manager.HostNat.Build.Masquerade.{IsMasqOf, add_networks-built}
use network_plugin_manager.HostNat.Build.Ike.{IsIkeOf, add_ike_containers-built}

-- The rules that the manager builds from the metadata.
pub record IsBuilt (c : Client) (host : Host) (rules : RuleSet) : Type 0 where
  pub networks : List Network
  pub asked : c.networks ≡ some networks
  pub maps : IsGoMaps rules
  pub masq : All (IsMasqOf c host networks) rules.masq
  pub ike : All (IsIkeOf c host (networks_by_uuid networks [])) rules.ike

add_ike_snat_rules-built :
    (c : Client) (host : Host) (networks : Map Network) (ike : Map IkePortSnatRule)
    → add_ike_snat_rules c host networks ≡ ok ike
    → Distinct ike × All (IsIkeOf c host networks) ike
unfolding add_ike_snat_rules
add_ike_snat_rules-built c host networks ike h = elim (Bool-cases (host.agent_ip == "")) [
  | inl e ↦
      let same : [] ≡ ike = ground (arith, e) in
      subst (λ v. Distinct v × All (IsIkeOf c host networks) v) same (tt, tt)
  | inr f ↦ elim (Option-cases (c.containers)) [
    | inl e ↦ absurd (ground (arith, e, f))
    | inr (cs, e) ↦
        let same : add_ike_containers host networks cs [] ≡ ike = ground (arith, e, f) in
        subst (λ v. Distinct v × All (IsIkeOf c host networks) v) same
          (add_ike_containers-built c host networks cs e
            (λ z. ground (arith, z, f, eq_iff host.agent_ip "")) cs [] (λ k l. l) (tt, tt))
  ]
]

-- Rules that are built have no key twice. Each masquerading rule stands under the identifier of a network whose
-- configuration asks for it, with that bridge and the subnet that its reference resolves to, and with no peers
-- or those of its host label. Each IKE rule belongs to an IPsec container that runs or starts on this host, and
-- goes from its address to the host's own, on port 500 or 4500.
pub build_rules-IsBuilt :
    (c : Client) (host : Host) (rules : RuleSet)
    → build_rules c host ≡ ok rules
    → IsBuilt c host rules
unfolding build_rules
build_rules-IsBuilt c host rules h = elim (Option-cases (c.networks)) [
  | inl e ↦ absurd (ground (arith, e))
  | inr (ns, e) ↦
      let (masq, m, h₁) =
        >>=-eq-ok {B = RuleSet} (add_networks c host ns [])
          (λ masq. add_ike_snat_rules c host (networks_by_uuid ns []) >>= λ ike.
            ok (record { masq = masq; ike = ike }))
          {final = rules} (ground (arith, e)) in
      let (ike, i, h₂) =
        >>=-eq-ok {B = RuleSet} (add_ike_snat_rules c host (networks_by_uuid ns []))
          (λ ike. ok (record { masq = masq; ike = ike })) h₁ in
      let bm = add_networks-built c host ns ns [] masq (λ n l. l) m (tt, tt) in
      let bi = add_ike_snat_rules-built c host (networks_by_uuid ns []) ike i in
      let same : record { masq = masq; ike = ike } ≡ rules = ground (arith, h₂) in
      subst (λ r. IsBuilt c host r) same
        (record {
          networks = ns;
          asked = e;
          maps = record { masq = bm.0; ike = bi.0 };
          masq = bm.1;
          ike = bi.1;
        })
]
