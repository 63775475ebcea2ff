-- ===== src/HostNat/Build/Masquerade.antt =====
-- The masquerading rules belong to networks whose configuration asks for them.
use network_plugin_manager.Prelude.{
  ◌≡◌, ◌≢◌, refl, sym, ap, subst, Option, none, Any, inl, inr, ◌⊎◌, String, true, false, some, List,
  [], ◌∷◌, ◌==◌, ok, >>=-eq-ok, All, arith, eq_iff, Bool-cases, Option-cases, Result-cases,
}
use network_plugin_manager.Go.Map.{Map, Distinct, lookup, put}
use network_plugin_manager.Go.Map.Values.{put-Distinct, put-All}
use network_plugin_manager.Metadata.{
  Json, null, number, array, bool, text, object, as_object, as_text, as_bool, cni_config, Host,
  Network, Client,
}
use network_plugin_manager.HostLabel.{is_reference, resolve, peer_subnets}
use network_plugin_manager.HostNat.{MasqRule}
use network_plugin_manager.HostNat.Build.{
  is_bridge_cni_type, is_nat_entry, first_rule, network_to_rule, peers_of, complete_rule,
  add_network, add_networks,
}

-- The network's configuration has an entry of a bridge plugin that asks for the host's address translation, with
-- this subnet and this bridge.
pub record IsNatNetwork (n : Network) (subnet bridge : String) : Type 0 where
  pub entry : String × Json
  pub listed : Any (λ e. e ≡ entry) (cni_config n)
  pub translated : lookup "hostNat" (as_object (some entry.1)) ≡ some (bool true)
  pub kind :
      (lookup "type" (as_object (some entry.1)) ≡ some (text "pasture-bridge"))
      ⊎ (lookup "type" (as_object (some entry.1)) ≡ some (text "rancher-bridge"))
  pub on_bridge : lookup "bridge" (as_object (some entry.1)) ≡ some (text bridge)
  pub of_subnet : lookup "bridgeSubnet" (as_object (some entry.1)) ≡ some (text subnet)
  pub has_bridge : bridge ≢ ""
  pub has_subnet : subnet ≢ ""

-- A rule of a network that is translated: its peers are those that the host label gives, and there are none
-- without one.
pub record IsMasqOf (c : Client) (host : Host) (networks : List Network) (e : String × MasqRule)
    : Type 0 where
  pub network : Network
  pub listed : Any (λ n. n ≡ network) networks
  pub key : e.0 ≡ network.uuid
  pub reference : String
  pub translated : IsNatNetwork network reference e.1.bridge
  pub resolved : resolve reference host.labels ≡ ok e.1.subnet
  pub peers :
      ((is_reference reference ≡ false) × (e.1.peers ≡ []))
      ⊎ ((hosts : List Host) × (c.hosts ≡ some hosts)
          × (peer_subnets reference host.uuid e.1.subnet hosts ≡ ok e.1.peers))

text-of : (o : Option Json) (s : String) → as_text o ≡ s → s ≢ "" → o ≡ some (text s)
text-of (some (text t)) s e k = ap (λ x. some (text x)) e
text-of none s e k = absurd (k (sym e))
text-of (some null) s e k = absurd (k (sym e))
text-of (some number) s e k = absurd (k (sym e))
text-of (some array) s e k = absurd (k (sym e))
text-of (some (bool b)) s e k = absurd (k (sym e))
text-of (some (object fs)) s e k = absurd (k (sym e))

true-of : (o : Option Json) → as_bool o ≡ true → o ≡ some (bool true)
true-of (some (bool b)) e = ap (λ x. some (bool x)) e
true-of none e = absurd (ground (arith, e))
true-of (some null) e = absurd (ground (arith, e))
true-of (some number) e = absurd (ground (arith, e))
true-of (some array) e = absurd (ground (arith, e))
true-of (some (text t)) e = absurd (ground (arith, e))
true-of (some (object fs)) e = absurd (ground (arith, e))

entry-IsNatNetwork :
    (n : Network) (e : String × Json)
    → Any (λ x. x ≡ e) (cni_config n)
    → is_nat_entry (as_object (some e.1)) ≡ true
    → IsNatNetwork n
        (as_text (lookup "bridgeSubnet" (as_object (some e.1))))
        (as_text (lookup "bridge" (as_object (some e.1))))
unfolding is_bridge_cni_type
entry-IsNatNetwork n e l h =
    let props = as_object (some e.1) in
    let b : as_text (lookup "bridge" props) ≢ "" =
      λ q. ground (arith, h, q, eq_iff (as_text (lookup "bridge" props)) "") in
    let s : as_text (lookup "bridgeSubnet" props) ≢ "" =
      λ q. ground (arith, h, q, eq_iff (as_text (lookup "bridgeSubnet" props)) "") in
    record {
      entry = e;
      listed = l;
      translated = true-of (lookup "hostNat" props) (ground (arith, h));
      kind = elim (Bool-cases (as_text (lookup "type" props) == "pasture-bridge")) [
        | inl q ↦ inl (
            text-of (lookup "type" props) "pasture-bridge"
              ((eq_iff (as_text (lookup "type" props)) "pasture-bridge").0 q)
              (λ z. ground (arith, z, eq_iff "pasture-bridge" "")))
        | inr q ↦ inr (
            text-of (lookup "type" props) "rancher-bridge"
              ((eq_iff (as_text (lookup "type" props)) "rancher-bridge").0 (ground (arith, h, q)))
              (λ z. ground (arith, z, eq_iff "rancher-bridge" "")))
      ];
      on_bridge = text-of (lookup "bridge" props) (as_text (lookup "bridge" props)) refl b;
      of_subnet =
          text-of (lookup "bridgeSubnet" props) (as_text (lookup "bridgeSubnet" props)) refl s;
      has_bridge = b;
      has_subnet = s;
    }

first_rule-IsNatNetwork :
    (n : Network) (conf : Map Json) (rule : MasqRule)
    → ((e : String × Json) → Any (λ x. x ≡ e) conf → Any (λ x. x ≡ e) (cni_config n))
    → first_rule conf ≡ some rule
    → IsNatNetwork n rule.subnet rule.bridge
unfolding first_rule
first_rule-IsNatNetwork n [] rule f h = absurd (ground (arith, h))
first_rule-IsNatNetwork n (e ∷ conf) rule f h =
    elim (Bool-cases (is_nat_entry (as_object (some e.1)))) [
      | inr q ↦ first_rule-IsNatNetwork n conf rule (λ x l. f x (inr l)) (ground (arith, h, q))
      | inl q ↦
          let same : some (record {
            subnet = as_text (lookup "bridgeSubnet" (as_object (some e.1)));
            bridge = as_text (lookup "bridge" (as_object (some e.1)));
            peers = [];
          })
              ≡ some rule =
            ground (arith, h, q) in
          let s : as_text (lookup "bridgeSubnet" (as_object (some e.1))) ≡ rule.subnet =
            ground (arith, same) in
          let b : as_text (lookup "bridge" (as_object (some e.1))) ≡ rule.bridge =
            ground (arith, same) in
          subst (λ x. IsNatNetwork n x rule.bridge) s
            (subst (λ x. IsNatNetwork n (as_text (lookup "bridgeSubnet" (as_object (some e.1)))) x)
              b (entry-IsNatNetwork n e (f e (inl refl)) q))
    ]

network_to_rule-IsNatNetwork :
    (n : Network) (rule : MasqRule)
    → network_to_rule n ≡ some rule
    → IsNatNetwork n rule.subnet rule.bridge
unfolding network_to_rule
network_to_rule-IsNatNetwork n rule h = first_rule-IsNatNetwork n (cni_config n) rule (λ e l. l) h

peers_of_cases :
    (c : Client) (host : Host) (reference resolved : String) (peers : List String)
    → peers_of c host reference resolved ≡ ok peers
    → ((is_reference reference ≡ false) × (peers ≡ []))
      ⊎ ((hosts : List Host) × (c.hosts ≡ some hosts)
          × (peer_subnets reference host.uuid resolved hosts ≡ ok peers))
unfolding peers_of
peers_of_cases c host reference resolved peers h = elim (Bool-cases (is_reference reference)) [
  | inr f ↦ inl (f, ground (arith, f))
  | inl t ↦ elim (Option-cases (c.hosts)) [
    | inl e ↦ absurd (ground (arith, t, e))
    | inr (hosts, e) ↦ elim (Result-cases (peer_subnets reference host.uuid resolved hosts)) [
      | inl (ps, q) ↦ inr (hosts, e, ground (arith, t, e, q))
      | inr (x, q) ↦ absurd (ground (arith, t, e, q))
    ]
  ]
]

module _ (c : Client) (host : Host) (every : List Network) where
  abbrev pub AreMasqOf : Map MasqRule → Type 0
  AreMasqOf m = Distinct m × All (IsMasqOf c host every) m

  complete_rule-IsMasqOf :
      (n : Network) (rule r : MasqRule)
      → Any (λ x. x ≡ n) every
      → network_to_rule n ≡ some rule
      → complete_rule c host rule ≡ ok r
      → IsMasqOf c host every (n.uuid, r)
  unfolding complete_rule
  complete_rule-IsMasqOf n rule r l k h = elim (Result-cases (resolve rule.subnet host.labels)) [
    | inr (x, e) ↦ absurd (ground (arith, e))
    | inl (resolved, e) ↦
        let (peers, p, q) =
          >>=-eq-ok {B = MasqRule} (peers_of c host rule.subnet resolved)
            (λ ps. ok (record { subnet = resolved; bridge = rule.bridge; peers = ps })) {final = r}
            (ground (arith, e)) in
        let s : r.subnet ≡ resolved = ground (arith, q) in
        let t : r.peers ≡ peers = ground (arith, q) in
        let b : rule.bridge ≡ r.bridge = ground (arith, q) in
        record {
          network = n;
          listed = l;
          key = refl;
          reference = rule.subnet;
          translated = subst (IsNatNetwork n rule.subnet) b (network_to_rule-IsNatNetwork n rule k);
          resolved = ground (arith, e, s);
          peers = peers_of_cases c host rule.subnet r.subnet r.peers (ground (arith, s, t, p));
        }
  ]

  add_network-built :
      (n : Network) (m r : Map MasqRule)
      → Any (λ x. x ≡ n) every
      → add_network c host n m ≡ ok r
      → AreMasqOf m
      → AreMasqOf r
  unfolding add_network
  add_network-built n m r l h a = elim (Option-cases (network_to_rule n)) [
    | inl e ↦ let same : m ≡ r = ground (arith, e) in subst AreMasqOf same a
    | inr (rule, e) ↦
        let (x, p, q) =
          >>=-eq-ok (complete_rule c host rule) (λ y. ok (put n.uuid y m)) {final = r}
            (ground (arith, e)) in
        let same : put n.uuid x m ≡ r = ground (arith, q) in
        subst AreMasqOf same (
          put-Distinct n.uuid x m a.0,
          put-All (IsMasqOf c host every) n.uuid x m (complete_rule-IsMasqOf n rule x l e p) a.1,
        )
  ]

  pub add_networks-built :
      (ns : List Network) (m r : Map MasqRule)
      → ((n : Network) → Any (λ x. x ≡ n) ns → Any (λ x. x ≡ n) every)
      → add_networks c host ns m ≡ ok r
      → AreMasqOf m
      → AreMasqOf r
  unfolding add_networks
  add_networks-built [] m r f h a = let same : m ≡ r = ground arith in subst AreMasqOf same a
  add_networks-built (n ∷ ns) m r f h a =
      let (t, p, q) = >>=-eq-ok (add_network c host n m) (λ s. add_networks c host ns s) h in
      add_networks-built ns t r (λ k l. f k (inr l)) q
        (add_network-built n m t (f n (inl refl)) p a)
