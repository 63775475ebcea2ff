-- ===== src/HostLabel/Overlap.antt =====
-- The subnets that `PeerSubnets` returns do not overlap, and no active peer is left out.
use mathlib.Core.List.{Permᴰ}
use network_plugin_manager.Prelude.{
  ◌≡◌, refl, sym, ap, subst, ◌≢◌, String, Bool, true, false, not, ◌||◌, some, List, [], ◌∷◌, ◌++◌,
  ◌==◌, ok, >>=-eq-ok, Bool-cases, Option-cases, Result-cases, any, arith, eq_iff, inl, inr, Any,
  ◌⊎◌,
}
use network_plugin_manager.Go.Map.{Map, keys, member, member-append}
use network_plugin_manager.Go.Netip.{Prefix, parse_prefix}
use network_plugin_manager.Go.Sort.{sort, sort_permᴰ, member-sort}
use network_plugin_manager.Metadata.{Host}
use network_plugin_manager.HostLabel.{
  is_reference, resolve, overlaps, Peers, add_peer, add_peers, peer_subnets,
}
use network_plugin_manager.HostLabel.Invariant.{
  AllDisjoint, Parsed, prefixes, IsGood, extend-IsGood,
}

module _ (reference local_uuid : String) where
  -- The local host and hosts that are not active.
  abbrev pub is_skipped : Host → Bool
  is_skipped host = host.uuid == local_uuid || not (host.state == "active")

  add_peer_cases :
      (host : Host) (s t : Peers)
      → add_peer reference local_uuid host s ≡ ok t
      → ((is_skipped host ≡ true) × (t ≡ s))
        ⊎ ((value : String) × (peer : Prefix) × (resolve reference host.labels ≡ ok value)
            × (parse_prefix value ≡ some peer)
            × (any (λ existing. overlaps existing peer) s.seen ≡ false)
            × (t ≡ record { seen = s.seen ++ peer ∷ []; subnets = s.subnets ++ value ∷ [] }))
  unfolding add_peer
  add_peer_cases host s t h = elim (Bool-cases (is_skipped host)) [
    | inl skip ↦ inl (skip, ground arith)
    | inr taken ↦ elim (Result-cases (resolve reference host.labels)) [
      | inr (e, r) ↦ absurd (ground arith)
      | inl (value, r) ↦ elim (Option-cases (parse_prefix value)) [
        | inl e ↦ absurd (ground arith)
        | inr (peer, e) ↦ inr (value, peer, r, e, ground arith, ground arith)
      ]
    ]
  ]

  module _ (self : Prefix) where
    add_peer-IsGood :
        (host : Host) (s t : Peers)
        → IsGood self s
        → add_peer reference local_uuid host s ≡ ok t
        → IsGood self t
    add_peer-IsGood host s t g h = elim (add_peer_cases host s t h) [
      | inl (skip, e) ↦ subst (IsGood self) (sym e) g
      | inr (value, peer, r, e, apart, f) ↦
          subst (IsGood self) (sym f) (extend-IsGood self s value peer g e apart)
    ]

    add_peers-IsGood :
        (hosts : List Host) (s t : Peers)
        → IsGood self s
        → add_peers reference local_uuid hosts s ≡ ok t
        → IsGood self t
    unfolding add_peers
    add_peers-IsGood [] s t g h = subst (IsGood self) (ground arith) g
    add_peers-IsGood (host ∷ hosts) s t g h =
        let (u, a, r) = >>=-eq-ok (add_peer reference local_uuid host s) _ h in
        add_peers-IsGood hosts u t (add_peer-IsGood host s u g a) r

  member-concat :
      (v w : String) (xs : List String) → member v xs ≡ true → member v (xs ++ w ∷ []) ≡ true
  member-concat v w xs h = ground (arith, member-append v xs (w ∷ []))

  member-last : (v : String) (xs : List String) → member v (xs ++ v ∷ []) ≡ true
  unfolding member
  member-last v xs = ground (arith, member-append v xs (v ∷ []), eq_iff v v)

  -- What is in the list stays there.
  add_peers-member :
      (hosts : List Host) (s t : Peers) (v : String)
      → member v s.subnets ≡ true
      → add_peers reference local_uuid hosts s ≡ ok t
      → member v t.subnets ≡ true
  unfolding add_peers
  add_peers-member [] s t v m h = ground arith
  add_peers-member (host ∷ hosts) s t v m h =
      let (u, a, r) = >>=-eq-ok (add_peer reference local_uuid host s) _ h in
      elim (add_peer_cases host s u a) [
        | inl (skip, e) ↦ add_peers-member hosts u t v (rw e m) r
        | inr (value, peer, q, e, apart, f) ↦
            add_peers-member hosts u t v (rw f (member-concat v value s.subnets m)) r
      ]

  add_peers-active :
      (hosts : List Host) (s t : Peers) (host : Host) (v : String)
      → Any (λ i. i ≡ host) hosts
      → is_skipped host ≡ false
      → resolve reference host.labels ≡ ok v
      → add_peers reference local_uuid hosts s ≡ ok t
      → member v t.subnets ≡ true
  unfolding add_peers
  add_peers-active [] s t host v l k q h = elim l [ ]
  add_peers-active (i ∷ hosts) s t host v (inl same) k q h =
      let (u, a, r) = >>=-eq-ok (add_peer reference local_uuid i s) _ h in
      elim (add_peer_cases i s u a) [
        | inl (skip, e) ↦ absurd (cc (ap is_skipped same))
        | inr (value, peer, q', e, apart, f) ↦
            let w : value ≡ v =
              ground (arith, ap (λ (c : Host). resolve reference c.labels) same) in
            add_peers-member hosts u t v (rw (f, w) (member-last v s.subnets)) r
      ]
  add_peers-active (i ∷ hosts) s t host v (inr l) k q h =
      let (u, a, r) = >>=-eq-ok (add_peer reference local_uuid i s) _ h in
      add_peers-active hosts u t host v l k q r

-- The result lists, sorted, one subnet for each pair of a text and its prefix.
peer_subnets_parts :
    (reference local_uuid local_subnet : String) (hosts : List Host) (subnets : List String)
    → is_reference reference ≡ true
    → peer_subnets reference local_uuid local_subnet hosts ≡ ok subnets
    → (self : Prefix) × (t : Peers) × (parse_prefix local_subnet ≡ some self)
      × (add_peers reference local_uuid hosts (record { seen = self ∷ []; subnets = [] }) ≡ ok t)
      × (subnets ≡ sort t.subnets)
unfolding peer_subnets
peer_subnets_parts reference local_uuid local_subnet hosts subnets i h =
    elim (Option-cases (parse_prefix local_subnet)) [
      | inl e ↦ absurd (ground arith)
      | inr (self, e) ↦
          elim (Result-cases
            (add_peers reference local_uuid hosts (record { seen = self ∷ []; subnets = [] }))) [
              | inl (t, a) ↦ (self, t, e, a, ground arith)
              | inr (x, a) ↦ absurd (ground arith)
            ]
    ]

-- What `PeerSubnets` may return for a local subnet: texts that are IPv4 prefixes of which no two,
-- the local one included, have an address in common.
pub record AreApart (local_subnet : String) (subnets : List String) : Type 0 where
  pub self : Prefix
  pub self_parsed : parse_prefix local_subnet ≡ some self
  pub pairs : Map Prefix
  pub listed : Permᴰ subnets (keys pairs)
  pub parsed : Parsed pairs
  pub disjoint : AllDisjoint (self ∷ prefixes pairs)

-- The subnets returned for a host label are IPv4 prefixes, and neither two of them nor one of them
-- and the local subnet have an address in common.
pub peer_subnets-AreApart :
    (reference local_uuid local_subnet : String) (hosts : List Host) (subnets : List String)
    → is_reference reference ≡ true
    → peer_subnets reference local_uuid local_subnet hosts ≡ ok subnets
    → AreApart local_subnet subnets
peer_subnets-AreApart reference local_uuid local_subnet hosts subnets i h =
    let (self, t, e, a, f) =
      peer_subnets_parts reference local_uuid local_subnet hosts subnets i h in
    let start : IsGood self (record { seen = self ∷ []; subnets = [] }) = record {
      pairs = [];
      subnets = refl;
      seen = refl;
      parsed = tt;
      disjoint = (tt, tt);
    } in
    let g = add_peers-IsGood reference local_uuid self hosts _ t start a in
    record {
      self = self;
      self_parsed = e;
      pairs = g.pairs;
      listed =
          subst (λ xs. Permᴰ xs (keys g.pairs)) (sym f)
            (subst (λ xs. Permᴰ (sort t.subnets) xs) g.subnets (sort_permᴰ t.subnets));
      parsed = g.parsed;
      disjoint = subst AllDisjoint g.seen g.disjoint;
    }

-- Every active host but the local one is a peer: its subnet is among those returned.
pub peer_subnets_active :
    (reference local_uuid local_subnet : String) (hosts : List Host) (subnets : List String)
    (host : Host) (v : String)
    → is_reference reference ≡ true
    → peer_subnets reference local_uuid local_subnet hosts ≡ ok subnets
    → Any (λ i. i ≡ host) hosts
    → host.state ≡ "active"
    → host.uuid ≢ local_uuid
    → resolve reference host.labels ≡ ok v
    → member v subnets ≡ true
peer_subnets_active reference local_uuid local_subnet hosts subnets host v i h l s n q =
    let (self, t, e, a, f) =
      peer_subnets_parts reference local_uuid local_subnet hosts subnets i h in
    let kept : is_skipped reference local_uuid host ≡ false =
      ground (arith, eq_iff host.uuid local_uuid, eq_iff host.state "active") in
    rw f
      (member-sort v t.subnets (add_peers-active reference local_uuid hosts _ t host v l kept q a))
