-- ===== src/HostLabel/Invariant.antt =====
-- What holds of the state of `PeerSubnets`'s loop in every round.
use mathlib.Core.List.{map-append}
use network_plugin_manager.Prelude.{
  ◌≡◌, sym, ap, ◌∙◌, String, false, some, List, [], ◌∷◌, ◌++◌, map, All, any, arith,
}
use network_plugin_manager.Go.Map.{Map, keys}
use network_plugin_manager.Go.Netip.{Prefix, parse_prefix}
use network_plugin_manager.Go.Netip.Disjoint.{Disjoint, Disjoint-of_contains}
use network_plugin_manager.HostLabel.{overlaps, Peers}

-- No two prefixes of the list have an address in common.
abbrev pub AllDisjoint : List Prefix → Type 0
AllDisjoint [] = Unit
AllDisjoint (p ∷ ps) = All (Disjoint p) ps × AllDisjoint ps

AllDisjoint-concat :
    (ps : List Prefix) (q : Prefix)
    → AllDisjoint ps
    → All (λ p. Disjoint p q) ps
    → AllDisjoint (ps ++ q ∷ [])
AllDisjoint-concat [] q d h = (tt, tt)
AllDisjoint-concat (p ∷ ps) q d h = (join ps d.0, AllDisjoint-concat ps q d.1 h.1)
  where
    join : (rs : List Prefix) → All (Disjoint p) rs → All (Disjoint p) (rs ++ q ∷ [])
    join [] k = (h.0, tt)
    join (r ∷ rs) k = (k.0, join rs k.1)

Disjoint-of_none :
    (seen : List Prefix) (peer : Prefix)
    → any (λ existing. overlaps existing peer) seen ≡ false
    → All (λ p. Disjoint p peer) seen
Disjoint-of_none [] peer h = tt
Disjoint-of_none (p ∷ ps) peer h = (
  Disjoint-of_contains p peer (ground arith) (ground arith),
  Disjoint-of_none ps peer (ground arith),
)

-- A subnet's text and what it parses to.
abbrev pub Parsed : Map Prefix → Type 0
Parsed = All λ e. parse_prefix e.0 ≡ some e.1

abbrev pub prefixes : Map Prefix → List Prefix
prefixes = map λ e. e.1

Parsed-concat :
    (m : Map Prefix) (value : String) (p : Prefix)
    → Parsed m
    → parse_prefix value ≡ some p
    → Parsed (m ++ (value, p) ∷ [])
Parsed-concat [] value p h e = (e, tt)
Parsed-concat (x ∷ m) value p h e = (h.0, Parsed-concat m value p h.1 e)

-- What holds of the loop's state: the subnets are those seen behind the local one, without overlap.
pub record IsGood (self : Prefix) (s : Peers) : Type 0 where
  pub pairs : Map Prefix
  pub subnets : s.subnets ≡ keys pairs
  pub seen : s.seen ≡ self ∷ prefixes pairs
  pub parsed : Parsed pairs
  pub disjoint : AllDisjoint s.seen

pub extend-IsGood :
    (self : Prefix) (s : Peers) (value : String) (peer : Prefix)
    → IsGood self s
    → parse_prefix value ≡ some peer
    → any (λ existing. overlaps existing peer) s.seen ≡ false
    → IsGood self (record { seen = s.seen ++ peer ∷ []; subnets = s.subnets ++ value ∷ [] })
extend-IsGood self s value peer g e h = record {
  pairs = g.pairs ++ (value, peer) ∷ [];
  subnets = ap (λ xs. xs ++ value ∷ []) g.subnets ∙ sym (map-append _ g.pairs _);
  seen = ap (λ xs. xs ++ peer ∷ []) g.seen ∙ ap (◌∷◌ self) (sym (map-append _ g.pairs _));
  parsed = Parsed-concat g.pairs value peer g.parsed e;
  disjoint = AllDisjoint-concat s.seen peer g.disjoint (Disjoint-of_none s.seen peer h);
}
