-- ===== src/HostLabel.antt =====
-- internal/hostlabel/resolve.go: subnets that a network takes from a label of each host.
pub mod Overlap
pub mod Invariant
use network_plugin_manager.Prelude.{
  ℕ, String, Bool, true, false, not, ◌&&◌, ◌||◌, Option, none, some, List, [], ◌∷◌, ◌++◌, map, ◌==◌,
  starts_with, Result, ok, err, ◌>>=◌, ◌>>◌, refuse_if, eqb, any, if◌then◌else◌,
}
use network_plugin_manager.Go.Text.{trim_prefix, trim_space, any_char, strip_prefix}
use network_plugin_manager.Go.Map.{Map, lookup, lookup_or}
use network_plugin_manager.Go.Netip.{Prefix, parse_prefix, contains, is_canonical_cidr}
use network_plugin_manager.Go.Sort.{sort}
use network_plugin_manager.Metadata.{Host}

pub data Error : Type 0 where
  invalid_reference missing_label not_canonical : Error
  invalid_local unresolved_peer invalid_peer overlapping_peer : Error

abbrev pub reference_prefix : String
reference_prefix = "__host_label__:"

unfoldable pub is_reference : String → Bool
is_reference value = starts_with value reference_prefix

abbrev is_key_space : ℕ → Bool
is_key_space c = eqb c 32 || eqb c 9 || eqb c 13 || eqb c 10

unfoldable pub resolve_key : String → Map String → Result Error String
resolve_key key labels =
    if key == "" || any_char is_key_space key
    then err invalid_reference
    else let resolved = trim_space (lookup_or "" key labels) in
      if resolved == ""
      then err missing_label
      else if is_canonical_cidr resolved
      then ok resolved
      else err not_canonical

unfoldable pub resolve : String → Map String → Result Error String
resolve value labels =
    if not (starts_with value reference_prefix)
    then ok value
    else resolve_key (trim_space (trim_prefix reference_prefix value)) labels

abbrev pub overlaps : Prefix → Prefix → Bool
overlaps existing peer = contains existing peer.addr || contains peer existing.addr

-- What the loop of `PeerSubnets` keeps: `seen` and `peers`.
pub record Peers : Type 0 where
  pub seen : List Prefix
  pub subnets : List String

-- One round of the loop.
unfoldable pub add_peer : String → String → Host → Peers → Result Error Peers
add_peer reference local_uuid host s =
    if host.uuid == local_uuid || not (host.state == "active")
    then ok s
    else elim (resolve reference host.labels) [
      | err e ↦ err unresolved_peer
      | ok value ↦ elim (parse_prefix value) [
        | none ↦ err invalid_peer
        | some peer ↦
            if any (λ existing. overlaps existing peer) s.seen
            then err overlapping_peer
            else ok (record { seen = s.seen ++ peer ∷ []; subnets = s.subnets ++ value ∷ [] })
      ]
    ]

unfoldable pub add_peers : String → String → List Host → Peers → Result Error Peers
add_peers reference local_uuid [] s = ok s
add_peers reference local_uuid (host ∷ hosts) s =
    add_peer reference local_uuid host s >>= λ t. add_peers reference local_uuid hosts t

unfoldable pub peer_subnets : String → String → String → List Host → Result Error (List String)
unfolding add_peers add_peer
peer_subnets reference local_uuid local_subnet hosts =
    if not (is_reference reference) then ok [] else elim (parse_prefix local_subnet) [
      | none ↦ err invalid_local
      | some self ↦ do
        s ← add_peers reference local_uuid hosts (record { seen = self ∷ []; subnets = [] })
        ok (sort s.subnets)
    ]
