-- ===== src/Firewall/Frontend.antt =====
-- Which xtables frontend Docker's live NAT chain is in: `DetectDockerXTFrontend` and the two functions
-- that choose a command to inspect with, of internal/firewall/backend.go.
pub mod Ownership
pub mod Stale
use network_plugin_manager.Prelude.{
  String, Bool, true, false, not, ◌&&◌, ◌||◌, Option, none, some, List, [], ◌∷◌, ◌==◌, Result, ok,
  err, ◌>>=◌, ◌>>◌, refuse_if, if◌then◌else◌,
}
use network_plugin_manager.Go.Text.{contains}
use network_plugin_manager.Firewall.{
  Mode, auto, iptables_nft, iptables_legacy, LookupAnswer, found, not_exist, lookup_failed, printed,
  failed, content, no_file, unreadable, Probes, Error, legacy_tables_unreadable, nft_lookup_failed,
  nft_version_failed, nft_wrong_frontend, generic_lookup_failed, generic_version_failed,
  generic_unrecognized, legacy_lookup_failed, legacy_version_failed, legacy_wrong_frontend,
  nft_rules_failed, legacy_rules_failed, both_active, none_active, stale_legacy_nat,
  stale_legacy_filter, legacy_filter_failed, stale_nft_nat, stale_nft_filter, nft_filter_failed,
  frontend_differs,
}
use network_plugin_manager.Firewall.Rules.{
  has_docker_nat_chain, has_forward_drop_policy, has_table, nft_backend_unavailable,
}
use network_plugin_manager.Firewall.Hooks.{platform_hook}

abbrev pub is_found : LookupAnswer → Bool
is_found found = true
is_found _ = false

abbrev pub is_some : Option String → Bool
is_some none = false
is_some (some a) = true

abbrev pub legacy_command : String
legacy_command = "iptables-legacy"

-- `-t TABLE -S`
abbrev pub listing : String → List String
listing table = "-t" ∷ table ∷ "-S" ∷ []

unfoldable pub legacy_inspection_command : Probes → Result Error String
legacy_inspection_command p = do
  refuse_if (not (is_found (p.lookup legacy_command))) legacy_lookup_failed
  elim (p.version legacy_command) [
    | none ↦ err legacy_version_failed
    | some out ↦ if contains out "(legacy)" then ok legacy_command else err legacy_wrong_frontend
  ]

-- The fall back to the generic alternative. `none` is the source's "unavailable".
unfoldable pub generic_inspection_command : Probes → Result Error (Option String)
generic_inspection_command p = elim (p.lookup "iptables") [
  | not_exist ↦ ok none
  | lookup_failed ↦ err generic_lookup_failed
  | found ↦ elim (p.version "iptables") [
    | none ↦ err generic_version_failed
    | some out ↦
        if contains out "nf_tables"
        then ok (some "iptables")
        else if contains out "legacy"
        then ok none
        else err generic_unrecognized
  ]
]

unfoldable pub nft_inspection_command : Probes → Result Error (Option String)
unfolding generic_inspection_command
nft_inspection_command p = elim (p.lookup "iptables-nft") [
  | not_exist ↦ generic_inspection_command p
  | lookup_failed ↦ err nft_lookup_failed
  | found ↦ elim (p.version "iptables-nft") [
    | none ↦ err nft_version_failed
    | some out ↦
        if contains out "nf_tables" then ok (some "iptables-nft") else err nft_wrong_frontend
  ]
]

-- What is known of one frontend's NAT table: not there, or its listing by a command.
pub data View : Type 0 where
  absent : View
  listed : String → String → View

abbrev pub docker_in : View → Bool
docker_in absent = false
docker_in (listed command rules) = has_docker_nat_chain rules

abbrev pub hook_in : View → Bool
hook_in absent = false
hook_in (listed command rules) = is_some (platform_hook rules)

unfoldable pub probe_nft : Probes → Result Error View
probe_nft p = do
  command ← nft_inspection_command p
  elim command [
    | none ↦ ok absent
    | some c ↦ elim (p.inspect c (listing "nat")) [
      | printed out ↦ ok (listed c out)
      | failed out ↦ if nft_backend_unavailable out then ok absent else err nft_rules_failed
    ]
  ]

unfoldable pub probe_legacy : Probes → String → Result Error View
probe_legacy p tables =
    if has_table tables "nat"
    then (do
      command ← legacy_inspection_command p
      elim (p.inspect command (listing "nat")) [
        | printed out ↦ ok (listed command out)
        | failed out ↦ err legacy_rules_failed
      ])
    else ok absent

-- A stale hook or policy in a filter table.
abbrev pub is_stale : String → Bool
is_stale rules = is_some (platform_hook rules) || has_forward_drop_policy rules

unfoldable pub check_legacy_filter : Probes → String → View → Result Error (Unit {0})
check_legacy_filter p tables legacy =
    if has_table tables "filter"
    then (do
      command ← elim legacy [ absent ↦ legacy_inspection_command p | listed c rules ↦ ok c ]
      elim (p.inspect command (listing "filter")) [
        | printed out ↦ refuse_if (is_stale out) stale_legacy_filter
        | failed out ↦ err legacy_filter_failed
      ])
    else ok tt

unfoldable pub check_nft_filter : Probes → View → Result Error (Unit {0})
check_nft_filter p absent = ok tt
check_nft_filter p (listed command rules) = elim (p.inspect command (listing "filter")) [
  | printed out ↦ refuse_if (is_stale out) stale_nft_filter
  | failed out ↦ err nft_filter_failed
]

-- The choice, and the check that the other frontend processes no packet for the platform.
unfoldable pub choose : Probes → String → View → View → Result Error Mode
choose p tables nft legacy =
    if docker_in nft && docker_in legacy
    then err both_active
    else if docker_in nft
    then (do
      refuse_if (hook_in legacy) stale_legacy_nat
      check_legacy_filter p tables legacy
      ok iptables_nft)
    else if docker_in legacy
    then (do refuse_if (hook_in nft) stale_nft_nat; check_nft_filter p nft; ok iptables_legacy)
    else err none_active

unfoldable pub legacy_tables : Probes → Result Error String
legacy_tables p = elim (p.read_file "/proc/net/ip_tables_names") [
  | content tables ↦ ok tables
  | no_file ↦ ok ""
  | unreadable ↦ err legacy_tables_unreadable
]

unfoldable pub detect_docker_xt_frontend : Probes → Result Error Mode
detect_docker_xt_frontend p = do
  tables ← legacy_tables p
  nft ← probe_nft p
  legacy ← probe_legacy p tables
  choose p tables nft legacy

unfoldable pub select_docker_xt_mode : Mode → Mode → Result Error Mode
select_docker_xt_mode requested active =
    if requested == "" || requested == auto
    then ok active
    else if requested == active
    then ok requested
    else err frontend_differs
