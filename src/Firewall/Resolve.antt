-- ===== src/Firewall/Resolve.antt =====
-- From the requested mode and Docker's driver to a backend, and the checks before native nftables:
-- `Resolve`, `CheckNativeMigration`, `CheckDockerBridgeMark` and `Detect` of
-- internal/firewall/backend.go.
pub mod Sound
pub mod Migration
use network_plugin_manager.Prelude.{
  ℕ, String, Bool, true, false, not, ◌&&◌, ◌||◌, Option, none, some, List, [], ◌∷◌, ◌==◌, Result,
  ok, err, ◌>>=◌, ◌>>◌, refuse_if, if◌then◌else◌, ltb, leb, eqb, starts_with,
}
use Prim.Native.Char.{code}
use network_plugin_manager.Go.Text.{contains, cut, strip_prefix, trim_prefix}
use network_plugin_manager.Go.Number.{atoi, ℤ, pos, negsuc}
use network_plugin_manager.Firewall.{
  Mode, auto, iptables_nft, iptables_legacy, nftables, Backend, found, not_exist, lookup_failed,
  printed, failed, content, no_file, unreadable, Probes, Error, docker_info_failed, driver_unknown,
  driver_unreported, bridge_rules_failed, bridge_mark_missing, legacy_tables_unreadable,
  previous_failed, previous_forward_drop, previous_hook, previous_docker_nat, unsupported_driver,
  auto_unresolved, native_needs_nftables, nft_missing, driver_is_native, unknown_mode,
  binary_missing, binary_mismatch,
}
use network_plugin_manager.Firewall.Rules.{has_docker_nat_chain, has_forward_drop_policy, has_table}
use network_plugin_manager.Firewall.Hooks.{platform_hook}
use network_plugin_manager.Firewall.Frontend.{
  is_found, is_some, listing, legacy_inspection_command, nft_inspection_command, legacy_tables,
  detect_docker_xt_frontend, select_docker_xt_mode,
}

-- `dockerFirewallDriver`. A missing driver is the empty text.
unfoldable pub docker_firewall_driver : String → String → Result Error String
unfolding trim_prefix cut atoi
docker_firewall_driver reported version =
    if not (reported == "")
    then ok reported
    else let stripped = trim_prefix "v" version in
      let major : String = elim (cut b'.' stripped) [ none ↦ stripped | some r ↦ r.0 ] in
      elim (atoi major) [
        | none ↦ err driver_unknown
        | some (negsuc n) ↦ err driver_unknown
        | some (pos n) ↦
            if ltb n 1
            then err driver_unknown
            else if leb 29 n
            then err driver_unreported
            else ok "iptables"
      ]

skip_zeros : String → String
skip_zeros String.[] = ""
skip_zeros (String.◌∷◌ c s) =
    let rest = skip_zeros s in if eqb (code c) b'0' then rest else String.◌∷◌ c s

-- The pattern of `dockerBridgeMark` at the start of a text.
mark_here : String → Bool
unfolding skip_zeros strip_prefix
mark_here s = elim (strip_prefix "meta mark & 0x" s) [
  | none ↦ false
  | some r ↦ elim (strip_prefix "1068 == 0x" (skip_zeros r)) [
    | none ↦ false
    | some q ↦ starts_with (skip_zeros q) "1068"
  ]
]

unfoldable pub has_bridge_mark : String → Bool
unfolding mark_here
has_bridge_mark String.[] = false
has_bridge_mark (String.◌∷◌ c s) = mark_here (String.◌∷◌ c s) || has_bridge_mark s

abbrev pub bridge_listing : List String
bridge_listing = "list" ∷ "table" ∷ "ip" ∷ "docker-bridges" ∷ []

unfoldable pub check_docker_bridge_mark : Probes → Result Error (Unit {0})
check_docker_bridge_mark p = elim (p.inspect "nft" bridge_listing) [
  | failed out ↦ err bridge_rules_failed
  | printed out ↦ refuse_if (not (has_bridge_mark out)) bridge_mark_missing
]

unfoldable pub check_previous_xt_rules : Probes → String → String → Result Error (Unit {0})
check_previous_xt_rules p command table = elim (p.inspect command (listing table)) [
  | failed out ↦ err previous_failed
  | printed out ↦ do
    refuse_if (table == "filter" && has_forward_drop_policy out) previous_forward_drop
    refuse_if (is_some (platform_hook out)) previous_hook
    refuse_if (table == "nat" && has_docker_nat_chain out) previous_docker_nat
]

abbrev check_if : Bool → Probes → String → String → Result Error (Unit {0})
check_if true p command table = check_previous_xt_rules p command table
check_if false p command table = ok tt

unfoldable pub check_nft_previous : Probes → Option String → Result Error (Unit {0})
check_nft_previous p none = ok tt
check_nft_previous p (some command) = do
  check_previous_xt_rules p command "filter"
  check_previous_xt_rules p command "nat"

unfoldable pub check_legacy_previous : Probes → String → Result Error (Unit {0})
check_legacy_previous p tables =
    if not (has_table tables "filter") && not (has_table tables "nat") then ok tt else (do
      command ← legacy_inspection_command p
      check_if (has_table tables "filter") p command "filter"
      check_if (has_table tables "nat") p command "nat")

unfoldable pub check_native_migration : Probes → Result Error (Unit {0})
check_native_migration p = do
  tables ← legacy_tables p
  nft ← nft_inspection_command p
  check_nft_previous p nft
  check_legacy_previous p tables

-- The command, the restore command and the marker of their versions.
pub record Frontend : Type 0 where
  pub command : String
  pub restore : String
  pub marker : String

unfoldable pub frontend_of : Mode → Option Frontend
frontend_of mode =
    if mode == iptables_nft
    then some (record {
      command = "iptables-nft";
      restore = "iptables-nft-restore";
      marker = "nf_tables";
    })
    else if mode == iptables_legacy
    then some (record {
      command = "iptables-legacy";
      restore = "iptables-legacy-restore";
      marker = "legacy";
    })
    else none

abbrev pub or_generic : Probes → String → String → String
or_generic p command generic = if is_found (p.lookup command) then command else generic

-- One round of the loop over the two binaries.
unfoldable pub check_binary : Probes → String → String → Result Error (Unit {0})
check_binary p marker binary = do
  refuse_if (not (is_found (p.lookup binary))) binary_missing
  elim (p.version binary) [
    | none ↦ err binary_mismatch
    | some out ↦ refuse_if (not (contains out marker)) binary_mismatch
  ]

unfoldable pub xt_backend : Probes → Mode → Frontend → Result Error Backend
xt_backend p requested f = do
  let command = or_generic p f.command "iptables"
  let restore = or_generic p f.restore "iptables-restore"
  check_binary p f.marker command
  check_binary p f.marker restore
  ok (record { mode = requested; command = command; restore = restore })

unfoldable pub resolve_xt : Probes → Mode → Result Error Backend
resolve_xt p requested = elim (frontend_of requested) [
  | none ↦ err unknown_mode
  | some f ↦ xt_backend p requested f
]

unfoldable pub resolve_native : Probes → String → Result Error Backend
resolve_native p driver =
    if not (driver == "nftables")
    then err native_needs_nftables
    else if not (is_found (p.lookup "nft"))
    then err nft_missing
    else ok (record { mode = nftables; command = "nft"; restore = "" })

abbrev or_auto : Mode → Mode
or_auto requested = if requested == "" then auto else requested

unfoldable pub resolve : Probes → Mode → String → Result Error Backend
resolve p requested driver =
    if not (driver == "iptables") && not (driver == "nftables")
    then err unsupported_driver
    else if or_auto requested == auto
    then (if driver == "nftables" then resolve_native p driver else err auto_unresolved)
    else if or_auto requested == nftables
    then resolve_native p driver
    else if driver == "nftables"
    then err driver_is_native
    else resolve_xt p requested

-- What Docker's `Info` reports; an absent `FirewallBackend` is the empty driver.
pub record DockerInfo : Type 0 where
  pub driver : String
  pub server_version : String

-- An iptables driver: the frontend in use, held against the requested one.
unfoldable pub xt_mode : Probes → Mode → String → Result Error Mode
xt_mode p requested driver =
    if driver == "iptables"
    then (do active ← detect_docker_xt_frontend p; select_docker_xt_mode requested active)
    else ok requested

unfoldable pub check_native : Probes → Backend → Result Error (Unit {0})
check_native p b =
    if b.mode == nftables then (do check_native_migration p; check_docker_bridge_mark p) else ok tt

-- `none` is a failed query of Docker.
unfoldable pub detect : Probes → Option DockerInfo → Mode → Result Error Backend
detect p none requested = err docker_info_failed
detect p (some info) requested = do
  driver ← docker_firewall_driver info.driver info.server_version
  mode ← xt_mode p requested driver
  backend ← resolve p mode driver
  check_native p backend
  ok backend
