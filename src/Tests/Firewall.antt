-- ===== src/Tests/Firewall.antt =====
-- internal/firewall/backend.go on two hosts: one with iptables-nft, one with Docker's native nftables.
use network_plugin_manager.Prelude.{
  ◌≡◌, Option, ◌≢◌, refl, ◌↔◌, ◌⊎◌, String, none, some, List, ◌∷◌, ◌==◌, ok, true, false, Result,
  if◌then◌else◌, arith, eq_iff,
}
use network_plugin_manager.Firewall.{
  Mode, Error, Backend, auto, iptables_nft, iptables_legacy, LookupAnswer, found, not_exist,
  Inspected, printed, failed, content, no_file, Probes,
}
use network_plugin_manager.Firewall.Rules.{has_docker_nat_chain, has_table, has_forward_drop_policy}
use network_plugin_manager.Go.Text.{contains}
use network_plugin_manager.Firewall.Hooks.{Jump, platform_hook, jumps_of, search_hook, out_of_fuel}
use network_plugin_manager.Firewall.Hooks.Reach.{IsHook, Finds}
use network_plugin_manager.Firewall.Hooks.Ends.{search_hook_ends}
use network_plugin_manager.Firewall.Hooks.Complete.{platform_hook_sound, platform_hook-none_iff}
use network_plugin_manager.Firewall.Frontend.{
  legacy_command, detect_docker_xt_frontend, probe_nft, probe_legacy, choose, legacy_tables,
  nft_inspection_command, legacy_inspection_command, check_legacy_filter, check_nft_filter,
  select_docker_xt_mode,
}
use network_plugin_manager.Firewall.Frontend.Ownership.{NftOwns, LegacyOwns, detect_sound}
use network_plugin_manager.Firewall.Frontend.Stale.{detect_legacy_filter, detect_ignores_legacy}
use network_plugin_manager.Firewall.Resolve.{
  DockerInfo, detect, docker_firewall_driver, xt_mode, resolve, resolve_xt, xt_backend, frontend_of,
  check_binary, check_native, check_native_migration, check_nft_previous, check_legacy_previous,
  check_previous_xt_rules,
}
use network_plugin_manager.Firewall.Resolve.Sound.{
  NativeReady, XtReady, IsNativeBackend, IsXtBackend, detect_ready, resolve_sound,
}
use network_plugin_manager.Firewall.Resolve.Migration.{
  IsClean, migration_nft-IsClean, migration_legacy-IsClean,
}

-- A platform chain behind one indirection, and the same one disconnected.
abbrev hooked : String
hooked = "-A FORWARD -j USER\n-A USER -s 10.0.0.0/8 -j CATTLE_FORWARD\n"

abbrev orphaned : String
orphaned = "-N CATTLE_FORWARD\n-A USER -j CATTLE_FORWARD\n-A FORWARD -j DOCKER\n"

platform_hook-hooked : platform_hook hooked ≡ some "-A USER -s 10.0.0.0/8 -j CATTLE_FORWARD"
unfolding platform_hook
platform_hook-hooked = refl

platform_hook-orphaned : platform_hook orphaned ≡ none
unfolding platform_hook
platform_hook-orphaned = refl

platform_hook_sound_example : Finds (jumps_of hooked) "-A USER -s 10.0.0.0/8 -j CATTLE_FORWARD"
platform_hook_sound_example =
    platform_hook_sound hooked "-A USER -s 10.0.0.0/8 -j CATTLE_FORWARD" platform_hook-hooked

platform_hook-none_iff_example :
    (platform_hook orphaned ≡ none) ↔ ((j : Jump) → ¬ IsHook (jumps_of orphaned) j)
platform_hook-none_iff_example = platform_hook-none_iff orphaned

search_hook_ends_example : search_hook (jumps_of hooked) ≢ out_of_fuel
search_hook_ends_example = search_hook_ends (jumps_of hooked)

abbrev docker_nat : String
docker_nat = "-N DOCKER\n-A PREROUTING -m addrtype -j DOCKER\n"

-- A host on which iptables-nft is in use, with a filter table of the legacy frontend loaded.
abbrev xt_host : Probes
xt_host = record {
  lookup = λ name. found;
  version = λ name.
      if name == "iptables-legacy"
      then some "iptables v1.8 (legacy)"
      else some "iptables v1.8 (nf_tables)";
  inspect = λ name args.
      if name == "iptables-nft" then printed docker_nat else printed "-P FORWARD ACCEPT\n";
  read_file = λ path. content "filter\n";
}

-- The detection with all that it calls unfolded.
run_frontend : Probes → Result Error Mode
unfolding detect_docker_xt_frontend legacy_tables probe_nft probe_legacy choose
    nft_inspection_command legacy_inspection_command check_legacy_filter check_nft_filter
    has_docker_nat_chain has_table has_forward_drop_policy contains platform_hook
run_frontend p = detect_docker_xt_frontend p

xt_frontend : detect_docker_xt_frontend xt_host ≡ ok iptables_nft
unfolding run_frontend
xt_frontend = refl

xt_legacy_tables : legacy_tables xt_host ≡ ok "filter\n"
unfolding run_frontend
xt_legacy_tables = refl

filter_loaded : has_table "filter\n" "filter" ≡ true
unfolding run_frontend
filter_loaded = refl

detect_sound_example :
    (◌≡◌ {A = Mode} iptables_nft iptables_nft × NftOwns xt_host × ¬ LegacyOwns xt_host)
    ⊎ (◌≡◌ {A = Mode} iptables_nft iptables_legacy × LegacyOwns xt_host × ¬ NftOwns xt_host)
detect_sound_example = detect_sound xt_host xt_frontend

detect_legacy_filter_example :
    (platform_hook "-P FORWARD ACCEPT\n" ≡ none)
    × (has_forward_drop_policy "-P FORWARD ACCEPT\n" ≡ false)
detect_legacy_filter_example =
    detect_legacy_filter xt_host "filter\n" "-P FORWARD ACCEPT\n" xt_frontend xt_legacy_tables
      filter_loaded refl

-- The same host without legacy tables, and one whose legacy command answers something else.
abbrev nft_only : Probes
nft_only = record xt_host { read_file = λ path. no_file }

abbrev other_look : String → LookupAnswer
other_look c = if c == legacy_command then not_exist else nft_only.lookup c

abbrev other_version : String → Option String
other_version c =
    if c == legacy_command then some "iptables v1.8.7 (nf_tables)" else nft_only.version c

abbrev other_inspect : String → List String → Inspected
other_inspect c args = if c == legacy_command then failed "modprobe" else nft_only.inspect c args

same_look : (c : String) → c ≢ legacy_command → nft_only.lookup c ≡ other_look c
same_look c h = ground (arith, eq_iff c legacy_command)

same_version : (c : String) → c ≢ legacy_command → nft_only.version c ≡ other_version c
same_version c h = ground (arith, eq_iff c legacy_command)

same_inspect :
    (c : String) (args : List String)
    → c ≢ legacy_command
    → nft_only.inspect c args ≡ other_inspect c args
same_inspect c args h = ground (arith, eq_iff c legacy_command)

detect_ignores_legacy_example :
    detect_docker_xt_frontend nft_only
    ≡ detect_docker_xt_frontend
        (record nft_only { lookup = other_look; version = other_version; inspect = other_inspect })
unfolding run_frontend
detect_ignores_legacy_example =
    detect_ignores_legacy nft_only other_look same_look other_version same_version other_inspect
      same_inspect "" refl refl refl

abbrev xt_backend_chosen : Backend
xt_backend_chosen = record {
  mode = iptables_nft;
  command = "iptables-nft";
  restore = "iptables-nft-restore";
}

resolve_sound_example :
    IsNativeBackend xt_host "iptables" xt_backend_chosen
    ⊎ (◌≡◌ {A = String} "iptables" "iptables" × IsXtBackend xt_host iptables_nft xt_backend_chosen)
unfolding resolve resolve_xt xt_backend frontend_of check_binary contains
resolve_sound_example = resolve_sound xt_host iptables_nft "iptables" xt_backend_chosen refl

abbrev docker_info : DockerInfo
docker_info = record { driver = ""; server_version = "v27.3.1" }

detect_ready_example : NativeReady xt_host xt_backend_chosen ⊎ XtReady xt_host xt_backend_chosen
unfolding run_frontend detect docker_firewall_driver xt_mode select_docker_xt_mode resolve
    resolve_xt xt_backend frontend_of check_binary check_native
detect_ready_example = detect_ready xt_host docker_info auto xt_backend_chosen refl

-- A host with native nftables, whose earlier tables are loaded and clean.
abbrev clean_filter : String
clean_filter = "-P FORWARD ACCEPT\n-A FORWARD -j DOCKER-USER\n"

abbrev clean_nat : String
clean_nat = "-P PREROUTING ACCEPT\n"

-- The listing of the table that the arguments name.
abbrev clean_table : List String → Inspected
clean_table (flag ∷ (table ∷ rest)) =
    if table == "nat" then printed clean_nat else printed clean_filter
clean_table _ = printed "table ip docker-bridges { meta mark & 0x00001068 == 0x00001068 }"

abbrev native_host : Probes
native_host = record {
  lookup = λ name. found;
  version = λ name. if name == "iptables-legacy" then some "(legacy)" else some "(nf_tables)";
  inspect = λ name args. clean_table args;
  read_file = λ path. content "filter\nnat\n";
}

-- What the witnesses ask of this host, with all that it calls unfolded.
run_migration : Probes → Result Error (Unit {0})
unfolding check_native_migration legacy_tables nft_inspection_command check_nft_previous
    check_legacy_previous check_previous_xt_rules legacy_inspection_command has_table
    has_docker_nat_chain has_forward_drop_policy contains platform_hook
run_migration p = check_native_migration p

native_migrates : check_native_migration native_host ≡ ok tt
unfolding run_migration
native_migrates = refl

native_tables : legacy_tables native_host ≡ ok "filter\nnat\n"
unfolding run_migration
native_tables = refl

native_command : nft_inspection_command native_host ≡ ok (some "iptables-nft")
unfolding run_migration
native_command = refl

migration_nft-IsClean_example : IsClean clean_filter clean_nat
migration_nft-IsClean_example =
    migration_nft-IsClean native_host "iptables-nft" "filter\nnat\n" clean_filter clean_nat
      native_migrates native_command native_tables refl refl

native_has_filter : has_table "filter\nnat\n" "filter" ≡ true
unfolding run_migration
native_has_filter = refl

native_has_nat : has_table "filter\nnat\n" "nat" ≡ true
unfolding run_migration
native_has_nat = refl

migration_legacy-IsClean_example : IsClean clean_filter clean_nat
migration_legacy-IsClean_example =
    migration_legacy-IsClean native_host "filter\nnat\n" clean_filter clean_nat native_migrates
      native_command native_tables native_has_filter native_has_nat refl refl
