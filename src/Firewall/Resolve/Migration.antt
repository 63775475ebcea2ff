-- ===== src/Firewall/Resolve/Migration.antt =====
-- What `CheckNativeMigration` has made sure of when it lets native nftables start.
use network_plugin_manager.Prelude.{
  ◌≡◌, String, true, false, Option, none, some, ok, arith, >>=-eq-ok,
}
use network_plugin_manager.Firewall.{printed, Probes}
use network_plugin_manager.Firewall.Rules.{has_docker_nat_chain, has_forward_drop_policy, has_table}
use network_plugin_manager.Firewall.Hooks.{platform_hook}
use network_plugin_manager.Firewall.Frontend.{
  listing, legacy_command, legacy_inspection_command, nft_inspection_command, legacy_tables,
}
use network_plugin_manager.Firewall.Frontend.Stale.{is_some-none}
use network_plugin_manager.Firewall.Resolve.{
  check_previous_xt_rules, check_nft_previous, check_legacy_previous, check_native_migration,
}

-- A listing of a filter and of a NAT table in which nothing of an earlier owner is live.
pub record IsClean (filter nat : String) : Type 0 where
  pub no_drop : has_forward_drop_policy filter ≡ false
  pub no_filter_hook : platform_hook filter ≡ none
  pub no_nat_hook : platform_hook nat ≡ none
  pub no_docker : has_docker_nat_chain nat ≡ false

filter_clean :
    (p : Probes) (command rules : String)
    → check_previous_xt_rules p command "filter" ≡ ok tt
    → p.inspect command (listing "filter") ≡ printed rules
    → (has_forward_drop_policy rules ≡ false) × (platform_hook rules ≡ none)
unfolding check_previous_xt_rules
filter_clean p command rules h i = (ground arith, is_some-none (platform_hook rules) (ground arith))

nat_clean :
    (p : Probes) (command rules : String)
    → check_previous_xt_rules p command "nat" ≡ ok tt
    → p.inspect command (listing "nat") ≡ printed rules
    → (platform_hook rules ≡ none) × (has_docker_nat_chain rules ≡ false)
unfolding check_previous_xt_rules
nat_clean p command rules h i = (is_some-none (platform_hook rules) (ground arith), ground arith)

parts :
    (p : Probes) {command : Option String} {tables : String}
    → check_native_migration p ≡ ok tt
    → nft_inspection_command p ≡ ok command
    → legacy_tables p ≡ ok tables
    → (check_nft_previous p command ≡ ok tt) × (check_legacy_previous p tables ≡ ok tt)
unfolding check_native_migration
parts p h n t = (ground arith, ground arith)

IsClean-of_checks :
    (p : Probes) (command filter nat : String)
    → check_previous_xt_rules p command "filter" ≡ ok tt
    → check_previous_xt_rules p command "nat" ≡ ok tt
    → p.inspect command (listing "filter") ≡ printed filter
    → p.inspect command (listing "nat") ≡ printed nat
    → IsClean filter nat
IsClean-of_checks p command filter nat cf cn pf pn =
    let f = filter_clean p command filter cf pf in
    let n = nat_clean p command nat cn pn in
    record { no_drop = f.0; no_filter_hook = f.1; no_nat_hook = n.0; no_docker = n.1 }

-- `CheckNativeMigration` passes only where the tables of iptables-nft, where it can be inspected, hold
-- no FORWARD DROP policy, no hook of the platform's and no live NAT chain of Docker's.
pub migration_nft-IsClean :
    (p : Probes) (command tables filter nat : String)
    → check_native_migration p ≡ ok tt
    → nft_inspection_command p ≡ ok (some command)
    → legacy_tables p ≡ ok tables
    → p.inspect command (listing "filter") ≡ printed filter
    → p.inspect command (listing "nat") ≡ printed nat
    → IsClean filter nat
unfolding check_nft_previous
migration_nft-IsClean p command tables filter nat h n t pf pn =
    let c = parts p h n t in
    let (u, cf, cn) = >>=-eq-ok (check_previous_xt_rules p command "filter") _ c.0 in
    IsClean-of_checks p command filter nat (ground arith) cn pf pn

-- `CheckNativeMigration` passes only where the legacy tables, when the kernel has loaded both, hold no
-- FORWARD DROP policy, no hook of the platform's and no live NAT chain of Docker's.
pub migration_legacy-IsClean :
    (p : Probes) {nft : Option String} (tables filter nat : String)
    → check_native_migration p ≡ ok tt
    → nft_inspection_command p ≡ ok nft
    → legacy_tables p ≡ ok tables
    → has_table tables "filter" ≡ true
    → has_table tables "nat" ≡ true
    → p.inspect legacy_command (listing "filter") ≡ printed filter
    → p.inspect legacy_command (listing "nat") ≡ printed nat
    → IsClean filter nat
unfolding check_legacy_previous legacy_inspection_command
migration_legacy-IsClean p tables filter nat h n t lf ln pf pn =
    let c = parts p h n t in
    IsClean-of_checks p legacy_command filter nat (ground (arith, c.1)) (ground (arith, c.1)) pf pn
