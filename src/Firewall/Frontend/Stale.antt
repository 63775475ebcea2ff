-- ===== src/Firewall/Frontend/Stale.antt =====
-- The frontend that is not chosen: its filter table, and the host whose kernel has not loaded it.
use network_plugin_manager.Prelude.{
  ◌≡◌, refl, ◌≢◌, inl, inr, String, true, false, Option, none, some, List, ok, arith, Result-cases,
  eq_iff,
}
use network_plugin_manager.Firewall.{
  iptables_nft, iptables_legacy, Inspected, LookupAnswer, printed, Probes,
}
use network_plugin_manager.Firewall.Rules.{has_forward_drop_policy, has_table}
use network_plugin_manager.Firewall.Hooks.{platform_hook}
use network_plugin_manager.Firewall.Frontend.{
  is_some, legacy_command, listing, legacy_inspection_command, generic_inspection_command,
  nft_inspection_command, View, absent, hook_in, probe_nft, probe_legacy, check_legacy_filter,
  choose, legacy_tables, detect_docker_xt_frontend,
}
use network_plugin_manager.Firewall.Frontend.Ownership.{detect_parts}

pub is_some-none : (o : Option String) → is_some o ≡ false → o ≡ none
is_some-none none h = refl
is_some-none (some a) h = cc

legacy-ne-nft : ◌≢◌ {A = String} iptables_legacy iptables_nft
legacy-ne-nft = ground (arith, eq_iff iptables_legacy iptables_nft)

choose_clean_legacy :
    (p : Probes) (tables : String) (nft legacy : View)
    → choose p tables nft legacy ≡ ok iptables_nft
    → (hook_in legacy ≡ false) × (check_legacy_filter p tables legacy ≡ ok tt)
unfolding choose
choose_clean_legacy p tables nft legacy h = ground (arith, legacy-ne-nft)

detect_legacy_nat :
    (p : Probes) (tables rules : String)
    → detect_docker_xt_frontend p ≡ ok iptables_nft
    → legacy_tables p ≡ ok tables
    → has_table tables "nat" ≡ true
    → p.inspect legacy_command (listing "nat") ≡ printed rules
    → platform_hook rules ≡ none
unfolding probe_legacy legacy_inspection_command
detect_legacy_nat p tables rules h t n i =
    let (ts, nft, legacy, t', n', l, c) = detect_parts p h in
    let (hook, filter) = choose_clean_legacy p ts nft legacy c in
    is_some-none (platform_hook rules) (ground arith)

-- Where iptables-nft is returned and the kernel has a legacy filter table whose listing succeeds, that
-- table has neither a hook of the platform's nor a FORWARD DROP policy.
pub detect_legacy_filter :
    (p : Probes) (tables rules : String)
    → detect_docker_xt_frontend p ≡ ok iptables_nft
    → legacy_tables p ≡ ok tables
    → has_table tables "filter" ≡ true
    → p.inspect legacy_command (listing "filter") ≡ printed rules
    → (platform_hook rules ≡ none) × (has_forward_drop_policy rules ≡ false)
unfolding probe_legacy legacy_inspection_command check_legacy_filter
detect_legacy_filter p tables rules h t n i =
    let (ts, nft, legacy, t', n', l, c) = detect_parts p h in
    let (hook, filter) = choose_clean_legacy p ts nft legacy c in
    (is_some-none (platform_hook rules) (ground arith), ground arith)

-- The commands that inspect the nft frontend are other ones than the legacy command.
nft_command-ne-legacy :
    (p : Probes) {c : String} → nft_inspection_command p ≡ ok (some c) → c ≢ legacy_command
unfolding nft_inspection_command generic_inspection_command
nft_command-ne-legacy p {c} h =
    ground (arith, eq_iff "iptables-nft" legacy_command, eq_iff "iptables" legacy_command)

-- The answers of another host, the same but for what concerns the legacy command.
module _ (p : Probes) (look : String → LookupAnswer)
    (same_look : (c : String) → c ≢ legacy_command → p.lookup c ≡ look c)
    (ver : String → Option String)
    (same_ver : (c : String) → c ≢ legacy_command → p.version c ≡ ver c)
    (other : String → List String → Inspected)
    (same : (c : String) (args : List String)
      → c ≢ legacy_command
      → p.inspect c args ≡ other c args) where
  abbrev q : Probes
  q = record p { lookup = look; version = ver; inspect = other }

  nft-ne-legacy : ◌≢◌ {A = String} "iptables-nft" legacy_command
  nft-ne-legacy = ground (arith, eq_iff "iptables-nft" legacy_command)

  generic-ne-legacy : ◌≢◌ {A = String} "iptables" legacy_command
  generic-ne-legacy = ground (arith, eq_iff "iptables" legacy_command)

  generic_command_same : generic_inspection_command p ≡ generic_inspection_command q
  unfolding generic_inspection_command
  generic_command_same =
      ground (arith, same_look "iptables" generic-ne-legacy, same_ver "iptables" generic-ne-legacy)

  nft_command_same : nft_inspection_command p ≡ nft_inspection_command q
  unfolding nft_inspection_command
  nft_command_same = ground (
    arith,
    same_look "iptables-nft" nft-ne-legacy,
    same_ver "iptables-nft" nft-ne-legacy,
    generic_command_same,
  )

  probe_nft_same : probe_nft p ≡ probe_nft q
  unfolding probe_nft
  probe_nft_same = elim (Result-cases (nft_inspection_command p)) [
    | inl (none, h) ↦ ground (arith, h, nft_command_same)
    | inl (some c, h) ↦
        ground (arith, h, nft_command_same, same c (listing "nat") (nft_command-ne-legacy p h))
    | inr (e, h) ↦ ground (arith, h, nft_command_same)
  ]

  choose_absent :
      (tables : String) (nft : View)
      → has_table tables "filter" ≡ false
      → choose p tables nft absent ≡ choose q tables nft absent
  unfolding choose check_legacy_filter
  choose_absent tables nft f = ground arith

  -- On a host whose kernel has loaded neither a legacy NAT nor a legacy filter table, the choice and its errors
  -- are the same whether or not the legacy command is installed, whatever its version, and whatever it would
  -- print or fail with.
  pub detect_ignores_legacy :
      (tables : String)
      → legacy_tables p ≡ ok tables
      → has_table tables "nat" ≡ false
      → has_table tables "filter" ≡ false
      → detect_docker_xt_frontend p
        ≡ detect_docker_xt_frontend (record p { lookup = look; version = ver; inspect = other })
  unfolding detect_docker_xt_frontend probe_legacy legacy_tables
  detect_ignores_legacy tables t n f = elim (Result-cases (probe_nft p)) [
    | inl (nft, h) ↦ ground (arith, t, h, probe_nft_same, choose_absent tables nft f)
    | inr (e, h) ↦ ground (arith, t, h, probe_nft_same)
  ]
