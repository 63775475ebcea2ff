-- ===== src/Firewall/Frontend/Ownership.antt =====
-- What the chosen xtables frontend says of the host.
use network_plugin_manager.Prelude.{
  ◌≡◌, ◌⊎◌, inl, inr, String, true, false, some, ok, arith, >>=-eq-ok,
}
use network_plugin_manager.Firewall.{Mode, iptables_nft, iptables_legacy, printed, Probes}
use network_plugin_manager.Firewall.Rules.{has_docker_nat_chain, has_table}
use network_plugin_manager.Firewall.Frontend.{
  legacy_command, listing, legacy_inspection_command, nft_inspection_command, View, absent, listed,
  docker_in, probe_nft, probe_legacy, choose, legacy_tables, detect_docker_xt_frontend,
}

-- Docker's NAT chain is declared and hooked in what the nft frontend lists.
pub record NftOwns (p : Probes) : Type 0 where
  pub command : String
  pub chosen : nft_inspection_command p ≡ ok (some command)
  pub rules : String
  pub lists : p.inspect command (listing "nat") ≡ printed rules
  pub docker : has_docker_nat_chain rules ≡ true

-- The same of the legacy frontend, whose NAT table the kernel has loaded.
pub record LegacyOwns (p : Probes) : Type 0 where
  pub tables : String
  pub read : legacy_tables p ≡ ok tables
  pub loaded : has_table tables "nat" ≡ true
  pub rules : String
  pub lists : p.inspect legacy_command (listing "nat") ≡ printed rules
  pub docker : has_docker_nat_chain rules ≡ true

docker_in-NftOwns : (p : Probes) (v : View) → probe_nft p ≡ ok v → docker_in v ≡ true → NftOwns p
unfolding probe_nft
docker_in-NftOwns p absent h d = cc
docker_in-NftOwns p (listed command rules) h d = record {
  command = command;
  chosen = ground arith;
  rules = rules;
  lists = ground arith;
  docker = d;
}

NftOwns-docker_in : (p : Probes) (v : View) → probe_nft p ≡ ok v → NftOwns p → docker_in v ≡ true
unfolding probe_nft
NftOwns-docker_in p v h n = ground (arith, n.chosen, n.lists, n.docker)

docker_in-LegacyOwns :
    (p : Probes) (tables : String) (v : View)
    → legacy_tables p ≡ ok tables
    → probe_legacy p tables ≡ ok v
    → docker_in v ≡ true
    → LegacyOwns p
unfolding probe_legacy legacy_inspection_command
docker_in-LegacyOwns p tables absent r h d = cc
docker_in-LegacyOwns p tables (listed command rules) r h d = record {
  tables = tables;
  read = r;
  loaded = ground arith;
  rules = rules;
  lists = ground arith;
  docker = d;
}

LegacyOwns-docker_in :
    (p : Probes) (tables : String) (v : View)
    → legacy_tables p ≡ ok tables
    → probe_legacy p tables ≡ ok v
    → LegacyOwns p
    → docker_in v ≡ true
unfolding probe_legacy legacy_inspection_command
LegacyOwns-docker_in p tables v r h l = ground (arith, l.read, l.loaded, l.lists, l.docker)

choose_cases :
    (p : Probes) (tables : String) (nft legacy : View) {m : Mode}
    → choose p tables nft legacy ≡ ok m
    → ((m ≡ iptables_nft) × (docker_in nft ≡ true) × (docker_in legacy ≡ false))
      ⊎ ((m ≡ iptables_legacy) × (docker_in legacy ≡ true) × (docker_in nft ≡ false))
unfolding choose
choose_cases p tables nft legacy h = ground arith

pub detect_parts :
    (p : Probes) {m : Mode}
    → detect_docker_xt_frontend p ≡ ok m
    → (tables : String) × (nft : View) × (legacy : View) × (legacy_tables p ≡ ok tables)
      × (probe_nft p ≡ ok nft)
      × (probe_legacy p tables ≡ ok legacy)
      × (choose p tables nft legacy ≡ ok m)
unfolding detect_docker_xt_frontend
detect_parts p h =
    let (tables, t, h₁) = >>=-eq-ok (legacy_tables p) _ h in
    let (nft, n, h₂) = >>=-eq-ok (probe_nft p) _ h₁ in
    let (legacy, l, h₃) = >>=-eq-ok (probe_legacy p tables) _ h₂ in
    (tables, nft, legacy, t, n, l, h₃)

-- The frontend that `DetectDockerXTFrontend` returns holds Docker's live NAT chain, and the other one
-- holds none.
pub detect_sound :
    (p : Probes) {m : Mode}
    → detect_docker_xt_frontend p ≡ ok m
    → ((m ≡ iptables_nft) × NftOwns p × ¬ LegacyOwns p)
      ⊎ ((m ≡ iptables_legacy) × LegacyOwns p × ¬ NftOwns p)
detect_sound p h =
    let (tables, nft, legacy, t, n, l, c) = detect_parts p h in
    elim (choose_cases p tables nft legacy c) [
      | inl (e, there, gone) ↦
          inl (
            e,
            docker_in-NftOwns p nft n there,
            λ o. cc (LegacyOwns-docker_in p tables legacy t l o),
          )
      | inr (e, there, gone) ↦
          inr (
            e,
            docker_in-LegacyOwns p tables legacy t l there,
            λ o. cc (NftOwns-docker_in p nft n o),
          )
    ]
