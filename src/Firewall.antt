-- ===== src/Firewall.antt =====
-- internal/firewall/backend.go: which host firewall the manager drives. The four probes of the host
-- are arguments of the source's functions; here they are a record. A probe answers alike each time
-- that one run asks it the same. Messages of errors are left out: each place that returns an error
-- has a name.
pub mod Rules
pub mod Hooks
pub mod Frontend
pub mod Resolve
use network_plugin_manager.Prelude.{String, Option, List}

-- `Mode` is a text, as in the source.
abbrev pub Mode : Type 0
Mode = String

abbrev pub auto : Mode
auto = "auto"

abbrev pub iptables_nft : Mode
iptables_nft = "iptables-nft"

abbrev pub iptables_legacy : Mode
iptables_legacy = "iptables-legacy"

abbrev pub nftables : Mode
nftables = "nftables"

pub record Backend : Type 0 where
  pub mode : Mode
  pub command : String
  pub restore : String

-- What `exec.LookPath` answers: an error that is `os.ErrNotExist`, or another error.
pub data LookupAnswer : Type 0 where
  found not_exist lookup_failed : LookupAnswer

-- The output of a command, which is there also when the command fails.
pub data Inspected : Type 0 where
  printed failed : String → Inspected

pub data FileAnswer : Type 0 where
  content : String → FileAnswer
  no_file unreadable : FileAnswer

pub record Probes : Type 0 where
  pub lookup : String → LookupAnswer
  pub version : String → Option String
  pub inspect : String → List String → Inspected
  pub read_file : String → FileAnswer

pub data Error : Type 0 where
  docker_info_failed driver_unknown driver_unreported : Error
  bridge_rules_failed bridge_mark_missing : Error
  legacy_tables_unreadable : Error
  nft_lookup_failed nft_version_failed nft_wrong_frontend : Error
  generic_lookup_failed generic_version_failed generic_unrecognized : Error
  legacy_lookup_failed legacy_version_failed legacy_wrong_frontend : Error
  nft_rules_failed legacy_rules_failed both_active none_active : Error
  stale_legacy_nat stale_legacy_filter legacy_filter_failed : Error
  stale_nft_nat stale_nft_filter nft_filter_failed : Error
  frontend_differs : Error
  previous_failed previous_forward_drop previous_hook previous_docker_nat : Error
  unsupported_driver auto_unresolved native_needs_nftables nft_missing : Error
  driver_is_native unknown_mode binary_missing binary_mismatch : Error
