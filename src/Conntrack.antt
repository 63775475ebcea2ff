-- ===== src/Conntrack.antt =====
-- conntracksync: the kernel's table of tracked connections, as the conntrack command prints it
-- (conntracksync/conntrack/conntrack.go), and the entries that a sync deletes.
pub mod Parse
pub mod Sync
use network_plugin_manager.Prelude.{String, Bool, List, [], ◌∷◌}

pub record CtEntry : Type 0 where
  pub protocol : String
  pub original_source_ip : String
  pub original_destination_ip : String
  pub original_source_port : String
  pub original_destination_port : String
  pub reply_source_ip : String
  pub reply_destination_ip : String
  pub reply_source_port : String
  pub reply_destination_port : String
  pub unreplied : Bool
  pub assured : Bool

-- The command of `CTEntryDelete`
abbrev pub delete_args : CtEntry → List String
delete_args e =
    "conntrack" ∷ "--delete" ∷ "-p" ∷ e.protocol ∷ "--orig-src" ∷ e.original_source_ip
    ∷ "--orig-dst" ∷ e.original_destination_ip ∷ "--orig-port-dst" ∷ e.original_destination_port
    ∷ "--reply-src" ∷ e.reply_source_ip ∷ "--reply-dst" ∷ e.reply_destination_ip ∷ []
