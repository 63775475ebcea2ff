-- ===== src/HostNat/Stale.antt =====
-- The sweep of hostnat/watcher.go over tracked IKE connections that were not translated.
use network_plugin_manager.Prelude.{
  ℕ, ◌-◌, Bool, true, not, ◌&&◌, ◌||◌, Option, none, some, List, [], ◌∷◌, ◌==◌, ltb, eqb, length,
  if◌then◌else◌,
}
use network_plugin_manager.Go.Map.{Map}
use network_plugin_manager.Conntrack.{CtEntry, delete_args}
use network_plugin_manager.Effects.{run, Oracle, ◌>>=◌, ◌>>◌, pure, get, modify, perform, ignore}
use network_plugin_manager.HostNat.{IkePortSnatRule, routing_failed}
use network_plugin_manager.HostNat.Validate.{is_ike_port}
use network_plugin_manager.HostNat.Apply.{Op}

abbrev pub has_ike_port : CtEntry → Bool
has_ike_port e =
    is_ike_port e.original_source_port
    || is_ike_port e.original_destination_port
    || is_ike_port e.reply_source_port
    || is_ike_port e.reply_destination_port

abbrev pub concerns : CtEntry → IkePortSnatRule → Bool
concerns e rule =
    e.original_source_ip == rule.source_ip
    || e.reply_source_ip == rule.source_ip
    || e.original_destination_ip == rule.host_ip
    || e.reply_destination_ip == rule.host_ip

-- The loop over the rules, in the order of the map
unfoldable pub first_concerned : CtEntry → Map IkePortSnatRule → Option IkePortSnatRule
first_concerned e [] = none
first_concerned e (r ∷ rules) =
    let rest = first_concerned e rules in if concerns e r.1 then some r.1 else rest

unfoldable pub matching_ike_rule : CtEntry → Map IkePortSnatRule → Option IkePortSnatRule
unfolding first_concerned is_ike_port
matching_ike_rule e rules =
    if e.protocol == "udp" && has_ike_port e then first_concerned e rules else none

unfoldable pub stale_ike_entry : CtEntry → IkePortSnatRule → Bool
stale_ike_entry e rule =
    e.unreplied
    || (e.original_source_ip == rule.source_ip && not (e.reply_destination_ip == rule.host_ip))

unfoldable pub delete_if : Oracle → CtEntry → Option IkePortSnatRule → Op (Unit {0})
unfolding stale_ike_entry
delete_if oracle e none = pure tt
delete_if oracle e (some rule) =
    if stale_ike_entry e rule
    then ignore (perform oracle routing_failed (run (delete_args e)))
    else pure tt

unfoldable pub delete_stale : Oracle → Map IkePortSnatRule → List CtEntry → Op (Unit {0})
unfolding matching_ike_rule delete_if
delete_stale oracle rules [] = pure tt
delete_stale oracle rules (e ∷ es) =
    delete_if oracle e (matching_ike_rule e rules) >> delete_stale oracle rules es

unfoldable pub sweep : Oracle → Map IkePortSnatRule → Option (List CtEntry) → Op (Unit {0})
unfolding delete_stale
sweep oracle rules none = pure tt
sweep oracle rules (some es) = delete_stale oracle rules es

-- Fifteen seconds have passed since the last sweep, or there was none.
abbrev pub sweep_due : ℕ → Option ℕ → Bool
sweep_due now none = true
sweep_due now (some t) = not (ltb (now - t) 15)

-- `none` is a listing that failed.
unfoldable pub flush_stale_ike_conntrack :
    Oracle → ℕ → Map IkePortSnatRule → Option (List CtEntry) → Op (Unit {0})
unfolding sweep
flush_stale_ike_conntrack oracle now rules entries = do
  w ← get
  (if eqb (length rules) 0 || not (sweep_due now w.last_ike_sweep)
      then pure tt
      else (do modify (λ w. record w { last_ike_sweep = some now }); sweep oracle rules entries))
