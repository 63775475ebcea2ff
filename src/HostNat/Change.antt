-- ===== src/HostNat/Change.antt =====
-- `onChange` of hostnat/watcher.go: from the metadata to rules in force.
use network_plugin_manager.Prelude.{
  ℕ, ◌-◌, String, Bool, true, false, not, ◌&&◌, ◌||◌, Option, none, some, List, [], ◌∷◌, ◌==◌,
  Result, ok, err, ltb, eqb, all, length, if◌then◌else◌,
}
use network_plugin_manager.Go.Map.{Map, lookup}
use network_plugin_manager.Metadata.{Client}
use network_plugin_manager.Identity.{Docker, local_host}
use network_plugin_manager.Conntrack.{CtEntry}
use network_plugin_manager.Effects.{outcome, Oracle, ◌>>=◌, ◌>>◌, pure, lift, get}
use network_plugin_manager.HostNat.{MasqRule, IkePortSnatRule, RuleSet, Error, local_host_unknown}
use network_plugin_manager.HostNat.Build.{build_rules}
use network_plugin_manager.HostNat.Apply.{Op, apply, report_status}
use network_plugin_manager.HostNat.Stale.{flush_stale_ike_conntrack}

abbrev pub texts_eq : List String → List String → Bool
texts_eq [] [] = true
texts_eq (s ∷ ss) (t ∷ ts) = s == t && texts_eq ss ts
texts_eq _ _ = false

abbrev pub masq_eq : MasqRule → MasqRule → Bool
masq_eq a b = a.subnet == b.subnet && a.bridge == b.bridge && texts_eq a.peers b.peers

abbrev pub ike_eq : IkePortSnatRule → IkePortSnatRule → Bool
ike_eq a b =
    a.source_ip == b.source_ip && a.host_ip == b.host_ip && a.bridge == b.bridge && a.port == b.port

-- Two maps have the same keys, with equal values.
unfoldable pub map_eq : {V : Type 0} → (V → V → Bool) → Map V → Map V → Bool
unfolding lookup
map_eq eq m n =
    eqb (length m) (length n)
    && all (λ e. elim (lookup e.0 n) [ none ↦ false | some v ↦ eq e.1 v ]) m

-- reflect.DeepEqual. The zero rule set, with nil maps, differs from every one that is built. A nil slice of
-- peers counts as an empty one here: where only that differs, the source applies the rules again.
unfoldable pub deep_equal : Option RuleSet → RuleSet → Bool
unfolding map_eq
deep_equal none rules = false
deep_equal (some r) rules = map_eq masq_eq r.masq rules.masq && map_eq ike_eq r.ike rules.ike

-- More than five minutes have passed since the rules were applied.
abbrev pub reapply_due : ℕ → Option ℕ → Bool
reapply_due now none = true
reapply_due now (some t) = ltb 300 (now - t)

abbrev pub new_rules : Client → Docker → Result Error RuleSet
new_rules c d = elim (local_host c d) [
  | err e ↦ err local_host_unknown
  | ok host ↦ build_rules c host
]

unfoldable pub on_change : Oracle → ℕ → Client → Docker → Option (List CtEntry) → Op (Unit {0})
unfolding deep_equal
on_change oracle now c d entries = do
  rules ← lift (new_rules c d)
  w ← get
  (if not (deep_equal w.applied rules) || reapply_due now w.last_applied
      then apply oracle now rules
      else flush_stale_ike_conntrack oracle now rules.ike entries)

-- One round of the loop of `onChangeNoError`: the outcome is reported, and says whether to go on.
unfoldable pub change_round :
    Oracle → ℕ → Client → Docker → Option (List CtEntry) → Op (Result Error (Unit {0}))
unfolding on_change report_status
change_round oracle now c d entries = do
  result ← outcome (on_change oracle now c d entries)
  report_status oracle result
  pure result
