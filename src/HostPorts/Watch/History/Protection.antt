-- ===== src/HostPorts/Watch/History/Protection.antt =====
-- Every step of a history keeps the invariant of the node.
use network_plugin_manager.Prelude.{
  ◌≡◌, ◌≢◌, refl, sym, inl, inr, ◌⊎◌, ap, ◌∙◌, subst, String, Bool, true, false, some, List, [],
  ◌∷◌, Result, ok, err, arith, Bool-cases,
}
use network_plugin_manager.Go.Map.{Map, member, lookup}
use network_plugin_manager.Firewall.{Backend}
use network_plugin_manager.Effects.{World}
use network_plugin_manager.Effects.Triple.{Triple, Ends}
use network_plugin_manager.HostPorts.{RuleSet, Error, localnet_unknown}
use network_plugin_manager.HostPorts.Localnet.{Node, Op, load_route_localnet_state, valid_names}
use network_plugin_manager.HostPorts.Localnet.Invariant.{Shields, Inv}
use network_plugin_manager.HostPorts.Apply.{Answers, bridges_of, apply}
use network_plugin_manager.HostPorts.Apply.Protection.{Applied, apply-Triple}
use network_plugin_manager.HostPorts.Watch.{change_round, repair_once, Machine, started, watch}
use network_plugin_manager.HostPorts.Parse.{validate_bridge_name}
use network_plugin_manager.HostPorts.Watch.History.{
  Event, start, change, repair, stop, unhook, when_running, step, history, fresh,
}
use network_plugin_manager.HostPorts.Watch.Rounds.{change_round-Triple, repair_once-Triple}

module _ (initial : String → Bool) (mode : String) where
  abbrev Safe : Node → Type 0
  Safe = Inv initial mode

  -- What the state file holds is what is known, so a new watcher knows it again.
  valid_names-same :
      (m : Map Bool) (whole : Result Error (Map Bool)) (known : Map Bool)
      → valid_names m whole ≡ ok known
      → whole ≡ ok known
  unfolding valid_names
  valid_names-same [] whole known e = cc
  valid_names-same (e ∷ m) whole known h =
      checked (validate_bridge_name e.0) h (valid_names-same m whole known)
    where
      checked :
          (r : Result Error (Unit {0}))
          → (elim r as (λ x. Result Error (Map Bool)) [
            | err x ↦ err localnet_unknown
            | ok done ↦ valid_names m whole
          ])
            ≡ ok known
          → (valid_names m whole ≡ ok known → whole ≡ ok known)
          → whole ≡ ok known
      checked (ok done) k rest = rest k
      checked (err x) k rest = absurd (ground (arith, k))

  watch-Safe :
      (readable : Bool) (w : World Node) → Safe w.state → Safe (watch readable w).world.state
  unfolding watch load_route_localnet_state
  watch-Safe false w i = i
  watch-Safe true w i = loaded (valid_names w.state.saved (ok w.state.saved)) refl
    where
      loaded :
          (r : Result Error (Map Bool))
          → valid_names w.state.saved (ok w.state.saved) ≡ r
          → Safe (started w r).world.state
      loaded (err e) h = i
      loaded (ok original) h =
          let same : original ≡ w.state.original =
            sym (ground (arith, valid_names-same w.state.saved (ok w.state.saved) original h))
            ∙ i.kept in
          record {
            owned = λ b.
                subst (λ m. (w.state.localnet b ≡ initial b) ⊎ (lookup b m ≡ some (initial b)))
                  (sym same) (i.owned b);
            known = λ b v h. i.known b v (ground (arith, h, same));
            kept = i.kept ∙ sym same;
            guarded = i.guarded;
            filled = i.filled;
            backend = i.backend;
          }

  running-Safe :
      (round : Op (Result Error (Unit {0})))
      → Triple Safe round (λ _. Safe) Safe
      → (world : World Node) (running : Bool) → Safe world.state
      → Safe (when_running round (record { world = world; running = running })).world.state
  running-Safe round t w false i = i
  running-Safe round t w true i = ended (round w).0.state (round w).1 (t.ends w i)
    where
      ended :
          (n : Node) (r : Result Error (Result Error (Unit {0})))
          → Ends (λ _. Safe) Safe n r
          → Safe n
      ended n (ok done) h = h
      ended n (err e) h = h

  step-Safe : (e : Event) (m : Machine) → Safe m.world.state → Safe (step e m).world.state
  unfolding step
  step-Safe (start readable) m i = elim (Bool-cases (m.running)) [
    | inl e ↦ ground (arith, e, i)
    | inr e ↦ ground (arith, e, watch-Safe readable m.world i)
  ]
  step-Safe (change r) m i =
      running-Safe (change_round r) (change_round-Triple initial mode r) m.world m.running i
  step-Safe (repair r table) m i =
      running-Safe (repair_once r table) (repair_once-Triple initial mode r table) m.world m.running
        i
  step-Safe stop m i = i
  step-Safe unhook m i = record {
    owned = i.owned;
    known = i.known;
    kept = i.kept;
    guarded = λ b on off. tt;
    filled = i.filled;
    backend = i.backend;
  }

  history-Safe :
      (es : List Event) (m : Machine) → Safe m.world.state → Safe (history es m).world.state
  unfolding history
  history-Safe [] m i = i
  history-Safe (e ∷ es) m i = history-Safe es (step e m) (step-Safe e m i)

fresh-Safe :
    (backend : Backend) (initial : String → Bool)
    → Inv initial backend.mode (fresh backend initial).world.state
unfolding lookup
fresh-Safe backend initial = record {
  owned = λ b. inl refl;
  known = λ b v h. cc;
  kept = refl;
  guarded = λ b on off. tt;
  filled = λ b on off. absurd (ground (arith, on, off));
  backend = refl;
}

reached :
    (backend : Backend) (initial : String → Bool) (es : List Event)
    → Inv initial backend.mode (history es (fresh backend initial)).world.state
reached backend initial es =
    history-Safe initial backend.mode es (fresh backend initial) (fresh-Safe backend initial)

-- In every history of a host, whichever commands fail: a bridge whose setting is on, and was off at first, is among
-- those that the guard protects, while there is a guard.
pub history-Shields :
    (backend : Backend) (initial : String → Bool) (es : List Event) (bridge : String)
    → (history es (fresh backend initial)).world.state.localnet bridge ≡ true
    → initial bridge ≡ false
    → Shields ((history es (fresh backend initial)).world.state.guard) bridge
history-Shields backend initial es bridge on off =
    (reached backend initial es).guarded bridge on off

-- In every history of a host, whichever commands fail: a bridge whose setting is not what it was at first is
-- recorded in the state file, with what it was.
pub history_owned :
    (backend : Backend) (initial : String → Bool) (es : List Event) (bridge : String)
    → (history es (fresh backend initial)).world.state.localnet bridge ≢ initial bridge
    → lookup bridge ((history es (fresh backend initial)).world.state.saved) ≡ some (initial bridge)
history_owned backend initial es bridge k =
    let i = reached backend initial es in
    elim (i.owned bridge) [ inl e ↦ absurd (k e) | inr e ↦ ap (lookup bridge) i.kept ∙ e ]

-- After any history of a host, an application of rules that succeeds leaves every bridge that they do not open to
-- the host's loopback addresses as it was at first, guards the others, and records the rules.
pub apply_restores :
    (backend : Backend) (initial : String → Bool) (es : List Event) (a : Answers) (rules : RuleSet)
    (bridge : String)
    → (apply a rules (history es (fresh backend initial)).world).1 ≡ ok tt
    → member bridge (bridges_of rules) ≡ false
    → ((apply a rules (history es (fresh backend initial)).world).0.state.localnet bridge
        ≡ initial bridge)
      × ((apply a rules (history es (fresh backend initial)).world).0.state.guard
          ≡ some (bridges_of rules))
      × ((apply a rules (history es (fresh backend initial)).world).0.state.applied ≡ rules)
apply_restores backend initial es a rules bridge e outside =
    let w = (history es (fresh backend initial)).world in
    let h : Applied initial backend.mode a rules (apply a rules w).0.state =
      ended (apply a rules w).0.state (apply a rules w).1 e
        ((apply-Triple initial backend.mode a rules).ends w (reached backend initial es)) in
    (h.restored bridge outside, h.guard, h.applied)
  where
    ended :
        (n : Node) (r : Result Error (Unit {0}))
        → r ≡ ok tt
        → Ends (λ _. Applied initial backend.mode a rules) (Inv initial backend.mode) n r
        → Applied initial backend.mode a rules n
    ended n (ok done) q h = h
    ended n (err x) q h = absurd (ground (arith, q))
