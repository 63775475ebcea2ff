-- ===== src/HostPorts/Nft/Whole.antt =====
-- The batch of a validated rule set has the lines that were written, whatever the metadata holds.
use network_plugin_manager.Prelude.{
  ◌≡◌, refl, String, Bool, true, false, List, [], ◌∷◌, ◌++◌, ok, All,
}
use network_plugin_manager.Go.Text.{any_char, split}
use network_plugin_manager.Go.Text.Laws.{split-unlines}
use network_plugin_manager.Go.Text.Lines.{
  concat_map, IsClean, glue-IsClean, append-All, concat_map-All,
}
use network_plugin_manager.Go.Map.{Distinct}
use network_plugin_manager.HostPorts.{PortRule, RuleSet}
use network_plugin_manager.HostPorts.Rules.{
  validate_rule_set, sorted_forward_networks, sorted_shared_ingress_networks, sorted_forward_peers,
}
use network_plugin_manager.HostPorts.Nft.{
  sorted_enabled_bridges, port_rules, nft_prerouting, nft_output, nft_postrouting, nft_network,
  nft_shared, nft_pair, nft_forwarded, nft_guard, Chain, raw_rules, forward_rules, nft_chains,
  chain_lines, nft_batch_lines, nft_hostport_batch,
}
use network_plugin_manager.HostPorts.Nft.Clean.{
  IsPortClean, IsNetworkClean, IsPairClean, AreClean, ArePlain, validate-AreClean,
  validate-ArePlain,
}
use network_plugin_manager.HostPorts.Nft.Lines.{
  prerouting-IsClean, output-IsClean, postrouting-IsClean, forwarded-IsClean, network-IsClean,
  shared-IsClean, pair-IsClean, guard-IsClean,
}

raw_rules-IsClean : (r : RuleSet) → AreClean r → All IsClean (raw_rules r)
unfolding raw_rules
raw_rules-IsClean r c =
    concat_map-All IsClean nft_guard (sorted_enabled_bridges r.route_localnet_bridges) guard-IsClean
      c.guarded

forward_rules-IsClean : (r : RuleSet) → AreClean r → All IsClean (forward_rules r)
unfolding forward_rules any_char
forward_rules-IsClean r c =
    append-All IsClean _ _
      (concat_map-All IsNetworkClean nft_network (sorted_forward_networks r) network-IsClean
        c.networks)
      (append-All IsClean _ _
        (concat_map-All IsNetworkClean nft_shared (sorted_shared_ingress_networks r) shared-IsClean
          c.shared)
        (append-All IsClean _ _
          (concat_map-All IsPairClean nft_pair (sorted_forward_peers r) pair-IsClean c.pairs)
          (append-All IsClean _ _
            (concat_map-All IsPortClean nft_forwarded (port_rules r) forwarded-IsClean c.ports)
            (refl, (refl, tt)))))

ports-AreClean :
    (r : RuleSet) (f : PortRule → List String)
    → ((p : PortRule) → IsPortClean p → All IsClean (f p))
    → AreClean r
    → All IsClean (concat_map f (port_rules r))
ports-AreClean r f h c = concat_map-All IsPortClean f (port_rules r) h c.ports

closed-IsClean : (ls : List String) → All IsClean ls → All IsClean (ls ++ " }" ∷ [])
unfolding any_char
closed-IsClean ls a = append-All IsClean ls _ a (refl, tt)

record IsChainClean (c : Chain) : Type 0 where
  name : IsClean c.name
  base : IsClean c.base
  rules : All IsClean c.rules

chain_lines-IsClean : (c : Chain) → IsChainClean c → All IsClean (chain_lines c)
unfolding any_char
chain_lines-IsClean c k = (
  glue-IsClean (" chain " ∷ c.name ∷ " {" ∷ []) (refl, (k.name, (refl, tt))),
  (
    glue-IsClean ("  type " ∷ c.base ∷ "; policy accept;" ∷ []) (refl, (k.base, (refl, tt))),
    closed-IsClean c.rules k.rules,
  ),
)

chains-IsClean : (r : RuleSet) → AreClean r → All IsChainClean (nft_chains r)
unfolding nft_chains any_char
chains-IsClean r c = (
  record { name = refl; base = refl; rules = raw_rules-IsClean r c },
  (
    record {
      name = refl;
      base = refl;
      rules = ports-AreClean r nft_prerouting prerouting-IsClean c;
    },
    (
      record { name = refl; base = refl; rules = ports-AreClean r nft_output output-IsClean c },
      (
        record {
          name = refl;
          base = refl;
          rules = ports-AreClean r nft_postrouting postrouting-IsClean c;
        },
        (record { name = refl; base = refl; rules = forward_rules-IsClean r c }, tt),
      ),
    ),
  ),
)

written-IsClean :
    (r : RuleSet) → AreClean r → All IsClean (concat_map chain_lines (nft_chains r) ++ "}" ∷ [])
unfolding any_char
written-IsClean r c =
    append-All IsClean (concat_map chain_lines (nft_chains r)) ("}" ∷ [])
      (concat_map-All IsChainClean chain_lines (nft_chains r) chain_lines-IsClean
        (chains-IsClean r c))
      (refl, tt)

batch_lines-IsClean :
    (r : RuleSet) (existing : Bool) → AreClean r → All IsClean (nft_batch_lines r existing)
unfolding nft_batch_lines any_char
batch_lines-IsClean r true c = (refl, (refl, written-IsClean r c))
batch_lines-IsClean r false c = (refl, written-IsClean r c)

-- The batch of a validated rule set, read line by line, has exactly the lines that were written for its
-- chains, whatever texts the metadata holds, with or without the old table in front; and every text that is
-- put into a line is made of letters, digits and the signs . _ - : / + alone, so it ends no quoted text and
-- no statement.
pub nft_hostport_batch-lines :
    (r : RuleSet) (existing : Bool)
    → Distinct r.ports
    → validate_rule_set r ≡ ok tt
    → (split b'\n' (nft_hostport_batch r existing) ≡ nft_batch_lines r existing ++ "" ∷ [])
      × ArePlain r
unfolding nft_hostport_batch
nft_hostport_batch-lines r existing d h = (
  split-unlines (nft_batch_lines r existing)
      (batch_lines-IsClean r existing (validate-AreClean r d h)),
  validate-ArePlain r d h,
)
