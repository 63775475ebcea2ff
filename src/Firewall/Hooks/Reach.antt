-- ===== src/Firewall/Hooks/Reach.antt =====
-- Which chains packets reach, and what a hook of the platform's is.
use network_plugin_manager.Prelude.{◌≡◌, String, true, List, Any}
use network_plugin_manager.Go.Map.{member}
use network_plugin_manager.Firewall.Hooks.{Jump, is_owned, built_in}

abbrev pub Listed : Jump → List Jump → Type 0
Listed j = Any (λ i. i ≡ j)

-- Packets reach the built-in chains, and from a chain the targets of its jumps.
pub data Reaches (js : List Jump) : String → Type 0 where
  root : {c : String} → member c built_in ≡ true → Reaches js c
  follow : {c : String} (j : Jump) → Listed j js → Reaches js j.chain → c ≡ j.target → Reaches js c

-- A reachable jump into a chain of the platform's.
pub record IsHook (js : List Jump) (j : Jump) : Type 0 where
  pub listed : Listed j js
  pub reached : Reaches js j.chain
  pub owned : is_owned j ≡ true

abbrev pub Finds : List Jump → String → Type 0
Finds js line = (j : Jump) × IsHook js j × (j.line ≡ line)
