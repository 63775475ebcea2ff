-- ===== src/HostNat/Validate.antt =====
-- `validateNATRules` of hostnat/watcher.go.
use Prim.Native.String.{len}
use network_plugin_manager.Prelude.{
  ℕ, String, Bool, true, false, not, ◌&&◌, ◌||◌, none, some, List, [], ◌∷◌, ◌==◌, Result, ok, ◌>>◌,
  refuse_if, leb, eqb,
}
use network_plugin_manager.Go.Text.{all_chars, is_letter, is_digit}
use network_plugin_manager.Go.Netip.{parse_addr, parse_prefix}
use network_plugin_manager.HostNat.{
  MasqRule, IkePortSnatRule, RuleSet, Error, invalid_subnet, invalid_bridge, invalid_peer,
  invalid_ike_address, invalid_ike_bridge, unsupported_port,
}

abbrev pub is_interface_char : ℕ → Bool
is_interface_char c =
    is_letter c || is_digit c || eqb c b'_' || eqb c b'.' || eqb c b':' || eqb c b'-'

-- The pattern `interfaceName`
unfoldable pub is_interface_name : String → Bool
is_interface_name s = leb 1 (len s) && leb (len s) 15 && all_chars is_interface_char s

-- An IPv4 prefix that is not the whole address space
unfoldable pub is_nat_subnet : String → Bool
is_nat_subnet subnet = elim (parse_prefix subnet) [ none ↦ false | some p ↦ not (eqb p.bits 0) ]

unfoldable pub is_nat_address : String → Bool
is_nat_address s = elim (parse_addr s) [ none ↦ false | some a ↦ true ]

unfoldable pub is_ike_port : String → Bool
is_ike_port port = port == "500" || port == "4500"

-- A loop that returns at the first error
unfoldable pub each {ℓ} :
    {A : Type ℓ} → (A → Result Error (Unit {0})) → List A → Result Error (Unit {0})
each check [] = ok tt
each check (x ∷ xs) = check x >> each check xs

abbrev pub check_peer : String → Result Error (Unit {0})
check_peer peer = refuse_if (not (is_nat_subnet peer)) invalid_peer

unfoldable pub validate_masq : String × MasqRule → Result Error (Unit {0})
unfolding each
validate_masq (key, rule) = do
  refuse_if (not (is_nat_subnet rule.subnet)) invalid_subnet
  refuse_if (not (is_interface_name rule.bridge)) invalid_bridge
  each check_peer rule.peers

-- The source looks at the two addresses in either order.
unfoldable pub validate_ike : String × IkePortSnatRule → Result Error (Unit {0})
validate_ike (key, rule) = do
  refuse_if (not (is_nat_address rule.source_ip)) invalid_ike_address
  refuse_if (not (is_nat_address rule.host_ip)) invalid_ike_address
  refuse_if (not (rule.bridge == "") && not (is_interface_name rule.bridge)) invalid_ike_bridge
  refuse_if (not (is_ike_port rule.port)) unsupported_port

unfoldable pub validate_nat_rules : RuleSet → Result Error (Unit {0})
unfolding each validate_masq validate_ike is_interface_name is_nat_subnet is_nat_address is_ike_port
validate_nat_rules rules = do each validate_masq rules.masq; each validate_ike rules.ike
