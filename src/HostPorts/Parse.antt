-- ===== src/HostPorts/Parse.antt =====
-- `parsePortRule`, `validPort`, `validatePortRule` and `validateBridgeName` of hostports/watcher.go.
pub mod Laws
use Prim.Native.String.{len}
use network_plugin_manager.Prelude.{
  ℕ, String, Bool, true, false, not, ◌&&◌, ◌||◌, Option, none, some, List, [], ◌∷◌, ◌==◌, Result,
  ok, err, ◌>>=◌, ◌>>◌, refuse_if, leb, ltb, eqb, if◌then◌else◌,
}
use network_plugin_manager.Go.Text.{split, all_chars, is_letter, is_digit}
use network_plugin_manager.Go.Number.{atoi, pos, negsuc}
use network_plugin_manager.Go.Netip.{parse_addr}
use network_plugin_manager.HostPorts.{
  PortRule, Error, invalid_bridge, invalid_address, invalid_port,
}

unfoldable pub valid_port : String → Bool
valid_port port = not (port == "") && elim (atoi port) [
  | none ↦ false
  | some (negsuc n) ↦ false
  | some (pos n) ↦ ltb 0 n && leb n 65535
]

abbrev pub is_bridge_char : ℕ → Bool
is_bridge_char c = is_letter c || is_digit c || eqb c b'_' || eqb c b'-' || eqb c b'.'

unfoldable pub validate_bridge_name : String → Result Error (Unit {0})
validate_bridge_name bridge =
    if bridge == "" || ltb 15 (len bridge)
    then err invalid_bridge
    else if all_chars is_bridge_char bridge
    then ok tt
    else err invalid_bridge

abbrev pub is_addr : String → Bool
is_addr s = elim (parse_addr s) [ none ↦ false | some a ↦ true ]

unfoldable pub is_protocol : String → Bool
is_protocol p = p == "tcp" || p == "udp"

unfoldable pub validate_port_rule : PortRule → Result Error (Unit {0})
unfolding is_protocol
validate_port_rule rule = do
  if rule.bridge == "" then ok tt else validate_bridge_name rule.bridge
  refuse_if (not (is_addr rule.source_ip)) invalid_address
  refuse_if (not (is_addr rule.target_ip)) invalid_address
  refuse_if
      (not (valid_port rule.source_port)
        || not (valid_port rule.target_port)
        || not (is_protocol rule.protocol))
      invalid_port

-- The port and the protocol of the last part; more slashes than one leave it whole.
target_of : String → List String → String × String
target_of whole (port ∷ (proto ∷ [])) = (port, proto)
target_of whole _ = (whole, "tcp")

abbrev if_valid : PortRule → Option PortRule
if_valid rule = elim (validate_port_rule rule) [ ok _ ↦ some rule | err e ↦ none ]

rule_of : String → String → List String → Option PortRule
unfolding target_of split
rule_of bridge target_ip (source_ip ∷ (source_port ∷ (last ∷ []))) =
    let (target_port, proto) = target_of last (split b'/' last) in
    if not (valid_port source_port) || not (valid_port target_port) || not (is_protocol proto)
    then none
    else if_valid (record {
      bridge = bridge;
      source_ip = source_ip;
      source_port = source_port;
      target_ip = target_ip;
      target_port = target_port;
      protocol = proto;
      masquerade_dnat = false;
    })
rule_of bridge target_ip _ = none

-- The source hands over the host's address too and does not read it.
unfoldable pub parse_port_rule : String → String → String → Option PortRule
unfolding rule_of
parse_port_rule bridge target_ip port_def = rule_of bridge target_ip (split b':' port_def)
