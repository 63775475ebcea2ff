-- ===== src/HostPorts/Nft/Plain.antt =====
-- No text of a validated rule holds a character that is special in a firewall script.
use network_plugin_manager.Prelude.{
  ◌≡◌, refl, inl, inr, String, true, ◌==◌, ok, arith, eq_iff, Bool-cases,
}
use network_plugin_manager.Go.Text.{any_char, all_chars}
use network_plugin_manager.Go.Text.Lines.{is_special, IsPlain, no_special}
use network_plugin_manager.Go.Number.Laws.{atoi-clean}
use network_plugin_manager.Go.Netip.Laws.{parse_addr-clean, parse_prefix-clean}
use network_plugin_manager.HostPorts.{PortRule}
use network_plugin_manager.HostPorts.Parse.{
  valid_port, is_bridge_char, validate_bridge_name, is_addr, is_protocol, validate_port_rule,
}
use network_plugin_manager.HostPorts.Rules.{is_subnet}

pub address-IsPlain : (s : String) → is_addr s ≡ true → IsPlain s
address-IsPlain s h = parse_addr-clean is_special no_special refl s (λ e. ground (arith, e))

pub subnet-IsPlain : (s : String) → is_subnet s ≡ true → IsPlain s
unfolding is_subnet
subnet-IsPlain s h =
    parse_prefix-clean is_special no_special refl refl refl refl s (λ e. ground (arith, e))

pub port-IsPlain : (s : String) → valid_port s ≡ true → IsPlain s
unfolding valid_port
port-IsPlain s h = atoi-clean is_special no_special refl refl s (λ e. ground (arith, e))

protocol-IsPlain : (s : String) → is_protocol s ≡ true → IsPlain s
unfolding is_protocol any_char
protocol-IsPlain s h = elim (Bool-cases (s == "tcp")) [
  | inl e ↦ rw ((eq_iff s "tcp").0 e) refl
  | inr f ↦ rw ((eq_iff s "udp").0 (ground arith)) refl
]

bridge_chars-IsPlain : (s : String) → all_chars is_bridge_char s ≡ true → IsPlain s
unfolding all_chars any_char
bridge_chars-IsPlain String.[] h = refl
bridge_chars-IsPlain (String.◌∷◌ c s) h = ground (arith, bridge_chars-IsPlain s)

pub bridge-IsPlain : (s : String) → validate_bridge_name s ≡ ok tt → IsPlain s
unfolding validate_bridge_name
bridge-IsPlain s h = bridge_chars-IsPlain s (ground arith)

-- All texts of a port's rule are such texts.
pub record IsPortOf (Q : String → Type 0) (p : PortRule) : Type 0 where
  pub bridge : Q p.bridge
  pub source_ip : Q p.source_ip
  pub source_port : Q p.source_port
  pub target_ip : Q p.target_ip
  pub target_port : Q p.target_port
  pub protocol : Q p.protocol

pub validate_port-IsPortOf :
    (e : String × PortRule) → validate_port_rule e.1 ≡ ok tt → IsPortOf IsPlain e.1
unfolding validate_port_rule any_char
validate_port-IsPortOf (k, p) h = record {
  bridge = elim (Bool-cases (p.bridge == "")) [
    | inl e ↦ rw ((eq_iff p.bridge "").0 e) refl
    | inr f ↦ bridge-IsPlain p.bridge (ground arith)
  ];
  source_ip = address-IsPlain p.source_ip (ground arith);
  source_port = port-IsPlain p.source_port (ground arith);
  target_ip = address-IsPlain p.target_ip (ground arith);
  target_port = port-IsPlain p.target_port (ground arith);
  protocol = protocol-IsPlain p.protocol (ground arith);
}
