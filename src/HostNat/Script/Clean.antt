-- ===== src/HostNat/Script/Clean.antt =====
-- No part of a validated rule holds a special character.
use network_plugin_manager.Prelude.{
  ◌≡◌, refl, inl, inr, String, true, List, [], ◌∷◌, ◌==◌, Result, ok, >>=-eq-ok, arith, eq_iff, All,
  Bool-cases,
}
use network_plugin_manager.Go.Text.{any_char, all_chars}
use network_plugin_manager.Go.Text.Lines.{IsClean, IsPlain, plain-IsClean, is_special, no_special}
use network_plugin_manager.Go.Netip.Laws.{parse_addr-clean, parse_prefix-clean}
use network_plugin_manager.HostNat.{MasqRule, IkePortSnatRule, Error}
use network_plugin_manager.HostNat.Validate.{
  is_interface_char, is_interface_name, is_nat_subnet, is_nat_address, is_ike_port, each,
  check_peer, validate_masq, validate_ike,
}

subnet-IsPlain : (s : String) → is_nat_subnet s ≡ true → IsPlain s
unfolding is_nat_subnet
subnet-IsPlain s h =
    parse_prefix-clean is_special no_special refl refl refl refl s (λ e. ground (arith, e))

address-IsPlain : (s : String) → is_nat_address s ≡ true → IsPlain s
unfolding is_nat_address
address-IsPlain s h = parse_addr-clean is_special no_special refl s (λ e. ground (arith, e))

interface_chars-IsPlain : (s : String) → all_chars is_interface_char s ≡ true → IsPlain s
unfolding all_chars any_char
interface_chars-IsPlain String.[] h = refl
interface_chars-IsPlain (String.◌∷◌ c s) h = ground (arith, interface_chars-IsPlain s)

interface-IsPlain : (s : String) → is_interface_name s ≡ true → IsPlain s
unfolding is_interface_name
interface-IsPlain s h = interface_chars-IsPlain s (ground arith)

port-IsPlain : (s : String) → is_ike_port s ≡ true → IsPlain s
unfolding is_ike_port any_char
port-IsPlain s h = elim (Bool-cases (s == "500")) [
  | inl e ↦ rw ((eq_iff s "500").0 e) refl
  | inr f ↦ rw ((eq_iff s "4500").0 (ground arith)) refl
]

-- All texts of a rule are such texts.
pub record IsMasqMade (Q : String → Type 0) (r : MasqRule) : Type 0 where
  pub subnet : Q r.subnet
  pub bridge : Q r.bridge
  pub peers : All Q r.peers

pub record IsIkeMade (Q : String → Type 0) (r : IkePortSnatRule) : Type 0 where
  pub source : Q r.source_ip
  pub host : Q r.host_ip
  pub bridge : Q r.bridge
  pub port : Q r.port

abbrev pub IsMasqClean : MasqRule → Type 0
IsMasqClean = IsMasqMade IsClean

abbrev pub IsIkeClean : IkePortSnatRule → Type 0
IsIkeClean = IsIkeMade IsClean

pub masq_clean : (r : MasqRule) → IsMasqMade IsPlain r → IsMasqClean r
masq_clean r p = record {
  subnet = plain-IsClean r.subnet p.subnet;
  bridge = plain-IsClean r.bridge p.bridge;
  peers = all_clean r.peers p.peers;
}
  where
    all_clean : (ps : List String) → All IsPlain ps → All IsClean ps
    all_clean [] a = tt
    all_clean (x ∷ ps) a = (plain-IsClean x a.0, all_clean ps a.1)

pub ike_clean : (r : IkePortSnatRule) → IsIkeMade IsPlain r → IsIkeClean r
ike_clean r p = record {
  source = plain-IsClean r.source_ip p.source;
  host = plain-IsClean r.host_ip p.host;
  bridge = plain-IsClean r.bridge p.bridge;
  port = plain-IsClean r.port p.port;
}

peers-IsPlain : (ps : List String) → each check_peer ps ≡ ok tt → All IsPlain ps
unfolding each
peers-IsPlain [] h = tt
peers-IsPlain (p ∷ ps) h =
    let (u, c, r) = >>=-eq-ok (check_peer p) _ h in
    (subnet-IsPlain p (ground arith), peers-IsPlain ps r)

pub validate_masq-IsMasqMade :
    (e : String × MasqRule) → validate_masq e ≡ ok tt → IsMasqMade IsPlain e.1
unfolding validate_masq
validate_masq-IsMasqMade (k, r) h = record {
  subnet = subnet-IsPlain r.subnet (ground arith);
  bridge = interface-IsPlain r.bridge (ground arith);
  peers = peers-IsPlain r.peers (ground arith);
}

pub validate_ike-IsIkeMade :
    (e : String × IkePortSnatRule) → validate_ike e ≡ ok tt → IsIkeMade IsPlain e.1
unfolding validate_ike any_char
validate_ike-IsIkeMade (k, r) h = record {
  source = address-IsPlain r.source_ip (ground arith);
  host = address-IsPlain r.host_ip (ground arith);
  bridge = elim (Bool-cases (r.bridge == "")) [
    | inl e ↦ rw ((eq_iff r.bridge "").0 e) refl
    | inr f ↦ interface-IsPlain r.bridge (ground arith)
  ];
  port = port-IsPlain r.port (ground arith);
}

pub each-All {ℓ} :
    {A : Type ℓ} (check : A → Result Error (Unit {0})) (xs : List A)
    → each check xs ≡ ok tt
    → All (λ x. check x ≡ ok tt) xs
unfolding each
each-All check [] h = tt
each-All check (x ∷ xs) h = let (u, c, r) = >>=-eq-ok (check x) _ h in (c, each-All check xs r)
