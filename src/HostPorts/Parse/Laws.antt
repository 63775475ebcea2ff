-- ===== src/HostPorts/Parse/Laws.antt =====
-- What the parser of port definitions accepts, and that it reads what it should.
use Prim.Native.String.{len}
use network_plugin_manager.HostPorts.Nft.Plain.{IsPortOf, validate_port-IsPortOf}
use network_plugin_manager.Go.Text.Lines.{IsPlain}
use network_plugin_manager.Prelude.{
  ◌≤◌, sym, subst, inl, inr, Option, Option-cases, ℕ, ◌≡◌, ◌≢◌, ◌↔◌, refl, ◌⊎◌, ap, ◌∙◌, String,
  Bool, true, false, none, some, List, [], ◌∷◌, ◌<>◌, ok, arith, eq_iff, eqb,
}
use network_plugin_manager.Go.Text.{split, any_char, is_digit}
use network_plugin_manager.Go.Text.Laws.{any_char-append, split-append, split_whole}
use network_plugin_manager.Go.Number.Laws.{atoi-clean}
use network_plugin_manager.Go.Netip.Laws.{parse_addr-clean}
use network_plugin_manager.Go.Number.{ℤ, pos, negsuc, atoi}
use network_plugin_manager.Go.Netip.{parse_addr}
use network_plugin_manager.HostPorts.{PortRule}
use network_plugin_manager.HostPorts.Parse.{
  valid_port, validate_bridge_name, is_addr, is_protocol, validate_port_rule, rule_of, target_of,
  parse_port_rule,
}

-- A rule that is safe to write into a firewall script.
pub record IsPublishable (rule : PortRule) : Type 0 where
  pub bridge : (rule.bridge ≡ "") ⊎ (validate_bridge_name rule.bridge ≡ ok tt)
  pub source : is_addr rule.source_ip ≡ true
  pub target : is_addr rule.target_ip ≡ true
  pub source_port : valid_port rule.source_port ≡ true
  pub target_port : valid_port rule.target_port ≡ true
  pub protocol : is_protocol rule.protocol ≡ true

validate-IsPublishable : (rule : PortRule) → validate_port_rule rule ≡ ok tt → IsPublishable rule
unfolding validate_port_rule
validate-IsPublishable rule h = ground (arith, eq_iff rule.bridge "")

IsPublishable-validate : (rule : PortRule) → IsPublishable rule → validate_port_rule rule ≡ ok tt
unfolding validate_port_rule
IsPublishable-validate rule p = ground (arith, eq_iff rule.bridge "", p.bridge)

-- The validation passes exactly the rules that are safe to write.
pub validate_port_rule_iff :
    (rule : PortRule) → (validate_port_rule rule ≡ ok tt) ↔ IsPublishable rule
validate_port_rule_iff rule = (validate-IsPublishable rule, IsPublishable-validate rule)

rule_of_sound :
    (bridge target_ip : String) (parts : List String) (rule : PortRule)
    → rule_of bridge target_ip parts ≡ some rule
    → validate_port_rule rule ≡ ok tt
unfolding rule_of
rule_of_sound bridge target_ip (a ∷ (b ∷ (c ∷ []))) rule h = ground arith
rule_of_sound bridge target_ip _ rule h = cc

-- A text of a number from 1 to 65535
pub record IsPort (s : String) : Type 0 where
  pub number : ℕ
  pub reads : atoi s ≡ some (pos number)
  pub least : 1 ≤ number
  pub most : number ≤ 65535

-- What the rule says: which addresses, ports and protocol, and a bridge of at most 15 characters, if any. All of
-- its texts are made of letters, digits and the signs . _ - : / + alone.
pub record IsSafeRule (rule : PortRule) : Type 0 where
  pub source : ℕ
  pub source_reads : parse_addr rule.source_ip ≡ some source
  pub target : ℕ
  pub target_reads : parse_addr rule.target_ip ≡ some target
  pub source_port : IsPort rule.source_port
  pub target_port : IsPort rule.target_port
  pub protocol : (rule.protocol ≡ "tcp") ⊎ (rule.protocol ≡ "udp")
  pub bridge : len rule.bridge ≤ 15
  pub plain : IsPortOf IsPlain rule

valid_port-IsPort : (s : String) → valid_port s ≡ true → IsPort s
unfolding valid_port
valid_port-IsPort s h = read (atoi s) refl
  where
    read : (o : Option ℤ) → atoi s ≡ o → IsPort s
    read none e = absurd (ground (arith, h, e))
    read (some (negsuc n)) e = absurd (ground (arith, h, e))
    read (some (pos n)) e = record {
      number = n;
      reads = e;
      least = ground (arith, h, e);
      most = ground (arith, h, e);
    }

address-reads : (s : String) → is_addr s ≡ true → (a : ℕ) × (parse_addr s ≡ some a)
address-reads s h = elim (Option-cases (parse_addr s)) [
  | inl e ↦ absurd (ground (arith, h, e))
  | inr r ↦ r
]

IsPublishable-IsSafeRule :
    (rule : PortRule) → validate_port_rule rule ≡ ok tt → IsPublishable rule → IsSafeRule rule
unfolding is_protocol validate_bridge_name
IsPublishable-IsSafeRule rule v p = record {
  source = (address-reads rule.source_ip p.source).0;
  source_reads = (address-reads rule.source_ip p.source).1;
  target = (address-reads rule.target_ip p.target).0;
  target_reads = (address-reads rule.target_ip p.target).1;
  source_port = valid_port-IsPort rule.source_port p.source_port;
  target_port = valid_port-IsPort rule.target_port p.target_port;
  protocol = ground (arith, p.protocol, eq_iff rule.protocol "tcp", eq_iff rule.protocol "udp");
  bridge = elim (p.bridge) [
    | inl e ↦ subst (λ b. len b ≤ 15) (sym e) (ground arith)
    | inr e ↦ ground (arith, e)
  ];
  plain = validate_port-IsPortOf ("", rule) v;
}

-- A definition that is accepted gives a rule with IPv4 addresses, ports from 1 to 65535, tcp or udp, and a bridge of
-- at most 15 characters, if any; and no text of it has a blank, a quote, a newline or another character but
-- letters, digits and the signs . _ - : / +.
pub parse_port_rule_sound :
    (bridge target_ip def : String) (rule : PortRule)
    → parse_port_rule bridge target_ip def ≡ some rule
    → IsSafeRule rule
unfolding parse_port_rule
parse_port_rule_sound bridge target_ip def rule h =
    let v = rule_of_sound bridge target_ip (split b':' def) rule h in
    IsPublishable-IsSafeRule rule v (validate-IsPublishable rule v)

-- A definition with all its parts, as an operator writes it.
pub port_def : String → String → String → String → String
port_def source_ip source_port target_port proto =
    source_ip <> (":" <> (source_port <> (":" <> (target_port <> ("/" <> proto)))))

abbrev is_colon : ℕ → Bool
is_colon c = eqb c b':'

abbrev is_slash : ℕ → Bool
is_slash c = eqb c b'/'

valid_port-atoi : (s : String) → valid_port s ≡ true → atoi s ≢ none
unfolding valid_port
valid_port-atoi s h e = ground arith

is_addr-parse : (s : String) → is_addr s ≡ true → parse_addr s ≢ none
is_addr-parse s h e = ground arith

protocol-clean :
    (q : ℕ → Bool) (p : String)
    → any_char q "tcp" ≡ false
    → any_char q "udp" ≡ false
    → is_protocol p ≡ true
    → any_char q p ≡ false
unfolding is_protocol
protocol-clean q p t u h = ground (arith, eq_iff p "tcp", eq_iff p "udp", ap (any_char q))

split-port_def :
    (source_ip source_port target_port proto : String)
    → is_addr source_ip ≡ true
    → valid_port source_port ≡ true
    → valid_port target_port ≡ true
    → is_protocol proto ≡ true
    → split b':' (port_def source_ip source_port target_port proto)
      ≡ source_ip ∷ source_port ∷ (target_port <> ("/" <> proto)) ∷ []
unfolding port_def any_char
split-port_def source_ip source_port target_port proto i s t p =
    let no_digit : (c : ℕ) → is_digit c ≡ true → is_colon c ≡ false = λ c h. ground arith in
    let ci = parse_addr-clean is_colon no_digit refl source_ip (is_addr-parse source_ip i) in
    let cs = atoi-clean is_colon no_digit refl refl source_port (valid_port-atoi source_port s) in
    let ct = atoi-clean is_colon no_digit refl refl target_port (valid_port-atoi target_port t) in
    let cp = protocol-clean is_colon proto refl refl p in
    let last : any_char is_colon (target_port <> ("/" <> proto)) ≡ false = ground (
      arith,
      any_char-append is_colon target_port ("/" <> proto),
      any_char-append is_colon "/" proto,
      ct,
      cp,
    ) in
    split-append ":" source_ip _ ci
    ∙ ap (◌∷◌ source_ip) (
        split-append ":" source_port _ cs
        ∙ ap (◌∷◌ source_port) (split_whole b':' (target_port <> ("/" <> proto)) last))

split-target :
    (target_port proto : String)
    → valid_port target_port ≡ true
    → is_protocol proto ≡ true
    → split b'/' (target_port <> ("/" <> proto)) ≡ target_port ∷ proto ∷ []
unfolding any_char
split-target target_port proto t p =
    let no_digit : (c : ℕ) → is_digit c ≡ true → is_slash c ≡ false = λ c h. ground arith in
    let ct = atoi-clean is_slash no_digit refl refl target_port (valid_port-atoi target_port t) in
    split-append "/" target_port proto ct
    ∙ ap (◌∷◌ target_port) (split_whole b'/' proto (protocol-clean is_slash proto refl refl p))

-- Written with all its parts, a definition of publishable parts is read back as exactly these.
pub parse_port_rule-port_def :
    (rule : PortRule)
    → IsPublishable rule
    → rule.masquerade_dnat ≡ false
    → parse_port_rule rule.bridge rule.target_ip
        (port_def rule.source_ip rule.source_port rule.target_port rule.protocol)
      ≡ some rule
unfolding parse_port_rule rule_of target_of
parse_port_rule-port_def rule p m =
    rw
      (
        split-port_def rule.source_ip rule.source_port rule.target_port rule.protocol p.source
            p.source_port p.target_port p.protocol,
        rule_of,
        split-target rule.target_port rule.protocol p.target_port p.protocol,
      )
      (ground (arith, p.source_port, p.target_port, p.protocol, IsPublishable-validate rule p, m))
