-- ===== src/HostPorts/Nft/Lines.antt =====
-- The batch of a validated rule set has the lines that were written, whatever the metadata holds.
use network_plugin_manager.Prelude.{
  refl, inl, inr, String, Bool, true, false, [], ◌∷◌, ◌==◌, All, if◌then◌else◌, Bool-cases,
}
use network_plugin_manager.Go.Text.{any_char}
use network_plugin_manager.Go.Text.Lines.{glue, IsClean, glue-IsClean, append-All}
use network_plugin_manager.HostPorts.{PortRule}
use network_plugin_manager.HostPorts.Rules.{ForwardNetwork, ForwardPair}
use network_plugin_manager.HostPorts.Nft.{
  quoted, local_words, nft_port_match, target_words, nft_dnat, nft_prerouting, nft_output,
  target_match_words, nft_hairpin, nft_masquerade, nft_postrouting, accept_marked, nft_network,
  nft_shared, nft_pair, nft_forwarded, nft_guard,
}
use network_plugin_manager.HostPorts.Nft.Clean.{IsPortClean, IsNetworkClean, IsPairClean}

quoted-IsClean : (bridge : String) → IsClean bridge → IsClean (quoted bridge)
unfolding any_char
quoted-IsClean bridge c = glue-IsClean ("\"" ∷ bridge ∷ "\"" ∷ []) (refl, (c, (refl, tt)))

local-IsClean : (p : PortRule) → IsPortClean p → IsClean (glue (local_words p))
unfolding any_char
local-IsClean p c = glue-IsClean (local_words p) (refl, (address, tt))
  where
    address :
        IsClean (if p.source_ip == "0.0.0.0" then "" else glue (" ip daddr " ∷ p.source_ip ∷ []))
    address = elim (Bool-cases (p.source_ip == "0.0.0.0")) [
      | inl e ↦ rw (e) refl
      | inr e ↦ rw (e) (glue-IsClean (" ip daddr " ∷ p.source_ip ∷ []) (refl, (c.source_ip, tt)))
    ]

match-IsClean : (p : PortRule) → IsPortClean p → IsClean (nft_port_match p)
unfolding any_char
match-IsClean p c =
    glue-IsClean (glue (local_words p) ∷ " " ∷ p.protocol ∷ " dport " ∷ p.source_port ∷ [])
      (local-IsClean p c, (refl, (c.protocol, (refl, (c.source_port, tt)))))

target-IsClean : (p : PortRule) → IsPortClean p → All IsClean (target_words p)
unfolding any_char
target-IsClean p c = (refl, (c.target_ip, (refl, (c.target_port, tt))))

target_match-IsClean : (p : PortRule) → IsPortClean p → IsClean (glue (target_match_words p))
unfolding any_char
target_match-IsClean p c =
    glue-IsClean (target_match_words p)
      (refl, (c.target_ip, (refl, (c.protocol, (refl, (c.target_port, tt))))))

dnat-IsClean :
    (p : PortRule) (from : String) → IsPortClean p → IsClean from → IsClean (nft_dnat p from)
unfolding any_char
dnat-IsClean p from c f =
    glue-IsClean
      ("  " ∷ nft_port_match p ∷ from ∷ " meta mark set meta mark | 0x1068" ∷ target_words p)
      (refl, (match-IsClean p c, (f, (refl, target-IsClean p c))))

pub prerouting-IsClean : (p : PortRule) → IsPortClean p → All IsClean (nft_prerouting p)
unfolding nft_prerouting any_char
prerouting-IsClean p c = elim (Bool-cases (p.bridge == "")) [
  | inl e ↦ rw (e) (dnat-IsClean p "" c refl, tt)
  | inr e ↦ rw (e) (
    dnat-IsClean p (glue (" iifname != " ∷ quoted p.bridge ∷ [])) c (
        glue-IsClean (" iifname != " ∷ quoted p.bridge ∷ [])
          (refl, (quoted-IsClean p.bridge c.bridge, tt))),
    (
      dnat-IsClean p (glue (" iifname " ∷ quoted p.bridge ∷ [])) c (
          glue-IsClean (" iifname " ∷ quoted p.bridge ∷ [])
            (refl, (quoted-IsClean p.bridge c.bridge, tt))),
      tt,
    ),
  )
]

pub output-IsClean : (p : PortRule) → IsPortClean p → All IsClean (nft_output p)
unfolding nft_output any_char
output-IsClean p c = (
  glue-IsClean
      ("  " ∷ glue (local_words p) ∷ " " ∷ p.protocol ∷ " dport " ∷ p.source_port ∷ target_words p)
      (
        refl,
        (local-IsClean p c, (refl, (c.protocol, (refl, (c.source_port, target-IsClean p c))))),
      ),
  tt,
)

hairpin-IsClean : (p : PortRule) → IsPortClean p → All IsClean (nft_hairpin p)
unfolding any_char
hairpin-IsClean p c = elim (Bool-cases (p.bridge == "")) [
  | inl e ↦ rw (e) tt
  | inr e ↦ rw (e) (
    glue-IsClean
        ("  iifname "
          ∷ quoted p.bridge
          ∷ " oifname "
          ∷ quoted p.bridge
          ∷ " "
          ∷ glue (target_match_words p)
          ∷ " masquerade"
          ∷ [])
        (
          refl,
          (
            quoted-IsClean p.bridge c.bridge,
            (
              refl,
              (quoted-IsClean p.bridge c.bridge, (refl, (target_match-IsClean p c, (refl, tt)))),
            ),
          ),
        ),
    tt,
  )
]

masquerade-IsClean : (p : PortRule) → IsPortClean p → IsClean (nft_masquerade p)
unfolding any_char
masquerade-IsClean p c =
    glue-IsClean
      ((if p.masquerade_dnat then "  ct status dnat " else "  fib saddr type local ct status dnat ")
        ∷ glue (target_match_words p)
        ∷ " masquerade"
        ∷ [])
      (either (p.masquerade_dnat), (target_match-IsClean p c, (refl, tt)))
  where
    either :
        (b : Bool)
        → IsClean (if b then "  ct status dnat " else "  fib saddr type local ct status dnat ")
    either true = refl
    either false = refl

pub postrouting-IsClean : (p : PortRule) → IsPortClean p → All IsClean (nft_postrouting p)
unfolding nft_postrouting any_char
postrouting-IsClean p c = append-All IsClean (nft_hairpin p) _ (hairpin-IsClean p c) (
  glue-IsClean
      ("  ip saddr " ∷ p.target_ip ∷ " " ∷ glue (target_match_words p) ∷ " masquerade" ∷ [])
      (refl, (c.target_ip, (refl, (target_match-IsClean p c, (refl, tt))))),
  (masquerade-IsClean p c, tt),
)

pub forwarded-IsClean : (p : PortRule) → IsPortClean p → All IsClean (nft_forwarded p)
unfolding nft_forwarded any_char
forwarded-IsClean p c = (
  glue-IsClean ("  ct status dnat " ∷ glue (target_match_words p) ∷ accept_marked ∷ [])
      (refl, (target_match-IsClean p c, (refl, tt))),
  tt,
)

pub network-IsClean : (n : ForwardNetwork) → IsNetworkClean n → All IsClean (nft_network n)
unfolding nft_network any_char
network-IsClean n c =
    let bridge = quoted-IsClean n.bridge c.bridge in
    (
      glue-IsClean
          ("  iifname "
            ∷ quoted n.bridge
            ∷ " ip saddr "
            ∷ n.subnet
            ∷ " ct state new,established,related"
            ∷ accept_marked
            ∷ [])
          (refl, (bridge, (refl, (c.subnet, (refl, (refl, tt)))))),
      (
        glue-IsClean
            ("  oifname "
              ∷ quoted n.bridge
              ∷ " ip daddr "
              ∷ n.subnet
              ∷ " ct state established,related"
              ∷ accept_marked
              ∷ [])
            (refl, (bridge, (refl, (c.subnet, (refl, (refl, tt)))))),
        tt,
      ),
    )

pub shared-IsClean : (n : ForwardNetwork) → IsNetworkClean n → All IsClean (nft_shared n)
unfolding nft_shared any_char
shared-IsClean n c = (
  glue-IsClean
      ("  oifname "
        ∷ quoted n.bridge
        ∷ " ip saddr "
        ∷ n.subnet
        ∷ " ip daddr "
        ∷ n.subnet
        ∷ " ct state new,established,related"
        ∷ accept_marked
        ∷ [])
      (
        refl,
        (
          quoted-IsClean n.bridge c.bridge,
          (refl, (c.subnet, (refl, (c.subnet, (refl, (refl, tt)))))),
        ),
      ),
  tt,
)

pub pair-IsClean : (p : ForwardPair) → IsPairClean p → All IsClean (nft_pair p)
unfolding nft_pair any_char
pair-IsClean p c = (
  glue-IsClean
      ("  oifname "
        ∷ quoted p.bridge
        ∷ " ip saddr "
        ∷ p.peer
        ∷ " ip daddr "
        ∷ p.local
        ∷ accept_marked
        ∷ [])
      (refl, (quoted-IsClean p.bridge c.bridge, (refl, (c.peer, (refl, (c.local, (refl, tt))))))),
  tt,
)

pub guard-IsClean : (bridge : String) → IsClean bridge → All IsClean (nft_guard bridge)
unfolding nft_guard any_char
guard-IsClean bridge c = (
  glue-IsClean ("  iifname " ∷ quoted bridge ∷ " ip daddr 127.0.0.0/8 drop" ∷ [])
      (refl, (quoted-IsClean bridge c, (refl, tt))),
  tt,
)
