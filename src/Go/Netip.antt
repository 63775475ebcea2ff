-- ===== src/Go/Netip.antt =====
-- Packages net/netip and net, for what the program asks of an address: is it an IPv4 address, which
-- one, and what is its prefix. An address is a number of 32 bits. IPv6 notation is read only where the
-- program can take its value for an IPv4 one, in net.ParseCIDR.
pub mod Disjoint
pub mod Laws
use Prim.Native.Char.{code}
use network_plugin_manager.Prelude.{
  ℕ, ◌+◌, ◌-◌, ◌*◌, ◌/◌, ◌%◌, ◌^◌, ◌≡◌, refl, String, Bool, true, false, not, ◌&&◌, ◌||◌, Option,
  none, some, List, [], ◌∷◌, ◌++◌, ◌==◌, starts_with, leb, eqb, length, if◌then◌else◌,
}
use network_plugin_manager.Go.Text.{split, cut, cut_last, strip_prefix, is_digit}
use network_plugin_manager.Go.Number.{digits, atoi, pos, negsuc}

abbrev within : ℕ → ℕ → Option ℕ
within n limit = if leb n limit then some n else none

-- A field of the dotted notation: digits up to 255 with no leading zero.
octet : String → Option ℕ
octet s =
    if starts_with s "0" && not (s == "0")
    then none
    else elim (digits s) [ none ↦ none | some n ↦ within n 255 ]

quad : Option ℕ → Option ℕ → Option ℕ → Option ℕ → Option ℕ
quad (some a) (some b) (some c) (some d) = some (((a * 256 + b) * 256 + c) * 256 + d)
quad _ _ _ _ = none

dotted : List String → Option ℕ
dotted (a ∷ (b ∷ (c ∷ (d ∷ [])))) = quad (octet a) (octet b) (octet c) (octet d)
dotted _ = none

-- netip.ParseAddr, where the result `Is4`
unfoldable pub parse_addr : String → Option ℕ
unfolding dotted quad octet split digits
parse_addr s = dotted (split b'.' s)

pub record Prefix : Type 0 where
  pub addr : ℕ
  pub bits : ℕ

-- More than one digit, and the first is none of 1 to 9.
odd_bits : String → Bool
odd_bits (String.◌∷◌ c (String.◌∷◌ d s)) = not (leb b'1' (code c) && leb (code c) b'9')
odd_bits _ = false

prefix_bits : String → Option ℕ
prefix_bits s =
    if odd_bits s
    then none
    else elim (atoi s) [ none ↦ none | some (pos n) ↦ within n 32 | some (negsuc n) ↦ none ]

prefix_of : Option ℕ → Option ℕ → Option Prefix
prefix_of (some a) (some b) = some (record { addr = a; bits = b })
prefix_of _ _ = none

-- netip.ParsePrefix, where the address `Is4`
unfoldable pub parse_prefix : String → Option Prefix
unfolding cut_last parse_addr prefix_bits odd_bits prefix_of atoi
parse_prefix s = elim (cut_last b'/' s) [
  | none ↦ none
  | some r ↦ prefix_of (parse_addr r.0) (prefix_bits r.1)
]

-- Prefix.Contains
abbrev pub block : Prefix → ℕ → ℕ
block p a = a / 2 ^ (32 - p.bits)

abbrev pub Contains : Prefix → ℕ → Type 0
Contains p a = block p a ≡ block p p.addr

unfoldable pub contains : Prefix → ℕ → Bool
contains p a = eqb (block p a) (block p p.addr)

-- Prefix.Masked
unfoldable pub masked : Prefix → Prefix
masked p = record p { addr = p.addr - p.addr % 2 ^ (32 - p.bits) }

-- Addr.IsLoopback
abbrev pub is_loopback : ℕ → Bool
is_loopback a = eqb (a / 2 ^ 24) 127

hex_digit : ℕ → Option ℕ
hex_digit c =
    if is_digit c
    then some (c - b'0')
    else if leb b'a' c && leb c b'f'
    then some (c - b'a' + 10)
    else if leb b'A' c && leb c b'F'
    then some (c - b'A' + 10)
    else none

hex_from : ℕ → ℕ → String → Option ℕ
hex_from room acc String.[] = some acc
hex_from ℕ.zero acc (String.◌∷◌ c s) = none
hex_from (ℕ.suc room) acc (String.◌∷◌ c s) = elim (hex_digit (code c)) [
  | none ↦ none
  | some d ↦ hex_from room (16 * acc + d) s
]

-- One to four hexadecimal digits.
hex_group : String → Option ℕ
hex_group s = if s == "" then none else hex_from 4 0 s

-- The fields between colons; a dotted IPv4 address may be the last two.
groups : Bool → List String → Option (List ℕ)
groups quads [] = none
groups quads (s ∷ []) = elim (hex_group s) [
  | some g ↦ some (g ∷ [])
  | none ↦
      if quads
      then elim (parse_addr s) [ none ↦ none | some a ↦ some (a / 65536 ∷ (a % 65536) ∷ []) ]
      else none
]
groups quads (s ∷ (t ∷ ss)) =
    let rest = groups quads (t ∷ ss) in
    elim (hex_group s) [
      | none ↦ none
      | some g ↦ elim rest [ none ↦ none | some gs ↦ some (g ∷ gs) ]
    ]

-- The text before the first `::`, and the text behind it.
cut_ellipsis : String → Option (String × String)
cut_ellipsis String.[] = none
cut_ellipsis (String.◌∷◌ c s) =
    let rest = cut_ellipsis s in
    elim (strip_prefix "::" (String.◌∷◌ c s)) [
      | some r ↦ some ("", r)
      | none ↦ elim rest [ none ↦ none | some r ↦ some (String.◌∷◌ c r.0, r.1) ]
    ]

side : Bool → String → Option (List ℕ)
side quads s = if s == "" then some [] else groups quads (split b':' s)

zeros : ℕ → List ℕ
zeros ℕ.zero = []
zeros (ℕ.suc n) = 0 ∷ zeros n

expand : Option (List ℕ) → Option (List ℕ) → Option (List ℕ)
expand (some l) (some r) =
    if leb (length l + length r) 7
    then some (l ++ (zeros (8 - (length l + length r)) ++ r))
    else none
expand _ _ = none

ipv6_groups : String → Option (List ℕ)
ipv6_groups s = elim (cut_ellipsis s) [
  | some r ↦ expand (side false r.0) (side true r.1)
  | none ↦ elim (groups true (split b':' s)) [
    | none ↦ none
    | some gs ↦ if eqb (length gs) 8 then some gs else none
  ]
]

value_of : ℕ → List ℕ → ℕ
value_of acc [] = acc
value_of acc (g ∷ gs) = value_of (acc * 65536 + g) gs

abbrev is_multiple : ℕ → ℕ → Bool
is_multiple v k = eqb (v % 2 ^ k) 0

canonical_v4 : Option ℕ → Option ℕ → Bool
canonical_v4 (some a) (some n) = leb n 32 && is_multiple a (32 - n)
canonical_v4 _ _ = false

-- An IPv4 address in IPv6 notation, `::ffff:a.b.c.d`, with a mask of 128 bits.
canonical_mapped : Option (List ℕ) → Option ℕ → Bool
canonical_mapped (some gs) (some n) =
    leb n 128 && eqb (value_of 0 gs / 2 ^ 32) 0xffff && is_multiple (value_of 0 gs) (128 - n)
canonical_mapped _ _ = false

-- net.ParseCIDR succeeds, with an address that has an IPv4 form and is the first of its subnet.
unfoldable pub is_canonical_cidr : String → Bool
unfolding cut parse_addr digits canonical_v4 canonical_mapped ipv6_groups value_of expand zeros side
    cut_ellipsis groups hex_group hex_from hex_digit strip_prefix
is_canonical_cidr s = elim (cut b'/' s) [
  | none ↦ false
  | some r ↦
      canonical_v4 (parse_addr r.0) (digits r.1) || canonical_mapped (ipv6_groups r.0) (digits r.1)
]

parse_example : parse_prefix "10.42.0.0/16" ≡ some (record { addr = 0x0a2a0000; bits = 16 })
unfolding parse_prefix
parse_example = refl

cidr_examples :
    (is_canonical_cidr "10.42.0.0/16" ≡ true)
    × (is_canonical_cidr "10.42.0.1/16" ≡ false)
    × (is_canonical_cidr "::ffff:10.42.0.0/112" ≡ true)
    × (is_canonical_cidr "fd00::/8" ≡ false)
unfolding is_canonical_cidr
cidr_examples = (refl, refl, refl, refl)
