-- ===== src/Firewall/Ruleset/Injection.antt =====
-- The characters of the lines that format_rule of dayshield-core/src/engine/nftables/mod.rs writes
-- for the rules that the validation accepts.
use dayshield_core.Base.{
  ℕ, Bool, true, false, not, ◌||◌, Option, none, some, List, [], ◌∷◌, ◌++◌, ◌≡◌, refl, ap,
  if◌then◌else◌, ◌==◌, all, All, arith, to_text, to_text-all,
}
use mathlib.Core.Path.{subst}
use dayshield_core.Base.Text.{Text, codes, is_ascii_digit, is_ascii_alphanumeric, is_ascii_hexdigit}
use dayshield_core.Base.Text.Splits.{all-append}
use dayshield_core.Net.Validation.{is_valid_interface_name, has_char, is_some}
use dayshield_core.Net.Characters.{is_address_char}
use dayshield_core.Net.Characters.Cidr.{is_cidr_char, is_valid_cidr_or_addr_chars}
use dayshield_core.Firewall.{
  FirewallRule, FirewallAddressFamily, ipv4, ipv6, ipv4_ipv6, Protocol, tcp, udp, icmp, icmpv6,
  any_protocol,
}
use dayshield_core.Firewall.Validation.{Calendar}
use dayshield_core.Firewall.Validity.{AddressFits}
use dayshield_core.Firewall.Validity.Rules.{InterfaceFits, RuleFits}
use dayshield_core.Firewall.Format.{
  FilterChain, join_parts, part, match_parts, port_part, is_output, interface_part, address_part,
  family_part, protocol_name,
}

-- The characters that nft takes for parts of one statement: none of them ends the statement or
-- opens a block or a comment (`;`, `{`, `}`, `#`, a backslash or a line break).
unfoldable pub is_plain : ℕ → Bool
is_plain c = not (c == b';' || c == b'{' || c == b'}' || c == b'#' || c == 92 || c == 10 || c == 13)

abbrev pub IsPlain : Text → Type 0
IsPlain s = all is_plain s ≡ true

pub IsPlain-append : (s t : Text) → IsPlain s → IsPlain t → IsPlain (s ++ t)
IsPlain-append s t h k = rw (all-append is_plain s t, h) k

-- characters of a narrower class
all-IsPlain :
    (p : ℕ → Bool) (s : Text)
    → ((c : ℕ) → p c ≡ true → is_plain c ≡ true)
    → all p s ≡ true
    → IsPlain s
all-IsPlain p [] f h = refl
all-IsPlain p (c ∷ s) f h = ground (arith, f c, all-IsPlain p s f)

digit-IsPlain : (c : ℕ) → is_ascii_digit c ≡ true → is_plain c ≡ true
unfolding is_ascii_digit is_plain
digit-IsPlain c h = ground arith

pub to_text-IsPlain : (n : ℕ) → IsPlain (to_text n)
to_text-IsPlain n = all-IsPlain is_ascii_digit (to_text n) digit-IsPlain (to_text-all n)

cidr-IsPlain : (c : ℕ) → is_cidr_char c ≡ true → is_plain c ≡ true
unfolding is_cidr_char is_address_char is_ascii_hexdigit is_ascii_digit is_plain
cidr-IsPlain c h = ground arith

abbrev name_char : ℕ → Bool
name_char c = is_ascii_alphanumeric c || c == b'-' || c == b'_' || c == b'.'

name-IsPlain : (c : ℕ) → name_char c ≡ true → is_plain c ≡ true
unfolding is_ascii_alphanumeric is_ascii_digit is_plain
name-IsPlain c h = ground arith

interface-IsPlain : (s : Text) → is_valid_interface_name s ≡ true → IsPlain s
unfolding is_valid_interface_name
interface-IsPlain s h = all-IsPlain name_char s name-IsPlain (ground (arith, h))

-- The characters of one word of nft: letters, digits, `.`, `:`, `/`, `-`, `_` and `+`, so neither white
-- space nor a quote.
unfoldable pub is_word_char : ℕ → Bool
unfolding is_ascii_alphanumeric
is_word_char c =
    is_ascii_alphanumeric c
    || c == b'.'
    || c == b':'
    || c == b'/'
    || c == b'-'
    || c == b'_'
    || c == b'+'

abbrev pub IsWord : Text → Type 0
IsWord s = all is_word_char s ≡ true

-- characters of a narrower class
all-IsWord :
    (p : ℕ → Bool) (s : Text)
    → ((c : ℕ) → p c ≡ true → is_word_char c ≡ true)
    → all p s ≡ true
    → IsWord s
all-IsWord p [] f h = refl
all-IsWord p (c ∷ s) f h = ground (arith, f c, all-IsWord p s f)

word-IsPlain : (c : ℕ) → is_word_char c ≡ true → is_plain c ≡ true
unfolding is_word_char is_ascii_alphanumeric is_ascii_digit is_plain
word-IsPlain c h = ground arith

pub IsWord-IsPlain : (s : Text) → IsWord s → IsPlain s
IsWord-IsPlain s h = all-IsPlain is_word_char s word-IsPlain h

name-IsWord : (c : ℕ) → name_char c ≡ true → is_word_char c ≡ true
unfolding is_word_char
name-IsWord c h = ground arith

cidr-IsWord : (c : ℕ) → is_cidr_char c ≡ true → is_word_char c ≡ true
unfolding is_cidr_char is_address_char is_ascii_hexdigit is_ascii_alphanumeric is_ascii_digit
    is_word_char
cidr-IsWord c h = ground arith

pub interface-IsWord : (o : Option Text) → InterfaceFits o → (i : Text) → o ≡ some i → IsWord i
unfolding is_valid_interface_name
interface-IsWord o fits i e = all-IsWord name_char i name-IsWord (ground (arith, fits i e))

pub address-IsWord :
    (family : FirewallAddressFamily) (ipv6_enabled : Bool) (o : Option Text)
    → AddressFits family ipv6_enabled o
    → (a : Text) → o ≡ some a
    → IsWord a
address-IsWord family ipv6_enabled none fits a e = absurd (ground (arith, e))
address-IsWord family ipv6_enabled (some t) fits a e =
    subst IsWord (ap (λ o. elim o [ some x ↦ x | none ↦ t ]) e)
      (all-IsWord is_cidr_char t cidr-IsWord (is_valid_cidr_or_addr_chars t fits.0))

abbrev pub AllPlain : List Text → Type 0
AllPlain ps = All IsPlain ps

pub All-append : (ps qs : List Text) → AllPlain ps → AllPlain qs → AllPlain (ps ++ qs)
All-append [] qs h k = k
All-append (p ∷ ps) qs h k = (h.0, All-append ps qs h.1 k)

pub join-IsPlain :
    (sep : Text) (ps : List Text) → IsPlain sep → AllPlain ps → IsPlain (join_parts sep ps)
join-IsPlain sep [] s h = refl
join-IsPlain sep (p ∷ []) s h = h.0
join-IsPlain sep (p ∷ q ∷ ps) s h =
    IsPlain-append (p ++ sep) (join_parts sep (q ∷ ps)) (IsPlain-append p sep h.0 s)
      (join-IsPlain sep (q ∷ ps) s h.1)

part_plain :
    {A : Type 0} (o : Option A) (f : A → Text)
    → ((a : A) → o ≡ some a → IsPlain (f a))
    → AllPlain (part o f)
part_plain none f h = tt
part_plain (some a) f h = (h a refl, tt)

pub IsPlain-if : (b : Bool) (s t : Text) → IsPlain s → IsPlain t → IsPlain (if b then s else t)
IsPlain-if true s t h k = h
IsPlain-if false s t h k = k

interface_parts_plain :
    (chain : FilterChain) (o : Option Text)
    → InterfaceFits o
    → AllPlain (part o (interface_part chain))
unfolding is_plain
interface_parts_plain chain o fits = part_plain o (interface_part chain) (λ i e.
    IsPlain-append ((if is_output chain then codes "oifname \"" else codes "iifname \"") ++ i)
      (codes "\"")
      (IsPlain-append (if is_output chain then codes "oifname \"" else codes "iifname \"") i
        (IsPlain-if (is_output chain) (codes "oifname \"") (codes "iifname \"") refl refl)
        (interface-IsPlain i (fits i e)))
      refl)

address_parts_plain :
    (family : FirewallAddressFamily) (ipv6_enabled : Bool) (key : Text) (o : Option Text)
    → IsPlain key
    → AddressFits family ipv6_enabled o
    → AllPlain (part o (address_part key))
unfolding is_plain
address_parts_plain family ipv6_enabled key none k fits = tt
address_parts_plain family ipv6_enabled key (some a) k fits = (
  IsPlain-append ((if has_char b':' a then codes "ip6 " else codes "ip ") ++ key) a
      (IsPlain-append (if has_char b':' a then codes "ip6 " else codes "ip ") key
        (IsPlain-if (has_char b':' a) (codes "ip6 ") (codes "ip ") refl refl) k)
      (all-IsPlain is_cidr_char a cidr-IsPlain (is_valid_cidr_or_addr_chars a fits.0)),
  tt,
)

family_plain : (family : FirewallAddressFamily) → AllPlain (family_part family)
unfolding is_plain
family_plain ipv4 = (refl, tt)
family_plain ipv6 = (refl, tt)
family_plain ipv4_ipv6 = tt

abbrev PlainName : Option Text → Type 0
PlainName o = (p : Text) → o ≡ some p → IsPlain p

protocol_plain : (o : Option Protocol) → PlainName (protocol_name o)
unfolding is_plain
protocol_plain none p e = absurd (ground (arith, e))
protocol_plain (some tcp) p e = ground (arith, e)
protocol_plain (some udp) p e = ground (arith, e)
protocol_plain (some icmp) p e = ground (arith, e)
protocol_plain (some icmpv6) p e = ground (arith, e)
protocol_plain (some any_protocol) p e = absurd (ground (arith, e))

port_plain :
    (proto : Option Text) (key : Text) (port : Option ℕ)
    → PlainName proto
    → IsPlain key
    → AllPlain (port_part proto key port)
unfolding port_part
port_plain none key port h k = tt
port_plain (some p) key none h k = tt
port_plain (some p) key (some n) h k = (
  IsPlain-append (p ++ key) (to_text n) (IsPlain-append p key (h p refl) k) (to_text-IsPlain n),
  tt,
)

l4proto_plain :
    (b : Bool) (proto : Option Text)
    → PlainName proto
    → AllPlain (if b then [] else part proto (λ p. codes "meta l4proto " ++ p))
unfolding is_plain
l4proto_plain true proto h = tt
l4proto_plain false none h = tt
l4proto_plain false (some p) h = (IsPlain-append (codes "meta l4proto ") p refl (h p refl), tt)

-- seven parts, one after the other
seven_plain :
    (a b c d e f g : List Text)
    → AllPlain a
    → AllPlain b
    → AllPlain c
    → AllPlain d
    → AllPlain e
    → AllPlain f
    → AllPlain g
    → AllPlain (a ++ b ++ c ++ d ++ e ++ f ++ g)
seven_plain a b c d e f g h i j k l m n =
    let two = All-append a b h i in
    let three = All-append (a ++ b) c two j in
    let four = All-append (a ++ b ++ c) d three k in
    let five = All-append (a ++ b ++ c ++ d) e four l in
    let six = All-append (a ++ b ++ c ++ d ++ e) f five m in
    All-append (a ++ b ++ c ++ d ++ e ++ f) g six n

pub match_parts_plain :
    (calendar : Calendar) (rule : FirewallRule) (ipv6_enabled : Bool) (chain : FilterChain)
    → RuleFits calendar rule ipv6_enabled
    → AllPlain (match_parts rule chain)
unfolding match_parts is_plain
match_parts_plain calendar rule ipv6_enabled chain fits =
    let proto = protocol_name rule.protocol in
    let plain = protocol_plain rule.protocol in
    let family = rule.ip_family in
    let has_ports = is_some rule.source_port || is_some rule.destination_port in
    seven_plain (part rule.interface (interface_part chain)) (family_part family)
      (part rule.source (address_part (codes "saddr ")))
      (part rule.destination (address_part (codes "daddr ")))
      (if has_ports then [] else part proto (λ p. codes "meta l4proto " ++ p))
      (port_part proto (codes " sport ") rule.source_port)
      (port_part proto (codes " dport ") rule.destination_port)
      (interface_parts_plain chain rule.interface fits.interface) (family_plain family)
      (address_parts_plain family ipv6_enabled (codes "saddr ") rule.source refl fits.source)
      (address_parts_plain family ipv6_enabled (codes "daddr ") rule.destination refl
        fits.destination)
      (l4proto_plain has_ports proto plain)
      (port_plain proto (codes " sport ") rule.source_port plain refl)
      (port_plain proto (codes " dport ") rule.destination_port plain refl)
