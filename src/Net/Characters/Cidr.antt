-- ===== src/Net/Characters/Cidr.antt =====
-- The characters of the values that dayshield-core/src/config/models.rs takes for addresses.
use dayshield_core.Base.{
  ℕ, ◌+◌, ◌*◌, ◌-◌, Bool, true, false, ◌||◌, some, [], ◌∷◌, ◌++◌, ◌≡◌, refl, inl, inr,
  if◌then◌else◌, ◌==◌, leb, all, arith, Bool-cases, Option-cases,
}
use dayshield_core.Base.Text.{
  Text, is_ascii_hexdigit, is_ascii_digit, split_once, parse_uint, digits_value, digits_upto,
}
use dayshield_core.Base.Text.Splits.{all-append, split_once-append}
use dayshield_core.Net.Parsing.{parse_ipv4, parse_ipv6}
use dayshield_core.Net.Validation.{
  is_valid_ip, is_valid_cidr, is_valid_cidr_or_addr, is_valid_ipv4_addr, is_valid_ipv6_addr,
  is_some,
}
use dayshield_core.Net.Characters.{is_address_char, Plain, parse_ipv4-Plain, parse_ipv6-Plain}

pub is_valid_ip-Plain : (s : Text) → is_valid_ip s ≡ true → Plain s
unfolding is_valid_ip is_valid_ipv4_addr is_valid_ipv6_addr
is_valid_ip-Plain s h = elim (Option-cases (parse_ipv4 s)) [
  | inr (os, e) ↦ parse_ipv4-Plain s os e
  | inl e ↦ elim (Option-cases (parse_ipv6 s)) [
    | inr (gs, f) ↦ parse_ipv6-Plain s gs f
    | inl f ↦ absurd (ground (arith, h, e, f))
  ]
]

-- also the slash and the prefix length, which may have a plus sign
unfoldable pub is_cidr_char : ℕ → Bool
unfolding is_address_char
is_cidr_char c = is_address_char c || c == b'/' || c == b'+'

Plain-is_cidr_char : (s : Text) → Plain s → all is_cidr_char s ≡ true
unfolding is_cidr_char
Plain-is_cidr_char [] h = refl
Plain-is_cidr_char (c ∷ s) h = ground (arith, Plain-is_cidr_char s)

digits_value_cidr : (a v : ℕ) (s : Text) → digits_value a s ≡ some v → all is_cidr_char s ≡ true
unfolding is_cidr_char is_address_char is_ascii_hexdigit is_ascii_digit
digits_value_cidr a v [] h = refl
digits_value_cidr a v (c ∷ s) h = ground (arith, digits_value_cidr (a * 10 + (c - b'0')) v s)

digits_upto_cidr :
    (limit v : ℕ) (s : Text) → digits_upto limit s ≡ some v → all is_cidr_char s ≡ true
digits_upto_cidr limit v s h = elim (Option-cases (digits_value 0 s)) [
  | inr (w, e) ↦ digits_value_cidr 0 w s e
  | inl e ↦ absurd (ground (arith, h, e))
]

parse_uint_cidr : (limit v : ℕ) (s : Text) → parse_uint limit s ≡ some v → all is_cidr_char s ≡ true
unfolding parse_uint is_cidr_char
parse_uint_cidr limit v [] h = refl
parse_uint_cidr limit v (c ∷ s) h =
    ground (arith, digits_upto_cidr limit v s, digits_upto_cidr limit v (c ∷ s))

ip_cidr :
    (s : Text) → is_some (parse_ipv4 s) || is_some (parse_ipv6 s) ≡ true → all is_cidr_char s ≡ true
unfolding is_valid_ip is_valid_ipv4_addr is_valid_ipv6_addr parse_ipv4 parse_ipv6
ip_cidr s h = Plain-is_cidr_char s (is_valid_ip-Plain s h)

some_family : (a b p q : Bool) → (if a then p else (if b then q else false)) ≡ true → a || b ≡ true
some_family true b p q h = refl
some_family false true p q h = refl
some_family false false p q h = h

around_slash :
    (s l r : Text)
    → s ≡ l ++ b'/' ∷ r
    → all is_cidr_char l ≡ true
    → all is_cidr_char r ≡ true
    → all is_cidr_char s ≡ true
unfolding is_cidr_char is_address_char is_ascii_hexdigit is_ascii_digit
around_slash s l r e p q = rw (e, all-append is_cidr_char l (b'/' ∷ r), p) q

pub is_valid_cidr_chars : (s : Text) → is_valid_cidr s ≡ true → all is_cidr_char s ≡ true
unfolding is_valid_cidr is_cidr_char is_address_char
is_valid_cidr_chars s h = elim (Option-cases (split_once b'/' s)) [
  | inl e ↦ absurd (ground (arith, rw (e, is_valid_cidr) at h))
  | inr ((l, r), e) ↦
      let h' = rw (e, is_valid_cidr) at h in
      elim (Option-cases (parse_uint 255 r)) [
        | inl f ↦ absurd (ground (arith, rw f at h'))
        | inr (n, f) ↦
            around_slash s l r (split_once-append b'/' s l r e)
              (ip_cidr l (
                some_family (is_some (parse_ipv4 l)) (is_some (parse_ipv6 l)) (leb n 32) (leb n 128)
                  (rw f at h')))
              (parse_uint_cidr 255 n r f)
      ]
]

pub is_valid_cidr_or_addr_chars :
    (s : Text) → is_valid_cidr_or_addr s ≡ true → all is_cidr_char s ≡ true
unfolding is_valid_cidr_or_addr is_valid_ip is_valid_ipv4_addr is_valid_ipv6_addr
is_valid_cidr_or_addr_chars s h = elim (Bool-cases (is_valid_ip s)) [
  | inl e ↦ Plain-is_cidr_char s (is_valid_ip-Plain s e)
  | inr e ↦ is_valid_cidr_chars s (ground (arith, h, e))
]
