-- ===== src/Net/Characters.antt =====
-- The characters of the texts that the address readers of Rust's standard library accept.
pub mod Cidr
use dayshield_core.Base.{
  ℕ, zero, suc, ◌+◌, ◌*◌, ◌-◌, Bool, true, false, ◌&&◌, ◌||◌, Option, none, some, List, [], ◌∷◌,
  ◌++◌, ◌≡◌, refl, sym, ap, inl, inr, if◌then◌else◌, ltb, leb, ◌==◌, within, length, any, all,
  arith, Bool-cases, Option-cases,
}
use dayshield_core.Base.Text.{
  Text, is_empty, is_ascii_hexdigit, is_ascii_digit, split_once, parse_uint, digits_value,
  digits_upto,
}
use dayshield_core.Net.Parsing.{
  Reader, digit_value, digits, value, leads_with_zero, read_number, read_char, read_separator,
  read_octets, read_ipv4, parse_ipv4, read_groups, read_tail, read_ipv6, parse_ipv6, read_dotted,
}
use dayshield_core.Net.Validation.{
  is_valid_ip, is_valid_cidr, is_valid_cidr_or_addr, is_valid_ipv4_addr, is_valid_ipv6_addr,
  is_some,
}

unfoldable pub is_address_char : ℕ → Bool
unfolding is_ascii_hexdigit is_ascii_digit
is_address_char c = is_ascii_hexdigit c || c == b':' || c == b'.'

abbrev pub Plain : Text → Type 0
Plain s = all is_address_char s ≡ true

digit_value_char : (c d : ℕ) → digit_value c ≡ some d → is_address_char c ≡ true
unfolding is_address_char is_ascii_hexdigit is_ascii_digit
digit_value_char c d h = ground arith

digits-Plain : (radix : ℕ) (s : Text) → Plain ((digits radix s).1) → Plain s
unfolding is_address_char is_ascii_hexdigit is_ascii_digit
digits-Plain radix [] h = refl
digits-Plain radix (c ∷ s) h = ground (arith, digits-Plain radix s)

-- A reader that leaves nothing but such characters has read nothing but such characters.
abbrev IsPlainReader : {A : Type 0} → Reader A → Type 0
IsPlainReader {A} reader =
    (s : Text) (a : A) (rest : Text) → reader s ≡ some (a, rest) → Plain rest → Plain s

read_number_plain :
    (radix most : ℕ) (zeros_lead : Bool) (limit : ℕ)
    → IsPlainReader (read_number radix most zeros_lead limit)
read_number_plain radix most zeros_lead limit s a rest h k = ground (arith, digits-Plain radix s)

read_char-Plain :
    (x : ℕ) (s rest : Text)
    → is_address_char x ≡ true
    → read_char x s ≡ some rest
    → Plain rest
    → Plain s
read_char-Plain x [] rest p h k = refl
read_char-Plain x (c ∷ s) rest p h k = ground (arith)

read_separator_plain :
    {A : Type 0} (sep i : ℕ) (inner : Reader A)
    → is_address_char sep ≡ true
    → IsPlainReader inner
    → IsPlainReader (read_separator sep i inner)
read_separator_plain sep zero inner p plain s a rest h k = plain s a rest h k
read_separator_plain sep (suc i) inner p plain s a rest h k =
    elim (Option-cases (read_char sep s)) [
      | inl e ↦ absurd (ground (arith, rw (e, read_separator) at h))
      | inr (r, e) ↦ read_char-Plain sep s r p e (plain r a rest (rw (e, read_separator) at h) k)
    ]

read_octets_plain : (i n : ℕ) → IsPlainReader (read_octets i n)
unfolding is_address_char
read_octets_plain i zero s a rest h k = ground arith
read_octets_plain i (suc n) s a rest h k =
    elim (Option-cases (read_separator b'.' i (read_number 10 3 false 255) s)) [
      | inl e ↦ absurd (ground (arith, rw (e, read_octets) at h))
      | inr ((o, r), e) ↦
          let h' = rw (e, read_octets) at h in
          elim (Option-cases (read_octets (suc i) n r)) [
            | inl f ↦ absurd (ground (arith, rw f at h'))
            | inr ((os, q), f) ↦
                read_separator_plain b'.' i (read_number 10 3 false 255) refl
                  (read_number_plain 10 3 false 255) s o r e
                  (read_octets_plain (suc i) n r os q f (ground (arith, k, rw f at h')))
          ]
    ]

pub parse_ipv4-Plain : (s : Text) (os : List ℕ) → parse_ipv4 s ≡ some os → Plain s
unfolding parse_ipv4
parse_ipv4-Plain s os h = elim (Option-cases (read_ipv4 s)) [
  | inl e ↦ absurd (ground (arith, h, e))
  | inr ((os', rest), e) ↦ read_octets_plain 0 4 s os' rest e (ground (arith, h, e))
]

read_dotted_plain : (i n : ℕ) → IsPlainReader (read_dotted i n)
unfolding is_address_char
read_dotted_plain i n s a rest h k = elim (Bool-cases (ltb 0 n)) [
  | inl e ↦
      read_separator_plain b':' i read_ipv4 refl (read_octets_plain 0 4) s a rest
        (rw (e, read_dotted) at h) k
  | inr e ↦ absurd (ground (arith, rw (e, read_dotted) at h))
]

read_groups-Plain : (i n : ℕ) (s : Text) → Plain ((read_groups i n s).2) → Plain s
unfolding is_address_char
read_groups-Plain i zero s k = k
read_groups-Plain i (suc n) s k = elim (Option-cases (read_dotted i n s)) [
  | inr ((os, r), e) ↦ read_dotted_plain i n s os r e (rw (e, read_groups) at k)
  | inl e ↦
      let k' = rw (e, read_groups) at k in
      elim (Option-cases (read_separator b':' i (read_number 16 4 true 0xffff) s)) [
        | inl f ↦ rw f at k'
        | inr ((g, r), f) ↦
            read_separator_plain b':' i (read_number 16 4 true 0xffff) refl
              (read_number_plain 16 4 true 0xffff) s g r f
              (read_groups-Plain (suc i) n r (rw f at k'))
      ]
]

read_tail_plain : (head : List ℕ) → IsPlainReader (read_tail head)
unfolding is_address_char
read_tail_plain head s a rest h k = elim (Option-cases (read_char b':' s)) [
  | inl e ↦ absurd (ground (arith, rw (e, read_tail) at h))
  | inr (s', e) ↦
      let h' = rw (e, read_tail) at h in
      elim (Option-cases (read_char b':' s')) [
        | inl f ↦ absurd (ground (arith, rw f at h'))
        | inr (s'', f) ↦ read_char-Plain b':' s s' refl e (
            read_char-Plain b':' s' s'' refl f
              (read_groups-Plain 0 (7 - length head) s'' (ground (arith, rw f at h', k))))
      ]
]

read_ipv6_plain : IsPlainReader read_ipv6
read_ipv6_plain s a rest h k =
    let after = (read_groups 0 8 s).2 in
    let head = (read_groups 0 8 s).0 in
    read_groups-Plain 0 8 s (elim (Bool-cases (length head == 8)) [
      | inl e ↦ ground (arith, rw (e, read_ipv6) at h, k)
      | inr e ↦
          let h' = rw (e, read_ipv6) at h in
          elim (Bool-cases (read_groups 0 8 s).1) [
            | inl f ↦ absurd (ground (arith, rw f at h'))
            | inr f ↦ read_tail_plain head after a rest (rw f at h') k
          ]
    ])

pub parse_ipv6-Plain : (s : Text) (gs : List ℕ) → parse_ipv6 s ≡ some gs → Plain s
unfolding parse_ipv6
parse_ipv6-Plain s gs h = elim (Option-cases (read_ipv6 s)) [
  | inl e ↦ absurd (ground (arith, h, e))
  | inr ((gs', rest), e) ↦ read_ipv6_plain s gs' rest e (ground (arith, h, e))
]
