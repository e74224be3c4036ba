-- ===== src/Net/Names.antt =====
-- What the names are that dayshield-core/src/config/models.rs accepts.
use dayshield_core.Base.{
  ℕ, ◌≤◌, Bool, true, false, ◌||◌, List, [], ◌∷◌, ◌++◌, ◌≡◌, refl, ap, inl, inr, ◌↔◌, ◌⊎◌,
  if◌then◌else◌, ltb, ◌==◌, length, any, all, arith, Bool-cases, Option-cases,
}
use dayshield_core.Base.Text.{
  Text, codes, byte_len, is_empty, is_ascii_alphanumeric, is_ascii_digit, is_ascii_hexdigit, split,
  strip_suffix,
}
use dayshield_core.Base.Text.Affixes.{strip_suffix-append, strip_suffix-some}
use dayshield_core.Base.Text.Joins.{
  join, lacks, split-join, join-split, any-join, any-join-false, split-trailing,
}
use dayshield_core.Net.Validation.{is_valid_mac, mac_parts, is_hex_pair, is_valid_domain, is_label}

-- The text is the parts, with the separator between them.
pub record IsJoined (sep : ℕ) (P : List Text → Type 0) (s : Text) : Type 0 where
  pub first : Text
  pub others : List Text
  pub parts : P (first ∷ others)
  pub whole : s ≡ join sep first others

abbrev pub SixPairs : List Text → Type 0
SixPairs ps = (length ps ≡ 6) × (all is_hex_pair ps ≡ true)

hex_lacks :
    (p : Text) → all is_ascii_hexdigit p ≡ true → (lacks b':' p ≡ true) × (lacks b'-' p ≡ true)
unfolding is_ascii_hexdigit is_ascii_digit
hex_lacks [] h = (refl, refl)
hex_lacks (c ∷ p) h = let ih = hex_lacks p (ground arith) in (ground arith, ground arith)

pairs_lack :
    (ps : List Text)
    → all is_hex_pair ps ≡ true
    → (all (lacks b':') ps ≡ true) × (all (lacks b'-') ps ≡ true)
pairs_lack [] h = (refl, refl)
pairs_lack (p ∷ ps) h =
    let ih = pairs_lack ps (ground arith) in
    let one = hex_lacks p (ground arith) in (ground (arith, one, ih), ground (arith, one, ih))

mac_parts_sound : (sep : ℕ) (mac : Text) → mac_parts sep mac ≡ true → IsJoined sep SixPairs mac
unfolding mac_parts
mac_parts_sound sep mac h =
    let (p, ps, e, j) = join-split sep mac in
    record {
      first = p;
      others = ps;
      parts = (ground (arith, ap (λ r. length r) e), ground (arith, ap (λ r. all is_hex_pair r) e));
      whole = j;
    }

mac_parts_complete :
    (sep : ℕ) (p : Text) (ps : List Text)
    → SixPairs (p ∷ ps)
    → lacks sep p ≡ true
    → all (lacks sep) ps ≡ true
    → mac_parts sep (join sep p ps) ≡ true
unfolding mac_parts
mac_parts_complete sep p ps six h k = rw (split-join sep p ps h k) (ground (arith, six))

has_sep :
    (sep : ℕ) (p : Text) (ps : List Text)
    → length (p ∷ ps) ≡ 6
    → any (λ c. c == sep) (join sep p ps) ≡ true
has_sep sep p [] h = ground arith
has_sep sep p (q ∷ qs) h = any-join sep p q qs

-- A text is accepted as a MAC address exactly when it is six pairs of hexadecimal digits, with
-- colons between them or with hyphens between them.
pub is_valid_mac_iff :
    (mac : Text)
    → (is_valid_mac mac ≡ true) ↔ (IsJoined b':' SixPairs mac ⊎ IsJoined b'-' SixPairs mac)
unfolding is_valid_mac
is_valid_mac_iff mac = (sound, complete)
  where
    sound : is_valid_mac mac ≡ true → IsJoined b':' SixPairs mac ⊎ IsJoined b'-' SixPairs mac
    sound h = elim (Bool-cases (any (λ c. c == b':') mac)) [
      | inl e ↦ inl (mac_parts_sound b':' mac (ground arith))
      | inr e ↦ inr (mac_parts_sound b'-' mac (ground arith))
    ]

    complete : IsJoined b':' SixPairs mac ⊎ IsJoined b'-' SixPairs mac → is_valid_mac mac ≡ true
    complete (inl j) =
        let no = (pairs_lack (j.first ∷ j.others) j.parts.1).0 in
        rw j.whole (
          rw (has_sep b':' j.first j.others j.parts.0)
            (mac_parts_complete b':' j.first j.others j.parts (ground arith) (ground arith)))
    complete (inr j) =
        let no = pairs_lack (j.first ∷ j.others) j.parts.1 in
        rw j.whole (
          rw (any-join-false b':' b'-' j.first j.others refl (ground arith) (ground arith)) (
            rw (has_sep b'-' j.first j.others j.parts.0)
              (mac_parts_complete b'-' j.first j.others j.parts (ground arith) (ground arith))))

label_lacks_dot :
    (p : Text) → all (λ c. is_ascii_alphanumeric c || c == b'-') p ≡ true → lacks b'.' p ≡ true
unfolding is_ascii_alphanumeric is_ascii_digit
label_lacks_dot [] h = refl
label_lacks_dot (c ∷ p) h = ground (arith, label_lacks_dot p)

labels_lack_dot : (ps : List Text) → all is_label ps ≡ true → all (lacks b'.') ps ≡ true
unfolding is_label
labels_lack_dot [] h = refl
labels_lack_dot (p ∷ ps) h =
    ground (arith, label_lacks_dot p (ground arith), labels_lack_dot ps (ground arith))

abbrev pub Labels : List Text → Type 0
Labels ps = all is_label ps ≡ true

-- Labels with dots between them, of 253 bytes at most.
pub record IsName (domain : Text) : Type 0 where
  pub labels : IsJoined b'.' Labels domain
  pub bounded : byte_len domain ≤ 253

-- the test of a domain without the final dot
abbrev is_name : Text → Bool
is_name domain =
    if is_empty domain || ltb 253 (byte_len domain) then false else all is_label (split b'.' domain)

join_filled :
    (sep : ℕ) (p : Text) (ps : List Text) → is_empty p ≡ false → is_empty (join sep p ps) ≡ false
join_filled sep [] ps h = absurd (ground arith)
join_filled sep (c ∷ p) [] h = refl
join_filled sep (c ∷ p) (q ∷ qs) h = refl

first_filled : (p : Text) (ps : List Text) → Labels (p ∷ ps) → is_empty p ≡ false
unfolding is_label
first_filled p ps h = ground arith

is_name_iff : (domain : Text) → (is_name domain ≡ true) ↔ IsName domain
is_name_iff domain = (sound, complete)
  where
    sound : is_name domain ≡ true → IsName domain
    sound h =
        let (p, ps, e, j) = join-split b'.' domain in
        let every : all is_label (split b'.' domain) ≡ true = ground arith in
        record {
          labels = record { first = p; others = ps; parts = rw e at every; whole = j };
          bounded = ground arith;
        }

    complete : IsName domain → is_name domain ≡ true
    complete n =
        let j = n.labels in
        let lack = labels_lack_dot (j.first ∷ j.others) j.parts in
        let filled = join_filled b'.' j.first j.others (first_filled j.first j.others j.parts) in
        let every : all is_label (split b'.' domain) ≡ true =
          rw j.whole
            (rw (split-join b'.' j.first j.others (ground arith) (ground arith)) j.parts) in
        let some_char : is_empty domain ≡ false = rw j.whole filled in
        ground (arith, every, some_char, n.bounded)

all-last : (ps : List Text) → all is_label (ps ++ [] ∷ []) ≡ false
unfolding is_label
all-last [] = refl
all-last (p ∷ ps) = ground (arith, all-last ps)

no_trailing_dot : (r : Text) → is_name (r ++ b'.' ∷ []) ≡ true → ⊥
unfolding is_label
no_trailing_dot r h =
    let every : all is_label (split b'.' (r ++ b'.' ∷ [])) ≡ true = ground arith in
    let last : all is_label (split b'.' r ++ [] ∷ []) ≡ true =
      rw (split-trailing b'.' r) at every in
    absurd (ground (arith, last, all-last (split b'.' r)))

-- A text is accepted as a domain exactly when it is at most 253 bytes of labels with dots between
-- them, with one more dot at its end or not.
pub is_valid_domain_iff :
    (domain : Text)
    → (is_valid_domain domain ≡ true)
      ↔ (IsName domain ⊎ ((name : Text) × IsName name × (domain ≡ name ++ codes ".")))
unfolding is_valid_domain
is_valid_domain_iff domain = elim (Option-cases (strip_suffix (codes ".") domain)) [
  | inl e ↦ (
    λ h. inl ((is_name_iff domain).0 (ground arith)),
    λ x. elim x [
      | inl n ↦ ground (arith, (is_name_iff domain).1 n)
      | inr (name, n, d) ↦
          absurd
            (ground (arith, ap (strip_suffix (codes ".")) d, strip_suffix-append (codes ".") name))
    ],
  )
  | inr (r, e) ↦
      let whole = strip_suffix-some (codes ".") domain e in
      (
        λ h. inr (r, (is_name_iff r).0 (ground arith), whole),
        λ x. elim x [
          | inl n ↦ absurd (no_trailing_dot r (rw whole at ((is_name_iff domain).1 n)))
          | inr (name, n, d) ↦
              let same : r ≡ name =
                ground
                  (arith, ap (strip_suffix (codes ".")) d, strip_suffix-append (codes ".") name) in
              ground (arith, same, (is_name_iff name).1 n)
        ],
      )
]
