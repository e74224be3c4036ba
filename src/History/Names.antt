-- ===== src/History/Names.antt =====
-- The ids that dayshield-core/src/config/history.rs makes are accepted by its own check.
use dayshield_core.Base.{
  ℕ, zero, suc, ◌-◌, Bool, true, false, ◌||◌, some, [], ◌∷◌, ◌++◌, ◌==◌, ==_iff, ◌≡◌, refl, arith,
  all, inl, inr, ok, length, to_text, to_text-all, Bool-cases,
}
use dayshield_core.Base.Text.{
  Text, codes, is_empty, contains, starts_with, is_ascii_digit, is_ascii_alphanumeric,
}
use dayshield_core.Base.Text.Splits.{all-append}
use dayshield_core.Base.Text.Affixes.{strip_suffix-append}
use dayshield_core.Base.Text.Joins.{lacks}
use dayshield_core.History.{validate_id, json_name, json_stem, zeroes, revision_id}

-- the characters of an id
unfoldable pub is_id_char : ℕ → Bool
unfolding is_ascii_alphanumeric is_ascii_digit
is_id_char c = is_ascii_alphanumeric c || c == b'-'

id_char-lacks : (c x : ℕ) → is_id_char x ≡ false → is_id_char c ≡ true → (c == x) ≡ false
id_char-lacks c x h k = elim (Bool-cases (c == x)) [
  | inl e ↦ absurd (ground (arith, rw ((==_iff c x).0 e) at k))
  | inr e ↦ e
]

lacks-all : (x : ℕ) (s : Text) → is_id_char x ≡ false → all is_id_char s ≡ true → lacks x s ≡ true
lacks-all x [] h k = refl
lacks-all x (c ∷ s) h k = ground (arith, lacks-all x s h, id_char-lacks c x h)

contains-all : (s : Text) → all is_id_char s ≡ true → contains (codes "..") s ≡ false
unfolding contains starts_with is_id_char
contains-all [] h = refl
contains-all (c ∷ s) h = ground (arith, contains-all s, id_char-lacks c b'.' refl)

pub validate_id-all :
    (s : Text) → is_empty s ≡ false → all is_id_char s ≡ true → validate_id s ≡ ok tt
unfolding validate_id is_id_char
validate_id-all s h k = ground (
  arith,
  h,
  lacks-all b'/' s refl k,
  lacks-all 92 s refl k,
  contains-all s k,
  lacks-all 0 s refl k,
)

digits-all : (s : Text) → all is_ascii_digit s ≡ true → all is_id_char s ≡ true
unfolding is_id_char is_ascii_alphanumeric
digits-all [] h = refl
digits-all (c ∷ s) h = ground (arith, digits-all s)

alphanumeric-all : (s : Text) → all is_ascii_alphanumeric s ≡ true → all is_id_char s ≡ true
unfolding is_id_char
alphanumeric-all [] h = refl
alphanumeric-all (c ∷ s) h = ground (arith, alphanumeric-all s)

zeroes-all : (n : ℕ) → all is_id_char (zeroes n) ≡ true
unfolding is_id_char is_ascii_alphanumeric is_ascii_digit
zeroes-all zero = refl
zeroes-all (suc n) = zeroes-all n

parts-all :
    (r s t : Text)
    → all is_id_char r ≡ true
    → all is_id_char s ≡ true
    → all is_id_char t ≡ true
    → all is_id_char (r ++ s ++ t) ≡ true
parts-all r s t h k l =
    rw (all-append is_id_char (r ++ s) t, all-append is_id_char r s) (ground (arith, h, k, l))

dash-all : (s : Text) → all is_id_char s ≡ true → all is_id_char (b'-' ∷ s) ≡ true
unfolding is_id_char
dash-all s h = rw (h, is_id_char) refl

pub revision_id-all :
    (millis : ℕ) (uuid : Text)
    → all is_ascii_alphanumeric uuid ≡ true
    → all is_id_char (revision_id millis uuid) ≡ true
unfolding revision_id
revision_id-all millis uuid h =
    let digits = to_text millis in
    parts-all (zeroes (14 - length digits)) digits (b'-' ∷ uuid) (zeroes-all (14 - length digits))
      (digits-all digits (to_text-all millis)) (dash-all uuid (alphanumeric-all uuid h))

filled-append : (s : Text) (c : ℕ) (t : Text) → is_empty (s ++ c ∷ t) ≡ false
filled-append [] c t = refl
filled-append (d ∷ s) c t = refl

pub revision_id-filled : (millis : ℕ) (uuid : Text) → is_empty (revision_id millis uuid) ≡ false
unfolding revision_id
revision_id-filled millis uuid =
    filled-append (zeroes (14 - length (to_text millis)) ++ to_text millis) b'-' uuid

pub json_stem-json_name : (id : Text) → is_empty id ≡ false → json_stem (json_name id) ≡ some id
unfolding json_stem json_name
json_stem-json_name id h =
    rw (json_stem, strip_suffix-append (codes ".json") id) (ground (arith, h))
