-- ===== src/Base/Numbers.antt =====
-- Integers over the native numbers, and the decimal text of a number with its way back.
use dayshield_core.Base.Tests.{ltb, leb, within, Bool-cases}
use dayshield_core.Base.Lists.{all}
use dayshield_core.Base.Text.{Text, is_empty, is_ascii_digit, digits_value, parse_uint}
use Prim.Native.Nat.{ℕ, zero, suc, ◌+◌, ◌-◌, ◌*◌, ◌/◌, ◌%◌, ◌≤◌}
use mathlib.Core.Path.{◌≡◌, refl, ap, ◌∙◌}
use mathlib.Core.Logic.{inl, inr}
use mathlib.Core.Bool.{Bool, true, false}
use mathlib.Core.Option.{some}
use mathlib.Core.List.{[], ◌∷◌, ◌++◌}
use native.Mathlib.Omega.{arith}

-- a signed integer: `pos n` is n, `negsuc n` is - (n + 1)
pub data ℤ : Type 0 where
  pos negsuc : ℕ → ℤ

abbrev pub int_leb : ℤ → ℤ → Bool
int_leb (pos a) (pos b) = leb a b
int_leb (pos a) (negsuc b) = false
int_leb (negsuc a) (pos b) = true
int_leb (negsuc a) (negsuc b) = leb b a

abbrev pub is_negative : ℤ → Bool
is_negative (pos a) = false
is_negative (negsuc a) = true

pub int_leb_refl : (a : ℤ) → int_leb a a ≡ true
int_leb_refl (pos a) = ground arith
int_leb_refl (negsuc a) = ground arith

pub int_leb_total : (a b : ℤ) → int_leb a b ≡ false → int_leb b a ≡ true
int_leb_total (pos a) (pos b) h = ground arith
int_leb_total (pos a) (negsuc b) h = refl
int_leb_total (negsuc a) (pos b) h = absurd (ground arith)
int_leb_total (negsuc a) (negsuc b) h = ground arith

pub int_leb_trans : (a b c : ℤ) → int_leb a b ≡ true → int_leb b c ≡ true → int_leb a c ≡ true
int_leb_trans (pos a) (pos b) (pos c) h k = ground arith
int_leb_trans (pos a) (pos b) (negsuc c) h k = absurd (ground arith)
int_leb_trans (pos a) (negsuc b) c h k = absurd (ground arith)
int_leb_trans (negsuc a) b (pos c) h k = refl
int_leb_trans (negsuc a) (pos b) (negsuc c) h k = absurd (ground arith)
int_leb_trans (negsuc a) (negsuc b) (negsuc c) h k = ground arith

-- the digits of n in base 10, with more fuel than n
abbrev decimal_digits : ℕ → ℕ → Text
decimal_digits zero n = []
decimal_digits (suc fuel) n = elim (ltb n 10) [
  | true ↦ (n + b'0') ∷ []
  | false ↦ decimal_digits fuel (n / 10) ++ (n % 10 + b'0') ∷ []
]

-- `n.to_string()`
unfoldable pub to_text : ℕ → Text
to_text n = decimal_digits (suc n) n

digits_value-append :
    (a : ℕ) (s : Text) (c v : ℕ)
    → digits_value a s ≡ some v
    → within b'0' b'9' c ≡ true
    → digits_value a (s ++ c ∷ []) ≡ some (v * 10 + (c - b'0'))
digits_value-append a [] c v h k = ground arith
digits_value-append a (d ∷ s) c v h k =
    ground (arith, digits_value-append (a * 10 + (d - b'0')) s c v)

decimal_digits_value : (fuel n : ℕ) → suc n ≤ fuel → digits_value 0 (decimal_digits fuel n) ≡ some n
decimal_digits_value zero n h = absurd (omega arith)
decimal_digits_value (suc fuel) n h = elim (Bool-cases (ltb n 10)) [
  | inl e ↦ rw (e, decimal_digits) (ground arith)
  | inr e ↦
      rw (e, decimal_digits)
        (digits_value-append 0 (decimal_digits fuel (n / 10)) (n % 10 + b'0') (n / 10)
            (decimal_digits_value fuel (n / 10) (ground arith)) (ground arith)
          ∙ ap (λ v. some v) (omega arith))
]

all-snoc :
    (p : ℕ → Bool) (s : Text) (c : ℕ) → all p s ≡ true → p c ≡ true → all p (s ++ c ∷ []) ≡ true
all-snoc p [] c h k = ground arith
all-snoc p (d ∷ s) c h k = ground (arith, all-snoc p s c)

decimal_digits-all : (fuel n : ℕ) → all is_ascii_digit (decimal_digits fuel n) ≡ true
unfolding is_ascii_digit
decimal_digits-all zero n = refl
decimal_digits-all (suc fuel) n = elim (Bool-cases (ltb n 10)) [
  | inl e ↦ rw (e, decimal_digits) (ground arith)
  | inr e ↦
      rw (e, decimal_digits)
        (all-snoc is_ascii_digit (decimal_digits fuel (n / 10)) (n % 10 + b'0')
          (decimal_digits-all fuel (n / 10)) (ground arith))
]

pub to_text-all : (n : ℕ) → all is_ascii_digit (to_text n) ≡ true
unfolding to_text
to_text-all n = decimal_digits-all (suc n) n

is_empty-snoc : (s : Text) (c : ℕ) → is_empty (s ++ c ∷ []) ≡ false
is_empty-snoc [] c = refl
is_empty-snoc (d ∷ s) c = refl

decimal_digits_some : (fuel n : ℕ) → is_empty (decimal_digits (suc fuel) n) ≡ false
decimal_digits_some fuel n = elim (Bool-cases (ltb n 10)) [
  | inl e ↦ rw (e, decimal_digits) refl
  | inr e ↦ rw (e, decimal_digits) (is_empty-snoc (decimal_digits fuel (n / 10)) (n % 10 + b'0'))
]

parse_digits :
    (limit n : ℕ) (s : Text)
    → n ≤ limit
    → is_empty s ≡ false
    → digits_value 0 s ≡ some n
    → parse_uint limit s ≡ some n
unfolding parse_uint
parse_digits limit n [] h k e = absurd (ground arith)
parse_digits limit n (c ∷ s) h k e = ground arith

-- the text of a number reads as the number
pub parse_uint-to_text : (limit n : ℕ) → n ≤ limit → parse_uint limit (to_text n) ≡ some n
unfolding to_text
parse_uint-to_text limit n h =
    parse_digits limit n (decimal_digits (suc n) n) h (decimal_digits_some n n)
      (decimal_digits_value (suc n) n (omega arith))
