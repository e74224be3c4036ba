-- ===== src/Base/Bits.antt =====
-- The bits of native numbers: a mask of leading ones clears the bits below it, and a number below a
-- cleared place is added by `bit_or`.
use Prim.Native.Nat.{
  ℕ, zero, suc, ◌+◌, ◌-◌, ◌*◌, ◌/◌, ◌%◌, ◌^◌, ◌≤◌, ◌<◌, min, max, digits, bitwise, bit_and, bit_or,
  bit_and-bitwise, bit_or-bitwise,
}
use native.Mathlib.Nat.{
  pow-suc, pow-succ', mul_assoc, div-one, mul-one, one-mul, zero-add, suc-add, div-div-eq-div-mul,
  mod-add-div, one-le-pow, mul_comm,
}
use mathlib.Core.Path.{◌≡◌, refl, sym, ap, ◌∙◌}
use mathlib.Core.Logic.{inl, inr}
use native.Mathlib.Omega.{arith}
use dayshield_core.Base.Tests.{leb, leb→le, Bool-cases}

module _ (rest : ℕ → ℕ) (digit : ℕ → ℕ → ℕ) where
  -- one digit more than there are changes nothing
  another : (n x y : ℕ) → x ≤ n → digits rest digit (suc n) x y ≡ digits rest digit n x y
  another zero zero y h = refl
  another (suc n) zero y h = refl
  another zero (suc x) y h = absurd (omega arith)
  another (suc n) (suc x) y h =
      ap (λ high. high * 2 + digit (suc x % 2) (y % 2))
        (another n (suc x / 2) (y / 2) (omega arith))

  enough : (n x y : ℕ) → x ≤ n → digits rest digit n x y ≡ bitwise rest digit x y
  enough zero zero y h = refl
  enough zero (suc x) y h = absurd (omega arith)
  enough (suc n) x y h = elim (Bool-cases (leb x n)) [
    | inl e ↦ another n x y (leb→le x n e) ∙ enough n x y (leb→le x n e)
    | inr e ↦ let all : x ≡ suc n = ground arith in rw all refl
  ]

  split_lowest :
      (x y : ℕ)
      → bitwise rest digit (suc x) y
        ≡ bitwise rest digit (suc x / 2) (y / 2) * 2 + digit (suc x % 2) (y % 2)
  split_lowest x y =
      ap (λ high. high * 2 + digit (suc x % 2) (y % 2)) (enough x (suc x / 2) (y / 2) (omega arith))

-- the lowest digit, and the others
bit_or-half : (x y : ℕ) → bit_or x y ≡ bit_or (x / 2) (y / 2) * 2 + max (x % 2) (y % 2)
bit_or-half zero y = omega (arith, bit_or-bitwise 0 (y / 2), bit_or-bitwise 0 y)
bit_or-half (suc x) y = omega (
  arith,
  split_lowest (λ d. d) max x y,
  bit_or-bitwise (suc x / 2) (y / 2),
  bit_or-bitwise (suc x) y,
)

bit_and-half : (x y : ℕ) → bit_and x y ≡ bit_and (x / 2) (y / 2) * 2 + min (x % 2) (y % 2)
bit_and-half zero y = omega (arith, bit_and-bitwise 0 (y / 2), bit_and-bitwise 0 y)
bit_and-half (suc x) y = omega (
  arith,
  split_lowest (λ d. zero) min x y,
  bit_and-bitwise (suc x / 2) (y / 2),
  bit_and-bitwise (suc x) y,
)

bit_and-zero : (n a : ℕ) → a ≤ n → bit_and a 0 ≡ 0
bit_and-zero n zero h = omega (arith, bit_and-bitwise 0 0)
bit_and-zero zero (suc a) h = absurd (omega arith)
bit_and-zero (suc n) (suc a) h =
    omega (arith, bit_and-half (suc a) 0, bit_and-zero n (suc a / 2) (omega arith))

double-half : (n : ℕ) → n * 2 / 2 ≡ n
double-half n = omega arith

double-even : (n : ℕ) → n * 2 % 2 ≡ 0
double-even n = omega arith

shift_suc : (k m : ℕ) → m * 2 ^ suc k ≡ m * 2 ^ k * 2
shift_suc k m = ap (λ x. m * x) (pow-suc 2 k) ∙ sym (mul_assoc m (2 ^ k) 2)

bit_or-zero : (n a : ℕ) → a ≤ n → bit_or a 0 ≡ a
bit_or-zero n zero h = omega (arith, bit_or-bitwise 0 0)
bit_or-zero zero (suc a) h = absurd (omega arith)
bit_or-zero (suc n) (suc a) h =
    omega (arith, bit_or-half (suc a) 0, bit_or-zero n (suc a / 2) (omega arith))

mod-double : (a p : ℕ) → a % (p * 2) ≡ a / 2 % p * 2 + a % 2
mod-double a p = omega (
  arith,
  mod-add-div (a / 2) p,
  mod-add-div a (p * 2),
  ap (λ x. p * x) (div-div-eq-div-mul a 2 p ∙ ap (λ x. a / x) (mul_comm 2 p)),
)

-- ones in the lowest w places keep those places
pub bit_and-ones : (w a : ℕ) → bit_and a (2 ^ w - 1) ≡ a % 2 ^ w
bit_and-ones zero a = omega (arith, bit_and-zero a a (omega arith))
bit_and-ones (suc w) a =
    let e : (2 ^ suc w - 1) / 2 ≡ 2 ^ w - 1 = omega (arith, pow-suc 2 w) in
    omega (
      arith,
      one-le-pow w 2 (omega arith),
      pow-suc 2 w,
      bit_and-half a (2 ^ suc w - 1),
      bit_and-ones w (a / 2),
      ap (bit_and (a / 2)) e,
      mod-double a (2 ^ w),
      ap (λ x. a % x) (pow-suc 2 w),
    )

-- a number shifted to the left meets only the places from there on
pub bit_and-shifted : (k a m : ℕ) → bit_and a (m * 2 ^ k) ≡ bit_and (a / 2 ^ k) m * 2 ^ k
bit_and-shifted zero a m = rw (div-one a, mul-one m) (sym (mul-one (bit_and a m)))
bit_and-shifted (suc k) a m =
    let e : a / 2 ^ suc k ≡ a / 2 / 2 ^ k =
      ap (λ x. a / x) (pow-succ' 2 k) ∙ sym (div-div-eq-div-mul a 2 (2 ^ k)) in
    rw
      (
        shift_suc k m,
        e,
        bit_and-half a (m * 2 ^ k * 2),
        double-half (m * 2 ^ k),
        double-even (m * 2 ^ k),
      )
      (omega (arith, bit_and-shifted k (a / 2) m, shift_suc k (bit_and (a / 2 / 2 ^ k) m)))

pub bit_or-below : (k m b : ℕ) → b < 2 ^ k → bit_or (m * 2 ^ k) b ≡ m * 2 ^ k + b
bit_or-below zero m zero h = omega (arith, bit_or-zero (m * 1) (m * 1) (omega arith))
bit_or-below zero m (suc b) h = absurd (omega arith)
bit_or-below (suc k) m b h =
    rw
      (
        shift_suc k m,
        bit_or-half (m * 2 ^ k * 2) b,
        double-half (m * 2 ^ k),
        double-even (m * 2 ^ k),
        bit_or-below k m (b / 2) (omega (arith, pow-suc 2 k)),
      )
      (omega arith)

pub two_pow_add : (a b : ℕ) → 2 ^ (a + b) ≡ 2 ^ a * 2 ^ b
two_pow_add zero b = ap (λ x. 2 ^ x) (zero-add b) ∙ sym (one-mul (2 ^ b))
two_pow_add (suc a) b = omega (
  arith,
  ap (λ x. 2 ^ x) (suc-add a b),
  pow-suc 2 (a + b),
  two_pow_add a b,
  ap (λ x. x * 2 ^ b) (pow-succ' 2 a),
  mul_assoc 2 (2 ^ a) (2 ^ b),
)
