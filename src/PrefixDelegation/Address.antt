-- ===== src/PrefixDelegation/Address.antt =====
-- The parts of a tracked address: dayshield-core/src/engine/prefix_delegation/mod.rs.
use dayshield_core.Base.{
  ℕ, zero, suc, ◌+◌, ◌-◌, ◌*◌, ◌/◌, ◌%◌, ◌^◌, ◌≤◌, ◌<◌, Bool, true, false, ◌&&◌, ◌||◌, some, List,
  ◌∷◌, ◌++◌, ltb, ◌==◌, ==_iff, to_text, ◌≡◌, refl, sym, ◌∙◌, arith, inl, inr, Bool-cases,
  Option-cases,
}
use dayshield_core.Base.Bits.{bit_and-ones, bit_and-shifted, bit_or-below, two_pow_add}
use dayshield_core.Base.Text.{Text}
use dayshield_core.Net.Cidr.{to_u128, from_u128}
use dayshield_core.Net.Printing.{show_ipv6}
use dayshield_core.PrefixDelegation.{
  parse_prefix, shift_left, prefix_mask, compose_address, does_not_fit, compute_track_address,
}
use Prim.Native.Nat.{bit_and}
use native.Mathlib.Nat.{
  mul_assoc, mod-eq_of_lt, mul-lt-mul_of_pos_right, one-le-pow, add_comm, mul_comm,
  add-mul-div_right, div-eq_of_lt, mul-add-mod_self_right, div-div-eq-div-mul, pow-le-pow_right,
}

all_below : (ℕ → Bool) → ℕ → Bool
all_below p zero = true
all_below p (suc n) = p n && all_below p n

all_below-lt : (p : ℕ → Bool) (n i : ℕ) → all_below p n ≡ true → i < n → p i ≡ true
unfolding all_below
all_below-lt p zero i h k = absurd (omega arith)
all_below-lt p (suc n) i h k = elim (Bool-cases (i == n)) [
  | inl e ↦ rw ((==_iff i n).0 e) (ground arith)
  | inr e ↦ all_below-lt p n i (ground arith) (ground arith)
]

is_mask : ℕ → Bool
unfolding prefix_mask
is_mask d = prefix_mask d == (2 ^ d - 1) * 2 ^ (128 - d)

masks : all_below is_mask 129 ≡ true
unfolding all_below is_mask prefix_mask shift_left
masks = refl

prefix_mask_lem : (d : ℕ) → d ≤ 128 → prefix_mask d ≡ (2 ^ d - 1) * 2 ^ (128 - d)
unfolding is_mask
prefix_mask_lem d h = (==_iff _ _).0 (all_below-lt is_mask 129 d masks (omega arith))

shift_left_lem : (x s : ℕ) → s < 128 → x * 2 ^ s < 2 ^ 128 → shift_left x s ≡ x * 2 ^ s
unfolding shift_left
shift_left_lem x s h k = rw (mod-eq_of_lt h) (mod-eq_of_lt k)

shifted_bound : (v k id : ℕ) → id < 2 ^ v → id * 2 ^ k < 2 ^ (v + k)
shifted_bound v k id h =
    rw (two_pow_add v k) (mul-lt-mul_of_pos_right h (one-le-pow k 2 (omega arith)))

module _ (base d v k : ℕ) (e : d + v + k ≡ 128) where
  -- the first d bits of the base
  abbrev pub leading : ℕ
  leading = base / 2 ^ (v + k) % 2 ^ d

  network_lem : bit_and base (prefix_mask d) ≡ leading * 2 ^ (v + k)
  network_lem =
      let s : 128 - d ≡ v + k = omega arith in
      let m : prefix_mask d ≡ (2 ^ d - 1) * 2 ^ (v + k) =
        rw s at (prefix_mask_lem d (omega arith)) in
      rw (m, bit_and-shifted (v + k) base (2 ^ d - 1), bit_and-ones d (base / 2 ^ (v + k))) refl

  part_lem : (id : ℕ) → k < 128 → id < 2 ^ v → shift_left id (128 - (d + v)) ≡ id * 2 ^ k
  part_lem id h i =
      let s : 128 - (d + v) ≡ k = omega arith in
      let le : 2 ^ (v + k) ≤ 2 ^ 128 =
        pow-le-pow_right {n = 2} (omega arith) {i = v + k} {j = 128} (omega arith) in
      rw s (shift_left_lem id k h (omega (arith, shifted_bound v k id i, le)))

  -- The address from its parts: the bits of the base, v bits of the subnet, k bits of the host.
  composed :
      (id host : ℕ)
      → k < 128
      → id < 2 ^ v
      → host < 2 ^ k
      → compose_address base d id (d + v) host ≡ (leading * 2 ^ v + id) * 2 ^ k + host
  unfolding compose_address
  composed id host h i j =
      let sum : leading * 2 ^ (v + k) + id * 2 ^ k ≡ (leading * 2 ^ v + id) * 2 ^ k =
        rw (two_pow_add v k) (omega (arith, mul_assoc leading (2 ^ v) (2 ^ k))) in
      rw
        (
          network_lem,
          part_lem id h i,
          bit_or-below (v + k) leading (id * 2 ^ k) (shifted_bound v k id i),
          sum,
        )
        (bit_or-below k (leading * 2 ^ v + id) host j)

fits :
    (available_bits id : ℕ)
    → id < 256
    → does_not_fit available_bits id ≡ false
    → id < 2 ^ available_bits
unfolding does_not_fit
fits n id h k = elim (Bool-cases (ltb n 8)) [
  | inl e ↦ ground (arith, k, e)
  | inr e ↦
      let le : 2 ^ 8 ≤ 2 ^ n =
        pow-le-pow_right {n = 2} (omega arith) {i = 8} {j = n} (ground arith) in
      omega (arith, le, h)
]

-- The text shows an address whose first bits are those of the delegated prefix, then the subnet,
-- then the host.
pub record IsTracked (prefix : Text) (prefix_id target_len host_part : ℕ) (shown : Text)
    : Type 0 where
  pub groups : List ℕ
  pub del_len : ℕ
  pub number : ℕ
  pub parsed : parse_prefix prefix ≡ some (groups, del_len)
  pub written : shown ≡ show_ipv6 (from_u128 number) ++ b'/' ∷ to_text target_len
  pub network : number / 2 ^ (128 - del_len) ≡ to_u128 groups / 2 ^ (128 - del_len) % 2 ^ del_len
  pub subnet : number / 2 ^ (128 - target_len) % 2 ^ (target_len - del_len) ≡ prefix_id
  pub host : number % 2 ^ (128 - target_len) ≡ host_part

-- the high and the low part of a number
part-high : (x b h : ℕ) → h < b → (x * b + h) / b ≡ x
part-high x b h p =
    let q : (h + x * b) / b ≡ h / b + x = add-mul-div_right h x (omega arith) in
    rw (add_comm (x * b) h, q, div-eq_of_lt p) (omega arith)

part-low : (x b h : ℕ) → h < b → (x * b + h) % b ≡ h
part-low x b h p = mul-add-mod_self_right x b h ∙ mod-eq_of_lt p

part-network :
    (x v k i h : ℕ) → i < 2 ^ v → h < 2 ^ k → ((x * 2 ^ v + i) * 2 ^ k + h) / 2 ^ (v + k) ≡ x
part-network x v k i h p q =
    let n : ℕ = (x * 2 ^ v + i) * 2 ^ k + h in
    rw (two_pow_add v k, mul_comm (2 ^ v) (2 ^ k), sym (div-div-eq-div-mul n (2 ^ k) (2 ^ v)))
      (rw (part-high (x * 2 ^ v + i) (2 ^ k) h q) (part-high x (2 ^ v) i p))

tracked :
    (prefix : Text) (groups : List ℕ) (d v k t id host : ℕ) (shown : Text)
    → d + v + k ≡ 128
    → d + v ≡ t
    → k < 128
    → id < 2 ^ v
    → host < 2 ^ k
    → parse_prefix prefix ≡ some (groups, d)
    → shown
      ≡ show_ipv6 (from_u128 (compose_address (to_u128 groups) d id t host)) ++ b'/' ∷ to_text t
    → IsTracked prefix id t host shown
tracked prefix groups d v k t id host shown e w h i j parsed written =
    let c = rw w at (composed (to_u128 groups) d v k e id host h i j) in
    let x : ℕ = leading (to_u128 groups) d v k e in
    let s : 128 - d ≡ v + k = omega arith in
    let s' : 128 - t ≡ k = omega arith in
    let s'' : t - d ≡ v = omega arith in
    record {
      groups = groups;
      del_len = d;
      number = compose_address (to_u128 groups) d id t host;
      parsed = parsed;
      written = written;
      network = rw (c, s) (part-network x v k id host i j);
      subnet = rw (c, s', s'', part-high (x * 2 ^ v + id) (2 ^ k) host j) (part-low x (2 ^ v) id i);
      host = rw (c, s') (part-low (x * 2 ^ v + id) (2 ^ k) host j);
    }

abbrev refused : ℕ → ℕ → ℕ → Bool
refused d t id = ltb t d || ltb 128 t || does_not_fit (t - d) id

split_refused :
    (d t id : ℕ) → refused d t id ≡ false → (d ≤ t) × (t ≤ 128) × (does_not_fit (t - d) id ≡ false)
split_refused d t id h = (ground arith, ground arith, ground arith)

-- A text that is computed for a subnet of 8 bits, a target length that is not 0 and a host that fits
-- behind it shows an address of which the delegated prefix is the first part, the subnet the bits
-- from there to the target length, and the host the rest.
pub compute_track_address-IsTracked :
    (prefix : Text) (prefix_id target_len host_part : ℕ) (shown : Text)
    → prefix_id < 256
    → 1 ≤ target_len
    → host_part < 2 ^ (128 - target_len)
    → compute_track_address prefix prefix_id target_len host_part ≡ some shown
    → IsTracked prefix prefix_id target_len host_part shown
unfolding compute_track_address
compute_track_address-IsTracked prefix id t host shown h i j r =
    elim (Option-cases (parse_prefix prefix)) [
      | inl e ↦ absurd (ground (arith, rw (e, compute_track_address) at r))
      | inr ((groups, d), e) ↦ elim (Bool-cases (refused d t id)) [
        | inl f ↦ absurd (ground (arith, rw (e, compute_track_address, f) at r))
        | inr f ↦
            let (le, bound, fit) = split_refused d t id f in
            let address = compose_address (to_u128 groups) d id t host in
            let written : shown ≡ show_ipv6 (from_u128 address) ++ b'/' ∷ to_text t =
              ground (arith, rw (e, compute_track_address, f) at r) in
            tracked prefix groups d (t - d) (128 - t) t id host shown (omega arith) (omega arith)
              (omega arith) (fits (t - d) id h fit) j e written
      ]
    ]
