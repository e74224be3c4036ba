-- ===== src/Notify/Limits.antt =====
-- How many mails the limiter of dayshield-core/src/notify/rate_limit.rs lets pass.
use dayshield_core.Base.{
  ℕ, suc, zero, ◌+◌, ◌-◌, ◌*◌, ◌/◌, ◌≤◌, ◌<◌, List, [], ◌∷◌, ◌≡◌, refl, inl, inr, ◌⊎◌, All, leb,
  ltb, arith, Bool-cases,
}
use mathlib.Core.Path.{subst, sym}
use native.Mathlib.Nat.{suc-mul}
use dayshield_core.Notify.{RateLimiter, second, new, refill, take_token, check, allowed}

-- the first call of a list, which is allowed or not
allowed_cases :
    (now : ℕ) (times : List ℕ) (r : RateLimiter)
    → let s = refill now r in
      ((1 ≤ s.tokens)
        × (allowed (now ∷ times) r ≡ suc (allowed times (record s { tokens = s.tokens - 1 }))))
      ⊎ (allowed (now ∷ times) r ≡ allowed times s)
unfolding allowed check take_token
allowed_cases now times r = elim (Bool-cases (ltb 0 (refill now r).tokens)) [
  | inl e ↦ inl (ground arith, rw e refl)
  | inr e ↦ inr (rw e refl)
]

refill_cases :
    (now : ℕ) (r : RateLimiter)
    → ((refill now r ≡ record r { tokens = r.max_per_minute; last_refill = now })
        × (r.last_refill + 60 * second ≤ now))
      ⊎ (refill now r ≡ r)
unfolding refill
refill_cases now r = elim (Bool-cases (leb 60 ((now - r.last_refill) / second))) [
  | inl e ↦ inl (rw e refl, ground arith)
  | inr e ↦ inr (rw e refl)
]

-- one more call, from what holds of the others
allowed_step :
    (now : ℕ) (times : List ℕ) (r s : RateLimiter) (rest : ℕ)
    → refill now r ≡ s
    → ((t : ℕ) → t ≤ s.tokens → allowed times (record s { tokens = t }) ≤ t + rest)
    → allowed (now ∷ times) r ≤ s.tokens + rest
allowed_step now times r s rest e bound =
    subst (λ q. allowed (now ∷ times) r ≤ q.tokens + rest) e
      (step (
        subst (λ q. (t : ℕ) → t ≤ q.tokens → allowed times (record q { tokens = t }) ≤ t + rest)
          (sym e) bound))
  where
    step :
        ((t : ℕ)
          → t ≤ (refill now r).tokens
          → allowed times (record (refill now r) { tokens = t }) ≤ t + rest)
        → allowed (now ∷ times) r ≤ (refill now r).tokens + rest
    step b = elim (allowed_cases now times r) [
      | inl (some_left, c) ↦
          rw c (omega (arith, some_left, b ((refill now r).tokens - 1) (omega arith)))
      | inr c ↦ rw c (b (refill now r).tokens (omega arith))
    ]

allowed_lem :
    (times : List ℕ) (r : RateLimiter) (last minutes : ℕ)
    → r.tokens ≤ r.max_per_minute
    → All (λ t. t ≤ last) times
    → last < r.last_refill + suc minutes * (60 * second)
    → allowed times r ≤ r.tokens + minutes * r.max_per_minute
unfolding allowed
allowed_lem [] r last minutes h a k = omega arith
allowed_lem (now ∷ times) r last minutes h a k = elim (refill_cases now r) [
  | inr e ↦
      allowed_step now times r r (minutes * r.max_per_minute) e (λ t b.
        allowed_lem times (record r { tokens = t }) last minutes (omega (arith, b, h)) a.1 k)
  | inl (e, late) ↦
      later minutes k e late
        (λ j c t b. allowed_lem times (record r { tokens = t; last_refill = now }) last j b a.1 c)
]
  where
    later :
        (n : ℕ)
        → last < r.last_refill + suc n * (60 * second)
        → refill now r ≡ record r { tokens = r.max_per_minute; last_refill = now }
        → r.last_refill + 60 * second ≤ now
        → ((j : ℕ)
            → last < now + suc j * (60 * second)
            → (t : ℕ) → t ≤ r.max_per_minute
            → allowed times (record r { tokens = t; last_refill = now }) ≤ t + j * r.max_per_minute)
        → allowed (now ∷ times) r ≤ r.tokens + n * r.max_per_minute
    later zero k' e late ih = absurd (omega (arith, a.0, k', late))
    later (suc j) k' e late ih =
        let bound =
          allowed_step now times r (record r { tokens = r.max_per_minute; last_refill = now })
            (j * r.max_per_minute) e (ih j (omega (arith, k', late))) in
        omega (arith, bound, suc-mul j r.max_per_minute)

-- Of the calls to a new limiter that come before n + 1 minutes from its start are over, at most
-- n + 1 times its maximum are allowed, in whatever order their times are.
pub allowed-new :
    (start max_per_minute minutes : ℕ) (times : List ℕ)
    → All (λ t. t < start + suc minutes * (60 * second)) times
    → allowed times (new start max_per_minute) ≤ suc minutes * max_per_minute
allowed-new start max_per_minute minutes times h =
    let bound =
      allowed_lem times (new start max_per_minute) (start + suc minutes * (60 * second) - 1) minutes
        (omega arith) (before times h) (omega arith) in
    omega (arith, bound, suc-mul minutes max_per_minute)
  where
    before :
        (ts : List ℕ)
        → All (λ t. t < start + suc minutes * (60 * second)) ts
        → All (λ t. t ≤ start + suc minutes * (60 * second) - 1) ts
    before [] k = tt
    before (t ∷ ts) k = (omega (arith, k.0), before ts k.1)
