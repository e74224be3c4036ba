-- ===== src/Base/Results.antt =====
-- Rust's `Result`, with its chain of `?` as `>>=`, and the state of a file that holds JSON.
use mathlib.Core.Path.{◌≡◌, refl, ap}
use mathlib.Core.Logic.{◌⊎◌, ◌↔◌, inl, inr}
use native.Mathlib.Omega.{arith}
use mathlib.Core.Bool.{Bool, true, false}

pub data Outcome {ℓ κ} (E : Type ℓ) (A : Type κ) : Type (ℓ ⊔ κ) where
  ok : A → Outcome E A
  err : E → Outcome E A

infixl 5 ◌>>=◌ ◌>>◌
abbrev pub ◌>>=◌ {ℓ κ ι} :
    {E : Type ℓ} {A : Type κ} {B : Type ι} → Outcome E A → (A → Outcome E B) → Outcome E B
ok a >>= f = f a
err e >>= f = err e

abbrev pub ◌>>◌ {ℓ κ ι} :
    {E : Type ℓ} {A : Type κ} {B : Type ι} → Outcome E A → Outcome E B → Outcome E B
ok a >> k = k
err e >> k = err e

pub Outcome-cases {ℓ κ} :
    {E : Type ℓ} {A : Type κ} (r : Outcome E A) → ((a : A) × (r ≡ ok a)) ⊎ ((e : E) × (r ≡ err e))
Outcome-cases (ok a) = inl (a, refl)
Outcome-cases (err e) = inr (e, refl)

pub ok_injective {ℓ κ} :
    {E : Type ℓ} {A : Type κ} {a b : A} → ◌≡◌ {A = Outcome E A} (ok a) (ok b) → a ≡ b
ok_injective {a} h = ap (λ r. elim r [ ok x ↦ x | err e ↦ a ]) h

-- `if bad { return Err(e) }`
abbrev pub reject_if {ℓ} : {E : Type ℓ} → Bool → E → Outcome E (Unit {0})
reject_if true e = err e
reject_if false e = ok tt

-- A file with one JSON document: missing, not readable as an `A`, or an `A`.
pub data Stored {ℓ} (A : Type ℓ) : Type ℓ where
  missing : Stored A
  unreadable : Stored A
  stored : A → Stored A

-- what a chain of checks and one check decide
pub then_iff {ℓ} :
    {E : Type ℓ} (r k : Outcome E (Unit {0})) → ((r >> k) ≡ ok tt) ↔ ((r ≡ ok tt) × (k ≡ ok tt))
then_iff (ok a) k = (λ h. (refl, h), λ h. h.1)
then_iff (err e) k = (λ h. absurd (ground arith), λ h. h.0)

pub reject_if_iff {ℓ} : {E : Type ℓ} (b : Bool) (e : E) → (reject_if b e ≡ ok tt) ↔ (b ≡ false)
reject_if_iff true e = ground arith
reject_if_iff false e = ground arith

pub both_iff {ℓ κ ι} :
    {E : Type ℓ} {P : Type κ} {Q : Type ι} (r k : Outcome E (Unit {0}))
    → (r ≡ ok tt) ↔ P
    → (k ≡ ok tt) ↔ Q
    → ((r >> k) ≡ ok tt) ↔ (P × Q)
both_iff r k p q =
    let t = then_iff r k in (λ h. (p.0 ((t.0 h).0), q.0 ((t.0 h).1)), λ h. t.1 (p.1 h.0, q.1 h.1))
