-- ===== src/Metrics/Tests.antt =====
-- Runs and instances of the buffer at concrete snapshots, which are their timestamps.
use dayshield_core.Base.{ℕ, [], ◌∷◌, ◌≡◌, refl, drop, arith}
use dayshield_core.Metrics.{new, push, push_all, last_n}
use dayshield_core.Metrics.Eviction.{push_all-new}

push_all-new_example :
    (push_all {A = ℕ} (1 ∷ 2 ∷ 3 ∷ 4 ∷ 5 ∷ []) (new 3)).history ≡ drop 2 (1 ∷ 2 ∷ 3 ∷ 4 ∷ 5 ∷ [])
push_all-new_example = push_all-new 3 (1 ∷ 2 ∷ 3 ∷ 4 ∷ 5 ∷ []) (omega arith)

last_two_seconds :
    last_n (λ s. s) 2 (push_all {A = ℕ} (1 ∷ 7 ∷ 8 ∷ 9 ∷ []) (new 3)) ≡ 7 ∷ 8 ∷ 9 ∷ []
unfolding last_n push
last_two_seconds = refl

unbounded_by_zero : (push_all {A = ℕ} (1 ∷ 2 ∷ []) (new 0)).history ≡ 2 ∷ []
unfolding push
unbounded_by_zero = refl
