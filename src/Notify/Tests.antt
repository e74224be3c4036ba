-- ===== src/Notify/Tests.antt =====
-- Runs and instances of the rate limiter at concrete times.
use dayshield_core.Base.{◌*◌, ◌≤◌, [], ◌∷◌, ◌≡◌, refl, arith}
use dayshield_core.Notify.{new, second, refill, take_token, check, allowed}
use dayshield_core.Notify.Limits.{allowed-new}

allowed-new_example : allowed (1 ∷ 2 ∷ 3 ∷ 61 * second ∷ []) (new 0 2) ≤ 2 * 2
allowed-new_example =
    allowed-new 0 2 1 (1 ∷ 2 ∷ 3 ∷ 61 * second ∷ [])
      (omega arith, (omega arith, (omega arith, (omega arith, tt))))

refused_third : allowed (1 ∷ 2 ∷ 3 ∷ 61 * second ∷ []) (new 0 2) ≡ 3
unfolding allowed check refill take_token
refused_third = refl
