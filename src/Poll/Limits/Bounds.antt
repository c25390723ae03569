-- ===== src/Poll/Limits/Bounds.antt =====
-- The pauses and spacings that the limits allow.
use native.Mathlib.Nat.{pow-suc}
use mautrix_teams.Base.{
  ℕ, zero, suc, ◌*◌, ◌^◌, ◌≤◌, ◌≡◌, refl, ◌⊎◌, ◌↔◌, Option, none, some, arith, min,
}
use mautrix_teams.Base.Int.{ℤ, pos, ◌≤ℤ◌, ◌<ℤ◌}
use mautrix_teams.Errors.{Err, as_retryable}
use mautrix_teams.Poll.Limits.{teams_throttle, throttle_pause, activity_retry_delay, throttle_max}

-- How long a Retry-After of `after` pauses polling.
abbrev pub Pause : ℤ → ℤ → Type 0
Pause after d =
    ((after ≤ℤ pos 0) × (d ≡ pos 30_000_000_000))
    ⊎ ((pos 0 <ℤ after) × (after ≤ℤ throttle_max) × (d ≡ after))
    ⊎ ((throttle_max <ℤ after) × (d ≡ throttle_max))

throttle_pause_lem :
    (o : Option (ℕ × ℤ)) (d : ℤ)
    → throttle_pause o ≡ some d
    → (after : ℤ) × (o ≡ some (429, after)) × Pause after d
unfolding throttle_pause
throttle_pause_lem none d h = absurd (cc)
throttle_pause_lem (some (status, after)) d h = (after, ground arith, ground arith)

throttle_pause_back : (after d : ℤ) → Pause after d → throttle_pause (some (429, after)) ≡ some d
unfolding throttle_pause
throttle_pause_back after d h = ground arith

-- Polling is paused exactly for a rate-limit answer: by its Retry-After, at most ten minutes, and
-- by thirty seconds where it names none.
pub teams_throttle_lem :
    (err : Err) (d : ℤ)
    → (teams_throttle (some err) ≡ some d)
      ↔ ((after : ℤ) × (as_retryable err ≡ some (429, after)) × Pause after d)
unfolding teams_throttle
teams_throttle_lem err d =
    (throttle_pause_lem (as_retryable err) d, λ (after, e, p). rw e (throttle_pause_back after d p))

pub one-le-pow : (n : ℕ) → 1 ≤ 2 ^ n
one-le-pow zero = omega arith
one-le-pow (suc n) = rw pow-suc (omega (arith, one-le-pow n))

capped :
    (n : ℕ)
    → min (3_000_000_000 * 2 ^ (suc (suc (suc (suc (suc n)))))) 60_000_000_000 ≡ 60_000_000_000
capped n = simp pow-suc (omega (arith, one-le-pow n))

min_six : (n : ℕ) → 6 ≤ n → min n 6 ≡ 6
min_six n h = omega arith

-- After `n` failures in a row the change checks are three seconds doubled `n` times apart, and at
-- most a minute; the shift is cut at six, where the minute is reached.
pub activity_retry_delay_lem :
    (n : ℕ) → activity_retry_delay n ≡ pos (min (3_000_000_000 * 2 ^ n) 60_000_000_000)
unfolding activity_retry_delay
activity_retry_delay_lem zero = refl
activity_retry_delay_lem (suc zero) = refl
activity_retry_delay_lem (suc (suc zero)) = refl
activity_retry_delay_lem (suc (suc (suc zero))) = refl
activity_retry_delay_lem (suc (suc (suc (suc zero)))) = refl
activity_retry_delay_lem (suc (suc (suc (suc (suc zero))))) = refl
activity_retry_delay_lem (suc (suc (suc (suc (suc (suc n)))))) =
    rw (capped (suc n), min_six (suc (suc (suc (suc (suc (suc n)))))) (omega arith)) (ground arith)
