-- ===== src/Poll/Backoff/Bounds.antt =====
-- The delays that failures lead to, and where the int64 arithmetic of `OnFailure` leaves them.
use native.Mathlib.Nat.{pow-suc}
use mautrix_teams.Base.{
  ℕ, zero, suc, ◌+◌, ◌-◌, ◌*◌, ◌%◌, ◌^◌, ◌≤◌, ◌≡◌, refl, true, ◌||◌, arith, min, ltb, dec_lt,
  all_below, all_below_sound,
}
use mautrix_teams.Base.Int.{ℤ, pos, eq_ℤ, eq_ℤ_iff}
use mautrix_teams.Poll.Backoff.{PollBackoff, on_failure, doubled_delay}

-- The delay after `n` failures in a row before this one, as it is meant: doubled, up to the cap.
abbrev pub meant_delay : ℕ → ℕ
meant_delay n = min (2_000_000_000 * 2 ^ n) 60_000_000_000

abbrev failed : ℕ → ℤ
failed n = (on_failure (record { failures = n; delay = pos 0; idle_cap = pos 0 })).delay

table : all_below 33 (λ n. eq_ℤ (failed n) (pos (meant_delay n))) ≡ true
unfolding all_below eq_ℤ on_failure
table = refl

-- The first 33 failures in a row: the delay doubles from two seconds and stays at a minute once it
-- has reached it, whatever the backoff was before.
pub delay-on_failure :
    (b : PollBackoff)
    → b.failures ≤ 32
    → ((on_failure b).failures ≡ b.failures + 1)
      × ((on_failure b).delay ≡ pos (meant_delay b.failures))
unfolding on_failure
delay-on_failure b h =
    (refl, (eq_ℤ_iff (failed b.failures) _).0 (all_below_sound 33 _ b.failures table (omega arith)))

overflow_table : all_below 64 (λ n. ltb n 54 || eq_ℤ (failed n) (pos 0)) ≡ true
unfolding all_below eq_ℤ on_failure
overflow_table = refl

pow_wraps : (k m : ℕ) → m ≡ k + 64 → 2 ^ m % 2 ^ 64 ≡ 0
pow_wraps zero zero e = absurd (omega arith)
pow_wraps zero (suc m) e = let e' : m ≡ 63 = omega arith in rw e' refl
pow_wraps (suc k) zero e = absurd (omega arith)
pow_wraps (suc k) (suc m) e = rw pow-suc (omega (arith, pow_wraps k m (omega arith)))

shift_wraps : (n : ℕ) → 64 ≤ n → doubled_delay (n + 1) ≡ pos 0
unfolding doubled_delay
shift_wraps n h =
    let e : 2 ^ (n + 1 - 1) % 2 ^ 64 ≡ 0 = pow_wraps (n - 64) (n + 1 - 1) (omega arith) in
    ground (arith, e)

-- From the 55th failure in a row on, the shifted factor has left the 64 bits of an int64: the delay
-- is zero, and the thread is due again at once.
pub delay-on_failure_wrapped : (b : PollBackoff) → 54 ≤ b.failures → (on_failure b).delay ≡ pos 0
delay-on_failure_wrapped b h = elim (dec_lt b.failures 64) [
  | yes lt ↦
      unfold on_failure in
      (eq_ℤ_iff (failed b.failures) _).0
        (ground (arith, all_below_sound 64 _ b.failures overflow_table lt))
  | no ge ↦ unfold on_failure in rw (shift_wraps b.failures (omega arith)) refl
]
