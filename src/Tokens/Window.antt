-- ===== src/Tokens/Window.antt =====
-- How long a failed refresh keeps the next ones off.
use mautrix_teams.Base.{
  ℕ, suc, ◌+◌, ◌-◌, ◌*◌, ◌^◌, ◌≤◌, ◌<◌, ◌≡◌, ◌↔◌, refl, Bool, true, none, some, min, arith,
  if◌then◌else◌, dec_lt, ltb, [], ◌++◌, Bool-cases, inl, inr, all_below, all_below_sound,
}
use mautrix_teams.Base.Int.{pos, eq_ℤ, eq_ℤ_iff, mul64, shl64}
use mautrix_teams.Base.Text.{Text, codes}
use mautrix_teams.Errors.{Err, wrap}
use mautrix_teams.Reach.{is_teams_network_error}
use mautrix_teams.Poll.Time.{Time}
use mautrix_teams.Poll.Limits.Bounds.{one-le-pow}
use native.Mathlib.Nat.{pow-suc}
use mautrix_teams.Tokens.{
  RefreshFailure, is_permanent_refresh_error, doubled_refresh_delay, capped_refresh_delay,
  network_refresh_delay, record_failure, blocked,
}

table :
    all_below 11 (λ n. eq_ℤ (doubled_refresh_delay (n + 1)) (pos (30_000_000_000 * 2 ^ min n 10)))
    ≡ true
unfolding all_below doubled_refresh_delay eq_ℤ mul64 shl64
table = refl

-- From the eleventh failure on the shift is cut at ten.
cut_shift : (n : ℕ) → 10 < n → doubled_refresh_delay (n + 1) ≡ pos (30_000_000_000 * 2 ^ 10)
unfolding doubled_refresh_delay mul64 shl64
cut_shift n h = let e : min (n + 1 - 1) 10 ≡ 10 = omega (arith, h) in rw e (ground (arith, h))

capped :
    (n m : ℕ)
    → n ≡ suc (suc (suc (suc (suc m))))
    → min (30_000_000_000 * 2 ^ n) 900_000_000_000 ≡ 900_000_000_000
capped n m h = rw h (simp pow-suc (omega (arith, one-le-pow m)))

-- The delay that is meant: half a minute doubled for every failure before, at most 15 minutes,
-- 15 minutes at once where the token is refused, and at most two minutes where no answer came.
abbrev pub meant_refresh_delay : ℕ → Bool → Bool → ℕ
meant_refresh_delay n permanent network =
    let d = if permanent then 900_000_000_000 else min (30_000_000_000 * 2 ^ n) 900_000_000_000 in
    if network then min d 120_000_000_000 else d

capped_refresh_delay_lem :
    (n : ℕ) (permanent : Bool)
    → capped_refresh_delay (n + 1) permanent
      ≡ pos (if permanent then 900_000_000_000 else min (30_000_000_000 * 2 ^ n) 900_000_000_000)
unfolding capped_refresh_delay
capped_refresh_delay_lem n permanent = elim (dec_lt 10 n) [
  | yes h ↦ rw (cut_shift n h, capped n (n - 5) (omega (arith, h))) (ground arith)
  | no h ↦
      let e : min n 10 ≡ n = omega (arith, h) in
      let d : doubled_refresh_delay (n + 1) ≡ pos (30_000_000_000 * 2 ^ min n 10) =
        (eq_ℤ_iff _ _).0 (all_below_sound 11 _ n table (omega (arith, h))) in
      rw (d, e) (ground arith)
]

record_failure-until :
    (f : RefreshFailure) (now : Time) (err : Err)
    → (record_failure f now err).until
      ≡ now
        + meant_refresh_delay f.failures
            (is_permanent_refresh_error err)
            (is_teams_network_error (some err))
unfolding record_failure network_refresh_delay
record_failure-until f now err =
    rw (capped_refresh_delay_lem f.failures (is_permanent_refresh_error err)) (ground arith)

-- A failed refresh counts one failure more. Until the delay that is meant has passed the next ones
-- are kept off with its error, and after it with none; nothing overflows, however many failures there
-- were.
pub record_failure_lem :
    (format : Time → Text) (f : RefreshFailure) (now later : Time) (err : Err)
    → let until =
        now
        + meant_refresh_delay f.failures
            (is_permanent_refresh_error err)
            (is_teams_network_error (some err)) in
      ((record_failure f now err).failures ≡ f.failures + 1)
      × (blocked format (record_failure f now err) later ≡ (
          if ltb later until
          then some (wrap [] err (codes " (refresh suppressed until " ++ format until ++ codes ")"))
          else none))
unfolding record_failure
record_failure_lem format f now later err =
    let e = record_failure-until f now err in
    let g : (record_failure f now err).err ≡ some err = refl in
    let until =
      now
      + meant_refresh_delay f.failures (is_permanent_refresh_error err)
          (is_teams_network_error (some err)) in
    (
      refl,
      unfold blocked in
          rw (g, e)
            (elim (Bool-cases (ltb later until)) [ inl off ↦ rw off refl | inr on ↦ rw on refl ]),
    )

-- After a failed refresh the next ones are kept off exactly until the window has passed.
pub blocked-record_failure :
    (format : Time → Text) (f : RefreshFailure) (now later : Time) (err : Err)
    → (blocked format (record_failure f now err) later ≡ none) ↔ (
        now
          + meant_refresh_delay f.failures
              (is_permanent_refresh_error err)
              (is_teams_network_error (some err))
        ≤ later)
unfolding blocked
blocked-record_failure format f now later err =
    let e = record_failure-until f now err in
    let g : (record_failure f now err).err ≡ some err = unfold record_failure in refl in
    rw (g, e) (ground arith)
