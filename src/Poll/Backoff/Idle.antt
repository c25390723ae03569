-- ===== src/Poll/Backoff/Idle.antt =====
-- Polls of a thread that finds nothing new, and the range of every delay.
use mautrix_teams.Base.{
  ℕ, zero, suc, ◌+◌, ◌*◌, ◌^◌, ◌≤◌, ◌<◌, ◌≡◌, refl, ap, ◌∙◌, Option, none, some, arith, min,
}
use mautrix_teams.Base.Int.{ℤ, pos, add64-pos, ◌<ℤ◌}
use mautrix_teams.Base.Text.{Text}
use mautrix_teams.Errors.{Err, as_retryable, as_messages}
use mautrix_teams.Poll.Backoff.{
  PollBackoff, on_success, on_idle, on_failure, apply_error, apply_found, apply_messages_error,
  apply_poll_backoff,
}
use mautrix_teams.Poll.Limits.Bounds.{one-le-pow}
use mautrix_teams.Poll.Backoff.Bounds.{meant_delay, delay-on_failure}

-- `n` polls in a row that succeed and bring nothing.
unfoldable pub idle_polls : ℕ → PollBackoff → PollBackoff
idle_polls zero b = b
idle_polls (suc n) b = idle_polls n (apply_poll_backoff b 0 none).0

idle_step :
    (b : PollBackoff) (d c : ℕ)
    → b.delay ≡ pos d
    → b.idle_cap ≡ pos c
    → 0 < d
    → 0 < c
    → d < 2 ^ 62
    → ((on_idle b).delay ≡ pos (min (d + 2_000_000_000) c))
      × ((on_idle b).idle_cap ≡ pos c)
      × ((on_idle b).failures ≡ 0)
unfolding on_idle
idle_step b d c hd hc pd pc lt = ground (arith, add64-pos d 2_000_000_000)

-- From a delay of `d`, `n` idle polls in a row lengthen it by two seconds each, up to the idle cap
-- that is set, and leave no failure counted.
pub idle_polls_lem :
    (n : ℕ) (b : PollBackoff) (d c : ℕ)
    → b.delay ≡ pos d
    → b.idle_cap ≡ pos c
    → 0 < d
    → d ≤ c
    → c < 2 ^ 62
    → ((idle_polls n b).delay ≡ pos (min (d + n * 2_000_000_000) c))
unfolding idle_polls apply_poll_backoff
idle_polls_lem zero b d c hd hc pd dc lt = rw hd (ground arith)
idle_polls_lem (suc n) b d c hd hc pd dc lt =
    let (hd', hc', _) = idle_step b d c hd hc pd (omega arith) (omega arith) in
    idle_polls_lem n (on_idle b) (min (d + 2_000_000_000) c) c hd' hc' (omega arith) (omega arith)
      lt
    ∙ ap pos (omega arith)

-- What every stored delay and cap of a thread satisfies.
pub record IsPaced (b : PollBackoff) : Type 0 where
  pub positive : pos 0 <ℤ b.delay
  pub bounded : b.delay <ℤ pos (2 ^ 62)
  pub cap_bounded : b.idle_cap <ℤ pos (2 ^ 62)

-- A Retry-After of the error is in the same range.
abbrev pub RetryAfterInRange : Err → Type 0
RetryAfterInRange err = (s : ℕ) (d : ℤ) → as_retryable err ≡ some (s, d) → d <ℤ pos (2 ^ 62)

meant_pos : (n : ℕ) → 0 < meant_delay n
meant_pos n = omega (arith, one-le-pow n)

failure-IsPaced : (b : PollBackoff) → b.failures ≤ 32 → IsPaced b → IsPaced (on_failure b)
failure-IsPaced b h p = record {
  positive = rw ((delay-on_failure b h).1) (omega (arith, meant_pos b.failures));
  bounded = rw ((delay-on_failure b h).1) (omega arith);
  cap_bounded = unfold on_failure in p.cap_bounded;
}

idle-IsPaced : (b : PollBackoff) → IsPaced b → IsPaced (on_idle b)
unfolding on_idle
idle-IsPaced b p = ground arith

success-IsPaced : (b : PollBackoff) → IsPaced b → IsPaced (on_success b)
unfolding on_success
success-IsPaced b p = ground arith

messages-IsPaced :
    (b : PollBackoff) (o : Option (ℕ × Text))
    → b.failures ≤ 32
    → IsPaced b
    → IsPaced (apply_messages_error b o).0
messages-IsPaced b none h p = unfold apply_messages_error in failure-IsPaced b h p
messages-IsPaced b (some (status, snippet)) h p =
    unfold apply_messages_error in ground (arith, failure-IsPaced b h p)

found-IsPaced :
    (b : PollBackoff) (o : Option (ℕ × ℤ)) (m : Option (ℕ × Text))
    → b.failures ≤ 32
    → ((s : ℕ) (d : ℤ) → o ≡ some (s, d) → d <ℤ pos (2 ^ 62))
    → IsPaced b
    → IsPaced (apply_found b o m).0
found-IsPaced b none m h r p = unfold apply_found in messages-IsPaced b m h p
found-IsPaced b (some (s, d)) m h r p =
    unfold apply_found in ground (arith, r s d refl, failure-IsPaced b h p)

-- A poll's outcome leaves every delay positive and below 2 ^ 62 nanoseconds, whatever the error, as
-- long as fewer than 33 failures are counted and a Retry-After is in that range.
pub apply_poll_backoff-IsPaced :
    (b : PollBackoff) (ingested : ℕ) (err : Err)
    → b.failures ≤ 32
    → RetryAfterInRange err
    → IsPaced b
    → IsPaced (apply_poll_backoff b ingested none).0
      × IsPaced (apply_poll_backoff b ingested (some err)).0
unfolding apply_poll_backoff
apply_poll_backoff-IsPaced b ingested err h r p = (
  ground (arith, success-IsPaced b p, idle-IsPaced b p),
  unfold apply_error in found-IsPaced b (as_retryable err) (as_messages err) h r p,
)
