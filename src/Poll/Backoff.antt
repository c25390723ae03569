-- ===== src/Poll/Backoff.antt =====
-- pkg/connector/poll_backoff.go: the backoff of one polled thread.
pub mod Bounds
pub mod Idle
use mautrix_teams.Base.{
  ℕ, suc, ◌+◌, ◌-◌, ◌*◌, Bool, true, false, not, ◌&&◌, ◌||◌, Option, none, some, ltb, leb, ◌==◌,
  if◌then◌else◌,
}
use mautrix_teams.Base.Int.{ℤ, pos, negsuc, ltb_ℤ, leb_ℤ, add64, mul64, shl64}
use mautrix_teams.Base.Text.{Text}
use mautrix_teams.Errors.{Err, as_retryable, as_messages}
use mautrix_teams.Poll.Time.{second}

abbrev pub poll_base_delay : ℤ
poll_base_delay = pos 2_000_000_000

abbrev pub poll_idle_cap : ℤ
poll_idle_cap = pos 30_000_000_000

abbrev pub poll_failure_cap : ℤ
poll_failure_cap = pos 60_000_000_000

-- `Failures` counts up by one from 0, so it is left unbounded.
pub record PollBackoff : Type 0 where
  pub failures : ℕ
  pub delay : ℤ
  pub idle_cap : ℤ

unfoldable pub ensure_base_delay : PollBackoff → PollBackoff
ensure_base_delay b = if leb_ℤ b.delay (pos 0) then record b { delay = poll_base_delay } else b

unfoldable pub on_success : PollBackoff → PollBackoff
on_success b = record b { failures = 0; delay = poll_base_delay }

unfoldable pub on_idle : PollBackoff → PollBackoff
unfolding ensure_base_delay add64
on_idle b =
    let current = (ensure_base_delay b).delay in
    let next = add64 current poll_base_delay in
    let idle_cap = if ltb_ℤ (pos 0) b.idle_cap then b.idle_cap else poll_idle_cap in
    record b { failures = 0; delay = if ltb_ℤ idle_cap next then idle_cap else next }

-- `pollBaseDelay * time.Duration(1<<(b.Failures-1))`, in int64.
unfoldable pub doubled_delay : ℕ → ℤ
unfolding mul64 shl64
doubled_delay failures =
    if ltb 1 failures then mul64 poll_base_delay (shl64 (pos 1) (failures - 1)) else poll_base_delay

unfoldable pub on_failure : PollBackoff → PollBackoff
unfolding doubled_delay
on_failure b =
    let delay = doubled_delay (b.failures + 1) in
    record b {
      failures = b.failures + 1;
      delay = if ltb_ℤ poll_failure_cap delay then poll_failure_cap else delay;
    }

unfoldable pub on_retry_after : PollBackoff → ℤ → PollBackoff
unfolding on_failure
on_retry_after b d =
    if leb_ℤ d (pos 0) then on_failure b else record b { failures = b.failures + 1; delay = d }

pub data Reason : Type 0 where
  success idle retry_after failure client_4xx : Reason

unfoldable pub is_client_4xx_non_429 : ℕ → Bool
is_client_4xx_non_429 status = leb 400 status && ltb status 500 && not (status == 429)

-- The part of `ApplyPollBackoff` that reads the error, once it is no RetryableError.
unfoldable pub apply_messages_error : PollBackoff → Option (ℕ × Text) → PollBackoff × Reason
unfolding on_failure is_client_4xx_non_429
apply_messages_error b none = (on_failure b, failure)
apply_messages_error b (some (status, snippet)) =
    if is_client_4xx_non_429 status
    then (record b { failures = 0; delay = poll_idle_cap }, client_4xx)
    else (on_failure b, failure)

-- The part that reads what the two `errors.As` of `ApplyPollBackoff` find.
unfoldable pub apply_found : PollBackoff → Option (ℕ × ℤ) → Option (ℕ × Text) → PollBackoff × Reason
unfolding on_failure on_retry_after apply_messages_error
apply_found b (some (status, after)) messages_error =
    if status == 429 && ltb_ℤ (pos 0) after
    then (on_retry_after b after, retry_after)
    else (on_failure b, failure)
apply_found b none messages_error = apply_messages_error b messages_error

unfoldable pub apply_error : PollBackoff → Err → PollBackoff × Reason
unfolding apply_found
apply_error b err = apply_found b (as_retryable err) (as_messages err)

-- `ApplyPollBackoff` for a backoff that is not nil. It returns `b.Delay` beside the reason.
unfoldable pub apply_poll_backoff : PollBackoff → ℕ → Option Err → PollBackoff × Reason
unfolding on_success on_idle apply_error
apply_poll_backoff b ingested none =
    if ltb 0 ingested then (on_success b, success) else (on_idle b, idle)
apply_poll_backoff b ingested (some err) = apply_error b err
