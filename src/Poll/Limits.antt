-- ===== src/Poll/Limits.antt =====
-- pkg/connector/poll_limits.go: how hard the poll loop leans on Teams.
pub mod Bounds
use mautrix_teams.Base.{
  ℕ, ◌+◌, ◌-◌, ◌*◌, Bool, true, false, not, ◌&&◌, ◌||◌, Option, none, some, ltb, leb, ◌==◌, min,
  if◌then◌else◌,
}
use mautrix_teams.Base.Int.{ℤ, pos, ltb_ℤ, leb_ℤ, shl64, min_ℤ}
use mautrix_teams.Base.Text.{Text, codes, contains}
use mautrix_teams.Errors.{Err, as_retryable, as_messages}

abbrev pub throttle_default : ℤ
throttle_default = pos 30_000_000_000

abbrev pub throttle_max : ℤ
throttle_max = pos 600_000_000_000

abbrev pub activity_check_interval : ℤ
activity_check_interval = pos 3_000_000_000

abbrev pub activity_failure_max : ℤ
activity_failure_max = pos 60_000_000_000

abbrev pub discovery_interval_watched : ℤ
discovery_interval_watched = pos 300_000_000_000

abbrev pub thread_discovery_interval : ℤ
thread_discovery_interval = pos 30_000_000_000

throttle_pause : Option (ℕ × ℤ) → Option ℤ
throttle_pause none = none
throttle_pause (some (status, after)) =
    if not (status == 429)
    then none
    else if leb_ℤ after (pos 0)
    then some throttle_default
    else some (min_ℤ after throttle_max)

-- `teamsThrottle`; `none` is the result false.
unfoldable pub teams_throttle : Option Err → Option ℤ
unfolding throttle_pause
teams_throttle none = none
teams_throttle (some err) = throttle_pause (as_retryable err)

gone_answer : Option (ℕ × Text) → Bool
gone_answer none = false
gone_answer (some (status, snippet)) =
    if not (status == 404)
    then false
    else contains snippet (codes "ThreadNotFound") || contains snippet (codes "SoftDeleted")

unfoldable pub is_thread_gone : Option Err → Bool
unfolding gone_answer
is_thread_gone none = false
is_thread_gone (some err) = gone_answer (as_messages err)

-- The count of failures starts at 0 and goes up by one.
unfoldable pub activity_retry_delay : ℕ → ℤ
unfolding shl64
activity_retry_delay failures =
    if failures == 0
    then activity_check_interval
    else min_ℤ (shl64 activity_check_interval (min failures 6)) activity_failure_max

unfoldable pub discovery_interval : Bool → Bool → ℤ
discovery_interval activity_up long_poll_up =
    if activity_up || long_poll_up then discovery_interval_watched else thread_discovery_interval
