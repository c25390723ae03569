-- ===== src/Tokens.antt =====
-- pkg/connector/sync_loop.go: `refreshFailure`, what the client remembers of failed token refreshes.
-- `format` writes a time as RFC 3339.
pub mod Window
pub mod Session
pub mod Ensure
use mautrix_teams.Base.{
  ℕ, suc, ◌+◌, ◌-◌, Bool, true, false, not, ◌&&◌, ◌||◌, Option, none, some, ◌++◌, [], min, ltb,
  if◌then◌else◌,
}
use mautrix_teams.Base.Int.{ℤ, pos, ltb_ℤ, mul64, shl64}
use mautrix_teams.Base.Text.{Text, codes, contains, to_lower}
use mautrix_teams.Errors.{Err, wrap, error_text}
use mautrix_teams.Reach.{is_teams_network_error}
use mautrix_teams.Poll.Time.{Time, add, before}

abbrev pub refresh_backoff_base : ℤ
refresh_backoff_base = pos 30_000_000_000

abbrev pub refresh_backoff_max : ℤ
refresh_backoff_max = pos 900_000_000_000

abbrev pub refresh_network_backoff_max : ℤ
refresh_network_backoff_max = pos 120_000_000_000

-- `err` is none for a nil error.
pub record RefreshFailure : Type 0 where
  pub failures : ℕ
  pub until : Time
  pub err : Option Err

-- `isPermanentRefreshError` of an error that is not nil.
unfoldable pub is_permanent_refresh_error : Err → Bool
is_permanent_refresh_error err =
    let msg = to_lower (error_text err) in
    contains msg (codes "invalid_grant") || contains msg (codes "interaction_required")

-- The delay of `record`, by the failures that are counted with this one.
unfoldable pub doubled_refresh_delay : ℕ → ℤ
doubled_refresh_delay failures =
    if ltb 1 failures
    then mul64 refresh_backoff_base (shl64 (pos 1) (min (failures - 1) 10))
    else refresh_backoff_base

unfoldable pub capped_refresh_delay : ℕ → Bool → ℤ
unfolding doubled_refresh_delay
capped_refresh_delay failures permanent =
    if ltb_ℤ refresh_backoff_max (doubled_refresh_delay failures) || permanent
    then refresh_backoff_max
    else doubled_refresh_delay failures

unfoldable pub network_refresh_delay : ℤ → Bool → ℤ
network_refresh_delay delay network =
    if network && ltb_ℤ refresh_network_backoff_max delay
    then refresh_network_backoff_max
    else delay

-- `record`.
unfoldable pub record_failure : RefreshFailure → Time → Err → RefreshFailure
unfolding capped_refresh_delay network_refresh_delay
record_failure f now err =
    let delay =
      network_refresh_delay (capped_refresh_delay (f.failures + 1) (is_permanent_refresh_error err))
        (is_teams_network_error (some err)) in
    record { failures = f.failures + 1; until = add now delay; err = some err }

-- `reset`.
abbrev pub no_failure : RefreshFailure
no_failure = record { failures = 0; until = 0; err = none }

module _ (format : Time → Text) where
  suppressed : Time → Time → Option Err → Option Err
  suppressed now until none = none
  suppressed now until (some err) =
      if not (before now until)
      then none
      else some (wrap [] err (codes " (refresh suppressed until " ++ format until ++ codes ")"))

  -- `blocked`.
  unfoldable pub blocked : RefreshFailure → Time → Option Err
  unfolding suppressed
  blocked f now = suppressed now f.until f.err
