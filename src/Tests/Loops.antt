-- ===== src/Tests/Loops.antt =====
-- The long-poll loop and the failed token refreshes at concrete inputs.
use mautrix_teams.Base.{
  ◌++◌, if◌then◌else◌, ltb, none, length, ◌-◌, ◌+◌, ◌≡◌, some, [], ◌∷◌, List, arith,
}
use mautrix_teams.Base.Text.{Text, codes}
use mautrix_teams.Errors.{wrap, Err, other}
use mautrix_teams.Reach.{is_teams_network_error}
use mautrix_teams.Poll.Time.{Time}
use mautrix_teams.Tokens.{blocked, is_permanent_refresh_error, record_failure, no_failure}
use mautrix_teams.Tokens.Window.{meant_refresh_delay, record_failure_lem}
use mautrix_teams.Poll.Wake.{PollWakeup}
use mautrix_teams.LongPoll.{PollEvent, wake_for}
use mautrix_teams.LongPoll.Rounds.{first_of, asked_by, wake_for_lem}

abbrev expired : Err
expired = other (codes "invalid_grant")

abbrev no_format : Time → Text
no_format t = codes "later"

record_failure_lem_example :
    let until =
      1000
      + meant_refresh_delay no_failure.failures
          (is_permanent_refresh_error expired)
          (is_teams_network_error (some expired)) in
    ((record_failure no_failure 1000 expired).failures ≡ no_failure.failures + 1)
    × (blocked no_format (record_failure no_failure 1000 expired) 2000 ≡ (
        if ltb 2000 until
        then some
            (wrap [] expired (codes " (refresh suppressed until " ++ no_format until ++ codes ")"))
        else none))
record_failure_lem_example = record_failure_lem no_format no_failure 1000 2000 expired

abbrev two_events : List PollEvent
two_events =
    record { resource_type = codes "NewMessage"; thread_id = codes "19:a" }
    ∷ record { resource_type = codes "ThreadUpdate"; thread_id = codes "19:b" }
    ∷ []

wake_for_lem_example :
    wake_for 5 [] two_events
    ≡ [] ++ first_of (256 - length {A = PollWakeup} []) (asked_by 5 two_events)
wake_for_lem_example = wake_for_lem 5 two_events [] (omega arith)
