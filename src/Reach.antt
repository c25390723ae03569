-- ===== src/Reach.antt =====
-- pkg/connector/reachability.go: whether requests to Teams are getting through.
pub mod Trip
use mautrix_teams.Base.{
  ℕ, ◌+◌, Bool, true, false, ◌||◌, not, Option, none, some, ◌++◌, max, ltb, if◌then◌else◌,
}
use mautrix_teams.Base.Text.{Text, codes}
use mautrix_teams.Errors.{Err, is_canceled, is_deadline, as_net, as_url, error_text}

abbrev pub teams_reach_trip : ℕ
teams_reach_trip = 3

-- A bridge state to report: its event, and the message of a disconnect.
pub data BridgeState : Type 0 where
  connected : BridgeState
  transient_disconnect : Text → BridgeState

pub record TeamsReach : Type 0 where
  pub failures : ℕ
  pub down : Bool

has_value : Option Bool → Bool
has_value none = false
has_value (some b) = true

unfoldable pub is_teams_network_error : Option Err → Bool
unfolding has_value
is_teams_network_error none = false
is_teams_network_error (some err) = is_deadline err || has_value (as_net err)

text_of_cause : Err → Option Err → Text
text_of_cause err none = error_text err
text_of_cause err (some cause) = error_text cause

unfoldable pub short_network_error : Err → Text
unfolding text_of_cause
short_network_error err = text_of_cause err (as_url err)

unfoldable pub unreachable_state : Err → BridgeState
unreachable_state err =
    transient_disconnect (codes "Teams is not answering: " ++ short_network_error err)

-- The part of `note` behind the test for a cancelled request.
note_failure : TeamsReach → Err → TeamsReach × Option BridgeState
note_failure r err =
    let failures = r.failures + 1 in
    if ltb failures teams_reach_trip || r.down
    then (record r { failures = failures }, none)
    else (record { failures = failures; down = true }, some (unreachable_state err))

note_answer : TeamsReach → TeamsReach × Option BridgeState
note_answer r =
    if not r.down
    then (record r { failures = 0 }, none)
    else (record { failures = 0; down = false }, some connected)

unfoldable pub note : TeamsReach → Option Err → TeamsReach × Option BridgeState
unfolding note_failure note_answer
note r none = note_answer r
note r (some err) =
    if is_canceled err
    then (r, none)
    else if is_teams_network_error (some err)
    then note_failure r err
    else note_answer r

unfoldable pub mark_down : TeamsReach → Err → TeamsReach × Option BridgeState
mark_down r err =
    let failures = max r.failures teams_reach_trip in
    if r.down
    then (record r { failures = failures }, none)
    else (record { failures = failures; down = true }, some (unreachable_state err))
