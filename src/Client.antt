-- ===== src/Client.antt =====
-- The fields of `TeamsClient` (pkg/connector/client.go) that the modelled operations read and write.
-- A mutex of the source guards each group; an operation here is one critical section, or a
-- sequence of them on the one goroutine that runs it. A nil map reads as an empty one.
use mautrix_teams.Base.{◌≡◌, refl, ◌≡◌, Bool, Option, none, some, List, [], ◌∷◌, ◌++◌}
use mautrix_teams.Base.Text.{Text}
use mautrix_teams.Base.Assoc.{Assoc}
use mautrix_teams.Errors.{Err}
use mautrix_teams.Reach.{TeamsReach, BridgeState, note}
use mautrix_teams.Cursor.{ThreadCursors}
use mautrix_teams.Poll.Time.{Time}

-- A signature with the time it was last checked.
pub record StampedSig : Type 0 where
  pub sig : Text
  pub at : Time

-- `outside` is what the client's calls can change and the client does not hold: the databases, the
-- homeserver and Teams. `sent_states` are the bridge states sent so far.
pub record Client (E : Type 0) : Type 0 where
  pub reach : TeamsReach
  pub activity_up : Bool
  pub long_poll_up : Bool
  pub thread_active : Assoc Time
  pub receipt_poll : Assoc Time
  pub cursors : ThreadCursors
  pub reaction_sigs : Assoc StampedSig
  pub edit_times : Assoc StampedSig
  pub chat_info_sigs : Assoc StampedSig
  pub reaction_seen : Assoc Time
  pub typing_seen : Assoc Time
  pub name_lookup_miss : Assoc Time
  pub self_messages : Assoc Time
  pub unread_seen : Assoc Bool
  -- a set: every value is true
  pub known_users : Assoc Bool
  pub sent_states : List BridgeState
  pub outside : E

module _ {E : Type 0} where
  send_state : Option BridgeState → Client E → Client E
  send_state none c = c
  send_state (some s) c = record c { sent_states = c.sent_states ++ s ∷ [] }

  -- `noteTeamsResult`.
  unfoldable pub note_teams_result : Client E → Option Err → Client E
  unfolding send_state
  note_teams_result c err =
      let (r, state) = note c.reach err in send_state state (record c { reach = r })

  send_state-keeps :
      (s : Option BridgeState) (c : Client E)
      → ((send_state s c).self_messages ≡ c.self_messages) × ((send_state s c).outside ≡ c.outside)
  unfolding send_state
  send_state-keeps none c = (refl, refl)
  send_state-keeps (some s) c = (refl, refl)

  -- Noting a result leaves the own sends and what is outside alone.
  pub note_teams_result-keeps :
      (c : Client E) (err : Option Err)
      → ((note_teams_result c err).self_messages ≡ c.self_messages)
        × ((note_teams_result c err).outside ≡ c.outside)
  unfolding note_teams_result
  note_teams_result-keeps c err = send_state-keeps (note c.reach err).1 _
