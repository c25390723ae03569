-- ===== src/Poll/Activity.antt =====
-- `checkActivity` of pkg/connector/poll_wake.go: the recent-conversations watch.
use mautrix_teams.Base.{
  Bool, true, false, not, ◌&&◌, ◌||◌, Option, none, some, List, [], ◌∷◌, if◌then◌else◌,
}
use mautrix_teams.Base.Text.{Text, codes, is_empty, ◌≗◌}
use mautrix_teams.Base.Assoc.{Assoc, lookup, insert}
use mautrix_teams.Errors.{Err}
use mautrix_teams.Client.{Client, note_teams_result}
use mautrix_teams.Poll.Time.{Time}
use mautrix_teams.Poll.Wake.{PollState, PollWakeup, apply_wakeup, is_non_pollable_system_stream}

-- One conversation of the recent-conversations list, with the time at which its turn comes.
pub record RecentConversation : Type 0 where
  pub id : Text
  pub newest : Text
  pub seen_at : Time

-- What the loop of `checkActivity` carries.
pub record Activity (E : Type 0) : Type 0 where
  pub client : Client E
  pub states : Assoc PollState
  pub last_seen : Assoc Text
  pub watched : Bool
  pub unknown : Bool

-- `prev, ok := lastSeen[conv.ID]; prev != newest && (ok || primed)`.
unfoldable pub shows_change : Bool → Text → Option Text → Bool
shows_change primed newest none = not (is_empty newest) && primed
shows_change primed newest (some prev) = not (prev ≗ newest)

abbrev pub is_primed : Assoc Text → Bool
is_primed [] = false
is_primed (entry ∷ rest) = true

-- The wakeup for a conversation of the list.
abbrev pub watch_wakeup : RecentConversation → PollWakeup
watch_wakeup conv = record {
  thread_id = conv.id;
  receipts = false;
  at = conv.seen_at;
  source = codes "watch";
}

module _ {E : Type 0} where
  -- A conversation whose newest message changed.
  unfoldable pub wake_conversation : RecentConversation → Activity E → Activity E
  wake_conversation conv a =
      let w = watch_wakeup conv in
      let (c, states, matched) = apply_wakeup w a.client a.states in
      record a {
        client = c;
        states = states;
        unknown = a.unknown || (not matched && not (is_non_pollable_system_stream conv.id));
      }

  -- One turn of the loop.
  unfoldable pub check_conversation : Bool → Activity E → RecentConversation → Activity E
  unfolding wake_conversation shows_change
  check_conversation primed a conv =
      if is_empty conv.id || is_empty conv.newest
      then a
      else (let change = shows_change primed conv.newest (lookup conv.id a.last_seen) in
          let b = if change then wake_conversation conv a else a in
          record b { last_seen = insert conv.id conv.newest b.last_seen; watched = true })

  unfoldable pub check_conversations : Bool → Activity E → List RecentConversation → Activity E
  check_conversations primed a [] = a
  check_conversations primed a (conv ∷ rest) =
      check_conversations primed (check_conversation primed a conv) rest

  -- `checkActivity` where ListRecentConversations fails.
  unfoldable pub check_activity_failed : Client E → Err → Client E
  check_activity_failed c err = record (note_teams_result c (some err)) { activity_up = false }

  -- `checkActivity` on the answer of ListRecentConversations; `activityUp` becomes `watched`.
  unfoldable pub check_activity :
      Client E → Assoc PollState → Assoc Text → List RecentConversation → Activity E
  unfolding check_conversations
  check_activity c states last_seen convs =
      let start : Activity E = record {
        client = note_teams_result c none;
        states = states;
        last_seen = last_seen;
        watched = false;
        unknown = false;
      } in
      let a = check_conversations (is_primed last_seen) start convs in
      record a { client = record (a.client) { activity_up = a.watched } }
