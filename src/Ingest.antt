-- ===== src/Ingest.antt =====
-- What a poll of a thread works on (pkg/connector/message_poller.go, reaction_sync.go, edit_sync.go):
-- messages of Teams, the events that are queued for bridgev2, and what the poll calls.
pub mod SelfMessages
pub mod Typing
pub mod Reactions
pub mod Edits
pub mod Users
pub mod Page
use mautrix_teams.Base.{
  ℕ, ◌≡◌, ◌-◌, ◌+◌, ◌*◌, ◌/◌, Bool, true, false, not, ◌&&◌, ◌||◌, Option, none, some, List, ◌⊎◌,
  leb, if◌then◌else◌,
}
use mautrix_teams.Base.Int.{ℤ, pos, negsuc}
use mautrix_teams.Base.Text.{Text, codes, trim_space, is_empty, to_lower, has_prefix, drop_prefix}
use mautrix_teams.Base.Assoc.{Assoc}
use mautrix_teams.Errors.{Err}
use mautrix_teams.Client.{Client}
use mautrix_teams.Model.Sequence.{compare_sequence_id}
use mautrix_teams.Model.Properties.{MessageReaction, Json}
use mautrix_teams.Cursor.{CursorPos, is_greater}
use mautrix_teams.Cursor.Commit.{CursorCommit, QueueResult, queue_for_cursor}
use mautrix_teams.Poll.Time.{Time}
use mautrix_teams.Poll.Pass.Threads.{Thread}
use mautrix_teams.System.{ActivityReader}
use mautrix_teams.Receipts.{is_likely_thread_id}

-- The fields of `RemoteMessage` that a poll reads; the others are only handed on with it.
pub record RemoteMessage : Type 0 where
  pub message_id : Text
  pub client_message_id : Text
  pub sequence_id : Text
  pub sender_id : Text
  pub sender_name : Text
  pub im_display_name : Text
  pub token_display_name : Text
  pub timestamp : Time
  pub raw_content : Text
  pub properties_raw : Text
  pub reactions : List MessageReaction
  pub message_type : Text
  pub skype_edited_id : Text

-- `bridgev2.EventSender`.
pub record EventSender : Type 0 where
  pub sender : Text
  pub is_from_me : Bool
  pub sender_login : Text

-- `bridgev2.BackfillReaction`; a reaction without a time has none.
pub record BackfillReaction : Type 0 where
  pub reacted_by : EventSender
  pub emoji_id : Text
  pub emoji : Text
  pub at : Option Time

-- The remote events that a poll queues: the portal first, then who sent it where someone did, then
-- when.
pub data Event : Type 0 where
  -- with its timeout
  typing_event : Text → EventSender → Time → ℕ → Event
  -- with the target; a delete made in place has no sender
  remove_event : Text → Option EventSender → Time → Text → Event
  -- with the message, the ID of the event and the target
  edit_event : Text → EventSender → Time → RemoteMessage → Text → Text → Event
  -- with the stream order, the message, its ID and the transaction ID
  message_event : Text → EventSender → Time → ℤ → RemoteMessage → Text → Text → Event
  -- with the target and the reactions of each user
  reaction_event : Text → Time → Text → Assoc (List BackfillReaction) → Event

-- What is read of a bridged message's part: its sender on Matrix, and the edit time of its metadata,
-- if it is a message's.
pub record MessagePart : Type 0 where
  pub sender_mxid : Text
  pub edit_time : Option ℤ

-- What a poll calls. The state outside of the client holds the databases and Teams; the clock shows
-- the time of that state.
pub record World (E : Type 0) : Type 0 where
  -- `strings.EqualFold`
  pub folds_to : Text → Text → Bool
  pub login_id : Text
  pub user_mxid : Text
  pub self_teams_user_id : E → Text
  pub clock : E → Time
  pub ensure_valid_skype_token : Client E → Client E × Option Err
  pub report_token_error : Client E → Err → Client E
  -- ListMessages of the conversation, after a sequence ID
  pub list_messages : E → Text → Text → E × (Err ⊎ List RemoteMessage)
  -- Profile.Upsert, and the name that Profile.GetByTeamsUserID finds
  pub upsert_profile : E → Text → Text → Time → E
  pub get_profile_name : E → Text → Err ⊎ Option Text
  pub sync_ghost_name : E → Text → Text → E
  pub refresh_pinned_messages : Client E → Text → Client E
  pub activities : ActivityReader
  pub json : Json
  pub map_emotion_key_to_emoji : Text → Option Text
  -- bridgev2's QueueRemoteEvent
  pub queue_remote_event : Client E → Event → Client E × QueueResult
  -- Reaction.GetAllToMessage and Message.GetLastPartByID of a portal's message, GetFirstPartByID
  -- and GetAllPartsByID
  pub get_reactions : E → Text → Err ⊎ ℕ
  pub get_last_part : E → Text → Err ⊎ Bool
  pub get_first_part : E → Text → Err ⊎ Bool
  pub get_all_parts : E → Text → Err ⊎ List MessagePart
  -- ThreadState.UpdateCursor; false where it fails
  pub update_cursor : E → Text → CursorPos → E × Bool
  pub poll_horizons : Client E → Thread → Time → Client E

-- Milliseconds from the zero time to 1970.
abbrev pub unix_epoch_ms : ℕ
unix_epoch_ms = 62_135_596_800_000

-- `t.UnixMilli()` and `time.UnixMilli(ms)`.
unfoldable pub unix_milli : Time → ℤ
unix_milli t =
    let ms = t / 1_000_000 in
    if leb unix_epoch_ms ms then pos (ms - unix_epoch_ms) else negsuc (unix_epoch_ms - ms - 1)

unfoldable pub from_unix_milli : ℤ → Time
from_unix_milli (pos ms) = (unix_epoch_ms + ms) * 1_000_000
from_unix_milli (negsuc n) = (unix_epoch_ms - (n + 1)) * 1_000_000

-- Whether a message stands at or before the cursor.
unfoldable pub is_seen : Text → RemoteMessage → Bool
is_seen last_seq msg =
    not (is_empty last_seq)
    && not (is_greater (compare_sequence_id (trim_space msg.sequence_id) last_seq))

-- `isSystemMessageType` of pkg/connector/id.go.
unfoldable pub is_system_message_type : Text → Bool
is_system_message_type message_type =
    let normalized = to_lower (trim_space message_type) in
    has_prefix normalized (codes "threadactivity/") || has_prefix normalized (codes "control/")

-- `portalKey` without its receiver, which is the login's ID throughout.
unfoldable pub portal_key : Text → Text
portal_key thread_id = trim_space thread_id

-- `teamsUserIDToNetworkUserID`.
unfoldable pub network_user_id : Text → Text
network_user_id teams_user_id = trim_space teams_user_id

-- A sender that is not a user.
unfoldable pub is_no_user : Text → Bool
is_no_user sender_id = is_empty sender_id || is_likely_thread_id sender_id

-- `NormalizeTeamsReactionMessageID`.
unfoldable pub normalize_reaction_message_id : Text → Text
normalize_reaction_message_id value =
    let id = trim_space value in
    if has_prefix id (codes "msg/") then drop_prefix id (codes "msg/") else id

unfoldable pub effective_remote_message_id : RemoteMessage → Text
effective_remote_message_id msg =
    let id = normalize_reaction_message_id msg.message_id in
    if is_empty id then normalize_reaction_message_id msg.sequence_id else id

module _ {E : Type 0} (world : World E) where
  -- `queueRemoteEvent`, where nothing waits for the result.
  unfoldable pub send : Client E → Event → Client E
  send c evt = (world.queue_remote_event c evt).0

  -- `queueForCursor`: the event is tracked by its page's commit.
  unfoldable pub send_tracked : Client E → CursorCommit → Event → Client E × CursorCommit
  send_tracked c commit evt =
      let (c', result) = world.queue_remote_event c evt in (c', queue_for_cursor commit result)

  -- `c.selfTeamsUserID()`, normalized.
  unfoldable pub self_id : Client E → Text
  self_id c = trim_space (world.self_teams_user_id c.outside)

-- bridgev2's queue leaves the client's signatures, edit times and cursors alone.
pub record KeepsSigs {E : Type 0} (world : World E) : Type 0 where
  pub reaction_sigs :
      (c : Client E) (evt : Event)
      → (world.queue_remote_event c evt).0.reaction_sigs ≡ c.reaction_sigs
  pub edit_times :
      (c : Client E) (evt : Event) → (world.queue_remote_event c evt).0.edit_times ≡ c.edit_times
