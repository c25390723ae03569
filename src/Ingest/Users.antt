-- ===== src/Ingest/Users.antt =====
-- `resolveSenderName`, `queueUserMessage` and `queueNonUserMessage` of
-- pkg/connector/message_poller.go, `markUnread` of handlematrix.go, `trackKnownUser` of presence.go
-- and `systemMessageEvent` of system_messages.go. The log of the latency is left out.
use mautrix_teams.Base.{
  Bool, true, false, not, ◌&&◌, ◌||◌, Option, none, some, List, [], ◌∷◌, ◌⊎◌, inl, inr,
  if◌then◌else◌,
}
use mautrix_teams.Base.Text.{Text, codes, trim_space, is_empty, equal_fold, contains, ◌≗◌}
use mautrix_teams.Base.Assoc.{insert}
use mautrix_teams.Errors.{Err}
use mautrix_teams.Client.{Client}
use mautrix_teams.Cursor.Commit.{CursorCommit}
use mautrix_teams.Poll.Time.{Time}
use mautrix_teams.Poll.Pass.Threads.{Thread}
use mautrix_teams.Model.Properties.{MessageReaction}
use mautrix_teams.Ingest.{
  RemoteMessage, Event, EventSender, World, remove_event, edit_event, message_event, unix_milli,
  network_user_id, portal_key, send_tracked,
}
use mautrix_teams.System.{SystemActivity, parse_system_message}
use mautrix_teams.Ingest.SelfMessages.{consume_self_message}
use mautrix_teams.Ingest.Reactions.{mark_reaction_seen, queue_reaction_sync_for_message}

module _ {E : Type 0} where
  unfoldable pub mark_unread : Client E → Text → Client E
  mark_unread c thread_id = record c { unread_seen = insert thread_id true c.unread_seen }

  unfoldable pub track_known_user : Client E → Text → Client E
  track_known_user c user_id =
      if is_empty user_id then c else record c { known_users = insert user_id true c.known_users }

-- The name that a message carries for its sender.
unfoldable pub carried_name : RemoteMessage → Text
carried_name msg =
    let name = trim_space msg.im_display_name in
    if is_empty name then trim_space msg.token_display_name else name

-- The name for a message that carries none.
unfoldable pub known_name : Text → Err ⊎ Option Text → Text
known_name sender_id (inl err) = sender_id
known_name sender_id (inr none) = sender_id
known_name sender_id (inr (some name)) =
    if is_empty (trim_space name) then sender_id else trim_space name

abbrev pub pinned_items_update_type : Text
pinned_items_update_type = codes "ThreadActivity/PinnedItemsUpdate"

is_worth_a_line : Option SystemActivity → Bool
is_worth_a_line none = false
is_worth_a_line (some a) = true

-- What becomes of a page's message: the client, the page's commit, and whether it counts as ingested.
pub record Queued (E : Type 0) : Type 0 where
  pub client : Client E
  pub commit : CursorCommit
  pub is_new : Bool

module _ {E : Type 0} (world : World E) where
  unfoldable pub resolve_sender_name : Client E → Text → RemoteMessage → Time → Text × Client E
  unfolding carried_name known_name track_known_user
  resolve_sender_name c sender_id msg now =
      let name = carried_name msg in
      let saved = world.upsert_profile c.outside sender_id name now in
      if is_empty name
      then (
        known_name sender_id (world.get_profile_name c.outside sender_id),
        track_known_user c sender_id,
      )
      else (
        name,
        track_known_user (record c { outside = world.sync_ghost_name saved sender_id name })
            sender_id,
      )

  -- `systemMessageEvent`, from the check on.
  unfoldable pub system_message_event : Thread → RemoteMessage → Event
  system_message_event th msg =
      message_event (portal_key th.thread_id)
        (record { sender = codes "teams:system"; is_from_me = false; sender_login = [] })
        msg.timestamp (unix_milli msg.timestamp) msg (trim_space msg.message_id) []

  -- `queueForCursor`, and whether the event stands for a new message.
  queued_event : Client E → CursorCommit → Event → Bool → Queued E
  queued_event c commit evt is_new =
      let (c', commit') = send_tracked world c commit evt in
      record { client = c'; commit = commit'; is_new = is_new }

  unfoldable pub queue_non_user_message :
      Client E → CursorCommit → Thread → RemoteMessage → Queued E
  unfolding system_message_event queued_event is_worth_a_line
  queue_non_user_message c commit th msg =
      let pinned = equal_fold (trim_space msg.message_type) pinned_items_update_type in
      let c' = if pinned then world.refresh_pinned_messages c th.thread_id else c in
      if is_worth_a_line (parse_system_message world.activities msg.message_type msg.raw_content)
      then queued_event c' commit (system_message_event th msg) true
      else record { client = c'; commit = commit; is_new = false }

  unfoldable pub user_sender : Text → Text → EventSender
  user_sender sender_id own =
      let mine = not (is_empty sender_id) && not (is_empty own) && (sender_id ≗ own) in
      record {
        sender = network_user_id sender_id;
        is_from_me = mine;
        sender_login = if mine then world.login_id else [];
      }

  note_reactions : Client E → Text → List MessageReaction → Client E
  note_reactions c id [] = c
  note_reactions c id (r ∷ rest) =
      if is_empty id then c else (mark_reaction_seen c id true (world.clock c.outside)).1

  -- `isSelfEcho`: an own message whose client message ID is that of a send.
  self_echo : Client E → Bool → Text → Bool × Client E
  self_echo c false client_message_id = (false, c)
  self_echo c true client_message_id =
      consume_self_message c client_message_id (world.clock c.outside)

  -- A delete, an edit, or a new message, once the sender and the IDs are known.
  with_sync : Queued E → Thread → RemoteMessage → Text → Queued E
  with_sync q th msg id = record q {
    client = queue_reaction_sync_for_message world q.client th msg id;
  }

  with_unread : Queued E → Thread → Bool → Queued E
  with_unread q th is_own =
      if not is_own && not (is_empty (trim_space th.thread_id))
      then record q { client = mark_unread q.client th.thread_id }
      else q

  unfoldable pub queue_user_event :
      Client E → CursorCommit → Thread → RemoteMessage → EventSender → Bool → Text → Queued E
  unfolding queued_event with_sync with_unread
  queue_user_event c commit th msg es is_self_echo id =
      let portal = portal_key th.thread_id in
      if contains msg.message_type (codes "MessageDelete")
      then queued_event c commit (remove_event portal (some es) msg.timestamp id) false
      else if not (is_empty msg.skype_edited_id)
      then with_sync
          (queued_event c commit
            (edit_event portal es msg.timestamp msg id (trim_space msg.skype_edited_id)) false)
          th msg id
      else with_unread
          (with_sync
            (queued_event c commit
              (message_event portal es msg.timestamp (unix_milli msg.timestamp) msg id
                (trim_space msg.client_message_id))
              true)
            th msg id)
          th (is_self_echo || es.is_from_me)

  -- `queueUserMessage`.
  unfoldable pub queue_user_message :
      Client E → CursorCommit → Thread → RemoteMessage → Text → Text → Text → Queued E
  unfolding note_reactions self_echo
  queue_user_message c commit th msg sender_id own effective_id =
      let es = user_sender sender_id own in
      let (is_self_echo, c') =
        self_echo (note_reactions c effective_id msg.reactions) es.is_from_me
          msg.client_message_id in
      queue_user_event c' commit th msg es is_self_echo
        (if is_empty effective_id then trim_space msg.message_id else effective_id)
