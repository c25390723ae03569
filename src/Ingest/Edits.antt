-- ===== src/Ingest/Edits.antt =====
-- pkg/connector/edit_sync.go: messages that Teams edits or deletes in place.
pub mod Again
use mautrix_teams.Base.{
  Bool, true, false, not, ◌&&◌, ◌||◌, Option, none, some, List, [], ◌∷◌, ◌++◌, ◌⊎◌, inl, inr,
  if◌then◌else◌,
}
use mautrix_teams.Base.Int.{ℤ, pos, leb_ℤ}
use mautrix_teams.Base.Text.{Text, codes, trim_space, is_empty, ◌≗◌}
use mautrix_teams.Base.Assoc.{lookup, insert, delete}
use mautrix_teams.Errors.{Err}
use mautrix_teams.Client.{Client}
use mautrix_teams.Model.Properties.{is_deleted, extract_edit_time}
use mautrix_teams.Poll.Time.{Time}
use mautrix_teams.Poll.Pass.Threads.{Thread}
use mautrix_teams.Ingest.{
  RemoteMessage, MessagePart, EventSender, World, remove_event, edit_event, from_unix_milli,
  is_no_user, is_system_message_type, network_user_id, portal_key, send,
}
use mautrix_teams.Ingest.Reactions.{is_changed, format_int}

module _ {E : Type 0} where
  -- `messageStateChanged`, at the time of the clock, and `forgetMessageState`.
  unfoldable pub message_state_changed : Client E → Text → Text → Time → Bool × Client E
  message_state_changed c message_id sig now = (
    is_changed sig (lookup message_id c.edit_times),
    record c { edit_times = insert message_id (record { sig = sig; at = now }) c.edit_times },
  )

  unfoldable pub forget_message_state : Client E → Text → Client E
  forget_message_state c message_id = record c { edit_times = delete message_id c.edit_times }

-- Whether a part of a message is at an edit already.
unfoldable pub is_edited : ℤ → List MessagePart → Bool
is_edited edit_time [] = false
is_edited edit_time (part ∷ rest) =
    let later = is_edited edit_time rest in is_bridged_edit edit_time part.edit_time || later
  where
    is_bridged_edit : ℤ → Option ℤ → Bool
    is_bridged_edit edit_time none = false
    is_bridged_edit edit_time (some bridged) = leb_ℤ edit_time bridged

module _ {E : Type 0} (world : World E) where
  on_deleted_part : Client E → Thread → Text → Err ⊎ Bool → Client E
  on_deleted_part c th message_id (inl err) = forget_message_state c message_id
  on_deleted_part c th message_id (inr false) = c
  on_deleted_part c th message_id (inr true) =
      send world c (remove_event (portal_key th.thread_id) none (world.clock c.outside) message_id)

  delete_changed : Bool × Client E → Thread → Text → Client E
  unfolding on_deleted_part
  delete_changed (false, c) th message_id = c
  delete_changed (true, c) th message_id =
      on_deleted_part c th message_id (world.get_first_part c.outside message_id)

  -- `queueInPlaceDelete`.
  unfoldable pub queue_in_place_delete : Client E → Thread → Text → Client E
  unfolding delete_changed
  queue_in_place_delete c th message_id =
      if is_empty message_id
      then c
      else delete_changed
          (message_state_changed c message_id (codes "deleted") (world.clock c.outside)) th
          message_id

  edit_sender : Text → Text → MessagePart → EventSender
  edit_sender sender_id own part =
      let mine = not (is_empty own) && (sender_id ≗ own) && (part.sender_mxid ≗ world.user_mxid) in
      record {
        sender = network_user_id sender_id;
        is_from_me = mine;
        sender_login = if mine then world.login_id else [];
      }

  on_edited_parts :
      Client E → Thread → RemoteMessage → Text → Text → ℤ → Err ⊎ List MessagePart → Client E
  unfolding edit_sender
  on_edited_parts c th msg message_id own edit_time (inl err) = forget_message_state c message_id
  on_edited_parts c th msg message_id own edit_time (inr []) = c
  on_edited_parts c th msg message_id own edit_time (inr (part ∷ rest)) =
      if is_edited edit_time (part ∷ rest)
      then c
      else send world c (
          edit_event (portal_key th.thread_id) (edit_sender (trim_space msg.sender_id) own part)
            (from_unix_milli edit_time) msg (message_id ++ codes ":edit:" ++ format_int edit_time)
            message_id)

  edit_changed : Bool × Client E → Thread → RemoteMessage → Text → Text → ℤ → Client E
  unfolding on_edited_parts
  edit_changed (false, c) th msg message_id own edit_time = c
  edit_changed (true, c) th msg message_id own edit_time =
      if is_no_user (trim_space msg.sender_id) || is_system_message_type msg.message_type
      then c
      else on_edited_parts c th msg message_id own edit_time
          (world.get_all_parts c.outside message_id)

  -- `queueInPlaceEdit`.
  unfoldable pub queue_in_place_edit : Client E → Thread → RemoteMessage → Text → Text → Client E
  unfolding edit_changed
  queue_in_place_edit c th msg message_id own =
      let edit_time = extract_edit_time world.json msg.properties_raw in
      if is_empty message_id || leb_ℤ edit_time (pos 0) || is_deleted world.json msg.properties_raw
      then c
      else edit_changed
          (message_state_changed c message_id (format_int edit_time) (world.clock c.outside)) th msg
          message_id own edit_time

  -- `queueInPlaceChange`.
  unfoldable pub queue_in_place_change : Client E → Thread → RemoteMessage → Text → Text → Client E
  unfolding queue_in_place_delete queue_in_place_edit
  queue_in_place_change c th msg message_id own =
      if is_deleted world.json msg.properties_raw
      then queue_in_place_delete c th message_id
      else queue_in_place_edit c th msg message_id own
