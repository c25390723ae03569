-- ===== src/Ingest/Page.antt =====
-- `pollThread`, `fetchThreadPage` and `advancePageCursor` of pkg/connector/message_poller.go.
pub mod Seen
pub mod Again
pub mod Carried
use mautrix_teams.Base.{
  ℕ, suc, Bool, true, false, not, ◌&&◌, ◌||◌, Option, none, some, List, [], ◌∷◌, ◌⊎◌, inl, inr, ltb,
  if◌then◌else◌,
}
use mautrix_teams.Base.Int.{ℤ, pos, ltb_ℤ}
use mautrix_teams.Base.Text.{Text, codes, trim_space, is_empty, equal_fold, contains}
use mautrix_teams.Errors.{Err}
use mautrix_teams.Client.{Client, note_teams_result}
use mautrix_teams.Model.Sequence.{compare_sequence_id}
use mautrix_teams.Cursor.{
  CursorPos, is_greater, newer_than, pending, note_queued, needs_save, save_cursor,
}
use mautrix_teams.Cursor.Commit.{CursorCommit, new_cursor_commit, release}
use mautrix_teams.Poll.Time.{Time}
use mautrix_teams.Poll.Pass.Threads.{Thread}
use mautrix_teams.Poll.Wake.{is_non_pollable_system_stream}
use mautrix_teams.Receipts.{is_likely_thread_id}
use mautrix_teams.Ingest.{
  RemoteMessage, World, is_seen, unix_milli, is_system_message_type, effective_remote_message_id,
  self_id,
}
use mautrix_teams.Ingest.Typing.{is_typing_control, handle_typing_control}
use mautrix_teams.Ingest.Reactions.{queue_reaction_sync_for_message}
use mautrix_teams.Ingest.Edits.{queue_in_place_change}
use mautrix_teams.Ingest.Users.{
  Queued, resolve_sender_name, queue_user_message, queue_non_user_message,
}

-- What the loop over a page's messages carries.
pub record Page (E : Type 0) : Type 0 where
  pub client : Client E
  pub commit : CursorCommit
  pub max_seq : Text
  pub max_ts : ℤ
  pub ingested : ℕ

-- `maxSeq` and `maxTS` after a new message.
unfoldable pub later_seq : Text → Text → Text
later_seq max_seq seq =
    if is_empty max_seq || is_greater (compare_sequence_id seq max_seq) then seq else max_seq

unfoldable pub later_ts : ℤ → ℤ → ℤ
later_ts max_ts ts = if ltb_ℤ max_ts ts then ts else max_ts

-- A sender whose messages are no user's.
unfoldable pub is_non_user : (Text → Text → Bool) → Text → Text → Text → Bool
is_non_user folds_to sender_id thread_id message_type =
    is_empty sender_id
    || folds_to sender_id (trim_space thread_id)
    || is_likely_thread_id sender_id
    || is_system_message_type message_type

-- The thread from where the last page that was queued ends.
unfoldable pub carried_on : Thread → Option CursorPos → Thread
carried_on th none = th
carried_on th (some p) =
    if newer_than p (trim_space th.last_sequence_id)
    then record th { last_sequence_id = p.seq; last_message_ts = p.ts }
    else th

module _ {E : Type 0} (world : World E) where
  -- A message that the cursor has passed.
  unfoldable pub revisit : Client E → Thread → RemoteMessage → Text → Client E
  revisit c th msg own =
      let id = effective_remote_message_id msg in
      queue_in_place_change world (queue_reaction_sync_for_message world c th msg id) th msg id own

  -- The page after a message that was queued, or not.
  unfoldable pub took : Page E → RemoteMessage → Queued E → Page E
  unfolding later_seq later_ts
  took p msg q = record {
    client = q.client;
    commit = q.commit;
    max_seq = later_seq p.max_seq (trim_space msg.sequence_id);
    max_ts = later_ts p.max_ts (unix_milli msg.timestamp);
    ingested = if q.is_new then suc p.ingested else p.ingested;
  }

  user_message : Page E → Thread → Text → Time → RemoteMessage → Queued E
  user_message p th own now msg =
      let sender_id = trim_space msg.sender_id in
      let (name, c) = resolve_sender_name world p.client sender_id msg now in
      queue_user_message world c p.commit th (record msg { sender_name = name }) sender_id own
        (effective_remote_message_id msg)

  -- A message that the cursor has not passed.
  unfoldable pub take_new : Page E → Thread → Text → Time → RemoteMessage → Page E
  unfolding took is_non_user user_message
  take_new p th own now msg =
      if is_non_user world.folds_to (trim_space msg.sender_id) th.thread_id msg.message_type
      then took p msg (queue_non_user_message world p.client p.commit th msg)
      else took p msg (user_message p th own now msg)

  -- The loop body of `pollThread`; `last_seq` is the cursor of the thread.
  unfoldable pub take_message : Thread → Text → Text → Time → Page E → RemoteMessage → Page E
  unfolding take_new revisit
  take_message th last_seq own now p msg =
      if is_empty (trim_space msg.message_id)
      then p
      else if is_typing_control msg.message_type
      then record p { client = handle_typing_control world p.client th msg last_seq own now }
      else if is_seen last_seq msg
      then record p { client = revisit p.client th msg own }
      else take_new p th own now msg

  unfoldable pub take_messages : Thread → Text → Text → Time → Page E → List RemoteMessage → Page E
  unfolding take_message
  take_messages th last_seq own now p [] = p
  take_messages th last_seq own now p (msg ∷ rest) =
      take_messages th last_seq own now (take_message th last_seq own now p msg) rest

  -- `saveCursor` of cursor_commit.go, with its write.
  unfoldable pub save_page_cursor : Client E → Text → CursorPos → Client E
  save_page_cursor c thread_id position =
      let (e, written) = world.update_cursor c.outside thread_id position in
      if needs_save c.cursors thread_id position
      then record c { cursors = (save_cursor c.cursors thread_id position written).0; outside = e }
      else c

  -- `advancePageCursor`: the page is saved at once where its release is the last thing waited for.
  unfoldable pub advance_page_cursor : Thread → Page E → Thread × Page E
  unfolding save_page_cursor
  advance_page_cursor th p =
      let position : CursorPos = record { seq = p.max_seq; ts = p.max_ts } in
      let c = record (p.client) { cursors = note_queued p.client.cursors th.thread_id position } in
      let commit = release p.commit in
      if is_empty p.max_seq then (th, p) else (
        record th { last_sequence_id = p.max_seq; last_message_ts = p.max_ts },
        record p {
          client =
              if ltb p.commit.saves commit.saves
              then save_page_cursor c th.thread_id position
              else c;
          commit = commit;
        },
      )

  -- The part of `pollThread` that follows the fetch.
  unfoldable pub ingest_page : Client E → Thread → Time → List RemoteMessage → Thread × Page E
  unfolding take_messages advance_page_cursor
  ingest_page c th now msgs = advance_page_cursor th (
      take_messages th (trim_space th.last_sequence_id) (self_id world c) now
        (record {
          client = c;
          commit = new_cursor_commit;
          max_seq = [];
          max_ts = pos 0;
          ingested = 0;
        })
        msgs)

  error_of : Err ⊎ List RemoteMessage → Option Err
  error_of (inl err) = some err
  error_of (inr msgs) = none

  after_fetch :
      Client E → Thread → Time → Err ⊎ List RemoteMessage → Client E × Thread × ℕ × Option Err
  unfolding ingest_page
  after_fetch c th now (inl err) = (c, th, 0, some err)
  after_fetch c th now (inr msgs) =
      let (th', p) = ingest_page c th now msgs in
      (world.poll_horizons p.client th' now, th', p.ingested, none)

  fetch_with_token : Client E × Option Err → Thread → Time → Client E × Thread × ℕ × Option Err
  unfolding carried_on after_fetch error_of
  fetch_with_token (c, some err) th now = (world.report_token_error c err, th, 0, some err)
  fetch_with_token (c, none) th now =
      let th' = carried_on th (pending c.cursors th.thread_id) in
      let (e, answer) = world.list_messages c.outside th'.conversation th'.last_sequence_id in
      after_fetch (note_teams_result (record c { outside = e }) (error_of answer)) th' now answer

  -- `pollThread`, with the thread's row as it is in the end.
  unfoldable pub poll_thread : Client E → Thread → Time → Client E × Thread × ℕ × Option Err
  unfolding fetch_with_token
  poll_thread c th now =
      if is_non_pollable_system_stream th.thread_id || is_non_pollable_system_stream th.conversation
      then (c, th, 0, none)
      else fetch_with_token (world.ensure_valid_skype_token c) th now
