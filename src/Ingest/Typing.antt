-- ===== src/Ingest/Typing.antt =====
-- `handleTypingControl` and `shouldEmitTyping` of pkg/connector/message_poller.go.
pub mod Debounce
use mautrix_teams.Base.{
  ℕ, ◌+◌, Bool, true, false, not, ◌&&◌, ◌||◌, [], Option, none, some, ◌++◌, ltb, if◌then◌else◌,
}
use mautrix_teams.Base.Text.{Text, codes, trim_space, is_empty, equal_fold, ◌≗◌}
use mautrix_teams.Base.Assoc.{lookup, insert}
use mautrix_teams.Client.{Client}
use mautrix_teams.Poll.Time.{Time, is_zero, sub_lt}
use mautrix_teams.Poll.Sweep.{typing_dedup_window}
use mautrix_teams.Poll.Pass.Threads.{Thread}
use mautrix_teams.Receipts.{is_likely_thread_id}
use mautrix_teams.Ingest.{
  RemoteMessage, World, typing_event, is_seen, network_user_id, portal_key, send,
}

abbrev pub typing_timeout : ℕ
typing_timeout = 5_000_000_000

abbrev pub typing_max_age : ℕ
typing_max_age = 15_000_000_000

abbrev pub typing_key : Text → Text → Text
typing_key thread_id sender_id = thread_id ++ codes ":" ++ sender_id

unfoldable pub emitted_lately : Time → Option Time → Bool
emitted_lately now none = false
emitted_lately now (some last) = sub_lt now last typing_dedup_window

module _ {E : Type 0} where
  unfoldable pub should_emit_typing : Client E → Text → Text → Time → Bool × Client E
  unfolding emitted_lately
  should_emit_typing c thread_id sender_id now =
      let key = typing_key thread_id sender_id in
      if emitted_lately now (lookup key c.typing_seen)
      then (false, c)
      else (true, record c { typing_seen = insert key now c.typing_seen })

-- The messages that are typing controls.
unfoldable pub is_typing_control : Text → Bool
is_typing_control message_type =
    equal_fold message_type (codes "Control/Typing")
    || equal_fold message_type (codes "Control/ClearTyping")
    || equal_fold message_type (codes "Control/LiveState")

unfoldable pub typing_timeout_of : Text → ℕ
typing_timeout_of message_type =
    if equal_fold message_type (codes "Control/ClearTyping") then 0 else typing_timeout

-- Whether a typing control is too old to act on.
unfoldable pub is_stale : RemoteMessage → Time → Bool
is_stale msg now = not (is_zero msg.timestamp) && ltb (msg.timestamp + typing_max_age) now

module _ {E : Type 0} (world : World E) where
  -- What follows the deduplication.
  unfoldable pub emit_typing : Bool × Client E → Thread → RemoteMessage → Text → Client E
  unfolding typing_timeout_of
  emit_typing (false, c) th msg sender_id = c
  emit_typing (true, c) th msg sender_id = send world c (
      typing_event (portal_key th.thread_id)
        (record { sender = network_user_id sender_id; is_from_me = false; sender_login = [] })
        msg.timestamp (typing_timeout_of msg.message_type))

  unfoldable pub handle_typing_control :
      Client E → Thread → RemoteMessage → Text → Text → Time → Client E
  unfolding emit_typing is_stale
  handle_typing_control c th msg last_seq self_id now =
      let sender_id = trim_space msg.sender_id in
      if is_seen last_seq msg || is_stale msg now
      then c
      else if is_empty sender_id || (sender_id ≗ self_id) || is_likely_thread_id sender_id
      then c
      else emit_typing (should_emit_typing c th.thread_id sender_id (world.clock c.outside)) th msg
          sender_id
