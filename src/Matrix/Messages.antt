-- ===== src/Matrix/Messages.antt =====
-- pkg/connector/handlematrix.go: HandleMatrixMessage with the replies' HTML, HandleMatrixEdit and
-- HandleMatrixMessageRemove.
pub mod Sending
pub mod Pending
pub mod Echo
use mautrix_teams.Base.{
  ℕ, Bool, true, false, not, ◌&&◌, ◌||◌, Option, none, some, [], ◌∷◌, ◌++◌, ◌⊎◌, inl, inr, leb, ◌+◌,
  ◌-◌, if◌then◌else◌,
}
use mautrix_teams.Base.Int.{ℤ}
use mautrix_teams.Base.Text.{Text, codes, trim_space, is_empty, ◌≗◌}
use mautrix_teams.Base.Decimal.{itoa}
use mautrix_teams.Errors.{Err}
use mautrix_teams.Client.{note_teams_result}
use mautrix_teams.Poll.Time.{Time}
use mautrix_teams.Poll.Wake.{request_poll, note_thread_active}
use mautrix_teams.Model.Html.Render.{escape}
use mautrix_teams.Ingest.{unix_milli, network_user_id}
use mautrix_teams.Ingest.SelfMessages.{record_self_message}
use mautrix_teams.Matrix.{
  MatrixWorld, Bridge, MsgType, Quoted, Handled, is_channel_thread, wrap_teams_send_error,
  next_client_message_id, outside, now, set_outside, ask, self_user, begun, continue,
  ask_and_answer, refuse, send_formatted_message, send_gif, edit_message, delete_message,
  unsupported_message_type, status, add_pending, remove_pending, done, refused, msg_image, msg_file,
  msg_video, msg_audio, msg_other,
}

-- The message that a reply names, with the root of its thread if it has one.
pub record ReplyTarget : Type 0 where
  pub id : Text
  pub root : Text

-- `importance` and `subject` are the strings of the event's content, empty where there is none.
pub record MatrixMessage (M : Type 0) : Type 0 where
  pub content : Option M
  pub portal : Text
  pub room : Text
  pub thread_root : Option Text
  pub reply_to : Option ReplyTarget
  pub importance : Text
  pub subject : Text

-- The message that bridgev2 keeps until its echo: ID, sender and time, and the stream order.
pub record SentMessage : Type 0 where
  pub client_message_id : Text
  pub sent_by : Text
  pub sent_at : Time
  pub stream_order : ℤ

-- `outboundMsgTypeSupported`.
unfoldable pub outbound_msg_type_supported : MsgType → Bool
outbound_msg_type_supported msg_other = false
outbound_msg_type_supported kind = true

-- `resolveTeamsThreadRoot`.
or_reply : Option ReplyTarget → Text
or_reply none = []
or_reply (some r) = if is_empty r.root then r.id else r.root

unfoldable pub resolve_teams_thread_root : Option Text → Option ReplyTarget → Text
unfolding or_reply
resolve_teams_thread_root none reply = or_reply reply
resolve_teams_thread_root (some root) reply = if is_empty root then or_reply reply else root

-- The importance and the subject that a send carries.
unfoldable pub sent_importance : Text → Text
sent_importance importance =
    if (importance ≗ codes "high") || (importance ≗ codes "urgent") then importance else []

unfoldable pub sent_subject : Text → Text → Text → Text
unfolding is_channel_thread
sent_subject subject thread_id root =
    if not (is_empty (trim_space subject)) && is_channel_thread thread_id && is_empty root
    then trim_space subject
    else []

-- `truncateSnippet(s, 200)` counts bytes and cuts between characters: the lengths of UTF-8.
unfoldable pub utf8_length : ℕ → ℕ
utf8_length c = if leb c 0x7f then 1 else if leb c 0x7ff then 2 else if leb c 0xffff then 3 else 4

-- What is shown of a quoted message.
unfoldable pub quoted_name : Quoted → Text
quoted_name q = if is_empty q.im_display_name then q.token_display_name else q.im_display_name

unfoldable pub quoted_snippet : Quoted → Text
quoted_snippet q =
    if not (is_empty q.body)
    then q.body
    else if not (is_empty q.formatted_body)
    then q.formatted_body
    else if q.has_inline_images
    then 0x1f4f7 ∷ []
    else if not (is_empty q.properties_files)
    then 0x1f4ce ∷ []
    else if q.has_gifs
    then codes "GIF"
    else []

unfoldable pub byte_length : Text → ℕ
unfolding utf8_length
byte_length [] = 0
byte_length (c ∷ s) = utf8_length c + byte_length s

-- The characters within the first bytes.
unfoldable pub take_bytes : ℕ → Text → Text
unfolding utf8_length
take_bytes limit [] = []
take_bytes limit (c ∷ s) =
    let rest = take_bytes (limit - utf8_length c) s in
    if leb (utf8_length c) limit then c ∷ rest else []

unfoldable pub truncate_snippet : Text → ℕ → Text
unfolding byte_length take_bytes
truncate_snippet s limit =
    if leb (byte_length s) limit then s else take_bytes limit s ++ codes "..."

abbrev pub quote_start : Text → Text
quote_start id =
    codes "<blockquote itemtype=\"http://schema.skype.com/Reply\" itemid=\""
    ++ escape id
    ++ codes "\">"

unfoldable pub quote_of : Err ⊎ Quoted → Text
unfolding quoted_name quoted_snippet truncate_snippet
quote_of (inl err) = []
quote_of (inr q) =
    codes "<strong>"
    ++ escape (quoted_name q)
    ++ codes "</strong><br>"
    ++ escape (truncate_snippet (quoted_snippet q) 200)

unfoldable pub conversation_or : Text → Option Text → Text
conversation_or thread_id none = thread_id
conversation_or thread_id (some conversation) =
    if is_empty conversation then thread_id else conversation

module _ {E M : Type 0} (world : MatrixWorld E M) where
  -- `buildTeamsReplyHTML`.
  unfoldable pub build_teams_reply_html : Bridge E → Text → Text → Text → Bridge E × Text
  unfolding quote_of conversation_or
  build_teams_reply_html b thread_id reply_to body =
      let conversation =
        conversation_or thread_id (world.get_conversation (outside world b) thread_id) in
      let (e, found) = world.get_message (outside world b) conversation reply_to in
      (
        set_outside world b e,
        quote_start reply_to ++ quote_of found ++ codes "</blockquote>" ++ body,
      )

  -- The reply target and the body of a text: the thread's root in a channel, else a quote.
  unfoldable pub with_reply : Bridge E → Text → MatrixMessage M → Text → Bridge E × Text × Text
  unfolding build_teams_reply_html resolve_teams_thread_root is_channel_thread
  with_reply b thread_id msg body =
      if is_channel_thread thread_id
      then (b, resolve_teams_thread_root msg.thread_root msg.reply_to, body)
      else elim msg.reply_to [
        | none ↦ (b, [], body)
        | some r ↦
            if is_empty r.id
            then (b, [], body)
            else let (b', quoted) = build_teams_reply_html b thread_id r.id body in
              (b', r.id, quoted)
      ]

  unfoldable pub send_text :
      Bridge E → Text → MatrixMessage M → M → Text → Text → Text → Bridge E × Option Err
  unfolding with_reply ask
  send_text b thread_id msg content id importance subject =
      let (body, mentions) = world.outbound_text_html (outside world b) content thread_id in
      let (b', reply_to, html) = with_reply b thread_id msg body in
      ask world b' (
        send_formatted_message thread_id html (self_user world b') id reply_to mentions importance
          subject)

  unfoldable pub send_attachment :
      Bridge E → Text → MatrixMessage M → M → Text → Text → Text → Bridge E × Option Err
  send_attachment b thread_id msg content id importance subject =
      let (e, err) =
        world.send_outbound_attachment (outside world b) msg.room thread_id content id importance
          subject in
      (set_outside world b e, err)

  send_image :
      Bridge E
      → Text
      → MatrixMessage M
      → M
      → Text
      → Text
      → Text
      → Option (Text × Text)
      → Bridge E × Option Err
  unfolding send_attachment ask
  send_image b thread_id msg content id importance subject none =
      send_attachment b thread_id msg content id importance subject
  send_image b thread_id msg content id importance subject (some (title, url)) =
      ask world b (send_gif thread_id url title (self_user world b) id importance subject)

  -- The send, by the message's type, which is supported.
  unfoldable pub dispatch :
      MsgType → Bridge E → Text → MatrixMessage M → M → Text → Text → Text → Bridge E × Option Err
  unfolding send_text send_attachment send_image
  dispatch msg_image b thread_id msg content id importance subject =
      send_image b thread_id msg content id importance subject (world.extract_outbound_gif content)
  dispatch msg_file b thread_id msg content id importance subject =
      send_attachment b thread_id msg content id importance subject
  dispatch msg_video b thread_id msg content id importance subject =
      send_attachment b thread_id msg content id importance subject
  dispatch msg_audio b thread_id msg content id importance subject =
      send_attachment b thread_id msg content id importance subject
  dispatch kind b thread_id msg content id importance subject =
      send_text b thread_id msg content id importance subject

  -- From the answer to the send on.
  unfoldable pub after_send :
      Text → SentMessage → Bridge E × Option Err → Bridge E × Handled SentMessage
  unfolding wrap_teams_send_error note_teams_result
  after_send thread_id sent (b, some err) = (
    record b {
      session = record (b.session) { client = note_teams_result b.session.client (some err) };
      pending_calls = b.pending_calls ++ remove_pending sent.client_message_id ∷ [];
    },
    refused (status (wrap_teams_send_error err)),
  )
  after_send thread_id sent (b, none) =
      let noted = note_teams_result b.session.client none in
      let recorded = record_self_message noted sent.client_message_id (world.clock noted.outside) in
      let active = note_thread_active recorded thread_id sent.sent_at in
      (
        record b {
          session = record (b.session) { client = active };
          wakes = request_poll b.wakes thread_id false (codes "send") (world.clock active.outside);
        },
        done sent,
      )

  -- The message that is kept, with its new ID, and the state after that.
  unfoldable pub prepared : Bridge E → Bridge E × SentMessage
  unfolding next_client_message_id
  prepared b =
      let counter = next_client_message_id (now world b) b.send_counter in
      let sent : SentMessage = record {
        client_message_id = itoa counter;
        sent_by = network_user_id (self_user world b);
        sent_at = now world b;
        stream_order = unix_milli (now world b);
      } in
      (
        record b {
          send_counter = counter;
          pending_calls =
              b.pending_calls ++ add_pending sent.client_message_id sent.sent_by sent.sent_at ∷ [];
        },
        sent,
      )

  unfoldable pub send_content : Bridge E → MatrixMessage M → M → Bridge E × Handled SentMessage
  unfolding prepared dispatch after_send outbound_msg_type_supported sent_importance sent_subject
  send_content b msg content =
      let thread_id = trim_space msg.portal in
      let root = resolve_teams_thread_root msg.thread_root msg.reply_to in
      let (b', sent) = prepared b in
      if is_empty thread_id
      then refuse world b (codes "missing thread id")
      else if not (outbound_msg_type_supported (world.msg_type content))
      then (b, refused unsupported_message_type)
      else after_send thread_id sent (
          dispatch (world.msg_type content) b' thread_id msg content sent.client_message_id
            (sent_importance msg.importance) (sent_subject msg.subject thread_id root))

  unfoldable pub handle_matrix_message : Bridge E → MatrixMessage M → Bridge E × Handled SentMessage
  unfolding begun continue send_content
  handle_matrix_message b msg = continue world (begun world b) λ b'. elim msg.content [
    | none ↦ (b', refused unsupported_message_type)
    | some content ↦ send_content b' msg content
  ]

  -- `HandleMatrixEdit`: the content and the target's ID, where there are both.
  unfoldable pub handle_matrix_edit : Bridge E → Text → Option (M × Text) → Bridge E × Handled Unit
  unfolding begun continue ask_and_answer
  handle_matrix_edit b portal none =
      continue world (begun world b) λ b'. refuse world b' (codes "missing edit content or target")
  handle_matrix_edit b portal (some (content, target)) = continue world (begun world b) λ b'.
      let thread_id = trim_space portal in
      let (body, mentions) = world.outbound_text_html (outside world b') content thread_id in
      if is_empty thread_id
      then refuse world b' (codes "missing thread id")
      else if is_empty target
      then refuse world b' (codes "missing teams message id for edit target")
      else ask_and_answer world tt b'
          (edit_message thread_id target body (self_user world b') mentions)

  -- `HandleMatrixMessageRemove`, with the target's ID.
  unfoldable pub handle_matrix_message_remove :
      Bridge E → Text → Option Text → Bridge E × Handled Unit
  unfolding begun continue ask_and_answer
  handle_matrix_message_remove b portal none =
      continue world (begun world b) λ b'. refuse world b' (codes "missing redaction target")
  handle_matrix_message_remove b portal (some target) = continue world (begun world b) λ b'.
      let thread_id = trim_space portal in
      if is_empty thread_id
      then refuse world b' (codes "missing thread id")
      else if is_empty target
      then refuse world b' (codes "missing teams message id for delete target")
      else ask_and_answer world tt b' (delete_message thread_id target (self_user world b'))
