-- ===== src/Matrix/Messages/Echo.antt =====
-- pkg/connector/handlematrix.go with pkg/connector/client.go: the echo of a message that was sent.
use mautrix_teams.Matrix.Messages.Sending.{dispatch-Sends}
use mautrix_teams.Client.{note_teams_result-keeps}
use mautrix_teams.Base.{
  ◌≡◌, ◌∙◌, refl, false, Option, none, some, inl, inr, Bool-cases, Option-cases, leb, ◌+◌,
}
use mautrix_teams.Base.Text.{Text, is_empty, trim_space}
use mautrix_teams.Base.Assoc.{IsMap}
use mautrix_teams.Base.Decimal.{trim_space-itoa}
use mautrix_teams.Poll.Time.{Time}
use mautrix_teams.Poll.Wake.{note_thread_active}
use mautrix_teams.Errors.{Err}
use mautrix_teams.Client.{Client, note_teams_result}
use mautrix_teams.Ingest.SelfMessages.{
  record_self_message, consume_self_message, consume_self_message-record,
}
use mautrix_teams.Matrix.Begun.{begun-rule}
use mautrix_teams.Matrix.{MatrixWorld, Bridge, Handled, done, refused, now}
use mautrix_teams.Matrix.Messages.{
  outbound_msg_type_supported, MatrixMessage, SentMessage, handle_matrix_message, send_content,
  prepared, after_send,
}

module _ {E : Type 0} where
  -- `consume_self_message` looks at the own sends only.
  consume-same :
      (c d : Client E) (id : Text) (at : Time)
      → c.self_messages ≡ d.self_messages
      → ((consume_self_message c id at).0 ≡ (consume_self_message d id at).0)
        × ((consume_self_message c id at).1.self_messages
            ≡ (consume_self_message d id at).1.self_messages)
  unfolding consume_self_message
  consume-same c d id at e = elim (Bool-cases (is_empty (trim_space id))) [
    | inl k ↦ rw k (refl, e)
    | inr k ↦ rw (k, e) (refl, refl)
  ]

  -- What is found after a send is noted is what is found without the rest that the handler notes.
  consume-active :
      (c d : Client E) (id : Text) (seen again : Time)
      → c.self_messages ≡ d.self_messages
      → ((consume_self_message c id seen).0 ≡ (consume_self_message d id seen).0)
        × ((consume_self_message (consume_self_message c id seen).1 id again).0
            ≡ (consume_self_message (consume_self_message d id seen).1 id again).0)
  consume-active c d id seen again e =
      ((consume-same c d id seen e).0, (consume-same _ _ id again (consume-same c d id seen e).1).0)

module _ {E M : Type 0} (world : MatrixWorld E M) where
  -- The echo of a message that was sent, looked for at `seen`, is recognized if it comes within five
  -- minutes of the send, and a second one at `again` is not.
  abbrev pub KnowsEcho : Time → Time → Bridge E × Handled SentMessage → Type 0
  KnowsEcho seen again (b, refused why) = Unit
  KnowsEcho seen again (b, done sent) =
      let (found, c) = consume_self_message b.session.client sent.client_message_id seen in
      (found ≡ leb seen (now world b + 300_000_000_000))
      × ((consume_self_message c sent.client_message_id again).0 ≡ false)

  outside-record :
      (c : Client E) (id : Text) (at : Time) → (record_self_message c id at).outside ≡ c.outside
  unfolding record_self_message
  outside-record c id at = elim (Bool-cases (is_empty (trim_space id))) [
    | inl e ↦ rw e refl
    | inr e ↦ rw e refl
  ]

  -- The handler's last steps, over the client whose result was noted.
  active-KnowsEcho :
      (c : Client E) (thread_id : Text) (sent : SentMessage)
      → IsMap c.self_messages
      → is_empty (trim_space sent.client_message_id) ≡ false
      → (seen again : Time)
      → let id = sent.client_message_id in
        let at = world.clock c.outside in
        let active = note_thread_active (record_self_message c id at) thread_id sent.sent_at in
        let (found, d) = consume_self_message active id seen in
        (found ≡ leb seen (world.clock active.outside + 300_000_000_000))
        × ((consume_self_message d id again).0 ≡ false)
  unfolding note_thread_active
  active-KnowsEcho c thread_id sent m h seen again =
      let id = sent.client_message_id in
      let at = world.clock c.outside in
      let same = consume-active _ (record_self_message c id at) id seen again refl in
      let echo = consume_self_message-record c id at seen again m h in
      rw (outside-record c id at) (same.0 ∙ echo.0, same.1 ∙ echo.1)

  after_send-KnowsEcho :
      (seen again : Time) (thread_id : Text) (sent : SentMessage) (r : Bridge E × Option Err)
      → IsMap r.0.session.client.self_messages
      → is_empty (trim_space sent.client_message_id) ≡ false
      → KnowsEcho seen again (after_send world thread_id sent r)
  unfolding after_send
  after_send-KnowsEcho seen again thread_id sent (b, some err) m h = tt
  after_send-KnowsEcho seen again thread_id sent (b, none) m h =
      active-KnowsEcho (note_teams_result b.session.client none) thread_id sent
        (rw (note_teams_result-keeps b.session.client none).0 m) h seen again

  send_content-KnowsEcho :
      (seen again : Time) (b : Bridge E) (msg : MatrixMessage M) (content : M)
      → IsMap b.session.client.self_messages
      → KnowsEcho seen again (send_content world b msg content)
  unfolding send_content prepared
  send_content-KnowsEcho seen again b msg content m =
      elim (Bool-cases (is_empty (trim_space msg.portal))) [
        | inl e ↦ rw e tt
        | inr e ↦ rw e (elim (Bool-cases (outbound_msg_type_supported (world.msg_type content))) [
          | inl k ↦ rw k (
              after_send-KnowsEcho seen again (trim_space msg.portal) _ _
                (rw (dispatch-Sends world (world.msg_type content) _ _ msg content _ _ _).1 m)
                (trim_space-itoa _))
          | inr k ↦ rw k tt
        ])
      ]

  -- A message from Matrix that was sent is recognized by its echo as long as the echo comes within
  -- five minutes of the send, and once only: a second message with its ID is no echo, whenever it
  -- comes. The map of the own sends has no key twice.
  pub handle_matrix_message-KnowsEcho :
      (b : Bridge E) (msg : MatrixMessage M) (seen again : Time)
      → IsMap b.session.client.self_messages
      → KnowsEcho seen again (handle_matrix_message world b msg)
  unfolding handle_matrix_message
  handle_matrix_message-KnowsEcho b msg seen again m =
      begun-rule world (KnowsEcho seen again) b _ (λ b' why same. tt)
        (λ b' same. elim (Option-cases msg.content) [
          | inl o ↦ rw o tt
          | inr (content, o) ↦ rw o (send_content-KnowsEcho seen again b' msg content (rw same.1 m))
        ])
