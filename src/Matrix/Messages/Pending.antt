-- ===== src/Matrix/Messages/Pending.antt =====
-- pkg/connector/handlematrix.go: what HandleMatrixMessage tells bridgev2 of the message it sends.
use mautrix_teams.Matrix.Messages.Sending.{dispatch-Sends}
use mautrix_teams.Base.{
  Option-cases, ◌≡◌, ◌⊎◌, refl, Option, none, some, List, [], ◌∷◌, ◌++◌, inl, inr, Bool-cases,
}
use mautrix_teams.Base.Text.{Text, is_empty, trim_space}
use mautrix_teams.Poll.Time.{Time}
use mautrix_teams.Errors.{Err}
use mautrix_teams.Matrix.Begun.{begun-rule}
use mautrix_teams.Matrix.{
  MatrixWorld, Bridge, Handled, PendingCall, add_pending, remove_pending, done, refused,
}
use mautrix_teams.Matrix.Messages.{
  handle_matrix_message, MatrixMessage, SentMessage, send_content, prepared, after_send,
  outbound_msg_type_supported,
}

-- What bridgev2 was asked in the end: a message that was sent is added and nothing else; a refusal
-- leaves nothing behind.
abbrev pub IsTracked : {E : Type 0} → List PendingCall → Bridge E × Handled SentMessage → Type 0
IsTracked before (b, done sent) =
    b.pending_calls ≡ before ++ add_pending sent.client_message_id sent.sent_by sent.sent_at ∷ []
IsTracked before (b, refused why) =
    (b.pending_calls ≡ before)
    ⊎ ((id sender : Text) × (at : Time) × (b.pending_calls
          ≡ (before ++ add_pending id sender at ∷ []) ++ remove_pending id ∷ []))

module _ {E M : Type 0} (world : MatrixWorld E M) where
  after_send-IsTracked :
      (thread_id : Text) (before : List PendingCall) (sent : SentMessage)
      (r : Bridge E × Option Err)
      → r.0.pending_calls
        ≡ before ++ add_pending sent.client_message_id sent.sent_by sent.sent_at ∷ []
      → IsTracked before (after_send world thread_id sent r)
  unfolding after_send
  after_send-IsTracked thread_id before sent (b, none) h = h
  after_send-IsTracked thread_id before sent (b, some err) h =
      inr (sent.client_message_id, sent.sent_by, sent.sent_at, rw h refl)

  send_content-IsTracked :
      (b : Bridge E) (msg : MatrixMessage M) (content : M)
      → IsTracked b.pending_calls (send_content world b msg content)
  unfolding send_content prepared
  send_content-IsTracked b msg content = elim (Bool-cases (is_empty (trim_space msg.portal))) [
    | inl e ↦ rw e (inl refl)
    | inr e ↦ rw e (elim (Bool-cases (outbound_msg_type_supported (world.msg_type content))) [
      | inl k ↦ rw k (
          after_send-IsTracked (trim_space msg.portal) b.pending_calls _ _
            (dispatch-Sends world (world.msg_type content) _ _ msg content _ _ _).0)
      | inr k ↦ rw k (inl refl)
    ])
  ]

  -- A message that is sent is added to bridgev2's pending ones and nothing else is asked; where the
  -- handler refuses, nothing is asked or what was added is removed again.
  pub handle_matrix_message-IsTracked :
      (b : Bridge E) (msg : MatrixMessage M)
      → IsTracked b.pending_calls (handle_matrix_message world b msg)
  unfolding handle_matrix_message
  handle_matrix_message-IsTracked b msg =
      begun-rule world (IsTracked b.pending_calls) b _ (λ b' why same. inl same.0)
        (λ b' same. elim (Option-cases msg.content) [
          | inl o ↦ rw o (inl same.0)
          | inr (content, o) ↦ rw (o, ← same.0) (send_content-IsTracked b' msg content)
        ])
