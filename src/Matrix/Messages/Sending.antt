-- ===== src/Matrix/Messages/Sending.antt =====
-- pkg/connector/handlematrix.go: what a send of HandleMatrixMessage leaves alone, by its type.
use mautrix_teams.Base.{refl, Option, none, some, inl, inr, Bool-cases, Option-cases}
use mautrix_teams.Base.Text.{Text, is_empty}
use mautrix_teams.Matrix.Begun.{Sends}
use mautrix_teams.Matrix.{
  MatrixWorld, Bridge, MsgType, msg_text, msg_notice, msg_emote, msg_location, msg_image, msg_file,
  msg_video, msg_audio, msg_other, ask, is_channel_thread,
}
use mautrix_teams.Matrix.Messages.{
  MatrixMessage, dispatch, send_text, send_attachment, send_image, with_reply,
  build_teams_reply_html,
}

module _ {E M : Type 0} (world : MatrixWorld E M) where
  with_reply-Sends :
      (b : Bridge E) (thread_id : Text) (msg : MatrixMessage M) (body : Text)
      → Sends (with_reply world b thread_id msg body).0 b
  unfolding with_reply build_teams_reply_html
  with_reply-Sends b thread_id msg body = elim (Bool-cases (is_channel_thread thread_id)) [
    | inl e ↦ rw e (refl, refl)
    | inr e ↦ rw e (elim (Option-cases msg.reply_to) [
      | inl o ↦ rw o (refl, refl)
      | inr (r, o) ↦ rw o (elim (Bool-cases (is_empty r.id)) [
        | inl k ↦ rw k (refl, refl)
        | inr k ↦ rw k (refl, refl)
      ])
    ])
  ]

  send_image-Sends :
      (b : Bridge E) (thread_id : Text) (msg : MatrixMessage M) (content : M)
      (id importance subject : Text) (gif : Option (Text × Text))
      → Sends (send_image world b thread_id msg content id importance subject gif).0 b
  unfolding send_image send_attachment ask
  send_image-Sends b thread_id msg content id importance subject none = (refl, refl)
  send_image-Sends b thread_id msg content id importance subject (some (title, url)) = (refl, refl)

  send_text-Sends :
      (b : Bridge E) (thread_id : Text) (msg : MatrixMessage M) (content : M)
      (id importance subject : Text)
      → Sends (send_text world b thread_id msg content id importance subject).0 b
  unfolding send_text ask
  send_text-Sends b thread_id msg content id importance subject =
      with_reply-Sends b thread_id msg
        (world.outbound_text_html b.session.client.outside content thread_id).0

  pub dispatch-Sends :
      (kind : MsgType) (b : Bridge E) (thread_id : Text) (msg : MatrixMessage M) (content : M)
      (id importance subject : Text)
      → Sends (dispatch world kind b thread_id msg content id importance subject).0 b
  unfolding dispatch send_attachment
  dispatch-Sends msg_image b t m c i p s =
      send_image-Sends b t m c i p s (world.extract_outbound_gif c)
  dispatch-Sends msg_file b t m c i p s = (refl, refl)
  dispatch-Sends msg_video b t m c i p s = (refl, refl)
  dispatch-Sends msg_audio b t m c i p s = (refl, refl)
  dispatch-Sends msg_text b t m c i p s = send_text-Sends b t m c i p s
  dispatch-Sends msg_notice b t m c i p s = send_text-Sends b t m c i p s
  dispatch-Sends msg_emote b t m c i p s = send_text-Sends b t m c i p s
  dispatch-Sends msg_location b t m c i p s = send_text-Sends b t m c i p s
  dispatch-Sends msg_other b t m c i p s = send_text-Sends b t m c i p s
