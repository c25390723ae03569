-- ===== src/Matrix/Reads/Once.antt =====
-- pkg/connector/handlematrix.go: HandleMatrixReadReceipt, once for each run of incoming messages.
use mautrix_teams.Base.{
  ◌≡◌, ◌∙◌, refl, ap, Bool, true, false, ◌||◌, Option, none, some, inl, inr, Bool-cases,
  if◌then◌else◌,
}
use mautrix_teams.Base.Text.{Text, trim_space, is_empty, ≗_refl}
use mautrix_teams.Base.Assoc.{lookup, delete, lookup-delete}
use mautrix_teams.Base.Int.{ℤ}
use mautrix_teams.Client.{Client}
use mautrix_teams.Errors.{Err}
use mautrix_teams.Poll.Time.{Time}
use mautrix_teams.Receipts.{upsert_last_read}
use mautrix_teams.Matrix.{
  set_client, MatrixWorld, Bridge, TeamsCall, set_consumption_horizon, done, begun, continue, ask,
  answer, now, outside,
}
use mautrix_teams.Matrix.Reads.{
  handle_matrix_read_receipt, own_horizon_covers, should_send_receipt, send_receipt,
  record_own_horizon, consumption_horizon_now, horizon_answered, is_true,
}

module _ {E M : Type 0} (world : MatrixWorld E M) where
  -- Whether something unread is known in the thread.
  abbrev pub unread : Bridge E → Text → Option Bool
  unread b thread_id = lookup thread_id b.session.client.unread_seen

  -- Past the login and the token with nothing changed.
  abbrev pub IsReady : Bridge E → Type 0
  IsReady b = begun world b ≡ (b, none)

  unread-upsert :
      (c : Client E) (thread_id user_id : Text) (ts : ℤ)
      → (upsert_last_read world.select world.exec (λ d r. d) c thread_id user_id ts).1.unread_seen
        ≡ c.unread_seen
  unfolding upsert_last_read
  unread-upsert c thread_id user_id ts =
      elim (Bool-cases (is_empty (trim_space thread_id) || is_empty (trim_space user_id))) [
        | inl e ↦ rw e refl
        | inr e ↦ rw e refl
      ]

  unread-record :
      (b : Bridge E) (thread_id : Text) (ts : Time) (asked : Text)
      → unread (record_own_horizon world b thread_id ts) asked ≡ unread b asked
  unfolding record_own_horizon upsert_last_read
  unread-record b thread_id ts asked =
      elim (Bool-cases (is_empty (trim_space b.session.meta.teams_user_id))) [
        | inl e ↦ rw e refl
        | inr e ↦ rw e (rw unread-upsert refl)
      ]

  -- With nothing unread a receipt changes nothing.
  idle_receipt :
      (b : Bridge E) (portal : Text) (read_up_to : Time)
      → IsReady b
      → is_empty (trim_space portal) ≡ false
      → unread b (trim_space portal) ≡ none
      → handle_matrix_read_receipt world b portal (some read_up_to) ≡ (b, done tt)
  unfolding handle_matrix_read_receipt continue
  idle_receipt b portal read_up_to ready named nothing =
      rw (ready, named)
        (elim (Bool-cases (own_horizon_covers world b (trim_space portal) read_up_to)) [
          | inl e ↦ rw e refl
          | inr e ↦
              rw e (unfold should_send_receipt is_true in rw nothing (unfold send_receipt in refl))
        ])

  answered-unread :
      (thread_id : Text) (ts : Time) (r : Bridge E × Option Err)
      → ((horizon_answered world thread_id ts r).1 ≡ answer world tt r.1)
        × ((asked : Text)
            → unread (horizon_answered world thread_id ts r).0 asked ≡ unread r.0 asked)
  unfolding horizon_answered answer
  answered-unread thread_id ts (b, none) = (refl, unread-record b thread_id ts)
  answered-unread thread_id ts (b, some err) = (refl, λ asked. refl)

  -- The thread's mark is gone.
  abbrev marked_read : Bridge E → Text → Bridge E
  marked_read b thread_id =
      let c = b.session.client in
      set_client world b (record c { unread_seen = delete thread_id c.unread_seen })

  abbrev horizon_call : Bridge E → Text → TeamsCall
  horizon_call b thread_id =
      set_consumption_horizon thread_id (consumption_horizon_now (now world b))

  sent_receipt :
      (b : Bridge E) (portal : Text) (read_up_to : Time)
      → IsReady b
      → is_empty (trim_space portal) ≡ false
      → unread b (trim_space portal) ≡ some true
      → own_horizon_covers world b (trim_space portal) read_up_to ≡ false
      → handle_matrix_read_receipt world b portal (some read_up_to)
        ≡ horizon_answered world
            (trim_space portal)
            (now world b)
            (ask world (marked_read b (trim_space portal)) (horizon_call b (trim_space portal)))
  unfolding handle_matrix_read_receipt continue
  sent_receipt b portal read_up_to ready named waits uncovered =
      rw (ready, named, uncovered)
        (unfold should_send_receipt is_true in rw waits (unfold send_receipt in refl))

  unread-asked :
      (b : Bridge E) (thread_id : Text) (call : TeamsCall)
      → unread (ask world (marked_read b thread_id) call).0 thread_id ≡ none
  unfolding ask
  unread-asked b thread_id call =
      lookup-delete thread_id thread_id b.session.client.unread_seen
      ∙ ap (λ t. if t then none else unread b thread_id) (≗_refl thread_id)

  answer-asked :
      (b : Bridge E) (thread_id : Text) (call : TeamsCall)
      → (ask world (marked_read b thread_id) call).1 ≡ (world.call (outside world b) call).1
  unfolding ask
  answer-asked b thread_id call = refl

  -- Where a receipt finds something unread in its thread that the user's stored read position does
  -- not cover, Teams is asked to set the position, and the handler answers with the outcome; a second
  -- receipt in the thread, until a message comes in, then changes nothing, so asks nobody, whatever
  -- the outcome was. The login and the token are good both times.
  pub handle_matrix_read_receipt-once :
      (b : Bridge E) (portal : Text) (first second : Time)
      → IsReady b
      → is_empty (trim_space portal) ≡ false
      → unread b (trim_space portal) ≡ some true
      → own_horizon_covers world b (trim_space portal) first ≡ false
      → IsReady (handle_matrix_read_receipt world b portal (some first)).0
      → let (t, outcome) = handle_matrix_read_receipt world b portal (some first) in
        (outcome
          ≡ answer world tt
              (world.call (outside world b) (
                set_consumption_horizon
                  (trim_space portal)
                  (consumption_horizon_now (now world b)))).1)
        × (handle_matrix_read_receipt world t portal (some second) ≡ (t, done tt))
  handle_matrix_read_receipt-once b portal first second ready named waits uncovered again =
      let thread_id = trim_space portal in
      let sent = sent_receipt b portal first ready named waits uncovered in
      let asked = ask world (marked_read b thread_id) (horizon_call b thread_id) in
      let (outcome, kept) = answered-unread thread_id (now world b) asked in
      (
        ap (λ r. r.1) sent ∙ outcome ∙ ap (answer world tt) (answer-asked b thread_id _),
        idle_receipt _ portal second again named
            (ap (λ r. unread r.0 thread_id) sent ∙ kept thread_id ∙ unread-asked b thread_id _),
      )
