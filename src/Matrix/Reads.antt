-- ===== src/Matrix/Reads.antt =====
-- pkg/connector/handlematrix.go: HandleMatrixTyping and HandleMatrixReadReceipt, with
-- `ownHorizonCovers` and `recordOwnHorizon` of pkg/connector/receipt_sync.go and
-- `ConsumptionHorizonNow` of internal/teams/client/receipts.go.
pub mod Once
use mautrix_teams.Base.{◌&&◌, Bool, true, false, not, ◌||◌, Option, none, some, ◌++◌, if◌then◌else◌}
use mautrix_teams.Base.Int.{ℤ, leb_ℤ}
use mautrix_teams.Base.Text.{Text, codes, trim_space, is_empty}
use mautrix_teams.Base.Assoc.{lookup, delete}
use mautrix_teams.Errors.{Err}
use mautrix_teams.Poll.Time.{Time, is_zero}
use mautrix_teams.Receipts.{Rows, refused, row, get, upsert_last_read}
use mautrix_teams.Ingest.{unix_milli}
use mautrix_teams.Ingest.Reactions.{format_int}
use mautrix_teams.Matrix.{
  MatrixWorld, Bridge, Handled, begun, continue, ask, answer, ask_and_answer, refuse, now,
  set_client, self_user, send_typing_indicator, set_consumption_horizon, done,
}

-- `ConsumptionHorizonNow`.
unfoldable pub consumption_horizon_now : Time → Text
unfolding format_int unix_milli
consumption_horizon_now t =
    let ms = format_int (unix_milli t) in ms ++ codes ";" ++ ms ++ codes ";0"

unfoldable pub covers : ℤ → Rows → Bool
covers ms (refused err) = false
covers ms (row none) = false
covers ms (row (some last)) = leb_ℤ ms last

is_true : Option Bool → Bool
is_true none = false
is_true (some b) = b

module _ {E M : Type 0} (world : MatrixWorld E M) where
  unfoldable pub own_horizon_covers : Bridge E → Text → Time → Bool
  unfolding covers get
  own_horizon_covers b thread_id read_up_to =
      let self_id = trim_space (self_user world b) in
      not (is_zero read_up_to || is_empty self_id)
      && covers (unix_milli read_up_to)
          (get world.select world.exec (λ c r. c) b.session.client thread_id self_id)

  unfoldable pub record_own_horizon : Bridge E → Text → Time → Bridge E
  unfolding upsert_last_read
  record_own_horizon b thread_id ts =
      let self_id = trim_space (self_user world b) in
      if is_empty self_id
      then b
      else set_client world b
          (upsert_last_read world.select world.exec (λ c r. c) b.session.client thread_id self_id
            (unix_milli ts)).1

  -- `shouldSendReceipt`.
  unfoldable pub should_send_receipt : Bridge E → Text → Bool × Bridge E
  unfolding is_true
  should_send_receipt b thread_id =
      let c = b.session.client in
      if not (is_true (lookup thread_id c.unread_seen))
      then (false, b)
      else (true, set_client world b (record c { unread_seen = delete thread_id c.unread_seen }))

  horizon_answered : Text → Time → Bridge E × Option Err → Bridge E × Handled Unit
  unfolding record_own_horizon answer
  horizon_answered thread_id ts (b, none) = (record_own_horizon b thread_id ts, done tt)
  horizon_answered thread_id ts (b, some err) = (b, answer world tt (some err))

  -- From the check of the unread mark on.
  unfoldable pub send_receipt : Text → Bool × Bridge E → Bridge E × Handled Unit
  unfolding horizon_answered ask consumption_horizon_now
  send_receipt thread_id (false, b) = (b, done tt)
  send_receipt thread_id (true, b) =
      horizon_answered thread_id (now world b)
        (ask world b (set_consumption_horizon thread_id (consumption_horizon_now (now world b))))

  -- With the time up to which the room is read.
  unfoldable pub handle_matrix_read_receipt :
      Bridge E → Text → Option Time → Bridge E × Handled Unit
  unfolding begun continue own_horizon_covers should_send_receipt send_receipt
  handle_matrix_read_receipt b portal none = continue world (begun world b) λ b'. (b', done tt)
  handle_matrix_read_receipt b portal (some read_up_to) = continue world (begun world b) λ b'.
      let thread_id = trim_space portal in
      if is_empty thread_id
      then refuse world b' (codes "missing thread id")
      else if own_horizon_covers b' thread_id read_up_to
      then (b', done tt)
      else send_receipt thread_id (should_send_receipt b' thread_id)

  unfoldable pub handle_matrix_typing : Bridge E → Text → Bool → Bridge E × Handled Unit
  unfolding begun continue ask_and_answer
  handle_matrix_typing b portal is_typing = continue world (begun world b) λ b'.
      let thread_id = trim_space portal in
      if not is_typing
      then (b', done tt)
      else if is_empty thread_id
      then refuse world b' (codes "missing thread id")
      else ask_and_answer world tt b' (send_typing_indicator thread_id (self_user world b'))
