-- ===== src/Poll/Wake.antt =====
-- pkg/connector/poll_wake.go: waking the poll loop early.
pub mod Matched
use mautrix_teams.Base.{
  ℕ, suc, ◌+◌, Bool, true, false, not, ◌&&◌, ◌||◌, Option, none, some, List, [], ◌∷◌, ◌++◌, length,
  ltb, leb, ◌==◌, if◌then◌else◌,
}
use mautrix_teams.Base.Int.{ℤ, pos}
use mautrix_teams.Base.Text.{Text, codes, is_empty, ◌≗◌, contains}
use mautrix_teams.Base.Assoc.{Assoc, lookup, insert, delete}
use mautrix_teams.Errors.{Err}
use mautrix_teams.Client.{Client, note_teams_result}
use mautrix_teams.Poll.Time.{Time, is_zero, before, sub_lt, minute}
use mautrix_teams.Poll.Backoff.{PollBackoff, on_success, poll_idle_cap}

abbrev pub poll_backstop_idle_cap : ℤ
poll_backstop_idle_cap = pos 900_000_000_000

abbrev pub active_thread_idle_cap : ℤ
active_thread_idle_cap = pos 5_000_000_000

abbrev pub thread_active_window : ℕ
thread_active_window = 1_800_000_000_000

abbrev pub wake_queue_size : ℕ
wake_queue_size = 256

-- `pollState` of pkg/connector/message_poller.go.
pub record PollState : Type 0 where
  pub backoff : PollBackoff
  pub next_poll : Time
  pub conversation : Text
  pub gone : Bool
  pub noticed_at : Time
  pub noticed_by : Text

pub record PollWakeup : Type 0 where
  pub thread_id : Text
  pub receipts : Bool
  pub at : Time
  pub source : Text

-- `requestPoll`: a send on the buffered channel `pollWake` that never blocks.
unfoldable pub request_poll : List PollWakeup → Text → Bool → Text → Time → List PollWakeup
request_poll queue thread_id receipts source now =
    if is_empty thread_id
    then queue
    else if ltb (length queue) wake_queue_size
    then queue
      ++ record { thread_id = thread_id; receipts = receipts; at = now; source = source } ∷ []
    else queue

-- `isNonPollableSystemStream` of pkg/connector/message_poller.go.
unfoldable pub is_non_pollable_system_stream : Text → Bool
is_non_pollable_system_stream id =
    contains id (codes "teamsstream_")
    && not (contains id (codes "teamsstream_notes"))
    && not (contains id (codes "teamsstream_calllogs"))

unfoldable pub active_since : Time → Option Time → Bool
active_since now none = false
active_since now (some active) = sub_lt now active thread_active_window

module _ {E : Type 0} where
  unfoldable pub note_thread_active : Client E → Text → Time → Client E
  note_thread_active c thread_id now = record c {
    thread_active = insert thread_id now c.thread_active;
    receipt_poll = delete thread_id c.receipt_poll;
  }

  unfoldable pub forget_receipt_poll : Client E → Text → Client E
  forget_receipt_poll c thread_id = record c { receipt_poll = delete thread_id c.receipt_poll }

  unfoldable pub thread_is_active : Client E → Text → Time → Bool
  unfolding active_since
  thread_is_active c thread_id now = active_since now (lookup thread_id c.thread_active)

  unfoldable pub idle_cap_for : Client E → Text → Time → ℤ
  idle_cap_for c thread_id now =
      if thread_is_active c thread_id now
      then active_thread_idle_cap
      else if c.long_poll_up || c.activity_up
      then poll_backstop_idle_cap
      else poll_idle_cap

-- The loop body of `applyWakeup` for a thread that matches.
unfoldable pub woken : PollWakeup → PollState → PollState
unfolding on_success
woken w ps =
    let noted = not (is_zero w.at) && (is_zero ps.noticed_at || before w.at ps.noticed_at) in
    record ps {
      next_poll = 0;
      noticed_at = if noted then w.at else ps.noticed_at;
      noticed_by = if noted then w.source else ps.noticed_by;
      backoff = on_success ps.backoff;
    }

unfoldable pub matches : PollWakeup → Text → PollState → Bool
matches w thread_id ps = thread_id ≗ w.thread_id || ps.conversation ≗ w.thread_id

module _ {E : Type 0} where
  -- `applyWakeup`: the client, the threads' states, and whether any thread matched.
  unfoldable pub apply_wakeup :
      PollWakeup → Client E → Assoc PollState → Client E × Assoc PollState × Bool
  apply_wakeup w c [] = (c, [], false)
  apply_wakeup w c ((thread_id, ps) ∷ states) =
      let hit = matches w thread_id ps in
      let (c', states', matched) =
        apply_wakeup w (if hit && w.receipts then forget_receipt_poll c thread_id else c) states in
      (c', (thread_id, if hit then woken w ps else ps) ∷ states', hit || matched)
