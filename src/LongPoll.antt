-- ===== src/LongPoll.antt =====
-- pkg/connector/sync_loop.go: `longPollLoop`, one round of it at a time. What it calls is a field of
-- `LoopWorld`: the context's error, whether the client is superseded, `ensureValidSkypeToken`,
-- RegisterEndpoint and LongPoll of the API, and the clock. A context that ends during a sleep is
-- seen at the start of the next round.
pub mod Rounds
use mautrix_teams.Base.{
  ℕ, suc, ◌+◌, ◌-◌, ◌%◌, Bool, true, false, not, ◌&&◌, ◌||◌, Option, none, some, List, [], ◌∷◌, ◌⊎◌,
  inl, inr, min, ltb, ◌==◌, if◌then◌else◌,
}
use mautrix_teams.Base.Int.{ℤ, pos, ltb_ℤ, shl64}
use mautrix_teams.Base.Text.{Text, codes, is_empty, ◌≗◌}
use mautrix_teams.Errors.{Err, superseded, is_canceled}
use mautrix_teams.Client.{Client}
use mautrix_teams.Poll.Time.{Time}
use mautrix_teams.Poll.Wake.{PollWakeup, request_poll}

abbrev pub long_poll_retry_delay : ℤ
long_poll_retry_delay = pos 2_000_000_000

abbrev pub long_poll_max_retry_delay : ℤ
long_poll_max_retry_delay = pos 60_000_000_000

abbrev pub long_poll_reregister_after : ℕ
long_poll_reregister_after = 3

-- `PollEvent`: its type, and the thread that ThreadID finds in it.
pub record PollEvent : Type 0 where
  pub resource_type : Text
  pub thread_id : Text

pub record LoopWorld (E : Type 0) : Type 0 where
  pub ctx_err : Client E → Option Err
  pub is_superseded : Client E → Bool
  pub ensure_token : Client E → Client E × Option Err
  pub register : Client E → Client E × (Err ⊎ Text)
  pub long_poll : Client E → Text → Client E × (Err ⊎ List PollEvent)
  pub now : Client E → Time

-- The loop's variables, with the client and the queue of wakeups.
pub record LoopState (E : Type 0) : Type 0 where
  pub client : Client E
  pub queue : List PollWakeup
  pub endpoint_id : Text
  pub failures : ℕ

-- How a round ends: the loop returns an error, sleeps, or goes on at once.
pub data Round (E : Type 0) : Type 0 where
  returns : Err → LoopState E → Round E
  sleeps : ℤ → LoopState E → Round E
  goes_on : LoopState E → Round E

-- The delay after that many failures in a row, at least one.
unfoldable pub long_poll_delay : ℕ → ℤ
long_poll_delay failures =
    let delay = shl64 long_poll_retry_delay (min (failures - 1) 5) in
    if ltb_ℤ long_poll_max_retry_delay delay then long_poll_max_retry_delay else delay

-- Anything but a message may be a read-position change.
unfoldable pub asks_receipts : PollEvent → Bool
asks_receipts evt =
    not (evt.resource_type ≗ codes "NewMessage") && not (evt.resource_type ≗ codes "MessageUpdate")

-- The loop over the events of an answer.
unfoldable pub wake_for : Time → List PollWakeup → List PollEvent → List PollWakeup
wake_for now queue [] = queue
wake_for now queue (evt ∷ rest) =
    let queue' =
      if is_empty evt.thread_id
      then queue
      else request_poll queue evt.thread_id (asks_receipts evt) (codes "longpoll") now in
    wake_for now queue' rest

module _ {E : Type 0} (world : LoopWorld E) where
  unfoldable pub endpoint_or : Text → Err ⊎ Text → Text
  endpoint_or old (inl e) = old
  endpoint_or old (inr id) = id

  -- The endpoint is registered afresh, if it is the turn.
  unfoldable pub reregister : LoopState E → LoopState E
  unfolding endpoint_or
  reregister s =
      let r : Client E × (Err ⊎ Text) = world.register s.client in
      if s.failures % long_poll_reregister_after == 0
      then record s { client = r.0; endpoint_id = endpoint_or s.endpoint_id r.1 }
      else s

  unfoldable pub after_failure : LoopState E → Err → Round E
  unfolding reregister long_poll_delay
  after_failure s e =
      let failed : LoopState E = record s {
        client = record (s.client) { long_poll_up = false };
        failures = s.failures + 1;
      } in
      if is_canceled e
      then returns e s
      else sleeps (long_poll_delay (s.failures + 1)) (reregister failed)

  unfoldable pub after_long_poll : LoopState E → Err ⊎ List PollEvent → Round E
  unfolding after_failure wake_for
  after_long_poll s (inl e) = after_failure s e
  after_long_poll s (inr events) =
      let c : Client E = record (s.client) { long_poll_up = true } in
      goes_on (record s { client = c; failures = 0; queue = wake_for (world.now c) s.queue events })

  unfoldable pub with_token : LoopState E → Option Err → Round E
  unfolding after_long_poll
  with_token s (some e) = returns e s
  with_token s none =
      let r : Client E × (Err ⊎ List PollEvent) = world.long_poll s.client s.endpoint_id in
      after_long_poll (record s { client = r.0 }) r.1

  unfoldable pub while_running : LoopState E → Option Err → Round E
  unfolding with_token
  while_running s (some e) = returns e s
  while_running s none =
      let r : Client E × Option Err = world.ensure_token s.client in
      if world.is_superseded s.client
      then returns superseded s
      else with_token (record s { client = r.0 }) r.1

  -- A round of the loop.
  unfoldable pub long_poll_round : LoopState E → Round E
  unfolding while_running
  long_poll_round s = while_running s (world.ctx_err s.client)
