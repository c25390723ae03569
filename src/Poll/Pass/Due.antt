-- ===== src/Poll/Pass/Due.antt =====
-- A pass over the threads leaves none of them due, and wakes in time for each.
use mautrix_teams.Base.{◌≤◌, ◌<◌, ◌≡◌, ◌⊎◌, true, false, Option, none, some, List, [], ◌∷◌}
use mautrix_teams.Base.Int.{pos, ◌<ℤ◌}
use mautrix_teams.Base.Text.{Text, is_empty}
use mautrix_teams.Base.Assoc.{Assoc, lookup, insert}
use mautrix_teams.Client.{Client}
use mautrix_teams.Poll.Time.{Time, add}
use mautrix_teams.Poll.Limits.{is_thread_gone}
use mautrix_teams.Poll.Wake.{PollState, idle_cap_for}
use mautrix_teams.Poll.Pass.Threads.{PollTrigger, Thread, Pass, World, paced}

-- A thread's state is served by a pass at `now` that wakes at `wake`: the pass wakes by the time the
-- thread is next due, which is later than `now` if its delay is positive.
abbrev pub IsServed : Time → Time → PollState → Type 0
IsServed now wake ps = (wake ≤ ps.next_poll) × (pos 0 <ℤ ps.backoff.delay → now < ps.next_poll)

-- One state is paced as the other.
abbrev pub IsPacedAs : PollState → PollState → Type 0
IsPacedAs ps old =
    (ps.next_poll ≡ old.next_poll) × (ps.backoff ≡ old.backoff) × (ps.gone ≡ old.gone)

-- A thread that was not due at `now` is paced as before.
abbrev pub IsWaiting : Time → Assoc PollState → Text → PollState → Type 0
IsWaiting now states t ps =
    (old : PollState) × (lookup t states ≡ some old) × (now < old.next_poll) × IsPacedAs ps old

module _ {E : Type 0} (world : World E) (now : Time) where
  -- A poll of the thread was asked for, and its state is what follows from the answer: a thread that
  -- is gone is looked for again in six hours, and any other is paced by the messages and the error.
  abbrev pub IsPolled : Text → PollState → Type 0
  IsPolled t ps =
      (c : Client E) × (trigger : PollTrigger) × (th : Thread) × (th.thread_id ≡ t)
      × (let (c', ingested, err) = world.poll_thread c trigger th now in
          ((is_thread_gone err ≡ true)
            × (ps.gone ≡ true)
            × (ps.next_poll ≡ add now (pos 21_600_000_000_000)))
          ⊎ ((is_thread_gone err ≡ false)
              × ((old : PollState) × IsPacedAs ps
                    (paced now (idle_cap_for c' t now) old ingested err))))

  -- One turn writes the state of its own thread, and serves it unless the pass stops.
  abbrev Serves : Pass E → Text → Pass E → Type 0
  Serves p id q =
      (ps : PollState) × (q.states ≡ insert id ps p.states)
      × (q.stopped ≡ false
          → (q.next_wake ≤ p.next_wake)
            × IsServed now q.next_wake ps
            × (IsWaiting now p.states id ps ⊎ IsPolled id ps))

  -- The pass has a state for the thread, and wakes by the time that it is next due, which is later
  -- than `now` if its delay is positive. Either the thread was not due at the start, and waits as
  -- before, or it was polled.
  abbrev pub Served : Assoc PollState → Text → Pass E → Type 0
  Served states t p =
      (ps : PollState) × (lookup t p.states ≡ some ps)
      × IsServed now p.next_wake ps
      × (IsWaiting now states t ps ⊎ IsPolled t ps)

  -- A thread's state at the start is still there, or the thread has been served.
  abbrev Held : Assoc PollState → Text → Pass E → Type 0
  Held states t p = (lookup t p.states ≡ lookup t states) ⊎ Served states t p

  -- The thread that an entry of the list names.
  abbrev pub IsEntry : Text → Option Thread → Type 0
  IsEntry t none = ⊥
  IsEntry t (some th) = (is_empty th.thread_id ≡ false) × (th.thread_id ≡ t)

  abbrev pub IsListed : Text → List (Option Thread) → Type 0
  IsListed t [] = ⊥
  IsListed t (entry ∷ rest) = IsEntry t entry ⊎ IsListed t rest
