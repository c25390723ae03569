-- ===== src/Poll/Pass/Threads.antt =====
-- The part of `pollPass` that goes through the threads, with the state that a pass works on.
use mautrix_teams.Base.{
  ℕ, Bool, true, false, ◌&&◌, Option, none, some, List, [], ◌∷◌, ◌⊎◌, if◌then◌else◌,
}
use mautrix_teams.Base.Int.{ℤ, pos, eq_ℤ}
use mautrix_teams.Base.Text.{Text, codes, is_empty}
use mautrix_teams.Base.Assoc.{Assoc, lookup, insert}
use mautrix_teams.Errors.{Err}
use mautrix_teams.Client.{Client}
use mautrix_teams.Poll.Time.{Time, is_zero, before, add}
use mautrix_teams.Poll.Backoff.{Reason, idle, poll_base_delay, apply_poll_backoff}
use mautrix_teams.Poll.Limits.{teams_throttle, is_thread_gone}
use mautrix_teams.Poll.Wake.{PollState, poll_backstop_idle_cap, idle_cap_for}
use mautrix_teams.Poll.Activity.{RecentConversation}

-- The fields of `teamsdb.ThreadState` that the loop and a poll read.
pub record Thread : Type 0 where
  pub thread_id : Text
  pub conversation : Text
  pub last_sequence_id : Text
  pub last_message_ts : ℤ

pub record PollSchedule : Type 0 where
  pub next_discovery : Time
  pub last_discovery : Time
  pub next_team_sync : Time
  pub next_activity : Time
  pub activity_failures : ℕ
  pub next_sweep : Time
  pub next_stats : Time
  pub throttled_until : Time
  pub last_seen : Assoc Text

-- `throttle`; the log is left out.
unfoldable pub throttle_for : PollSchedule → Option ℤ → Time → PollSchedule × Bool
throttle_for s none now = (s, false)
throttle_for s (some d) now =
    let until = add now d in
    (if before s.throttled_until until then record s { throttled_until = until } else s, true)

unfoldable pub throttle : PollSchedule → Option Err → Time → PollSchedule × Bool
unfolding throttle_for
throttle s err now = throttle_for s (teams_throttle err) now

-- `pollTrigger`, without the time that the fetch sets.
pub record PollTrigger : Type 0 where
  pub noticed : Time
  pub by : Text

-- What `pollPass` calls, as functions on the client: discovery, the team syncs, the token, the
-- list of recent conversations, the thread list of the database, and `pollThread`, which returns the
-- number of messages ingested.
pub record World (E : Type 0) : Type 0 where
  pub refresh_threads : Client E → Client E × Option Err
  pub sync_teams : Client E → Client E
  pub ensure_valid_skype_token : Client E → Client E × Option Err
  pub report_token_error : Client E → Err → Client E
  pub list_recent : Client E → Client E × (Err ⊎ List RecentConversation)
  pub list_threads : Client E → Err ⊎ List (Option Thread)
  pub poll_thread : Client E → PollTrigger → Thread → Time → Client E × ℕ × Option Err

-- What a pass carries: the client, the threads' states, the schedule and when to wake next.
-- `stopped` is set by a return from the middle of the loop, and `polled` lists the threads polled.
pub record Pass (E : Type 0) : Type 0 where
  pub client : Client E
  pub states : Assoc PollState
  pub sched : PollSchedule
  pub next_wake : Time
  pub stopped : Bool
  pub polled : List Text

abbrev pub gone_thread_recheck : ℤ
gone_thread_recheck = pos 21_600_000_000_000

abbrev pub earlier : Time → Time → Time
earlier t wake = if before t wake then t else wake

-- A state for a thread that the poller does not know yet.
unfoldable pub state_or_new : Time → Option PollState → PollState
state_or_new now none = record {
  backoff = record { failures = 0; delay = poll_base_delay; idle_cap = pos 0 };
  next_poll = now;
  conversation = [];
  gone = false;
  noticed_at = 0;
  noticed_by = [];
}
state_or_new now (some ps) = ps

unfoldable pub trigger_of : Time → PollState → PollTrigger
trigger_of now ps =
    if is_zero ps.noticed_at
    then record { noticed = now; by = codes "schedule" }
    else record { noticed = ps.noticed_at; by = ps.noticed_by }

is_idle : Reason → Bool
is_idle idle = true
is_idle _ = false

-- The state of a thread after a poll that was neither throttled nor answered "gone".
unfoldable pub paced : Time → ℤ → PollState → ℕ → Option Err → PollState
unfolding is_idle
paced now idle_cap ps ingested err =
    let (backoff, reason) =
      apply_poll_backoff (record (ps.backoff) { idle_cap = idle_cap }) ingested err in
    let watched = is_idle reason && eq_ℤ idle_cap poll_backstop_idle_cap in
    let delay = if watched then poll_backstop_idle_cap else backoff.delay in
    record ps {
      backoff = record backoff { delay = delay };
      gone = false;
      next_poll = add now delay;
    }

module _ {E : Type 0} (world : World E) (now : Time) where
  -- What follows a poll of a thread that was due.
  unfoldable pub after_poll : Pass E → Text → PollState → Client E → ℕ → Option Err → Pass E
  after_poll p id ps c ingested err =
      let (sched, throttled) = throttle p.sched err now in
      let q = record p { client = c; sched = sched; polled = id ∷ p.polled } in
      let rest = paced now (idle_cap_for c id now) ps ingested err in
      if throttled
      then record q {
        states = insert id ps p.states;
        next_wake = sched.throttled_until;
        stopped = true;
      }
      else if is_thread_gone err
      then record q {
        states =
            insert id (record ps { gone = true; next_poll = add now gone_thread_recheck }) p.states;
      }
      else record q {
        states = insert id rest p.states;
        next_wake = earlier rest.next_poll p.next_wake;
      }

  -- The loop body for a thread that is due.
  unfoldable pub poll_due : Pass E → Thread → PollState → Pass E
  unfolding after_poll trigger_of
  poll_due p th ps =
      let trigger = trigger_of now ps in
      let ps' = record ps { noticed_at = 0; noticed_by = [] } in
      let (c, ingested, err) = world.poll_thread p.client trigger th now in
      after_poll p th.thread_id ps' c ingested err

  -- The loop body for a thread with an ID.
  unfoldable pub visit : Pass E → Thread → Pass E
  unfolding poll_due state_or_new
  visit p th =
      let ps = record (state_or_new now (lookup th.thread_id p.states)) {
        conversation = th.conversation;
      } in
      if before now ps.next_poll
      then record p {
        states = insert th.thread_id ps p.states;
        next_wake = earlier ps.next_poll p.next_wake;
      }
      else poll_due p th ps

  unfoldable pub visit_entry : Pass E → Option Thread → Pass E
  unfolding visit
  visit_entry p none = p
  visit_entry p (some th) = if is_empty th.thread_id then p else visit p th

  -- The loop over the threads; it returns from the middle where a poll is throttled.
  unfoldable pub poll_threads : Pass E → List (Option Thread) → Pass E
  unfolding visit_entry
  poll_threads p [] = p
  poll_threads p (entry ∷ rest) =
      let q = visit_entry p entry in let r = poll_threads q rest in if q.stopped then q else r

-- `listed`: the thread IDs of the list, as keys.
unfoldable pub listed_ids : List (Option Thread) → Assoc Text
listed_ids [] = []
listed_ids (none ∷ rest) = listed_ids rest
listed_ids (some th ∷ rest) =
    let ids = listed_ids rest in
    if is_empty th.thread_id then ids else (th.thread_id, th.thread_id) ∷ ids
