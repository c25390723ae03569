-- ===== src/Poll/Pass.antt =====
-- `pollPass`, `runActivityCheck` and the rounds of `pollDueThreads` of
-- pkg/connector/message_poller.go.
pub mod Threads
pub mod Due
use mautrix_teams.Base.{
  ℕ, suc, ◌+◌, ◌-◌, Bool, true, false, not, ◌&&◌, ◌||◌, Option, none, some, List, [], ◌∷◌, ◌⊎◌, inl,
  inr, max, if◌then◌else◌,
}
use mautrix_teams.Base.Int.{ℤ, pos}
use mautrix_teams.Base.Text.{Text}
use mautrix_teams.Base.Assoc.{Assoc}
use mautrix_teams.Errors.{Err}
use mautrix_teams.Client.{Client}
use mautrix_teams.Poll.Time.{Time, is_zero, before, add, sub_ge, hour}
use mautrix_teams.Poll.Limits.{activity_retry_delay, discovery_interval}
use mautrix_teams.Poll.Wake.{PollState, PollWakeup, apply_wakeup}
use mautrix_teams.Poll.Activity.{
  RecentConversation, Activity, check_activity, check_activity_failed,
}
use mautrix_teams.Poll.Sweep.{sweep_caches, forget_removed_threads}
use mautrix_teams.Poll.Pass.Threads.{
  Thread, PollSchedule, Pass, World, throttle, poll_threads, listed_ids, earlier,
}

abbrev pub poll_loop_max_sleep : ℤ
poll_loop_max_sleep = pos 5_000_000_000

abbrev pub poll_loop_min_sleep : ℕ
poll_loop_min_sleep = 100_000_000

abbrev pub team_sync_interval : ℤ
team_sync_interval = pos 3_600_000_000_000

abbrev pub cache_sweep_interval : ℤ
cache_sweep_interval = pos 600_000_000_000

abbrev pub discovery_min_gap : ℕ
discovery_min_gap = 30_000_000_000

-- `requestStatsInterval` of pkg/connector/request_stats.go.
abbrev pub request_stats_interval : ℤ
request_stats_interval = pos 3_600_000_000_000

module _ {E : Type 0} (world : World E) (now : Time) where
  -- Discovery, where it is due.
  unfoldable pub run_discovery : Pass E → Pass E
  run_discovery p =
      if is_zero p.sched.next_discovery || not (before now p.sched.next_discovery)
      then (let (c, err) = world.refresh_threads p.client in
          let (sched, throttled) = throttle p.sched err now in
          record p {
            client = c;
            sched = record sched {
              last_discovery = now;
              next_discovery = add now (discovery_interval c.activity_up c.long_poll_up);
            };
          })
      else p

  unfoldable pub run_team_sync : Pass E → Pass E
  run_team_sync p =
      if not (before now p.sched.next_team_sync)
      then record p {
        client = world.sync_teams p.client;
        sched = record (p.sched) { next_team_sync = add now team_sync_interval };
      }
      else p

  -- The end of `runActivityCheck`: the failures in a row, and when to check next.
  unfoldable pub activity_outcome : PollSchedule → Option Err → PollSchedule
  activity_outcome s none = record s {
    activity_failures = 0;
    next_activity = add now (activity_retry_delay 0);
  }
  activity_outcome s (some err) =
      let (t, throttled) = throttle s (some err) now in
      record t {
        activity_failures = s.activity_failures + 1;
        next_activity = add now (activity_retry_delay (s.activity_failures + 1));
      }

  -- The check of the recent conversations, on the answer of Teams.
  unfoldable pub activity_answer : Pass E → Client E → Err ⊎ List RecentConversation → Pass E
  unfolding activity_outcome
  activity_answer p c (inl err) = record p {
    client = check_activity_failed c err;
    sched = activity_outcome p.sched (some err);
  }
  activity_answer p c (inr convs) =
      let a = check_activity c p.states p.sched.last_seen convs in
      let due = a.unknown && sub_ge now p.sched.last_discovery discovery_min_gap in
      let sched = record (p.sched) {
        last_seen = a.last_seen;
        next_discovery = if due then now else p.sched.next_discovery;
      } in
      record p { client = a.client; states = a.states; sched = activity_outcome sched none }

  -- `runActivityCheck`, behind the token's result.
  unfoldable pub activity_with_token : Pass E → Client E → Option Err → Pass E
  unfolding activity_answer
  activity_with_token p c (some err) = record p {
    client = world.report_token_error c err;
    sched = activity_outcome p.sched (some err);
  }
  activity_with_token p c none =
      let (c', answer) = world.list_recent c in activity_answer p c' answer

  unfoldable pub run_activity_check : Pass E → Pass E
  unfolding activity_with_token
  run_activity_check p =
      let (c, err) = world.ensure_valid_skype_token p.client in activity_with_token p c err

  unfoldable pub run_due_activity_check : Pass E → Pass E
  unfolding run_activity_check
  run_due_activity_check p =
      if not (before now p.sched.next_activity) then run_activity_check p else p

  -- When to wake if no thread is due before.
  unfoldable pub first_wake : PollSchedule → Time
  first_wake s = earlier s.next_discovery (earlier s.next_activity (add now poll_loop_max_sleep))

  unfoldable pub run_sweep : Pass E → Pass E
  run_sweep p =
      if not (before now p.sched.next_sweep)
      then record p {
        client = (sweep_caches p.client now).0;
        sched = record (p.sched) { next_sweep = add now cache_sweep_interval };
      }
      else p

  -- The hour's tally of requests is a log; its time is kept here.
  unfoldable pub run_stats : Pass E → Pass E
  run_stats p =
      if is_zero p.sched.next_stats || not (before now p.sched.next_stats)
      then record p { sched = record (p.sched) { next_stats = add now request_stats_interval } }
      else p

  -- The threads, on the answer of the database; `inl` is the error that the pass returns.
  unfoldable pub with_threads : Pass E → Err ⊎ List (Option Thread) → Err ⊎ Pass E
  with_threads p (inl err) = inl err
  with_threads p (inr threads) =
      let (c, states) = forget_removed_threads p.client p.states (listed_ids threads) in
      inr (poll_threads world now (record p { client = c; states = states }) threads)

  -- What is due besides the threads.
  unfoldable pub prepare : Pass E → Pass E
  unfolding run_discovery run_team_sync run_due_activity_check
  prepare p = run_due_activity_check (run_team_sync (run_discovery p))

  unfoldable pub poll_rest : Pass E → Err ⊎ Pass E
  unfolding first_wake run_sweep run_stats with_threads
  poll_rest p =
      let q = run_stats (run_sweep (record p { next_wake = first_wake p.sched })) in
      with_threads q (world.list_threads q.client)

  -- `pollPass`.
  unfoldable pub poll_pass : Client E → Assoc PollState → PollSchedule → Err ⊎ Pass E
  unfolding prepare poll_rest
  poll_pass client states sched =
      let p = prepare (record {
        client = client;
        states = states;
        sched = sched;
        next_wake = now;
        stopped = false;
        polled = [];
      }) in
      if before now p.sched.throttled_until
      then inr (record p { next_wake = p.sched.throttled_until; stopped = true })
      else poll_rest p

-- What the loop of `pollDueThreads` sleeps for, at a time that may be past the wake time.
unfoldable pub sleep_for : Time → Time → ℕ
sleep_for now next_wake = max (next_wake - now) poll_loop_min_sleep

module _ {E : Type 0} where
  -- The wakeups taken from the queue at the end of a round of `pollDueThreads`, all that wait.
  unfoldable pub drain : List PollWakeup → Client E → Assoc PollState → Client E × Assoc PollState
  drain [] c states = (c, states)
  drain (w ∷ queue) c states =
      let (c', states', matched) = apply_wakeup w c states in drain queue c' states'

  -- A round of the loop: a pass, unless polling is paused, and when it goes to sleep until.
  unfoldable pub poll_round :
      World E → Time → Client E → Assoc PollState → PollSchedule → Err ⊎ Pass E
  poll_round world now client states sched =
      if not (before now sched.throttled_until)
      then poll_pass world now client states sched
      else inr (record {
        client = client;
        states = states;
        sched = sched;
        next_wake = sched.throttled_until;
        stopped = true;
        polled = [];
      })
