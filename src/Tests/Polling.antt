-- ===== src/Tests/Polling.antt =====
-- The poll loop, the cursor and the reachability tracker at concrete inputs.
use mautrix_teams.Base.{
  ℕ, ◌≤◌, ◌≡◌, ◌↔◌, inl, inr, refl, Bool, true, false, Option, none, some, List, [], ◌∷◌, arith,
}
use mautrix_teams.Base.Int.{eq_ℤ, pos}
use mautrix_teams.Base.Text.{◌≗◌, codes}
use mautrix_teams.Base.Assoc.{insert, lookup}
use mautrix_teams.Base.Decimal.{parse_uint}
use mautrix_teams.Errors.{Err, retryable, net, as_retryable, is_canceled, is_deadline, as_net}
use mautrix_teams.Reach.{TeamsReach, is_teams_network_error}
use mautrix_teams.Reach.Trip.{IsConsistent, reported, Alternates, reported-Alternates}
use mautrix_teams.Cursor.{CursorPos, ThreadCursors, saved_seq}
use mautrix_teams.Cursor.Saved.{mark, save_all, furthest, AllSequences, IsMark, mark-save_all}
use mautrix_teams.Cursor.Commit.{CursorCommit, new_cursor_commit, track, handled, release}
use mautrix_teams.Cursor.Commit.Once.{
  Reach, start, next, queue, let_go, handle, open_hooks, Reach-saves,
}
use mautrix_teams.Client.{Client}
use mautrix_teams.Poll.Backoff.{PollBackoff, on_failure, apply_poll_backoff}
use mautrix_teams.Poll.Backoff.Bounds.{meant_delay, delay-on_failure, delay-on_failure_wrapped}
use mautrix_teams.Poll.Backoff.Idle.{IsPaced, apply_poll_backoff-IsPaced, RetryAfterInRange}
use mautrix_teams.Poll.Limits.{teams_throttle, is_thread_gone}
use mautrix_teams.Poll.Wake.{idle_cap_for, thread_is_active, PollState, PollWakeup, apply_wakeup}
use mautrix_teams.Poll.Wake.Matched.{after_wakeup, lookup-apply_wakeup}
use mautrix_teams.Poll.Pass.Threads.{paced, Thread, World, Pass, poll_threads, throttle}

-- A page with one event that is queued, released and handled.
abbrev after_one : CursorCommit
after_one = handled (release (track new_cursor_commit)) 0

after_one-Reach : Reach after_one
unfolding track new_cursor_commit
after_one-Reach =
    next (next (next start (queue new_cursor_commit refl)) (let_go _ refl)) (handle _ 0)

Reach-saves_example :
    (after_one.crashed ≡ false)
    × (after_one.saves ≤ 1)
    × ((after_one.saves ≡ 1) ↔ ((after_one.has_save ≡ true) × (open_hooks after_one.hooks ≡ 0)))
Reach-saves_example = Reach-saves after_one-Reach

abbrev no_cursors : ThreadCursors
no_cursors = record { queued = []; saved = [] }

abbrev position_7 : CursorPos
position_7 = record { seq = codes "7"; ts = pos 7 }

abbrev position_12 : CursorPos
position_12 = record { seq = codes "12"; ts = pos 12 }

abbrev late_pages : List (CursorPos × Bool)
late_pages = (position_12, true) ∷ (position_7, true) ∷ []

late_pages-AllSequences : AllSequences late_pages
unfolding parse_uint
late_pages-AllSequences = ((12, refl), ((7, refl), tt))

no_cursors-IsMark : IsMark (saved_seq no_cursors (codes "t"))
unfolding saved_seq lookup
no_cursors-IsMark = inl refl

mark-save_all_example :
    mark (saved_seq (save_all no_cursors (codes "t") late_pages) (codes "t"))
    ≡ furthest (mark (saved_seq no_cursors (codes "t"))) late_pages
mark-save_all_example =
    mark-save_all late_pages no_cursors (codes "t") late_pages-AllSequences no_cursors-IsMark

abbrev after_4 : PollBackoff
after_4 = record { failures = 4; delay = pos 1; idle_cap = pos 0 }

delay-on_failure_example :
    ((on_failure after_4).failures ≡ 5) × ((on_failure after_4).delay ≡ pos (meant_delay 4))
delay-on_failure_example = delay-on_failure after_4 (omega arith)

abbrev after_54 : PollBackoff
after_54 = record { failures = 54; delay = pos 60_000_000_000; idle_cap = pos 0 }

delay-on_failure_wrapped_example : (on_failure after_54).delay ≡ pos 0
delay-on_failure_wrapped_example = delay-on_failure_wrapped after_54 (omega arith)

abbrev at_base : PollBackoff
at_base = record { failures = 0; delay = pos 2_000_000_000; idle_cap = pos 30_000_000_000 }

abbrev rate_limited : Err
rate_limited = retryable 429 (pos 5_000_000_000) (codes "slow down")

rate_limited-InRange : RetryAfterInRange rate_limited
unfolding as_retryable
rate_limited-InRange s d h = ground (arith, h)

at_base-IsPaced : IsPaced at_base
at_base-IsPaced = record {
  positive = omega arith;
  bounded = omega arith;
  cap_bounded = omega arith;
}

apply_poll_backoff-IsPaced_example :
    IsPaced (apply_poll_backoff at_base 2 none).0
    × IsPaced (apply_poll_backoff at_base 2 (some rate_limited)).0
apply_poll_backoff-IsPaced_example =
    apply_poll_backoff-IsPaced at_base 2 rate_limited (omega arith) rate_limited-InRange
      at_base-IsPaced

abbrev idle_client : Client ℕ
idle_client = record {
  reach = record { failures = 0; down = false };
  activity_up = false;
  long_poll_up = false;
  thread_active = [];
  receipt_poll = [];
  cursors = no_cursors;
  reaction_sigs = [];
  edit_times = [];
  chat_info_sigs = [];
  reaction_seen = [];
  typing_seen = [];
  name_lookup_miss = [];
  self_messages = [];
  unread_seen = [];
  known_users = [];
  sent_states = [];
  outside = 0;
}

abbrev waiting : PollState
waiting = record {
  backoff = at_base;
  next_poll = 900;
  conversation = codes "19:a";
  gone = false;
  noticed_at = 0;
  noticed_by = [];
}

abbrev sent_wakeup : PollWakeup
sent_wakeup = record { thread_id = codes "a"; receipts = true; at = 500; source = codes "send" }

lookup-apply_wakeup_example :
    lookup (codes "a") (apply_wakeup sent_wakeup idle_client ((codes "a", waiting) ∷ [])).1
    ≡ after_wakeup sent_wakeup (codes "a") (lookup (codes "a") ((codes "a", waiting) ∷ []))
lookup-apply_wakeup_example =
    lookup-apply_wakeup sent_wakeup idle_client ((codes "a", waiting) ∷ []) (codes "a")

abbrev quiet_world : World ℕ
quiet_world = record {
  refresh_threads = λ c. (c, none);
  sync_teams = λ c. c;
  ensure_valid_skype_token = λ c. (c, none);
  report_token_error = λ c e. c;
  list_recent = λ c. (c, inr []);
  list_threads = λ c. inr [];
  poll_thread = λ c trigger th now. (c, 0, none);
}

abbrev first_pass : Pass ℕ
first_pass = record {
  client = idle_client;
  states = [];
  sched = record {
    next_discovery = 0;
    last_discovery = 0;
    next_team_sync = 0;
    next_activity = 0;
    activity_failures = 0;
    next_sweep = 0;
    next_stats = 0;
    throttled_until = 0;
    last_seen = [];
  };
  next_wake = 6_000_000_000;
  stopped = false;
  polled = [];
}

abbrev one_thread : List (Option Thread)
one_thread =
    some (record {
      thread_id = codes "a";
      conversation = codes "19:a";
      last_sequence_id = [];
      last_message_ts = pos 0;
    })
    ∷ []

-- The thread's state after the pass: an idle poll, from the delay of two seconds.
abbrev polled_once : PollState
polled_once = record {
  backoff = record { failures = 0; delay = pos 4_000_000_000; idle_cap = pos 30_000_000_000 };
  next_poll = 5_000_000_000;
  conversation = codes "19:a";
  gone = false;
  noticed_at = 0;
  noticed_by = [];
}

abbrev after_first_pass : Pass ℕ
after_first_pass = poll_threads quiet_world 1_000_000_000 first_pass one_thread

polled_once-found : lookup (codes "a") after_first_pass.states ≡ some polled_once
unfolding poll_threads lookup throttle teams_throttle is_thread_gone insert ◌≗◌ paced
    apply_poll_backoff eq_ℤ idle_cap_for thread_is_active
polled_once-found = refl

abbrev fresh : TeamsReach
fresh = record { failures = 0; down = false }

abbrev no_answer : Err
no_answer = net true (codes "i/o timeout")

abbrev outage : List (Option Err)
outage = some no_answer ∷ some no_answer ∷ some no_answer ∷ none ∷ []

reported-Alternates_example : Alternates fresh.down (reported fresh outage)
reported-Alternates_example = reported-Alternates fresh outage

fresh-IsConsistent : IsConsistent fresh
fresh-IsConsistent = record { tripped = λ h. ground (arith, h); untripped = λ h. omega arith }

no_answer-counts :
    (is_canceled no_answer ≡ false) × (is_teams_network_error (some no_answer) ≡ true)
unfolding is_canceled is_teams_network_error is_deadline as_net
no_answer-counts = (refl, refl)
