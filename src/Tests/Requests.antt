-- ===== src/Tests/Requests.antt =====
-- The request executor, the chunked upload and the read receipts at concrete inputs.
use mautrix_teams.Base.{
  ℕ, zero, suc, ◌<◌, ◌≤◌, ◌≡◌, refl, true, false, ◌&&◌, Option, none, some, List, [], ◌∷◌, arith,
  if◌then◌else◌, length, All, ltb, ◌==◌,
}
use mautrix_teams.Base.Int.{ℤ, pos}
use mautrix_teams.Base.Text.{equal_fold, Text, codes, trim_space, is_empty, cut, ◌≗◌}
use mautrix_teams.Base.Decimal.{parse_int}
use mautrix_teams.Errors.{Err, retryable, as_retryable}
use mautrix_teams.Client.{Client}
use mautrix_teams.Executor.{Limits, RequestBody, World, answered, perform, request_for_attempt}
use mautrix_teams.Executor.Retries.{IsBounded, perform-IsBounded}
use mautrix_teams.Executor.Delays.{perform-Succeeds, Succeeds, IsBusy, IsHealthy}
use mautrix_teams.Graph.{
  Put, Answer, replied, GraphClient, Ending, uploaded, upload_file_in_chunks, chunk_put,
  parse_next_expected_start, effective_chunk_size,
}
use mautrix_teams.Graph.Upload.{IsOrderly, sent_bytes, upload_file_in_chunks-Delivered}
use mautrix_teams.Receipts.{should_poll_receipts, Rows, row, Receipt, Horizon, sync_horizons}
use mautrix_teams.Receipts.Positions.{IsStore}
use mautrix_teams.Receipts.Swept.{should_poll_receipts-sweep_caches}
use mautrix_teams.Poll.Sweep.{sweep_caches}
use mautrix_teams.Base.Assoc.{lookup}
use mautrix_teams.Receipts.Round.{sync_horizons_idem}

abbrev limits : Limits
limits = record {
  max_retries = 4;
  base_backoff = pos 500_000_000;
  max_backoff = pos 10_000_000_000;
}

abbrev no_body : RequestBody
no_body = record { get_body = false; body = false }

abbrev busy : Err
busy = retryable 503 (pos 0) (codes "busy")

-- A service that answers with its status: busy once, then accepting.
abbrev busy_once : World ℕ
busy_once = record {
  ctx_err = λ n. none;
  body_err = λ n. none;
  reply = λ n. answered (if ltb n 1 then 503 else 200);
  alive = λ n. true;
  sleep_err = λ n. none;
  classify = λ status. if status == 503 then some busy else none;
  jitter = λ d. d;
}

perform-IsBounded_example :
    IsBounded busy_once.classify limits.max_retries (perform limits no_body busy_once)
perform-IsBounded_example = perform-IsBounded limits no_body busy_once

busy_once-IsHealthy : IsHealthy limits no_body busy_once
unfolding request_for_attempt
busy_once-IsHealthy = record { replayable = λ n. ground arith; ctx = λ n. refl; sleep = λ n. refl }

busy_once-IsBusy : (i : ℕ) → i < 1 → IsBusy limits no_body busy_once i
unfolding as_retryable
busy_once-IsBusy i h =
    let e : ltb i 1 ≡ true = ground arith in (503, busy, (503, pos 0), rw e refl, refl, refl)

perform-Succeeds_example :
    Succeeds limits no_body busy_once 200 2 (perform limits no_body busy_once)
perform-Succeeds_example =
    perform-Succeeds limits no_body busy_once 1 200 busy_once-IsHealthy busy_once-IsBusy refl refl
      (omega arith)

-- An upload session that keeps the number of the byte it expects, and refuses any other chunk.
abbrev range_from : ℕ → Text
range_from n = if n == 1 then codes "1-" else codes "2-"

abbrev session : ℕ → Put → Answer × ℕ
session w p =
    if p.first == w
    then (if ltb (suc p.last) p.total
        then (replied 202 (range_from (suc p.last)), suc p.last)
        else (replied 201 (codes "item"), suc p.last))
    else (replied 416 [], w)

abbrev one_range : Text → Option (List Text)
one_range body = some (body ∷ [])

abbrev content : List ℕ
content = 7 ∷ 8 ∷ 9 ∷ []

session_accepts :
    (w start e : ℕ)
    → w ≡ start
    → start ≤ e
    → suc e < 3
    → (body : Text) × (r : Text) × (rs : List Text) × ((session w (chunk_put content start e)).0
        ≡ replied 202 body)
      × (one_range body ≡ some (r ∷ rs))
      × (is_empty (trim_space r) ≡ false)
      × (parse_next_expected_start r ≡ some (suc e))
      × ((session w (chunk_put content start e)).1 ≡ suc e)
unfolding chunk_put trim_space parse_next_expected_start parse_int cut
session_accepts w start zero at le h =
    let first : start ≡ 0 = omega (arith, le) in
    rw (at, first) (codes "1-", codes "1-", [], refl, refl, refl, refl, refl)
session_accepts w start (suc zero) at le h =
    let hit : (start == w) ≡ true = ground (arith, at) in
    rw hit (codes "2-", codes "2-", [], refl, refl, refl, refl, refl)
session_accepts w start (suc (suc e)) at le h = absurd (omega (arith, h))

session-IsOrderly :
    IsOrderly session one_range (λ t. some t) (λ t. none) (λ w id. none) content (λ w. w)
unfolding chunk_put trim_space parse_next_expected_start parse_int cut
session-IsOrderly = record {
  accepts = session_accepts;
  finishes = λ w start e at le h. (
    codes "item",
    codes "item",
    (let g : e ≡ 2 = omega (arith, h) in
        let hit : (start == w) ≡ true = ground (arith, at) in rw (hit, g) refl),
    refl,
  );
}

abbrev graph : GraphClient
graph = record { has_http = true; chunk_size = pos 0 }

abbrev uploading : Ending Text × List Put
uploading =
    upload_file_in_chunks session one_range (λ t. some t) (λ t. none) (λ w id. none) 3 graph
      (codes "https://x") content 0

upload_file_in_chunks-Delivered_example :
    ((i : Text) × (uploading.0 ≡ uploaded i))
    × (sent_bytes uploading.1 ≡ content)
    × All (λ p. length p.body ≤ 5_242_880) uploading.1
unfolding trim_space effective_chunk_size
upload_file_in_chunks-Delivered_example =
    upload_file_in_chunks-Delivered session one_range (λ t. some t) (λ t. none) (λ w id. none)
      content (λ w. w) session-IsOrderly graph (codes "https://x") 0 5_242_880 refl refl refl
      (omega arith) refl (omega arith)

-- A database that is a function, with no client to notify.
abbrev Table : Type 0
Table = Text → Text → Option ℤ

abbrev select : Table → Text → Text → Rows
select s t u = row (s t u)

abbrev exec : Table → Text → Text → ℤ → Option Err × Table
exec s t u v = (none, λ t' u'. if (t ≗ t') && (u ≗ u') then some v else s t' u')

abbrev emit : Client Table → Receipt → Client Table
emit c r = c

table-IsStore : IsStore select exec emit
table-IsStore = record {
  held = λ s t u. s t u;
  reads = λ s t u. refl;
  writes = λ s t u v. refl;
  written = λ s t u v t' u'. refl;
  untouched = λ c r. refl;
}

abbrev reader : Client Table
reader = record {
  reach = record { failures = 0; down = false };
  activity_up = false;
  long_poll_up = false;
  thread_active = [];
  receipt_poll = [];
  cursors = record { queued = []; saved = [] };
  reaction_sigs = [];
  edit_times = [];
  chat_info_sigs = [];
  reaction_seen = [];
  typing_seen = [];
  name_lookup_miss = [];
  self_messages = [];
  unread_seen = [];
  known_users = [];
  sent_states = [];
  outside = λ t u. none;
}

abbrev read_by_two : List Horizon
read_by_two =
    record { id = codes "8:me"; consumption_horizon = codes "5;50;x" }
    ∷ record { id = codes "8:you"; consumption_horizon = codes "4;40;x" }
    ∷ []

sync_horizons_idem_example :
    let r =
      sync_horizons select exec emit equal_fold true reader
        (codes "19:a")
        (codes "8:me")
        read_by_two in
    (r.0 ≡ none)
    × (sync_horizons select exec emit equal_fold true r.1 (codes "19:a") (codes "8:me") read_by_two
        ≡ (none, r.1))
unfolding trim_space
sync_horizons_idem_example =
    sync_horizons_idem select exec emit table-IsStore equal_fold true reader (codes "19:a")
      (codes "8:me") read_by_two refl refl

-- A reader that has checked one thread and sent to it.
abbrev checked : Client Table
checked = record reader {
  thread_active = (codes "19:a", 7_000) ∷ [];
  receipt_poll = (codes "19:a", 9_000) ∷ [];
}

should_poll_receipts-sweep_caches_example :
    (should_poll_receipts (sweep_caches checked 400_000_000_000).0 (codes "19:a") 500_000_000_000).0
    ≡ (should_poll_receipts checked (codes "19:a") 500_000_000_000).0
unfolding lookup
should_poll_receipts-sweep_caches_example =
    should_poll_receipts-sweep_caches checked 400_000_000_000 500_000_000_000 (codes "19:a")
      (omega arith) (refl, tt) (refl, tt)
