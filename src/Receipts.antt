-- ===== src/Receipts.antt =====
-- pkg/connector/receipt_sync.go, with internal/teams/model/consumption_horizon.go and the queries of
-- pkg/teamsdb/consumption_horizon.go: reading positions of Teams as read receipts of Matrix.
-- Parameters: `select` and `exec` run the queries' SQL, `fetch` is the API's GetConsumptionHorizons.
-- `outside` of the client holds the database; `emit` is `queueRemoteEvent`.
pub mod Positions
pub mod Round
pub mod Swept
use mautrix_teams.Base.{
  Bool, true, false, not, ◌&&◌, ◌||◌, Option, none, some, List, [], ◌∷◌, ◌++◌, if◌then◌else◌,
}
use mautrix_teams.Base.Int.{ℤ, pos, leb_ℤ}
use mautrix_teams.Base.Text.{
  Text, codes, trim_space, is_empty, cut, to_lower, equal_fold, has_prefix, contains, ◌≗◌,
}
use mautrix_teams.Base.Assoc.{lookup, insert}
use mautrix_teams.Base.Decimal.{parse_int}
use mautrix_teams.Errors.{Err, other}
use mautrix_teams.Client.{Client}
use mautrix_teams.Poll.Time.{Time, is_zero, sub_lt, minute}
use mautrix_teams.Poll.Wake.{thread_is_active}
use mautrix_teams.Poll.Sweep.{receipt_idle_poll_interval}

-- `ConsumptionHorizon`: the two fields that are read.
pub record Horizon : Type 0 where
  pub id : Text
  pub consumption_horizon : Text

-- `parts[1]` of `strings.Split(horizon, ";")`.
unfoldable pub first_part : Text → Option (Text × Text) → Text
first_part s none = s
first_part s (some (before, after)) = before

unfoldable pub second_part : Option (Text × Text) → Option Text
unfolding first_part
second_part none = none
second_part (some (before, after)) = some (first_part after (cut after (codes ";")))

unfoldable pub parse_read_time : Option Text → Option ℤ
parse_read_time none = none
parse_read_time (some part) =
    if is_empty (trim_space part) then none else parse_int (trim_space part)

-- `ParseConsumptionHorizonLatestReadTS` and `ParseConsumptionHorizonMessageID`: none where they
-- return false.
unfoldable pub latest_read_ts : Text → Option ℤ
unfolding parse_read_time second_part
latest_read_ts horizon = parse_read_time (second_part (cut horizon (codes ";")))

unfoldable pub valid_message_id : Text → Option ℤ → Option Text
valid_message_id id none = none
valid_message_id id (some n) = if id ≗ codes "0" then none else some id

unfoldable pub horizon_message_id : Text → Option Text
unfolding valid_message_id first_part
horizon_message_id horizon =
    let id = trim_space (first_part horizon (cut horizon (codes ";"))) in
    valid_message_id id (parse_int id)

-- `isLikelyThreadID` of pkg/connector/id.go.
unfoldable pub is_likely_thread_id : Text → Bool
is_likely_thread_id value =
    let v = to_lower (trim_space value) in
    not (is_empty v)
    && (has_prefix v (codes "19:")
        || contains v (codes "@thread.v2")
        || contains v (codes "@thread.tacv2")
        || contains v (codes "@thread.skype")
        || contains v (codes "@unq.gbl.spaces"))

-- `remoteHorizons`: the normalized ID of every other participant, with the horizon. `folds_to` is
-- `strings.EqualFold`.
unfoldable pub is_remote : (Text → Text → Bool) → Text → Text → Text → Bool
unfolding is_likely_thread_id
is_remote folds_to self_id thread_id id =
    not (is_empty id || (id ≗ self_id) || folds_to id thread_id || is_likely_thread_id id)

unfoldable pub remote_horizons :
    (Text → Text → Bool) → List Horizon → Text → Text → List (Text × Horizon)
unfolding is_remote
remote_horizons folds_to [] self_id thread_id = []
remote_horizons folds_to (h ∷ hs) self_id thread_id =
    let rest = remote_horizons folds_to hs self_id thread_id in
    if is_remote folds_to self_id thread_id (trim_space h.id)
    then (trim_space h.id, h) ∷ rest
    else rest

-- `ownHorizon`.
unfoldable pub own_horizon : List Horizon → Text → Option Horizon
own_horizon [] self_id = none
own_horizon (h ∷ hs) self_id = if trim_space h.id ≗ self_id then some h else own_horizon hs self_id

-- The receipt that is queued: its sender, whether it is the user's own, the portal, the time, and
-- the message it stands on, if one is named.
pub record Receipt : Type 0 where
  pub sender : Text
  pub is_from_me : Bool
  pub portal : Text
  pub read_up_to : ℤ
  pub target : Option Text

pub data Rows : Type 0 where
  refused : Err → Rows
  row : Option ℤ → Rows

-- What GetConsumptionHorizons returns: an error, a nil response, or the horizons.
pub data Fetched : Type 0 where
  fetch_failed : Err → Fetched
  nothing : Fetched
  horizons : List Horizon → Fetched

-- `shouldPollReceipts`.
unfoldable pub last_check : Option Time → Time
last_check none = 0
last_check (some t) = t

module _ {E : Type 0} where
  unfoldable pub should_poll_receipts : Client E → Text → Time → Bool × Client E
  unfolding last_check
  should_poll_receipts c thread_id now =
      let interval = if thread_is_active c thread_id now then 0 else receipt_idle_poll_interval in
      let last = last_check (lookup thread_id c.receipt_poll) in
      if not (is_zero last) && sub_lt now last interval
      then (false, c)
      else (true, record c { receipt_poll = insert thread_id now c.receipt_poll })

-- The receipts that are queued, before their time is set.
unfoldable pub own_receipt : Text → Text → Receipt
own_receipt thread_id self_id = record {
  sender = trim_space self_id;
  is_from_me = true;
  portal = trim_space thread_id;
  read_up_to = pos 0;
  target = none;
}

unfoldable pub participant_receipt : Text → Text → Horizon → Receipt
participant_receipt thread_id remote_id h = record {
  sender = trim_space remote_id;
  is_from_me = false;
  portal = trim_space thread_id;
  read_up_to = pos 0;
  target = horizon_message_id h.consumption_horizon;
}

unfoldable pub is_behind : ℤ → Option ℤ → Bool
is_behind ts none = false
is_behind ts (some last) = leb_ℤ ts last

unfoldable pub later_error : Option Err → Option Err → Option Err
later_error e none = e
later_error e (some f) = some f

module _ {E : Type 0} (select : E → Text → Text → Rows)
    (exec : E → Text → Text → ℤ → Option Err × E) (emit : Client E → Receipt → Client E) where
  -- `ConsumptionHorizonQuery.Get` and `UpsertLastRead`.
  unfoldable pub get : Client E → Text → Text → Rows
  get c thread_id user_id =
      if is_empty (trim_space thread_id) || is_empty (trim_space user_id)
      then row none
      else select c.outside (trim_space thread_id) (trim_space user_id)

  unfoldable pub upsert_last_read : Client E → Text → Text → ℤ → Option Err × Client E
  upsert_last_read c thread_id user_id ts =
      if is_empty (trim_space thread_id) || is_empty (trim_space user_id)
      then (some (other (codes "missing thread id or teams user id")), c)
      else let r : Option Err × E = exec c.outside (trim_space thread_id) (trim_space user_id) ts in
        (r.0, record c { outside = r.1 })

  -- What `syncOwnHorizon` and `syncParticipantHorizon` share from the query on.
  unfoldable pub advance : Client E → Text → Text → ℤ → Receipt → Rows → Option Err × Client E
  unfolding upsert_last_read is_behind
  advance c thread_id user_id ts receipt (refused e) = (some e, c)
  advance c thread_id user_id ts receipt (row last) =
      if is_behind ts last
      then (none, c)
      else upsert_last_read (emit c receipt) thread_id user_id ts

  unfoldable pub sync_to : Client E → Text → Text → Receipt → Option ℤ → Option Err × Client E
  unfolding advance get
  sync_to c thread_id user_id receipt none = (none, c)
  sync_to c thread_id user_id receipt (some ts) =
      if leb_ℤ ts (pos 0)
      then (none, c)
      else advance c thread_id user_id ts (record receipt { read_up_to = ts })
          (get c thread_id user_id)

  -- `syncOwnHorizon`; `puppet` is whether the user has a double puppet.
  unfoldable pub sync_own_horizon :
      Bool → Client E → Text → Text → Option Horizon → Option Err × Client E
  unfolding sync_to own_receipt
  sync_own_horizon puppet c thread_id self_id none = (none, c)
  sync_own_horizon puppet c thread_id self_id (some h) =
      if not puppet
      then (none, c)
      else sync_to c thread_id self_id (own_receipt thread_id self_id)
          (latest_read_ts h.consumption_horizon)

  -- `syncParticipantHorizon`.
  unfoldable pub sync_participant_horizon : Client E → Text → Text → Horizon → Option Err × Client E
  unfolding sync_to participant_receipt
  sync_participant_horizon c thread_id remote_id h =
      if is_empty remote_id
      then (none, c)
      else sync_to c thread_id remote_id (participant_receipt thread_id remote_id h)
          (latest_read_ts h.consumption_horizon)

  -- The loop over the participants: the last error, and the client.
  unfoldable pub sync_participants :
      Option Err → Client E → Text → List (Text × Horizon) → Option Err × Client E
  unfolding sync_participant_horizon later_error
  sync_participants last_err c thread_id [] = (last_err, c)
  sync_participants last_err c thread_id ((id, h) ∷ rest) =
      let r : Option Err × Client E = sync_participant_horizon c thread_id id h in
      sync_participants (later_error last_err r.0) r.1 thread_id rest

  -- What `pollConsumptionHorizons` does with a response.
  unfoldable pub sync_horizons :
      (Text → Text → Bool) → Bool → Client E → Text → Text → List Horizon → Option Err × Client E
  unfolding sync_participants sync_own_horizon remote_horizons own_horizon
  sync_horizons folds_to puppet c thread_id self_id hs =
      let r : Option Err × Client E =
        sync_participants none c thread_id (remote_horizons folds_to hs self_id thread_id) in
      let own : Option Err × Client E =
        sync_own_horizon puppet r.1 thread_id self_id (own_horizon hs self_id) in
      (later_error r.0 own.0, own.1)

  -- `pollConsumptionHorizons`; the lookup of the horizons is `fetch`, and the client has a database.
  unfoldable pub poll_with :
      (Text → Text → Bool) → Bool → Text → Text → Fetched × Client E → Option Err × Client E
  unfolding sync_horizons
  poll_with folds_to puppet self_id thread_id (fetch_failed e, c) = (some e, c)
  poll_with folds_to puppet self_id thread_id (nothing, c) = (none, c)
  poll_with folds_to puppet self_id thread_id (horizons hs, c) =
      if is_empty (trim_space self_id)
      then (none, c)
      else sync_horizons folds_to puppet c thread_id (trim_space self_id) hs

  unfoldable pub poll_consumption_horizons :
      (Client E → Text → Fetched × Client E)
      → (Text → Text → Bool)
      → Bool
      → Text
      → Client E
      → Text
      → Time
      → Option Err × Client E
  unfolding poll_with should_poll_receipts
  poll_consumption_horizons fetch folds_to puppet self_id c raw_thread_id now =
      let thread_id = trim_space raw_thread_id in
      let asked : Bool × Client E = should_poll_receipts c thread_id now in
      if is_empty thread_id
      then (none, c)
      else if not asked.0
      then (none, asked.1)
      else poll_with folds_to puppet self_id thread_id (fetch asked.1 thread_id)
