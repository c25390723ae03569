-- ===== src/Cursor/Commit.antt =====
-- The type `cursorCommit`, one for each poll page, and `queueForCursor`.
pub mod Once
pub mod Queue
use mautrix_teams.Base.{
  ℕ, zero, suc, ◌+◌, ◌-◌, Bool, true, false, not, Option, none, some, List, [], ◌∷◌, ◌++◌, length,
  ◌==◌, if◌then◌else◌,
}

-- `pending` is an atomic int32, far from its bounds: a page has a few dozen events. The `sync.Once`
-- of each hook that `track` returned is whether it has run. `saves` counts the runs of `save`, and
-- `crashed` says that a nil `save` was called.
pub record CursorCommit : Type 0 where
  pub pending : ℕ
  pub hooks : List Bool
  pub has_save : Bool
  pub saves : ℕ
  pub crashed : Bool

unfoldable pub new_cursor_commit : CursorCommit
new_cursor_commit = record { pending = 1; hooks = []; has_save = false; saves = 0; crashed = false }

-- `done`.
unfoldable pub done : CursorCommit → CursorCommit
done cc =
    let pending = cc.pending - 1 in
    if pending == 0
    then (if cc.has_save
        then record cc { pending = pending; saves = cc.saves + 1 }
        else record cc { pending = pending; crashed = true })
    else record cc { pending = pending }

-- `track`; the hook that it returns is the last of `hooks`.
unfoldable pub track : CursorCommit → CursorCommit
track cc = record cc { pending = cc.pending + 1; hooks = cc.hooks ++ false ∷ [] }

-- The value of the hook's `sync.Once`, and the hooks with it set. A hook that there is not has run.
unfoldable pub has_run : List Bool → ℕ → Bool
has_run [] i = true
has_run (b ∷ l) zero = b
has_run (b ∷ l) (suc i) = has_run l i

unfoldable pub set_run : List Bool → ℕ → List Bool
set_run [] i = []
set_run (b ∷ l) zero = true ∷ l
set_run (b ∷ l) (suc i) = b ∷ set_run l i

-- A call of the hook number `i`.
unfoldable pub handled : CursorCommit → ℕ → CursorCommit
unfolding done has_run set_run
handled cc i = if has_run cc.hooks i then cc else done (record cc { hooks = set_run cc.hooks i })

unfoldable pub release : CursorCommit → CursorCommit
unfolding done
release cc = done (record cc { has_save = true })

-- What bridgev2 does with an event that is queued for a portal: it keeps it for later, handles it
-- at once (and calls its PostHandle hook), or refuses it.
pub data QueueResult : Type 0 where
  queued handled_now refused : QueueResult

after_queueing : CursorCommit → ℕ → QueueResult → CursorCommit
unfolding handled
after_queueing cc hook queued = cc
after_queueing cc hook handled_now = handled (handled cc hook) hook
after_queueing cc hook refused = handled cc hook

-- `queueForCursor`. The event's own hook, which runs after the commit's, only writes a log.
unfoldable pub queue_for_cursor : CursorCommit → QueueResult → CursorCommit
unfolding track after_queueing
queue_for_cursor cc result = after_queueing (track cc) (length cc.hooks) result
