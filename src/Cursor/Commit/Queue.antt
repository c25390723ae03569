-- ===== src/Cursor/Commit/Queue.antt =====
-- Queueing one event of a page.
use mautrix_teams.Base.{
  ◌+◌, ◌≤◌, ◌≡◌, ◌≢◌, refl, Bool, true, false, List, [], ◌∷◌, ◌++◌, arith, length, ◌⊎◌, inl, inr,
}
use mautrix_teams.Cursor.Commit.{
  CursorCommit, QueueResult, queued, handled_now, refused, track, has_run, set_run, handled,
  queue_for_cursor,
}
use mautrix_teams.Cursor.Commit.Once.{open_hooks, open_hooks-append}

has_run-length : (l : List Bool) → has_run (l ++ false ∷ []) (length l) ≡ false
unfolding has_run
has_run-length [] = refl
has_run-length (b ∷ l) = has_run-length l

set_run-length : (l : List Bool) → set_run (l ++ false ∷ []) (length l) ≡ l ++ true ∷ []
unfolding set_run
set_run-length [] = refl
set_run-length (b ∷ l) = rw (set_run-length l)

has_run_set : (l : List Bool) → has_run (l ++ true ∷ []) (length l) ≡ true
unfolding has_run
has_run_set [] = refl
has_run_set (b ∷ l) = has_run_set l

open_hooks-done : (l : List Bool) → open_hooks (l ++ true ∷ []) ≡ open_hooks l
unfolding open_hooks
open_hooks-done [] = refl
open_hooks-done (true ∷ l) = open_hooks-done l
open_hooks-done (false ∷ l) = omega (arith, open_hooks-done l)

-- The page with its newest event finished with.
abbrev settled : CursorCommit → CursorCommit
settled c = record c { hooks = c.hooks ++ true ∷ [] }

handled-track : (c : CursorCommit) → 1 ≤ c.pending → handled (track c) (length c.hooks) ≡ settled c
unfolding handled track
handled-track c h = simp (has_run-length, set_run-length) (ground arith)

handled-settled : (c : CursorCommit) → handled (settled c) (length c.hooks) ≡ settled c
unfolding handled
handled-settled c = rw (has_run_set c.hooks) refl

refused_lem :
    (c : CursorCommit) (r : QueueResult)
    → 1 ≤ c.pending
    → r ≢ queued
    → queue_for_cursor c r ≡ settled c
unfolding queue_for_cursor
refused_lem c queued h n = absurd (n refl)
refused_lem c handled_now h n = rw (handled-track c h) (handled-settled c)
refused_lem c refused h n = handled-track c h

-- While the page is held, an event that bridgev2 handles at once or refuses is finished with: the
-- count stays, no hook is left open and nothing is saved. One that bridgev2 keeps for later is
-- counted, with one open hook more.
pub queue_for_cursor_lem :
    (c : CursorCommit) (r : QueueResult)
    → 1 ≤ c.pending
    → let c' = queue_for_cursor c r in
      ((r ≡ queued)
        × (c'.pending ≡ c.pending + 1)
        × (open_hooks c'.hooks ≡ open_hooks c.hooks + 1)
        × (c'.saves ≡ c.saves))
      ⊎ ((r ≢ queued)
          × (c'.pending ≡ c.pending)
          × (open_hooks c'.hooks ≡ open_hooks c.hooks)
          × (c'.saves ≡ c.saves))
queue_for_cursor_lem c queued h =
    unfold queue_for_cursor in inl (refl, refl, open_hooks-append c.hooks, refl)
queue_for_cursor_lem c handled_now h =
    rw (refused_lem c handled_now h (λ e. cc))
      (inr ((λ e. cc), refl, open_hooks-done c.hooks, refl))
queue_for_cursor_lem c refused h =
    rw (refused_lem c refused h (λ e. cc)) (inr ((λ e. cc), refl, open_hooks-done c.hooks, refl))
