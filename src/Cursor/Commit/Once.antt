-- ===== src/Cursor/Commit/Once.antt =====
-- A page's cursor is saved once, and only when all of the page has been handled.
use mautrix_teams.Base.{
  ℕ, zero, suc, ◌+◌, ◌≤◌, ◌≡◌, ◌↔◌, refl, Bool, true, false, List, [], ◌∷◌, ◌++◌, arith, ◌==◌,
  if◌then◌else◌,
}
use mautrix_teams.Cursor.Commit.{
  CursorCommit, new_cursor_commit, track, has_run, set_run, handled, release,
}

-- The hooks that have not run.
unfoldable pub open_hooks : List Bool → ℕ
open_hooks [] = 0
open_hooks (true ∷ l) = open_hooks l
open_hooks (false ∷ l) = suc (open_hooks l)

pub open_hooks-append : (l : List Bool) → open_hooks (l ++ false ∷ []) ≡ open_hooks l + 1
unfolding open_hooks
open_hooks-append [] = refl
open_hooks-append (true ∷ l) = open_hooks-append l
open_hooks-append (false ∷ l) = omega (arith, open_hooks-append l)

open_hooks-set_run :
    (l : List Bool) (i : ℕ) → has_run l i ≡ false → open_hooks l ≡ open_hooks (set_run l i) + 1
unfolding open_hooks has_run set_run
open_hooks-set_run [] i h = absurd (cc)
open_hooks-set_run (false ∷ l) zero h = omega arith
open_hooks-set_run (true ∷ l) zero h = absurd (cc)
open_hooks-set_run (true ∷ l) (suc i) h = open_hooks-set_run l i h
open_hooks-set_run (false ∷ l) (suc i) h = omega (arith, open_hooks-set_run l i h)

-- What the poll goroutine and bridgev2's event loops do with one page, in any order: events are
-- tracked and the page released by the poller, which tracks none afterwards; a hook may be called
-- at any time, and again.
pub data Step : CursorCommit → CursorCommit → Type 0 where
  queue : (cc : CursorCommit) → cc.has_save ≡ false → Step cc (track cc)
  let_go : (cc : CursorCommit) → cc.has_save ≡ false → Step cc (release cc)
  handle : (cc : CursorCommit) (i : ℕ) → Step cc (handled cc i)

pub data Reach : CursorCommit → Type 0 where
  start : Reach new_cursor_commit
  next : {cc cc' : CursorCommit} → Reach cc → Step cc cc' → Reach cc'

pub record IsCounted (cc : CursorCommit) : Type 0 where
  pub held : cc.has_save ≡ false → cc.pending ≡ open_hooks cc.hooks + 1
  pub released : cc.has_save ≡ true → cc.pending ≡ open_hooks cc.hooks
  pub not_saved : cc.has_save ≡ false → cc.saves ≡ 0
  pub saved : cc.has_save ≡ true → cc.saves ≡ (if open_hooks cc.hooks == 0 then 1 else 0)
  pub sound : cc.crashed ≡ false

Step-IsCounted : {cc cc' : CursorCommit} → Step cc cc' → IsCounted cc → IsCounted cc'
Step-IsCounted (queue cc u) c = unfold track in ground (arith, open_hooks-append cc.hooks)
Step-IsCounted (let_go cc u) c = unfold release in ground arith
Step-IsCounted (handle cc i) c = unfold handled in ground (arith, open_hooks-set_run cc.hooks i)

Reach-IsCounted : {cc : CursorCommit} → Reach cc → IsCounted cc
Reach-IsCounted start = unfold new_cursor_commit open_hooks in ground arith
Reach-IsCounted (next r s) = Step-IsCounted s (Reach-IsCounted r)

-- Whatever the order of tracking, releasing and handling, with hooks called any number of times: no
-- missing `save` is called, the cursor is saved at most once, and it has been saved exactly when
-- the page is released and every one of its events has been handled.
pub Reach-saves :
    {cc : CursorCommit}
    → Reach cc
    → (cc.crashed ≡ false)
      × (cc.saves ≤ 1)
      × ((cc.saves ≡ 1) ↔ ((cc.has_save ≡ true) × (open_hooks cc.hooks ≡ 0)))
Reach-saves r = let c = Reach-IsCounted r in ground (arith, c)
