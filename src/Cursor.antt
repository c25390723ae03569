-- ===== src/Cursor.antt =====
-- pkg/connector/cursor_commit.go: a thread's poll cursor, queued in memory and saved once bridgev2
-- has handled what the poll queued.
pub mod Commit
pub mod Saved
pub mod Queued
use mautrix_teams.Base.{
  ℕ, Bool, true, false, not, ◌&&◌, ◌||◌, Option, none, some, List, [], ◌∷◌, if◌then◌else◌,
}
use mautrix_teams.Base.Int.{ℤ}
use mautrix_teams.Base.Text.{Text, is_empty}
use mautrix_teams.Base.Assoc.{Assoc, lookup, insert, delete}
use mautrix_teams.Model.Sequence.{Comparison, less, equal, greater, compare_sequence_id}

pub record CursorPos : Type 0 where
  pub seq : Text
  pub ts : ℤ

abbrev pub is_greater : Comparison → Bool
is_greater greater = true
is_greater _ = false

unfoldable pub newer_than : CursorPos → Text → Bool
newer_than p other =
    not (is_empty p.seq) && (is_empty other || is_greater (compare_sequence_id p.seq other))

-- `queued` and `saved`; a nil map reads as an empty one.
pub record ThreadCursors : Type 0 where
  pub queued : Assoc CursorPos
  pub saved : Assoc Text

unfoldable pub pending : ThreadCursors → Text → Option CursorPos
pending tc thread_id = lookup thread_id tc.queued

keeps_previous : CursorPos → Option CursorPos → Bool
keeps_previous pos none = false
keeps_previous pos (some prev) = not (newer_than pos prev.seq)

unfoldable pub note_queued : ThreadCursors → Text → CursorPos → ThreadCursors
unfolding keeps_previous
note_queued tc thread_id pos =
    if keeps_previous pos (lookup thread_id tc.queued)
    then tc
    else record tc { queued = insert thread_id pos tc.queued }

seq_or_empty : Option Text → Text
seq_or_empty none = []
seq_or_empty (some seq) = seq

-- `tc.saved[threadID]`, which is "" where there is no entry.
unfoldable pub saved_seq : ThreadCursors → Text → Text
unfolding seq_or_empty
saved_seq tc thread_id = seq_or_empty (lookup thread_id tc.saved)

unfoldable pub needs_save : ThreadCursors → Text → CursorPos → Bool
unfolding saved_seq
needs_save tc thread_id pos = newer_than pos (saved_seq tc thread_id)

caught_up : CursorPos → Option CursorPos → Bool
caught_up pos none = false
caught_up pos (some q) = not (newer_than q pos.seq)

unfoldable pub note_saved : ThreadCursors → Text → CursorPos → ThreadCursors
unfolding caught_up
note_saved tc thread_id pos = record {
  queued =
      if caught_up pos (lookup thread_id tc.queued) then delete thread_id tc.queued else tc.queued;
  saved = insert thread_id pos.seq tc.saved;
}

unfoldable pub forget : ThreadCursors → Text → ThreadCursors
forget tc thread_id = record {
  queued = delete thread_id tc.queued;
  saved = delete thread_id tc.saved;
}

-- `saveCursor`, of a client that has its database and login. `written` says whether `UpdateCursor`
-- succeeds; the second result is the row that it wrote, if any.
unfoldable pub save_cursor :
    ThreadCursors → Text → CursorPos → Bool → ThreadCursors × Option CursorPos
unfolding note_saved
save_cursor tc thread_id pos written =
    if not (needs_save tc thread_id pos)
    then (tc, none)
    else if not written
    then (tc, none)
    else (note_saved tc thread_id pos, some pos)
