-- ===== src/Cursor/Queued.antt =====
-- pkg/connector/cursor_commit.go: how far a client knows a thread, queued or saved.
use mautrix_teams.Base.{
  ℕ, ◌≤◌, ◌≡◌, inl, inr, Bool, Option, none, some, arith, max, Bool-cases, Option-cases,
}
use mautrix_teams.Base.Text.{Text, trim_space, ≗_refl}
use mautrix_teams.Base.Assoc.{lookup, lookup-insert, lookup-delete}
use mautrix_teams.Cursor.{
  CursorPos, ThreadCursors, newer_than, pending, note_queued, note_saved, saved_seq, save_cursor,
  needs_save, keeps_previous, caught_up, seq_or_empty,
}
use mautrix_teams.Cursor.Saved.{IsSequence, mark, newer_than-mark}

-- A position whose sequence ID is decimal, with no space around it.
abbrev pub IsPosition : CursorPos → Type 0
IsPosition p = IsSequence p.seq × (trim_space p.seq ≡ p.seq)

abbrev pub ArePositions : Option CursorPos → Type 0
ArePositions none = Unit
ArePositions (some p) = IsPosition p

-- How far the client knows a thread to be queued.
abbrev pub queued_mark : Option CursorPos → ℕ
queued_mark none = 0
queued_mark (some p) = mark p.seq

-- Queueing a position leaves the thread queued as far at least.
pub note_queued-reaches :
    (tc : ThreadCursors) (t : Text) (p : CursorPos)
    → IsPosition p
    → ArePositions (pending tc t)
    → (mark p.seq ≤ queued_mark (pending (note_queued tc t p) t))
      × ArePositions (pending (note_queued tc t p) t)
unfolding note_queued pending
note_queued-reaches tc t p hp hq = elim (Option-cases (lookup t tc.queued)) [
  | inl none_ ↦
      rw none_
        (unfold keeps_previous in rw (lookup-insert t t p tc.queued, ≗_refl t) (omega arith, hp))
  | inr (q, some_) ↦
      let hq' : IsPosition q = rw some_ at hq in
      let e = newer_than-mark p q.seq hp.0 (inr hq'.0) in
      elim (Bool-cases (newer_than p q.seq)) [
        | inl newer ↦ rw some_ (
            unfold keeps_previous in
            rw newer (rw (lookup-insert t t p tc.queued, ≗_refl t) (omega arith, hp)))
        | inr older ↦
            let le : mark p.seq ≤ mark q.seq = ground (arith, e, older) in
            rw some_ (unfold keeps_previous in rw older (rw some_ (le, hq')))
      ]
]

-- How far the client knows a thread, queued or saved.
abbrev pub known_mark : ThreadCursors → Text → ℕ
known_mark tc t = max (queued_mark (pending tc t)) (mark (saved_seq tc t))

note_saved-reaches :
    (tc : ThreadCursors) (t : Text) (p : CursorPos)
    → IsPosition p
    → ArePositions (pending tc t)
    → (queued_mark (pending tc t) ≤ known_mark (note_saved tc t p) t)
      × ArePositions (pending (note_saved tc t p) t)
unfolding note_saved pending saved_seq
note_saved-reaches tc t p hp hq = elim (Option-cases (lookup t tc.queued)) [
  | inl none_ ↦ rw none_ (unfold caught_up in rw none_ (omega arith, tt))
  | inr (q, some_) ↦
      let hq' : IsPosition q = rw some_ at hq in
      let e = newer_than-mark q p.seq hq'.0 (inr hp.0) in
      elim (Bool-cases (newer_than q p.seq)) [
        | inl newer ↦ rw some_ (unfold caught_up in rw newer (rw some_ (omega arith, hq')))
        | inr older ↦
            let le : mark q.seq ≤ mark p.seq = ground (arith, e, older) in
            rw some_ (
              unfold caught_up in
              rw older (
                rw (lookup-delete t t tc.queued, lookup-insert t t p.seq tc.saved, ≗_refl t)
                  (unfold seq_or_empty in omega (arith, le), tt)))
      ]
]

-- Saving a position, or failing to, loses none of it.
pub save_cursor-reaches :
    (tc : ThreadCursors) (t : Text) (p : CursorPos) (written : Bool)
    → IsPosition p
    → ArePositions (pending tc t)
    → let tc' = (save_cursor tc t p written).0 in
      (queued_mark (pending tc t) ≤ known_mark tc' t) × ArePositions (pending tc' t)
save_cursor-reaches tc t p written hp hq = elim (Bool-cases (needs_save tc t p)) [
  | inr e ↦ unfold save_cursor in rw e (omega arith, hq)
  | inl e ↦ elim (Bool-cases written) [
    | inl w ↦ unfold save_cursor in rw (e, w) (note_saved-reaches tc t p hp hq)
    | inr w ↦ unfold save_cursor in rw (e, w) (omega arith, hq)
  ]
]
