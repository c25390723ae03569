-- ===== src/Cursor/Saved.antt =====
-- The saved cursor only moves forward.
use mautrix_teams.Base.{
  ℕ, suc, ◌≡◌, ◌⊎◌, inl, inr, refl, ap, ◌∙◌, Bool, true, false, ◌&&◌, List, [], ◌∷◌, Option, none,
  some, arith, ltb, max, if◌then◌else◌, Bool-cases,
}
use mautrix_teams.Base.Text.{Text, is_empty, ≗_refl}
use mautrix_teams.Base.Assoc.{lookup-insert}
use mautrix_teams.Base.Decimal.{parse_uint}
use mautrix_teams.Model.Sequence.{compare_sequence_id}
use mautrix_teams.Cursor.{
  CursorPos, ThreadCursors, newer_than, saved_seq, save_cursor, note_saved, needs_save,
}

-- A decimal ID, as Teams sends them.
abbrev pub IsSequence : Text → Type 0
IsSequence s = (n : ℕ) × (parse_uint s ≡ some n)

abbrev mark_of : Option ℕ → ℕ
mark_of none = 0
mark_of (some n) = suc n

-- Where a position stands: no position is 0, and a decimal ID is one more than its value.
unfoldable pub mark : Text → ℕ
mark s = mark_of (parse_uint s)

nonempty : (s : Text) (n : ℕ) → parse_uint s ≡ some n → is_empty s ≡ false
unfolding parse_uint
nonempty [] n h = absurd (cc)
nonempty (c ∷ s) n h = refl

pub newer_than-mark :
    (p : CursorPos) (other : Text)
    → IsSequence p.seq
    → (other ≡ []) ⊎ IsSequence other
    → newer_than p other ≡ ltb (mark other) (mark p.seq)
unfolding newer_than mark compare_sequence_id
newer_than-mark p other (m, hp) (inl e) =
    rw (nonempty p.seq m hp, hp, e) (unfold parse_uint in ground arith)
newer_than-mark p other (m, hp) (inr (n, ho)) =
    rw (nonempty p.seq m hp, nonempty other n ho, hp, ho) (ground arith)

saved_seq-note_saved :
    (tc : ThreadCursors) (t : Text) (pos : CursorPos) → saved_seq (note_saved tc t pos) t ≡ pos.seq
unfolding saved_seq note_saved
saved_seq-note_saved tc t pos = simp (lookup-insert, ≗_refl)

-- Only a newer position is saved, and only where its row is written; it is what is saved then.
pub saved_seq-save_cursor :
    (tc : ThreadCursors) (t : Text) (pos : CursorPos) (written : Bool)
    → saved_seq (save_cursor tc t pos written).0 t
      ≡ (if written && needs_save tc t pos then pos.seq else saved_seq tc t)
saved_seq-save_cursor tc t pos true = elim (Bool-cases (needs_save tc t pos)) [
  | inl e ↦ unfold save_cursor in rw e (saved_seq-note_saved tc t pos)
  | inr e ↦ unfold save_cursor in rw e refl
]
saved_seq-save_cursor tc t pos false = elim (Bool-cases (needs_save tc t pos)) [
  | inl e ↦ unfold save_cursor in rw e refl
  | inr e ↦ unfold save_cursor in rw e refl
]

-- The pages of one thread whose handling ends, in that order, with whether each write succeeds.
unfoldable pub save_all : ThreadCursors → Text → List (CursorPos × Bool) → ThreadCursors
save_all tc t [] = tc
save_all tc t ((pos, written) ∷ rest) = save_all (save_cursor tc t pos written).0 t rest

-- The furthest of a mark and of the positions that are written.
unfoldable pub furthest : ℕ → List (CursorPos × Bool) → ℕ
furthest m [] = m
furthest m ((pos, written) ∷ rest) = furthest (if written then max m (mark pos.seq) else m) rest

abbrev pub AllSequences : List (CursorPos × Bool) → Type 0
AllSequences [] = Unit
AllSequences ((pos, written) ∷ rest) = IsSequence pos.seq × AllSequences rest

-- What is saved for a thread is nothing yet, or a decimal ID.
abbrev pub IsMark : Text → Type 0
IsMark s = (s ≡ []) ⊎ IsSequence s

needs_save-mark :
    (tc : ThreadCursors) (t : Text) (pos : CursorPos)
    → IsSequence pos.seq
    → IsMark (saved_seq tc t)
    → needs_save tc t pos ≡ ltb (mark (saved_seq tc t)) (mark pos.seq)
needs_save-mark tc t pos hp hm = unfold needs_save in newer_than-mark pos (saved_seq tc t) hp hm

mark-save_cursor :
    (tc : ThreadCursors) (t : Text) (pos : CursorPos) (written : Bool)
    → IsSequence pos.seq
    → IsMark (saved_seq tc t)
    → IsMark (saved_seq (save_cursor tc t pos written).0 t)
      × (mark (saved_seq (save_cursor tc t pos written).0 t)
          ≡ (if written then max (mark (saved_seq tc t)) (mark pos.seq) else mark (saved_seq tc t)))
mark-save_cursor tc t pos false hp hm = rw (saved_seq-save_cursor tc t pos false) (hm, refl)
mark-save_cursor tc t pos true hp hm =
    elim (Bool-cases (ltb (mark (saved_seq tc t)) (mark pos.seq))) [
      | inl lt ↦
          rw (saved_seq-save_cursor tc t pos true, needs_save-mark tc t pos hp hm, lt)
            (inr hp, ground (arith, lt))
      | inr ge ↦
          rw (saved_seq-save_cursor tc t pos true, needs_save-mark tc t pos hp hm, ge)
            (hm, ground (arith, ge))
    ]

-- Pages of a thread whose handling ends in any order, each write failing or not, leave the cursor at
-- the furthest position written: it never moves back, and a late page does not undo a newer one.
pub mark-save_all :
    (writes : List (CursorPos × Bool)) (tc : ThreadCursors) (t : Text)
    → AllSequences writes
    → IsMark (saved_seq tc t)
    → mark (saved_seq (save_all tc t writes) t) ≡ furthest (mark (saved_seq tc t)) writes
unfolding save_all furthest
mark-save_all [] tc t hw hm = refl
mark-save_all ((pos, written) ∷ rest) tc t (hp, hw) hm =
    let (hm', e) = mark-save_cursor tc t pos written hp hm in
    mark-save_all rest (save_cursor tc t pos written).0 t hw hm' ∙ ap (λ m. furthest m rest) e
