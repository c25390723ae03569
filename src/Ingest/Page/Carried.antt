-- ===== src/Ingest/Page/Carried.antt =====
-- pkg/connector/message_poller.go with cursor_commit.go: a page whose cursor is not in the database yet
-- is not ingested again by the next poll.
use mautrix_teams.Base.{
  ◌≤◌, ◌≡◌, inl, inr, refl, false, Option, none, some, List, arith, ltb, max, Bool-cases, All,
}
use mautrix_teams.Base.Text.{Text, trim_space, is_empty}
use native.Mathlib.Nat.{le_trans}
use mautrix_teams.Client.{Client}
use mautrix_teams.Cursor.{
  CursorPos, newer_than, pending, note_queued, saved_seq, save_cursor, needs_save,
}
use mautrix_teams.Cursor.Commit.{new_cursor_commit, release}
use mautrix_teams.Cursor.Saved.{IsSequence, IsMark, mark, newer_than-mark}
use mautrix_teams.Cursor.Queued.{
  IsPosition, ArePositions, queued_mark, known_mark, note_queued-reaches, save_cursor-reaches,
}
use mautrix_teams.Poll.Time.{Time}
use mautrix_teams.Poll.Pass.Threads.{Thread}
use mautrix_teams.Ingest.{RemoteMessage, World, self_id}
use mautrix_teams.Ingest.Page.{
  Page, take_messages, save_page_cursor, advance_page_cursor, ingest_page, carried_on,
}
use mautrix_teams.Ingest.Page.Seen.{HasSequence, first_page, messages-Beyond, ingest_page-mark}
use mautrix_teams.Ingest.Page.Again.{furthest_message-Passed, ingest_page-Passed}

-- A poll carries on at the row's cursor or at the queued position, whichever is further.
carried_on-reaches :
    (row : Thread) (o : Option CursorPos)
    → ArePositions o
    → IsMark (trim_space row.last_sequence_id)
    → let last = trim_space (carried_on row o).last_sequence_id in
      IsMark last × (max (queued_mark o) (mark (trim_space row.last_sequence_id)) ≤ mark last)
unfolding carried_on
carried_on-reaches row none ho hr = (hr, omega arith)
carried_on-reaches row (some q) (h, trimmed) hr =
    let e = newer_than-mark q (trim_space row.last_sequence_id) h hr in
    elim (Bool-cases (newer_than q (trim_space row.last_sequence_id))) [
      | inl newer ↦ rw newer (rw trimmed (inr h, ground (arith, e, newer)))
      | inr older ↦ rw older (hr, ground (arith, e, older))
    ]

module _ {E : Type 0} (world : World E) where
  cursors-save_page :
      (c : Client E) (t : Text) (p : CursorPos)
      → (save_page_cursor world c t p).cursors
        ≡ (save_cursor c.cursors t p (world.update_cursor c.outside t p).1).0
  unfolding save_page_cursor
  cursors-save_page c t p = elim (Bool-cases (needs_save c.cursors t p)) [
    | inl e ↦ rw e refl
    | inr e ↦ rw e (unfold save_cursor in rw e refl)
  ]

  -- What a client knows of a thread once its page is queued.
  abbrev Knows : Client E → Text → Text → Type 0
  Knows c t seq = (mark seq ≤ known_mark c.cursors t) × ArePositions (pending c.cursors t)

  saved-Knows :
      (c : Client E) (t : Text) (p : CursorPos)
      → IsPosition p
      → mark p.seq ≤ queued_mark (pending c.cursors t)
      → ArePositions (pending c.cursors t)
      → Knows (save_page_cursor world c t p) t p.seq
  saved-Knows c t p hp le hq =
      let written = (world.update_cursor c.outside t p).1 in
      let (reaches, positions) = save_cursor-reaches c.cursors t p written hp hq in
      rw (cursors-save_page c t p) (le_trans le reaches, positions)

  queued-Knows :
      (c : Client E) (t : Text) (p : CursorPos)
      → mark p.seq ≤ queued_mark (pending c.cursors t)
      → ArePositions (pending c.cursors t)
      → Knows c t p.seq
  queued-Knows c t p le hq = (omega (arith, le), hq)

  advanced-Knows :
      (th : Thread) (p : Page E)
      → is_empty p.max_seq ≡ false
      → IsSequence p.max_seq
      → trim_space p.max_seq ≡ p.max_seq
      → ArePositions (pending p.client.cursors th.thread_id)
      → let (th', p') = advance_page_cursor world th p in
        Knows p'.client th.thread_id (trim_space th'.last_sequence_id)
  unfolding advance_page_cursor
  advanced-Knows th p e h trimmed hq =
      let position : CursorPos = record { seq = p.max_seq; ts = p.max_ts } in
      let c = record (p.client) { cursors = note_queued p.client.cursors th.thread_id position } in
      let (reaches, positions) =
        note_queued-reaches p.client.cursors th.thread_id position (h, trimmed) hq in
      elim (Bool-cases (ltb p.commit.saves (release p.commit).saves)) [
        | inl now_ ↦
            rw (e, now_, trimmed)
              (saved-Knows c th.thread_id position (h, trimmed) reaches positions)
        | inr later ↦
            rw (e, later, trimmed) (queued-Knows c th.thread_id position reaches positions)
      ]

  -- The page when its messages are queued, and its cursor not yet.
  abbrev pub queued_page : Client E → Thread → Time → List RemoteMessage → Page E
  queued_page c th now msgs =
      take_messages world th (trim_space th.last_sequence_id) (self_id world c) now
        (first_page world c) msgs

  ingested-Knows :
      (c : Client E) (th : Thread) (now : Time) (msgs : List RemoteMessage)
      → IsMark (trim_space th.last_sequence_id)
      → All HasSequence msgs
      → is_empty (queued_page c th now msgs).max_seq ≡ false
      → ArePositions (pending (queued_page c th now msgs).client.cursors th.thread_id)
      → let (th', p) = ingest_page world c th now msgs in
        Knows p.client th.thread_id (trim_space th'.last_sequence_id)
  unfolding ingest_page
  ingested-Knows c th now msgs hl hs e hq =
      let last = trim_space th.last_sequence_id in
      let p = queued_page c th now msgs in
      let (b, f) =
        messages-Beyond world th last (self_id world c) now msgs (first_page world c) hl (inl refl)
          hs in
      elim b [
        | inl none_ ↦ absurd (cc (rw none_ at e))
        | inr (h, trimmed, beyond) ↦ advanced-Knows th p e h trimmed hq
      ]

  -- After a page with something new, the next poll of the thread may get its row from the database
  -- with the cursor of the page, of an earlier page, or of a later one: at least what the client knows
  -- to be saved. From where that poll carries on, the same page is not ingested again: no message of
  -- it counts as ingested, no event is tied to its cursor, and the cursor stays. The messages, the
  -- rows' cursors and what is queued for the thread have decimal sequence IDs.
  pub ingest_page-carried :
      (c c' : Client E) (th row : Thread) (now now' : Time) (msgs : List RemoteMessage)
      → IsMark (trim_space th.last_sequence_id)
      → All HasSequence msgs
      → is_empty (queued_page c th now msgs).max_seq ≡ false
      → ArePositions (pending (queued_page c th now msgs).client.cursors th.thread_id)
      → IsMark (trim_space row.last_sequence_id)
      → mark (saved_seq (ingest_page world c th now msgs).1.client.cursors th.thread_id)
        ≤ mark (trim_space row.last_sequence_id)
      → let cursors = (ingest_page world c th now msgs).1.client.cursors in
        let th' = carried_on row (pending cursors th.thread_id) in
        let (th'', p) = ingest_page world c' th' now' msgs in
        (th'' ≡ th') × (p.ingested ≡ 0) × (p.commit ≡ new_cursor_commit)
  ingest_page-carried c c' th row now now' msgs hl hs e hq hr le =
      let cursors = (ingest_page world c th now msgs).1.client.cursors in
      let known : Knows (ingest_page world c th now msgs).1.client th.thread_id
          (trim_space (ingest_page world c th now msgs).0.last_sequence_id) =
        ingested-Knows c th now msgs hl hs e hq in
      let (reached, positions) = known in
      let th' = carried_on row (pending cursors th.thread_id) in
      let (hl', further) = carried_on-reaches row (pending cursors th.thread_id) positions hr in
      let (hl'', f) = ingest_page-mark world c th now msgs hl hs in
      ingest_page-Passed world c' th' now' msgs hl' hs (
        furthest_message-Passed (mark (trim_space th.last_sequence_id))
          (mark (trim_space th'.last_sequence_id)) msgs (ground (arith, f, reached, further, le)))
