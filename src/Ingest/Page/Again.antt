-- ===== src/Ingest/Page/Again.antt =====
-- pkg/connector/message_poller.go: a page that comes again is not ingested again.
use mautrix_teams.Base.{
  ℕ, ◌≤◌, ◌≡◌, ◌⊎◌, inl, inr, refl, ◌∙◌, ap, true, false, List, [], ◌∷◌, arith, max, if◌then◌else◌,
  Bool-cases, All,
}
use mautrix_teams.Base.Text.{Text, trim_space, is_empty}
use native.Mathlib.Nat.{le_trans}
use mautrix_teams.Client.{Client}
use mautrix_teams.Cursor.Commit.{new_cursor_commit}
use mautrix_teams.Cursor.Saved.{IsMark, mark}
use mautrix_teams.Poll.Time.{Time}
use mautrix_teams.Poll.Pass.Threads.{Thread}
use mautrix_teams.Ingest.{RemoteMessage, World, is_seen, self_id}
use mautrix_teams.Ingest.Typing.{is_typing_control}
use mautrix_teams.Ingest.Page.{Page, take_message, take_messages, advance_page_cursor, ingest_page}
use mautrix_teams.Ingest.Page.Seen.{
  HasSequence, is_message, furthest_message, is_seen-mark, first_page, ingest_page-mark,
}

-- A message that counts for nothing, or that a cursor has passed.
abbrev pub Passed : ℕ → RemoteMessage → Type 0
Passed m msg = (is_message msg ≡ false) ⊎ (mark (trim_space msg.sequence_id) ≤ m)

le-furthest_message : (m : ℕ) (msgs : List RemoteMessage) → m ≤ furthest_message m msgs
unfolding furthest_message
le-furthest_message m [] = omega arith
le-furthest_message m (msg ∷ rest) = ground (
  arith,
  le-furthest_message (max m (mark (trim_space msg.sequence_id))) rest,
  le-furthest_message m rest,
)

pub furthest_message-Passed :
    (m top : ℕ) (msgs : List RemoteMessage) → furthest_message m msgs ≤ top → All (Passed top) msgs
unfolding furthest_message
furthest_message-Passed m top [] h = tt
furthest_message-Passed m top (msg ∷ rest) h =
    let next = if is_message msg then max m (mark (trim_space msg.sequence_id)) else m in
    let le : next ≤ top = le_trans (le-furthest_message next rest) h in
    let here : Passed top msg = elim (Bool-cases (is_message msg)) [
      | inl e ↦ inr (ground (arith, e, le))
      | inr e ↦ inl e
    ] in
    (here, furthest_message-Passed next top rest h)

module _ {E : Type 0} (world : World E) (th : Thread) (last own : Text) (now : Time) where
  abbrev with_client : Page E → Client E → Page E
  with_client p c = record p { client = c }

  -- What leaves a page as it is, but for its client.
  abbrev Rests : Page E → Page E → Type 0
  Rests p q = q ≡ with_client p q.client

  message-Rests :
      (p : Page E) (msg : RemoteMessage)
      → IsMark last
      → HasSequence msg
      → Passed (mark last) msg
      → Rests p (take_message world th last own now p msg)
  unfolding take_message
  message-Rests p msg hl h passed =
      let s = trim_space msg.sequence_id in
      elim (Bool-cases (is_empty (trim_space msg.message_id))) [
        | inl e ↦ rw e refl
        | inr e ↦ elim (Bool-cases (is_typing_control msg.message_type)) [
          | inl t ↦ rw (e, t) refl
          | inr t ↦
              let le : mark s ≤ mark last = elim passed [
                | inl none_ ↦ absurd (cc (rw (e, t) at none_))
                | inr le ↦ le
              ] in
              let seen : is_seen last msg ≡ true =
                rw (is_seen-mark last msg hl h) (ground (arith, le)) in
              rw (e, t, seen) refl
        ]
      ]

  messages-Rests :
      (msgs : List RemoteMessage) (p : Page E)
      → IsMark last
      → All HasSequence msgs
      → All (Passed (mark last)) msgs
      → Rests p (take_messages world th last own now p msgs)
  unfolding take_messages
  messages-Rests [] p hl hs passed = refl
  messages-Rests (msg ∷ rest) p hl (h, hs) (here, passed) =
      let q = take_message world th last own now p msg in
      messages-Rests rest q hl hs passed
      ∙ ap (λ r. with_client r (take_messages world th last own now q rest).client)
          (message-Rests p msg hl h here)

module _ {E : Type 0} (world : World E) where
  -- A page that the cursor has passed brings nothing new.
  pub ingest_page-Passed :
      (c : Client E) (th : Thread) (now : Time) (msgs : List RemoteMessage)
      → IsMark (trim_space th.last_sequence_id)
      → All HasSequence msgs
      → All (Passed (mark (trim_space th.last_sequence_id))) msgs
      → let (th', p) = ingest_page world c th now msgs in
        (th' ≡ th) × (p.ingested ≡ 0) × (p.commit ≡ new_cursor_commit)
  unfolding ingest_page advance_page_cursor
  ingest_page-Passed c th now msgs hl hs passed =
      let last = trim_space th.last_sequence_id in
      let own = self_id world c in
      let e = messages-Rests world th last own now msgs (first_page world c) hl hs passed in
      rw e (refl, refl, refl)

  -- Where the cursor and the messages have decimal sequence IDs, a page that comes again, whatever
  -- happened to the client in between, is not ingested again: from the thread as the first page left
  -- it, no message of the page counts as ingested, no event is tied to the page's cursor, and the
  -- cursor stays.
  pub ingest_page-again :
      (c c' : Client E) (th : Thread) (now now' : Time) (msgs : List RemoteMessage)
      → IsMark (trim_space th.last_sequence_id)
      → All HasSequence msgs
      → let th' = (ingest_page world c th now msgs).0 in
        let (th'', p) = ingest_page world c' th' now' msgs in
        (th'' ≡ th') × (p.ingested ≡ 0) × (p.commit ≡ new_cursor_commit)
  ingest_page-again c c' th now now' msgs hl hs =
      let th' = (ingest_page world c th now msgs).0 in
      let (hl', e) = ingest_page-mark world c th now msgs hl hs in
      ingest_page-Passed c' th' now' msgs hl' hs (
        furthest_message-Passed (mark (trim_space th.last_sequence_id))
          (mark (trim_space th'.last_sequence_id)) msgs (ground (arith, e)))
