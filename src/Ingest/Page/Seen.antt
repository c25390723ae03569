-- ===== src/Ingest/Page/Seen.antt =====
-- pkg/connector/message_poller.go: where a page leaves the cursor of its thread.
use mautrix_teams.Base.{
  ℕ, ◌<◌, ◌≡◌, ◌⊎◌, inl, inr, refl, ◌∙◌, ap, Bool, true, false, not, ◌&&◌, List, [], ◌∷◌, arith,
  ltb, max, if◌then◌else◌, Bool-cases, All, ltb→lt,
}
use mautrix_teams.Base.Int.{pos}
use mautrix_teams.Base.Text.{Text, trim_space, is_empty, trim_space_idem}
use mautrix_teams.Base.Decimal.{parse_uint}
use mautrix_teams.Client.{Client}
use mautrix_teams.Cursor.{CursorPos, newer_than}
use mautrix_teams.Cursor.Commit.{new_cursor_commit}
use mautrix_teams.Cursor.Saved.{IsSequence, IsMark, mark, newer_than-mark}
use mautrix_teams.Poll.Time.{Time}
use mautrix_teams.Poll.Pass.Threads.{Thread}
use mautrix_teams.Ingest.{RemoteMessage, World, is_seen, self_id}
use mautrix_teams.Ingest.Typing.{is_typing_control}
use mautrix_teams.Ingest.Page.{
  is_non_user, Page, later_seq, take_new, take_message, take_messages, advance_page_cursor,
  ingest_page, took,
}

nonempty_seq : (s : Text) → IsSequence s → is_empty s ≡ false
unfolding parse_uint
nonempty_seq [] (n, h) = absurd (cc)
nonempty_seq (c ∷ s) h = refl

mark_pos : (s : Text) → IsSequence s → 0 < mark s
unfolding mark
mark_pos s (n, h) = rw h (omega arith)

abbrev at_seq : Text → CursorPos
at_seq s = record { seq = s; ts = pos 0 }

pub is_seen-mark :
    (last : Text) (msg : RemoteMessage)
    → IsMark last
    → IsSequence (trim_space msg.sequence_id)
    → is_seen last msg ≡ not (ltb (mark last) (mark (trim_space msg.sequence_id)))
unfolding is_seen
is_seen-mark last msg hl hs =
    let e = nonempty_seq (trim_space msg.sequence_id) hs in
    let n = newer_than-mark (at_seq (trim_space msg.sequence_id)) last hs hl in
    rw (← n) (unfold newer_than in rw e (ground arith))

later_seq-newer :
    (m s : Text)
    → IsMark m
    → IsSequence s
    → later_seq m s ≡ (if ltb (mark m) (mark s) then s else m)
unfolding later_seq
later_seq-newer m s hm hs =
    let e = nonempty_seq s hs in
    rw (← newer_than-mark (at_seq s) m hs hm) (unfold newer_than in rw e refl)

-- A furthest sequence ID beyond the cursor, if there is one.
abbrev pub Beyond : Text → Text → Type 0
Beyond last s = (s ≡ []) ⊎ (IsSequence s × (trim_space s ≡ s) × (mark last < mark s))

Beyond-IsMark : (last s : Text) → Beyond last s → IsMark s
Beyond-IsMark last s (inl e) = inl e
Beyond-IsMark last s (inr (h, trimmed, k)) = inr h

-- A message that a poll may queue: not without an ID, and no typing control.
abbrev pub is_message : RemoteMessage → Bool
is_message msg =
    not (is_empty (trim_space msg.message_id)) && not (is_typing_control msg.message_type)

-- How far the messages of a page go, from a mark on.
unfoldable pub furthest_message : ℕ → List RemoteMessage → ℕ
furthest_message m [] = m
furthest_message m (msg ∷ rest) =
    furthest_message (if is_message msg then max m (mark (trim_space msg.sequence_id)) else m) rest

abbrev pub HasSequence : RemoteMessage → Type 0
HasSequence msg = IsSequence (trim_space msg.sequence_id)

module _ {E : Type 0} (world : World E) (th : Thread) (last own : Text) (now : Time) where
  max_seq-take_new :
      (p : Page E) (msg : RemoteMessage)
      → (take_new world p th own now msg).max_seq ≡ later_seq p.max_seq (trim_space msg.sequence_id)
  unfolding take_new took
  max_seq-take_new p msg =
      elim (Bool-cases
        (is_non_user world.folds_to (trim_space msg.sender_id) th.thread_id msg.message_type)) [
          | inl e ↦ rw e refl
          | inr e ↦ rw e refl
        ]

  abbrev reached : Text → ℕ
  reached s = max (mark last) (mark s)

  -- What one message does to the furthest sequence ID.
  abbrev Moves : Page E → RemoteMessage → Page E → Type 0
  Moves p msg q =
      Beyond last q.max_seq
      × (reached q.max_seq ≡ (
          if is_message msg
          then max (reached p.max_seq) (mark (trim_space msg.sequence_id))
          else reached p.max_seq))

  new-Moves :
      (p : Page E) (msg : RemoteMessage)
      → Beyond last p.max_seq
      → HasSequence msg
      → is_message msg ≡ true
      → ltb (mark last) (mark (trim_space msg.sequence_id)) ≡ true
      → Moves p msg (take_new world p th own now msg)
  new-Moves p msg b h m new =
      let s = trim_space msg.sequence_id in
      let e = later_seq-newer p.max_seq s (Beyond-IsMark last p.max_seq b) h in
      rw (max_seq-take_new p msg, e, m)
        (elim (Bool-cases (ltb (mark p.max_seq) (mark s))) [
          | inl lt ↦ rw lt (
            inr (h, trim_space_idem msg.sequence_id, ltb→lt (mark last) (mark s) new),
            ground (arith, lt, new),
          )
          | inr ge ↦ rw ge (b, ground (arith, ge, new))
        ])

  message-Moves :
      (p : Page E) (msg : RemoteMessage)
      → IsMark last
      → Beyond last p.max_seq
      → HasSequence msg
      → Moves p msg (take_message world th last own now p msg)
  unfolding take_message
  message-Moves p msg hl b h =
      let s = trim_space msg.sequence_id in
      elim (Bool-cases (is_empty (trim_space msg.message_id))) [
        | inl e ↦ rw e (b, refl)
        | inr e ↦ elim (Bool-cases (is_typing_control msg.message_type)) [
          | inl t ↦ rw (e, t) (b, refl)
          | inr t ↦ elim (Bool-cases (ltb (mark last) (mark s))) [
            | inl new ↦
                let m : is_message msg ≡ true = rw (e, t) refl in
                let seen : is_seen last msg ≡ false = rw (is_seen-mark last msg hl h, new) refl in
                let moved : Moves p msg (take_new world p th own now msg) =
                  new-Moves p msg b h m new in
                rw (e, t, seen) (rw (e, t) at moved)
            | inr old ↦
                let seen : is_seen last msg ≡ true = rw (is_seen-mark last msg hl h, old) refl in
                rw (e, t, seen) (b, ground (arith, old))
          ]
        ]
      ]

  pub messages-Beyond :
      (msgs : List RemoteMessage) (p : Page E)
      → IsMark last
      → Beyond last p.max_seq
      → All HasSequence msgs
      → let q = take_messages world th last own now p msgs in
        Beyond last q.max_seq × (reached q.max_seq ≡ furthest_message (reached p.max_seq) msgs)
  unfolding take_messages furthest_message
  messages-Beyond [] p hl b h = (b, refl)
  messages-Beyond (msg ∷ rest) p hl b (h, hs) =
      let (b', e) = message-Moves p msg hl b h in
      let (b'', f) = messages-Beyond rest (take_message world th last own now p msg) hl b' hs in
      (b'', f ∙ ap (λ m. furthest_message m rest) e)

module _ {E : Type 0} (world : World E) where
  -- The page before its first message.
  abbrev pub first_page : Client E → Page E
  first_page c = record {
    client = c;
    commit = new_cursor_commit;
    max_seq = [];
    max_ts = pos 0;
    ingested = 0;
  }

  advanced-mark :
      (th : Thread) (p : Page E)
      → Beyond (trim_space th.last_sequence_id) p.max_seq
      → let last' = trim_space (advance_page_cursor world th p).0.last_sequence_id in
        IsMark (trim_space th.last_sequence_id)
        → IsMark last' × (mark last' ≡ max (mark (trim_space th.last_sequence_id)) (mark p.max_seq))
  unfolding advance_page_cursor
  advanced-mark th p (inl e) hl = rw e (hl, unfold mark parse_uint in ground arith)
  advanced-mark th p (inr (h, trimmed, beyond)) hl =
      rw (nonempty_seq p.max_seq h) (rw trimmed (inr h, ground (arith, beyond)))

  -- Where the cursor and the messages have decimal sequence IDs, a page leaves the cursor at the
  -- furthest of them: that of the thread before, and those of the page's messages that have an ID
  -- and are no typing controls, in whatever order they come.
  pub ingest_page-mark :
      (c : Client E) (th : Thread) (now : Time) (msgs : List RemoteMessage)
      → IsMark (trim_space th.last_sequence_id)
      → All HasSequence msgs
      → let last' = trim_space (ingest_page world c th now msgs).0.last_sequence_id in
        IsMark last' × (mark last' ≡ furthest_message (mark (trim_space th.last_sequence_id)) msgs)
  unfolding ingest_page
  ingest_page-mark c th now msgs hl hs =
      let last = trim_space th.last_sequence_id in
      let own = self_id world c in
      let p = take_messages world th last own now (first_page c) msgs in
      let (b, e) = messages-Beyond world th last own now msgs (first_page c) hl (inl refl) hs in
      let (hl', f) = advanced-mark th p b hl in
      let start : max (mark last) (mark []) ≡ mark last = unfold mark parse_uint in ground arith in
      (hl', f ∙ rw start at e)
