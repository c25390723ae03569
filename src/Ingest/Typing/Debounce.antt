-- ===== src/Ingest/Typing/Debounce.antt =====
-- The deduplication of typing events, with the sweeps of its map, against a map that is never swept.
use mautrix_teams.Base.{
  ℕ, ◌+◌, ltb, ◌==◌, ==_iff, sym, ◌∙◌, ◌-◌, ◌≤◌, ◌≡◌, inl, inr, refl, ap, Bool, true, false, not,
  Option, none, some, List, [], ◌∷◌, arith, if◌then◌else◌, Bool-cases,
}
use mautrix_teams.Base.Text.{Text, ◌≗◌}
use mautrix_teams.Base.Assoc.{Assoc, lookup, insert, lookup-insert, IsMap, IsMap-insert}
use mautrix_teams.Client.{Client}
use mautrix_teams.Poll.Time.{Time}
use mautrix_teams.Poll.Sweep.{sweep_before, sweep_caches, time_of, typing_dedup_window}
use mautrix_teams.Poll.Sweep.Kept.{lookup-sweep_before, IsMap-sweep_before, kept}
use mautrix_teams.Ingest.Typing.{should_emit_typing, typing_key, emitted_lately}

-- What happens to the map, at its time: a typing control of a sender in a thread, or a sweep.
pub data Action : Type 0 where
  typed : Text → Text → Time → Action
  swept : Time → Action

-- What the code answers to the actions, one after the other.
module _ {E : Type 0} where
  unfoldable pub answers : Client E → List Action → List Bool
  answers c [] = []
  answers c (typed thread_id sender_id now ∷ rest) =
      let (emit, c') = should_emit_typing c thread_id sender_id now in emit ∷ answers c' rest
  answers c (swept now ∷ rest) = answers (sweep_caches c now).0 rest

-- The specification: a sender's event in a thread goes through unless one of theirs went through
-- there in the three seconds before. Nothing is ever forgotten.
abbrev pub Emitted : Type 0
Emitted = Text → Text → Option Time

abbrev pub lately : Time → Option Time → Bool
lately now none = false
lately now (some last) = ltb now (last + 3_000_000_000)

unfoldable pub note_emitted : Emitted → Text → Text → Time → Emitted
note_emitted emitted thread_id sender_id now thread sender =
    if thread_id ≗ thread
    then (if sender_id ≗ sender then some now else emitted thread sender)
    else emitted thread sender

unfoldable pub debounced : Emitted → List Action → List Bool
unfolding note_emitted
debounced emitted [] = []
debounced emitted (typed thread_id sender_id now ∷ rest) =
    let early = lately now (emitted thread_id sender_id) in
    not early
    ∷ debounced (if early then emitted else note_emitted emitted thread_id sender_id now) rest
debounced emitted (swept now ∷ rest) = debounced emitted rest

-- The colons of a text; the ID of a thread has one, as in "19:a".
abbrev pub colons : Text → ℕ
colons [] = 0
colons (c ∷ s) = (if c == b':' then 1 else 0) + colons s

-- The actions are in order of time, from a time on, and name threads.
abbrev pub AreOrdered : Time → List Action → Type 0
AreOrdered start [] = Unit
AreOrdered start (typed thread_id sender_id now ∷ rest) =
    (start ≤ now) × (colons thread_id ≡ 1) × AreOrdered now rest
AreOrdered start (swept now ∷ rest) = (start ≤ now) × AreOrdered now rest

-- The entry of a swept map and that of the full one are told apart by no later action.
abbrev Agree : Time → Option Time → Option Time → Type 0
Agree now held full = (later : Time) → now ≤ later → emitted_lately later held ≡ lately later full

abbrev Refines : Time → Assoc Time → Emitted → Type 0
Refines now m emitted =
    IsMap m
    × ((thread sender : Text)
        → colons thread ≡ 1
        → Agree now (lookup (typing_key thread sender) m) (emitted thread sender))

-- Two keys are equal only if their threads and their senders are.
key_lem :
    (t u s r : Text)
    → colons t ≡ colons u
    → (typing_key t s ≗ typing_key u r) ≡ (if t ≗ u then s ≗ r else false)
unfolding ◌≗◌
key_lem [] [] s r h = refl
key_lem [] (d ∷ u) s r h = ground (arith, h)
key_lem (c ∷ t) [] s r h = ground (arith, h)
key_lem (c ∷ t) (d ∷ u) s r h = elim (Bool-cases (c == d)) [
  | inl e ↦
      let same : c ≡ d = (==_iff c d).0 e in
      let rest : colons t ≡ colons u = omega (arith, rw same at h) in
      rw (e, key_lem t u s r rest) refl
  | inr e ↦ rw e refl
]

Refines-insert :
    (now : Time) (m : Assoc Time) (emitted : Emitted) (thread_id sender_id : Text)
    → colons thread_id ≡ 1
    → Refines now m emitted
    → Refines now
        (insert (typing_key thread_id sender_id) now m)
        (note_emitted emitted thread_id sender_id now)
unfolding note_emitted
Refines-insert now m emitted thread_id sender_id one (h, agree) = (
  IsMap-insert (typing_key thread_id sender_id) now m h,
  λ thread. λ sender. λ too. λ later. λ le.
      rw
        (
          lookup-insert (typing_key thread_id sender_id) (typing_key thread sender) now m,
          key_lem thread_id thread sender_id sender (one ∙ sym too),
        )
        (elim (Bool-cases (thread_id ≗ thread)) [
          | inl e ↦ elim (Bool-cases (sender_id ≗ sender)) [
            | inl f ↦ rw (e, f) (unfold emitted_lately in refl)
            | inr f ↦ rw (e, f) (agree thread sender too later le)
          ]
          | inr e ↦ rw e (agree thread sender too later le)
        ]),
)

Refines-later :
    (now later : Time) (m : Assoc Time) (emitted : Emitted)
    → now ≤ later
    → Refines now m emitted
    → Refines later m emitted
Refines-later now later m emitted le (h, agree) = (
  h,
  λ thread. λ sender. λ one. λ at. λ after. agree thread sender one at (omega (arith, le, after)),
)

lately-kept :
    (now later : Time) (o : Option Time)
    → now ≤ later
    → emitted_lately later (kept (now - typing_dedup_window) o) ≡ emitted_lately later o
unfolding emitted_lately
lately-kept now later none h = refl
lately-kept now later (some t) h = ground (arith, h)

Refines-sweep :
    (before_it now : Time) (m : Assoc Time) (emitted : Emitted)
    → before_it ≤ now
    → Refines before_it m emitted
    → Refines now (sweep_before m (now - typing_dedup_window) time_of).0 emitted
Refines-sweep before_it now m emitted le (h, agree) = (
  IsMap-sweep_before m (now - typing_dedup_window) h,
  λ thread. λ sender. λ one. λ later. λ after.
      let key = typing_key thread sender in
      rw
        (
          lookup-sweep_before m (now - typing_dedup_window) key h,
          lately-kept now later (lookup key m) after,
        )
        (agree thread sender one later (omega (arith, le, after))),
)

module _ {E : Type 0} where
  -- A typing control, by whether it comes too early.
  answers_typed :
      (c : Client E) (thread_id sender_id : Text) (at : Time) (rest : List Action)
      → let key = typing_key thread_id sender_id in
        let lately = emitted_lately at (lookup key c.typing_seen) in
        answers c (typed thread_id sender_id at ∷ rest)
        ≡ not lately
          ∷ answers
              (if lately then c else record c { typing_seen = insert key at c.typing_seen })
              rest
  unfolding answers should_emit_typing
  answers_typed c thread_id sender_id at rest =
      elim (Bool-cases
        (emitted_lately at (lookup (typing_key thread_id sender_id) c.typing_seen))) [
          | inl e ↦ rw e refl
          | inr e ↦ rw e refl
        ]

  answers-Refines :
      (actions : List Action) (c : Client E) (emitted : Emitted) (now : Time)
      → AreOrdered now actions
      → Refines now c.typing_seen emitted
      → answers c actions ≡ debounced emitted actions
  unfolding answers debounced
  answers-Refines [] c emitted now h r = refl
  answers-Refines (swept at ∷ rest) c emitted now (le, h) r =
      answers-Refines rest (sweep_caches c at).0 emitted at h
        (unfold sweep_caches in Refines-sweep now at c.typing_seen emitted le r)
  answers-Refines (typed thread_id sender_id at ∷ rest) c emitted now (le, one, h) r =
      let key = typing_key thread_id sender_id in
      let same : emitted_lately at (lookup key c.typing_seen)
          ≡ lately at (emitted thread_id sender_id) =
        r.1 thread_id sender_id one at le in
      let r' = Refines-later now at c.typing_seen emitted le r in
      rw (answers_typed c thread_id sender_id at rest, same)
        (elim (Bool-cases (lately at (emitted thread_id sender_id))) [
          | inl e ↦ rw e (ap (λ l. false ∷ l) (answers-Refines rest c emitted at h r'))
          | inr e ↦ rw e (
              ap (λ l. true ∷ l)
                (answers-Refines rest (record c { typing_seen = insert key at c.typing_seen })
                  (note_emitted emitted thread_id sender_id at) at h
                  (Refines-insert at c.typing_seen emitted thread_id sender_id one r')))
        ])

  -- Over any typing controls and sweeps of the caches, in order of time and from an empty map, where
  -- the ID of each thread has one colon: the events that go through are those of the specification, which sweeps nothing, namely those of a
  -- sender in a thread that none went through for in the three seconds before.
  pub answers-debounced :
      (actions : List Action) (c : Client E)
      → c.typing_seen ≡ []
      → AreOrdered 0 actions
      → answers c actions ≡ debounced (λ thread sender. none) actions
  answers-debounced actions c empty h =
      answers-Refines actions c (λ thread sender. none) 0 h
        (rw empty
          (tt, λ thread. λ sender. λ one. λ later. λ le. unfold lookup emitted_lately in refl))
