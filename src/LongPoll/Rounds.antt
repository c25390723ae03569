-- ===== src/LongPoll/Rounds.antt =====
-- What the long-poll loop asks of the poll loop, and how long it waits.
use mathlib.Core.List.{append-nil, append_assoc}
use mautrix_teams.Base.{
  zero, if◌then◌else◌, false, ℕ, suc, ◌+◌, ◌-◌, ◌*◌, ◌^◌, ◌≤◌, ◌<◌, ◌≡◌, refl, sym, min, arith,
  all_below, all_below_sound, dec_lt, List, [], ◌∷◌, ◌++◌, length, length-append, ltb, ltb→lt, true,
  Bool-cases, inl, inr,
}
use mautrix_teams.Base.Int.{pos, eq_ℤ, eq_ℤ_iff, shl64}
use mautrix_teams.Base.Text.{◌≗◌, codes, is_empty}
use mautrix_teams.Poll.Time.{Time}
use mautrix_teams.Poll.Wake.{PollWakeup, request_poll}
use mautrix_teams.Poll.Limits.Bounds.{one-le-pow}
use native.Mathlib.Nat.{pow-suc}
use mautrix_teams.LongPoll.{PollEvent, long_poll_delay, wake_for, asks_receipts}

table :
    all_below 6
      (λ n. eq_ℤ (long_poll_delay (n + 1)) (pos (min (2_000_000_000 * 2 ^ n) 60_000_000_000)))
    ≡ true
unfolding all_below long_poll_delay eq_ℤ shl64
table = refl

capped :
    (n m : ℕ)
    → n ≡ suc (suc (suc (suc (suc m))))
    → min (2_000_000_000 * 2 ^ n) 60_000_000_000 ≡ 60_000_000_000
capped n m h = rw h (simp pow-suc (omega (arith, one-le-pow m)))

cut_shift : (n : ℕ) → 5 < n → long_poll_delay (n + 1) ≡ pos 60_000_000_000
unfolding long_poll_delay shl64
cut_shift n h = let e : min (n + 1 - 1) 5 ≡ 5 = omega (arith, h) in rw e refl

-- After `n + 1` failed long polls in a row the loop waits two seconds doubled `n` times, at most a
-- minute; the shift is cut at five, where the minute is reached.
pub long_poll_delay_lem :
    (n : ℕ) → long_poll_delay (n + 1) ≡ pos (min (2_000_000_000 * 2 ^ n) 60_000_000_000)
long_poll_delay_lem n = elim (dec_lt 5 n) [
  | yes h ↦ rw (cut_shift n h, capped n (n - 5) (omega (arith, h))) refl
  | no h ↦ (eq_ℤ_iff _ _).0 (all_below_sound 6 _ n table (omega (arith, h)))
]

-- The wakeups that an answer asks for, in the order of its events: one for each event that names a
-- thread, and its read positions too unless the event is a message, new or changed.
abbrev pub asked_by : Time → List PollEvent → List PollWakeup
asked_by now [] = []
asked_by now (evt ∷ rest) =
    let asked : PollWakeup = record {
      thread_id = evt.thread_id;
      receipts =
          if evt.resource_type ≗ codes "NewMessage"
          then false
          else if evt.resource_type ≗ codes "MessageUpdate"
          then false
          else true;
      at = now;
      source = codes "longpoll";
    } in
    if is_empty evt.thread_id then asked_by now rest else asked ∷ asked_by now rest

-- As many elements as a queue has room for.
abbrev pub first_of : ℕ → List PollWakeup → List PollWakeup
first_of zero ws = []
first_of (suc room) [] = []
first_of (suc room) (w ∷ ws) = w ∷ first_of room ws

receipts_lem :
    (evt : PollEvent)
    → asks_receipts evt ≡ (
        if evt.resource_type ≗ codes "NewMessage"
        then false
        else if evt.resource_type ≗ codes "MessageUpdate"
        then false
        else true)
unfolding asks_receipts
receipts_lem evt = elim (Bool-cases (evt.resource_type ≗ codes "NewMessage")) [
  | inl e ↦ rw e refl
  | inr e ↦ elim (Bool-cases (evt.resource_type ≗ codes "MessageUpdate")) [
    | inl f ↦ rw (e, f) refl
    | inr f ↦ rw (e, f) refl
  ]
]

first_of-nil : (room : ℕ) → first_of room [] ≡ []
first_of-nil zero = refl
first_of-nil (suc room) = refl

first_of-none : (room : ℕ) (ws : List PollWakeup) → room ≡ 0 → first_of room ws ≡ []
first_of-none zero ws h = refl
first_of-none (suc room) ws h = absurd (omega (arith, h))

first_of-some :
    (room : ℕ) (w : PollWakeup) (ws : List PollWakeup)
    → 0 < room
    → first_of room (w ∷ ws) ≡ w ∷ first_of (room - 1) ws
first_of-some zero w ws h = absurd (omega (arith, h))
first_of-some (suc room) w ws h = let e : suc room - 1 ≡ room = omega arith in rw e refl

-- The events of an answer put the wakeups that they ask for behind those that wait, in order, as far
-- as the queue's 256 places go; the rest are dropped.
pub wake_for_lem :
    (now : Time) (events : List PollEvent) (q : List PollWakeup)
    → length q ≤ 256
    → wake_for now q events ≡ q ++ first_of (256 - length q) (asked_by now events)
unfolding wake_for request_poll
wake_for_lem now [] q h = rw (first_of-nil (256 - length q)) (sym (append-nil q))
wake_for_lem now (evt ∷ rest) q h = elim (Bool-cases (is_empty evt.thread_id)) [
  | inl e ↦ rw e (wake_for_lem now rest q h)
  | inr e ↦ elim (Bool-cases (ltb (length q) 256)) [
    | inl room ↦
        let w : PollWakeup = record {
          thread_id = evt.thread_id;
          receipts =
              if evt.resource_type ≗ codes "NewMessage"
              then false
              else if evt.resource_type ≗ codes "MessageUpdate"
              then false
              else true;
          at = now;
          source = codes "longpoll";
        } in
        let longer = length-append q (w ∷ []) in
        let left : 256 - length (q ++ w ∷ []) ≡ 256 - length q - 1 = omega (arith, longer) in
        let lt = ltb→lt _ _ room in
        rw
          (
            e,
            receipts_lem evt,
            room,
            wake_for_lem now rest (q ++ w ∷ []) (omega (arith, longer, lt)),
            left,
            first_of-some (256 - length q) w (asked_by now rest) (omega (arith, lt)),
          )
          (append_assoc q (w ∷ []) (first_of (256 - length q - 1) (asked_by now rest)))
    | inr full ↦
        let none_left : 256 - length q ≡ 0 = ground (arith, full) in
        rw
          (
            e,
            full,
            wake_for_lem now rest q h,
            first_of-none (256 - length q) (asked_by now rest) none_left,
          )
          (rw (first_of-none (256 - length q) _ none_left) refl)
  ]
]
