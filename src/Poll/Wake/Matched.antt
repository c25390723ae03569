-- ===== src/Poll/Wake/Matched.antt =====
-- What a wakeup does to each thread.
use mautrix_teams.Base.Int.{pos}
use mautrix_teams.Base.{
  ap, ltb, ◌==◌, Bool-cases, inl, inr, ◌≡◌, refl, ◌&&◌, Option, none, some, [], ◌∷◌, if◌then◌else◌,
}
use mautrix_teams.Poll.Backoff.{on_success}
use mautrix_teams.Base.Text.{◌≗◌, Text, ≗_iff}
use mautrix_teams.Base.Assoc.{Assoc, lookup}
use mautrix_teams.Client.{Client}
use mautrix_teams.Poll.Wake.{
  on_success, PollState, PollWakeup, woken, matches, apply_wakeup, forget_receipt_poll,
}

-- The state of a thread that a wakeup names: it is due at once and starts over at two seconds
-- without failures; it was first noticed by the earlier of what noticed it before and the wakeup, of
-- those that have a time.
abbrev pub named_by : PollWakeup → PollState → PollState
named_by w ps =
    let told : PollState = record {
      backoff = record { failures = 0; delay = pos 2_000_000_000; idle_cap = ps.backoff.idle_cap };
      next_poll = 0;
      conversation = ps.conversation;
      gone = ps.gone;
      noticed_at = w.at;
      noticed_by = w.source;
    } in
    let known : PollState = record told {
      noticed_at = ps.noticed_at;
      noticed_by = ps.noticed_by;
    } in
    if w.at == 0
    then known
    else if ps.noticed_at == 0
    then told
    else if ltb w.at ps.noticed_at
    then told
    else known

-- A thread's state after the wakeup, which names a thread by its ID or its conversation.
abbrev pub after_wakeup : PollWakeup → Text → Option PollState → Option PollState
after_wakeup w t none = none
after_wakeup w t (some ps) = some (
    if t ≗ w.thread_id
    then named_by w ps
    else if ps.conversation ≗ w.thread_id
    then named_by w ps
    else ps)

woken_lem : (w : PollWakeup) (ps : PollState) → woken w ps ≡ named_by w ps
unfolding woken on_success
woken_lem w ps = elim (Bool-cases (w.at == 0)) [
  | inl e ↦ rw e refl
  | inr e ↦ elim (Bool-cases (ps.noticed_at == 0)) [
    | inl f ↦ rw (e, f) refl
    | inr f ↦ elim (Bool-cases (ltb w.at ps.noticed_at)) [
      | inl g ↦ rw (e, f, g) refl
      | inr g ↦ rw (e, f, g) refl
    ]
  ]
]

after_wakeup_lem :
    (w : PollWakeup) (t : Text) (ps : PollState)
    → ◌≡◌ {A = Option PollState}
        (some (if matches w t ps then woken w ps else ps))
        (after_wakeup w t (some ps))
unfolding matches
after_wakeup_lem w t ps = elim (Bool-cases (t ≗ w.thread_id)) [
  | inl own ↦ rw own (ap (λ s. some s) (woken_lem w ps))
  | inr own ↦ elim (Bool-cases (ps.conversation ≗ w.thread_id)) [
    | inl named ↦ rw (own, named) (ap (λ s. some s) (woken_lem w ps))
    | inr named ↦ rw (own, named) refl
  ]
]

module _ {E : Type 0} where
  -- A wakeup reaches every thread: those that it names, by their ID or conversation, are due at once,
  -- at the fastest cadence and noticed at the earlier time; no other thread changes.
  pub lookup-apply_wakeup :
      (w : PollWakeup) (c : Client E) (states : Assoc PollState) (t : Text)
      → lookup t (apply_wakeup w c states).1 ≡ after_wakeup w t (lookup t states)
  unfolding apply_wakeup lookup
  lookup-apply_wakeup w c [] t = refl
  lookup-apply_wakeup w c ((j, ps) ∷ states) t =
      let c' = if matches w j ps && w.receipts then forget_receipt_poll c j else c in
      elim (Bool-cases (j ≗ t)) [
        | inl same ↦ let e : j ≡ t = (≗_iff j t).0 same in rw (same, e) (after_wakeup_lem w t ps)
        | inr other ↦ rw other (lookup-apply_wakeup w c' states t)
      ]
