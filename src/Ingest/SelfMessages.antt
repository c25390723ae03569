-- ===== src/Ingest/SelfMessages.antt =====
-- `recordSelfMessage`, `consumeSelfMessage` and `cleanupSelfMessagesLocked` of
-- pkg/connector/client.go: the user's own sends, until their echo arrives.
use mautrix_teams.Base.{
  ◌+◌, ◌≡◌, refl, Bool, true, false, Option, none, some, [], ◌∷◌, arith, ltb, leb, if◌then◌else◌,
  Bool-cases, inl, inr,
}
use mautrix_teams.Base.Text.{Text, trim_space, is_empty, ≗_iff, ≗_refl}
use mautrix_teams.Base.Assoc.{
  Assoc, lookup, insert, delete, lookup-insert, lookup-delete, IsMap, IsMap-insert,
}
use mautrix_teams.Client.{Client}
use mautrix_teams.Poll.Time.{Time}

abbrev pub self_message_ttl : Time
self_message_ttl = 300_000_000_000

unfoldable pub cleanup_self_messages : Assoc Time → Time → Assoc Time
cleanup_self_messages [] now = []
cleanup_self_messages ((id, ts) ∷ rest) now =
    let kept = cleanup_self_messages rest now in
    if ltb (ts + self_message_ttl) now then kept else (id, ts) ∷ kept

is_known : Option Time → Bool
is_known none = false
is_known (some ts) = true

module _ {E : Type 0} where
  unfoldable pub record_self_message : Client E → Text → Time → Client E
  record_self_message c client_message_id now =
      let id = trim_space client_message_id in
      if is_empty id
      then c
      else record c { self_messages = insert id now (cleanup_self_messages c.self_messages now) }

  -- Whether a message is the echo of an own send, which is forgotten then.
  unfoldable pub consume_self_message : Client E → Text → Time → Bool × Client E
  unfolding is_known
  consume_self_message c client_message_id now =
      let id = trim_space client_message_id in
      let kept = cleanup_self_messages c.self_messages now in
      if is_empty id then (false, c) else (
        is_known (lookup id kept),
        record c { self_messages = if is_known (lookup id kept) then delete id kept else kept },
      )

-- What is left of an entry that is looked up after a clean-up.
abbrev unexpired : Time → Option Time → Option Time
unexpired now none = none
unexpired now (some ts) = if ltb (ts + self_message_ttl) now then none else some ts

lookup-cleanup_none :
    (id : Text) (m : Assoc Time) (now : Time)
    → lookup id m ≡ none
    → lookup id (cleanup_self_messages m now) ≡ none
unfolding lookup cleanup_self_messages
lookup-cleanup_none id [] now h = refl
lookup-cleanup_none id ((j, ts) ∷ m) now h = ground (arith, lookup-cleanup_none id m now)

lookup-cleanup :
    (id : Text) (m : Assoc Time) (now : Time)
    → IsMap m
    → lookup id (cleanup_self_messages m now) ≡ unexpired now (lookup id m)
unfolding lookup cleanup_self_messages
lookup-cleanup id [] now h = refl
lookup-cleanup id ((j, ts) ∷ m) now (new, h) =
    ground (arith, ≗_iff j id, lookup-cleanup id m now h, lookup-cleanup_none j m now new)

IsMap-cleanup : (m : Assoc Time) (now : Time) → IsMap m → IsMap (cleanup_self_messages m now)
unfolding cleanup_self_messages
IsMap-cleanup [] now h = tt
IsMap-cleanup ((j, ts) ∷ m) now (fresh, h) = elim (Bool-cases (ltb (ts + self_message_ttl) now)) [
  | inl e ↦ rw e (IsMap-cleanup m now h)
  | inr e ↦ rw e (lookup-cleanup_none j m now fresh, IsMap-cleanup m now h)
]

module _ {E : Type 0} where
  -- The own sends after one of them is recorded and its echo looked for.
  abbrev pub echoed : Client E → Text → Time → Time → Bool × Client E
  echoed c id sent seen = consume_self_message (record_self_message c id sent) id seen

  found-echo :
      (c : Client E) (id : Text) (sent seen : Time)
      → IsMap c.self_messages
      → is_empty (trim_space id) ≡ false
      → lookup
          (trim_space id)
          (cleanup_self_messages (record_self_message c id sent).self_messages seen)
        ≡ (if ltb (sent + self_message_ttl) seen then none else some sent)
  unfolding record_self_message
  found-echo c id sent seen h e =
      let m = cleanup_self_messages c.self_messages sent in
      rw
        (
          e,
          lookup-cleanup (trim_space id) (insert (trim_space id) sent m) seen
              (IsMap-insert (trim_space id) sent m (IsMap-cleanup c.self_messages sent h)),
          lookup-insert (trim_space id) (trim_space id) sent m,
          ≗_refl (trim_space id),
        )
        refl

  -- A send with an ID is recognized by its echo as long as the echo comes within five minutes, and
  -- once only: a second message with the ID is no echo, whenever it comes.
  pub consume_self_message-record :
      (c : Client E) (id : Text) (sent seen again : Time)
      → IsMap c.self_messages
      → is_empty (trim_space id) ≡ false
      → ((echoed c id sent seen).0 ≡ leb seen (sent + 300_000_000_000))
        × ((consume_self_message (echoed c id sent seen).1 id again).0 ≡ false)
  unfolding consume_self_message is_known
  consume_self_message-record c id sent seen again h e =
      let t = trim_space id in
      let m = cleanup_self_messages (record_self_message c id sent).self_messages seen in
      let found = found-echo c id sent seen h e in
      elim (Bool-cases (ltb (sent + self_message_ttl) seen)) [
        | inl late ↦
            let gone : lookup t m ≡ none = rw (found, late) refl in
            rw (e, gone, lookup-cleanup_none t m again gone) (ground (arith, late))
        | inr in_time ↦
            let there : lookup t m ≡ some sent = rw (found, in_time) refl in
            let gone : lookup t (delete t m) ≡ none = rw (lookup-delete t t m, ≗_refl t) refl in
            rw (e, there, lookup-cleanup_none t (delete t m) again gone) (ground (arith, in_time))
      ]
