-- ===== src/Messages/Listing.antt =====
-- internal/teams/client/messages.go: what ListMessages and ListMessagesPaginated return.
use mathlib.Core.Path.{subst}
use mautrix_teams.Base.{
  none, some, some, not, All, sym, ◌∙◌, ltb, min, ◌==◌, length, Option-cases, leb, zero, suc, suc,
  Bool, ℕ, ◌+◌, ◌≤◌, ◌≡◌, refl, true, false, List, [], ◌∷◌, ◌++◌, ◌⊎◌, inl, inr, arith, Bool-cases,
  if◌then◌else◌,
}
use mautrix_teams.Base.Decimal.{parse_uint}
use mautrix_teams.Model.Sequence.Order.{compare_sequence_id-decimal}
use mautrix_teams.Base.Text.{Text, trim_space, is_empty, ◌≗◌, ≗_iff}
use mautrix_teams.Errors.{Err}
use mautrix_teams.Ingest.{RemoteMessage}
use mautrix_teams.Messages.{
  comes_before, is_less, list_messages_max_catchup_pages, ends_catch_up, ends_paginate,
  refused_list, Listed, gather_rest, list_messages, sorted_answer, list_messages_paginated,
  after_page_fetch, converted, paginate, after_page, list_messages_page_size, fresh_page,
  fetch_messages_page, catch_up, built, gather, RawMessage, convert_remote_message, gather_page,
  gather_answer, MessagesWorld, Gathered, is_known_id,
}

-- How many of the messages pass a test.
abbrev pub count : (RemoteMessage → Bool) → List RemoteMessage → ℕ
count test [] = 0
count test (m ∷ ms) = (if test m then 1 else 0) + count test ms

-- How many of the messages have the ID.
abbrev pub occurrences : Text → List RemoteMessage → ℕ
occurrences k = count (λ m. trim_space m.message_id ≗ k)

-- The message's number is not above that of the first of the messages.
abbrev pub IsBefore : (RemoteMessage → ℕ) → RemoteMessage → List RemoteMessage → Type 0
IsBefore key m [] = Unit
IsBefore key m (n ∷ rest) = key m ≤ key n

-- The numbers of the messages do not go down.
abbrev pub IsInOrder : (RemoteMessage → ℕ) → List RemoteMessage → Type 0
IsInOrder key [] = Unit
IsInOrder key (m ∷ rest) = IsBefore key m rest × IsInOrder key rest

-- What sort.Slice promises: it only moves the messages, and where the test compares numbers of the
-- messages there are, these end up in order.
pub record IsSort
    (sort : (RemoteMessage → RemoteMessage → Bool) → List RemoteMessage → List RemoteMessage)
    : Type 0 where
  pub moves :
      (before : RemoteMessage → RemoteMessage → Bool) (ms : List RemoteMessage)
      (test : RemoteMessage → Bool)
      → count test (sort before ms) ≡ count test ms
  pub orders :
      (before : RemoteMessage → RemoteMessage → Bool) (ms : List RemoteMessage)
      (good : RemoteMessage → Bool) (key : RemoteMessage → ℕ)
      → All (λ m. good m ≡ true) ms
      → ((a b : RemoteMessage) → good a ≡ true → good b ≡ true → before a b ≡ ltb (key a) (key b))
      → IsInOrder key (sort before ms)

-- The sequence ID is a decimal number of 64 bits, and which one.
abbrev pub is_decimal : RemoteMessage → Bool
is_decimal m = elim (parse_uint m.sequence_id) [ some n ↦ true | none ↦ false ]

abbrev pub number : RemoteMessage → ℕ
number m = elim (parse_uint m.sequence_id) [ some n ↦ n | none ↦ 0 ]

comes_before-number :
    (a b : RemoteMessage)
    → is_decimal a ≡ true
    → is_decimal b ≡ true
    → comes_before a b ≡ ltb (number a) (number b)
unfolding comes_before is_less
comes_before-number a b ha hb = elim (Option-cases (parse_uint a.sequence_id)) [
  | inl none_a ↦ absurd (cc (rw (none_a, is_decimal) at ha))
  | inr (m, is_m) ↦ elim (Option-cases (parse_uint b.sequence_id)) [
    | inl none_b ↦ absurd (cc (rw (none_b, is_decimal) at hb))
    | inr (n, is_n) ↦
        rw
          (
            compare_sequence_id-decimal a.sequence_id b.sequence_id m n is_m is_n,
            is_m,
            is_n,
            number,
          )
          (elim (Bool-cases (ltb m n)) [
            | inl e ↦ rw e refl
            | inr e ↦ elim (Bool-cases (ltb n m)) [
              | inl f ↦ rw (e, f) refl
              | inr f ↦ rw (e, f) refl
            ]
          ])
  ]
]

-- Every message passes a test if none fails it.
All-count :
    (good : RemoteMessage → Bool) (ms : List RemoteMessage)
    → count (λ m. not (good m)) ms ≡ 0
    → All (λ m. good m ≡ true) ms
All-count good [] h = tt
All-count good (m ∷ ms) h = elim (Bool-cases (good m)) [
  | inl e ↦ (e, All-count good ms (omega (arith, rw e at h)))
  | inr e ↦ absurd (omega (arith, rw e at h))
]

-- All the sequence IDs are decimal numbers.
abbrev pub all_decimal : List RemoteMessage → Bool
all_decimal [] = true
all_decimal (m ∷ ms) = if is_decimal m then all_decimal ms else false

all_decimal-All :
    (ms : List RemoteMessage) → all_decimal ms ≡ true → All (λ m. is_decimal m ≡ true) ms
all_decimal-All [] h = tt
all_decimal-All (m ∷ ms) h = elim (Bool-cases (is_decimal m)) [
  | inl e ↦ (e, all_decimal-All ms (rw e at h))
  | inr e ↦ absurd (cc (rw e at h))
]

count-All :
    (good : RemoteMessage → Bool) (ms : List RemoteMessage)
    → All (λ m. good m ≡ true) ms
    → count (λ m. not (good m)) ms ≡ 0
count-All good [] h = refl
count-All good (m ∷ ms) (e, h) = rw e (omega (arith, count-All good ms h))

occurrences-append :
    (k : Text) (ms : List RemoteMessage) (m : RemoteMessage)
    → occurrences k (ms ++ m ∷ [])
      ≡ occurrences k ms + (if trim_space m.message_id ≗ k then 1 else 0)
occurrences-append k [] m = omega arith
occurrences-append k (n ∷ ms) m = omega (arith, occurrences-append k ms m)

-- Every ID is there at most once, and only if it is known.
abbrev AreKnown : List Text → List RemoteMessage → Type 0
AreKnown seen result =
    (k : Text) → is_empty k ≡ false → occurrences k result ≤ (if is_known_id k seen then 1 else 0)

-- The messages are known where there are any.
abbrev GatheredKnown : Err ⊎ Gathered → Type 0
GatheredKnown (inl err) = Unit
GatheredKnown (inr g) = AreKnown g.seen g.result

AreKnown-more :
    (seen : List Text) (result : List RemoteMessage) (m : RemoteMessage)
    → AreKnown seen result
    → is_known_id (trim_space m.message_id) seen ≡ false
    → AreKnown (trim_space m.message_id ∷ seen) (result ++ m ∷ [])
unfolding is_known_id
AreKnown-more seen result m known fresh k full = elim (Bool-cases (trim_space m.message_id ≗ k)) [
  | inl e ↦
      let same : is_known_id k seen ≡ false =
        rw (← (≗_iff (trim_space m.message_id) k).0 e) fresh in
      ground (arith, e, same, known k full, occurrences-append k result m)
  | inr e ↦ ground (arith, e, known k full, occurrences-append k result m)
]

AreKnown-blank :
    (seen : List Text) (result : List RemoteMessage) (m : RemoteMessage)
    → AreKnown seen result
    → is_empty (trim_space m.message_id) ≡ true
    → AreKnown seen (result ++ m ∷ [])
AreKnown-blank seen result m known blank k full = ground (
  arith,
  known k full,
  occurrences-append k result m,
  differs (trim_space m.message_id) k blank full,
)
  where
    differs : (a b : Text) → is_empty a ≡ true → is_empty b ≡ false → (a ≗ b) ≡ false
    differs a b ha hb = ground (arith, ≗_iff a b, ha, hb)

-- No ID twice, where there are messages.
abbrev OnlyOnce : Err ⊎ List RemoteMessage → Type 0
OnlyOnce (inl err) = Unit
OnlyOnce (inr ms) = (k : Text) → is_empty k ≡ false → occurrences k ms ≤ 1

AreKnown-once :
    (seen : List Text) (result : List RemoteMessage) → AreKnown seen result → OnlyOnce (inr result)
AreKnown-once seen result known k full = ground (arith, known k full)

module _ {E : Type 0} (world : MessagesWorld E) where
  converted-Known :
      (since : Text) (g : Gathered) (seen : List Text) (msg : RawMessage) (sequence : Err ⊎ Text)
      → ((m : RemoteMessage) → m.message_id ≡ msg.id → AreKnown seen (g.result ++ m ∷ []))
      → GatheredKnown (gather_answer world since g (seen, converted world msg sequence))
  unfolding gather_answer converted gather built
  converted-Known since g seen msg (inl err) known = tt
  converted-Known since g seen msg (inr sequence) known = known (built world msg sequence) refl

  gather_answer-Known :
      (since : Text) (g : Gathered) (msg : RawMessage)
      → AreKnown g.seen g.result
      → GatheredKnown (gather_answer world since g (convert_remote_message world msg g.seen))
  unfolding convert_remote_message gather_answer
  gather_answer-Known since g msg known = elim (Bool-cases (is_empty (trim_space msg.id))) [
    | inl blank ↦ rw blank (
        converted-Known since g g.seen msg _
          (λ m same. AreKnown-blank g.seen g.result m known (rw same blank)))
    | inr full ↦ elim (Bool-cases (is_known_id (trim_space msg.id) g.seen)) [
      | inl old ↦ rw (full, old) known
      | inr new ↦
          rw (full, new)
            (converted-Known since g (trim_space msg.id ∷ g.seen) msg _
              (λ m same. rw (← same) (AreKnown-more g.seen g.result m known (rw same new))))
    ]
  ]

  gather_rest-Known :
      (rest : Gathered → Err ⊎ Gathered) (r : Err ⊎ Gathered)
      → GatheredKnown r
      → ((g : Gathered) → AreKnown g.seen g.result → GatheredKnown (rest g))
      → GatheredKnown (gather_rest world rest r)
  unfolding gather_rest
  gather_rest-Known rest (inl err) known later = tt
  gather_rest-Known rest (inr g) known later = later g known

  gather_page-Known :
      (since : Text) (g : Gathered) (page : List RawMessage)
      → AreKnown g.seen g.result
      → GatheredKnown (gather_page world since g page)
  unfolding gather_page
  gather_page-Known since g [] known = known
  gather_page-Known since g (msg ∷ rest) known =
      gather_rest-Known _ _ (gather_answer-Known since g msg known)
        (λ g' known'. gather_page-Known since g' rest known')

  after_page_fetch-once :
      (on_error : Err → Err ⊎ List RemoteMessage) (result : List RemoteMessage)
      (walk : E → List RawMessage → Listed world) (r : E × (Err ⊎ List RawMessage))
      → ((err : Err) → OnlyOnce (on_error err))
      → OnlyOnce (inr result)
      → ((e : E) (page : List RawMessage) → OnlyOnce (walk e page).1)
      → OnlyOnce (after_page_fetch world on_error result walk r).1
  unfolding after_page_fetch
  after_page_fetch-once on_error result walk (e, inl err) failed ended walked = failed err
  after_page_fetch-once on_error result walk (e, inr []) failed ended walked = ended
  after_page_fetch-once on_error result walk (e, inr (msg ∷ rest)) failed ended walked =
      walked e (msg ∷ rest)

  after_page-once :
      (e : E) (is_last : Gathered → Bool) (next : Gathered → Listed world) (r : Err ⊎ Gathered)
      → GatheredKnown r
      → ((g : Gathered) → AreKnown g.seen g.result → OnlyOnce (next g).1)
      → OnlyOnce (after_page world e is_last next r).1
  unfolding after_page
  after_page-once e is_last next (inl err) known later = tt
  after_page-once e is_last next (inr g) known later = elim (Bool-cases (is_last g)) [
    | inl k ↦ rw (k, OnlyOnce) (AreKnown-once g.seen g.result known)
    | inr k ↦ rw (k, OnlyOnce) (later g known)
  ]

  either_once :
      (b : Bool) (x y : Err ⊎ List RemoteMessage)
      → OnlyOnce x
      → OnlyOnce y
      → OnlyOnce (if b then x else y)
  either_once true x y hx hy = hx
  either_once false x y hx hy = hy

  catch_up-once :
      (pages : ℕ) (first : Bool) (e : E) (conversation since : Text) (seen : List Text)
      (result : List RemoteMessage) (cursor : Text)
      → AreKnown seen result
      → OnlyOnce (catch_up world pages first e conversation since seen result cursor).1
  unfolding catch_up
  catch_up-once zero first e conversation since seen result cursor known =
      AreKnown-once seen result known
  catch_up-once (suc pages) first e conversation since seen result cursor known =
      let once = AreKnown-once seen result known in
      let page = fresh_page world seen result (is_empty since) in
      let next : E → Gathered → Listed world =
        λ e' g. catch_up world pages false e' conversation since g.seen g.result g.oldest in
      after_page_fetch-once (λ err. if first then inl err else inr result) result
        (λ e' msgs.
          after_page world e' (ends_catch_up world) (next e') (gather_page world since page msgs))
        (fetch_messages_page world e conversation list_messages_page_size cursor)
        (λ err. either_once first (inl err) (inr result) tt once) once
        (λ e' msgs.
          after_page-once e' (ends_catch_up world) (next e') (gather_page world since page msgs)
            (gather_page-Known since page msgs known)
            (λ g known'.
              catch_up-once pages false e' conversation since g.seen g.result g.oldest known'))

  paginate-once :
      (fuel : ℕ) (e : E) (conversation : Text) (requested page_size : ℕ) (seen : List Text)
      (result : List RemoteMessage) (cursor : Text)
      → AreKnown seen result
      → OnlyOnce (paginate world fuel e conversation requested page_size seen result cursor).1
  unfolding paginate
  paginate-once zero e conversation requested page_size seen result cursor known =
      AreKnown-once seen result known
  paginate-once (suc fuel) e conversation requested page_size seen result cursor known =
      let once = AreKnown-once seen result known in
      let page = fresh_page world seen result false in
      let next : E → Gathered → Listed world =
        λ e' g. paginate world fuel e' conversation requested page_size g.seen g.result g.oldest in
      elim (Bool-cases (leb requested (length result))) [
        | inl k ↦ rw (k, OnlyOnce) once
        | inr k ↦
            rw (k, OnlyOnce)
              (after_page_fetch-once (λ err. if leb 1 (length result) then inr result else inl err)
                result
                (λ e' msgs.
                  after_page world e' (ends_paginate world page_size) (next e')
                    (gather_page world [] page msgs))
                (fetch_messages_page world e conversation page_size cursor)
                (λ err. either_once (leb 1 (length result)) (inr result) (inl err) once tt) once
                (λ e' msgs.
                  after_page-once e' (ends_paginate world page_size) (next e')
                    (gather_page world [] page msgs) (gather_page-Known [] page msgs known)
                    (λ g known'.
                      paginate-once fuel e' conversation requested page_size g.seen g.result
                        g.oldest known')))
      ]

  sorted_answer-once :
      (sorts : IsSort world.sort_slice) (r : Listed world)
      → OnlyOnce r.1
      → OnlyOnce (sorted_answer world r).1
  unfolding sorted_answer
  sorted_answer-once sorts (e, inl err) once = tt
  sorted_answer-once sorts (e, inr ms) once =
      λ k full. rw (sorts.moves comes_before ms (λ m. trim_space m.message_id ≗ k)) (once k full)

  sorted_answer-IsInOrder :
      (sorts : IsSort world.sort_slice) (r : Listed world) (listed : List RemoteMessage)
      → (sorted_answer world r).1 ≡ inr listed
      → All (λ m. is_decimal m ≡ true) listed
      → IsInOrder number listed
  unfolding sorted_answer
  sorted_answer-IsInOrder sorts (e, inl err) listed is_it decimal = absurd (cc is_it)
  sorted_answer-IsInOrder sorts (e, inr ms) listed is_it decimal =
      let same : world.sort_slice comes_before ms ≡ listed = cc is_it in
      let none_other : count (λ m. not (is_decimal m)) ms ≡ 0 =
        sym (sorts.moves comes_before ms (λ m. not (is_decimal m)))
        ∙ rw same (count-All is_decimal listed decimal) in
      rw (← same) (
        sorts.orders comes_before ms is_decimal number (All-count is_decimal ms none_other)
          comes_before-number)

  once_of :
      (r : Err ⊎ List RemoteMessage) (listed : List RemoteMessage)
      → r ≡ inr listed
      → OnlyOnce r
      → OnlyOnce (inr listed)
  once_of r listed is_it once = subst OnlyOnce is_it once

  none_known : AreKnown [] []
  none_known k full = ground arith

  -- No message ID is twice in a list of a conversation's messages, whatever the server's pages hold.
  list_messages-once :
      (sorts : IsSort world.sort_slice) (e : E) (conversation since : Text)
      → OnlyOnce (list_messages world e conversation since).1
  unfolding list_messages
  list_messages-once sorts e conversation since =
      elim (Option-cases (refused_list world conversation)) [
        | inl h ↦
            rw (h, OnlyOnce)
              (sorted_answer-once sorts _ (
                catch_up-once list_messages_max_catchup_pages true e conversation (trim_space since)
                  [] [] [] none_known))
        | inr (err, h) ↦ rw (h, OnlyOnce) tt
      ]

  -- Where a list of a conversation's messages is no error, no message ID is twice in it, whatever the
  -- server's pages hold; and its sequence IDs do not go down as numbers, unless there is one that is no
  -- decimal number. Of sort.Slice this takes that it moves the messages, and orders them by numbers.
  pub list_messages-IsListing :
      (sorts : IsSort world.sort_slice) (e : E) (conversation since k : Text)
      (listed : List RemoteMessage)
      → is_empty k ≡ false
      → (list_messages world e conversation since).1 ≡ inr listed
      → (occurrences k listed ≤ 1) × ((all_decimal listed ≡ false) ⊎ IsInOrder number listed)
  unfolding list_messages
  list_messages-IsListing sorts e conversation since k listed full is_it = (
    once_of _ listed is_it (list_messages-once sorts e conversation since) k full,
    elim (Bool-cases (all_decimal listed)) [
      | inr other ↦ inl other
      | inl decimal ↦ elim (Option-cases (refused_list world conversation)) [
        | inl h ↦ inr (
            sorted_answer-IsInOrder sorts _ listed (rw (h, list_messages) at is_it)
              (all_decimal-All listed decimal))
        | inr (err, h) ↦ absurd (cc (rw (h, list_messages) at is_it))
      ]
    ],
  )

  -- The same holds of the list that is paged through for history.
  list_messages_paginated-once :
      (sorts : IsSort world.sort_slice) (e : E) (conversation : Text) (page_size : ℕ)
      (start_time : Text)
      → OnlyOnce (list_messages_paginated world e conversation page_size start_time).1
  unfolding list_messages_paginated
  list_messages_paginated-once sorts e conversation page_size start_time =
      let requested = if page_size == 0 then 50 else page_size in
      elim (Option-cases (refused_list world conversation)) [
        | inl h ↦
            rw (h, OnlyOnce)
              (sorted_answer-once sorts _ (
                paginate-once requested e conversation requested (min requested 200) [] []
                  start_time none_known))
        | inr (err, h) ↦ rw (h, OnlyOnce) tt
      ]
