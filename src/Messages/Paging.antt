-- ===== src/Messages/Paging.antt =====
-- internal/teams/client/messages.go: the rounds of ListMessagesPaginated.
use mautrix_teams.Base.{
  ℕ, zero, suc, ◌+◌, ◌≤◌, ◌≡◌, refl, true, false, Option, none, some, List, [], ◌∷◌, ◌⊎◌, inl, inr,
  arith, Bool-cases, length, length-append, leb, if◌then◌else◌,
}
use mautrix_teams.Base.Text.{Text}
use mautrix_teams.Errors.{Err}
use mautrix_teams.Ingest.{RemoteMessage}
use mautrix_teams.Messages.{
  RawMessage, MessagesWorld, Gathered, gather_page, gather_rest, gather_answer, gather,
  convert_remote_message, fresh_page, paginate, after_page_fetch, after_page, ends_paginate, Listed,
  fetch_messages_page,
}

module _ {E : Type 0} (world : MessagesWorld E) (before : ℕ) where
  -- Every message of the page's batch was added to those before.
  abbrev Counts : Err ⊎ Gathered → Type 0
  Counts (inl err) = Unit
  Counts (inr g) = length g.result ≡ before + g.batch

  gather_answer-Counts :
      (since : Text) (g : Gathered) (r : List Text × (Err ⊎ Option RemoteMessage))
      → length g.result ≡ before + g.batch
      → Counts (gather_answer world since g r)
  unfolding gather_answer gather
  gather_answer-Counts since g (seen, inl err) h = tt
  gather_answer-Counts since g (seen, inr none) h = h
  gather_answer-Counts since g (seen, inr (some m)) h =
      omega (arith, length-append {0} g.result (m ∷ []))

  gather_rest-Counts :
      (rest : Gathered → Err ⊎ Gathered) (r : Err ⊎ Gathered)
      → Counts r
      → ((g : Gathered) → length g.result ≡ before + g.batch → Counts (rest g))
      → Counts (gather_rest world rest r)
  unfolding gather_rest
  gather_rest-Counts rest (inl err) h later = tt
  gather_rest-Counts rest (inr g) h later = later g h

  gather_page-Counts :
      (since : Text) (g : Gathered) (page : List RawMessage)
      → length g.result ≡ before + g.batch
      → Counts (gather_page world since g page)
  unfolding gather_page
  gather_page-Counts since g [] h = h
  gather_page-Counts since g (msg ∷ rest) h =
      gather_rest-Counts (λ g'. gather_page world since g' rest) _
        (gather_answer-Counts since g (convert_remote_message world msg g.seen) h)
        (λ g' h'. gather_page-Counts since g' rest h')

module _ {E : Type 0} (world : MessagesWorld E) where
  after_page_fetch-same :
      (on_error : Err → Err ⊎ List RemoteMessage) (result : List RemoteMessage)
      (walk other : E → List RawMessage → Listed world) (r : E × (Err ⊎ List RawMessage))
      → ((e : E) (page : List RawMessage) → walk e page ≡ other e page)
      → after_page_fetch world on_error result walk r
        ≡ after_page_fetch world on_error result other r
  unfolding after_page_fetch
  after_page_fetch-same on_error result walk other (e, inl err) same = refl
  after_page_fetch-same on_error result walk other (e, inr []) same = refl
  after_page_fetch-same on_error result walk other (e, inr (msg ∷ rest)) same = same e (msg ∷ rest)

  after_page-same :
      (before page_size : ℕ) (e : E) (next other : Gathered → Listed world) (r : Err ⊎ Gathered)
      → Counts world before r
      → ((g : Gathered) → before + page_size ≤ length g.result → next g ≡ other g)
      → after_page world e (ends_paginate world page_size) next r
        ≡ after_page world e (ends_paginate world page_size) other r
  unfolding after_page
  after_page-same before page_size e next other (inl err) counts same = refl
  after_page-same before page_size e next other (inr g) counts same =
      elim (Bool-cases (ends_paginate world page_size g)) [
        | inl k ↦ rw (k, after_page) refl
        | inr k ↦ rw (k, after_page) (same g (ground (arith, k, counts)))
      ]

  -- With as many rounds as messages are wanted, one more round changes nothing: the loop has ended
  -- by its own tests. A page is asked for by its size, which is at least 1.
  pub paginate-enough :
      (fuel : ℕ) (e : E) (conversation : Text) (requested page_size : ℕ) (seen : List Text)
      (result : List RemoteMessage) (cursor : Text)
      → 1 ≤ page_size
      → requested ≤ length result + fuel
      → paginate world (suc fuel) e conversation requested page_size seen result cursor
        ≡ paginate world fuel e conversation requested page_size seen result cursor
  unfolding paginate
  paginate-enough zero e conversation requested page_size seen result cursor one h =
      let full : leb requested (length result) ≡ true = ground (arith, h) in
      rw (full, paginate) refl
  paginate-enough (suc fuel) e conversation requested page_size seen result cursor one h =
      let page = fresh_page world seen result false in
      let next : ℕ → E → Gathered → Listed world = λ rounds e' g.
        paginate world rounds e' conversation requested page_size g.seen g.result g.oldest in
      let walk : ℕ → E → List RawMessage → Listed world = λ rounds e' msgs.
        after_page world e' (ends_paginate world page_size) (next rounds e')
          (gather_page world [] page msgs) in
      elim (Bool-cases (leb requested (length result))) [
        | inl k ↦ rw (k, paginate) refl
        | inr k ↦
            rw (k, paginate)
              (after_page_fetch-same (λ err. if leb 1 (length result) then inr result else inl err)
                result (walk (suc fuel)) (walk fuel)
                (fetch_messages_page world e conversation page_size cursor)
                (λ e' msgs.
                  after_page-same (length result) page_size e' (next (suc fuel) e') (next fuel e')
                    (gather_page world [] page msgs)
                    (gather_page-Counts world (length result) [] page msgs (omega arith))
                    (λ g more.
                      paginate-enough fuel e' conversation requested page_size g.seen g.result
                        g.oldest one (omega arith))))
      ]
