-- ===== src/Messages/Send/Sent.antt =====
-- internal/teams/client/messages.go: what a formatted message comes to.
use mautrix_teams.Base.{
  ◌++◌, length, ltb, ℕ, ◌+◌, ◌≤◌, ◌<◌, ◌≡◌, refl, Bool, true, false, not, ◌&&◌, Option, none, some,
  List, [], ◌∷◌, ◌⊎◌, inl, inr, arith, if◌then◌else◌, Bool-cases,
}
use mautrix_teams.Base.Assoc.{Assoc, lookup, IsMap}
use mautrix_teams.Base.Text.{Text, codes, trim_space, is_empty, ◌≗◌}
use mautrix_teams.Errors.{Err}
use mautrix_teams.Executor.{Outcome}
use mautrix_teams.Executor.Retries.{IsBounded, perform-IsBounded}
use mautrix_teams.Messages.Send.Carried.{property_of, or_own, with_context_properties_lem}
use mautrix_teams.Messages.{trim_slash}
use mautrix_teams.Messages.Send.{
  conversation_url, with_context_properties, request_of, Property, Properties, SendRequest,
  SendResponse, SendWorld, text, mentions, message, classify_teams_send_response,
  validate_send_args, rich_text_request, send_limits, SendResult, after_do, send_exchange,
  send_request, send_built, request_of, post_rich_text_message, on_valid, reply_properties,
  send_reply_message, send_rich_text_message_with_mentions, send_html_message_with_id,
  send_rich_text_message_with_id, send_formatted_message,
}

-- A property of what a test chooses.
if_true :
    {A : Type 0} (P : A → Type 0) (b : Bool) (x y : A) → b ≡ true → P x → P (if b then x else y)
if_true P true x y h p = p
if_true P false x y h p = absurd (cc)

if_false :
    {A : Type 0} (P : A → Type 0) (b : Bool) (x y : A) → b ≡ false → P y → P (if b then x else y)
if_false P true x y h p = absurd (cc)
if_false P false x y h p = p

abbrev pub names_someone : {M : Type 0} → List M → Bool
names_someone [] = false
names_someone (m ∷ named) = true

module _ {E M : Type 0} (world : SendWorld E M) where
  -- Nothing was asked.
  abbrev pub IsRefused : E → SendResult world → Type 0
  IsRefused e (e', status, err) = (e' ≡ e) × (status ≡ 0) × ((cause : Err) × (err ≡ some cause))

  -- The request was sent, at most once more than the limits allow retries, and without an error
  -- Teams accepted it.
  abbrev pub IsSent : E → SendRequest M → SendResult world → Type 0
  IsSent e req (e', status, err) =
      ((n : ℕ) × (e' ≡ world.after e req n) × (n ≤ (send_limits world).max_retries + 1))
      × (err ≡ none → (200 ≤ status) × (status < 300))

  accepted :
      (r : SendResponse)
      → classify_teams_send_response world r ≡ none
      → (200 ≤ r.status) × (r.status < 300)
  unfolding classify_teams_send_response
  accepted r h = ground (arith, h)

  after_do-IsSent :
      (e : E) (req : SendRequest M) (o : Option (Outcome SendResponse))
      → IsBounded (classify_teams_send_response world) (send_limits world).max_retries o
      → IsSent e req (after_do world e req o)
  unfolding after_do
  after_do-IsSent e req none h = absurd h.1
  after_do-IsSent e req (some o) h =
      ((o.sent, refl, h.0), λ ok. let (r, found, fine) = h.2 ok in rw found (accepted r fine))

  send_built-IsSent :
      (e : E) (req : SendRequest M) (o : Option Err)
      → IsRefused e (send_built world e req o) ⊎ IsSent e req (send_built world e req o)
  unfolding send_built send_exchange
  send_built-IsSent e req (some err) = inl (refl, refl, (err, refl))
  send_built-IsSent e req none = inr (
      after_do-IsSent e req _ (
        perform-IsBounded (send_limits world) (record { get_body = true; body = true })
          (send_exchange world e req)))

  send_request-IsSent :
      (e : E) (req : SendRequest M)
      → IsRefused e (send_request world e req) ⊎ IsSent e req (send_request world e req)
  unfolding send_request
  send_request-IsSent e req = send_built-IsSent e req (world.refuses req)

  -- What the message asks for by itself: a reply names the message that it answers.
  abbrev pub asked : Text → List M → Text → Option (Property M)
  asked reply_to named name =
      if not (is_empty (trim_space reply_to)) && codes "replyChainMessageId" ≗ name
      then some (text (trim_space reply_to))
      else if names_someone named && codes "mentions" ≗ name
      then some (mentions named)
      else none

  -- The address of a thread's messages, below the client's address of conversations or the default.
  abbrev pub messages_address : Text → Text
  messages_address thread =
      (trim_slash (
          if is_empty world.send_messages_url
          then codes "https://teams.live.com/api/chatsvc/consumer/v1/users/ME/conversations"
          else world.send_messages_url)
        ++ codes "/"
        ++ world.path_escape thread)
      ++ codes "/messages"

  -- A request that carries the message to its thread: to the address of the thread's messages, with
  -- the client's token.
  abbrev pub Carries :
      Assoc Text → Text → Text → Text → Text → Text → List M → SendRequest M → Type 0
  Carries ctx thread html user client_id reply_to named req =
      (req.method ≡ codes "POST")
      × (req.address ≡ messages_address (trim_space thread))
      × (req.authentication ≡ codes "skypetoken=" ++ world.token)
      × ((fields : Assoc Text) × (props : Properties M) × (req.payload ≡ message fields props)
          × (lookup (codes "conversationid") fields ≡ some (trim_space thread))
          × (lookup (codes "content") fields ≡ some html)
          × (lookup (codes "clientmessageid") fields ≡ some client_id)
          × (lookup (codes "from") fields ≡ some user)
          × ((name : Text)
              → property_of name props ≡ or_own (lookup name ctx) (asked reply_to named name)))

  rich_text_request-Carries :
      (e : E) (ctx : Assoc Text) (thread html user client_id reply_to : Text) (named : List M)
      (props : Properties M)
      → IsMap ctx
      → ((name : Text) → property_of name props ≡ asked reply_to named name)
      → Carries ctx thread html user client_id reply_to named
          (rich_text_request world e ctx (trim_space thread) html user client_id props)
  unfolding rich_text_request request_of conversation_url lookup ◌≗◌
  rich_text_request-Carries e ctx thread html user client_id reply_to named props distinct own = (
    refl,
    refl,
    refl,
    (
      _,
      with_context_properties ctx props,
      refl,
      refl,
      refl,
      refl,
      refl,
      λ name. rw (with_context_properties_lem ctx props name distinct, own name) refl,
    ),
  )

  -- All that a message needs is there.
  abbrev pub IsValid : Text → Text → Text → Text → Type 0
  IsValid thread html user client_id =
      (is_empty (trim_space thread) ≡ false)
      × (is_empty (trim_space html) ≡ false)
      × (is_empty (trim_space user) ≡ false)
      × (is_empty client_id ≡ false)

  validate_send_args-IsValid :
      (thread html user client_id t : Text)
      → validate_send_args world thread html user client_id false ≡ inr t
      → (t ≡ trim_space thread) × IsValid thread html user client_id
  unfolding validate_send_args
  validate_send_args-IsValid thread html user client_id t h = ground (arith, h)

  -- What a call with these arguments comes to.
  abbrev pub Formatted :
      E → Assoc Text → Text → Text → Text → Text → Text → List M → SendResult world → Type 0
  Formatted e ctx thread html user client_id reply_to named r =
      IsRefused e r
      ⊎ (IsValid thread html user client_id
          × ((req : SendRequest M) × Carries ctx thread html user client_id reply_to named req
              × IsSent e req r))

  post_rich_text_message-Formatted :
      (e : E) (ctx : Assoc Text) (thread html user client_id reply_to : Text) (named : List M)
      (props : Properties M)
      → IsMap ctx
      → IsValid thread html user client_id
      → ((name : Text) → property_of name props ≡ asked reply_to named name)
      → Formatted e ctx thread html user client_id reply_to named
          (post_rich_text_message world e ctx (trim_space thread) html user client_id props)
  unfolding post_rich_text_message
  post_rich_text_message-Formatted e ctx thread html user client_id reply_to named props distinct
        valid own =
      let req = rich_text_request world e ctx (trim_space thread) html user client_id props in
      elim (send_request-IsSent e req) [
        | inl refused ↦ inl refused
        | inr sent ↦ inr (
          valid,
          (
            req,
            rich_text_request-Carries e ctx thread html user client_id reply_to named props distinct
                own,
            sent,
          ),
        )
      ]

  on_valid-Formatted :
      (e : E) (ctx : Assoc Text) (thread html user client_id reply_to : Text) (named : List M)
      (v : Err ⊎ Text) (post : Text → SendResult world)
      → validate_send_args world thread html user client_id false ≡ v
      → (IsValid thread html user client_id
          → Formatted e ctx thread html user client_id reply_to named (post (trim_space thread)))
      → Formatted e ctx thread html user client_id reply_to named (on_valid world e v post)
  unfolding on_valid
  on_valid-Formatted e ctx thread html user client_id reply_to named (inl err) post h posted =
      inl (refl, refl, (err, refl))
  on_valid-Formatted e ctx thread html user client_id reply_to named (inr t) post h posted =
      let (same, valid) = validate_send_args-IsValid thread html user client_id t h in
      rw same (posted valid)

  reply_properties_lem :
      (reply_to : Text) (named : List M) (name : Text)
      → is_empty (trim_space reply_to) ≡ false
      → property_of name (reply_properties world (trim_space reply_to) named)
        ≡ asked reply_to named name
  unfolding reply_properties lookup
  reply_properties_lem reply_to [] name h = rw h refl
  reply_properties_lem reply_to (m ∷ named) name h = rw h refl

  reply-Formatted :
      (e : E) (ctx : Assoc Text) (thread html user client_id reply_to : Text) (named : List M)
      → IsMap ctx
      → is_empty (trim_space reply_to) ≡ false
      → Formatted e ctx thread html user client_id reply_to named
          (send_reply_message world e ctx thread html user client_id reply_to named)
  unfolding send_reply_message
  reply-Formatted e ctx thread html user client_id reply_to named distinct h =
      let P = Formatted e ctx thread html user client_id reply_to named in
      on_valid-Formatted e ctx thread html user client_id reply_to named _ _ refl (λ valid.
        if_false P (is_empty (trim_space reply_to)) _ _ h (
          post_rich_text_message-Formatted e ctx thread html user client_id reply_to named
            (reply_properties world (trim_space reply_to) named) distinct valid
            (λ name. reply_properties_lem reply_to named name h)))

  mentions-Formatted :
      (e : E) (ctx : Assoc Text) (thread html user client_id reply_to : Text) (m : M)
      (named : List M)
      → IsMap ctx
      → is_empty (trim_space reply_to) ≡ true
      → Formatted e ctx thread html user client_id reply_to
          (m ∷ named)
          (send_rich_text_message_with_mentions world e ctx thread html user client_id (m ∷ named))
  unfolding send_rich_text_message_with_mentions lookup
  mentions-Formatted e ctx thread html user client_id reply_to m named distinct h =
      on_valid-Formatted e ctx thread html user client_id reply_to (m ∷ named) _ _ refl (λ valid.
        post_rich_text_message-Formatted e ctx thread html user client_id reply_to (m ∷ named) _
          distinct valid (λ name. rw h refl))

  plain-Formatted :
      (e : E) (ctx : Assoc Text) (thread html user client_id reply_to : Text)
      → IsMap ctx
      → is_empty (trim_space reply_to) ≡ true
      → Formatted e ctx thread html user client_id reply_to []
          (send_html_message_with_id world e ctx thread html user client_id)
  unfolding send_html_message_with_id send_rich_text_message_with_id trim_space
  plain-Formatted e ctx thread html user client_id reply_to distinct h =
      on_valid-Formatted e ctx thread html user client_id reply_to [] _ _ refl (λ valid.
        post_rich_text_message-Formatted e ctx thread html user client_id reply_to [] none distinct
          valid (λ name. rw h refl))

  -- A call of SendFormattedMessage, where the context gives no property twice, either returns an error
  -- without asking Teams, or its arguments are there and one request is posted to the address of its
  -- thread's messages, with the client's token, which carries the message: it has the properties of the context and, of the others, the message that it answers and
  -- those whom it mentions. That request goes out at most once more than the executor may retry, and
  -- where no error is returned Teams answered it with a status from 200 to 299.
  pub send_formatted_message-Formatted :
      (e : E) (ctx : Assoc Text) (thread html user client_id reply_to : Text) (named : List M)
      → IsMap ctx
      → Formatted e ctx thread html user client_id reply_to named
          (send_formatted_message world e ctx thread html user client_id reply_to named)
  unfolding send_formatted_message
  send_formatted_message-Formatted e ctx thread html user client_id reply_to [] distinct =
      let P = Formatted e ctx thread html user client_id reply_to [] in
      elim (Bool-cases (is_empty (trim_space reply_to))) [
        | inl h ↦
            if_false P (not (is_empty (trim_space reply_to))) _ _ (rw h refl)
              (plain-Formatted e ctx thread html user client_id reply_to distinct h)
        | inr h ↦
            if_true P (not (is_empty (trim_space reply_to))) _ _ (rw h refl)
              (reply-Formatted e ctx thread html user client_id reply_to [] distinct h)
      ]
  send_formatted_message-Formatted e ctx thread html user client_id reply_to (m ∷ named) distinct =
      let P = Formatted e ctx thread html user client_id reply_to (m ∷ named) in
      elim (Bool-cases (is_empty (trim_space reply_to))) [
        | inl h ↦ if_false P (not (is_empty (trim_space reply_to))) _ _ (rw h refl) (
            if_true P (ltb 0 (length (m ∷ named))) _ _ (ground arith)
              (mentions-Formatted e ctx thread html user client_id reply_to m named distinct h))
        | inr h ↦
            if_true P (not (is_empty (trim_space reply_to))) _ _ (rw h refl)
              (reply-Formatted e ctx thread html user client_id reply_to (m ∷ named) distinct h)
      ]
