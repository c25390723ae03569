-- ===== src/Messages/Send.antt =====
-- internal/teams/client/messages.go: what is sent to a conversation. The executor's HTTP client, the
-- client that edits, deletes and forwards ask directly, net/url's escapes, the clock and the checks
-- that encoding/json and net/http make of a request are fields of `SendWorld`. A request carries its
-- body before it is encoded.
pub mod Written
pub mod Carried
pub mod Change
pub mod Sent
use mautrix_teams.Base.{
  ℕ, zero, suc, ◌-◌, Bool, true, false, not, ◌&&◌, Option, none, some, List, [], ◌∷◌, ◌++◌, ◌⊎◌,
  inl, inr, leb, ltb, ◌==◌, if◌then◌else◌, length, arith,
}
use mautrix_teams.Base.Assoc.{Assoc, insert}
use mautrix_teams.Base.Int.{ℤ, pos, leb_ℤ, ltb_ℤ, mul64}
use mautrix_teams.Base.Text.{Text, codes, trim_space, is_empty, has_prefix}
use mautrix_teams.Base.Decimal.{parse_int}
use mautrix_teams.Errors.{Err, other, retryable, send_message}
use mautrix_teams.Executor.{Limits, World, Outcome, perform, effective_limits}
use mautrix_teams.Model.Html.Render.{escape}
use mautrix_teams.Messages.{trim_slash}

-- A value of a message's properties: a text or the mentions.
pub data Property (M : Type 0) : Type 0 where
  text : Text → Property M
  mentions : List M → Property M

-- The properties of a message, which may be nil.
abbrev pub Properties : Type 0 → Type 0
Properties M = Option (Assoc (Property M))

-- The fields of a message that are texts, and its properties; or what ForwardMessages encodes: its
-- target, messages and template.
pub data Payload (M : Type 0) : Type 0 where
  message : Assoc Text → Properties M → Payload M
  forward : Text → List Text → Text → Payload M

pub record SendRequest (M : Type 0) : Type 0 where
  pub method : Text
  pub address : Text
  pub payload : Payload M
  pub authentication : Text

-- A response: its status, its header Retry-After, and a read of at most so many bytes of its body.
pub record SendResponse : Type 0 where
  pub status : ℕ
  pub retry_after_header : Text
  pub body_start : ℕ → Text

pub record SendWorld (E M : Type 0) : Type 0 where
  pub has_http : Bool
  pub token : Text
  pub send_messages_url : Text
  pub path_escape : Text → Text
  -- `time.Now().UTC().Format(time.RFC3339Nano)`
  pub now_text : E → Text
  -- what the building of the request fails with, in json.Marshal or http.NewRequestWithContext
  pub refuses : SendRequest M → Option Err
  -- MaxRetries, BaseBackoff and MaxBackoff of the client's executor, if it has one
  pub executor : Option (ℤ × ℤ × ℤ)
  -- what the executor meets when it does a request, and the world after so many sends of it
  pub exchange : E → SendRequest M → World SendResponse
  pub after : E → SendRequest M → ℕ → E
  -- a call of the HTTP client itself
  pub direct : E → SendRequest M → E × (Err ⊎ SendResponse)
  -- `http.ParseTime` and `time.Until`
  pub until : Text → Option ℤ

abbrev pub default_send_messages_url : Text
default_send_messages_url =
    codes "https://teams.live.com/api/chatsvc/consumer/v1/users/ME/conversations"

abbrev pub missing_http_client : Err
missing_http_client = other (codes "consumer client missing http client")

abbrev pub missing_token : Err
missing_token = other (codes "consumer client missing skypetoken")

-- `strings.ReplaceAll`, of an old text that is not empty; so many characters are of the last match.
unfoldable pub replace_after : Text → Text → ℕ → Text → Text
unfolding has_prefix
replace_after old new skip [] = []
replace_after old new (suc skip) (c ∷ s) = replace_after old new skip s
replace_after old new zero (c ∷ s) =
    let found = has_prefix (c ∷ s) old in
    (if found then new else c ∷ []) ++ replace_after old new (if found then length old - 1 else 0) s

unfoldable pub replace_all : Text → Text → Text → Text
replace_all old new s = replace_after old new 0 s

unfoldable pub format_html_content : Text → Text
unfolding replace_all
format_html_content written =
    let normalized = replace_all (codes "\r\n") (codes "\n") written in
    let lines = replace_all (codes "\r") (codes "\n") normalized in
    codes "<p>" ++ replace_all (codes "\n") (codes "<br>") (escape lines) ++ codes "</p>"

unfoldable pub format_gif_content : Text → Text → Text
unfolding escape trim_space
format_gif_content gif_url title =
    let label = if is_empty (trim_space title) then codes "GIF" else trim_space title in
    let full = escape (label ++ codes " (GIF Image)") in
    codes "<p>&nbsp;</p><readonly title=\""
    ++ full
    ++ codes "\" itemtype=\"http://schema.skype.com/Giphy\" contenteditable=\"false\" aria-label=\""
    ++ full
    ++ codes "\"><img style=\"height:auto;margin-top:4px;max-width:100%;\" alt=\""
    ++ full
    ++ codes "\" height=\"250\" width=\"350\" src=\""
    ++ escape (trim_space gif_url)
    ++ codes "\" itemtype=\"http://schema.skype.com/Giphy\"></readonly><p>&nbsp;</p>"

-- The properties that a context carries: `withContextProperty`, `WithImportance`, `WithSubject`.
unfoldable pub with_context_property : Assoc Text → Text → Text → Assoc Text
unfolding insert
with_context_property ctx name value = insert name value ctx

unfoldable pub with_importance : Assoc Text → Text → Assoc Text
unfolding with_context_property
with_importance ctx importance =
    if is_empty importance then ctx else with_context_property ctx (codes "importance") importance

unfoldable pub with_subject : Assoc Text → Text → Assoc Text
unfolding with_context_property
with_subject ctx subject =
    if is_empty subject then ctx else with_context_property ctx (codes "subject") subject

unfoldable pub add_each : {M : Type 0} → Assoc Text → Assoc (Property M) → Assoc (Property M)
unfolding insert
add_each [] props = props
add_each ((k, v) ∷ extra) props = add_each extra (insert k (text v) props)

unfoldable pub with_context_properties : {M : Type 0} → Assoc Text → Properties M → Properties M
unfolding add_each
with_context_properties [] props = props
with_context_properties (entry ∷ extra) none = some (add_each (entry ∷ extra) [])
with_context_properties (entry ∷ extra) (some props) = some (add_each (entry ∷ extra) props)

module _ {E M : Type 0} (world : SendWorld E M) where
  unfoldable pub parse_retry_after : Text → ℤ
  parse_retry_after value =
      let waited : ℤ = elim (world.until value) [
        | some d ↦ if ltb_ℤ (pos 0) d then d else pos 0
        | none ↦ pos 0
      ] in
      if is_empty value then pos 0 else elim (parse_int value) [
        | some seconds ↦ if leb_ℤ (pos 0) seconds then mul64 seconds (pos 1_000_000_000) else waited
        | none ↦ waited
      ]

  unfoldable pub classify_teams_send_response : SendResponse → Option Err
  unfolding parse_retry_after
  classify_teams_send_response resp =
      if leb 200 resp.status && ltb resp.status 300
      then none
      else if resp.status == 429
      then some (
          retryable resp.status (parse_retry_after resp.retry_after_header)
            (codes "teams request retryable error"))
      else if leb 500 resp.status
      then some (retryable resp.status (pos 0) (codes "teams request retryable error"))
      else some (send_message resp.status (resp.body_start 2048))

  -- `validateSendArgs`: the trimmed thread ID.
  unfoldable pub validate_send_args : Text → Text → Text → Text → Bool → Err ⊎ Text
  unfolding trim_space
  validate_send_args thread html user client_id allow_empty =
      if not world.has_http
      then inl missing_http_client
      else if is_empty world.token
      then inl missing_token
      else if is_empty (trim_space thread)
      then inl (other (codes "missing thread id"))
      else if not allow_empty && is_empty (trim_space html)
      then inl (other (codes "missing message content"))
      else if is_empty (trim_space user)
      then inl (other (codes "missing from user id"))
      else if is_empty client_id
      then inl (other (codes "missing client message id"))
      else inr (trim_space thread)

  unfoldable pub conversation_url : Text → Text
  unfolding trim_slash
  conversation_url thread =
      let base =
        if is_empty world.send_messages_url
        then default_send_messages_url
        else world.send_messages_url in
      trim_slash base ++ codes "/" ++ world.path_escape thread

  unfoldable pub request_of : Text → Text → Payload M → SendRequest M
  request_of method address payload = record {
    method = method;
    address = address;
    payload = payload;
    authentication = codes "skypetoken=" ++ world.token;
  }

  unfoldable pub rich_text_request :
      E → Assoc Text → Text → Text → Text → Text → Properties M → SendRequest M
  unfolding conversation_url request_of with_context_properties
  rich_text_request e ctx thread html user client_id props =
      let now = world.now_text e in
      request_of (codes "POST") (conversation_url thread ++ codes "/messages") (
        message
          ((codes "type", codes "Message")
            ∷ (codes "conversationid", thread)
            ∷ (codes "content", html)
            ∷ (codes "messagetype", codes "RichText/Html")
            ∷ (codes "contenttype", codes "Text")
            ∷ (codes "clientmessageid", client_id)
            ∷ (codes "composetime", now)
            ∷ (codes "originalarrivaltime", now)
            ∷ (codes "from", user)
            ∷ (codes "fromUserId", user)
            ∷ [])
          (with_context_properties ctx props))

  -- The limits of the client's executor, or of the one that is made for it.
  unfoldable pub send_limits : Limits
  unfolding effective_limits
  send_limits = elim world.executor [
    | some (max_retries, base, max_backoff) ↦ effective_limits max_retries base max_backoff
    | none ↦ effective_limits (pos 4) (pos 500_000_000) (pos 10_000_000_000)
  ]

  -- What a send returns: a status, 0 without a response, and an error.
  abbrev pub SendResult : Type 0
  SendResult = E × ℕ × Option Err

  abbrev send_refused : E → Err → SendResult
  send_refused e err = (e, 0, some err)

  unfoldable pub after_do : E → SendRequest M → Option (Outcome SendResponse) → SendResult
  after_do e req none = (e, 0, none)
  after_do e req (some o) =
      (world.after e req o.sent, elim o.response [ some r ↦ r.status | none ↦ 0 ], o.error)

  -- The executor's world, with the classifier of sends and a GetBody that does not fail.
  unfoldable pub send_exchange : E → SendRequest M → World SendResponse
  unfolding classify_teams_send_response
  send_exchange e req = record (world.exchange e req) {
    classify = classify_teams_send_response;
    body_err = λ n. none;
  }

  unfoldable pub send_built : E → SendRequest M → Option Err → SendResult
  unfolding after_do send_exchange send_limits perform
  send_built e req (some err) = send_refused e err
  send_built e req none =
      after_do e req
        (perform send_limits (record { get_body = true; body = true }) (send_exchange e req))

  unfoldable pub send_request : E → SendRequest M → SendResult
  unfolding send_built
  send_request e req = send_built e req (world.refuses req)

  unfoldable pub post_rich_text_message :
      E → Assoc Text → Text → Text → Text → Text → Properties M → SendResult
  unfolding rich_text_request send_request
  post_rich_text_message e ctx thread html user client_id props =
      send_request e (rich_text_request e ctx thread html user client_id props)

  unfoldable pub on_valid : E → Err ⊎ Text → (Text → SendResult) → SendResult
  on_valid e (inl err) post = send_refused e err
  on_valid e (inr thread) post = post thread

  unfoldable pub send_rich_text_message_with_id :
      E → Assoc Text → Text → Text → Text → Text → Text → Bool → SendResult
  unfolding on_valid validate_send_args post_rich_text_message trim_space
  send_rich_text_message_with_id e ctx thread html files user client_id allow_empty =
      on_valid e (validate_send_args thread html user client_id allow_empty) (λ valid.
        post_rich_text_message e ctx valid html user client_id
          (if is_empty (trim_space files) then none else some ((codes "files", text files) ∷ [])))

  unfoldable pub send_attachment_message_with_id :
      E → Assoc Text → Text → Text → Text → Text → Text → SendResult
  unfolding send_rich_text_message_with_id trim_space
  send_attachment_message_with_id e ctx thread html files user client_id =
      if is_empty (trim_space files)
      then send_refused e (other (codes "missing files property"))
      else send_rich_text_message_with_id e ctx thread html files user client_id true

  unfoldable pub send_html_message_with_id : E → Assoc Text → Text → Text → Text → Text → SendResult
  unfolding send_rich_text_message_with_id
  send_html_message_with_id e ctx thread html user client_id =
      send_rich_text_message_with_id e ctx thread html [] user client_id false

  unfoldable pub send_rich_text_message_with_mentions :
      E → Assoc Text → Text → Text → Text → Text → List M → SendResult
  unfolding on_valid validate_send_args post_rich_text_message
  send_rich_text_message_with_mentions e ctx thread html user client_id named =
      on_valid e (validate_send_args thread html user client_id false) (λ valid.
        post_rich_text_message e ctx valid html user client_id
          (some ((codes "mentions", mentions named) ∷ [])))

  unfoldable pub reply_properties : Text → List M → Properties M
  reply_properties reply_to [] = some ((codes "replyChainMessageId", text reply_to) ∷ [])
  reply_properties reply_to (m ∷ named) =
      some (
        (codes "replyChainMessageId", text reply_to)
        ∷ (codes "mentions", mentions (m ∷ named))
        ∷ [])

  unfoldable pub send_reply_message :
      E → Assoc Text → Text → Text → Text → Text → Text → List M → SendResult
  unfolding on_valid validate_send_args post_rich_text_message reply_properties trim_space
  send_reply_message e ctx thread html user client_id reply_to named =
      on_valid e (validate_send_args thread html user client_id false) (λ valid.
        if is_empty (trim_space reply_to)
        then send_refused e (other (codes "missing reply-to message id"))
        else post_rich_text_message e ctx valid html user client_id
            (reply_properties (trim_space reply_to) named))

  unfoldable pub send_formatted_message :
      E → Assoc Text → Text → Text → Text → Text → Text → List M → SendResult
  unfolding send_reply_message send_rich_text_message_with_mentions send_html_message_with_id
      trim_space
  send_formatted_message e ctx thread html user client_id reply_to named =
      if not (is_empty (trim_space reply_to))
      then send_reply_message e ctx thread html user client_id reply_to named
      else if ltb 0 (length named)
      then send_rich_text_message_with_mentions e ctx thread html user client_id named
      else send_html_message_with_id e ctx thread html user client_id

  unfoldable pub send_gif_with_id : E → Assoc Text → Text → Text → Text → Text → Text → SendResult
  unfolding send_html_message_with_id format_gif_content
  send_gif_with_id e ctx thread gif_url title user client_id =
      send_html_message_with_id e ctx thread (format_gif_content gif_url title) user client_id
