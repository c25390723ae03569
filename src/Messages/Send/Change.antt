-- ===== src/Messages/Send/Change.antt =====
-- internal/teams/client/messages.go: EditMessage, DeleteMessage and ForwardMessages, which ask once,
-- without the executor.
use mautrix_teams.Base.{
  ℕ, not, ◌||◌, Option, none, some, List, [], ◌∷◌, ◌++◌, ◌⊎◌, inl, inr, if◌then◌else◌, leb, ltb,
}
use mautrix_teams.Base.Text.{Text, codes, trim_space, is_empty}
use mautrix_teams.Base.Decimal.{itoa}
use mautrix_teams.Errors.{Err, other}
use mautrix_teams.Messages.Send.{
  SendRequest, SendResponse, SendWorld, text, mentions, message, forward, missing_http_client,
  missing_token, conversation_url, request_of,
}

abbrev pub forward_template_id : Text
forward_template_id = codes "basic_forward_message_template"

module _ {E M : Type 0} (world : SendWorld E M) where
  -- The end of a call: the error of the HTTP client, or of a status other than 200 to 299.
  unfoldable pub check_status : (SendResponse → Text) → E × (Err ⊎ SendResponse) → E × Option Err
  check_status describe (e, inl err) = (e, some err)
  check_status describe (e, inr resp) =
      if ltb resp.status 200 || leb 300 resp.status
      then (e, some (other (describe resp)))
      else (e, none)

  unfoldable pub ask_once : (SendResponse → Text) → E → SendRequest M → Option Err → E × Option Err
  unfolding check_status
  ask_once describe e req (some err) = (e, some err)
  ask_once describe e req none = check_status describe (world.direct e req)

  unfoldable pub failed_with : Text → Text → ℕ → Text
  unfolding itoa
  failed_with what snippet status =
      what ++ codes " failed with status " ++ itoa status ++ codes ": " ++ snippet

  -- What EditMessage and DeleteMessage check first.
  unfoldable pub refused_change : Text → Text → Option Err
  unfolding trim_space
  refused_change thread message_id =
      if not world.has_http
      then some missing_http_client
      else if is_empty world.token
      then some missing_token
      else if is_empty (trim_space thread) || is_empty (trim_space message_id)
      then some (other (codes "missing thread or message id"))
      else none

  unfoldable pub message_url : Text → Text → Text
  unfolding conversation_url
  message_url thread message_id =
      conversation_url world thread ++ codes "/messages/" ++ world.path_escape message_id

  unfoldable pub edit_request : E → Text → Text → Text → Text → List M → SendRequest M
  unfolding message_url request_of
  edit_request e thread message_id html user named =
      request_of world (codes "PUT") (message_url thread message_id) (
        message
          ((codes "type", codes "Message")
            ∷ (codes "conversationid", thread)
            ∷ (codes "content", html)
            ∷ (codes "messagetype", codes "RichText/Html")
            ∷ (codes "contenttype", codes "Text")
            ∷ (codes "composetime", world.now_text e)
            ∷ (codes "skypeeditedid", message_id)
            ∷ (codes "from", user)
            ∷ (codes "fromUserId", user)
            ∷ [])
          (elim named [
            | [] ↦ none
            | ◌∷◌ m rest ↦ some ((codes "mentions", mentions (m ∷ rest)) ∷ [])
          ]))

  unfoldable pub edit_message : E → Text → Text → Text → Text → List M → E × Option Err
  unfolding refused_change edit_request ask_once trim_space failed_with
  edit_message e thread message_id html user named = elim (refused_change thread message_id) [
    | some err ↦ (e, some err)
    | none ↦
        let req = edit_request e (trim_space thread) (trim_space message_id) html user named in
        ask_once (λ resp. failed_with (codes "edit message") (resp.body_start 512) resp.status) e
          req (world.refuses req)
  ]

  unfoldable pub delete_request : E → Text → Text → Text → SendRequest M
  unfolding message_url request_of
  delete_request e thread message_id user =
      request_of world (codes "DELETE") (message_url thread message_id) (
        message
          ((codes "type", codes "Message")
            ∷ (codes "conversationid", thread)
            ∷ (codes "content", [])
            ∷ (codes "messagetype", codes "RichText/Html")
            ∷ (codes "contenttype", codes "Text")
            ∷ (codes "skypeeditedid", message_id)
            ∷ (codes "from", user)
            ∷ (codes "fromUserId", user)
            ∷ [])
          (some ((codes "deletetime", text (world.now_text e)) ∷ [])))

  unfoldable pub delete_message : E → Text → Text → Text → E × Option Err
  unfolding refused_change delete_request ask_once trim_space failed_with
  delete_message e thread message_id user = elim (refused_change thread message_id) [
    | some err ↦ (e, some err)
    | none ↦
        let req = delete_request e (trim_space thread) (trim_space message_id) user in
        ask_once (λ resp. failed_with (codes "delete message") (resp.body_start 512) resp.status) e
          req (world.refuses req)
  ]

  unfoldable pub forward_messages : E → Text → List Text → Text → E × Option Err
  unfolding conversation_url request_of ask_once trim_space failed_with
  forward_messages e source message_ids target =
      let req =
        request_of world (codes "POST") (conversation_url world source ++ codes "/messages/forward")
          (forward target message_ids forward_template_id) in
      if not world.has_http
      then (e, some missing_http_client)
      else if is_empty world.token
      then (e, some missing_token)
      else ask_once
          (λ resp. failed_with (codes "forward") (trim_space (resp.body_start 2048)) resp.status) e
          req (world.refuses req)
