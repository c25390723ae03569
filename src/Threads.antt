-- ===== src/Threads.antt =====
-- internal/teams/client/conversations.go: the list of conversations, and what is asked about a thread.
-- HTTP with its JSON and net/url's escapes are fields of `ThreadsWorld`; a request carries its body
-- before it is encoded.
pub mod Created
use mautrix_teams.Base.{
  ℕ, zero, suc, ◌+◌, Bool, true, false, not, ◌&&◌, ◌||◌, Option, none, some, List, [], ◌∷◌, ◌++◌,
  ◌⊎◌, inl, inr, leb, ltb, ◌==◌, if◌then◌else◌,
}
use mautrix_teams.Base.Assoc.{Assoc, lookup, insert}
use mautrix_teams.Base.Int.{ℤ, pos}
use mautrix_teams.Base.Text.{Text, codes, trim_space, is_empty, cut, contains, ◌≗◌}
use mautrix_teams.Base.Decimal.{itoa}
use mautrix_teams.Errors.{Err, other, retryable}
use mautrix_teams.Messages.{trim_slash, default_messages_url}
use mautrix_teams.Messages.Send.{default_send_messages_url, missing_http_client, missing_token}
use mautrix_teams.Model.Conversation.{RemoteConversation}

-- A body: a map of texts, or a new chat's members and properties.
pub data ThreadBody : Type 0 where
  no_body : ThreadBody
  texts : Assoc Text → ThreadBody
  chat : List (Assoc Text) → Assoc Text → ThreadBody

pub record ThreadRequest : Type 0 where
  pub method : Text
  pub address : Text
  pub body : ThreadBody
  pub authentication : Text

-- A response: its status, what parseRetryAfter makes of its Retry-After, its Location, a read of at most so many bytes of its body, and
-- the conversations that all of the body is decoded to.
pub record ThreadResponse : Type 0 where
  pub status : ℕ
  pub retry_after : ℤ
  pub location : Text
  pub body_start : ℕ → Text
  pub conversations : Err ⊎ List RemoteConversation

pub record ThreadsWorld (E : Type 0) : Type 0 where
  pub has_http : Bool
  pub token : Text
  pub conversations_url : Text
  pub messages_url : Text
  pub send_messages_url : Text
  pub path_escape : Text → Text
  pub query_escape : Text → Text
  -- what the building of the request fails with
  pub refuses : ThreadRequest → Option Err
  pub direct : E → ThreadRequest → E × (Err ⊎ ThreadResponse)
  -- fetchJSON of a thread: its properties as JSON, and the IDs of its members
  pub fetch_thread : E → Text → E × (Err ⊎ (Assoc Text × List Text))
  -- json.Unmarshal into a string, and json.Marshal of a list of maps
  pub json_string : Text → Option Text
  pub json_maps : List (Assoc Text) → Text

abbrev pub default_conversations_url : Text
default_conversations_url =
    codes "https://teams.live.com/api/chatsvc/consumer/v1/users/ME/conversations"

abbrev pub max_error_body_bytes : ℕ
max_error_body_bytes = 2048

-- `strings.TrimRight(s, "/")`.
unfoldable pub trim_slashes : Text → Text
trim_slashes [] = []
trim_slashes (c ∷ s) =
    let rest = trim_slashes s in if is_empty rest && c == b'/' then [] else c ∷ rest

-- The text before the first match, as `trimmed[:strings.Index(…)]`.
unfoldable pub derive_base_url : Text → Text
unfolding trim_space trim_slash cut trim_slashes
derive_base_url full =
    let trimmed = trim_slash (trim_space full) in
    elim (cut trimmed (codes "/v1/users/ME")) [
      | some (before, after) ↦ before
      | none ↦ elim (cut trimmed (codes "/v1/threads")) [
        | some (before, after) ↦ before
        | none ↦ trim_slashes trimmed
      ]
    ]

-- `parts[len(parts)-1]` of `strings.Split(s, "/")`: what is after the last slash, with what was read
-- since one.
unfoldable pub last_part : Text → Text → Text
last_part read [] = read
last_part read (c ∷ s) = last_part (if c == b'/' then [] else read ++ c ∷ []) s

unfoldable pub thread_of_location : Text → Err ⊎ Text
unfolding last_part trim_slashes
thread_of_location location =
    if is_empty location
    then inl (other (codes "create conversation response missing Location header"))
    else let id = last_part [] (trim_slashes location) in
      if is_empty id
      then inl (other (codes "could not extract thread ID from Location header"))
      else inr id

-- The members of a new chat, of whom the first is its administrator.
abbrev member_as : Text → Text → Assoc Text
member_as role mri = (codes "id", mri) ∷ (codes "role", role) ∷ []

unfoldable pub plain_members : List Text → List (Assoc Text)
plain_members [] = []
plain_members (mri ∷ mris) = member_as (codes "User") mri ∷ plain_members mris

unfoldable pub new_members : List Text → List (Assoc Text)
unfolding plain_members
new_members [] = []
new_members (mri ∷ mris) = member_as (codes "Admin") mri ∷ plain_members mris

abbrev is_no_one : List Text → Bool
is_no_one [] = true
is_no_one (mri ∷ mris) = false

unfoldable pub new_properties : Text → Assoc Text
unfolding trim_space
new_properties topic =
    (codes "threadType", codes "chat")
    ∷ (if is_empty (trim_space topic) then [] else (codes "topic", topic) ∷ [])

-- The items of a thread's pinned messages.
unfoldable pub pinned_items : List Text → List (Assoc Text)
pinned_items [] = []
pinned_items (id ∷ ids) =
    ((codes "itemId", id) ∷ (codes "itemType", codes "Message") ∷ []) ∷ pinned_items ids

-- The trimmed IDs of the members that have one.
unfoldable pub member_ids : List Text → List Text
unfolding trim_space
member_ids [] = []
member_ids (id ∷ ids) =
    let rest = member_ids ids in if is_empty (trim_space id) then rest else trim_space id ∷ rest

module _ {E : Type 0} (world : ThreadsWorld E) where
  unfoldable pub thread_request : Text → Text → ThreadBody → ThreadRequest
  thread_request method address body = record {
    method = method;
    address = address;
    body = body;
    authentication = codes "skypetoken=" ++ world.token;
  }

  -- The address of the threads, from the address of sends.
  unfoldable pub threads_url : Text
  unfolding derive_base_url
  threads_url =
      derive_base_url (
        if is_empty world.send_messages_url
        then default_send_messages_url
        else world.send_messages_url)
      ++ codes "/v1/threads"

  -- The error of the HTTP client, or of a status other than 200 to 299, or the response.
  unfoldable pub accept_status :
      (ThreadResponse → Err) → E × (Err ⊎ ThreadResponse) → E × (Err ⊎ ThreadResponse)
  accept_status describe (e, inl err) = (e, inl err)
  accept_status describe (e, inr resp) =
      if ltb resp.status 200 || leb 300 resp.status then (e, inl (describe resp)) else (e, inr resp)

  unfoldable pub asked_once :
      (ThreadResponse → Err) → E → ThreadRequest → Option Err → E × (Err ⊎ ThreadResponse)
  unfolding accept_status
  asked_once describe e req (some err) = (e, inl err)
  asked_once describe e req none = accept_status describe (world.direct e req)

  unfoldable pub ask_threads :
      (ThreadResponse → Err) → E → ThreadRequest → E × (Err ⊎ ThreadResponse)
  unfolding asked_once
  ask_threads describe e req = asked_once describe e req (world.refuses req)

  unfoldable pub status_error : Text → ThreadResponse → Err
  unfolding itoa
  status_error what resp = other (
      what
      ++ codes " failed with status "
      ++ itoa resp.status
      ++ codes ": "
      ++ resp.body_start max_error_body_bytes)

  abbrev error_only : E × (Err ⊎ ThreadResponse) → E × Option Err
  error_only (e, inl err) = (e, some err)
  error_only (e, inr resp) = (e, none)

  abbrev no_client : Option Err
  no_client =
      if not world.has_http
      then some missing_http_client
      else if is_empty world.token
      then some missing_token
      else none

  unfoldable pub conversations_error : ThreadResponse → Err
  conversations_error resp =
      if resp.status == 429
      then retryable resp.status resp.retry_after (codes "teams request retryable error")
      else other (codes "conversations request failed")

  unfoldable pub conversations_endpoint : ℕ → Text
  unfolding contains itoa
  conversations_endpoint page_size =
      let endpoint =
        if is_empty world.conversations_url
        then default_conversations_url
        else world.conversations_url in
      if ltb 0 page_size
      then endpoint
        ++ (if contains endpoint (codes "?") then codes "&" else codes "?")
        ++ codes "pageSize="
        ++ itoa page_size
      else endpoint

  conversations_of : E × (Err ⊎ ThreadResponse) → E × (Err ⊎ List RemoteConversation)
  conversations_of (e, inl err) = (e, inl err)
  conversations_of (e, inr resp) = (e, resp.conversations)

  -- `listConversations`, of a page size that is not negative.
  unfoldable pub list_conversations : E → Text → ℕ → E × (Err ⊎ List RemoteConversation)
  unfolding conversations_endpoint ask_threads conversations_error conversations_of
  list_conversations e token page_size =
      if not world.has_http
      then (e, inl missing_http_client)
      else conversations_of (
          ask_threads conversations_error e (record {
            method = codes "GET";
            address = conversations_endpoint page_size;
            body = no_body;
            authentication = codes "skypetoken=" ++ token;
          }))

  unfoldable pub thread_endpoint : Text → Text
  unfolding derive_base_url
  thread_endpoint thread =
      derive_base_url
        (if is_empty world.messages_url then default_messages_url else world.messages_url)
      ++ codes "/v1/threads/"
      ++ world.path_escape thread
      ++ codes "?view=msnp24Equivalent"

  -- A JSON value of a property, as a text; `none` is left out.
  unfoldable pub property_text : Text → Option Text
  unfolding ◌≗◌
  property_text raw =
      if is_empty raw || raw ≗ codes "null"
      then none
      else elim (world.json_string raw) [ some s ↦ some s | none ↦ some raw ]

  unfoldable pub decoded_properties : Assoc Text → Assoc Text
  unfolding property_text insert
  decoded_properties [] = []
  decoded_properties ((name, raw) ∷ rest) =
      let others = decoded_properties rest in
      elim (property_text raw) [ some s ↦ insert name s others | none ↦ others ]

  get_thread : {A : Type 0} → E → Text → (Assoc Text × List Text → A) → E × (Err ⊎ A)
  unfolding thread_endpoint trim_space
  get_thread e thread read = elim no_client [
    | some err ↦ (e, inl err)
    | none ↦
        if is_empty (trim_space thread)
        then (e, inl (other (codes "missing thread id")))
        else let (e', answer) = world.fetch_thread e (thread_endpoint (trim_space thread)) in
          (e', elim answer [ inl err ↦ inl err | inr found ↦ inr (read found) ])
  ]

  unfoldable pub get_thread_properties : E → Text → E × (Err ⊎ Assoc Text)
  unfolding get_thread decoded_properties
  get_thread_properties e thread = get_thread e thread (λ found. decoded_properties found.0)

  unfoldable pub get_thread_members : E → Text → E × (Err ⊎ List Text)
  unfolding get_thread member_ids
  get_thread_members e thread = get_thread e thread (λ found. member_ids found.1)

  -- A property that is missing reads as the empty text.
  unfoldable pub get_thread_pinned_items : E → Text → E × (Err ⊎ Text)
  unfolding get_thread_properties lookup
  get_thread_pinned_items e thread =
      let (e', answer) = get_thread_properties e thread in
      (
        e',
        elim answer [
          | inl err ↦ inl err
          | inr props ↦ inr (elim (lookup (codes "pinnedItems") props) [ some s ↦ s | none ↦ [] ])
        ],
      )

  unfoldable pub set_thread_property : E → Text → Text → Text → E × Option Err
  unfolding threads_url thread_request ask_threads status_error trim_space
  set_thread_property e thread name value = elim no_client [
    | some err ↦ (e, some err)
    | none ↦
        if is_empty (trim_space thread)
        then (e, some (other (codes "missing thread id")))
        else error_only (
            ask_threads (status_error (codes "setting thread property " ++ name)) e (
              thread_request (codes "PUT")
                (threads_url
                  ++ codes "/"
                  ++ world.path_escape (trim_space thread)
                  ++ codes "/properties?name="
                  ++ world.query_escape name)
                (texts ((name, value) ∷ []))))
  ]

  unfoldable pub set_pinned_items : E → Text → List Text → E × Option Err
  unfolding set_thread_property pinned_items
  set_pinned_items e thread ids =
      set_thread_property e thread (codes "pinnedItems") (world.json_maps (pinned_items ids))

  unfoldable pub update_conversation_topic : E → Text → Text → E × Option Err
  unfolding set_thread_property
  update_conversation_topic e thread topic = set_thread_property e thread (codes "topic") topic

  -- AddMember and RemoveMember.
  unfoldable pub change_thread_member : Text → Text → ThreadBody → E → Text → Text → E × Option Err
  unfolding threads_url thread_request ask_threads status_error trim_space
  change_thread_member what method body e thread mri = elim no_client [
    | some err ↦ (e, some err)
    | none ↦
        if is_empty (trim_space thread) || is_empty (trim_space mri)
        then (e, some (other (codes "missing thread id or member MRI")))
        else error_only (
            ask_threads (status_error what) e (
              thread_request method
                (threads_url
                  ++ codes "/"
                  ++ world.path_escape (trim_space thread)
                  ++ codes "/members/"
                  ++ world.path_escape (trim_space mri))
                body))
  ]

  unfoldable pub add_member : E → Text → Text → E × Option Err
  unfolding change_thread_member
  add_member =
      change_thread_member (codes "add member") (codes "PUT")
        (texts ((codes "role", codes "User") ∷ []))

  unfoldable pub remove_member : E → Text → Text → E × Option Err
  unfolding change_thread_member
  remove_member = change_thread_member (codes "remove member") (codes "DELETE") no_body

  created_thread : E × (Err ⊎ ThreadResponse) → E × (Err ⊎ Text)
  unfolding thread_of_location
  created_thread (e, inl err) = (e, inl err)
  created_thread (e, inr resp) = (e, thread_of_location resp.location)

  unfoldable pub create_conversation_with_topic : E → Text → List Text → E × (Err ⊎ Text)
  unfolding new_members new_properties threads_url thread_request ask_threads status_error
      created_thread
  create_conversation_with_topic e topic mris = elim no_client [
    | some err ↦ (e, inl err)
    | none ↦
        if is_no_one mris
        then (e, inl (other (codes "at least one participant is required")))
        else created_thread (
            ask_threads (status_error (codes "create conversation")) e (
              thread_request (codes "POST") threads_url
                (chat (new_members mris) (new_properties topic))))
  ]
