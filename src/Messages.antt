-- ===== src/Messages.antt =====
-- internal/teams/client/messages.go: the messages of a conversation, page by page. HTTP with its JSON,
-- net/url's escapes, and the fields of a message that are JSON of their own are fields of
-- `MessagesWorld`, and so is `sort.Slice`.
pub mod Listing
pub mod Paging
pub mod Send
use mautrix_teams.Base.{
  ℕ, zero, suc, ◌+◌, Bool, true, false, not, ◌&&◌, ◌||◌, Option, none, some, List, [], ◌∷◌, ◌++◌,
  ◌⊎◌, inl, inr, leb, ltb, ◌==◌, if◌then◌else◌, length, min,
}
use mautrix_teams.Base.Text.{Text, codes, trim_space, is_empty, has_prefix, ◌≗◌}
use mautrix_teams.Base.Decimal.{itoa}
use mautrix_teams.Errors.{Err, other}
use mautrix_teams.Poll.Time.{Time, is_zero}
use mautrix_teams.Cursor.{is_greater}
use mautrix_teams.Model.Sequence.{
  compare_sequence_id, compare_texts, Comparison, less, equal, greater,
}
use mautrix_teams.Model.Properties.{extract_reactions, MessageReaction, Json}
use mautrix_teams.Ingest.{RemoteMessage}

-- `remoteMessage`: a field of JSON is its text.
pub record RawMessage : Type 0 where
  pub id : Text
  pub raw_client_message_id : Text
  pub raw_sequence_id : Text
  pub original_arrival_time : Text
  pub from : Text
  pub raw_im_display_name : Text
  pub from_display_name_in_token : Text
  pub content : Text
  pub raw_properties : Text
  pub raw_message_type : Text
  pub raw_skype_edited_id : Text

pub record MessagesWorld (E : Type 0) : Type 0 where
  pub has_http : Bool
  pub token : Text
  pub messages_url : Text
  -- GET of an address: the decoded messages
  pub fetch_json : E → Text → E × (Err ⊎ List RawMessage)
  pub path_escape : Text → Text
  pub query_escape : Text → Text
  -- `t.UTC().Format("2006-01-02T15:04:05.000Z")`
  pub format : Time → Text
  pub json : Json
  pub extract_sender_id : Text → Text
  pub extract_body : Text → Text
  pub parse_timestamp : Text → Time
  -- `sort.Slice`, by a test whether one message is before another
  pub sort_slice : (RemoteMessage → RemoteMessage → Bool) → List RemoteMessage → List RemoteMessage

abbrev pub default_messages_url : Text
default_messages_url = codes "https://msgapi.teams.live.com/v1/users/ME/conversations"

abbrev pub list_messages_page_size : ℕ
list_messages_page_size = 200

abbrev pub list_messages_max_catchup_pages : ℕ
list_messages_max_catchup_pages = 10

-- `strings.TrimSuffix(s, "/")`.
unfoldable pub trim_slash : Text → Text
trim_slash [] = []
trim_slash (c ∷ []) = if c == b'/' then [] else c ∷ []
trim_slash (c ∷ d ∷ s) = c ∷ trim_slash (d ∷ s)

unfoldable pub is_known_id : Text → List Text → Bool
is_known_id id [] = false
is_known_id id (known ∷ rest) = (known ≗ id) || is_known_id id rest

-- What a loop over a page has gathered: the IDs and messages of all pages so far, the page's own
-- number of messages and oldest time, and whether the caller's cursor was reached.
pub record Gathered : Type 0 where
  pub seen : List Text
  pub result : List RemoteMessage
  pub batch : ℕ
  pub oldest : Text
  pub reached : Bool

is_less : Comparison → Bool
is_less less = true
is_less c = false

-- The test that the messages are sorted by.
unfoldable pub comes_before : RemoteMessage → RemoteMessage → Bool
unfolding is_less
comes_before a b = is_less (compare_sequence_id a.sequence_id b.sequence_id)

module _ {E : Type 0} (world : MessagesWorld E) where
  -- `normalizeSequenceID`.
  unfoldable pub normalize_sequence_id : Text → Err ⊎ Text
  normalize_sequence_id value = if is_empty value then inr [] else elim (world.json.string value) [
    | some s ↦ inr s
    | none ↦ elim (world.json.number value) [
      | some n ↦ inr n
      | none ↦ inl (other (codes "invalid sequenceId"))
    ]
  ]

  -- `NormalizeTeamsUserID` trims.
  unfoldable pub built : RawMessage → Text → RemoteMessage
  built msg sequence = record {
    message_id = msg.id;
    client_message_id = msg.raw_client_message_id;
    sequence_id = sequence;
    sender_id = trim_space (world.extract_sender_id msg.from);
    sender_name = [];
    im_display_name = msg.raw_im_display_name;
    token_display_name = msg.from_display_name_in_token;
    timestamp = world.parse_timestamp msg.original_arrival_time;
    raw_content = elim (world.json.string msg.content) [
      | some s ↦ s
      | none ↦ world.extract_body msg.content
    ];
    properties_raw = msg.raw_properties;
    reactions = extract_reactions world.json msg.raw_properties;
    message_type = trim_space msg.raw_message_type;
    skype_edited_id = trim_space msg.raw_skype_edited_id;
  }

  converted : RawMessage → Err ⊎ Text → Err ⊎ Option RemoteMessage
  unfolding built
  converted msg (inl err) = inl err
  converted msg (inr sequence) = inr (some (built msg sequence))

  -- `convertRemoteMessage`: the IDs that are known afterwards, and the message unless it is known.
  unfoldable pub convert_remote_message :
      RawMessage → List Text → List Text × (Err ⊎ Option RemoteMessage)
  unfolding is_known_id normalize_sequence_id converted
  convert_remote_message msg seen =
      let id = trim_space msg.id in
      if is_empty id
      then (seen, converted msg (normalize_sequence_id msg.raw_sequence_id))
      else if is_known_id id seen
      then (seen, inr none)
      else (id ∷ seen, converted msg (normalize_sequence_id msg.raw_sequence_id))

  -- The older of a message's time and the oldest one so far.
  unfoldable pub older : Text → Time → Text
  unfolding is_less
  older oldest t =
      if is_zero t
      then oldest
      else if is_empty oldest || is_less (compare_texts (world.format t) oldest)
      then world.format t
      else oldest

  -- The body of the loop over a page, for a message that is new.
  unfoldable pub gather : Text → Gathered → List Text → RemoteMessage → Gathered
  unfolding older
  gather since g seen m = record {
    seen = seen;
    result = g.result ++ m ∷ [];
    batch = g.batch + 1;
    oldest = older g.oldest m.timestamp;
    reached =
        g.reached
        || (not (is_empty since) && not (is_greater (compare_sequence_id m.sequence_id since)));
  }

  gather_answer : Text → Gathered → List Text × (Err ⊎ Option RemoteMessage) → Err ⊎ Gathered
  unfolding gather
  gather_answer since g (seen, inl err) = inl err
  gather_answer since g (seen, inr none) = inr (record g { seen = seen })
  gather_answer since g (seen, inr (some m)) = inr (gather since g seen m)

  gather_rest : (Gathered → Err ⊎ Gathered) → Err ⊎ Gathered → Err ⊎ Gathered
  gather_rest rest (inl err) = inl err
  gather_rest rest (inr g) = rest g

  -- The loop over a page.
  unfoldable pub gather_page : Text → Gathered → List RawMessage → Err ⊎ Gathered
  unfolding gather_answer convert_remote_message gather_rest
  gather_page since g [] = inr g
  gather_page since g (msg ∷ rest) =
      gather_rest (λ g'. gather_page since g' rest)
        (gather_answer since g (convert_remote_message msg g.seen))

  -- `fetchMessagesPage`.
  unfoldable pub messages_url_of : Text → ℕ → Text → Text
  unfolding trim_slash
  messages_url_of conversation page_size start_time =
      let base = if is_empty world.messages_url then default_messages_url else world.messages_url in
      trim_slash base
      ++ codes "/"
      ++ world.path_escape conversation
      ++ codes "/messages?pageSize="
      ++ itoa page_size
      ++ (if is_empty start_time then [] else codes "&startTime=" ++ world.query_escape start_time)

  unfoldable pub fetch_messages_page : E → Text → ℕ → Text → E × (Err ⊎ List RawMessage)
  unfolding messages_url_of
  fetch_messages_page e conversation page_size start_time =
      world.fetch_json e (messages_url_of conversation page_size start_time)

  -- What a list ends with.
  abbrev pub Listed : Type 0
  Listed = E × (Err ⊎ List RemoteMessage)

  -- A round of the loops over pages: an error, an empty page, or a page that is walked.
  after_page_fetch :
      (Err → Err ⊎ List RemoteMessage)
      → List RemoteMessage
      → (E → List RawMessage → Listed)
      → E × (Err ⊎ List RawMessage)
      → Listed
  after_page_fetch on_error result walk (e, inl err) = (e, on_error err)
  after_page_fetch on_error result walk (e, inr []) = (e, inr result)
  after_page_fetch on_error result walk (e, inr (msg ∷ rest)) = walk e (msg ∷ rest)

  -- After the page: the end, or the next page.
  after_page : E → (Gathered → Bool) → (Gathered → Listed) → Err ⊎ Gathered → Listed
  after_page e is_last next (inl err) = (e, inl err)
  after_page e is_last next (inr g) = elim (is_last g) [ true ↦ (e, inr g.result) | false ↦ next g ]

  -- A page's own fields, before it is walked.
  abbrev pub fresh_page : List Text → List RemoteMessage → Bool → Gathered
  fresh_page seen result reached = record {
    seen = seen;
    result = result;
    batch = 0;
    oldest = [];
    reached = reached;
  }

  abbrev ends_catch_up : Gathered → Bool
  ends_catch_up g = g.reached || ltb g.batch list_messages_page_size || is_empty g.oldest

  abbrev ends_paginate : ℕ → Gathered → Bool
  ends_paginate page_size g = ltb g.batch page_size || is_empty g.oldest

  -- The loop of `ListMessages`, by the pages that may still be fetched; `first` is `page == 0`.
  unfoldable pub catch_up :
      ℕ → Bool → E → Text → Text → List Text → List RemoteMessage → Text → Listed
  unfolding fetch_messages_page gather_page after_page_fetch after_page
  catch_up zero first e conversation since seen result cursor = (e, inr result)
  catch_up (suc pages) first e conversation since seen result cursor =
      after_page_fetch (λ err. if first then inl err else inr result) result
        (λ e' page.
          after_page e' ends_catch_up
            (λ g. catch_up pages false e' conversation since g.seen g.result g.oldest)
            (gather_page since (fresh_page seen result (is_empty since)) page))
        (fetch_messages_page e conversation list_messages_page_size cursor)

  -- The messages in the order of their sequence IDs.
  sorted_answer : E × (Err ⊎ List RemoteMessage) → E × (Err ⊎ List RemoteMessage)
  unfolding comes_before
  sorted_answer (e, inl err) = (e, inl err)
  sorted_answer (e, inr result) = (e, inr (world.sort_slice comes_before result))

  -- The checks before every list: why it is refused.
  unfoldable pub refused_list : Text → Option Err
  refused_list conversation =
      if not world.has_http
      then some (other (codes "consumer client missing http client"))
      else if is_empty world.token
      then some (other (codes "consumer client missing skypetoken"))
      else if is_empty conversation
      then some (other (codes "missing conversation id"))
      else none

  -- `ListMessages`.
  unfoldable pub list_messages : E → Text → Text → E × (Err ⊎ List RemoteMessage)
  unfolding refused_list catch_up sorted_answer
  list_messages e conversation since_sequence = elim (refused_list conversation) [
    | some err ↦ (e, inl err)
    | none ↦ sorted_answer (
        catch_up list_messages_max_catchup_pages true e conversation (trim_space since_sequence) []
          [] [])
  ]

  find_message : Text → List RemoteMessage → Option RemoteMessage
  find_message id [] = none
  find_message id (m ∷ ms) = if m.message_id ≗ id then some m else find_message id ms

  found_message : Text → E × (Err ⊎ List RemoteMessage) → E × (Err ⊎ RemoteMessage)
  unfolding find_message
  found_message id (e, inl err) = (e, inl err)
  found_message id (e, inr ms) = elim (find_message id ms) [
    | none ↦ (e, inl (other (codes "message " ++ id ++ codes " not found in conversation")))
    | some m ↦ (e, inr m)
  ]

  -- `GetMessage`.
  unfoldable pub get_message : E → Text → Text → E × (Err ⊎ RemoteMessage)
  unfolding list_messages found_message
  get_message e conversation id =
      if not world.has_http
      then (e, inl (other (codes "consumer client missing http client")))
      else if is_empty world.token
      then (e, inl (other (codes "consumer client missing skypetoken")))
      else if is_empty (trim_space conversation) || is_empty (trim_space id)
      then (e, inl (other (codes "missing conversation or message id")))
      else found_message (trim_space id) (list_messages e (trim_space conversation) [])

  -- The loop of `ListMessagesPaginated`, on fuel.
  unfoldable pub paginate : ℕ → E → Text → ℕ → ℕ → List Text → List RemoteMessage → Text → Listed
  unfolding fetch_messages_page gather_page after_page_fetch after_page
  paginate zero e conversation requested page_size seen result cursor = (e, inr result)
  paginate (suc fuel) e conversation requested page_size seen result cursor =
      elim (leb requested (length result)) [
        | true ↦ (e, inr result)
        | false ↦
            after_page_fetch (λ err. if leb 1 (length result) then inr result else inl err) result
              (λ e' page.
                after_page e' (ends_paginate page_size)
                  (λ g. paginate fuel e' conversation requested page_size g.seen g.result g.oldest)
                  (gather_page [] (fresh_page seen result false) page))
              (fetch_messages_page e conversation page_size cursor)
      ]

  -- `ListMessagesPaginated`: every round that goes on adds a page.
  unfoldable pub list_messages_paginated : E → Text → ℕ → Text → E × (Err ⊎ List RemoteMessage)
  unfolding refused_list paginate sorted_answer
  list_messages_paginated e conversation page_size start_time = elim (refused_list conversation) [
    | some err ↦ (e, inl err)
    | none ↦
        let requested = if page_size == 0 then 50 else page_size in
        sorted_answer
          (paginate requested e conversation requested (min requested 200) [] [] start_time)
  ]
