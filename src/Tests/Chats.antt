-- ===== src/Tests/Chats.antt =====
-- Conversations and their messages at concrete inputs.
use mautrix_teams.Base.{
  inl, List, All, ltb, ltb→lt, sym, ◌∙◌, Bool-cases, Bool, if◌then◌else◌, ◌≤◌, ℕ, suc, ◌≡◌, ◌↔◌,
  ◌⊎◌, refl, true, false, none, some, [], ◌∷◌, inr, arith,
}
use mautrix_teams.Base.Text.{
  cut, contains, Text, codes, trim_space, is_empty, ◌≗◌, to_lower, equal_fold,
}
use mautrix_teams.Model.Properties.{Json}
use mautrix_teams.Ingest.{RemoteMessage}
use mautrix_teams.Model.Sequence.{compare_sequence_id}
use mautrix_teams.Base.Decimal.{parse_uint}
use mautrix_teams.Messages.{built, RawMessage, MessagesWorld, list_messages, paginate}
use mautrix_teams.Messages.Listing.{
  IsSort, IsBefore, IsInOrder, count, occurrences, all_decimal, number, list_messages-IsListing,
}
use mautrix_teams.Messages.Paging.{paginate-enough}
use mautrix_teams.Model.Conversation.{
  Unicode, ConversationMember, RemoteConversation, is_likely_one_to_one, everyone, resolve_dm_name,
  resolve_thread_name, strip_once, normalize_participant_id, is_member,
}
use mautrix_teams.Model.Conversation.Others.{
  HasKey, OnlyKey, own_display_names, is_likely_one_to_one_iff,
}
use mautrix_teams.Model.Conversation.DmName.{NamesOther, AllOwn, names_of_self, resolve_dm_name_lem}
use mautrix_teams.Model.Conversation.Stripped.{strip_once-normalize}

-- Names and IDs in ASCII.
abbrev ascii : Unicode
ascii = record { to_lower = to_lower; folds_to = equal_fold }

abbrev member : Text → Text → ConversationMember
member id shown = record {
  id = id;
  mri = [];
  display_name = shown;
  name = [];
  is_self = false;
  is_current_user = false;
}

-- A chat of the user with Ada, who is listed twice.
abbrev chat_with_ada : RemoteConversation
chat_with_ada = record {
  conversation = codes "19:a";
  thread_properties = record {
    original_thread_id = codes "19:a";
    product_thread_type = codes "Chat";
    created_at = [];
    is_creator = false;
    thread_names = [];
  };
  own_names = codes " " ∷ [];
  properties = record {
    property_names = [];
    alerts = [];
    consumption_horizon = [];
    consumption_horizon_bookmark = [];
  };
  members =
      member (codes "8:orgid:me") (codes "Me") ∷ member (codes "8:orgid:ada") (codes "Ada") ∷ [];
  participants = member (codes "orgid:ADA") (codes "Ada") ∷ [];
  consumers = [];
}

is_likely_one_to_one_iff_example :
    (is_likely_one_to_one ascii chat_with_ada (codes "8:orgid:me") ≡ true) ↔ (
      (is_empty (resolve_thread_name chat_with_ada) ≡ true)
      × ((k : Text) × HasKey ascii
            (trim_space (codes "8:orgid:me"))
            (own_display_names ascii chat_with_ada (codes "8:orgid:me"))
            k
            (everyone chat_with_ada)
          × OnlyKey ascii
              (trim_space (codes "8:orgid:me"))
              (own_display_names ascii chat_with_ada (codes "8:orgid:me"))
              k
              (everyone chat_with_ada)))
is_likely_one_to_one_iff_example = is_likely_one_to_one_iff ascii chat_with_ada (codes "8:orgid:me")

resolve_dm_name_lem_example :
    let n = resolve_dm_name ascii chat_with_ada (codes "8:orgid:me") in
    let own = names_of_self ascii chat_with_ada (codes "8:orgid:me") in
    ((n ≡ []) ⊎ NamesOther ascii (trim_space (codes "8:orgid:me")) own n (everyone chat_with_ada))
    × ((is_member (to_lower n) own ≡ false)
        ⊎ AllOwn ascii (trim_space (codes "8:orgid:me")) own (everyone chat_with_ada))
resolve_dm_name_lem_example = resolve_dm_name_lem ascii chat_with_ada (codes "8:orgid:me")

named_ada : resolve_dm_name ascii chat_with_ada (codes "8:orgid:me") ≡ codes "Ada"
unfolding resolve_dm_name trim_space equal_fold to_lower cut contains
named_ada = refl

with_ada_only : is_likely_one_to_one ascii chat_with_ada (codes "8:orgid:me") ≡ true
unfolding is_likely_one_to_one trim_space equal_fold to_lower cut contains
with_ada_only = refl

strip_once-normalize_example :
    strip_once (normalize_participant_id ascii (codes "8:28:orgid:x")) ≡ none
strip_once-normalize_example = strip_once-normalize ascii (codes "8:28:orgid:x")

stripped : normalize_participant_id ascii (codes "8:28:orgid:x") ≡ codes "orgid:x"
unfolding normalize_participant_id to_lower trim_space cut
stripped = refl

abbrev raw : Text → Text → RawMessage
raw id sequence = record {
  id = id;
  raw_client_message_id = [];
  raw_sequence_id = sequence;
  original_arrival_time = [];
  from = codes "8:ada";
  raw_im_display_name = [];
  from_display_name_in_token = [];
  content = [];
  raw_properties = [];
  raw_message_type = codes "Text";
  raw_skype_edited_id = [];
}

abbrev numbers_only : Json
numbers_only = record {
  delete_times = λ properties. none;
  edit_time = λ properties. none;
  emotions = λ properties. none;
  number = λ value. some value;
  string = λ value. none;
  float = λ value. none;
  parse_float = λ value. none;
}

-- Sorting by insertion is a sort.
unfoldable insert_by :
    (RemoteMessage → RemoteMessage → Bool) → RemoteMessage → List RemoteMessage → List RemoteMessage
insert_by before m [] = m ∷ []
insert_by before m (n ∷ ms) =
    let later = insert_by before m ms in if before n m then n ∷ later else m ∷ n ∷ ms

unfoldable sort_by :
    (RemoteMessage → RemoteMessage → Bool) → List RemoteMessage → List RemoteMessage
unfolding insert_by
sort_by before [] = []
sort_by before (m ∷ ms) = insert_by before m (sort_by before ms)

count-insert :
    (before : RemoteMessage → RemoteMessage → Bool) (m : RemoteMessage) (ms : List RemoteMessage)
    (test : RemoteMessage → Bool)
    → count test (insert_by before m ms) ≡ count test (m ∷ ms)
unfolding insert_by
count-insert before m [] test = refl
count-insert before m (n ∷ ms) test = elim (Bool-cases (before n m)) [
  | inl e ↦ rw e (omega (arith, count-insert before m ms test))
  | inr e ↦ rw e refl
]

count-sort :
    (before : RemoteMessage → RemoteMessage → Bool) (ms : List RemoteMessage)
    (test : RemoteMessage → Bool)
    → count test (sort_by before ms) ≡ count test ms
unfolding sort_by
count-sort before [] test = refl
count-sort before (m ∷ ms) test =
    omega (arith, count-insert before m (sort_by before ms) test, count-sort before ms test)

module _ (before : RemoteMessage → RemoteMessage → Bool) (good : RemoteMessage → Bool)
    (key : RemoteMessage → ℕ)
    (by_key : (a b : RemoteMessage)
      → good a ≡ true
      → good b ≡ true
      → before a b ≡ ltb (key a) (key b)) where
  All-insert :
      (m : RemoteMessage) (ms : List RemoteMessage)
      → good m ≡ true
      → All (λ x. good x ≡ true) ms
      → All (λ x. good x ≡ true) (insert_by before m ms)
  unfolding insert_by
  All-insert m [] e h = (e, tt)
  All-insert m (n ∷ ms) e (f, h) = elim (Bool-cases (before n m)) [
    | inl b ↦ rw b (f, All-insert m ms e h)
    | inr b ↦ rw b (e, (f, h))
  ]

  insert-IsBefore :
      (n m : RemoteMessage) (ms : List RemoteMessage)
      → key n ≤ key m
      → IsBefore key n ms
      → IsBefore key n (insert_by before m ms)
  unfolding insert_by
  insert-IsBefore n m [] e h = e
  insert-IsBefore n m (o ∷ ms) e h = elim (Bool-cases (before o m)) [
    | inl b ↦ rw b h
    | inr b ↦ rw b e
  ]

  insert-IsInOrder :
      (m : RemoteMessage) (ms : List RemoteMessage)
      → good m ≡ true
      → All (λ x. good x ≡ true) ms
      → IsInOrder key ms
      → IsInOrder key (insert_by before m ms)
  unfolding insert_by
  insert-IsInOrder m [] e h sorted = (tt, tt)
  insert-IsInOrder m (n ∷ ms) e (f, h) (first, sorted) =
      let compared : before n m ≡ ltb (key n) (key m) = by_key n m f e in
      elim (Bool-cases (before n m)) [
        | inl b ↦
            let lt = ltb→lt _ _ (sym compared ∙ b) in
            rw b
              (insert-IsBefore n m ms (omega (arith, lt)) first, insert-IsInOrder m ms e h sorted)
        | inr b ↦
            let ge : ltb (key n) (key m) ≡ false = sym compared ∙ b in
            rw b (ground (arith, ge), (first, sorted))
      ]

  All-sort :
      (ms : List RemoteMessage)
      → All (λ x. good x ≡ true) ms
      → All (λ x. good x ≡ true) (sort_by before ms)
  unfolding sort_by
  All-sort [] h = tt
  All-sort (m ∷ ms) (e, h) = All-insert m (sort_by before ms) e (All-sort ms h)

  sort-IsInOrder :
      (ms : List RemoteMessage) → All (λ x. good x ≡ true) ms → IsInOrder key (sort_by before ms)
  unfolding sort_by
  sort-IsInOrder [] h = tt
  sort-IsInOrder (m ∷ ms) (e, h) =
      insert-IsInOrder m (sort_by before ms) e (All-sort ms h) (sort-IsInOrder ms h)

sort_by-IsSort : IsSort sort_by
sort_by-IsSort = record {
  moves = λ before ms test. count-sort before ms test;
  orders = λ before ms good key h by_key. sort-IsInOrder before good key by_key ms h;
}

-- A server with one page, out of order and with a message twice.
abbrev one_page : MessagesWorld ℕ
one_page = record {
  has_http = true;
  token = codes "skype";
  messages_url = [];
  fetch_json = λ n. λ url. (
    suc n,
    inr (
        raw (codes "b") (codes "10")
        ∷ raw (codes "a") (codes "9")
        ∷ raw (codes "b") (codes "10")
        ∷ []),
  );
  path_escape = λ t. t;
  query_escape = λ t. t;
  format = λ t. codes "t";
  json = numbers_only;
  extract_sender_id = λ from. from;
  extract_body = λ content. content;
  parse_timestamp = λ t. 7;
  sort_slice = sort_by;
}

-- The two messages that are listed, in order.
abbrev listed_two : List RemoteMessage
unfolding built
listed_two =
    built one_page (raw (codes "a") (codes "9")) (codes "9")
    ∷ built one_page (raw (codes "b") (codes "10")) (codes "10")
    ∷ []

two_in_order : (list_messages one_page 0 (codes "19:a") []).1 ≡ inr listed_two
unfolding list_messages trim_space ◌≗◌ sort_by built compare_sequence_id parse_uint
two_in_order = refl

list_messages-IsListing_example :
    (occurrences (codes "b") listed_two ≤ 1)
    × ((all_decimal listed_two ≡ false) ⊎ IsInOrder number listed_two)
list_messages-IsListing_example =
    list_messages-IsListing one_page sort_by-IsSort 0 (codes "19:a") [] (codes "b") listed_two refl
      two_in_order

paginate-enough_example :
    paginate one_page (suc 5) 0 (codes "19:a") 5 5 [] [] []
    ≡ paginate one_page 5 0 (codes "19:a") 5 5 [] [] []
paginate-enough_example =
    paginate-enough one_page 5 0 (codes "19:a") 5 5 [] [] [] (omega arith) (omega arith)

two_listed : (list_messages one_page 0 (codes "19:a") []).0 ≡ 1
unfolding list_messages trim_space ◌≗◌
two_listed = refl
