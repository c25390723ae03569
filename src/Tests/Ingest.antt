-- ===== src/Tests/Ingest.antt =====
-- The poll of a thread at concrete inputs.
use mautrix_teams.Base.{
  ◌≤◌, ℕ, ◌+◌, ◌≡◌, refl, ◌||◌, true, false, none, some, List, [], ◌∷◌, inl, inr, arith, leb, All,
  if◌then◌else◌,
}
use mautrix_teams.Base.Int.{pos, leb_ℤ}
use mautrix_teams.Base.Text.{
  equal_fold, Text, codes, trim_space, is_empty, ◌≗◌, to_lower, has_prefix, contains, equal_fold,
}
use mautrix_teams.Base.Assoc.{insert, lookup}
use mautrix_teams.Base.Decimal.{parse_uint, parse_int}
use mautrix_teams.Errors.{other}
use mautrix_teams.Client.{Client}
use mautrix_teams.Cursor.Commit.{release, queue_for_cursor, queued, new_cursor_commit}
use mautrix_teams.Cursor.Saved.{IsMark, mark}
use mautrix_teams.Poll.Pass.Threads.{Thread}
use mautrix_teams.Model.Properties.{Json, MessageReaction, extract_edit_time, is_deleted}
use mautrix_teams.Ingest.{
  send_tracked, is_seen, self_id, network_user_id, send, RemoteMessage, World, KeepsSigs,
  is_no_user, is_system_message_type,
}
use mautrix_teams.Ingest.SelfMessages.{consume_self_message, consume_self_message-record, echoed}
use mautrix_teams.Ingest.Typing.Debounce.{
  Action, typed, swept, answers, debounced, answers-debounced,
}
use mautrix_teams.Ingest.Reactions.{
  reaction_state_changed, build_reaction_sync_data, reaction_signature, reaction_sync_id,
  queue_reaction_sync_for_message, is_changed,
}
use mautrix_teams.Ingest.Reactions.Signature.{Reordered, swap, reaction_signature-Reordered}
use mautrix_teams.Ingest.Reactions.Again.{queue_reaction_sync-again}
use mautrix_teams.Ingest.Edits.{queue_in_place_delete}
use mautrix_teams.Ingest.Edits.Again.{
  IsForgotten, queue_in_place_delete-again, queue_in_place_delete-IsForgotten,
}
use mautrix_teams.Ingest.Page.Carried.{queued_page, ingest_page-carried}
use mautrix_teams.Cursor.Queued.{ArePositions}
use mautrix_teams.Cursor.{note_queued, pending, saved_seq}
use mautrix_teams.Ingest.Page.{take_messages, carried_on, ingest_page}
use mautrix_teams.Ingest.Page.Seen.{HasSequence, furthest_message, ingest_page-mark}
use mautrix_teams.Ingest.Page.Again.{ingest_page-again}
use mautrix_teams.Receipts.{is_likely_thread_id}
use mautrix_teams.Ingest.Typing.{is_typing_control}
use mautrix_teams.Ingest.Users.{
  mark_unread, resolve_sender_name, track_known_user, carried_name, queue_user_message,
  queue_user_event, user_sender,
}
use mautrix_teams.Model.Sequence.{compare_sequence_id}

abbrev chat : Thread
chat = record {
  thread_id = codes "19:a";
  conversation = codes "19:a";
  last_sequence_id = codes "5";
  last_message_ts = pos 0;
}

-- Properties whose text is the edit time, none of them deleted.
abbrev edit_times_only : Json
edit_times_only = record {
  delete_times = λ properties. none;
  edit_time = λ properties. some properties;
  emotions = λ properties. none;
  number = λ raw. some raw;
  string = λ raw. none;
  float = λ raw. none;
  parse_float = λ raw. none;
}

-- A world that holds the number of events queued, which is also its clock. The databases fail for
-- the message "9" and know no other.
abbrev counting : World ℕ
counting = record {
  folds_to = equal_fold;
  login_id = codes "login";
  user_mxid = codes "@me:host";
  self_teams_user_id = λ n. codes "8:me";
  clock = λ n. n;
  ensure_valid_skype_token = λ c. (c, none);
  report_token_error = λ c. λ err. c;
  list_messages = λ n. λ conversation. λ last. (n, inr []);
  upsert_profile = λ n. λ id. λ name. λ now. n;
  get_profile_name = λ n. λ id. inr none;
  sync_ghost_name = λ n. λ id. λ name. n;
  refresh_pinned_messages = λ c. λ thread_id. c;
  activities = record {
    read_xml = λ raw. none;
    read_change = λ raw. none;
    read_joined = λ raw. none;
    read_channels = λ raw. none;
  };
  json = edit_times_only;
  map_emotion_key_to_emoji = λ key. some key;
  queue_remote_event = λ c. λ evt. (record c { outside = c.outside + 1 }, queued);
  get_reactions = λ n. λ id. inr 0;
  get_last_part = λ n. λ id. inr false;
  get_first_part = λ n. λ id. if id ≗ codes "9" then inl (other (codes "locked")) else inr true;
  get_all_parts = λ n. λ id. if id ≗ codes "9" then inl (other (codes "locked")) else inr [];
  update_cursor = λ n. λ thread_id. λ position. (n, true);
  poll_horizons = λ c. λ th. λ now. c;
}

counting-KeepsSigs : KeepsSigs counting
counting-KeepsSigs = record { reaction_sigs = λ c. λ evt. refl; edit_times = λ c. λ evt. refl }

abbrev poller : Client ℕ
poller = record {
  reach = record { failures = 0; down = false };
  activity_up = true;
  long_poll_up = true;
  thread_active = [];
  receipt_poll = [];
  cursors = record { queued = []; saved = [] };
  reaction_sigs = [];
  edit_times = [];
  chat_info_sigs = [];
  reaction_seen = [];
  typing_seen = [];
  name_lookup_miss = [];
  self_messages = [];
  unread_seen = [];
  known_users = [];
  sent_states = [];
  outside = 0;
}

abbrev liked : MessageReaction
liked = record {
  emotion_key = codes "like";
  users = record { mri = codes "8:b"; time_ms = pos 7 } ∷ [];
}

abbrev laughed : MessageReaction
laughed = record {
  emotion_key = codes "laugh";
  users = record { mri = codes "8:c"; time_ms = pos 8 } ∷ [];
}

-- A message of a user, with an ID and reactions, edited in place.
abbrev said : Text → List MessageReaction → RemoteMessage
said id reactions = record {
  message_id = id;
  client_message_id = [];
  sequence_id = id;
  sender_id = codes "8:b";
  sender_name = [];
  im_display_name = codes "Bea";
  token_display_name = [];
  timestamp = 62_135_596_800_000_000_000;
  raw_content = [];
  properties_raw = codes "12";
  reactions = reactions;
  message_type = codes "Text";
  skype_edited_id = [];
}

abbrev page_of_two : List RemoteMessage
page_of_two = said (codes "12") (liked ∷ []) ∷ said (codes "7") [] ∷ []

page_of_two-HasSequence : All HasSequence page_of_two
unfolding trim_space parse_uint
page_of_two-HasSequence = ((12, refl), ((7, refl), tt))

chat-IsMark : IsMark (trim_space chat.last_sequence_id)
unfolding trim_space parse_uint
chat-IsMark = inr (5, refl)

ingest_page-mark_example :
    let last' = trim_space (ingest_page counting poller chat 9 page_of_two).0.last_sequence_id in
    IsMark last'
    × (mark last' ≡ furthest_message (mark (trim_space chat.last_sequence_id)) page_of_two)
ingest_page-mark_example =
    ingest_page-mark counting poller chat 9 page_of_two chat-IsMark page_of_two-HasSequence

ingest_page-again_example :
    let th' = (ingest_page counting poller chat 9 page_of_two).0 in
    let (th'', p) = ingest_page counting poller th' 10 page_of_two in
    (th'' ≡ th') × (p.ingested ≡ 0) × (p.commit ≡ new_cursor_commit)
ingest_page-again_example =
    ingest_page-again counting poller poller chat 9 10 page_of_two chat-IsMark
      page_of_two-HasSequence

-- The first page brings both messages.
both_ingested : (ingest_page counting poller chat 9 page_of_two).1.ingested ≡ 2
unfolding ingest_page trim_space is_typing_control equal_fold is_seen compare_sequence_id parse_uint
    is_likely_thread_id to_lower has_prefix contains is_system_message_type queue_user_message
    queue_user_event user_sender self_id
both_ingested = refl

both_reactions : Reordered (laughed ∷ liked ∷ []) (liked ∷ laughed ∷ [])
both_reactions = swap laughed liked []

reaction_signature-Reordered_example :
    reaction_signature (laughed ∷ liked ∷ []) ≡ reaction_signature (liked ∷ laughed ∷ [])
reaction_signature-Reordered_example = reaction_signature-Reordered both_reactions

abbrev said_12 : List MessageReaction → RemoteMessage
said_12 reactions = said (codes "12") reactions

sync_id-nonempty : is_empty (reaction_sync_id (said_12 (liked ∷ laughed ∷ [])) (codes "12")) ≡ false
unfolding reaction_sync_id trim_space
sync_id-nonempty = refl

sync_id-same :
    reaction_sync_id (said_12 (laughed ∷ liked ∷ [])) (codes "12")
    ≡ reaction_sync_id (said_12 (liked ∷ laughed ∷ [])) (codes "12")
unfolding reaction_sync_id trim_space
sync_id-same = refl

abbrev synced : Client ℕ
synced =
    queue_reaction_sync_for_message counting poller chat (said_12 (liked ∷ laughed ∷ []))
      (codes "12")

queue_reaction_sync-again_example :
    queue_reaction_sync_for_message counting synced chat
      (said_12 (laughed ∷ liked ∷ []))
      (codes "12")
    ≡ record synced {
      reaction_sigs =
          insert
            (reaction_sync_id (said_12 (liked ∷ laughed ∷ [])) (codes "12"))
            (record {
              sig = reaction_signature (liked ∷ laughed ∷ []);
              at = counting.clock synced.outside;
            })
            synced.reaction_sigs;
    }
queue_reaction_sync-again_example =
    queue_reaction_sync-again counting counting-KeepsSigs poller chat
      (said_12 (liked ∷ laughed ∷ [])) (said_12 (laughed ∷ liked ∷ [])) (codes "12") (codes "12")
      sync_id-nonempty sync_id-same both_reactions

-- The first look queues one event.
synced_once : synced.outside ≡ 1
unfolding queue_reaction_sync_for_message reaction_sync_id trim_space reaction_state_changed lookup
    build_reaction_sync_data is_no_user is_likely_thread_id to_lower has_prefix contains insert ◌≗◌
    network_user_id send
synced_once = refl

abbrev removed : Client ℕ
removed = queue_in_place_delete counting poller chat (codes "12")

found_12 : counting.get_first_part 0 (codes "12") ≡ inr true
unfolding ◌≗◌
found_12 = refl

queue_in_place_delete-again_example :
    queue_in_place_delete counting removed chat (codes "12") ≡ record removed {
      edit_times =
          insert
            (codes "12")
            (record { sig = codes "deleted"; at = counting.clock removed.outside })
            removed.edit_times;
    }
queue_in_place_delete-again_example =
    queue_in_place_delete-again counting counting-KeepsSigs poller chat (codes "12") true refl
      found_12

new_to_poller : (sig : Text) → is_changed sig (lookup (codes "9") poller.edit_times) ≡ true
unfolding is_changed lookup
new_to_poller sig = refl

fails_9 : counting.get_first_part 0 (codes "9") ≡ inl (other (codes "locked"))
unfolding ◌≗◌
fails_9 = refl

queue_in_place_delete-IsForgotten_example :
    IsForgotten counting poller (codes "9") (queue_in_place_delete counting poller chat (codes "9"))
queue_in_place_delete-IsForgotten_example =
    queue_in_place_delete-IsForgotten counting poller chat (codes "9") (other (codes "locked")) refl
      (new_to_poller (codes "deleted")) fails_9

abbrev edited_9 : RemoteMessage
edited_9 = said (codes "9") []

edited_9-edited : leb_ℤ (extract_edit_time edit_times_only (codes "12")) (pos 0) ≡ false
unfolding extract_edit_time parse_int
edited_9-edited = refl

edited_9-alive : is_deleted edit_times_only (codes "12") ≡ false
unfolding is_deleted
edited_9-alive = refl

edited_9-user :
    is_no_user (trim_space (codes "8:b")) || is_system_message_type (codes "Text") ≡ false
unfolding is_no_user is_system_message_type trim_space is_likely_thread_id to_lower has_prefix
    contains
edited_9-user = refl

all_fails_9 : counting.get_all_parts 0 (codes "9") ≡ inl (other (codes "locked"))
unfolding ◌≗◌
all_fails_9 = refl

-- Typing twice, with another sender and another thread and a sweep between, and again later.
abbrev typings : List Action
typings =
    typed (codes "19:a") (codes "8:b") 1_000_000_000
    ∷ typed (codes "19:a") (codes "8:c") 1_000_000_000
    ∷ typed (codes "19:d") (codes "8:b") 1_000_000_000
    ∷ swept 2_000_000_000
    ∷ typed (codes "19:a") (codes "8:b") 3_000_000_000
    ∷ typed (codes "19:a") (codes "8:b") 5_000_000_000
    ∷ []

answers-debounced_example : answers poller typings ≡ debounced (λ thread sender. none) typings
answers-debounced_example = answers-debounced typings poller refl (
  omega arith,
  refl,
  (
    omega arith,
    refl,
    (omega arith, refl, (omega arith, (omega arith, refl, (omega arith, refl, tt)))),
  ),
)

typings_run : debounced (λ thread sender. none) typings ≡ true ∷ true ∷ true ∷ false ∷ true ∷ []
unfolding debounced ◌≗◌
typings_run = refl

id_3-nonempty : is_empty (trim_space (codes "3")) ≡ false
unfolding trim_space
id_3-nonempty = refl

consume_self_message-record_example :
    ((echoed poller (codes "3") 100 200).0 ≡ leb 200 (100 + 300_000_000_000))
    × ((consume_self_message (echoed poller (codes "3") 100 200).1 (codes "3") 300).0 ≡ false)
consume_self_message-record_example =
    consume_self_message-record poller (codes "3") 100 200 300 tt id_3-nonempty

abbrev page_of_delete : List RemoteMessage
page_of_delete = record (said (codes "12") []) { message_type = codes "MessageDelete" } ∷ []

page_of_delete-HasSequence : All HasSequence page_of_delete
unfolding trim_space parse_uint
page_of_delete-HasSequence = ((12, refl), tt)

delete_new : is_empty (queued_page counting poller chat 9 page_of_delete).max_seq ≡ false
unfolding take_messages trim_space is_typing_control equal_fold is_seen compare_sequence_id
    parse_uint is_likely_thread_id to_lower has_prefix contains is_system_message_type
    queue_user_message queue_user_event user_sender self_id
delete_new = refl

none_queued :
    ArePositions
      (pending (queued_page counting poller chat 9 page_of_delete).client.cursors (codes "19:a"))
unfolding pending take_messages lookup mark_unread send_tracked resolve_sender_name track_known_user
    carried_name trim_space is_typing_control equal_fold is_seen compare_sequence_id parse_uint
    is_likely_thread_id to_lower has_prefix contains is_system_message_type queue_user_message
    queue_user_event user_sender self_id
none_queued = tt

none_saved :
    saved_seq (ingest_page counting poller chat 9 page_of_delete).1.client.cursors (codes "19:a")
    ≡ []
unfolding saved_seq ingest_page lookup send_tracked resolve_sender_name release queue_for_cursor
    note_queued trim_space is_typing_control equal_fold is_seen compare_sequence_id parse_uint
    is_likely_thread_id to_lower has_prefix contains is_system_message_type queue_user_message
    queue_user_event user_sender self_id new_cursor_commit
none_saved = refl

row_is_old :
    mark (
      saved_seq (ingest_page counting poller chat 9 page_of_delete).1.client.cursors (codes "19:a"))
    ≤ mark (trim_space chat.last_sequence_id)
row_is_old = rw none_saved (unfold mark parse_uint in omega arith)

-- The row is still the one from before the page.
ingest_page-carried_example :
    let cursors = (ingest_page counting poller chat 9 page_of_delete).1.client.cursors in
    let th' = carried_on chat (pending cursors (codes "19:a")) in
    let (th'', p) = ingest_page counting poller th' 10 page_of_delete in
    (th'' ≡ th') × (p.ingested ≡ 0) × (p.commit ≡ new_cursor_commit)
ingest_page-carried_example =
    ingest_page-carried counting poller poller chat chat 9 10 page_of_delete chat-IsMark
      page_of_delete-HasSequence delete_new none_queued chat-IsMark row_is_old
