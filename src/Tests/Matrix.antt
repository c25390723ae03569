-- ===== src/Tests/Matrix.antt =====
-- The Matrix handlers at concrete inputs.
use mautrix_teams.Base.{
  ℕ, suc, ◌≡◌, refl, true, false, none, some, [], ◌∷◌, inl, inr, ltb, if◌then◌else◌,
}
use mautrix_teams.Base.Int.{eq_ℤ, pos}
use mautrix_teams.Base.Text.{has_prefix, Text, codes, trim_space, is_empty, ◌≗◌, contains}
use mautrix_teams.Base.Assoc.{lookup, delete}
use mautrix_teams.Base.Decimal.{itoa}
use mautrix_teams.Errors.{other}
use mautrix_teams.Tokens.{no_failure}
use mautrix_teams.Tokens.Session.{AuthWorld, LoginMetadata, is_token_valid, from_unix}
use mautrix_teams.Tokens.Ensure.{ensure_valid_skype_token}
use mautrix_teams.Receipts.{get, upsert_last_read, row}
use mautrix_teams.Ingest.{unix_milli}
use mautrix_teams.Reach.{note}
use mautrix_teams.Client.{note_teams_result}
use mautrix_teams.Poll.Wake.{note_thread_active}
use mautrix_teams.Ingest.SelfMessages.{record_self_message}
use mautrix_teams.Matrix.{
  ask, MatrixWorld, Bridge, MsgType, msg_text, begun, is_logged_in, set_consumption_horizon, answer,
  done, now, is_channel_thread, continue,
}
use mautrix_teams.Matrix.Messages.{
  send_content, prepared, dispatch, send_text, with_reply, after_send, outbound_msg_type_supported,
  MatrixMessage, handle_matrix_message, truncate_snippet,
}
use mautrix_teams.Matrix.Messages.Pending.{IsTracked, handle_matrix_message-IsTracked}
use mautrix_teams.Matrix.Messages.Echo.{KnowsEcho, handle_matrix_message-KnowsEcho}
use mautrix_teams.Matrix.Reads.{
  send_receipt, should_send_receipt, record_own_horizon, handle_matrix_read_receipt,
  own_horizon_covers, consumption_horizon_now, covers,
}
use mautrix_teams.Matrix.Reads.Once.{IsReady, unread, handle_matrix_read_receipt-once}

-- An identity provider that is never asked.
abbrev idle_provider : AuthWorld ℕ
idle_provider = record {
  is_superseded = λ n. false;
  format = λ t. codes "later";
  token_endpoint = [];
  login_endpoint = [];
  url_host = λ url. none;
  refresh_access_token = λ n. λ grant. λ token. (n, inl (other (codes "offline")));
  acquire_skype_token = λ n. λ token. (n, inl (other (codes "offline")));
  save = λ n. λ m. (n, true);
  profile_name = λ n. λ id. none;
  apply_token = λ n. λ m. n;
}

-- A world that counts the calls of Teams, which is also its clock. A content is its type and its text.
abbrev answering : MatrixWorld ℕ (MsgType × Text)
answering = record {
  clock = λ n. n;
  auth = idle_provider;
  call = λ n. λ call. (suc n, if ltb n 90 then none else some (other (codes "refused")));
  get_message = λ n. λ conversation. λ id. (suc n, inl (other (codes "gone")));
  get_conversation = λ n. λ thread_id. none;
  msg_type = λ m. m.0;
  outbound_text_html = λ n. λ m. λ thread_id. (m.1, []);
  extract_outbound_gif = λ m. none;
  send_outbound_attachment =
      λ n. λ room. λ thread_id. λ m. λ id. λ importance. λ subject. (suc n, none);
  map_emoji_to_emotion_key = λ emoji. none;
  select = λ n. λ thread_id. λ user. row none;
  exec = λ n. λ thread_id. λ user. λ ts. (none, n);
  ensure_valid_graph_token = λ n. (n, none);
  download_media = λ n. λ url. (n, inr []);
  get_graph_client = λ n. (n, none);
  set_chat_photo = λ n. λ thread_id. λ photo. (n, none);
}

abbrev signed_in : LoginMetadata
signed_in = record {
  refresh_token = codes "refresh";
  access_token_expires_at = pos 3600;
  skype_token = codes "skype";
  skype_token_expires_at = pos 3600;
  graph_access_token = [];
  graph_expires_at = pos 0;
  teams_user_id = codes "8:me";
  region_chat_service_url = [];
  region_ams_url = [];
  region_middle_tier_url = [];
  refresh_scope = [];
}

-- A login after that many calls, with something unread in a chat.
abbrev bridge_at : ℕ → Bridge ℕ
bridge_at n = record {
  session = record {
    client = record {
      reach = record { failures = 0; down = false };
      activity_up = true;
      long_poll_up = true;
      thread_active = [];
      receipt_poll = [];
      cursors = record { queued = []; saved = [] };
      reaction_sigs = [];
      edit_times = [];
      chat_info_sigs = [];
      reaction_seen = [];
      typing_seen = [];
      name_lookup_miss = [];
      self_messages = [];
      unread_seen = (codes "19:a", true) ∷ [];
      known_users = [];
      sent_states = [];
      outside = n;
    };
    meta = signed_in;
    stored = signed_in;
    failure = no_failure;
    logged_in = true;
    bad_creds = [];
    reported = [];
    remote_name = [];
  };
  wakes = [];
  send_counter = 0;
  pending_calls = [];
}

abbrev greeting : MatrixMessage (MsgType × Text)
greeting = record {
  content = some (msg_text, codes "<p>hi</p>");
  portal = codes " 19:a ";
  room = codes "!room:host";
  thread_root = none;
  reply_to = none;
  importance = codes "high";
  subject = [];
}

handle_matrix_message-IsTracked_example :
    IsTracked [] (handle_matrix_message answering (bridge_at 95) greeting)
handle_matrix_message-IsTracked_example =
    handle_matrix_message-IsTracked answering (bridge_at 95) greeting

handle_matrix_message-KnowsEcho_example :
    KnowsEcho answering 1000 2000 (handle_matrix_message answering (bridge_at 3) greeting)
handle_matrix_message-KnowsEcho_example =
    handle_matrix_message-KnowsEcho answering (bridge_at 3) greeting 1000 2000 tt

bridge_at-IsReady : (n : ℕ) → is_token_valid signed_in n ≡ true → IsReady answering (bridge_at n)
unfolding begun is_logged_in ensure_valid_skype_token
bridge_at-IsReady n valid = rw valid refl

valid_at_three : is_token_valid signed_in 3 ≡ true
unfolding is_token_valid from_unix eq_ℤ
valid_at_three = refl

portal_named : is_empty (trim_space (codes " 19:a ")) ≡ false
unfolding trim_space
portal_named = refl

unread_there : unread answering (bridge_at 3) (trim_space (codes " 19:a ")) ≡ some true
unfolding trim_space lookup ◌≗◌
unread_there = refl

not_covered : own_horizon_covers answering (bridge_at 3) (trim_space (codes " 19:a ")) 2 ≡ false
unfolding own_horizon_covers trim_space get
not_covered = refl

handle_matrix_read_receipt-IsReady :
    IsReady answering
      (handle_matrix_read_receipt answering (bridge_at 3) (codes " 19:a ") (some 2)).0
unfolding handle_matrix_read_receipt begun is_logged_in continue own_horizon_covers covers get
    send_receipt should_send_receipt ensure_valid_skype_token is_token_valid from_unix eq_ℤ
    trim_space lookup delete ◌≗◌ ask record_own_horizon upsert_last_read unix_milli
handle_matrix_read_receipt-IsReady = refl

handle_matrix_read_receipt-once_example :
    let (t, outcome) =
      handle_matrix_read_receipt answering (bridge_at 3) (codes " 19:a ") (some 2) in
    (outcome
      ≡ answer answering tt
          (answering.call 3 (
            set_consumption_horizon
              (trim_space (codes " 19:a "))
              (consumption_horizon_now (now answering (bridge_at 3))))).1)
    × (handle_matrix_read_receipt answering t (codes " 19:a ") (some 5) ≡ (t, done tt))
handle_matrix_read_receipt-once_example =
    handle_matrix_read_receipt-once answering (bridge_at 3) (codes " 19:a ") 2 5
      (bridge_at-IsReady 3 valid_at_three) portal_named unread_there not_covered
      handle_matrix_read_receipt-IsReady

-- The message goes out, with its importance.
greeting_sent :
    (handle_matrix_message answering (bridge_at 3) greeting).0.session.client.outside ≡ 4
unfolding handle_matrix_message begun is_logged_in continue send_content prepared dispatch send_text
    with_reply ask after_send ensure_valid_skype_token is_token_valid from_unix eq_ℤ trim_space
    is_channel_thread contains has_prefix outbound_msg_type_supported note_teams_result
    record_self_message note_thread_active note itoa
greeting_sent = refl

snippet_cut : truncate_snippet (codes "héllo") 3 ≡ codes "hé..."
unfolding truncate_snippet
snippet_cut = refl
