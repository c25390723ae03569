-- ===== src/Tests/Sessions.antt =====
-- The refresh of the Skype token at concrete inputs.
use mautrix_teams.Base.{
  ℕ, suc, ◌<◌, ◌+◌, ◌≡◌, ◌≢◌, inl, inr, refl, true, false, none, some, [], arith, ltb,
  if◌then◌else◌,
}
use mautrix_teams.Base.Int.{pos}
use mautrix_teams.Base.Text.{codes, trim_space, is_empty, ◌≗◌, contains, to_lower}
use mautrix_teams.Errors.{Err, other, is_deadline, as_net, error_text}
use mautrix_teams.Reach.{is_teams_network_error}
use mautrix_teams.Tokens.{no_failure, blocked, is_permanent_refresh_error}
use mautrix_teams.Tokens.Session.{AuthWorld, AuthState, Session, LoginMetadata, is_token_valid}
use mautrix_teams.Tokens.Ensure.{ensure_valid_skype_token}
use mautrix_teams.Tokens.Ensure.Kept.{
  SavesLogins, ensure_valid_skype_token-Holds, ensure_valid_skype_token-again,
}
use mautrix_teams.Tokens.Window.{meant_refresh_delay}

abbrev rotated_state : AuthState
rotated_state = record {
  access_token = codes "access";
  refresh_token = codes "second";
  expires_at_unix = pos 3600;
  graph_access_token = [];
  graph_expires_at = pos 0;
}

abbrev locked_out : Err
locked_out = other (codes "skype down")

-- An identity provider that hands out a new refresh token, or refuses where the count of requests
-- is past 9, and a Skype service that fails.
abbrev rotating : AuthWorld ℕ
rotating = record {
  is_superseded = λ n. false;
  format = λ t. codes "later";
  token_endpoint = [];
  login_endpoint = [];
  url_host = λ url. none;
  refresh_access_token =
      λ n. λ grant. λ token. (suc n, if ltb n 10 then inr rotated_state else inl locked_out);
  acquire_skype_token = λ n. λ token. (suc n, inl locked_out);
  save = λ n. λ m. (n, true);
  profile_name = λ n. λ id. none;
  apply_token = λ n. λ m. n;
}

rotating-SavesLogins : SavesLogins rotating
rotating-SavesLogins = record { current = λ n. refl; saves = λ n. λ m. refl }

abbrev old_login : LoginMetadata
old_login = record {
  refresh_token = codes "first";
  access_token_expires_at = pos 0;
  skype_token = [];
  skype_token_expires_at = pos 0;
  graph_access_token = [];
  graph_expires_at = pos 0;
  teams_user_id = [];
  region_chat_service_url = [];
  region_ams_url = [];
  region_middle_tier_url = [];
  refresh_scope = [];
}

-- A session after that many requests.
abbrev session_at : ℕ → Session ℕ
session_at n = record {
  client = record {
    reach = record { failures = 0; down = false };
    activity_up = true;
    long_poll_up = true;
    thread_active = [];
    receipt_poll = [];
    cursors = record { queued = []; saved = [] };
    reaction_sigs = [];
    edit_times = [];
    chat_info_sigs = [];
    reaction_seen = [];
    typing_seen = [];
    name_lookup_miss = [];
    self_messages = [];
    unread_seen = [];
    known_users = [];
    sent_states = [];
    outside = n;
  };
  meta = old_login;
  stored = old_login;
  failure = no_failure;
  logged_in = true;
  bad_creds = [];
  reported = [];
  remote_name = [];
}

old_login-due : is_token_valid old_login 1000 ≡ false
unfolding is_token_valid
old_login-due = refl

not_blocked : blocked rotating.format no_failure 1000 ≡ none
unfolding blocked
not_blocked = refl

has_refresh : is_empty (trim_space (codes "first")) ≡ false
unfolding trim_space
has_refresh = refl

has_new : is_empty (trim_space (codes "second")) ≡ false
unfolding trim_space
has_new = refl

is_rotated : trim_space (codes "second") ≗ trim_space (codes "first") ≡ false
unfolding trim_space ◌≗◌
is_rotated = refl

ensure_valid_skype_token-Holds_example :
    let t = (ensure_valid_skype_token rotating (session_at 0) 1000).0 in
    (t.meta.refresh_token ≡ trim_space (codes "second"))
    × (t.stored.refresh_token ≡ trim_space (codes "second"))
ensure_valid_skype_token-Holds_example =
    ensure_valid_skype_token-Holds rotating rotating-SavesLogins (session_at 0) 1000 rotated_state
      old_login-due not_blocked has_refresh refl has_new is_rotated

early_call :
    2000
    < 1000
      + meant_refresh_delay 0
          (is_permanent_refresh_error locked_out)
          (is_teams_network_error (some locked_out))
unfolding is_permanent_refresh_error is_teams_network_error is_deadline as_net contains to_lower
    error_text
early_call = omega arith

ensure_valid_skype_token-again_example :
    let t = (ensure_valid_skype_token rotating (session_at 10) 1000).0 in
    ((ensure_valid_skype_token rotating t 2000).0 ≡ t)
    × ((ensure_valid_skype_token rotating t 2000).1 ≢ none)
ensure_valid_skype_token-again_example =
    ensure_valid_skype_token-again rotating rotating-SavesLogins (session_at 10) 1000 2000
      locked_out old_login-due not_blocked has_refresh refl (omega arith) early_call
