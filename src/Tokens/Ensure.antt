-- ===== src/Tokens/Ensure.antt =====
-- `ensureValidSkypeToken` of pkg/connector/sync_loop.go.
pub mod Kept
pub mod Own
use mautrix_teams.Base.{
  ◌+◌, Bool, true, false, not, ◌&&◌, Option, none, some, ◌⊎◌, inl, inr, if◌then◌else◌,
}
use mautrix_teams.Base.Text.{Text, codes, trim_space, is_empty, ◌≗◌}
use mautrix_teams.Errors.{Err, other, superseded}
use mautrix_teams.Poll.Time.{Time}
use mautrix_teams.Tokens.{record_failure, no_failure, blocked, is_permanent_refresh_error}
use mautrix_teams.Tokens.Session.{
  LoginMetadata, AuthState, SkypeToken, Session, AuthWorld, grant_for, save_login,
  clear_bad_credentials, remote_display_name, refreshed_metadata, is_token_valid,
}

module _ {E : Type 0} (world : AuthWorld E) where
  -- The end of a refresh that succeeded.
  unfoldable pub refreshed : Session E → AuthState → SkypeToken → Session E
  unfolding refreshed_metadata
  refreshed s state sk =
      let t = clear_bad_credentials world (record s { failure = no_failure }) in
      let m = refreshed_metadata t.meta state sk in
      save_login world (record t {
        meta = m;
        remote_name = remote_display_name world t.client.outside m.teams_user_id;
        client = record (t.client) { outside = world.apply_token t.client.outside m };
      })

  -- From the answer to the Skype token's request on; `rotated` is `refreshRotated`.
  unfoldable pub on_skype_token :
      Session E → Time → AuthState → Bool → Err ⊎ SkypeToken → Session E × Option Err
  on_skype_token s now state rotated (inl err) =
      let failed = record s { failure = record_failure s.failure now err } in
      (if rotated then save_login world failed else failed, some err)
  on_skype_token s now state rotated (inr sk) = (refreshed s state sk, none)

  -- From the answer to the refresh on.
  unfoldable pub on_access_token :
      Session E → Time → Text → Err ⊎ AuthState → Session E × Option Err
  on_access_token s now refresh (inl err) = (
    record s {
      failure = record_failure s.failure now err;
      logged_in = if is_permanent_refresh_error err then false else s.logged_in;
    },
    some err,
  )
  on_access_token s now refresh (inr state) =
      let new = trim_space state.refresh_token in
      let t = record s {
        meta = record (s.meta) {
          refresh_token = if is_empty new then s.meta.refresh_token else new;
        };
      } in
      let (e, answer) = world.acquire_skype_token t.client.outside state.access_token in
      on_skype_token (record t { client = record (t.client) { outside = e } }) now state
        (not (is_empty new) && not (new ≗ refresh)) answer

  unfoldable pub request_tokens : Session E → Time → Session E × Option Err
  request_tokens s now =
      let refresh = trim_space s.meta.refresh_token in
      let (e, answer) =
        world.refresh_access_token s.client.outside (grant_for world s.meta.refresh_scope)
          refresh in
      if is_empty refresh
      then (s, some (other (codes "missing refresh token, re-login required")))
      else on_access_token (record s { client = record (s.client) { outside = e } }) now refresh
          answer

  unless_blocked : Session E → Time → Option Err → Session E × Option Err
  unless_blocked s now (some err) = (s, some err)
  unless_blocked s now none = request_tokens s now

  -- `ensureValidSkypeToken`, at the time that the clock shows at its start.
  unfoldable pub ensure_valid_skype_token : Session E → Time → Session E × Option Err
  unfolding unless_blocked
  ensure_valid_skype_token s now =
      if world.is_superseded s.client.outside
      then (s, some superseded)
      else if is_token_valid s.meta now
      then (s, none)
      else unless_blocked s now (blocked world.format s.failure now)
