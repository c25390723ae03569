-- ===== src/Tokens/Ensure/Kept.antt =====
-- `ensureValidSkypeToken` of pkg/connector/sync_loop.go: a rotated refresh token is kept, and a failed
-- refresh is not tried again at once.
use mautrix_teams.Base.{
  ◌+◌, ◌≤◌, ◌<◌, ◌≡◌, ◌≢◌, ◌⊎◌, inl, inr, refl, true, false, none, some, arith, Option-cases,
}
use mautrix_teams.Base.Text.{Text, trim_space, is_empty, ◌≗◌}
use mautrix_teams.Errors.{Err}
use mautrix_teams.Reach.{is_teams_network_error}
use mautrix_teams.Poll.Time.{Time}
use mautrix_teams.Tokens.{record_failure, blocked, is_permanent_refresh_error}
use mautrix_teams.Tokens.Window.{meant_refresh_delay, blocked-record_failure}
use mautrix_teams.Tokens.Session.{
  AuthWorld, AuthState, SkypeToken, Session, LoginMetadata, grant_for, save_login,
  refreshed_metadata, is_token_valid, clear_bad_credentials,
}
use mautrix_teams.Tokens.Ensure.{
  refreshed, on_skype_token, on_access_token, request_tokens, ensure_valid_skype_token,
  unless_blocked,
}

-- A world in which the client is not superseded and the login is always saved.
pub record SavesLogins {E : Type 0} (world : AuthWorld E) : Type 0 where
  pub current : (e : E) → world.is_superseded e ≡ false
  pub saves : (e : E) (m : LoginMetadata) → (world.save e m).1 ≡ true

module _ {E : Type 0} (world : AuthWorld E) where
  save_login-stored :
      (h : SavesLogins world) (s : Session E)
      → ((save_login world s).stored ≡ s.meta) × ((save_login world s).meta ≡ s.meta)
  unfolding save_login
  save_login-stored h s =
      rw (h.current s.client.outside, h.saves s.client.outside s.meta) (refl, refl)

  -- The refresh token that the client holds and the one that is stored.
  abbrev Holds : Text → Session E → Type 0
  Holds token s = (s.meta.refresh_token ≡ token) × (s.stored.refresh_token ≡ token)

  saved-Holds :
      (h : SavesLogins world) (s : Session E) (token : Text)
      → s.meta.refresh_token ≡ token
      → Holds token (save_login world s)
  saved-Holds h s token e = let (stored, held) = save_login-stored h s in rw (stored, held) (e, e)

  answered-Holds :
      (h : SavesLogins world) (s : Session E) (now : Time) (state : AuthState) (token : Text)
      (answer : Err ⊎ SkypeToken)
      → s.meta.refresh_token ≡ token
      → Holds token (on_skype_token world s now state true answer).0
  unfolding on_skype_token
  answered-Holds h s now state token (inl err) e =
      saved-Holds h (record s { failure = record_failure s.failure now err }) token e
  answered-Holds h s now state token (inr sk) e =
      unfold refreshed refreshed_metadata clear_bad_credentials in saved-Holds h _ token e

  -- What the identity provider answers to the refresh of a session.
  abbrev pub refresh_answer : Session E → Err ⊎ AuthState
  refresh_answer s =
      (world.refresh_access_token s.client.outside (grant_for world s.meta.refresh_scope)
        (trim_space s.meta.refresh_token)).1

  -- Where a refresh is due and not kept off, and the identity provider answers it with a new refresh
  -- token, that token is the one that the client holds and that is stored, whether or not the
  -- request for the Skype token succeeds afterwards. The client is the login's own, and the login is
  -- saved wherever the code asks for it.
  pub ensure_valid_skype_token-Holds :
      (h : SavesLogins world) (s : Session E) (now : Time) (state : AuthState)
      → is_token_valid s.meta now ≡ false
      → blocked world.format s.failure now ≡ none
      → is_empty (trim_space s.meta.refresh_token) ≡ false
      → refresh_answer s ≡ inr state
      → is_empty (trim_space state.refresh_token) ≡ false
      → trim_space state.refresh_token ≗ trim_space s.meta.refresh_token ≡ false
      → let t = (ensure_valid_skype_token world s now).0 in
        (t.meta.refresh_token ≡ trim_space state.refresh_token)
        × (t.stored.refresh_token ≡ trim_space state.refresh_token)
  unfolding ensure_valid_skype_token
  ensure_valid_skype_token-Holds h s now state due free has answer new differs =
      rw (h.current s.client.outside, due, free)
        (unfold unless_blocked request_tokens in
          rw (has, answer)
            (unfold on_access_token in
              rw (new, differs)
                (answered-Holds h _ now state (trim_space state.refresh_token) _ refl)))

  is_token_valid-later :
      (m : LoginMetadata) (now later : Time)
      → now ≤ later
      → is_token_valid m now ≡ false
      → is_token_valid m later ≡ false
  unfolding is_token_valid
  is_token_valid-later m now later le e = ground (arith, le, e)

  -- Where a refresh that is due and not kept off fails with an error, every later call answers with
  -- an error and changes nothing, so asks nobody, until the delay for that many failures has
  -- passed. The client is the login's own.
  pub ensure_valid_skype_token-again :
      (h : SavesLogins world) (s : Session E) (now later : Time) (err : Err)
      → is_token_valid s.meta now ≡ false
      → blocked world.format s.failure now ≡ none
      → is_empty (trim_space s.meta.refresh_token) ≡ false
      → refresh_answer s ≡ inl err
      → now ≤ later
      → later
        < now
          + meant_refresh_delay s.failure.failures
              (is_permanent_refresh_error err)
              (is_teams_network_error (some err))
      → let t = (ensure_valid_skype_token world s now).0 in
        ((ensure_valid_skype_token world t later).0 ≡ t)
        × ((ensure_valid_skype_token world t later).1 ≢ none)
  unfolding ensure_valid_skype_token
  ensure_valid_skype_token-again h s now later err due free has answer le early =
      let shut = blocked-record_failure world.format s.failure now later err in
      let due' = is_token_valid-later s.meta now later le due in
      rw (h.current s.client.outside, due, free)
        (unfold unless_blocked request_tokens in
          rw (has, answer)
            (unfold on_access_token in
              rw (h.current _, due')
                (elim (Option-cases
                  (blocked world.format (record_failure s.failure now err) later)) [
                    | inl none_ ↦ absurd (omega (arith, shut.0 none_, early))
                    | inr (e, some_) ↦ rw some_ (refl, λ n. cc)
                  ])))
