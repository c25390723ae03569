-- ===== src/Tokens/Ensure/Own.antt =====
-- `ensureValidSkypeToken` of pkg/connector/sync_loop.go: what of the client it leaves alone.
use mautrix_teams.Base.{◌≡◌, refl, ◌⊎◌, inl, inr, Bool, true, false, Option, none, some, Bool-cases}
use mautrix_teams.Base.Text.{Text, is_empty, trim_space}
use mautrix_teams.Errors.{Err}
use mautrix_teams.Poll.Time.{Time}
use mautrix_teams.Tokens.{blocked}
use mautrix_teams.Tokens.Session.{
  AuthWorld, AuthState, SkypeToken, Session, save_login, clear_bad_credentials, is_token_valid,
}
use mautrix_teams.Tokens.Ensure.{
  refreshed, on_skype_token, on_access_token, request_tokens, ensure_valid_skype_token,
  unless_blocked,
}

module _ {E : Type 0} (world : AuthWorld E) where
  -- The own sends of the second session are those of the first.
  abbrev SameSends : Session E → Session E → Type 0
  SameSends t s = t.client.self_messages ≡ s.client.self_messages

  save-SameSends : (s : Session E) → SameSends (save_login world s) s
  unfolding save_login
  save-SameSends s = elim (Bool-cases (world.is_superseded s.client.outside)) [
    | inl e ↦ rw e refl
    | inr e ↦ rw e refl
  ]

  skype-SameSends :
      (s : Session E) (now : Time) (state : AuthState) (rotated : Bool) (answer : Err ⊎ SkypeToken)
      → SameSends (on_skype_token world s now state rotated answer).0 s
  unfolding on_skype_token
  skype-SameSends s now state true (inl err) = save-SameSends _
  skype-SameSends s now state false (inl err) = refl
  skype-SameSends s now state rotated (inr sk) =
      unfold refreshed clear_bad_credentials in save-SameSends _

  access-SameSends :
      (s : Session E) (now : Time) (refresh : Text) (answer : Err ⊎ AuthState)
      → SameSends (on_access_token world s now refresh answer).0 s
  unfolding on_access_token
  access-SameSends s now refresh (inl err) = refl
  access-SameSends s now refresh (inr state) = skype-SameSends _ now state _ _

  request-SameSends : (s : Session E) (now : Time) → SameSends (request_tokens world s now).0 s
  unfolding request_tokens
  request-SameSends s now = elim (Bool-cases (is_empty (trim_space s.meta.refresh_token))) [
    | inl e ↦ rw e refl
    | inr e ↦ rw e (access-SameSends _ now _ _)
  ]

  unless-SameSends :
      (s : Session E) (now : Time) (why : Option Err)
      → SameSends (unless_blocked world s now why).0 s
  unfolding unless_blocked
  unless-SameSends s now none = request-SameSends s now
  unless-SameSends s now (some err) = refl

  -- A refresh leaves the own sends alone, however it ends.
  pub self_messages-ensure :
      (s : Session E) (now : Time)
      → (ensure_valid_skype_token world s now).0.client.self_messages ≡ s.client.self_messages
  unfolding ensure_valid_skype_token
  self_messages-ensure s now = elim (Bool-cases (world.is_superseded s.client.outside)) [
    | inl e ↦ rw e refl
    | inr e ↦ rw e (elim (Bool-cases (is_token_valid s.meta now)) [
      | inl k ↦ rw k refl
      | inr k ↦ rw k (unless-SameSends s now (blocked world.format s.failure now))
    ])
  ]
