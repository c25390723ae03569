-- ===== src/Tokens/Session.antt =====
-- What `ensureValidSkypeToken` of pkg/connector/sync_loop.go works on: the login's metadata, the
-- credentials' reports of client_lifecycle.go and the token endpoints of storage_extractor.go. The
-- auth client's requests, the login's save and net/url are fields of `AuthWorld`.
use mautrix_teams.Base.{
  ℕ, ◌+◌, ◌-◌, ◌*◌, Bool, not, ◌&&◌, ◌||◌, Option, none, some, List, [], ◌∷◌, ◌++◌, ◌⊎◌,
  if◌then◌else◌,
}
use mautrix_teams.Base.Int.{ℤ, pos, negsuc, eq_ℤ}
use mautrix_teams.Base.Text.{
  Text, codes, is_space, trim_space, is_empty, to_lower, has_prefix, contains, cut, equal_fold, ◌≗◌,
}
use mautrix_teams.Errors.{Err, error_text}
use mautrix_teams.Reach.{is_teams_network_error}
use mautrix_teams.Client.{Client, note_teams_result}
use mautrix_teams.Poll.Time.{Time, before}
use mautrix_teams.Tokens.{RefreshFailure}

-- `UserLoginMetadata`: the fields that a refresh reads or writes.
pub record LoginMetadata : Type 0 where
  pub refresh_token : Text
  pub access_token_expires_at : ℤ
  pub skype_token : Text
  pub skype_token_expires_at : ℤ
  pub graph_access_token : Text
  pub graph_expires_at : ℤ
  pub teams_user_id : Text
  pub region_chat_service_url : Text
  pub region_ams_url : Text
  pub region_middle_tier_url : Text
  pub refresh_scope : Text

-- `AuthState` and `SkypeTokenResult`: the fields that are used here.
pub record AuthState : Type 0 where
  pub access_token : Text
  pub refresh_token : Text
  pub expires_at_unix : ℤ
  pub graph_access_token : Text
  pub graph_expires_at : ℤ

pub record SkypeToken : Type 0 where
  pub token : Text
  pub expires_at : ℤ
  pub skype_id : Text
  pub chat_service_url : Text
  pub middle_tier_url : Text
  pub ams_url : Text

-- What a refresh asks for, and where.
pub record Grant : Type 0 where
  pub scopes : List Text
  pub endpoint : Text

-- BAD_CREDENTIALS with its message, and CONNECTED.
pub data CredentialState : Type 0 where
  bad_credentials : Text → CredentialState
  restored : CredentialState

-- The client with what its tokens are kept in. `stored` is the metadata that was saved last,
-- `bad_creds` the outstanding failure's message, and `reported` the credential states that were sent.
pub record Session (E : Type 0) : Type 0 where
  pub client : Client E
  pub meta : LoginMetadata
  pub stored : LoginMetadata
  pub failure : RefreshFailure
  pub logged_in : Bool
  pub bad_creds : Text
  pub reported : List CredentialState
  pub remote_name : Text

pub record AuthWorld (E : Type 0) : Type 0 where
  pub is_superseded : E → Bool
  pub format : Time → Text
  -- the configured token endpoint, and the host that net/url finds in an address
  pub token_endpoint : Text
  pub login_endpoint : Text
  pub url_host : Text → Option Text
  pub refresh_access_token : E → Grant → Text → E × (Err ⊎ AuthState)
  pub acquire_skype_token : E → Text → E × (Err ⊎ SkypeToken)
  pub save : E → LoginMetadata → E × Bool
  pub profile_name : E → Text → Option Text
  -- the copy of the tokens that a cached API client holds
  pub apply_token : E → LoginMetadata → E

abbrev pub skype_token_expiry_skew : ℕ
skype_token_expiry_skew = 60_000_000_000

-- Seconds from the zero time to 1970.
abbrev pub unix_epoch : ℕ
unix_epoch = 62_135_596_800

-- `time.Unix(s, 0)`.
unfoldable pub from_unix : ℤ → Time
from_unix (pos s) = (unix_epoch + s) * 1_000_000_000
from_unix (negsuc n) = unix_epoch * 1_000_000_000 - (n + 1) * 1_000_000_000

abbrev pub mbi_refresh_scope : Text
mbi_refresh_scope = codes "service::api.fl.spaces.skype.com::MBI_SSL"

abbrev pub mbi_token_endpoint : Text
mbi_token_endpoint = codes "https://login.microsoftonline.com/common/oauth2/v2.0/token"

abbrev pub skype_spaces_refresh_scope : Text
skype_spaces_refresh_scope =
    codes "https://api.spaces.skype.com/.default openid profile offline_access"

-- `strings.Fields`: the word that is being read comes first.
add_char : ℕ → List Text → List Text
add_char c [] = (c ∷ []) ∷ []
add_char c (word ∷ words) = (c ∷ word) ∷ words

drop_empty : List Text → List Text
drop_empty [] = []
drop_empty (word ∷ words) = if is_empty word then words else word ∷ words

words_from : Text → List Text
unfolding add_char drop_empty
words_from [] = [] ∷ []
words_from (c ∷ s) =
    let words = words_from s in if is_space c then [] ∷ drop_empty words else add_char c words

unfoldable pub fields : Text → List Text
unfolding words_from drop_empty
fields s = drop_empty (words_from s)

unfoldable pub normalize_auth_user_id : Text → Text
normalize_auth_user_id value =
    let trimmed = trim_space value in
    if is_empty trimmed
    then []
    else if has_prefix trimmed (codes "8:")
    then trimmed
    else codes "8:" ++ trimmed

-- `badCredentialsKey`.
before_cut : Text → Option (Text × Text) → Text
before_cut msg none = msg
before_cut msg (some (before, after)) = before

unfoldable pub bad_credentials_key : Err → Text
unfolding before_cut
bad_credentials_key err =
    before_cut (error_text err) (cut (error_text err) (codes " (refresh suppressed until "))

-- A URL of the answer, unless it is missing.
abbrev pub or_kept : Text → Text → Text
or_kept new old = if is_empty new then old else new

-- The metadata after both requests.
unfoldable pub refreshed_metadata : LoginMetadata → AuthState → SkypeToken → LoginMetadata
refreshed_metadata m state sk =
    let has_graph =
      not (is_empty (trim_space state.graph_access_token))
      && not (eq_ℤ state.graph_expires_at (pos 0)) in
    record m {
      access_token_expires_at = state.expires_at_unix;
      skype_token = sk.token;
      skype_token_expires_at = sk.expires_at;
      graph_access_token =
          if has_graph then trim_space state.graph_access_token else m.graph_access_token;
      graph_expires_at = if has_graph then state.graph_expires_at else m.graph_expires_at;
      teams_user_id = normalize_auth_user_id sk.skype_id;
      region_chat_service_url = or_kept sk.chat_service_url m.region_chat_service_url;
      region_middle_tier_url = or_kept sk.middle_tier_url m.region_middle_tier_url;
      region_ams_url = or_kept sk.ams_url m.region_ams_url;
    }

-- Whether the Skype token is good for a minute more.
unfoldable pub is_token_valid : LoginMetadata → Time → Bool
is_token_valid m now =
    not (is_empty m.skype_token)
    && not (eq_ℤ m.skype_token_expires_at (pos 0))
    && before (now + skype_token_expiry_skew) (from_unix m.skype_token_expires_at)

name_or_id : Text → Option Text → Text
name_or_id id none = id
name_or_id id (some name) = if is_empty (trim_space name) then id else trim_space name

mbi_for_host : Text → Option Text → Text
mbi_for_host trimmed none = mbi_token_endpoint
mbi_for_host trimmed (some host) =
    if equal_fold host (codes "login.microsoftonline.com") then mbi_token_endpoint else trimmed

module _ {E : Type 0} (world : AuthWorld E) where
  -- `tenantTokenEndpoint` and `mbiTokenEndpointFor`.
  unfoldable pub tenant_token_endpoint : Text
  tenant_token_endpoint =
      let ep = trim_space world.token_endpoint in
      let low = to_lower ep in
      if contains low (codes "/common/") || contains low (codes "/consumers/") then [] else ep

  unfoldable pub mbi_token_endpoint_for : Text → Text
  unfolding mbi_for_host
  mbi_token_endpoint_for configured =
      let trimmed = trim_space configured in
      if is_empty trimmed then mbi_token_endpoint else mbi_for_host trimmed (world.url_host trimmed)

  -- The grant of a refresh, by the login's own scope.
  unfoldable pub grant_for : Text → Grant
  unfolding tenant_token_endpoint mbi_token_endpoint_for
  grant_for refresh_scope =
      let scope = trim_space refresh_scope in
      if not (is_empty scope)
      then record { scopes = fields scope; endpoint = world.login_endpoint }
      else if not (is_empty tenant_token_endpoint)
      then record { scopes = fields skype_spaces_refresh_scope; endpoint = tenant_token_endpoint }
      else record {
        scopes = mbi_refresh_scope ∷ [];
        endpoint = mbi_token_endpoint_for world.login_endpoint;
      }

  -- `saveLogin`: a superseded client saves nothing.
  unfoldable pub save_login : Session E → Session E
  save_login s =
      let (e, saved) = world.save s.client.outside s.meta in
      if world.is_superseded s.client.outside then s else record s {
        client = record (s.client) { outside = e };
        stored = if saved then s.meta else s.stored;
      }

  -- `reportBadCredentials` and `clearBadCredentials`.
  unfoldable pub report_bad_credentials : Session E → Err → Session E
  report_bad_credentials s err =
      let msg = bad_credentials_key err in
      if world.is_superseded s.client.outside then s else record s {
        bad_creds = msg;
        reported = if msg ≗ s.bad_creds then s.reported else s.reported ++ bad_credentials msg ∷ [];
      }

  unfoldable pub clear_bad_credentials : Session E → Session E
  clear_bad_credentials s = record s {
    bad_creds = [];
    reported =
        if not (is_empty s.bad_creds) && not (world.is_superseded s.client.outside)
        then s.reported ++ restored ∷ []
        else s.reported;
  }

  -- `reportTokenError`.
  unfoldable pub report_token_error : Session E → Err → Session E
  report_token_error s err =
      let noted = record s { client = note_teams_result s.client (some err) } in
      if world.is_superseded s.client.outside
      then s
      else if is_teams_network_error (some err)
      then noted
      else report_bad_credentials noted err

  -- `remoteDisplayName`, by the profile that is found.
  unfoldable pub remote_display_name : E → Text → Text
  unfolding name_or_id
  remote_display_name e id = if is_empty id then id else name_or_id id (world.profile_name e id)
