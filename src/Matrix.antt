-- ===== src/Matrix.antt =====
-- pkg/connector/handlematrix.go: what the Matrix side asks of Teams. The Teams API, the homeserver's
-- media and the conversion of outbound text are fields of `MatrixWorld`; what is asked of Teams is a
-- value of `TeamsCall`. A nil message of bridgev2 reads as one without content.
pub mod Begun
pub mod Messages
pub mod Reactions
pub mod Reads
pub mod Rooms
use mautrix_teams.Base.{
  ℕ, ◌+◌, ◌-◌, ◌*◌, ◌%◌, ◌^◌, Bool, true, false, not, ◌||◌, Option, none, some, List, ◌⊎◌, leb,
  if◌then◌else◌,
}
use mautrix_teams.Base.Text.{Text, codes, contains}
use mautrix_teams.Base.Int.{ℤ}
use mautrix_teams.Errors.{Err, other, as_send_message, as_retryable, as_net, is_deadline}
use mautrix_teams.Client.{Client}
use mautrix_teams.Poll.Time.{Time}
use mautrix_teams.Poll.Wake.{PollWakeup}
use mautrix_teams.Tokens.Session.{Session, AuthWorld, is_token_valid}
use mautrix_teams.Tokens.Ensure.{ensure_valid_skype_token}
use mautrix_teams.Receipts.{Rows}

-- A mention of a Teams user: its item ID, MRI and name.
pub record TeamsMention : Type 0 where
  pub item_id : ℕ
  pub mri : Text
  pub shown_as : Text

-- A body for Teams, with its mentions.
abbrev pub Outbound : Type 0
Outbound = Text × List TeamsMention

-- What the handlers ask of Teams: the thread first. `importance` and `subject` travel in the context.
pub data TeamsCall : Type 0 where
  -- body, sender, client message ID, reply target, mentions, importance, subject
  send_formatted_message :
      Text → Text → Text → Text → Text → List TeamsMention → Text → Text → TeamsCall
  -- address, title, sender, client message ID, importance, subject
  send_gif : Text → Text → Text → Text → Text → Text → Text → TeamsCall
  -- message, emotion key, time in milliseconds
  add_reaction : Text → Text → Text → ℤ → TeamsCall
  remove_reaction : Text → Text → Text → TeamsCall
  -- sender
  send_typing_indicator : Text → Text → TeamsCall
  -- horizon
  set_consumption_horizon : Text → Text → TeamsCall
  -- message, body, sender, mentions
  edit_message : Text → Text → Text → Text → List TeamsMention → TeamsCall
  -- message, sender
  delete_message : Text → Text → Text → TeamsCall
  update_conversation_topic : Text → Text → TeamsCall
  -- member
  add_member : Text → Text → TeamsCall
  remove_member : Text → Text → TeamsCall

-- `MessageStatusGenericError` and `MessageStatusNetworkError`.
pub data StatusReason : Type 0 where
  generic_error network_error : StatusReason

-- `bridgev2.MessageStatus` as a failed send is wrapped: its message is the error's own if it has none.
pub record MessageStatus : Type 0 where
  pub cause : Err
  pub message : Option Text
  pub is_certain : Bool
  pub send_notice : Bool
  pub reason : StatusReason

-- Why a handler refuses: bridgev2's own errors, `errUnsupportedReactionEmoji`, an error, or a status.
pub data Refusal : Type 0 where
  not_logged_in unsupported_message_type target_not_found unsupported_emoji : Refusal
  failed : Err → Refusal
  status : MessageStatus → Refusal

-- What bridgev2 is asked about a message that waits for its echo.
pub data PendingCall : Type 0 where
  -- transaction ID, sender, time
  add_pending : Text → Text → Time → PendingCall
  remove_pending : Text → PendingCall

-- The login with its session, the queue of the poll loop, the counter of
-- `GenerateClientMessageID` and what bridgev2 was asked about pending messages.
pub record Bridge (E : Type 0) : Type 0 where
  pub session : Session E
  pub wakes : List PollWakeup
  pub send_counter : ℕ
  pub pending_calls : List PendingCall

-- `event.MessageType`, as far as the handler tells the types apart.
pub data MsgType : Type 0 where
  msg_text msg_notice msg_emote msg_location msg_image msg_file msg_video msg_audio msg_other :
      MsgType

-- The fields of `RemoteMessage` that a quoted message shows.
pub record Quoted : Type 0 where
  pub im_display_name : Text
  pub token_display_name : Text
  pub body : Text
  pub formatted_body : Text
  pub has_inline_images : Bool
  pub properties_files : Text
  pub has_gifs : Bool

-- `M` is a Matrix message's content.
pub record MatrixWorld (E M : Type 0) : Type 0 where
  pub clock : E → Time
  pub auth : AuthWorld E
  pub call : E → TeamsCall → E × Option Err
  -- GetMessage of the API, in a conversation
  pub get_message : E → Text → Text → E × (Err ⊎ Quoted)
  -- ThreadState.Get: the conversation of a thread's row
  pub get_conversation : E → Text → Option Text
  pub msg_type : M → MsgType
  -- outboundTextHTML of a content for a thread
  pub outbound_text_html : E → M → Text → Outbound
  -- extractOutboundGIF: title and address
  pub extract_outbound_gif : M → Option (Text × Text)
  -- sendOutboundAttachment: room, thread, content, client message ID, importance, subject
  pub send_outbound_attachment : E → Text → Text → M → Text → Text → Text → E × Option Err
  pub map_emoji_to_emotion_key : Text → Option Text
  -- the horizons' table
  pub select : E → Text → Text → Rows
  pub exec : E → Text → Text → ℤ → Option Err × E
  -- the media of an mxc address, a Graph client, and SetChatPhoto
  pub ensure_valid_graph_token : E → E × Option Err
  pub download_media : E → Text → E × (Err ⊎ List ℕ)
  pub get_graph_client : E → E × Option Err
  pub set_chat_photo : E → Text → List ℕ → E × Option Err

-- A handler's answer.
pub data Handled (A : Type 0) : Type 0 where
  done : A → Handled A
  refused : Refusal → Handled A

-- `strings.Contains(threadID, "@thread.tacv2")`.
unfoldable pub is_channel_thread : Text → Bool
is_channel_thread thread_id = contains thread_id (codes "@thread.tacv2")

-- A send that got no answer.
abbrev unreached : Err → MessageStatus
unreached err = record {
  cause = err;
  message = some (codes "Could not reach Teams, please retry");
  is_certain = false;
  send_notice = true;
  reason = network_error;
}

-- `wrapTeamsSendError`.
unfoldable pub wrap_teams_send_error : Err → MessageStatus
wrap_teams_send_error err = elim (as_send_message err) [
  | some sent ↦ record {
    cause = err;
    message = none;
    is_certain = true;
    send_notice = true;
    reason = generic_error;
  }
  | none ↦ elim (as_retryable err) [
    | some retry ↦ record {
      cause = err;
      message = some (codes "Teams API temporarily unavailable, please retry");
      is_certain = false;
      send_notice = true;
      reason = generic_error;
    }
    | none ↦ elim (as_net err) [
      | some timed_out ↦ unreached err
      | none ↦ if is_deadline err then unreached err else record {
        cause = err;
        message = none;
        is_certain = false;
        send_notice = true;
        reason = generic_error;
      }
    ]
  ]
]

-- `uint64(t.UnixNano())`.
unfoldable pub unix_nano : Time → ℕ
unix_nano t = (t + 4 * 2 ^ 64 - 62_135_596_800_000_000_000) % 2 ^ 64

-- `GenerateClientMessageID`: the time as an uint64, or one more than the last ID. The loop around the
-- atomic exchange is one step here.
unfoldable pub next_client_message_id : Time → ℕ → ℕ
unfolding unix_nano
next_client_message_id now last =
    if leb (unix_nano now) last then (last + 1) % 2 ^ 64 else unix_nano now

module _ {E M : Type 0} (world : MatrixWorld E M) where
  -- The state outside of the client, and the clock.
  abbrev pub outside : Bridge E → E
  outside b = b.session.client.outside

  abbrev pub now : Bridge E → Time
  now b = world.clock (outside b)

  abbrev pub set_client : Bridge E → Client E → Bridge E
  set_client b c = record b { session = record (b.session) { client = c } }

  abbrev pub set_outside : Bridge E → E → Bridge E
  set_outside b e = set_client b (record (b.session.client) { outside = e })

  -- A call of the API.
  unfoldable pub ask : Bridge E → TeamsCall → Bridge E × Option Err
  ask b call = let (e, err) = world.call (outside b) call in (set_outside b e, err)

  -- `selfTeamsUserID`.
  abbrev pub self_user : Bridge E → Text
  self_user b = b.session.meta.teams_user_id

  -- `IsLoggedIn`.
  unfoldable pub is_logged_in : Bridge E → Bool
  is_logged_in b = b.session.logged_in || is_token_valid b.session.meta (now b)

  -- How every handler begins: the login, then the token.
  unfoldable pub begun : Bridge E → Bridge E × Option Refusal
  begun b =
      if not (is_logged_in b)
      then (b, some not_logged_in)
      else let (s, err) = ensure_valid_skype_token world.auth b.session (now b) in
        (record b { session = s }, elim err [ none ↦ none | some e ↦ some (failed e) ])

  -- The rest of a handler behind that.
  unfoldable pub continue :
      {A : Type 0}
      → Bridge E × Option Refusal
      → (Bridge E → Bridge E × Handled A)
      → Bridge E × Handled A
  continue (b, some why) rest = (b, refused why)
  continue (b, none) rest = rest b

  -- An error of the API as the handler's answer.
  unfoldable pub answer : {A : Type 0} → A → Option Err → Handled A
  answer a none = done a
  answer a (some err) = refused (failed err)

  unfoldable pub ask_and_answer : {A : Type 0} → A → Bridge E → TeamsCall → Bridge E × Handled A
  unfolding ask answer
  ask_and_answer a b call = let (b', err) = ask b call in (b', answer a err)

  abbrev pub refuse : {A : Type 0} → Bridge E → Text → Bridge E × Handled A
  refuse b message = (b, refused (failed (other message)))
