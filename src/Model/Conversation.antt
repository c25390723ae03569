-- ===== src/Model/Conversation.antt =====
-- internal/teams/model/conversation.go: a conversation of the list, as the thread it stands for. The
-- parts of Go's `strings` that need Unicode's tables are the fields of `Unicode`; encoding/json has
-- decoded the conversation.
pub mod Others
pub mod Stripped
pub mod DmName
use mautrix_teams.Base.{
  ℕ, zero, suc, Bool, true, false, not, ◌&&◌, ◌||◌, Option, none, some, List, [], ◌∷◌, ◌++◌, leb,
  ltb, ◌==◌, if◌then◌else◌, length,
}
use mautrix_teams.Base.Int.{ℤ, pos, leb_ℤ, ltb_ℤ}
use mautrix_teams.Base.Text.{
  Text, codes, trim_space, is_empty, cut, has_prefix, contains, equal_fold, ◌≗◌,
}
use mautrix_teams.Base.Decimal.{parse_int}

-- `strings.ToLower` and `strings.EqualFold`.
pub record Unicode : Type 0 where
  pub to_lower : Text → Text
  pub folds_to : Text → Text → Bool

pub record ThreadProperties : Type 0 where
  pub original_thread_id : Text
  pub product_thread_type : Text
  pub created_at : Text
  pub is_creator : Bool
  pub thread_names : List Text

pub record ConversationMember : Type 0 where
  pub id : Text
  pub mri : Text
  pub display_name : Text
  pub name : Text
  pub is_self : Bool
  pub is_current_user : Bool

-- `ConversationProperties`: `property_names` and the user's own state of the chat.
pub record ConversationProperties : Type 0 where
  pub property_names : List Text
  pub alerts : Text
  pub consumption_horizon : Text
  pub consumption_horizon_bookmark : Text

-- `thread_names`, `property_names` and `own_names` are topic, thread topic, title, display name and
-- name, as far as the object has them, in this order.
pub record RemoteConversation : Type 0 where
  pub conversation : Text
  pub thread_properties : ThreadProperties
  pub own_names : List Text
  pub properties : ConversationProperties
  pub members : List ConversationMember
  pub participants : List ConversationMember
  pub consumers : List ConversationMember

-- `Thread`.
pub record ListedThread : Type 0 where
  pub thread_id : Text
  pub conversation_id : Text
  pub type_of : Text
  pub created_at_raw : Text
  pub created_by_me : Bool
  pub is_one_to_one : Bool
  pub room_name : Text

abbrev pub default_room_name : Text
default_room_name = codes "Chat"

-- `horizonTime`: the middle field of a consumption horizon or bookmark.
unfoldable pub horizon_time : Text → Option ℤ
horizon_time value = elim (cut (trim_space value) (codes ";")) [
  | none ↦ none
  | some (first, rest) ↦
      let middle : Text = elim (cut rest (codes ";")) [ none ↦ rest | some (own, more) ↦ own ] in
      elim (parse_int (trim_space middle)) [
        | none ↦ none
        | some t ↦ if ltb_ℤ (pos 0) t then some t else none
      ]
]

-- `Muted` and `MarkedUnread`.
unfoldable pub muted : ConversationProperties → Bool
muted p = equal_fold (trim_space p.alerts) (codes "false")

later_than : Option ℤ → Option ℤ → Bool
later_than none read = false
later_than (some marked) none = true
later_than (some marked) (some read) = ltb_ℤ read marked

unfoldable pub marked_unread : ConversationProperties → Bool
unfolding later_than horizon_time
marked_unread p =
    later_than (horizon_time p.consumption_horizon_bookmark) (horizon_time p.consumption_horizon)

-- The first of some candidates that is not blank.
unfoldable pub first_named : List Text → Text
first_named [] = []
first_named (candidate ∷ rest) =
    if is_empty (trim_space candidate) then first_named rest else trim_space candidate

-- `resolveThreadName`.
unfoldable pub resolve_thread_name : RemoteConversation → Text
unfolding first_named
resolve_thread_name c =
    first_named (c.thread_properties.thread_names ++ c.properties.property_names ++ c.own_names)

-- `memberID` and `memberName`.
unfoldable pub member_id : ConversationMember → Text
member_id m = if is_empty (trim_space m.id) then trim_space m.mri else trim_space m.id

unfoldable pub member_name : ConversationMember → Text
member_name m =
    if is_empty (trim_space m.display_name) then trim_space m.name else trim_space m.display_name

-- All three lists, in the order in which they are walked.
abbrev pub everyone : RemoteConversation → List ConversationMember
everyone c = c.members ++ c.participants ++ c.consumers

unfoldable pub is_member : Text → List Text → Bool
is_member t [] = false
is_member t (u ∷ us) = (u ≗ t) || is_member t us

all_digits : Text → Bool
all_digits [] = true
all_digits (c ∷ s) = leb b'0' c && leb c b'9' && all_digits s

-- One round of the loop in `normalizeParticipantID`: what follows a prefix of digits and a colon.
unfoldable pub strip_once : Text → Option Text
unfolding all_digits
strip_once id = elim (cut id (codes ":")) [
  | none ↦ none
  | some (prefix, rest) ↦
      if is_empty prefix || is_empty rest || not (all_digits prefix) then none else some rest
]

-- The loop, on fuel.
unfoldable pub strip : ℕ → Text → Text
strip zero id = id
strip (suc fuel) id = elim (strip_once id) [ none ↦ id | some rest ↦ strip fuel rest ]

module _ (unicode : Unicode) where
  -- `normalizeParticipantID`: each round takes a character at least.
  unfoldable pub normalize_participant_id : Text → Text
  unfolding strip strip_once
  normalize_participant_id raw = let id = unicode.to_lower (trim_space raw) in strip (length id) id

  -- `isExplicitSelfMember`.
  unfoldable pub is_explicit_self_member : ConversationMember → Text → Text → Text → Bool
  unfolding normalize_participant_id
  is_explicit_self_member m id self_id self_norm =
      (m.is_self || m.is_current_user)
      || (not (is_empty self_id) && not (is_empty id) && unicode.folds_to id self_id)
      || (not (is_empty self_norm) && normalize_participant_id id ≗ self_norm)

  -- `isLikelyTeamsBotID`.
  unfoldable pub is_likely_teams_bot_id : Text → Bool
  is_likely_teams_bot_id raw =
      let id = trim_space (unicode.to_lower raw) in
      not (is_empty id) && (has_prefix id (codes "28:") || contains id (codes "teamsbot"))

  -- A member that is the user, by the IDs that are at hand.
  unfoldable pub is_self_member : Text → ConversationMember → Bool
  unfolding is_explicit_self_member member_id
  is_self_member self_id m =
      is_explicit_self_member m (member_id m) self_id (normalize_participant_id self_id)

  -- `collectSelfDisplayNames`.
  unfoldable pub collect_self_display_names : Text → List ConversationMember → List Text
  unfolding is_self_member member_name
  collect_self_display_names self_id [] = []
  collect_self_display_names self_id (m ∷ ms) =
      let rest = collect_self_display_names self_id ms in
      if is_self_member self_id m && not (is_empty (member_name m))
      then unicode.to_lower (member_name m) ∷ rest
      else rest

  -- A member that is neither the user nor a bot.
  unfoldable pub is_someone : Text → ConversationMember → Bool
  unfolding is_self_member is_likely_teams_bot_id member_id
  is_someone self_id m =
      not (is_self_member self_id m) && not (is_likely_teams_bot_id (member_id m))

  -- The loop of `resolveDMName`, with the fallback so far.
  unfoldable pub find_dm_name : Text → List Text → Text → List ConversationMember → Text
  unfolding is_someone member_name is_member
  find_dm_name self_id self_names fallback [] = fallback
  find_dm_name self_id self_names fallback (m ∷ ms) =
      let name = member_name m in
      let later =
        find_dm_name self_id self_names
          (if is_someone self_id m && not (is_empty name) && is_empty fallback
            then name
            else fallback)
          ms in
      if is_someone self_id m
        && not (is_empty name)
        && not (is_member (unicode.to_lower name) self_names)
      then name
      else later

  unfoldable pub resolve_dm_name : RemoteConversation → Text → Text
  unfolding find_dm_name collect_self_display_names
  resolve_dm_name c self_user_id =
      let self_id = trim_space self_user_id in
      find_dm_name self_id (collect_self_display_names self_id (everyone c)) [] (everyone c)

  -- `resolveRoomName`.
  unfoldable pub resolve_room_name : RemoteConversation → Bool → Text → Text
  unfolding resolve_dm_name resolve_thread_name
  resolve_room_name c one_to_one self_user_id =
      if one_to_one
      then resolve_dm_name c self_user_id
      else if is_empty (resolve_thread_name c)
      then default_room_name
      else resolve_thread_name c

  -- The key by which a member counts as another participant, none where the loop of
  -- `isLikelyOneToOne` goes on without it.
  unfoldable pub other_key : Text → List Text → ConversationMember → Option Text
  unfolding is_someone member_name member_id normalize_participant_id is_member
  other_key self_id self_names m =
      let name = member_name m in
      let by_id = normalize_participant_id (member_id m) in
      let key = if is_empty by_id then unicode.to_lower name else by_id in
      if not (is_someone self_id m)
        || (not (is_empty name) && is_member (unicode.to_lower name) self_names)
        || is_empty key
      then none
      else some key

  -- The loop, with the set of keys so far.
  unfoldable pub one_other : Text → List Text → List Text → List ConversationMember → Bool
  unfolding other_key is_member
  one_other self_id self_names others [] = length others == 1
  one_other self_id self_names others (m ∷ ms) =
      let key = other_key self_id self_names m in
      let others' : List Text = elim key [
        | none ↦ others
        | some k ↦ if is_member k others then others else k ∷ others
      ] in
      let rest = one_other self_id self_names others' ms in
      if ltb 1 (length others') then false else rest

  -- `isLikelyOneToOne`.
  unfoldable pub is_likely_one_to_one : RemoteConversation → Text → Bool
  unfolding one_other collect_self_display_names resolve_thread_name
  is_likely_one_to_one c self_user_id =
      let self_id = trim_space self_user_id in
      is_empty (resolve_thread_name c)
      && one_other self_id (collect_self_display_names self_id (everyone c)) [] (everyone c)

  -- `NormalizeForSelf`.
  unfoldable pub normalize_for_self : RemoteConversation → Text → Option ListedThread
  unfolding resolve_room_name is_likely_one_to_one
  normalize_for_self c self_user_id =
      let id = trim_space c.thread_properties.original_thread_id in
      let self_id = trim_space self_user_id in
      let kind = trim_space c.thread_properties.product_thread_type in
      let one_to_one = (kind ≗ codes "OneToOneChat") || is_likely_one_to_one c self_id in
      if is_empty id
      then none
      else some (record {
        thread_id = id;
        conversation_id = trim_space c.conversation;
        type_of = kind;
        created_at_raw = c.thread_properties.created_at;
        created_by_me = c.thread_properties.is_creator;
        is_one_to_one = one_to_one;
        room_name = resolve_room_name c one_to_one self_id;
      })
