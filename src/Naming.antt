-- ===== src/Naming.antt =====
-- Room names of pkg/connector/thread_discovery.go: the name that discovery stores for a chat, and the
-- names that show a chat's kind.
pub mod Settled
use mautrix_teams.Base.{
  ℕ, suc, ◌-◌, Bool, true, false, not, ◌&&◌, ◌||◌, Option, none, some, List, [], ◌∷◌, ◌++◌, ltb,
  length, if◌then◌else◌,
}
use mautrix_teams.Base.Text.{
  Text, codes, trim_space, is_empty, to_lower, has_prefix, drop_prefix, contains, cut, equal_fold,
  ◌≗◌,
}
use mautrix_teams.Base.Assoc.{Assoc, lookup}
use mautrix_teams.Base.Decimal.{itoa}
use mautrix_teams.Model.Sorted.{sort_texts, join_texts}

-- `strings.HasSuffix`.
unfoldable pub has_suffix : Text → Text → Bool
has_suffix [] t = is_empty t
has_suffix (c ∷ s) t = ((c ∷ s) ≗ t) || has_suffix s t

abbrev pub type_prefixes : List Text
type_prefixes =
    codes "DM: "
    ∷ codes "Group: "
    ∷ codes "Meeting: "
    ∷ codes "[DM] "
    ∷ codes "[Channel] "
    ∷ codes "[Group] "
    ∷ codes "[Meeting] "
    ∷ []

has_one_of : Text → List Text → Bool
has_one_of name [] = false
has_one_of name (prefix ∷ rest) = has_prefix name prefix || has_one_of name rest

strip_one_of : Text → List Text → Text
strip_one_of name [] = name
strip_one_of name (prefix ∷ rest) =
    let later = strip_one_of name rest in
    if has_prefix name prefix then drop_prefix name prefix else later

-- `hasTypePrefix` and `stripTypePrefix`.
unfoldable pub has_type_prefix : Text → Bool
unfolding has_one_of
has_type_prefix name = has_one_of name type_prefixes

unfoldable pub strip_type_prefix : Text → Text
unfolding strip_one_of
strip_type_prefix name = strip_one_of name type_prefixes

-- `isGenericChatName`.
unfoldable pub is_generic_chat_name : Text → Bool
is_generic_chat_name name = is_empty (trim_space name) || (trim_space name ≗ codes "Chat")

abbrev pub placeholder_dm_prefix : Text
placeholder_dm_prefix = codes "DM: unknown user "

unfoldable pub is_placeholder_dm_name : Text → Bool
is_placeholder_dm_name name = has_prefix name placeholder_dm_prefix

-- `chooseStoredName`.
unfoldable pub choose_stored_name : Text → Text → Text
choose_stored_name api existing =
    if is_empty existing
    then api
    else if is_generic_chat_name api && not (is_generic_chat_name existing)
    then existing
    else if has_type_prefix existing
        && not (is_placeholder_dm_name existing)
        && (api ≗ strip_type_prefix existing)
    then existing
    else if has_suffix existing (codes " / " ++ api)
    then existing
    else api

-- The name of a thread's row after discovery, by the row that is there.
unfoldable pub stored_name : Text → Option Text → Text
unfolding choose_stored_name
stored_name api none = api
stored_name api (some existing) = choose_stored_name api existing

-- `placeholderDMName`; the ID is cut at a dash that does not come first.
first_block : Text → Option (Text × Text) → Text
first_block id none = id
first_block id (some ([], after)) = id
first_block id (some (c ∷ before, after)) = c ∷ before

unfoldable pub placeholder_dm_name : Text → Text
unfolding first_block
placeholder_dm_name teams_user_id =
    let trimmed = trim_space teams_user_id in
    let id =
      if has_prefix trimmed (codes "8:orgid:")
      then drop_prefix trimmed (codes "8:orgid:")
      else trimmed in
    if is_empty id then [] else placeholder_dm_prefix ++ first_block id (cut id (codes "-"))

-- `graph.ChannelInfo`: the names.
pub record ChannelInfo : Type 0 where
  pub team_name : Text
  pub channel_name : Text

-- `channelRoomName`.
unfoldable pub name_of_channel : Text → Text → Option ChannelInfo → Text
name_of_channel thread_id base none = if is_empty base then thread_id else base
name_of_channel thread_id base (some info) =
    let channel = if is_empty info.channel_name then base else info.channel_name in
    if not (is_empty info.team_name) && not (is_empty channel)
    then info.team_name ++ codes " / " ++ channel
    else if not (is_empty channel)
    then channel
    else if not (is_empty info.team_name)
    then info.team_name
    else if not (is_empty base)
    then base
    else thread_id

unfoldable pub channel_room_name : Assoc ChannelInfo → Text → Text → Text
unfolding name_of_channel
channel_room_name channels thread_id base =
    name_of_channel thread_id base (lookup thread_id channels)

-- `systemStreamName`.
unfoldable pub system_stream_name : Text → Text
system_stream_name thread_id =
    if contains thread_id (codes "teamsstream_notes")
    then codes "Notes"
    else if contains thread_id (codes "teamsstream_notifications")
    then codes "Notifications"
    else if contains thread_id (codes "teamsstream_calllogs")
    then codes "Call Log"
    else if contains thread_id (codes "teamsstream_annotations")
    then codes "Annotations"
    else if contains thread_id (codes "teamsstream_threads")
    then codes "Threads"
    else if contains thread_id (codes "teamsstream_drafts")
    then codes "Drafts"
    else if contains thread_id (codes "teamsstream_mentions")
    then codes "Mentions"
    else []

-- `isGroupChatThread`.
unfoldable pub is_group_chat_thread : Text → Bool
is_group_chat_thread thread_id =
    let id = to_lower (trim_space thread_id) in
    has_suffix id (codes "@thread.v2")
    && not (contains id (codes "meeting_"))
    && not (contains id (codes "teamsstream_"))

-- `joinGroupNames`.
first_names : ℕ → List Text → List Text
first_names (suc n) (name ∷ rest) = name ∷ first_names n rest
first_names _ _ = []

unfoldable pub join_group_names : List Text → Text
unfolding first_names
join_group_names names =
    let sorted = sort_texts names in
    if ltb 4 (length names)
    then join_texts (first_names 3 sorted) (codes ", ")
      ++ codes " +"
      ++ itoa (length names - 3)
      ++ codes " others"
    else join_texts sorted (codes ", ")

-- A thread's row, as far as names go. `counterpart` is the ID that dmCounterpartFromThreadID finds,
-- `resolved` the name that resolveDMNameFromThreadID finds.
pub record NamedThread : Type 0 where
  pub thread_id : Text
  pub is_one_to_one : Bool
  pub counterpart : Text
  pub resolved : Text

-- `structuredRoomName`.
unfoldable pub structured_room_name : Assoc ChannelInfo → NamedThread → Text → Text
unfolding channel_room_name placeholder_dm_name
structured_room_name channels th name =
    let base = if name ≗ codes "Chat" then [] else name in
    if th.is_one_to_one
    then (if not (is_empty base)
        then codes "DM: " ++ base
        else if not (is_empty th.resolved)
        then codes "DM: " ++ th.resolved
        else placeholder_dm_name th.counterpart)
    else if contains th.thread_id (codes "meeting_")
    then codes "Meeting: " ++ (if is_empty base then codes "Meeting" else base)
    else if contains th.thread_id (codes "@thread.tacv2")
    then channel_room_name channels th.thread_id base
    else if is_empty base
    then []
    else codes "Group: " ++ base

-- What `applyStructuredRoomNames` makes of a thread's name, and whether it resyncs the room.
unfoldable pub renamed : Text → Text → Text × Bool
renamed name new = if is_empty new || (new ≗ name) then (name, false) else (new, true)

unfoldable pub apply_room_name : Assoc ChannelInfo → NamedThread → Text → Text × Bool
unfolding renamed structured_room_name
apply_room_name channels th name =
    if contains th.thread_id (codes "teamsstream_")
    then renamed name (system_stream_name th.thread_id)
    else if has_type_prefix name
    then (name, false)
    else renamed name (structured_room_name channels th name)

-- A thread's name after discovery and the naming pass that follows it, and whether the naming pass
-- asks for a resync of the room; the resync that discovery itself queues is left out.
unfoldable pub named : Assoc ChannelInfo → NamedThread → Text → Option Text → Text × Bool
unfolding stored_name apply_room_name
named channels th api existing = apply_room_name channels th (stored_name api existing)
