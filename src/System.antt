-- ===== src/System.antt =====
-- pkg/connector/system_messages.go: what Teams itself posts into a conversation, and the line that is
-- shown for it. encoding/xml and encoding/json are the fields of `ActivityReader`.
pub mod Line
pub mod Named
use mautrix_teams.Base.{
  Bool, false, not, ◌||◌, Option, none, some, List, [], ◌∷◌, ◌++◌, if◌then◌else◌,
}
use mautrix_teams.Base.Text.{
  Text, codes, trim_space, is_empty, to_lower, has_prefix, drop_prefix, ◌≗◌,
}
use mautrix_teams.Base.Assoc.{Assoc, insert}
use mautrix_teams.Model.Sorted.{sort_texts}

-- `systemActivity.Kind`.
pub data ActivityKind : Type 0 where
  added removed joined role renamed described channels file : ActivityKind

-- `systemActivity`.
pub record SystemActivity : Type 0 where
  pub kind : ActivityKind
  pub initiator : Text
  pub targets : List Text
  pub names : Assoc Text
  pub new_role : Text
  pub old_value : Text
  pub new_value : Text

-- `xmlTarget` and `xmlActivity`.
pub record XmlTarget : Type 0 where
  pub text : Text
  pub id : Text
  pub role_of : Text
  pub type_of : Text

pub record XmlActivity : Type 0 where
  pub xml_initiator : Text
  pub value : Text
  pub xml_targets : List XmlTarget

-- `jsonValueChange`, and the body of a "memberjoined" with the ID and name of each member.
pub record ValueChange : Type 0 where
  pub old : Text
  pub new : Text
  pub user : Text

pub record MembersJoined : Type 0 where
  pub joined_initiator : Text
  pub members : List (Text × Text)

-- What the contents decode to, none where it fails.
pub record ActivityReader : Type 0 where
  pub read_xml : Text → Option XmlActivity
  pub read_change : Text → Option ValueChange
  pub read_joined : Text → Option MembersJoined
  -- the names of a JSON array of channels
  pub read_channels : Text → Option (List Text)

abbrev pub blank : ActivityKind → Text → SystemActivity
blank kind initiator = record {
  kind = kind;
  initiator = trim_space initiator;
  targets = [];
  names = [];
  new_role = [];
  old_value = [];
  new_value = [];
}

-- The MRI of a target: its ID, or its text.
unfoldable pub target_mri : XmlTarget → Text
target_mri t = if is_empty (trim_space t.id) then trim_space t.text else trim_space t.id

-- The loop over the targets of an XML activity.
unfoldable pub with_targets : SystemActivity → List XmlTarget → SystemActivity
unfolding target_mri
with_targets a [] = a
with_targets a (t ∷ rest) =
    let mri = target_mri t in
    let role_name = trim_space t.role_of in
    with_targets
      (if is_empty mri then a else record a {
        targets = a.targets ++ mri ∷ [];
        new_role = if is_empty role_name then a.new_role else to_lower role_name;
      })
      rest

-- An activity with a target at least.
unfoldable pub if_targets : SystemActivity → List Text → Option SystemActivity
if_targets a [] = none
if_targets a (t ∷ rest) = some a

first_type : List XmlTarget → Text
first_type [] = []
first_type (t ∷ rest) = to_lower (trim_space t.type_of)

-- The activities whose content is XML, by their kind.
unfoldable pub xml_activity : ActivityKind → Option XmlActivity → Option SystemActivity
unfolding with_targets if_targets first_type
xml_activity kind none = none
xml_activity renamed (some x) =
    let a = with_targets (blank renamed x.xml_initiator) x.xml_targets in
    let value = trim_space x.value in
    if is_empty value then none else some (record a { new_value = value })
xml_activity file (some x) =
    let a = with_targets (blank file x.xml_initiator) x.xml_targets in
    some (record a { targets = []; new_value = first_type x.xml_targets })
xml_activity kind (some x) =
    let a = with_targets (blank kind x.xml_initiator) x.xml_targets in if_targets a a.targets

unfoldable pub change_activity : ActivityKind → Option ValueChange → Option SystemActivity
change_activity kind none = none
change_activity kind (some j) =
    if is_empty (trim_space j.new)
    then none
    else some
        (record (blank kind j.user) { old_value = trim_space j.old; new_value = trim_space j.new })

has_name : List Text → Text → Bool
has_name [] name = false
has_name (n ∷ rest) name = (n ≗ name) || has_name rest name

-- `names`: the channel names of a list, each once.
name_set : List Text → List Text
unfolding has_name
name_set [] = []
name_set (n ∷ rest) =
    let others = name_set rest in
    let name = trim_space n in
    if is_empty name || has_name others name then others else name ∷ others

channel_set : Option (List Text) → List Text
unfolding name_set
channel_set none = []
channel_set (some names) = name_set names

without : List Text → List Text → List Text
unfolding has_name
without old [] = []
without old (n ∷ rest) = let more = without old rest in if has_name old n then more else n ∷ more

unfoldable pub channels_activity : ActivityReader → Option ValueChange → Option SystemActivity
unfolding channel_set without if_targets
channels_activity reader none = none
channels_activity reader (some j) =
    let news =
      without (channel_set (reader.read_channels j.old))
        (channel_set (reader.read_channels j.new)) in
    let a = record (blank channels j.user) { targets = sort_texts news } in if_targets a a.targets

with_members : SystemActivity → List (Text × Text) → SystemActivity
with_members a [] = a
with_members a ((id, name) ∷ rest) =
    let mri = trim_space id in
    let shown = trim_space name in
    with_members
      (if is_empty mri then a else record a {
        targets = a.targets ++ mri ∷ [];
        names = if is_empty shown then a.names else insert mri shown a.names;
      })
      rest

unfoldable pub joined_activity : Option MembersJoined → Option SystemActivity
unfolding with_members if_targets
joined_activity none = none
joined_activity (some j) =
    let a = with_members (blank joined j.joined_initiator) j.members in if_targets a a.targets

abbrev activity_prefix : Text
activity_prefix = codes "threadactivity/"

-- `parseSystemMessage`, by the kind that follows "threadactivity/".
unfoldable pub parse_activity : ActivityReader → Text → Text → Option SystemActivity
unfolding xml_activity change_activity channels_activity joined_activity
parse_activity reader kind raw =
    if kind ≗ codes "addmember"
    then xml_activity added (reader.read_xml raw)
    else if kind ≗ codes "deletemember"
    then xml_activity removed (reader.read_xml raw)
    else if kind ≗ codes "roleupdate"
    then xml_activity role (reader.read_xml raw)
    else if kind ≗ codes "topicupdate"
    then xml_activity renamed (reader.read_xml raw)
    else if kind ≗ codes "fileadd"
    then xml_activity file (reader.read_xml raw)
    else if kind ≗ codes "spacetopicupdated"
    then change_activity renamed (reader.read_change raw)
    else if kind ≗ codes "spacedescriptionupdated"
    then change_activity described (reader.read_change raw)
    else if kind ≗ codes "spacethreadchanneladded"
    then channels_activity reader (reader.read_change raw)
    else if kind ≗ codes "memberjoined"
    then joined_activity (reader.read_joined raw)
    else none

unfoldable pub parse_system_message : ActivityReader → Text → Text → Option SystemActivity
unfolding parse_activity
parse_system_message reader message_type raw =
    let kind = to_lower (trim_space message_type) in
    if not (has_prefix kind activity_prefix) || is_empty (trim_space raw)
    then none
    else parse_activity reader (drop_prefix kind activity_prefix) (trim_space raw)
