-- ===== src/System/Named.antt =====
-- `parseSystemMessage` of pkg/connector/system_messages.go: what an activity names.
use mautrix_teams.Base.{
  ◌≡◌, ◌⊎◌, inl, inr, refl, ◌∙◌, Bool, true, false, not, Option, none, some, List, [], ◌∷◌,
  if◌then◌else◌, Bool-cases, ◌||◌,
}
use mautrix_teams.Base.Text.{Text, trim_space, is_empty, to_lower, has_prefix, codes, ◌≗◌}
use mautrix_teams.System.{
  ActivityKind, SystemActivity, ActivityReader, XmlTarget, XmlActivity, ValueChange, MembersJoined,
  added, removed, joined, role, renamed, described, channels, file, if_targets, xml_activity,
  change_activity, blank, with_targets, with_members, target_mri, channels_activity,
  activity_prefix, drop_prefix, joined_activity, parse_activity, parse_system_message,
}

abbrev pub has_any : List Text → Bool
has_any [] = false
has_any (t ∷ rest) = true

-- What the line for a kind names: the new value, nothing for a file, or people and channels.
abbrev pub names_for : ActivityKind → Text → List Text → Bool
names_for renamed value targets = not (is_empty value)
names_for described value targets = not (is_empty value)
names_for file value targets = true
names_for kind value targets = has_any targets

-- An activity, if there is one, has what its line names.
abbrev pub IsNamed : Option SystemActivity → Type 0
IsNamed none = Unit
IsNamed (some a) = names_for a.kind a.new_value a.targets ≡ true

-- The kinds that name people or channels.
abbrev is_of_targets : ActivityKind → Bool
is_of_targets renamed = false
is_of_targets described = false
is_of_targets file = false
is_of_targets kind = true

names_some :
    (kind : ActivityKind) (value t : Text) (ts : List Text)
    → is_of_targets kind ≡ true
    → names_for kind value (t ∷ ts) ≡ true
names_some added value t ts h = refl
names_some removed value t ts h = refl
names_some joined value t ts h = refl
names_some role value t ts h = refl
names_some channels value t ts h = refl
names_some renamed value t ts h = absurd (cc h)
names_some described value t ts h = absurd (cc h)
names_some file value t ts h = absurd (cc h)

if_targets-IsNamed :
    (a : SystemActivity) (ts : List Text)
    → a.targets ≡ ts
    → is_of_targets a.kind ≡ true
    → IsNamed (if_targets a ts)
unfolding if_targets
if_targets-IsNamed a [] e h = tt
if_targets-IsNamed a (t ∷ ts) e h = rw e (names_some a.kind a.new_value t ts h)

kind_either :
    (b : Bool) (a a' : SystemActivity) → a'.kind ≡ a.kind → (if b then a else a').kind ≡ a.kind
kind_either true a a' e = refl
kind_either false a a' e = e

kind-with_targets : (ts : List XmlTarget) (a : SystemActivity) → (with_targets a ts).kind ≡ a.kind
unfolding with_targets
kind-with_targets [] a = refl
kind-with_targets (t ∷ rest) a =
    kind-with_targets rest _ ∙ kind_either (is_empty (target_mri t)) a _ refl

kind-with_members :
    (ms : List (Text × Text)) (a : SystemActivity) → (with_members a ms).kind ≡ a.kind
unfolding with_members
kind-with_members [] a = refl
kind-with_members ((id, name) ∷ rest) a =
    kind-with_members rest _ ∙ kind_either (is_empty (trim_space id)) a _ refl

xml-IsNamed :
    (kind : ActivityKind) (x : Option XmlActivity)
    → is_of_targets kind ≡ true
    → IsNamed (xml_activity kind x)
unfolding xml_activity
xml-IsNamed kind none h = tt
xml-IsNamed added (some x) h =
    if_targets-IsNamed _ _ refl
      (rw (kind-with_targets x.xml_targets (blank added x.xml_initiator)) refl)
xml-IsNamed removed (some x) h =
    if_targets-IsNamed _ _ refl
      (rw (kind-with_targets x.xml_targets (blank removed x.xml_initiator)) refl)
xml-IsNamed joined (some x) h =
    if_targets-IsNamed _ _ refl
      (rw (kind-with_targets x.xml_targets (blank joined x.xml_initiator)) refl)
xml-IsNamed role (some x) h =
    if_targets-IsNamed _ _ refl
      (rw (kind-with_targets x.xml_targets (blank role x.xml_initiator)) refl)
xml-IsNamed channels (some x) h =
    if_targets-IsNamed _ _ refl
      (rw (kind-with_targets x.xml_targets (blank channels x.xml_initiator)) refl)
xml-IsNamed described (some x) h = absurd (cc h)
xml-IsNamed file (some x) h = absurd (cc h)
xml-IsNamed renamed (some x) h = absurd (cc h)

file-IsNamed : (x : Option XmlActivity) → IsNamed (xml_activity file x)
unfolding xml_activity
file-IsNamed none = tt
file-IsNamed (some x) = rw (kind-with_targets x.xml_targets (blank file x.xml_initiator)) refl

renamed-IsNamed : (x : Option XmlActivity) → IsNamed (xml_activity renamed x)
unfolding xml_activity
renamed-IsNamed none = tt
renamed-IsNamed (some x) = elim (Bool-cases (is_empty (trim_space x.value))) [
  | inl e ↦ rw e tt
  | inr e ↦ rw e (rw (kind-with_targets x.xml_targets (blank renamed x.xml_initiator)) (rw e refl))
]

change-IsNamed :
    (kind : ActivityKind) (j : Option ValueChange)
    → (kind ≡ renamed) ⊎ (kind ≡ described)
    → IsNamed (change_activity kind j)
unfolding change_activity
change-IsNamed kind none h = tt
change-IsNamed kind (some j) h = elim (Bool-cases (is_empty (trim_space j.new))) [
  | inl e ↦ rw e tt
  | inr e ↦ rw e (elim h [ inl k ↦ rw k (rw e refl) | inr k ↦ rw k (rw e refl) ])
]

channels-IsNamed :
    (reader : ActivityReader) (j : Option ValueChange) → IsNamed (channels_activity reader j)
unfolding channels_activity
channels-IsNamed reader none = tt
channels-IsNamed reader (some j) = if_targets-IsNamed _ _ refl refl

joined-IsNamed : (j : Option MembersJoined) → IsNamed (joined_activity j)
unfolding joined_activity
joined-IsNamed none = tt
joined-IsNamed (some j) =
    if_targets-IsNamed _ _ refl
      (rw (kind-with_members j.members (blank joined j.joined_initiator)) refl)

parse_activity-IsNamed :
    (reader : ActivityReader) (kind raw : Text) → IsNamed (parse_activity reader kind raw)
unfolding parse_activity
parse_activity-IsNamed reader kind raw = elim (Bool-cases (kind ≗ codes "addmember")) [
  | inl e ↦ rw e (xml-IsNamed added (reader.read_xml raw) refl)
  | inr e ↦ rw e (elim (Bool-cases (kind ≗ codes "deletemember")) [
    | inl e ↦ rw e (xml-IsNamed removed (reader.read_xml raw) refl)
    | inr e ↦ rw e (elim (Bool-cases (kind ≗ codes "roleupdate")) [
      | inl e ↦ rw e (xml-IsNamed role (reader.read_xml raw) refl)
      | inr e ↦ rw e (elim (Bool-cases (kind ≗ codes "topicupdate")) [
        | inl e ↦ rw e (renamed-IsNamed (reader.read_xml raw))
        | inr e ↦ rw e (elim (Bool-cases (kind ≗ codes "fileadd")) [
          | inl e ↦ rw e (file-IsNamed (reader.read_xml raw))
          | inr e ↦ rw e (elim (Bool-cases (kind ≗ codes "spacetopicupdated")) [
            | inl e ↦ rw e (change-IsNamed renamed (reader.read_change raw) (inl refl))
            | inr e ↦ rw e (elim (Bool-cases (kind ≗ codes "spacedescriptionupdated")) [
              | inl e ↦ rw e (change-IsNamed described (reader.read_change raw) (inr refl))
              | inr e ↦ rw e (elim (Bool-cases (kind ≗ codes "spacethreadchanneladded")) [
                | inl e ↦ rw e (channels-IsNamed reader (reader.read_change raw))
                | inr e ↦ rw e (elim (Bool-cases (kind ≗ codes "memberjoined")) [
                  | inl e ↦ rw e (joined-IsNamed (reader.read_joined raw))
                  | inr e ↦ rw e (tt)
                ])
              ])
            ])
          ])
        ])
      ])
    ])
  ])
]

-- Every activity that a message parses to names what its line is about: a renaming and a new
-- description have a new value, and all others but a file's have at least one person or channel, so
-- that no line is about nobody.
pub parse_system_message-IsNamed :
    (reader : ActivityReader) (message_type raw : Text)
    → IsNamed (parse_system_message reader message_type raw)
unfolding parse_system_message
parse_system_message-IsNamed reader message_type raw =
    let kind = to_lower (trim_space message_type) in
    elim (Bool-cases (not (has_prefix kind activity_prefix) || is_empty (trim_space raw))) [
      | inl e ↦ rw e tt
      | inr e ↦
          rw e (parse_activity-IsNamed reader (drop_prefix kind activity_prefix) (trim_space raw))
    ]
