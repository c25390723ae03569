-- ===== src/System/Line.antt =====
-- `systemMessageText` of pkg/connector/system_messages.go: the line for an activity.
use mautrix_teams.Base.{
  ℕ, suc, ◌-◌, ◌≡◌, refl, Bool, false, not, ◌&&◌, Option, none, some, List, [], ◌∷◌, ◌++◌, ltb, leb,
  length, if◌then◌else◌,
}
use mautrix_teams.Base.Text.{Text, codes, trim_space, is_empty, to_lower, has_prefix, contains, ◌≗◌}
use mautrix_teams.Base.Assoc.{lookup}
use mautrix_teams.Base.Decimal.{itoa}
use mautrix_teams.Model.Sorted.{join_texts}
use mautrix_teams.System.{
  ActivityKind, SystemActivity, added, removed, joined, role, renamed, described, channels, file,
}

-- `strings.ToUpper(s[:1])` of a text that starts with an ASCII letter.
unfoldable pub capitalize_first : Text → Text
capitalize_first [] = []
capitalize_first (c ∷ s) = (if leb b'a' c && leb c b'z' then c - 32 else c) ∷ s

unfoldable pub place_for_thread : Text → Text
place_for_thread thread_id =
    if contains (to_lower thread_id) (codes "@thread.tacv2")
    then codes "the channel"
    else codes "the chat"

take_names : ℕ → List Text → List Text
take_names (suc n) (name ∷ rest) = name ∷ take_names n rest
take_names _ _ = []

-- The names before the last one, and the last one.
with_last : Text → List Text → List Text × Text
with_last name [] = ([], name)
with_last name (next ∷ rest) = let (init, last) = with_last next rest in (name ∷ init, last)

-- `joinNames`.
unfoldable pub join_names : List Text → Text
unfolding take_names with_last
join_names [] = codes "nobody"
join_names (name ∷ []) = name
join_names (name ∷ next ∷ rest) =
    let names = name ∷ next ∷ rest in
    let (init, last) = with_last name (next ∷ rest) in
    if ltb 7 (length names)
    then join_texts (take_names 6 names) (codes ", ")
      ++ codes " and "
      ++ itoa (length names - 6)
      ++ codes " others"
    else join_texts init (codes ", ") ++ codes " and " ++ last

given_name : Option Text → Text
given_name none = []
given_name (some name) = trim_space name

-- `who`: the resolver's name, the one that Teams gave, or "someone".
unfoldable pub who : (Text → Text) → SystemActivity → Text → Text
unfolding given_name
who resolve a mri =
    let resolved = trim_space (resolve mri) in
    let given = given_name (lookup mri a.names) in
    if not (is_empty resolved)
    then resolved
    else if not (is_empty given)
    then given
    else codes "someone"

quoted : Text → Text
quoted s = codes "“" ++ s ++ codes "”"

from_value : Text → Text
unfolding quoted
from_value old = if is_empty old then [] else codes " from " ++ quoted old

role_name : Text → Bool → Text
role_name r plural =
    if r ≗ codes "admin"
    then (if plural then codes "owners" else codes "an owner")
    else if r ≗ codes "user"
    then (if plural then codes "members" else codes "a member")
    else r

all_named : (Text → Text) → List Text → List Text
all_named show [] = []
all_named show (mri ∷ rest) = show mri ∷ all_named show rest

only_target : SystemActivity → List Text → Bool
only_target a (t ∷ []) = t ≗ a.initiator
only_target a _ = false

-- The line by the kind, with the actor's name, empty where there is none, and the people's.
unfoldable pub line_for : ActivityKind → SystemActivity → Text → Text → List Text → Text
unfolding quoted from_value role_name only_target all_named
line_for added a place actor people =
    let plural = ltb 1 (length a.targets) in
    if not (is_empty actor)
    then actor ++ codes " added " ++ join_names people ++ codes " to " ++ place
    else join_names people
      ++ (if plural then codes " were" else codes " was")
      ++ codes " added to "
      ++ place
line_for removed a place actor people =
    let plural = ltb 1 (length a.targets) in
    if not (is_empty actor) && only_target a a.targets
    then actor ++ codes " left " ++ place
    else if not (is_empty actor)
    then actor ++ codes " removed " ++ join_names people ++ codes " from " ++ place
    else join_names people
      ++ (if plural then codes " were" else codes " was")
      ++ codes " removed from "
      ++ place
line_for role a place actor people =
    let plural = ltb 1 (length a.targets) in
    let r = role_name a.new_role plural in
    if not (is_empty actor)
    then actor ++ codes " made " ++ join_names people ++ codes " " ++ r
    else join_names people ++ (if plural then codes " are" else codes " is") ++ codes " now " ++ r
line_for joined a place actor people = join_names people ++ codes " joined " ++ place
line_for renamed a place actor people =
    let to = from_value a.old_value ++ codes " to " ++ quoted a.new_value in
    if not (is_empty actor)
    then actor ++ codes " renamed " ++ place ++ to
    else capitalize_first place ++ codes " was renamed" ++ to
line_for described a place actor people =
    let to = from_value a.old_value ++ codes " to " ++ quoted a.new_value in
    if not (is_empty actor)
    then actor ++ codes " changed the description" ++ to
    else codes "The description was changed" ++ to
line_for channels a place actor people =
    let plural = ltb 1 (length a.targets) in
    let noun = if plural then codes "the channels" else codes "the channel" in
    let names = join_names (all_named quoted a.targets) in
    if not (is_empty actor)
    then actor ++ codes " added " ++ noun ++ codes " " ++ names
    else capitalize_first noun
      ++ codes " "
      ++ names
      ++ (if plural then codes " were" else codes " was")
      ++ codes " added"
line_for file a place actor people =
    let thing = if a.new_value ≗ codes "loop" then codes "a Loop component" else codes "a file" in
    if not (is_empty actor)
    then actor ++ codes " added " ++ thing
    else capitalize_first thing ++ codes " was added"

-- `systemMessageText`; an initiator that is no person has no name.
unfoldable pub system_message_text : SystemActivity → Text → (Text → Text) → Text
unfolding all_named
system_message_text a place resolve =
    let actor = if has_prefix a.initiator (codes "8:") then who resolve a a.initiator else [] in
    line_for a.kind a place actor (all_named (who resolve a) a.targets)

abbrev two_added : SystemActivity
two_added = record {
  kind = added;
  initiator = codes "8:a";
  targets = codes "8:b" ∷ codes "8:c" ∷ [];
  names = [];
  new_role = [];
  old_value = [];
  new_value = [];
}

two_added_line :
    system_message_text two_added (codes "the chat") (λ mri. mri)
    ≡ codes "8:a added 8:b and 8:c to the chat"
unfolding system_message_text has_prefix who trim_space line_for join_names join_texts
two_added_line = refl
