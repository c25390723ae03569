-- ===== src/Model/Properties.antt =====
-- The properties of a message: `IsDeleted` and `ExtractEditTime` of
-- internal/teams/model/attachment.go, `ExtractReactions` of internal/teams/model/message.go.
use mautrix_teams.Base.{
  Bool, false, not, ◌&&◌, ◌||◌, Option, none, some, List, [], ◌∷◌, if◌then◌else◌,
}
use mautrix_teams.Base.Int.{ℤ, pos, ltb_ℤ}
use mautrix_teams.Base.Text.{Text, trim_space, is_empty}
use mautrix_teams.Base.Decimal.{parse_int}

pub record MessageReactionUser : Type 0 where
  pub mri : Text
  pub time_ms : ℤ

pub record MessageReaction : Type 0 where
  pub emotion_key : Text
  pub users : List MessageReactionUser

-- An entry of "emotions": its key, and the MRI and raw time of each user.
pub record Emotion : Type 0 where
  pub key : Text
  pub users : List (Text × Text)

-- What encoding/json reads, none where it returns an error: a raw value that is missing is empty. A
-- float is what converting it to an `int64` gives.
pub record Json : Type 0 where
  -- the raw values of "deletetime" and "hardDeleteTime", that of "edittime", and "emotions"
  pub delete_times : Text → Option (Text × Text)
  pub edit_time : Text → Option Text
  pub emotions : Text → Option (List Emotion)
  -- a json.Number's text, a string, a float64
  pub number : Text → Option Text
  pub string : Text → Option Text
  pub float : Text → Option ℤ
  -- strconv.ParseFloat
  pub parse_float : Text → Option ℤ

module _ (json : Json) where
  has_delete_time : Option (Text × Text) → Bool
  has_delete_time none = false
  has_delete_time (some (delete, hard)) = not (is_empty delete) || not (is_empty hard)

  -- `IsDeleted`.
  unfoldable pub is_deleted : Text → Bool
  unfolding has_delete_time
  is_deleted properties =
      not (is_empty properties) && has_delete_time (json.delete_times properties)

  -- The end of `ExtractEditTime`, from the number's text on.
  unfoldable pub edit_time_value : Option ℤ → ℤ
  edit_time_value none = pos 0
  edit_time_value (some v) = if ltb_ℤ v (pos 0) then pos 0 else v

  edit_time_string : Option Text → ℤ
  unfolding edit_time_value
  edit_time_string none = pos 0
  edit_time_string (some s) = edit_time_value (parse_int (trim_space s))

  edit_time_number : Text → Option Text → ℤ
  unfolding edit_time_value edit_time_string
  edit_time_number raw (some n) = edit_time_value (parse_int n)
  edit_time_number raw none = edit_time_string (json.string raw)

  edit_time_raw : Option Text → ℤ
  unfolding edit_time_number
  edit_time_raw none = pos 0
  edit_time_raw (some raw) = if is_empty raw then pos 0 else edit_time_number raw (json.number raw)

  -- `ExtractEditTime`.
  unfoldable pub extract_edit_time : Text → ℤ
  unfolding edit_time_raw
  extract_edit_time properties =
      if is_empty properties then pos 0 else edit_time_raw (json.edit_time properties)

  or_zero : Option ℤ → ℤ
  or_zero none = pos 0
  or_zero (some v) = v

  parsed_time : Text → Option ℤ → ℤ
  unfolding or_zero
  parsed_time s (some v) = v
  parsed_time s none = or_zero (json.parse_float s)

  reaction_time : Text → Option Text → ℤ
  unfolding parsed_time or_zero
  reaction_time raw none = or_zero (json.float raw)
  reaction_time raw (some s) =
      let t = trim_space s in if is_empty t then pos 0 else parsed_time t (parse_int t)

  -- `parseReactionTime`.
  unfoldable pub parse_reaction_time : Text → ℤ
  unfolding reaction_time
  parse_reaction_time raw = if is_empty raw then pos 0 else reaction_time raw (json.string raw)

  reaction_users : List (Text × Text) → List MessageReactionUser
  unfolding parse_reaction_time
  reaction_users [] = []
  reaction_users ((mri, time) ∷ rest) =
      let users = reaction_users rest in
      if is_empty (trim_space mri)
      then users
      else record { mri = trim_space mri; time_ms = parse_reaction_time time } ∷ users

  with_users : Text → List MessageReactionUser → List MessageReaction → List MessageReaction
  with_users key [] more = more
  with_users key (u ∷ us) more = record { emotion_key = key; users = u ∷ us } ∷ more

  reactions_of : List Emotion → List MessageReaction
  unfolding reaction_users with_users
  reactions_of [] = []
  reactions_of (e ∷ rest) =
      let more = reactions_of rest in
      if is_empty (trim_space e.key)
      then more
      else with_users (trim_space e.key) (reaction_users e.users) more

  from_emotions : Option (List Emotion) → List MessageReaction
  unfolding reactions_of
  from_emotions none = []
  from_emotions (some emotions) = reactions_of emotions

  -- `ExtractReactions`.
  unfoldable pub extract_reactions : Text → List MessageReaction
  unfolding from_emotions
  extract_reactions properties =
      if is_empty properties then [] else from_emotions (json.emotions properties)
