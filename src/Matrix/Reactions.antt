-- ===== src/Matrix/Reactions.antt =====
-- pkg/connector/handlematrix.go: PreHandleMatrixReaction, HandleMatrixReaction and
-- HandleMatrixReactionRemove.
use mautrix_teams.Base.{[], ◌++◌, Option, none, some, if◌then◌else◌}
use mautrix_teams.Base.Text.{Text, codes, trim_space, is_empty}
use mautrix_teams.Ingest.{unix_milli, network_user_id, normalize_reaction_message_id}
use mautrix_teams.Matrix.{
  MatrixWorld, Bridge, Handled, begun, continue, ask_and_answer, refuse, now, self_user,
  add_reaction, remove_reaction, target_not_found, unsupported_emoji, done, refused,
}

-- What bridgev2 is told of a reaction before it is sent, and what it stores of it afterwards.
pub record PreReaction : Type 0 where
  pub reacted_as : Text
  pub pre_emoji_id : Text
  pub pre_emoji : Text

pub record StoredReaction : Type 0 where
  pub stored_emoji_id : Text
  pub stored_emoji : Text

-- The reaction's key where it has content, its target, and what the handler before it answered.
pub record MatrixReaction : Type 0 where
  pub key : Option Text
  pub reaction_portal : Text
  pub reaction_target : Option Text
  pub pre : Option PreReaction

-- The reaction that is to be removed: its emoji's ID, its emoji and its message.
pub record RemovedReaction : Type 0 where
  pub removed_emoji_id : Text
  pub removed_emoji : Text
  pub removed_from : Text

-- What stands in the answer of the handler before.
unfoldable pub pre_key : Option PreReaction → Text
pre_key none = []
pre_key (some p) = p.pre_emoji_id

unfoldable pub pre_emoji_or : Text → Option PreReaction → Text
pre_emoji_or emoji none = emoji
pre_emoji_or emoji (some p) =
    if is_empty p.pre_emoji_id then emoji else if is_empty p.pre_emoji then emoji else p.pre_emoji

module _ {E M : Type 0} (world : MatrixWorld E M) where
  -- The emotion key: the one that is known, or the emoji's.
  unfoldable pub emotion_key_of : Text → Text → Option Text
  emotion_key_of known emoji =
      if is_empty known then world.map_emoji_to_emotion_key emoji else some known

  pre_answer : Bridge E → Text → Option Text → Bridge E × Handled PreReaction
  pre_answer b emoji none = (b, refused unsupported_emoji)
  pre_answer b emoji (some key) = (
    b,
    done (record {
      reacted_as = network_user_id (self_user world b);
      pre_emoji_id = key;
      pre_emoji = emoji;
    }),
  )

  unfoldable pub pre_handle_matrix_reaction :
      Bridge E → MatrixReaction → Bridge E × Handled PreReaction
  unfolding begun continue pre_answer
  pre_handle_matrix_reaction b msg = continue world (begun world b) λ b'. elim msg.key [
    | none ↦ refuse world b' (codes "missing reaction content")
    | some key ↦
        if is_empty (trim_space (self_user world b'))
        then refuse world b' (codes "missing teams user id")
        else pre_answer b' (trim_space key) (world.map_emoji_to_emotion_key (trim_space key))
  ]

  send_reaction : Bridge E → Text → Text → Text → Option Text → Bridge E × Handled StoredReaction
  unfolding ask_and_answer normalize_reaction_message_id
  send_reaction b thread_id target emoji none = (b, refused unsupported_emoji)
  send_reaction b thread_id target emoji (some key) =
      let id = normalize_reaction_message_id target in
      if is_empty id
      then refuse world b (codes "missing teams message id for reaction target " ++ target)
      else ask_and_answer world (record { stored_emoji_id = key; stored_emoji = emoji }) b
          (add_reaction thread_id id key (unix_milli (now world b)))

  react_to : Bridge E → MatrixReaction → Text → Option Text → Bridge E × Handled StoredReaction
  unfolding send_reaction emotion_key_of pre_key pre_emoji_or
  react_to b msg key none = (b, refused target_not_found)
  react_to b msg key (some target) =
      let thread_id = trim_space msg.reaction_portal in
      let emoji = pre_emoji_or (trim_space key) msg.pre in
      if is_empty target
      then (b, refused target_not_found)
      else if is_empty thread_id
      then refuse world b (codes "missing thread id")
      else send_reaction b thread_id target emoji (emotion_key_of (pre_key msg.pre) emoji)

  unfoldable pub handle_matrix_reaction :
      Bridge E → MatrixReaction → Bridge E × Handled StoredReaction
  unfolding begun continue react_to
  handle_matrix_reaction b msg = continue world (begun world b) λ b'. elim msg.key [
    | none ↦ refuse world b' (codes "missing reaction content")
    | some key ↦ react_to b' msg key msg.reaction_target
  ]

  remove_key : Bridge E → Text → Text → Option Text → Bridge E × Handled Unit
  unfolding ask_and_answer normalize_reaction_message_id
  remove_key b thread_id target none = (b, done tt)
  remove_key b thread_id target (some key) =
      let id = normalize_reaction_message_id target in
      if is_empty id
      then refuse world b (codes "missing teams message id for reaction removal")
      else ask_and_answer world tt b (remove_reaction thread_id id key)

  unfoldable pub handle_matrix_reaction_remove :
      Bridge E → Text → Option RemovedReaction → Bridge E × Handled Unit
  unfolding begun continue remove_key emotion_key_of
  handle_matrix_reaction_remove b portal none = continue world (begun world b) λ b'. (b', done tt)
  handle_matrix_reaction_remove b portal (some r) = continue world (begun world b) λ b'.
      let thread_id = trim_space portal in
      if is_empty thread_id
      then refuse world b' (codes "missing thread id")
      else remove_key b' thread_id r.removed_from
          (emotion_key_of (trim_space r.removed_emoji_id) r.removed_emoji)
