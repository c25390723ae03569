-- ===== src/Matrix/Rooms.antt =====
-- pkg/connector/handlematrix.go: names, topics, members and avatars of rooms.
use mautrix_teams.Base.{
  ℕ, Bool, true, not, Option, none, some, List, [], ◌∷◌, ◌⊎◌, inl, inr, if◌then◌else◌,
}
use mautrix_teams.Base.Text.{Text, codes, trim_space, is_empty}
use mautrix_teams.Errors.{Err, wrap}
use mautrix_teams.Matrix.{
  TeamsCall, MatrixWorld, Bridge, Handled, begun, continue, answer, ask_and_answer, refuse, outside,
  set_outside, is_logged_in, update_conversation_topic, add_member, remove_member, done, refused,
  failed, not_logged_in,
}

-- `bridgev2.Invite` and `bridgev2.Kick`, of the types that bridgev2 reports.
pub data MembershipType : Type 0 where
  invite kick other_change : MembershipType

-- Who a change is about: a ghost with its ID, or anyone else.
pub data Target : Type 0 where
  ghost : Text → Target
  no_ghost : Target

module _ {E M : Type 0} (world : MatrixWorld E M) where
  -- `HandleMatrixRoomName` and `HandleMatrixRoomTopic`, with what is said where the content is
  -- missing: Teams has one topic for both.
  unfoldable pub handle_topic : Text → Bridge E → Text → Option Text → Bridge E × Handled Bool
  unfolding begun continue ask_and_answer
  handle_topic missing b portal none = continue world (begun world b) λ b'. refuse world b' missing
  handle_topic missing b portal (some topic) = continue world (begun world b) λ b'.
      let thread_id = trim_space portal in
      if is_empty thread_id
      then refuse world b' (codes "missing thread id")
      else ask_and_answer world true b' (update_conversation_topic thread_id topic)

  unfoldable pub handle_matrix_room_name : Bridge E → Text → Option Text → Bridge E × Handled Bool
  unfolding handle_topic
  handle_matrix_room_name = handle_topic (codes "missing room name content")

  unfoldable pub handle_matrix_room_topic : Bridge E → Text → Option Text → Bridge E × Handled Bool
  unfolding handle_topic
  handle_matrix_room_topic = handle_topic (codes "missing room topic content")

  change_member : (Text → Text → TeamsCall) → Bridge E → Text → Target → Bridge E × Handled Unit
  unfolding ask_and_answer
  change_member call b thread_id no_ghost = (b, done tt)
  change_member call b thread_id (ghost mri) =
      if is_empty mri
      then refuse world b (codes "missing target user ID")
      else ask_and_answer world tt b (call thread_id mri)

  unfoldable pub relay_membership :
      MembershipType → Bridge E → Text → Target → Bridge E × Handled Unit
  unfolding change_member
  relay_membership invite b thread_id target = change_member add_member b thread_id target
  relay_membership kick b thread_id target = change_member remove_member b thread_id target
  relay_membership other_change b thread_id target = (b, done tt)

  -- `HandleMatrixMembership`.
  unfoldable pub handle_matrix_membership :
      Bridge E → Text → Option (MembershipType × Target) → Bridge E × Handled Unit
  unfolding begun continue relay_membership
  handle_matrix_membership b portal none =
      continue world (begun world b) λ b'. refuse world b' (codes "missing membership change")
  handle_matrix_membership b portal (some (kind, target)) = continue world (begun world b) λ b'.
      let thread_id = trim_space portal in
      if is_empty thread_id
      then refuse world b' (codes "missing thread id")
      else relay_membership kind b' thread_id target

  -- A call that only changes what is outside.
  abbrev step_outside : Bridge E → E × Option Err → Bridge E × Option Err
  step_outside b (e, err) = (set_outside world b e, err)

  photo_set : Text → List ℕ → Bridge E × Option Err → Bridge E × Handled Bool
  unfolding answer
  photo_set thread_id photo (b, some err) = (b, refused (failed err))
  photo_set thread_id photo (b, none) =
      let (b', err) = step_outside b (world.set_chat_photo (outside world b) thread_id photo) in
      (b', answer world true err)

  photo_found : Text → Bridge E → Err ⊎ List ℕ → Bridge E × Handled Bool
  unfolding photo_set
  photo_found thread_id b (inl err) =
      (b, refused (failed (wrap (codes "failed to download avatar: ") err [])))
  photo_found thread_id b (inr []) = refuse world b (codes "failed to download avatar: %!w(<nil>)")
  photo_found thread_id b (inr (c ∷ photo)) =
      photo_set thread_id (c ∷ photo) (step_outside b (world.get_graph_client (outside world b)))

  with_graph : Text → Option Text → Bridge E × Option Err → Bridge E × Handled Bool
  unfolding photo_found
  with_graph portal content (b, some err) =
      (b, refused (failed (wrap (codes "graph token required for avatar: ") err [])))
  with_graph portal none (b, none) = refuse world b (codes "missing room avatar content")
  with_graph portal (some url) (b, none) =
      let thread_id = trim_space portal in
      let (e, photo) = world.download_media (outside world b) url in
      if is_empty thread_id
      then refuse world b (codes "missing thread id")
      else if is_empty url
      then refuse world b (codes "missing avatar URL")
      else photo_found thread_id (set_outside world b e) photo

  -- `HandleMatrixRoomAvatar`: a Graph token in place of the Skype token.
  unfoldable pub handle_matrix_room_avatar : Bridge E → Text → Option Text → Bridge E × Handled Bool
  unfolding with_graph is_logged_in
  handle_matrix_room_avatar b portal content =
      if not (is_logged_in world b)
      then (b, refused not_logged_in)
      else with_graph portal content
          (step_outside b (world.ensure_valid_graph_token (outside world b)))
