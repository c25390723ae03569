-- ===== src/Ingest/Edits/Again.antt =====
-- pkg/connector/edit_sync.go: an edit or a delete is queued once, and looked up again after an error.
use mautrix_teams.Base.{
  ◌≡◌, refl, ◌∙◌, Bool, true, false, ◌||◌, none, inl, inr, Bool-cases, if◌then◌else◌,
}
use mautrix_teams.Base.Int.{pos, leb_ℤ}
use mautrix_teams.Base.Text.{Text, codes, is_empty, trim_space, ◌≗◌, ≗_refl}
use mautrix_teams.Base.Assoc.{lookup, insert, lookup-insert, lookup-delete}
use mautrix_teams.Errors.{Err}
use mautrix_teams.Client.{Client, StampedSig}
use mautrix_teams.Model.Properties.{is_deleted, extract_edit_time}
use mautrix_teams.Poll.Pass.Threads.{Thread}
use mautrix_teams.Ingest.{RemoteMessage, World, KeepsSigs, is_no_user, is_system_message_type, send}
use mautrix_teams.Ingest.Reactions.{is_changed, format_int}
use mautrix_teams.Ingest.Edits.{
  message_state_changed, forget_message_state, on_deleted_part, delete_changed,
  queue_in_place_delete, edit_changed, queue_in_place_edit, on_edited_parts,
}

module _ {E : Type 0} (world : World E) where
  -- The client with the delete recorded.
  abbrev looked_up : Client E → Text → Client E
  looked_up c message_id =
      (message_state_changed c message_id (codes "deleted") (world.clock c.outside)).1

  held-deleted :
      (c : Client E) (message_id : Text)
      → is_changed (codes "deleted") (lookup message_id (looked_up c message_id).edit_times) ≡ false
  unfolding message_state_changed is_changed
  held-deleted c message_id =
      rw
        (
          lookup-insert message_id message_id _ c.edit_times,
          ≗_refl message_id,
          ≗_refl (codes "deleted"),
        )
        refl

  deleted_part-times :
      (keeps : KeepsSigs world) (c : Client E) (th : Thread) (message_id : Text) (there : Bool)
      → (on_deleted_part world c th message_id (inr there)).edit_times ≡ c.edit_times
  unfolding on_deleted_part send
  deleted_part-times keeps c th message_id true = keeps.edit_times c _
  deleted_part-times keeps c th message_id false = refl

  -- Where the last state seen of a message is its delete, only the stamp is renewed.
  held_lem :
      (c : Client E) (th : Thread) (message_id : Text)
      → is_empty message_id ≡ false
      → is_changed (codes "deleted") (lookup message_id c.edit_times) ≡ false
      → queue_in_place_delete world c th message_id ≡ looked_up c message_id
  unfolding queue_in_place_delete
  held_lem c th message_id e h = rw e (unfold message_state_changed delete_changed in rw h refl)

  -- Once a delete made in place has been looked up, with an answer of the database, another poll of
  -- the deleted message renews the stamp of the message's state and leaves all else of the client, its
  -- queue and the databases, as it was. The queue leaves the client's states alone.
  pub queue_in_place_delete-again :
      (keeps : KeepsSigs world) (c : Client E) (th : Thread) (message_id : Text) (there : Bool)
      → is_empty message_id ≡ false
      → world.get_first_part c.outside message_id ≡ inr there
      → let c' = queue_in_place_delete world c th message_id in
        queue_in_place_delete world c' th message_id ≡ record c' {
          edit_times =
              insert message_id
                (record { sig = codes "deleted"; at = world.clock c'.outside })
                c'.edit_times;
        }
  queue_in_place_delete-again keeps c th message_id there e answer =
      let c' = queue_in_place_delete world c th message_id in
      let held : is_changed (codes "deleted") (lookup message_id c'.edit_times) ≡ false =
        elim (Bool-cases (is_changed (codes "deleted") (lookup message_id c.edit_times))) [
          | inr h ↦ rw (held_lem c th message_id e h) (held-deleted c message_id)
          | inl h ↦
              unfold queue_in_place_delete in
              rw e (
                unfold message_state_changed delete_changed in
                rw (h, answer)
                  (rw (deleted_part-times keeps (looked_up c message_id) th message_id there)
                    (held-deleted c message_id)))
        ] in
      held_lem c' th message_id e held ∙ unfold message_state_changed in refl

  -- What a change that could not be looked up leaves: nothing is queued, and of the client nothing
  -- changes but that the message's state is forgotten, so that any state of it counts as a change.
  abbrev pub IsForgotten : Client E → Text → Client E → Type 0
  IsForgotten c message_id c' =
      (c' ≡ record c { edit_times = c'.edit_times })
      × ((sig : Text) → is_changed sig (lookup message_id c'.edit_times) ≡ true)
      × ((other : Text)
          → lookup other c'.edit_times
            ≡ (if message_id ≗ other then none else lookup other c.edit_times))

  forget-IsForgotten :
      (c : Client E) (message_id sig : Text)
      → IsForgotten c message_id (
          forget_message_state
            (message_state_changed c message_id sig (world.clock c.outside)).1
            message_id)
  unfolding forget_message_state message_state_changed is_changed
  forget-IsForgotten c message_id sig =
      let s : StampedSig = record { sig = sig; at = world.clock c.outside } in
      let m = insert message_id s c.edit_times in
      (
        refl,
        λ sig'. rw (lookup-delete message_id message_id m, ≗_refl message_id) refl,
        λ other.
            rw (lookup-delete message_id other m, lookup-insert message_id other s c.edit_times)
              (elim (Bool-cases (message_id ≗ other)) [ inl e ↦ rw e refl | inr e ↦ rw e refl ]),
      )

  -- Where the database fails to look up the message of a new delete made in place, nothing is queued
  -- and nothing of the client changes but that the message's state is forgotten: at the next poll
  -- any state of it counts as changed, so it is looked up again.
  pub queue_in_place_delete-IsForgotten :
      (c : Client E) (th : Thread) (message_id : Text) (err : Err)
      → is_empty message_id ≡ false
      → is_changed (codes "deleted") (lookup message_id c.edit_times) ≡ true
      → world.get_first_part c.outside message_id ≡ inl err
      → IsForgotten c message_id (queue_in_place_delete world c th message_id)
  unfolding queue_in_place_delete
  queue_in_place_delete-IsForgotten c th message_id err e new failed = rw e (
      unfold message_state_changed delete_changed in
      rw (new, failed)
        (unfold on_deleted_part in forget-IsForgotten c message_id (codes "deleted")))

  -- The same for an edit that a user made in place, of a message that is not deleted.
  pub queue_in_place_edit-IsForgotten :
      (c : Client E) (th : Thread) (msg : RemoteMessage) (message_id own : Text) (err : Err)
      → is_empty message_id ≡ false
      → leb_ℤ (extract_edit_time world.json msg.properties_raw) (pos 0) ≡ false
      → is_deleted world.json msg.properties_raw ≡ false
      → is_no_user (trim_space msg.sender_id) || is_system_message_type msg.message_type ≡ false
      → is_changed
          (format_int (extract_edit_time world.json msg.properties_raw))
          (lookup message_id c.edit_times)
        ≡ true
      → world.get_all_parts c.outside message_id ≡ inl err
      → IsForgotten c message_id (queue_in_place_edit world c th msg message_id own)
  unfolding queue_in_place_edit
  queue_in_place_edit-IsForgotten c th msg message_id own err e edited alive user new failed =
      let sig = format_int (extract_edit_time world.json msg.properties_raw) in
      rw (e, edited, alive)
        (unfold message_state_changed edit_changed in
          rw (new, user, failed) (unfold on_edited_parts in forget-IsForgotten c message_id sig))
