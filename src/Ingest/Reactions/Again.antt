-- ===== src/Ingest/Reactions/Again.antt =====
-- `queueReactionSyncForMessage` of pkg/connector/reaction_sync.go announces a change once.
use mautrix_teams.Base.{◌≡◌, refl, ◌∙◌, Bool, true, false, List, [], ◌∷◌}
use mautrix_teams.Base.Text.{Text, is_empty, ≗_refl}
use mautrix_teams.Base.Assoc.{Assoc, lookup, insert, lookup-insert}
use mautrix_teams.Client.{Client}
use mautrix_teams.Poll.Pass.Threads.{Thread}
use mautrix_teams.Ingest.{RemoteMessage, World, BackfillReaction, KeepsSigs, send}
use mautrix_teams.Ingest.Reactions.{
  is_changed, reaction_state_changed, reaction_signature, reaction_sync_id, announce,
  announce_empty, announce_changed, should_send_empty_reaction_sync, after_mark, mark_reaction_seen,
  resolve_reaction_target, build_reaction_sync_data, queue_reaction_sync_for_message,
}
use mautrix_teams.Ingest.Reactions.Signature.{Reordered, reaction_signature-Reordered}

module _ {E : Type 0} (world : World E) (keeps : KeepsSigs world) where
  announce_empty-sigs :
      (r : Bool × Client E) (th : Thread) (msg : RemoteMessage) (target : Text)
      → (announce_empty world th msg target r).reaction_sigs ≡ r.1.reaction_sigs
  unfolding announce_empty send
  announce_empty-sigs (false, c) th msg target = refl
  announce_empty-sigs (true, c) th msg target = keeps.reaction_sigs c _

  after_mark-sigs :
      (id : Text) (r : Bool × Client E)
      → (after_mark world id r).1.reaction_sigs ≡ r.1.reaction_sigs
  unfolding after_mark
  after_mark-sigs id (true, c) = refl
  after_mark-sigs id (false, c) = refl

  announce-sigs :
      (c : Client E) (th : Thread) (msg : RemoteMessage) (target : Text)
      (data_ : Assoc (List BackfillReaction))
      → (announce world c th msg target data_).reaction_sigs ≡ c.reaction_sigs
  unfolding announce should_send_empty_reaction_sync mark_reaction_seen send
  announce-sigs c th msg target [] =
      announce_empty-sigs (should_send_empty_reaction_sync world c target) th msg target
      ∙ after_mark-sigs target (mark_reaction_seen c target false (world.clock c.outside))
  announce-sigs c th msg target (u ∷ us) = keeps.reaction_sigs c _

  announce_changed-sigs :
      (r : Bool × Client E) (th : Thread) (msg : RemoteMessage) (id : Text)
      → (announce_changed world r th msg id).reaction_sigs ≡ r.1.reaction_sigs
  unfolding announce_changed
  announce_changed-sigs (false, c) th msg id = refl
  announce_changed-sigs (true, c) th msg id =
      announce-sigs c th msg (resolve_reaction_target world c id msg)
        (build_reaction_sync_data world c msg.reactions)

  -- The signature that the client holds for a message.
  abbrev pub IsAnnounced : Client E → Text → Text → Type 0
  IsAnnounced c id sig = is_changed sig (lookup id c.reaction_sigs) ≡ false

  queue-IsAnnounced :
      (c : Client E) (th : Thread) (msg : RemoteMessage) (message_id : Text)
      → is_empty (reaction_sync_id msg message_id) ≡ false
      → IsAnnounced
          (queue_reaction_sync_for_message world c th msg message_id)
          (reaction_sync_id msg message_id)
          (reaction_signature msg.reactions)
  unfolding queue_reaction_sync_for_message
  queue-IsAnnounced c th msg message_id e =
      let id = reaction_sync_id msg message_id in
      let sig = reaction_signature msg.reactions in
      let now = world.clock c.outside in
      let kept = announce_changed-sigs (reaction_state_changed c id sig now) th msg id in
      rw (e, kept)
        (unfold reaction_state_changed is_changed in
          rw
            (
              lookup-insert id id (record { sig = sig; at = now }) c.reaction_sigs,
              ≗_refl id,
              ≗_refl sig,
            )
            refl)

  -- Where the client holds the signature of a message's reactions, only its stamp is renewed.
  announced_lem :
      (c : Client E) (th : Thread) (msg : RemoteMessage) (message_id : Text)
      → is_empty (reaction_sync_id msg message_id) ≡ false
      → IsAnnounced c (reaction_sync_id msg message_id) (reaction_signature msg.reactions)
      → queue_reaction_sync_for_message world c th msg message_id
        ≡ (reaction_state_changed c
            (reaction_sync_id msg message_id)
            (reaction_signature msg.reactions)
            (world.clock c.outside)).1
  unfolding queue_reaction_sync_for_message
  announced_lem c th msg message_id e h =
      rw e (unfold reaction_state_changed announce_changed in rw h refl)

  -- After a message's reactions have been looked at once, another look at the same reactions, in
  -- whatever order Teams lists them, renews the stamp of their signature and leaves all else of the
  -- client, its queue and the databases, as it was. The queue leaves the client's signatures alone.
  pub queue_reaction_sync-again :
      (c : Client E) (th : Thread) (msg msg' : RemoteMessage) (message_id message_id' : Text)
      → is_empty (reaction_sync_id msg message_id) ≡ false
      → reaction_sync_id msg' message_id' ≡ reaction_sync_id msg message_id
      → Reordered msg'.reactions msg.reactions
      → let c' = queue_reaction_sync_for_message world c th msg message_id in
        queue_reaction_sync_for_message world c' th msg' message_id' ≡ record c' {
          reaction_sigs =
              insert
                (reaction_sync_id msg message_id)
                (record { sig = reaction_signature msg.reactions; at = world.clock c'.outside })
                c'.reaction_sigs;
        }
  queue_reaction_sync-again c th msg msg' message_id message_id' e same reordered =
      let c' = queue_reaction_sync_for_message world c th msg message_id in
      let held = queue-IsAnnounced c th msg message_id e in
      let sigs = reaction_signature-Reordered reordered in
      announced_lem c' th msg' message_id' (rw same e) (rw (same, sigs) held)
      ∙ rw (same, sigs) (unfold reaction_state_changed in refl)
