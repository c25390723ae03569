-- ===== src/Ingest/Reactions.antt =====
-- pkg/connector/reaction_sync.go: the reactions of a message, announced where they changed.
pub mod Signature
pub mod Again
use mautrix_teams.Base.{
  ℕ, zero, suc, Bool, true, false, not, ◌&&◌, ◌||◌, Option, none, some, List, [], ◌∷◌, ◌++◌, ◌⊎◌,
  inl, inr, if◌then◌else◌,
}
use mautrix_teams.Base.Int.{ℤ, pos, negsuc, eq_ℤ}
use mautrix_teams.Base.Text.{Text, codes, trim_space, is_empty, ◌≗◌}
use mautrix_teams.Base.Assoc.{Assoc, lookup, insert, delete}
use mautrix_teams.Base.Decimal.{itoa}
use mautrix_teams.Errors.{Err}
use mautrix_teams.Client.{Client, StampedSig}
use mautrix_teams.Model.Sequence.{Comparison, greater, compare_texts}
use mautrix_teams.Model.Sorted.{sort_texts, join_texts}
use mautrix_teams.Model.Properties.{MessageReaction, MessageReactionUser}
use mautrix_teams.Cursor.{is_greater}
use mautrix_teams.Poll.Time.{Time}
use mautrix_teams.Poll.Pass.Threads.{Thread}
use mautrix_teams.Ingest.{
  RemoteMessage, BackfillReaction, World, reaction_event, from_unix_milli, is_no_user,
  network_user_id, portal_key, normalize_reaction_message_id, effective_remote_message_id, send,
  self_id,
}

-- strconv.FormatInt(n, 10).
unfoldable pub format_int : ℤ → Text
format_int (pos n) = itoa n
format_int (negsuc n) = codes "-" ++ itoa (suc n)

unfoldable pub signature_part : Text → MessageReactionUser → Text
unfolding format_int
signature_part key user =
    key ++ codes "|" ++ trim_space user.mri ++ codes "|" ++ format_int user.time_ms

unfoldable pub user_parts : Text → List MessageReactionUser → List Text
user_parts key [] = []
user_parts key (user ∷ rest) = signature_part key user ∷ user_parts key rest

unfoldable pub signature_parts : List MessageReaction → List Text
unfolding user_parts
signature_parts [] = []
signature_parts (r ∷ rest) = user_parts (trim_space r.emotion_key) r.users ++ signature_parts rest

-- `reactionSignature`.
unfoldable pub reaction_signature : List MessageReaction → Text
unfolding sort_texts join_texts signature_parts
reaction_signature reactions = join_texts (sort_texts (signature_parts reactions)) (codes ";")

-- Whether a signature is new to a map of them.
unfoldable pub is_changed : Text → Option StampedSig → Bool
is_changed sig none = true
is_changed sig (some prev) = not (prev.sig ≗ sig)

is_there : Option Time → Bool
is_there none = false
is_there (some at) = true

module _ {E : Type 0} where
  -- `reactionStateChanged`, at the time of the clock.
  unfoldable pub reaction_state_changed : Client E → Text → Text → Time → Bool × Client E
  unfolding is_changed
  reaction_state_changed c message_id sig now = (
    is_changed sig (lookup message_id c.reaction_sigs),
    record c { reaction_sigs = insert message_id (record { sig = sig; at = now }) c.reaction_sigs },
  )

  -- `markReactionSeen`.
  unfoldable pub mark_reaction_seen : Client E → Text → Bool → Time → Bool × Client E
  unfolding is_there
  mark_reaction_seen c message_id seen now =
      let there = is_there (lookup message_id c.reaction_seen) in
      (
        there,
        record c {
          reaction_seen =
              if seen
              then insert message_id now c.reaction_seen
              else if there
              then delete message_id c.reaction_seen
              else c.reaction_seen;
        },
      )

-- `addCandidate` and `addCanonicalAndLegacy` of `buildReactionTargetMessageIDCandidates`.
unfoldable pub has_text : List Text → Text → Bool
has_text [] value = false
has_text (t ∷ rest) value = (t ≗ value) || has_text rest value

unfoldable pub add_candidate : List Text → Text → List Text
unfolding has_text
add_candidate candidates value =
    let v = trim_space value in
    if is_empty v || has_text candidates v then candidates else candidates ++ v ∷ []

unfoldable pub add_canonical_and_legacy : List Text → Text → List Text
unfolding add_candidate
add_canonical_and_legacy candidates value =
    let v = trim_space value in
    let normalized = normalize_reaction_message_id v in
    let found = add_candidate candidates normalized in
    if is_empty v
    then candidates
    else if is_empty normalized
    then found
    else add_candidate found (codes "msg/" ++ normalized)

unfoldable pub reaction_target_candidates : Text → RemoteMessage → List Text
unfolding add_canonical_and_legacy
reaction_target_candidates message_id msg =
    add_canonical_and_legacy
      (add_canonical_and_legacy
        (add_canonical_and_legacy (add_canonical_and_legacy [] message_id) msg.message_id)
        msg.sequence_id)
      msg.client_message_id

is_found : Err ⊎ Bool → Bool
is_found (inl err) = false
is_found (inr there) = there

unfoldable pub first_found : (Text → Err ⊎ Bool) → List Text → Option Text
unfolding is_found
first_found find [] = none
first_found find (candidate ∷ rest) =
    let later = first_found find rest in if is_found (find candidate) then some candidate else later

or_first : List Text → Option Text → Text
or_first candidates (some found) = found
or_first [] none = []
or_first (candidate ∷ rest) none = candidate

has_some : Err ⊎ ℕ → Bool
has_some (inl err) = false
has_some (inr zero) = false
has_some (inr (suc n)) = true

so_far : Option (List BackfillReaction) → List BackfillReaction
so_far none = []
so_far (some reactions) = reactions

-- The ID that a message's reactions are kept under.
unfoldable pub reaction_sync_id : RemoteMessage → Text → Text
reaction_sync_id msg message_id =
    let id = trim_space message_id in if is_empty id then effective_remote_message_id msg else id

module _ {E : Type 0} (world : World E) where
  -- `resolveReactionSyncTargetMessageID`.
  unfoldable pub resolve_reaction_target : Client E → Text → RemoteMessage → Text
  unfolding or_first
  resolve_reaction_target c message_id msg =
      let candidates = reaction_target_candidates message_id msg in
      or_first candidates (first_found (world.get_last_part c.outside) candidates)

  backfill_reaction : Text → Text → Text → Text → ℤ → BackfillReaction
  backfill_reaction own user_id key emoji time_ms =
      let mine = not (is_empty own) && user_id ≗ own in
      record {
        reacted_by = record {
          sender = network_user_id user_id;
          is_from_me = mine;
          sender_login = if mine then world.login_id else [];
        };
        emoji_id = key;
        emoji = emoji;
        at = if eq_ℤ time_ms (pos 0) then none else some (from_unix_milli time_ms);
      }

  -- The loops of `buildReactionSyncData` over the users of a reaction, and over the reactions.
  unfoldable pub add_users :
      Text
      → Text
      → Text
      → List MessageReactionUser
      → Assoc (List BackfillReaction)
      → Assoc (List BackfillReaction)
  unfolding backfill_reaction so_far
  add_users own key emoji [] users = users
  add_users own key emoji (user ∷ rest) users =
      let user_id = trim_space user.mri in
      let sender = network_user_id user_id in
      let reactions = so_far (lookup sender users) in
      add_users own key emoji rest (
        if is_no_user user_id
        then users
        else insert sender (reactions ++ backfill_reaction own user_id key emoji user.time_ms ∷ [])
            users)

  add_reaction :
      Text
      → MessageReaction
      → Option Text
      → Assoc (List BackfillReaction)
      → Assoc (List BackfillReaction)
  unfolding add_users
  add_reaction own r none users = users
  add_reaction own r (some emoji) users =
      add_users own (trim_space r.emotion_key) emoji r.users users

  unfoldable pub add_reactions :
      Text → List MessageReaction → Assoc (List BackfillReaction) → Assoc (List BackfillReaction)
  unfolding add_reaction
  add_reactions own [] users = users
  add_reactions own (r ∷ rest) users =
      let key = trim_space r.emotion_key in
      add_reactions own rest (
        if is_empty key
        then users
        else add_reaction own r (world.map_emotion_key_to_emoji key) users)

  -- `buildReactionSyncData`: the reactions by user; none of them is false as its second result.
  unfoldable pub build_reaction_sync_data :
      Client E → List MessageReaction → Assoc (List BackfillReaction)
  unfolding add_reactions
  build_reaction_sync_data c reactions = add_reactions (self_id world c) reactions []

  after_mark : Text → Bool × Client E → Bool × Client E
  unfolding has_some
  after_mark message_id (true, c) = (true, c)
  after_mark message_id (false, c) = (has_some (world.get_reactions c.outside message_id), c)

  -- `shouldSendEmptyReactionSync`.
  unfoldable pub should_send_empty_reaction_sync : Client E → Text → Bool × Client E
  unfolding after_mark
  should_send_empty_reaction_sync c message_id =
      after_mark message_id (mark_reaction_seen c message_id false (world.clock c.outside))

  announce_empty : Thread → RemoteMessage → Text → Bool × Client E → Client E
  announce_empty th msg target (false, c) = c
  announce_empty th msg target (true, c) =
      send world c (reaction_event (portal_key th.thread_id) msg.timestamp target [])

  announce : Client E → Thread → RemoteMessage → Text → Assoc (List BackfillReaction) → Client E
  unfolding announce_empty
  announce c th msg target [] =
      announce_empty th msg target (should_send_empty_reaction_sync c target)
  announce c th msg target (u ∷ us) =
      send world c (reaction_event (portal_key th.thread_id) msg.timestamp target (u ∷ us))

  announce_changed : Bool × Client E → Thread → RemoteMessage → Text → Client E
  unfolding announce
  announce_changed (false, c) th msg id = c
  announce_changed (true, c) th msg id =
      announce c th msg (resolve_reaction_target c id msg)
        (build_reaction_sync_data c msg.reactions)

  -- `queueReactionSyncForMessage`.
  unfoldable pub queue_reaction_sync_for_message :
      Client E → Thread → RemoteMessage → Text → Client E
  unfolding announce_changed
  queue_reaction_sync_for_message c th msg message_id =
      let id = reaction_sync_id msg message_id in
      let sig = reaction_signature msg.reactions in
      if is_empty id
      then c
      else announce_changed (reaction_state_changed c id sig (world.clock c.outside)) th msg id
