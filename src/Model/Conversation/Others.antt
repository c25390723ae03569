-- ===== src/Model/Conversation/Others.antt =====
-- internal/teams/model/conversation.go: when a conversation without a name is taken for one-to-one.
use mautrix_teams.Base.{
  sym, ◌≡◌, ◌↔◌, ◌⊎◌, inl, inr, refl, true, Option, none, some, List, [], ◌∷◌, Bool-cases,
  Option-cases, arith,
}
use mautrix_teams.Base.Text.{Text, ≗_iff, ◌≗◌, trim_space, is_empty, ≗_refl}
use mautrix_teams.Model.Conversation.{
  Unicode, ConversationMember, RemoteConversation, other_key, one_other, is_likely_one_to_one,
  everyone, resolve_thread_name, collect_self_display_names, is_member,
}

-- Every key that is there is the one that is given.
abbrev pub IsKey : Text → Option Text → Type 0
IsKey k none = Unit
IsKey k (some j) = j ≡ k

module _ (unicode : Unicode) (self_id : Text) (self_names : List Text) where
  abbrev key_of : ConversationMember → Option Text
  key_of = other_key unicode self_id self_names

  -- Some member has the key.
  abbrev pub HasKey : Text → List ConversationMember → Type 0
  HasKey k [] = ⊥
  HasKey k (m ∷ ms) = (key_of m ≡ some k) ⊎ HasKey k ms

  abbrev pub OnlyKey : Text → List ConversationMember → Type 0
  OnlyKey k [] = Unit
  OnlyKey k (m ∷ ms) = IsKey k (key_of m) × OnlyKey k ms

  -- With one key found, the loop ends in true exactly if no other key follows.
  one_found :
      (k : Text) (ms : List ConversationMember)
      → (one_other unicode self_id self_names (k ∷ []) ms ≡ true) ↔ OnlyKey k ms
  unfolding one_other is_member
  one_found k [] = (λ h. tt, λ h. refl)
  one_found k (m ∷ ms) = elim (Option-cases (key_of m)) [
    | inl e ↦ rw e (λ h. (tt, (one_found k ms).0 h), λ h. (one_found k ms).1 h.1)
    | inr (j, e) ↦ rw e (elim (Bool-cases (k ≗ j)) [
      | inl same ↦
          rw same
            (λ h. (sym ((≗_iff k j).0 same), (one_found k ms).0 h), λ h. (one_found k ms).1 h.1)
      | inr differs ↦ rw differs (λ h. cc h, λ h. ground (arith, h.0, ≗_iff k j, ≗_refl k))
    ])
  ]

  none_found :
      (ms : List ConversationMember)
      → (one_other unicode self_id self_names [] ms ≡ true)
        ↔ ((k : Text) × HasKey k ms × OnlyKey k ms)
  unfolding one_other is_member
  none_found [] = (λ h. cc h, λ h. absurd h.1)
  none_found (m ∷ ms) = elim (Option-cases (key_of m)) [
    | inl e ↦ rw e (
      λ h. let (k, has, only) = (none_found ms).0 h in (k, inr has, (tt, only)),
      λ h. (none_found ms).1 (h.0, elim h.1 [ inl p ↦ absurd (cc p) | inr has ↦ has ], h.2.1),
    )
    | inr (j, e) ↦
        rw e (
          λ h. (j, inl refl, (refl, (one_found j ms).0 h)),
          λ h. (one_found j ms).1 (rw h.2.0 h.2.1),
        )
  ]

module _ (unicode : Unicode) (c : RemoteConversation) (self_user_id : Text) where
  -- The names under which the user is listed.
  abbrev pub own_display_names : List Text
  own_display_names = collect_self_display_names unicode (trim_space self_user_id) (everyone c)

  -- A conversation is taken for one-to-one exactly if none of its names is set and all the members
  -- that count as others have one key, which at least one of them has. The members are those of all
  -- three lists, so their order and their repetitions play no part.
  pub is_likely_one_to_one_iff : (is_likely_one_to_one unicode c self_user_id ≡ true) ↔ (
      (is_empty (resolve_thread_name c) ≡ true)
      × ((k : Text) × HasKey unicode (trim_space self_user_id) own_display_names k (everyone c)
          × OnlyKey unicode (trim_space self_user_id) own_display_names k (everyone c)))
  unfolding is_likely_one_to_one
  is_likely_one_to_one_iff =
      let found = none_found unicode (trim_space self_user_id) own_display_names (everyone c) in
      elim (Bool-cases (is_empty (resolve_thread_name c))) [
        | inl e ↦ rw e (λ h. (refl, found.0 h), λ h. found.1 h.1)
        | inr e ↦ rw e (λ h. absurd (cc h), λ h. absurd (cc h.0))
      ]
