-- ===== src/Model/Conversation/DmName.antt =====
-- internal/teams/model/conversation.go: whose name a one-to-one chat gets.
use mathlib.Core.Path.{subst}
use mautrix_teams.Base.{
  sym, ap, ◌∙◌, ap, ◌∙◌, sym, ◌≡◌, ◌⊎◌, inl, inr, refl, Bool, true, false, not, ◌&&◌, List, [], ◌∷◌,
  Bool-cases, arith, if◌then◌else◌,
}
use mautrix_teams.Base.Text.{Text, trim_space, is_empty}
use mautrix_teams.Model.Conversation.{
  Unicode, ConversationMember, RemoteConversation, is_someone, member_name, find_dm_name, everyone,
  resolve_dm_name, collect_self_display_names, is_member,
}

module _ (unicode : Unicode) (self_id : Text) (self_names : List Text) where
  -- A member with a name that is neither the user nor a bot.
  abbrev pub is_named_other : ConversationMember → Bool
  is_named_other m = is_someone unicode self_id m && not (is_empty (member_name m))

  -- The member goes by a name of the user's own.
  abbrev pub has_own_name : ConversationMember → Bool
  has_own_name m = is_member (unicode.to_lower (member_name m)) self_names

  -- Some named other has the name.
  abbrev pub NamesOther : Text → List ConversationMember → Type 0
  NamesOther n [] = ⊥
  NamesOther n (m ∷ ms) = ((is_named_other m ≡ true) × (member_name m ≡ n)) ⊎ NamesOther n ms

  -- Every named other goes by a name of the user's own.
  abbrev pub AllOwn : List ConversationMember → Type 0
  AllOwn [] = Unit
  AllOwn (m ∷ ms) = ((is_named_other m ≡ false) ⊎ (has_own_name m ≡ true)) × AllOwn ms

  -- The name that is found, for the fallback that was taken along.
  abbrev pub IsDmName : Text → Text → List ConversationMember → Type 0
  IsDmName fallback n ms =
      (NamesOther n ms × (is_member (unicode.to_lower n) self_names ≡ false))
      ⊎ (AllOwn ms × ((n ≡ fallback) ⊎ (NamesOther n ms × (is_empty fallback ≡ true))))

  IsDmName-skip :
      (fallback n : Text) (m : ConversationMember) (ms : List ConversationMember)
      → (is_named_other m ≡ false) ⊎ (has_own_name m ≡ true)
      → IsDmName fallback n ms
      → IsDmName fallback n (m ∷ ms)
  IsDmName-skip fallback n m ms own (inl (found, foreign)) = inl (inr found, foreign)
  IsDmName-skip fallback n m ms own (inr (all, inl e)) = inr ((own, all), inl e)
  IsDmName-skip fallback n m ms own (inr (all, inr (found, e))) =
      inr ((own, all), inr (inr found, e))

  IsDmName-fallback :
      (fallback n : Text) (m : ConversationMember) (ms : List ConversationMember)
      → is_empty fallback ≡ true
      → is_named_other m ≡ true
      → has_own_name m ≡ true
      → IsDmName (member_name m) n ms
      → IsDmName fallback n (m ∷ ms)
  IsDmName-fallback fallback n m ms e other own (inl (found, foreign)) = inl (inr found, foreign)
  IsDmName-fallback fallback n m ms e other own (inr (all, inl same)) =
      inr ((inr own, all), inr (inl (other, sym same), e))
  IsDmName-fallback fallback n m ms e other own (inr (all, inr (found, k))) =
      inr ((inr own, all), inr (inr found, e))

  abbrev found_from : Text → List ConversationMember → Text
  found_from = find_dm_name unicode self_id self_names

  -- The three ways of a round of the loop.
  step_skip :
      (fallback : Text) (m : ConversationMember) (ms : List ConversationMember)
      → is_named_other m ≡ false
      → found_from fallback (m ∷ ms) ≡ found_from fallback ms
  unfolding find_dm_name
  step_skip fallback m ms h = ground (arith, h)

  step_foreign :
      (fallback : Text) (m : ConversationMember) (ms : List ConversationMember)
      → is_named_other m ≡ true
      → has_own_name m ≡ false
      → found_from fallback (m ∷ ms) ≡ member_name m
  unfolding find_dm_name
  step_foreign fallback m ms h foreign = ground (arith, h, foreign)

  step_own :
      (fallback : Text) (m : ConversationMember) (ms : List ConversationMember)
      → is_named_other m ≡ true
      → has_own_name m ≡ true
      → found_from fallback (m ∷ ms)
        ≡ found_from (if is_empty fallback then member_name m else fallback) ms
  unfolding find_dm_name
  step_own fallback m ms h own = ground (arith, h, own)

  -- The statement at an equal name.
  at_name :
      (fallback : Text) (ms : List ConversationMember) {n k : Text}
      → n ≡ k
      → IsDmName fallback k ms
      → IsDmName fallback n ms
  at_name fallback ms e h = subst (λ t. IsDmName fallback t ms) (sym e) h

  find_none : (fallback : Text) → found_from fallback [] ≡ fallback
  unfolding find_dm_name
  find_none fallback = refl

  find_own-IsDmName :
      (fallback : Text) (m : ConversationMember) (ms : List ConversationMember)
      → is_named_other m ≡ true
      → has_own_name m ≡ true
      → ((f : Text) → IsDmName f (found_from f ms) ms)
      → IsDmName fallback (found_from fallback (m ∷ ms)) (m ∷ ms)
  find_own-IsDmName fallback m ms other own below = elim (Bool-cases (is_empty fallback)) [
    | inl e ↦
        let same : found_from fallback (m ∷ ms) ≡ found_from (member_name m) ms =
          step_own fallback m ms other own
          ∙ ap (λ t. found_from (if t then member_name m else fallback) ms) e in
        at_name fallback (m ∷ ms) same
          (IsDmName-fallback fallback _ m ms e other own (below (member_name m)))
    | inr e ↦
        let same : found_from fallback (m ∷ ms) ≡ found_from fallback ms =
          step_own fallback m ms other own
          ∙ ap (λ t. found_from (if t then member_name m else fallback) ms) e in
        at_name fallback (m ∷ ms) same (IsDmName-skip fallback _ m ms (inr own) (below fallback))
  ]

  find_dm_name-IsDmName :
      (fallback : Text) (ms : List ConversationMember)
      → IsDmName fallback (find_dm_name unicode self_id self_names fallback ms) ms
  find_dm_name-IsDmName fallback [] = inr (tt, inl (find_none fallback))
  find_dm_name-IsDmName fallback (m ∷ ms) = elim (Bool-cases (is_named_other m)) [
    | inr h ↦
        at_name fallback (m ∷ ms) (step_skip fallback m ms h)
          (IsDmName-skip fallback _ m ms (inl h) (find_dm_name-IsDmName fallback ms))
    | inl h ↦ elim (Bool-cases (has_own_name m)) [
      | inr foreign ↦
          at_name fallback (m ∷ ms) (step_foreign fallback m ms h foreign)
            (inl (inl (h, refl), foreign))
      | inl own ↦ find_own-IsDmName fallback m ms h own (λ f. find_dm_name-IsDmName f ms)
    ]
  ]

module _ (unicode : Unicode) (c : RemoteConversation) (self_user_id : Text) where
  abbrev self_id_of : Text
  self_id_of = trim_space self_user_id

  abbrev pub names_of_self : List Text
  names_of_self = collect_self_display_names unicode self_id_of (everyone c)

  -- The name that is given to a one-to-one chat, if there is one, is that of a listed member who is
  -- neither the user nor a bot; and it is no name of the user's own, unless every such member who
  -- has a name goes by one.
  pub resolve_dm_name_lem :
      let n = resolve_dm_name unicode c self_user_id in
      ((n ≡ []) ⊎ NamesOther unicode self_id_of names_of_self n (everyone c))
      × ((is_member (unicode.to_lower n) names_of_self ≡ false)
          ⊎ AllOwn unicode self_id_of names_of_self (everyone c))
  unfolding resolve_dm_name
  resolve_dm_name_lem =
      elim (find_dm_name-IsDmName unicode self_id_of names_of_self [] (everyone c)) [
        | inl (found, foreign) ↦ (inr found, inl foreign)
        | inr (all, inl e) ↦ (inl e, inr all)
        | inr (all, inr (found, e)) ↦ (inr found, inr all)
      ]
