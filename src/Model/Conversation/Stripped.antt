-- ===== src/Model/Conversation/Stripped.antt =====
-- internal/teams/model/conversation.go: the loop of normalizeParticipantID.
use mautrix_teams.Base.{
  ℕ, zero, suc, ◌≤◌, ◌<◌, ◌≡◌, refl, true, none, some, [], ◌∷◌, inl, inr, arith, Bool-cases,
  Option-cases, length,
}
use mautrix_teams.Base.Text.{Text, codes, cut, has_prefix, drop_prefix, trim_space}
use mautrix_teams.Model.Conversation.{Unicode, strip_once, strip, normalize_participant_id}

colon_dropped :
    (c : ℕ) (s : Text) → has_prefix (c ∷ s) (codes ":") ≡ true → drop_prefix (c ∷ s) (codes ":") ≡ s
unfolding drop_prefix
colon_dropped c [] h = refl
colon_dropped c (d ∷ s) h = refl

-- What follows the colon is shorter than the whole.
cut-lt :
    (s before after : Text) → cut s (codes ":") ≡ some (before, after) → length after < length s
unfolding cut
cut-lt [] before after h = absurd (ground (arith, h))
cut-lt (c ∷ s) before after h = elim (Bool-cases (has_prefix (c ∷ s) (codes ":"))) [
  | inl e ↦ ground (arith, e, h, colon_dropped c s e)
  | inr e ↦ elim (Option-cases (cut s (codes ":"))) [
    | inl k ↦ absurd (ground (arith, e, h, k))
    | inr ((b, a), k) ↦ ground (arith, e, h, k, cut-lt s b a k)
  ]
]

strip_once-lt : (id rest : Text) → strip_once id ≡ some rest → length rest < length id
unfolding strip_once
strip_once-lt id rest h = elim (Option-cases (cut id (codes ":"))) [
  | inl k ↦ absurd (ground (arith, h, k))
  | inr ((b, a), k) ↦ ground (arith, h, k, cut-lt id b a k)
]

-- With as many rounds as characters, nothing is left to strip.
strip-done : (fuel : ℕ) (id : Text) → length id ≤ fuel → strip_once (strip fuel id) ≡ none
unfolding strip
strip-done zero [] h = unfold strip_once cut has_prefix in refl
strip-done zero (c ∷ s) h = absurd (omega arith)
strip-done (suc fuel) id h = elim (Option-cases (strip_once id)) [
  | inl e ↦ rw (e, strip) e
  | inr (rest, e) ↦ rw (e, strip) (strip-done fuel rest (omega (arith, strip_once-lt id rest e)))
]

module _ (unicode : Unicode) where
  -- The loop always ends by its own test: of the ID that a participant is known by, no prefix of
  -- digits and a colon is left to strip.
  pub strip_once-normalize : (raw : Text) → strip_once (normalize_participant_id unicode raw) ≡ none
  unfolding normalize_participant_id
  strip_once-normalize raw =
      let id = unicode.to_lower (trim_space raw) in strip-done (length id) id (omega arith)
