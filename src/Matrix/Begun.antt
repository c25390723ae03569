-- ===== src/Matrix/Begun.antt =====
-- pkg/connector/handlematrix.go: the login and the token, before every handler's own work.
use mautrix_teams.Base.{◌≡◌, refl, Option, none, some, inl, inr, Bool-cases}
use mautrix_teams.Tokens.Ensure.Own.{self_messages-ensure}
use mautrix_teams.Matrix.{
  MatrixWorld, Bridge, Handled, Refusal, refused, begun, continue, is_logged_in,
}

-- The same own sends, and the same calls about pending messages.
abbrev pub Sends : {E : Type 0} → Bridge E → Bridge E → Type 0
Sends b a =
    (b.pending_calls ≡ a.pending_calls)
    × (b.session.client.self_messages ≡ a.session.client.self_messages)

module _ {E M : Type 0} (world : MatrixWorld E M) where
  begun-Sends : (b : Bridge E) → Sends (begun world b).0 b
  unfolding begun
  begun-Sends b = elim (Bool-cases (is_logged_in world b)) [
    | inl e ↦ rw e (refl, self_messages-ensure world.auth b.session _)
    | inr e ↦ rw e (refl, refl)
  ]

  continue-rule {ℓ} :
      {A : Type 0} (P : Bridge E × Handled A → Type ℓ) (a : Bridge E)
      (r : Bridge E × Option Refusal) (rest : Bridge E → Bridge E × Handled A)
      → Sends r.0 a
      → ((b : Bridge E) (why : Refusal) → Sends b a → P (b, refused why))
      → ((b : Bridge E) → Sends b a → P (rest b))
      → P (continue world r rest)
  unfolding continue
  continue-rule P a (b, some why) rest same deny go = deny b why same
  continue-rule P a (b, none) rest same deny go = go b same

  -- A property of a handler holds if it holds of every refusal and of what the handler does behind
  -- its beginning, from a state with the same own sends.
  pub begun-rule {ℓ} :
      {A : Type 0} (P : Bridge E × Handled A → Type ℓ) (a : Bridge E)
      (rest : Bridge E → Bridge E × Handled A)
      → ((b : Bridge E) (why : Refusal) → Sends b a → P (b, refused why))
      → ((b : Bridge E) → Sends b a → P (rest b))
      → P (continue world (begun world a) rest)
  begun-rule P a rest deny go = continue-rule P a (begun world a) rest (begun-Sends a) deny go
