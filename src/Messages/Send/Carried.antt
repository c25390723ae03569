-- ===== src/Messages/Send/Carried.antt =====
-- internal/teams/client/messages.go: the properties that a message carries, its own and the context's.
use mautrix_teams.Base.{sym, ◌≡◌, refl, Option, none, some, [], ◌∷◌, Bool-cases, inl, inr}
use mautrix_teams.Base.Assoc.{Assoc, lookup, insert, lookup-insert, IsMap}
use mautrix_teams.Base.Text.{Text, ◌≗◌, ≗_iff}
use mautrix_teams.Messages.Send.{Property, Properties, text, add_each, with_context_properties}

-- A property of a message; a message without properties has none.
abbrev pub property_of : {M : Type 0} → Text → Properties M → Option (Property M)
property_of name none = none
property_of name (some props) = lookup name props

-- What the context says, or else what the message says.
abbrev pub or_own : {M : Type 0} → Option Text → Option (Property M) → Option (Property M)
or_own none own = own
or_own (some v) own = some (text v)

module _ {M : Type 0} where
  add_each_lem :
      (extra : Assoc Text) (props : Assoc (Property M)) (name : Text)
      → IsMap extra
      → lookup name (add_each extra props) ≡ or_own (lookup name extra) (lookup name props)
  unfolding add_each lookup
  add_each_lem [] props name distinct = refl
  add_each_lem ((k, v) ∷ extra) props name distinct = elim (Bool-cases (k ≗ name)) [
    | inl same ↦
        let e : k ≡ name = (≗_iff k name).0 same in
        rw
          (
            add_each_lem extra (insert k (text v) props) name distinct.1,
            lookup-insert k name (text v) props,
            same,
            sym e,
            distinct.0,
          )
          refl
    | inr other ↦
        rw
          (
            add_each_lem extra (insert k (text v) props) name distinct.1,
            lookup-insert k name (text v) props,
            other,
          )
          refl
  ]

  -- A message has each property of its context, as the context gives it, and of the others those
  -- that the message itself gives, where the context gives no name twice.
  pub with_context_properties_lem :
      (ctx : Assoc Text) (props : Properties M) (name : Text)
      → IsMap ctx
      → property_of name (with_context_properties ctx props)
        ≡ or_own (lookup name ctx) (property_of name props)
  unfolding with_context_properties lookup
  with_context_properties_lem [] props name distinct = refl
  with_context_properties_lem (entry ∷ extra) none name distinct =
      add_each_lem (entry ∷ extra) [] name distinct
  with_context_properties_lem (entry ∷ extra) (some props) name distinct =
      add_each_lem (entry ∷ extra) props name distinct
