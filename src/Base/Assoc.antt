-- ===== src/Base/Assoc.antt =====
-- A Go map with string keys, as an association list. Iteration goes through the entries in the
-- order of the list; no theorem depends on that order.
use mautrix_teams.Base.Tests.{if◌then◌else◌, Bool-cases}
use mautrix_teams.Base.Text.{Text, ◌≗◌, ≗_iff}
use mathlib.Core.Path.{◌≡◌, refl}
use mathlib.Core.Logic.{inl, inr}
use mathlib.Core.Bool.{false}
use mathlib.Core.Option.{Option, none, some}
use mathlib.Core.List.{List, [], ◌∷◌}
use native.Mathlib.Omega.{arith}

abbrev pub Assoc {ℓ} : Type ℓ → Type ℓ
Assoc V = List (Text × V)

module _ {ℓ} {V : Type ℓ} where
  -- `m[k]`.
  unfoldable pub lookup : Text → Assoc V → Option V
  lookup k [] = none
  lookup k ((j, v) ∷ m) = if j ≗ k then some v else lookup k m

  -- `m[k] = v`.
  unfoldable pub insert : Text → V → Assoc V → Assoc V
  insert k v [] = (k, v) ∷ []
  insert k v ((j, w) ∷ m) = if j ≗ k then (k, v) ∷ m else (j, w) ∷ insert k v m

  -- `delete(m, k)`.
  unfoldable pub delete : Text → Assoc V → Assoc V
  delete k [] = []
  delete k ((j, w) ∷ m) = let rest = delete k m in if j ≗ k then rest else (j, w) ∷ rest

  pub lookup-insert :
      (key asked : Text) (new : V) (entries : Assoc V)
      → lookup asked (insert key new entries)
        ≡ (if key ≗ asked then some new else lookup asked entries)
  unfolding lookup insert
  lookup-insert key asked new [] = refl
  lookup-insert key asked new ((own, old) ∷ rest) =
      ground
        (arith, ≗_iff key asked, ≗_iff own key, ≗_iff own asked, lookup-insert key asked new rest)

  pub lookup-delete :
      (k j : Text) (m : Assoc V) → lookup j (delete k m) ≡ (if k ≗ j then none else lookup j m)
  unfolding lookup delete
  lookup-delete k j [] = ground arith
  lookup-delete k j ((i, w) ∷ m) =
      ground (arith, ≗_iff k j, ≗_iff i k, ≗_iff i j, lookup-delete k j m)

  -- No key stands twice.
  abbrev pub IsMap : Assoc V → Type ℓ
  IsMap [] = Unit
  IsMap ((k, v) ∷ m) = (lookup k m ≡ none) × IsMap m

  lookup-insert-none :
      (key other : Text) (new : V) (entries : Assoc V)
      → lookup other entries ≡ none
      → (key ≗ other) ≡ false
      → lookup other (insert key new entries) ≡ none
  lookup-insert-none key other new entries absent n =
      rw (lookup-insert key other new entries, n) absent

  -- Writing an entry keeps the keys apart.
  pub IsMap-insert :
      (key : Text) (new : V) (entries : Assoc V) → IsMap entries → IsMap (insert key new entries)
  unfolding insert lookup
  IsMap-insert key new [] h = (refl, tt)
  IsMap-insert key new ((own, old) ∷ rest) (fresh, h) = elim (Bool-cases (own ≗ key)) [
    | inl e ↦ rw e (rw (← (≗_iff own key).0 e) fresh, h)
    | inr n ↦ rw n (
      lookup-insert-none key own new rest fresh (ground (arith, ≗_iff own key, ≗_iff key own)),
      IsMap-insert key new rest h,
    )
  ]
