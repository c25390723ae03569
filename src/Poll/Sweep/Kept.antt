-- ===== src/Poll/Sweep/Kept.antt =====
-- What a sweep of pkg/connector/cache_sweep.go leaves of a map of times.
use mautrix_teams.Base.{
  ◌≡◌, refl, Option, none, some, [], ◌∷◌, if◌then◌else◌, arith, Bool-cases, inl, inr,
}
use mautrix_teams.Base.Text.{Text, ≗_iff}
use mautrix_teams.Base.Assoc.{Assoc, IsMap, lookup}
use mautrix_teams.Poll.Time.{Time, before}
use mautrix_teams.Poll.Sweep.{sweep_before, time_of}

abbrev pub kept : Time → Option Time → Option Time
kept cutoff none = none
kept cutoff (some v) = if before v cutoff then none else some v

pub lookup-sweep_before :
    (m : Assoc Time) (cutoff : Time) (k : Text)
    → IsMap m
    → lookup k (sweep_before m cutoff time_of).0 ≡ kept cutoff (lookup k m)
unfolding lookup sweep_before
lookup-sweep_before [] cutoff k h = refl
lookup-sweep_before ((j, v) ∷ m) cutoff k (fresh, h) =
    ground (arith, lookup-sweep_before m cutoff k h, ≗_iff j k, fresh)

absent-sweep_before :
    (m : Assoc Time) (cutoff : Time) (k : Text)
    → lookup k m ≡ none
    → lookup k (sweep_before m cutoff time_of).0 ≡ none
unfolding lookup sweep_before
absent-sweep_before [] cutoff k h = refl
absent-sweep_before ((j, v) ∷ m) cutoff k h = ground (arith, absent-sweep_before m cutoff k)

pub IsMap-sweep_before :
    (m : Assoc Time) (cutoff : Time) → IsMap m → IsMap (sweep_before m cutoff time_of).0
unfolding sweep_before
IsMap-sweep_before [] cutoff h = tt
IsMap-sweep_before ((j, v) ∷ m) cutoff (fresh, h) = elim (Bool-cases (before v cutoff)) [
  | inl e ↦ rw e (IsMap-sweep_before m cutoff h)
  | inr e ↦ rw e (absent-sweep_before m cutoff j fresh, IsMap-sweep_before m cutoff h)
]
