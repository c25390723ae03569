-- ===== src/Reach/Trip.antt =====
-- What the reachability tracker reports over any sequence of requests.
use mautrix_teams.Base.{
  ◌≤◌, ◌<◌, ◌≡◌, refl, Bool, true, false, List, [], ◌∷◌, Option, none, some, arith,
}
use mautrix_teams.Errors.{Err, is_canceled}
use mautrix_teams.Reach.{
  BridgeState, connected, transient_disconnect, TeamsReach, note, is_teams_network_error, mark_down,
  unreachable_state,
}

-- Between two requests: Teams counts as down only after three failures that no answer followed, and
-- from then on.
pub record IsConsistent (r : TeamsReach) : Type 0 where
  pub tripped : r.down ≡ true → 3 ≤ r.failures
  pub untripped : r.down ≡ false → r.failures < 3

pub note-IsConsistent :
    (r : TeamsReach) (err : Option Err) → IsConsistent r → IsConsistent (note r err).0
unfolding note
note-IsConsistent r none h = ground arith
note-IsConsistent r (some err) h = ground arith

pub mark_down-IsConsistent :
    (r : TeamsReach) (err : Err) → IsConsistent r → IsConsistent (mark_down r err).0
unfolding mark_down
mark_down-IsConsistent r err h = ground arith

-- What is reported when `down` goes from one value to another because of `err`.
abbrev pub report : Bool → Bool → Option Err → Option BridgeState
report false true (some err) = some (unreachable_state err)
report true false err = some connected
report _ _ _ = none

-- A request reports a disconnect exactly when it turns `down` to true, a connection exactly when it
-- turns it back, and nothing where `down` stays.
pub note-report :
    (r : TeamsReach) (err : Option Err) → (note r err).1 ≡ report r.down (note r err).0.down err
unfolding note
note-report r none = ground arith
note-report r (some err) = ground arith

abbrev collect : Option BridgeState → List BridgeState → List BridgeState
collect none l = l
collect (some s) l = s ∷ l

-- The states that a sequence of requests reports.
unfoldable pub reported : TeamsReach → List (Option Err) → List BridgeState
reported r [] = []
reported r (err ∷ rest) = let (r', o) = note r err in collect o (reported r' rest)

-- Disconnects and connections take turns, beginning with the one that `down` calls for.
abbrev pub Alternates : Bool → List BridgeState → Type 0
Alternates down [] = Unit
Alternates false (transient_disconnect t ∷ l) = Alternates true l
Alternates true (connected ∷ l) = Alternates false l
Alternates _ _ = ⊥

collect-Alternates :
    (before after : Bool) (err : Option Err) (l : List BridgeState)
    → (err ≡ none → after ≡ false)
    → Alternates after l
    → Alternates before (collect (report before after err) l)
unfolding unreachable_state
collect-Alternates false true (some err) l d h = h
collect-Alternates false true none l d h = absurd (cc (d refl))
collect-Alternates false false err l d h = h
collect-Alternates true false err l d h = h
collect-Alternates true true err l d h = h

down-note-none : (r : TeamsReach) (err : Option Err) → err ≡ none → (note r err).0.down ≡ false
unfolding note
down-note-none r none e = ground arith
down-note-none r (some err) e = absurd (cc)

-- Over any sequence of requests, disconnects and connections are reported in turn.
pub reported-Alternates :
    (r : TeamsReach) (errs : List (Option Err)) → Alternates r.down (reported r errs)
unfolding reported
reported-Alternates r [] = tt
reported-Alternates r (err ∷ rest) = rw note-report (
    collect-Alternates r.down (note r err).0.down err _ (down-note-none r err)
      (reported-Alternates (note r err).0 rest))

-- Three requests in a row that got no answer, none of them cancelled, leave Teams counted as down,
-- whatever was counted before.
pub note_three :
    (r : TeamsReach) (e f g : Err)
    → IsConsistent r
    → (is_canceled e ≡ false) × (is_teams_network_error (some e) ≡ true)
    → (is_canceled f ≡ false) × (is_teams_network_error (some f) ≡ true)
    → (is_canceled g ≡ false) × (is_teams_network_error (some g) ≡ true)
    → (note (note (note r (some e)).0 (some f)).0 (some g)).0.down ≡ true
unfolding note
note_three r e f g h he hf hg = ground arith
