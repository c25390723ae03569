-- ===== src/Receipts/Round.antt =====
-- pkg/connector/receipt_sync.go: a round over the horizons of one answer.
use mautrix_teams.Base.{
  Bool, false, not, Option, none, some, List, [], ◌∷◌, ◌≡◌, refl, ◌∙◌, ap, All, All-map, Bool-cases,
  inl, inr, arith, if◌then◌else◌,
}
use mautrix_teams.Base.Int.{ℤ}
use mautrix_teams.Base.Text.{Text, trim_space, is_empty, trim_space_idem}
use mautrix_teams.Errors.{Err}
use mautrix_teams.Client.{Client}
use mautrix_teams.Receipts.{
  Rows, Receipt, Horizon, sync_own_horizon, sync_participant_horizon, participant_receipt,
  own_receipt, later_error, sync_participants, sync_horizons, remote_horizons, is_remote,
  own_horizon, latest_read_ts,
}
use mautrix_teams.Receipts.Positions.{IsStore, Covers, Syncs, sync_to-Syncs, unchanged}

abbrev IsNamed : Text × Horizon → Type 0
IsNamed p = (is_empty p.0 ≡ false) × (is_empty (trim_space p.0) ≡ false)

remote_horizons-IsNamed :
    (folds_to : Text → Text → Bool) (hs : List Horizon) (self_id t : Text)
    → All IsNamed (remote_horizons folds_to hs self_id t)
unfolding remote_horizons is_remote
remote_horizons-IsNamed folds_to [] self_id t = tt
remote_horizons-IsNamed folds_to (h ∷ hs) self_id t =
    let rest = remote_horizons-IsNamed folds_to hs self_id t in
    elim (Bool-cases (is_remote folds_to self_id t (trim_space h.id))) [
      | inl e ↦ rw e ((ground (arith, e), rw (trim_space_idem h.id) (ground (arith, e))), rest)
      | inr e ↦ rw e rest
    ]

module _ {E : Type 0} (select : E → Text → Text → Rows)
    (exec : E → Text → Text → ℤ → Option Err × E) (emit : Client E → Receipt → Client E)
    (store : IsStore select exec emit) where
  abbrev Covered : Client E → Text → Text × Horizon → Type 0
  Covered c t p =
      (ts : ℤ)
      → latest_read_ts p.1.consumption_horizon ≡ some ts
      → Covers select exec emit store c t p.0 ts

  participant-Syncs :
      (c : Client E) (t : Text) (p : Text × Horizon)
      → is_empty (trim_space t) ≡ false
      → IsNamed p
      → Syncs select exec emit store c t p.0
          (latest_read_ts p.1.consumption_horizon)
          (sync_participant_horizon select exec emit c t p.0 p.1)
  unfolding sync_participant_horizon
  participant-Syncs c t (id, h) ht n = rw n.0 (
      sync_to-Syncs select exec emit store c t id (participant_receipt t id h)
        (latest_read_ts h.consumption_horizon) ht n.1)

  -- What a round over some horizons ends with.
  record Rounds (c : Client E) (t : Text) (l : List (Text × Horizon)) (x : Option Err × Client E)
      : Type 0 where
    silent : x.0 ≡ none
    done : All (Covered x.1 t) l
    kept :
        (t' u' : Text) (ts' : ℤ)
        → Covers select exec emit store c t' u' ts'
        → Covers select exec emit store x.1 t' u' ts'
    same : All (Covered c t) l → x ≡ (none, c)

  participants-Rounds :
      (c : Client E) (t : Text) (l : List (Text × Horizon))
      → is_empty (trim_space t) ≡ false
      → All IsNamed l
      → Rounds c t l (sync_participants select exec emit none c t l)
  unfolding sync_participants later_error
  participants-Rounds c t [] ht n = record {
    silent = refl;
    done = tt;
    kept = λ t' u' ts' k. k;
    same = λ k. refl;
  }
  participants-Rounds c t ((id, h) ∷ rest) ht n =
      let one = participant-Syncs c t (id, h) ht n.0 in
      let r : Option Err × Client E = sync_participant_horizon select exec emit c t id h in
      let more = participants-Rounds r.1 t rest ht n.1 in
      rw one.quiet (record {
        silent = more.silent;
        done = (λ ts e. more.kept t id ts (one.covers ts e), more.done);
        kept = λ t' u' ts' k. more.kept t' u' ts' (one.keeps t' u' ts' k);
        same = λ k.
            more.same (
              All-map (Covered c t) (Covered r.1 t) rest (λ p f ts e. one.keeps t p.0 ts (f ts e))
                k.1)
            ∙ ap (λ x. (none, x.1)) (one.idle k.0);
      })

  -- The read time that `syncOwnHorizon` acts on.
  own_read : Bool → Option Horizon → Option ℤ
  own_read puppet none = none
  own_read puppet (some h) = if not puppet then none else latest_read_ts h.consumption_horizon

  own-Syncs :
      (puppet : Bool) (c : Client E) (t self_id : Text) (o : Option Horizon)
      → is_empty (trim_space t) ≡ false
      → is_empty (trim_space self_id) ≡ false
      → Syncs select exec emit store c t self_id
          (own_read puppet o)
          (sync_own_horizon select exec emit puppet c t self_id o)
  unfolding sync_own_horizon own_read
  own-Syncs puppet c t self_id none ht hs =
      unchanged select exec emit store c t self_id none (λ ts e. ground (arith, e))
  own-Syncs puppet c t self_id (some h) ht hs = elim (Bool-cases (not puppet)) [
    | inl e ↦ rw e (unchanged select exec emit store c t self_id none (λ ts k. ground (arith, k)))
    | inr e ↦ rw e (
        sync_to-Syncs select exec emit store c t self_id (own_receipt t self_id)
          (latest_read_ts h.consumption_horizon) ht hs)
  ]

  -- With a database that answers and keeps what is written to it, a round over an answer has no
  -- error, and a second round over the same answer does nothing at all: no receipt is queued and
  -- nothing is written. The thread's and the user's IDs are not blank.
  pub sync_horizons_idem :
      (folds_to : Text → Text → Bool) (puppet : Bool) (c : Client E) (t self_id : Text)
      (hs : List Horizon)
      → is_empty (trim_space t) ≡ false
      → is_empty (trim_space self_id) ≡ false
      → let r = sync_horizons select exec emit folds_to puppet c t self_id hs in
        (r.0 ≡ none)
        × (sync_horizons select exec emit folds_to puppet r.1 t self_id hs ≡ (none, r.1))
  unfolding sync_horizons later_error
  sync_horizons_idem folds_to puppet c t self_id hs ht hu =
      let named = remote_horizons-IsNamed folds_to hs self_id t in
      let l = remote_horizons folds_to hs self_id t in
      let o = own_horizon hs self_id in
      let a = participants-Rounds c t l ht named in
      let d : Client E = (sync_participants select exec emit none c t l).1 in
      let b = own-Syncs puppet d t self_id o ht hu in
      let d' : Client E = (sync_own_horizon select exec emit puppet d t self_id o).1 in
      let a' = participants-Rounds d' t l ht named in
      let again =
        a'.same
          (All-map (Covered d t) (Covered d' t) l (λ p f ts e. b.keeps t p.0 ts (f ts e)) a.done) in
      let own_again = (own-Syncs puppet d' t self_id o ht hu).idle b.covers in
      rw (a.silent, b.quiet) (refl, rw (again, own_again) refl)
