-- ===== src/Receipts/Positions.antt =====
-- pkg/connector/receipt_sync.go: what a round over the horizons leaves stored.
use mautrix_teams.Base.{
  true, false, ◌&&◌, Option, none, some, if◌then◌else◌, ◌≡◌, refl, Bool-cases, ◌⊎◌, inl, inr, arith,
}
use mautrix_teams.Base.Int.{ℤ, pos, negsuc, leb_ℤ}
use mautrix_teams.Base.Text.{Text, trim_space, is_empty, ◌≗◌, ≗_iff, ≗_refl}
use mautrix_teams.Errors.{Err}
use mautrix_teams.Client.{Client}
use mautrix_teams.Receipts.{Rows, row, Receipt, get, upsert_last_read, is_behind, advance, sync_to}

behind_refl : (v : ℤ) → is_behind v (some v) ≡ true
unfolding is_behind
behind_refl (pos n) = ground arith
behind_refl (negsuc n) = ground arith

behind_trans :
    (ts ts' : ℤ) (last : Option ℤ)
    → is_behind ts' last ≡ true
    → is_behind ts last ≡ false
    → is_behind ts' (some ts) ≡ true
unfolding is_behind
behind_trans ts ts' none h n = ground arith
behind_trans ts ts' (some last) h n = ground arith

module _ {E : Type 0} (select : E → Text → Text → Rows)
    (exec : E → Text → Text → ℤ → Option Err × E) (emit : Client E → Receipt → Client E) where
  -- The database answers, keeps what is written, and queueing an event leaves it as it is.
  pub record IsStore : Type 0 where
    pub held : E → Text → Text → Option ℤ
    pub reads : (s : E) (t u : Text) → select s t u ≡ row (held s t u)
    pub writes : (s : E) (t u : Text) (v : ℤ) → (exec s t u v).0 ≡ none
    pub written :
        (s : E) (t u : Text) (v : ℤ) (t' u' : Text)
        → held (exec s t u v).1 t' u' ≡ (if (t ≗ t') && (u ≗ u') then some v else held s t' u')
    pub untouched : (c : Client E) (r : Receipt) → (emit c r).outside ≡ c.outside

  module _ (store : IsStore) where
    -- The user's stored position in the thread, and that it covers a read time.
    pub position : Client E → Text → Text → Option ℤ
    position c t u = store.held c.outside (trim_space t) (trim_space u)

    abbrev pub Covers : Client E → Text → Text → ℤ → Type 0
    Covers c t u ts = (leb_ℤ ts (pos 0) ≡ true) ⊎ (is_behind ts (position c t u) ≡ true)

    position-upsert :
        (c : Client E) (r : Receipt) (t u : Text) (v : ℤ) (t' u' : Text)
        → is_empty (trim_space t) ≡ false
        → is_empty (trim_space u) ≡ false
        → position (upsert_last_read select exec emit (emit c r) t u v).1 t' u' ≡ (
            if (trim_space t ≗ trim_space t') && (trim_space u ≗ trim_space u')
            then some v
            else position c t' u')
    unfolding position upsert_last_read
    position-upsert c r t u v t' u' ht hu =
        rw
          (
            ht,
            hu,
            store.written (emit c r).outside (trim_space t) (trim_space u) v (trim_space t')
                (trim_space u'),
            store.untouched c r,
          )
          refl

    position-upsert_other :
        (c : Client E) (r : Receipt) (t u : Text) (ts : ℤ) (t' u' : Text) (ts' : ℤ)
        → is_empty (trim_space t) ≡ false
        → is_empty (trim_space u) ≡ false
        → is_behind ts (position c t u) ≡ false
        → is_behind ts' (position c t' u') ≡ true
        → is_behind ts' (position (upsert_last_read select exec emit (emit c r) t u ts).1 t' u')
          ≡ true
    position-upsert_other c r t u ts t' u' ts' ht hu n h =
        rw (position-upsert c r t u ts t' u' ht hu)
          (elim (Bool-cases ((trim_space t ≗ trim_space t') && (trim_space u ≗ trim_space u'))) [
            | inl e ↦ rw e (
                behind_trans ts ts' (position c t u)
                  (unfold position in
                    ground (
                      arith,
                      e,
                      h,
                      ≗_iff (trim_space t) (trim_space t'),
                      ≗_iff (trim_space u) (trim_space u'),
                    ))
                  n)
            | inr e ↦ rw e h
          ])

    get-row :
        (c : Client E) (t u : Text)
        → is_empty (trim_space t) ≡ false
        → is_empty (trim_space u) ≡ false
        → get select exec emit c t u ≡ row (position c t u)
    unfolding get position
    get-row c t u ht hu = rw (ht, hu) (store.reads c.outside (trim_space t) (trim_space u))

    upsert-none :
        (c : Client E) (t u : Text) (v : ℤ)
        → is_empty (trim_space t) ≡ false
        → is_empty (trim_space u) ≡ false
        → (upsert_last_read select exec emit c t u v).0 ≡ none
    unfolding upsert_last_read
    upsert-none c t u v ht hu = rw (ht, hu) (store.writes c.outside (trim_space t) (trim_space u) v)

    -- What a call that syncs a horizon ends with: no error, the read time is covered, what was
    -- covered before still is, and nothing has changed if the read time was covered before.
    pub record Syncs (c : Client E) (t u : Text) (o : Option ℤ) (x : Option Err × Client E)
        : Type 0 where
      pub quiet : x.0 ≡ none
      pub covers : (ts : ℤ) → o ≡ some ts → Covers x.1 t u ts
      pub keeps : (t' u' : Text) (ts' : ℤ) → Covers c t' u' ts' → Covers x.1 t' u' ts'
      pub idle : ((ts : ℤ) → o ≡ some ts → Covers c t u ts) → x ≡ (none, c)

    pub unchanged :
        (c : Client E) (t u : Text) (o : Option ℤ)
        → ((ts : ℤ) → o ≡ some ts → Covers c t u ts)
        → Syncs c t u o (none, c)
    unchanged c t u o h = record {
      quiet = refl;
      covers = h;
      keeps = λ t' u' ts' k. k;
      idle = λ k. refl;
    }

    position-upsert_same :
        (c : Client E) (r : Receipt) (t u : Text) (ts : ℤ)
        → is_empty (trim_space t) ≡ false
        → is_empty (trim_space u) ≡ false
        → is_behind ts (position (upsert_last_read select exec emit (emit c r) t u ts).1 t u) ≡ true
    position-upsert_same c r t u ts ht hu =
        rw (position-upsert c r t u ts t u ht hu, ≗_refl (trim_space t), ≗_refl (trim_space u))
          (behind_refl ts)

    upsert-Syncs :
        (c : Client E) (r : Receipt) (t u : Text) (ts : ℤ)
        → is_empty (trim_space t) ≡ false
        → is_empty (trim_space u) ≡ false
        → leb_ℤ ts (pos 0) ≡ false
        → is_behind ts (position c t u) ≡ false
        → Syncs c t u (some ts) (upsert_last_read select exec emit (emit c r) t u ts)
    upsert-Syncs c r t u ts ht hu hz n = record {
      quiet = upsert-none (emit c r) t u ts ht hu;
      covers = λ ts' e. inr (
          let same : ts ≡ ts' = ground (arith, e) in
          rw (← same) (position-upsert_same c r t u ts ht hu));
      keeps = λ t' u' ts' k. elim k [
        | inl z ↦ inl z
        | inr b ↦ inr (position-upsert_other c r t u ts t' u' ts' ht hu n b)
      ];
      idle = λ k. absurd (elim (k ts refl) [ inl z ↦ cc | inr b ↦ cc ]);
    }

    advance-Syncs :
        (c : Client E) (r : Receipt) (t u : Text) (ts : ℤ)
        → is_empty (trim_space t) ≡ false
        → is_empty (trim_space u) ≡ false
        → leb_ℤ ts (pos 0) ≡ false
        → Syncs c t u (some ts) (advance select exec emit c t u ts r (row (position c t u)))
    unfolding advance
    advance-Syncs c r t u ts ht hu hz = elim (Bool-cases (is_behind ts (position c t u))) [
      | inl b ↦ rw b (
          unchanged c t u (some ts)
            (λ ts' e. let same : ts ≡ ts' = ground (arith, e) in inr (rw (← same) b)))
      | inr n ↦ rw n (upsert-Syncs c r t u ts ht hu hz n)
    ]

    pub sync_to-Syncs :
        (c : Client E) (t u : Text) (r : Receipt) (o : Option ℤ)
        → is_empty (trim_space t) ≡ false
        → is_empty (trim_space u) ≡ false
        → Syncs c t u o (sync_to select exec emit c t u r o)
    unfolding sync_to
    sync_to-Syncs c t u r none ht hu = unchanged c t u none (λ ts e. ground (arith, e))
    sync_to-Syncs c t u r (some ts) ht hu = elim (Bool-cases (leb_ℤ ts (pos 0))) [
      | inl z ↦ rw z (
          unchanged c t u (some ts)
            (λ ts' e. let same : ts ≡ ts' = ground (arith, e) in inl (rw (← same) z)))
      | inr z ↦
          rw (z, get-row c t u ht hu)
            (advance-Syncs c (record r { read_up_to = ts }) t u ts ht hu z)
    ]
