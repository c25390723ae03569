-- ===== src/Executor/Delays.antt =====
-- The delays before the jitter, and a call that is let through in the end.
use mautrix_teams.Base.{
  ℕ, zero, suc, ◌+◌, ◌-◌, ◌*◌, ◌^◌, ◌≤◌, ◌<◌, ◌≡◌, refl, ap, Option, none, some, [], ◌∷◌, arith,
  min, lt→ltb, if◌then◌else◌,
}
use mautrix_teams.Base.Int.{ℤ, pos, ◌≤ℤ◌, leb_ℤ, mul64-pos, shl64-one}
use mautrix_teams.Errors.{Err, as_retryable}
use mautrix_teams.Executor.{
  Limits, RequestBody, World, Outcome, answered, plain_backoff, doubled_backoff, attempt, do_loop,
  perform, retry, compute_backoff, request_for_attempt,
}

-- A delay before the jitter is never above MaxBackoff, overflow or not.
pub plain_backoff-le : (base cap : ℤ) (n : ℕ) → plain_backoff base cap n ≤ℤ cap
unfolding plain_backoff
plain_backoff-le base cap n = ground arith

doubled_backoff-suc :
    (base n : ℕ)
    → base < 2 ^ 63
    → 2 ^ n < 2 ^ 63
    → base * 2 ^ n < 2 ^ 63
    → doubled_backoff (pos base) (suc n) ≡ pos (base * 2 ^ n)
doubled_backoff-suc base zero hb hp h = unfold doubled_backoff in ap pos (omega arith)
doubled_backoff-suc base (suc n) hb hp h =
    let e : suc (suc n) - 1 ≡ suc n = omega arith in
    unfold doubled_backoff in
    rw
      (
        lt→ltb 1 (suc (suc n)) (omega arith),
        e,
        shl64-one (suc n) hp,
        mul64-pos base (2 ^ suc n) hb hp h,
      )
      refl

-- While the product fits an int64, the n-th retry waits BaseBackoff doubled n - 1 times, and at
-- most MaxBackoff, before the jitter.
pub plain_backoff_lem :
    (base cap n : ℕ)
    → base < 2 ^ 63
    → 2 ^ n < 2 ^ 63
    → base * 2 ^ n < 2 ^ 63
    → plain_backoff (pos base) (pos cap) (suc n) ≡ pos (min (base * 2 ^ n) cap)
unfolding plain_backoff
plain_backoff_lem base cap n hb hp h = rw (doubled_backoff-suc base n hb hp h) (ground arith)

module _ {ℓ} {R : Type ℓ} (lim : Limits) (req : RequestBody) (w : World R) where
  -- An attempt that Teams answers with a retryable refusal.
  abbrev pub IsBusy : ℕ → Type ℓ
  IsBusy n =
      (r : R) × (e : Err) × (x : ℕ × ℤ) × (w.reply n ≡ answered r)
      × (w.classify r ≡ some e)
      × (as_retryable e ≡ some x)

  -- The context lives, the body can be had again, and sleeps are not cut short.
  pub record IsHealthy : Type 0 where
    pub replayable : (n : ℕ) → request_for_attempt req (n + 1) (w.body_err n) ≡ none
    pub ctx : (n : ℕ) → w.ctx_err n ≡ none
    pub sleep : (n : ℕ) → w.sleep_err n ≡ none

  -- A call that returned `r` with no error after `n` requests.
  abbrev pub Succeeds : R → ℕ → Option (Outcome R) → Type ℓ
  Succeeds r n o =
      (d : Outcome R) × (o ≡ some d) × (d.response ≡ some r) × (d.error ≡ none) × (d.sent ≡ n)

  retry_step :
      (n : ℕ) (r : R) (rest : Option (Outcome R)) {sent : ℕ}
      → IsHealthy
      → IsBusy n
      → n < lim.max_retries
      → Succeeds r sent rest
      → Succeeds r (suc sent) (attempt lim req w n (w.ctx_err n) rest)
  retry_step n r rest h (r', e, (status, after), hr, hc, ha) lt (d, hd, p, q, s) = (
    record d { sent = d.sent + 1; sleeps = delay ∷ d.sleeps },
    unfold attempt in
        rw (h.ctx n, h.replayable n, hr, hc, ha, lt→ltb _ _ lt, retry, h.sleep n, hd) refl,
    p,
    q,
    omega arith,
  )
    where
      delay : ℤ
      delay = if leb_ℤ after (pos 0) then compute_backoff lim req w (n + 1) else after

  accept_step :
      (n : ℕ) (r : R) (rest : Option (Outcome R))
      → IsHealthy
      → w.reply n ≡ answered r
      → w.classify r ≡ none
      → Succeeds r 1 (attempt lim req w n (w.ctx_err n) rest)
  accept_step n r rest h hr hc = (
    record { response = some r; error = none; sent = 1; sleeps = [] },
    unfold attempt in rw (h.ctx n, h.replayable n, hr, hc) refl,
    refl,
    refl,
    refl,
  )

  loop-Succeeds :
      (k n fuel : ℕ) (r : R)
      → IsHealthy
      → ((i : ℕ) → n ≤ i → i < n + k → IsBusy i)
      → w.reply (n + k) ≡ answered r
      → w.classify r ≡ none
      → n + k ≤ lim.max_retries
      → k < fuel
      → Succeeds r (suc k) (do_loop lim req w fuel n)
  unfolding do_loop
  loop-Succeeds k n zero r h busy hr hc le lt = absurd (omega arith)
  loop-Succeeds zero n (suc fuel) r h busy hr hc le lt =
      let e : n + 0 ≡ n = omega arith in accept_step n r _ h (rw e at hr) hc
  loop-Succeeds (suc k) n (suc fuel) r h busy hr hc le lt =
      let e : n + suc k ≡ n + 1 + k = omega arith in
      let rest =
        loop-Succeeds k (n + 1) fuel r h (λ i a b. busy i (omega arith) (omega arith)) (rw e at hr)
          hc (omega arith) (omega arith) in
      retry_step n r _ h (busy n (omega arith) (omega arith)) (omega arith) rest

  -- Where Teams refuses the first `k` requests as retryable, at most MaxRetries, and accepts the next,
  -- while the context lives and the body can be sent again, the call returns that response with no
  -- error, after exactly `k + 1` requests.
  pub perform-Succeeds :
      (k : ℕ) (r : R)
      → IsHealthy
      → ((i : ℕ) → i < k → IsBusy i)
      → w.reply k ≡ answered r
      → w.classify r ≡ none
      → k ≤ lim.max_retries
      → Succeeds r (suc k) (perform lim req w)
  unfolding perform
  perform-Succeeds k r h busy hr hc le =
      let e : 0 + k ≡ k = omega arith in
      loop-Succeeds k 0 (lim.max_retries + 1) r h (λ i a b. busy i (omega arith)) (rw e hr) hc
        (omega arith) (omega arith)
