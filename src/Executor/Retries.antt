-- ===== src/Executor/Retries.antt =====
-- `Do` ends, sends no more than it may, and succeeds only with a response that is accepted.
use mautrix_teams.Base.{
  ℕ, zero, suc, ◌+◌, ◌-◌, ◌≤◌, ◌<◌, ◌≡◌, refl, Option, none, some, length, arith, ltb, ltb→lt, inl,
  inr, Bool-cases,
}
use mautrix_teams.Base.Int.{ℤ}
use mautrix_teams.Errors.{Err, as_retryable}
use mautrix_teams.Executor.{
  Limits, RequestBody, World, Outcome, Reply, failed, answered, attempt, do_loop, perform,
  is_retryable_network_error, after_sleep, retry, on_retryable, on_classified, on_reply, on_request,
  slept,
}

-- A result was returned, after at most `budget` retries and with at most one sleep before each. It
-- is a success only with a response that the classifier accepts.
abbrev pub IsBounded {ℓ} : {R : Type ℓ} → (R → Option Err) → ℕ → Option (Outcome R) → Type ℓ
IsBounded {R} classify budget none = (o : Outcome R) × ⊥
IsBounded {R} classify budget (some o) =
    (o.sent ≤ budget + 1)
    × (length o.sleeps ≤ budget)
    × (o.error ≡ none → (r : R) × (o.response ≡ some r) × (classify r ≡ none))

module _ {ℓ} {R : Type ℓ} (classify : R → Option Err) where
  IsBounded-slept :
      (budget : ℕ) (d : ℤ) (rest : Option (Outcome R))
      → IsBounded classify budget rest
      → IsBounded classify (suc budget) (slept d rest)
  unfolding slept
  IsBounded-slept budget d none h = absurd h.1
  IsBounded-slept budget d (some o) h = (omega arith, omega arith, h.2)

  IsBounded-after_sleep :
      (budget : ℕ) (d : ℤ) (e : Option Err) (rest : Option (Outcome R))
      → IsBounded classify budget rest
      → IsBounded classify (suc budget) (after_sleep d e rest)
  unfolding after_sleep
  IsBounded-after_sleep budget d none rest h = IsBounded-slept budget d rest h
  IsBounded-after_sleep budget d (some err) rest h = (omega arith, omega arith, λ e. absurd (cc))

module _ {ℓ} {R : Type ℓ} (lim : Limits) (req : RequestBody) (w : World R) where
  -- What is left to retry after `retries` of them.
  abbrev left : ℕ → ℕ
  left retries = lim.max_retries - retries

  -- What the rest of the loop is known to do, if a retry is still allowed.
  abbrev Rest : ℕ → Option (Outcome R) → Type ℓ
  Rest retries rest = retries < lim.max_retries → IsBounded w.classify (left (retries + 1)) rest

  retry-IsBounded :
      (n : ℕ) (d : ℤ) (rest : Option (Outcome R))
      → Rest n rest
      → n < lim.max_retries
      → IsBounded w.classify (left n) (retry lim req w n d rest)
  unfolding retry
  retry-IsBounded n d rest h lt =
      let e : left n ≡ suc (left (n + 1)) = omega arith in
      rw e (IsBounded-after_sleep w.classify (left (n + 1)) d (w.sleep_err n) rest (h lt))

  retryable-IsBounded :
      (n : ℕ) (r : R) (err : Err) (o : Option (ℕ × ℤ)) (rest : Option (Outcome R))
      → Rest n rest
      → IsBounded w.classify (left n) (on_retryable lim req w n r err o rest)
  unfolding on_retryable
  retryable-IsBounded n r err none rest h = (omega arith, omega arith, λ e. absurd (cc))
  retryable-IsBounded n r err (some (status, after)) rest h =
      elim (Bool-cases (ltb n lim.max_retries)) [
        | inl lt ↦ rw lt (retry-IsBounded n _ rest h (ltb→lt _ _ lt))
        | inr ge ↦ rw ge (omega arith, omega arith, λ e. absurd (cc))
      ]

  classified-IsBounded :
      (n : ℕ) (r : R) (o : Option Err) (rest : Option (Outcome R))
      → w.classify r ≡ o
      → Rest n rest
      → IsBounded w.classify (left n) (on_classified lim req w n r o rest)
  unfolding on_classified
  classified-IsBounded n r none rest e h = (omega arith, omega arith, λ _. (r, refl, e))
  classified-IsBounded n r (some err) rest e h =
      retryable-IsBounded n r err (as_retryable err) rest h

  reply-IsBounded :
      (n : ℕ) (reply : Reply R) (rest : Option (Outcome R))
      → Rest n rest
      → IsBounded w.classify (left n) (on_reply lim req w n reply rest)
  unfolding on_reply
  reply-IsBounded n (answered r) rest h = classified-IsBounded n r (w.classify r) rest refl h
  reply-IsBounded n (failed err) rest h = elim (Bool-cases (ltb n lim.max_retries)) [
    | inl lt ↦ elim (Bool-cases (is_retryable_network_error (w.alive n) err)) [
      | inl y ↦ rw (y, lt) (retry-IsBounded n _ rest h (ltb→lt _ _ lt))
      | inr n' ↦ rw n' (omega arith, omega arith, λ e. absurd (cc))
    ]
    | inr ge ↦ elim (Bool-cases (is_retryable_network_error (w.alive n) err)) [
      | inl y ↦ rw (y, ge) (omega arith, omega arith, λ e. absurd (cc))
      | inr n' ↦ rw n' (omega arith, omega arith, λ e. absurd (cc))
    ]
  ]

  request-IsBounded :
      (n : ℕ) (o : Option Err) (rest : Option (Outcome R))
      → Rest n rest
      → IsBounded w.classify (left n) (on_request lim req w n o rest)
  unfolding on_request
  request-IsBounded n none rest h = reply-IsBounded n (w.reply n) rest h
  request-IsBounded n (some err) rest h = (omega arith, omega arith, λ e. absurd (cc))

  attempt-IsBounded :
      (n : ℕ) (o : Option Err) (rest : Option (Outcome R))
      → Rest n rest
      → IsBounded w.classify (left n) (attempt lim req w n o rest)
  unfolding attempt
  attempt-IsBounded n none rest h = request-IsBounded n _ rest h
  attempt-IsBounded n (some err) rest h = (omega arith, omega arith, λ e. absurd (cc))

  loop-IsBounded :
      (fuel n : ℕ)
      → lim.max_retries < fuel + n
      → n ≤ lim.max_retries
      → IsBounded w.classify (left n) (do_loop lim req w fuel n)
  unfolding do_loop
  loop-IsBounded zero n h le = absurd (omega arith)
  loop-IsBounded (suc fuel) n h le =
      attempt-IsBounded n (w.ctx_err n) (do_loop lim req w fuel (n + 1))
        (λ lt. loop-IsBounded fuel (n + 1) (omega arith) (omega arith))

  -- The call always returns; it sends at most MaxRetries + 1 requests and sleeps at most MaxRetries
  -- times, whatever the transport, the classifier and the context do, and it returns without an
  -- error only a response that the classifier accepts.
  pub perform-IsBounded : IsBounded w.classify lim.max_retries (perform lim req w)
  unfolding perform
  perform-IsBounded =
      let e : lim.max_retries - 0 ≡ lim.max_retries = omega arith in
      rw e at (loop-IsBounded (lim.max_retries + 1) 0 (omega arith) (omega arith))
