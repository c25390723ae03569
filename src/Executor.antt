-- ===== src/Executor.antt =====
-- internal/teams/client/executor.go: `TeamsRequestExecutor`, an HTTP call with retries.
pub mod Retries
pub mod Delays
use mautrix_teams.Base.{
  ℕ, zero, suc, ◌+◌, ◌-◌, Bool, true, false, not, ◌&&◌, ◌||◌, Option, none, some, List, [], ◌∷◌,
  ltb, ◌==◌, if◌then◌else◌,
}
use mautrix_teams.Base.Int.{ℤ, pos, ltb_ℤ, leb_ℤ, mul64, shl64, min_ℤ}
use mautrix_teams.Base.Text.{codes}
use mautrix_teams.Errors.{
  Err, other, is_canceled, is_deadline, as_net, as_url, as_retryable, has_dns, has_tls,
}

abbrev unwrap_url_error : Err → Option Err → Err
unwrap_url_error err none = err
unwrap_url_error err (some inner) = inner

unfoldable pub is_dns_error : Err → Bool
is_dns_error err = has_dns (unwrap_url_error err (as_url err))

unfoldable pub is_tls_error : Err → Bool
is_tls_error err = has_tls (unwrap_url_error err (as_url err))

abbrev timed_out : Option Bool → Bool
timed_out none = false
timed_out (some b) = b

-- `isRetryableNetworkError` of an error that is not nil; `alive` is `ctx.Err() == nil`.
unfoldable pub is_retryable_network_error : Bool → Err → Bool
unfolding is_dns_error is_tls_error
is_retryable_network_error alive err =
    if is_canceled err
    then false
    else if is_deadline err
    then alive
    else if is_tls_error err || is_dns_error err
    then false
    else timed_out (as_net err)

-- The body of a request: whether it has GetBody, and whether it has a Body.
pub record RequestBody : Type 0 where
  pub get_body : Bool
  pub body : Bool

abbrev pub retry_body_missing : Err
retry_body_missing = other (codes "request body cannot be retried without GetBody")

-- `requestForAttempt`: the error, if any; `body_err` is what GetBody returns.
unfoldable pub request_for_attempt : RequestBody → ℕ → Option Err → Option Err
request_for_attempt req attempt body_err =
    if attempt == 1 && not req.get_body
    then none
    else if not req.get_body && req.body
    then some retry_body_missing
    else if req.get_body
    then body_err
    else none

pub record Limits : Type 0 where
  pub max_retries : ℕ
  pub base_backoff : ℤ
  pub max_backoff : ℤ

-- The delay of `computeBackoff` before the cap and the jitter.
unfoldable pub doubled_backoff : ℤ → ℕ → ℤ
doubled_backoff base retry = if ltb 1 retry then mul64 base (shl64 (pos 1) (retry - 1)) else base

unfoldable pub plain_backoff : ℤ → ℤ → ℕ → ℤ
plain_backoff base max_backoff retry = min_ℤ (doubled_backoff base retry) max_backoff

-- What one request meets: a transport error, or a response.
pub data Reply {ℓ} (R : Type ℓ) : Type ℓ where
  failed : Err → Reply R
  answered : R → Reply R

-- The world that a call runs in, by the number of retries made before: the context's error, GetBody's
-- error, the reply of the HTTP client, whether the context is alive after it, and the error of the
-- sleep before the next attempt. The response classifier and the jitter are the caller's.
pub record World {ℓ} (R : Type ℓ) : Type ℓ where
  pub ctx_err : ℕ → Option Err
  pub body_err : ℕ → Option Err
  pub reply : ℕ → Reply R
  pub alive : ℕ → Bool
  pub sleep_err : ℕ → Option Err
  pub classify : R → Option Err
  pub jitter : ℤ → ℤ

-- What `Do` returns, with the requests sent and the delays slept.
pub record Outcome {ℓ} (R : Type ℓ) : Type ℓ where
  pub response : Option R
  pub error : Option Err
  pub sent : ℕ
  pub sleeps : List ℤ

module _ {ℓ} {R : Type ℓ} where
  -- A return from the loop.
  abbrev ended : Option R → Option Err → ℕ → Option (Outcome R)
  ended response error sent =
      some (record { response = response; error = error; sent = sent; sleeps = [] })

  slept : ℤ → Option (Outcome R) → Option (Outcome R)
  slept d none = none
  slept d (some o) = some (record o { sent = o.sent + 1; sleeps = d ∷ o.sleeps })

  after_sleep : ℤ → Option Err → Option (Outcome R) → Option (Outcome R)
  unfolding slept
  after_sleep d none rest = slept d rest
  after_sleep d (some err) rest =
      some (record { response = none; error = some err; sent = 1; sleeps = d ∷ [] })

module _ {ℓ} {R : Type ℓ} (lim : Limits) (req : RequestBody) (w : World R) where
  unfoldable pub compute_backoff : ℕ → ℤ
  unfolding plain_backoff
  compute_backoff retry = w.jitter (plain_backoff lim.base_backoff lim.max_backoff retry)

  -- Sleep before the next attempt, or return what the sleep returns.
  unfoldable pub retry : ℕ → ℤ → Option (Outcome R) → Option (Outcome R)
  unfolding after_sleep
  retry retries backoff rest = after_sleep backoff (w.sleep_err retries) rest

  unfoldable pub on_retryable :
      ℕ → R → Err → Option (ℕ × ℤ) → Option (Outcome R) → Option (Outcome R)
  unfolding retry
  on_retryable retries r err none rest = ended (some r) (some err) 1
  on_retryable retries r err (some (status, after)) rest =
      if ltb retries lim.max_retries
      then retry retries (if leb_ℤ after (pos 0) then compute_backoff (retries + 1) else after) rest
      else ended (some r) (some err) 1

  unfoldable pub on_classified : ℕ → R → Option Err → Option (Outcome R) → Option (Outcome R)
  unfolding on_retryable
  on_classified retries r none rest = ended (some r) none 1
  on_classified retries r (some err) rest = on_retryable retries r err (as_retryable err) rest

  unfoldable pub on_reply : ℕ → Reply R → Option (Outcome R) → Option (Outcome R)
  unfolding on_classified retry
  on_reply retries (failed err) rest =
      if is_retryable_network_error (w.alive retries) err && ltb retries lim.max_retries
      then retry retries (compute_backoff (retries + 1)) rest
      else ended none (some err) 1
  on_reply retries (answered r) rest = on_classified retries r (w.classify r) rest

  unfoldable pub on_request : ℕ → Option Err → Option (Outcome R) → Option (Outcome R)
  unfolding on_reply
  on_request retries none rest = on_reply retries (w.reply retries) rest
  on_request retries (some err) rest = ended none (some err) 0

  unfoldable pub attempt : ℕ → Option Err → Option (Outcome R) → Option (Outcome R)
  unfolding on_request request_for_attempt
  attempt retries none rest =
      on_request retries (request_for_attempt req (retries + 1) (w.body_err retries)) rest
  attempt retries (some err) rest = ended none (some err) 0

  -- The loop of `Do`, on fuel; `none` means that the fuel ran out.
  unfoldable pub do_loop : ℕ → ℕ → Option (Outcome R)
  do_loop zero retries = none
  do_loop (suc fuel) retries = attempt retries (w.ctx_err retries) (do_loop fuel (retries + 1))

  -- `Do`, of an executor, request and classifier that are not nil.
  unfoldable pub perform : Option (Outcome R)
  unfolding do_loop
  perform = do_loop (lim.max_retries + 1) 0

-- The fields MaxRetries, BaseBackoff and MaxBackoff, with the defaults of `Do`.
unfoldable pub effective_limits : ℤ → ℤ → ℤ → Limits
effective_limits max_retries base max_backoff = record {
  max_retries = elim max_retries [ ℤ.pos n ↦ n | ℤ.negsuc n ↦ 0 ];
  base_backoff = if leb_ℤ base (pos 0) then pos 500_000_000 else base;
  max_backoff = if leb_ℤ max_backoff (pos 0) then pos 10_000_000_000 else max_backoff;
}
