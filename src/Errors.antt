-- ===== src/Errors.antt =====
-- The errors that the code tells apart by `errors.Is` and `errors.As`
-- (internal/teams/client/executor.go, internal/teams/client/messages.go,
-- pkg/connector/reachability.go). A value is the chain of what wraps what.
use mautrix_teams.Base.{ℕ, Bool, true, false, Option, none, some, ◌++◌}
use mautrix_teams.Base.Int.{ℤ}
use mautrix_teams.Base.Text.{Text, codes}
use mautrix_teams.Base.Decimal.{itoa}

pub data Err : Type 0 where
  -- context.Canceled, context.DeadlineExceeded and the connector's errClientSuperseded
  canceled deadline_exceeded superseded : Err
  -- RetryableError: status, RetryAfter, and what its Error() returns
  retryable : ℕ → ℤ → Text → Err
  -- MessagesError: status and BodySnippet
  messages : ℕ → Text → Err
  -- SendMessageError: status and BodySnippet
  send_message : ℕ → Text → Err
  -- a net.Error of no other kind, with Timeout() and Error()
  net : Bool → Text → Err
  -- *net.DNSError, with Timeout() and Error()
  dns : Bool → Text → Err
  -- a TLS record, certificate, authority or host name error
  tls : Text → Err
  -- *net.OpError and *url.Error, with the text before their own cause
  op : Text → Err → Err
  url : Text → Err → Err
  -- fmt.Errorf("…%w…"), with the text before and after
  wrap : Text → Err → Text → Err
  -- any other error
  other : Text → Err

-- Error().
unfoldable pub error_text : Err → Text
unfolding itoa
error_text canceled = codes "context canceled"
error_text deadline_exceeded = codes "context deadline exceeded"
error_text superseded = codes "client superseded"
error_text (retryable s d t) = t
error_text (messages s b) =
    codes "messages request failed with status " ++ itoa s ++ codes ": " ++ b
error_text (send_message s b) = codes "send message request failed"
error_text (net b t) = t
error_text (dns b t) = t
error_text (tls t) = t
error_text (op p e) = p ++ codes ": " ++ error_text e
error_text (url p e) = p ++ codes ": " ++ error_text e
error_text (wrap p e q) = p ++ error_text e ++ q
error_text (other t) = t

-- errors.Is(err, context.Canceled) and the like walk the chain.
unfoldable pub is_canceled : Err → Bool
is_canceled canceled = true
is_canceled (op p e) = is_canceled e
is_canceled (url p e) = is_canceled e
is_canceled (wrap p e q) = is_canceled e
is_canceled _ = false

unfoldable pub is_deadline : Err → Bool
is_deadline deadline_exceeded = true
is_deadline (op p e) = is_deadline e
is_deadline (url p e) = is_deadline e
is_deadline (wrap p e q) = is_deadline e
is_deadline _ = false

unfoldable pub is_superseded : Err → Bool
is_superseded superseded = true
is_superseded (op p e) = is_superseded e
is_superseded (url p e) = is_superseded e
is_superseded (wrap p e q) = is_superseded e
is_superseded _ = false

-- errors.As(err, &RetryableError): its status and RetryAfter.
unfoldable pub as_retryable : Err → Option (ℕ × ℤ)
as_retryable (retryable s d t) = some (s, d)
as_retryable (op p e) = as_retryable e
as_retryable (url p e) = as_retryable e
as_retryable (wrap p e q) = as_retryable e
as_retryable _ = none

-- errors.As(err, &MessagesError): its status and BodySnippet.
unfoldable pub as_messages : Err → Option (ℕ × Text)
as_messages (messages s b) = some (s, b)
as_messages (op p e) = as_messages e
as_messages (url p e) = as_messages e
as_messages (wrap p e q) = as_messages e
as_messages _ = none

-- errors.As(err, &SendMessageError): its status and BodySnippet.
unfoldable pub as_send_message : Err → Option (ℕ × Text)
as_send_message (send_message s b) = some (s, b)
as_send_message (op p e) = as_send_message e
as_send_message (url p e) = as_send_message e
as_send_message (wrap p e q) = as_send_message e
as_send_message _ = none

-- The method Timeout() of an error that has it; the wrappers of package net ask their cause's own.
unfoldable pub timeout : Err → Bool
timeout deadline_exceeded = true
timeout (net b t) = b
timeout (dns b t) = b
timeout (op p e) = timeout e
timeout (url p e) = timeout e
timeout _ = false

-- errors.As(err, &net.Error): the first error of the chain with Timeout() and Temporary(), as the
-- result of its Timeout().
unfoldable pub as_net : Err → Option Bool
unfolding timeout
as_net deadline_exceeded = some true
as_net (net b t) = some b
as_net (dns b t) = some b
as_net (op p e) = some (timeout e)
as_net (url p e) = some (timeout e)
as_net (wrap p e q) = as_net e
as_net _ = none

-- errors.As(err, &url.Error): the error inside.
unfoldable pub as_url : Err → Option Err
as_url (url p e) = some e
as_url (op p e) = as_url e
as_url (wrap p e q) = as_url e
as_url _ = none

unfoldable pub has_dns : Err → Bool
has_dns (dns b t) = true
has_dns (op p e) = has_dns e
has_dns (url p e) = has_dns e
has_dns (wrap p e q) = has_dns e
has_dns _ = false

unfoldable pub has_tls : Err → Bool
has_tls (tls t) = true
has_tls (op p e) = has_tls e
has_tls (url p e) = has_tls e
has_tls (wrap p e q) = has_tls e
has_tls _ = false
