-- ===== src/Queue/Retry.antt =====
-- Error classification and retry timing (src/gapforge/queue/retry.py).
-- A delay is counted in ticks of 1/262140 second, in which the jitter of a quarter of 1/65535 is a
-- whole number: the float of the source is this value up to its rounding. The first two bytes of
-- the SHA-256 digest of seed and attempt are the parameter `digest`.
use Prim.Native.Nat.{min}
use gapforge.Common.{
  ℕ, ◌+◌, ◌-◌, ◌*◌, ◌^◌, Bool, true, false, String, Exn, Result, ok, ◌>>=◌, ◌>>◌, raise_if, ltb,
}
use gapforge.Queue.Model.{
  ErrorKind, auth_required, invalid_output, rate_limited, timeout, transient_network, permanent,
}

abbrev pub ticks_per_second : ℕ
ticks_per_second = 262140

abbrev pub Digest : Type 0
Digest = String → ℕ → ℕ

pub record RetryDecision : Type 0 where
  pub kind : ErrorKind
  pub retryable : Bool
  pub delay : ℕ

-- `float(2 ** (attempt - 1))` overflows from 2 ** 1024 on.
unfoldable pub retry_delay_seconds : Digest → ℕ → String → Result ℕ
retry_delay_seconds digest attempt seed = do
  raise_if (ltb attempt 1) Exn.value_error
  raise_if (ltb 1024 attempt) Exn.overflow_error
  ok (min (2 ^ (attempt - 1) * (ticks_per_second + digest seed attempt)) (60 * ticks_per_second))

abbrev pub is_retryable : ErrorKind → Bool
is_retryable rate_limited = true
is_retryable timeout = true
is_retryable transient_network = true
is_retryable _ = false

unfoldable pub classify_error : Digest → ErrorKind → ℕ → String → Result RetryDecision
classify_error digest kind attempt seed = elim (is_retryable kind) [
  | true ↦ do
    delay ← retry_delay_seconds digest attempt seed
    ok (record { kind = kind; retryable = true; delay = delay })
  | false ↦ ok (record { kind = kind; retryable = false; delay = 0 })
]

-- The classes that `classify_exception` tells apart, and all others.
pub data Raised : Type 0 where
  timeout_error connection_error permission_error value_error other_error : Raised

abbrev pub kind_of : Raised → ErrorKind
kind_of timeout_error = timeout
kind_of connection_error = transient_network
kind_of permission_error = auth_required
kind_of value_error = invalid_output
kind_of other_error = permanent

unfoldable pub classify_exception : Digest → Raised → ℕ → String → Result RetryDecision
unfolding classify_error
classify_exception digest error attempt seed = classify_error digest (kind_of error) attempt seed
