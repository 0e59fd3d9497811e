-- ===== src/Queue/Retrying.antt =====
-- The bounds of a retry delay, and which failures are tried again.
use gapforge.Common.{
  ℕ, zero, suc, ◌+◌, ◌-◌, ◌*◌, ◌^◌, ◌≤◌, ◌<◌, ◌≡◌, ◌⊎◌, inl, inr, refl, String, true, false, some,
  ok, arith, ltb, Bool-cases,
}
use native.Mathlib.Nat.{pow-suc}
use native.Mathlib.Decide.{dec_le}
use Prim.Native.Nat.{min}
use gapforge.Queue.Repository.{failed_task, delay_microseconds}
use gapforge.Queue.Model.{TaskStatus, Task, ErrorKind, rate_limited, timeout, transient_network}
use gapforge.Queue.Retry.{
  Digest, ticks_per_second, RetryDecision, is_retryable, retry_delay_seconds, classify_error,
}

pow_pos : (n : ℕ) → 1 ≤ 2 ^ n
pow_pos zero = omega arith
pow_pos (suc n) = rw (pow-suc) (omega (arith, pow_pos n))

-- The delay before the cap, with `p` for the power of two and `g` for the digest.
jitter_bounds :
    (p g : ℕ)
    → 1 ≤ p
    → g < 65536
    → (ticks_per_second ≤ p * (ticks_per_second + g))
      × (p * ticks_per_second ≤ p * (ticks_per_second + g))
      × (4 * (p * (ticks_per_second + g)) ≤ 5 * (p * ticks_per_second))
jitter_bounds p g h small =
    let slack : p * g ≤ p * 65535 = grind arith in (omega arith, omega arith, omega arith)

capped_bounds :
    (x p : ℕ)
    → ticks_per_second ≤ x
    → p * ticks_per_second ≤ x
    → 4 * x ≤ 5 * (p * ticks_per_second)
    → let d = min x (60 * ticks_per_second) in
      (ticks_per_second ≤ d)
      × (d ≤ 60 * ticks_per_second)
      × ((p * ticks_per_second ≤ d) ⊎ (d ≡ 60 * ticks_per_second))
      × (4 * d ≤ 5 * (p * ticks_per_second))
capped_bounds x p a b c = (
  omega arith,
  omega arith,
  elim (dec_le x (60 * ticks_per_second)) [ yes h ↦ inl (omega arith) | no h ↦ inr (omega arith) ],
  omega arith,
)

-- The delay of an attempt.
abbrev jittered : Digest → ℕ → String → ℕ
jittered digest attempt seed = 2 ^ (attempt - 1) * (ticks_per_second + digest seed attempt)

retry_delay-eq-ok :
    (digest : Digest) (attempt : ℕ) (seed : String)
    → 1 ≤ attempt
    → attempt ≤ 1024
    → retry_delay_seconds digest attempt seed
      ≡ ok (min (jittered digest attempt seed) (60 * ticks_per_second))
unfolding retry_delay_seconds
retry_delay-eq-ok digest attempt seed h k =
    let low : ltb attempt 1 ≡ false = ground arith in
    let high : ltb 1024 attempt ≡ false = ground arith in rw (low, high)

-- For every attempt from 1 to 1024, with a digest of two bytes, a delay is found. It lies between one second and sixty, it is at
-- least the exponential backoff of the attempt or the cap, and it exceeds that backoff by at most a
-- quarter.
pub retry_delay_bounds :
    (digest : Digest) (attempt : ℕ) (seed : String)
    → 1 ≤ attempt
    → attempt ≤ 1024
    → digest seed attempt < 65536
    → (d : ℕ) × (retry_delay_seconds digest attempt seed ≡ ok d)
      × (ticks_per_second ≤ d)
      × (d ≤ 60 * ticks_per_second)
      × ((2 ^ (attempt - 1) * ticks_per_second ≤ d) ⊎ (d ≡ 60 * ticks_per_second))
      × (4 * d ≤ 5 * (2 ^ (attempt - 1) * ticks_per_second))
retry_delay_bounds digest attempt seed h k small =
    let p = 2 ^ (attempt - 1) in
    let (a, b, c) = jitter_bounds p (digest seed attempt) (pow_pos (attempt - 1)) small in
    let (low, high, base, top) = capped_bounds (jittered digest attempt seed) p a b c in
    (
      min (jittered digest attempt seed) (60 * ticks_per_second),
      retry_delay-eq-ok digest attempt seed h k,
      low,
      high,
      base,
      top,
    )

-- A rate limit, a timeout or a network fault.
abbrev pub IsTransient : ErrorKind → Type 0
IsTransient kind = (kind ≡ rate_limited) ⊎ (kind ≡ timeout) ⊎ (kind ≡ transient_network)

is_retryable-IsTransient : (kind : ErrorKind) → is_retryable kind ≡ true → IsTransient kind
is_retryable-IsTransient kind h = ground arith

IsTransient-is_retryable : (kind : ErrorKind) → IsTransient kind → is_retryable kind ≡ true
IsTransient-is_retryable kind h = ground arith

microseconds_bounds :
    (ticks : ℕ)
    → ticks_per_second ≤ ticks
    → ticks ≤ 60 * ticks_per_second
    → (1000000 ≤ delay_microseconds ticks) × (delay_microseconds ticks ≤ 60000000)
microseconds_bounds ticks low high = (omega arith, omega arith)

-- What becomes of a task whose attempt failed.
pub data AfterFailure (kind : ErrorKind) (now : ℕ) (t t' : Task) : Type 0 where
  retried :
      IsTransient kind
      → t.attempt_count < t.max_attempts
      → t'.status ≡ TaskStatus.pending
      → now + 1000000 ≤ t'.available_at
      → t'.available_at ≤ now + 60000000
      → AfterFailure kind now t t'
  abandoned :
      ¬ IsTransient kind ⊎ (t.max_attempts ≤ t.attempt_count)
      → t'.status ≡ TaskStatus.failed
      → t'.completed_at ≡ some now
      → AfterFailure kind now t t'

failed_task_retryable :
    (kind : ErrorKind) (delay : ℕ) (error : String) (now : ℕ) (t : Task)
    → IsTransient kind
    → ticks_per_second ≤ delay
    → delay ≤ 60 * ticks_per_second
    → AfterFailure kind now t
        (failed_task (record { kind = kind; retryable = true; delay = delay }) error now t)
unfolding failed_task
failed_task_retryable kind delay error now t transient low high =
    let (least, most) = microseconds_bounds delay low high in
    elim (Bool-cases (ltb t.attempt_count t.max_attempts)) [
      | inl again ↦ rw again (retried transient (ground arith) refl (omega arith) (omega arith))
      | inr last ↦ rw last (abandoned (inr (ground arith)) refl refl)
    ]

failed_task_permanent :
    (kind : ErrorKind) (error : String) (now : ℕ) (t : Task)
    → ¬ IsTransient kind
    → AfterFailure kind now t
        (failed_task (record { kind = kind; retryable = false; delay = 0 }) error now t)
unfolding failed_task
failed_task_permanent kind error now t lasting = abandoned (inl lasting) refl refl

classify_error_again :
    (digest : Digest) (kind : ErrorKind) (attempt delay : ℕ) (seed : String)
    → is_retryable kind ≡ true
    → retry_delay_seconds digest attempt seed ≡ ok delay
    → classify_error digest kind attempt seed
      ≡ ok (record { kind = kind; retryable = true; delay = delay })
unfolding classify_error
classify_error_again digest kind attempt delay seed again found = ground (arith, again, found)

classify_error_never :
    (digest : Digest) (kind : ErrorKind) (attempt : ℕ) (seed : String)
    → is_retryable kind ≡ false
    → classify_error digest kind attempt seed
      ≡ ok (record { kind = kind; retryable = false; delay = 0 })
unfolding classify_error
classify_error_never digest kind attempt seed never = ground (arith, never)

-- A failure of attempt 1 to 1024, with a digest of two bytes, is always classified. The task is tried again exactly if the error
-- is a rate limit, a timeout or a network fault and an attempt is left; it is then due after one to
-- sixty seconds. Otherwise it has failed for good, at that moment.
pub failure_retried_or_abandoned :
    (digest : Digest) (kind : ErrorKind) (seed error : String) (now : ℕ) (t : Task)
    → 1 ≤ t.attempt_count
    → t.attempt_count ≤ 1024
    → digest seed t.attempt_count < 65536
    → (d : RetryDecision) × (classify_error digest kind t.attempt_count seed ≡ ok d)
      × AfterFailure kind now t (failed_task d error now t)
failure_retried_or_abandoned digest kind seed error now t low high small =
    elim (Bool-cases (is_retryable kind)) [
      | inl again ↦
          let (d, found, least, most, _, _) =
            retry_delay_bounds digest t.attempt_count seed low high small in
          (
            record { kind = kind; retryable = true; delay = d },
            classify_error_again digest kind t.attempt_count d seed again found,
            failed_task_retryable kind d error now t (is_retryable-IsTransient kind again) least
                most,
          )
      | inr never ↦ (
        record { kind = kind; retryable = false; delay = 0 },
        classify_error_never digest kind t.attempt_count seed never,
        failed_task_permanent kind error now t (not_transient never),
      )
    ]
  where
    not_transient : is_retryable kind ≡ false → ¬ IsTransient kind
    not_transient n h = cc (n, IsTransient-is_retryable kind h)
