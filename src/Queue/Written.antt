-- ===== src/Queue/Written.antt =====
-- What a write by the owner of a task leaves, column by column.
use gapforge.Common.{
  ℕ, ◌+◌, ◌≤◌, ◌<◌, ◌≡◌, ◌⊎◌, inl, inr, ◌&&◌, arith, Bool-cases, ltb, refl, String, Bool, true,
  false, none, some, List,
}
use gapforge.Json.{Json, Fields, text, boolean, object, get_field, set_field}
use gapforge.Queue.Model.{RunStatus, TaskStatus, Run, Task, Db, get_run, put_run, put_task}
use gapforge.Queue.Retry.{RetryDecision}
use gapforge.Queue.Repository.{with_warnings, runtime_of, delay_microseconds, failed_task}
use gapforge.Queue.Ownership.{IsHeld}

-- The task as a write past the deadline gives it back.
abbrev pub given_back : Task → Task
given_back t = record t { status = TaskStatus.pending; lease_owner = none; lease_expires_at = none }

-- A run that has passed its deadline, as it is ended.
abbrev pub out_of_time : ℕ → String → Run → Run
out_of_time now by r = record r {
  status = RunStatus.budget_exhausted;
  completed_at = some now;
  last_checkpoint =
      set_field "expired_by" (text by) (set_field "reason" (text "deadline") r.last_checkpoint);
}

-- A task that has succeeded: its result and its completion are recorded, the lease is gone, and the
-- checkpoint tells under `runtime` whether the artifact is useful and what the warnings were.
abbrev pub with_result : Fields → Bool → List Json → ℕ → Task → Task
with_result outcome useful warnings now t = record t {
  status = TaskStatus.succeeded;
  outcome = some outcome;
  completed_at = some now;
  lease_owner = none;
  lease_expires_at = none;
  checkpoint =
      set_field "runtime"
        (object (
          with_warnings warnings (
            set_field "useful_artifact" (boolean useful)
              (runtime_of (get_field "runtime" t.checkpoint)))))
        t.checkpoint;
}

-- A task whose attempt has failed: the error and its class are recorded and the lease is gone. While
-- the error is retryable and attempts are left it waits for the delay, and otherwise it has failed.
pub data FailedAs (d : RetryDecision) (error : String) (now : ℕ) (t : Task) : Task → Type 0 where
  waits :
      d.retryable ≡ true
      → t.attempt_count < t.max_attempts
      → FailedAs d error now t (record t {
        status = TaskStatus.pending;
        available_at = now + delay_microseconds d.delay;
        retry_class = some d.kind;
        last_error = some error;
        lease_owner = none;
        lease_expires_at = none;
      })
  ends :
      (d.retryable ≡ false) ⊎ (t.max_attempts ≤ t.attempt_count)
      → FailedAs d error now t (record t {
        status = TaskStatus.failed;
        completed_at = some now;
        retry_class = some d.kind;
        last_error = some error;
        lease_owner = none;
        lease_expires_at = none;
      })

pub failed_task-FailedAs :
    (d : RetryDecision) (error : String) (now : ℕ) (t : Task)
    → FailedAs d error now t (failed_task d error now t)
unfolding failed_task
failed_task-FailedAs d error now t =
    elim (Bool-cases (d.retryable && ltb t.attempt_count t.max_attempts)) [
      | inl retry ↦ rw retry (waits (ground (arith, retry)) (ground (arith, retry)))
      | inr stop ↦ rw stop (ends (stopped d.retryable stop))
    ]
  where
    stopped :
        (b : Bool)
        → (b && ltb t.attempt_count t.max_attempts) ≡ false
        → (b ≡ false) ⊎ (t.max_attempts ≤ t.attempt_count)
    stopped false h = inl refl
    stopped true h = inr (ground (arith, h))

-- What a write by the owner of `t` leaves: the new row, while the run is within its deadline and the
-- lease is live; past the deadline, the row given back and the run ended.
pub data Written (t : Task) (r : Run) (now : ℕ) (by : String) (db : Db) (new back : Task) (db' : Db)
    : Type 0 where
  committed :
      (e : ℕ)
      → now < r.deadline_at
      → t.lease_expires_at ≡ some e
      → now < e
      → db' ≡ put_task new db
      → Written t r now by db new back db'
  given_up :
      r.deadline_at ≤ now
      → db' ≡ put_task back (put_run (out_of_time now by r) db)
      → Written t r now by db new back db'

-- Who wrote, and to which run the task belongs.
pub record Writer (k : ℕ) (worker : String) (db : Db) (t : Task) (r : Run) : Type 0 where
  pub held : IsHeld k worker db t
  pub belongs : get_run t.run_id db ≡ some r
  pub active : r.status ≡ RunStatus.running

abbrev pub Wrote : ℕ → String → ℕ → String → Db → (Task → Run → Task) → (Task → Task) → Db → Type 0
Wrote k worker now by db new back db' =
    (t : Task) × (r : Run) × Writer k worker db t r × Written t r now by db (new t r) (back t) db'

abbrev pub renewed_until : ℕ → Task → Task
renewed_until e t = record t { lease_expires_at = some e }
