-- ===== src/Queue/Writing.antt =====
-- What each of the four writes commits.
use Prim.Native.Nat.{min}
use gapforge.Common.{
  ℕ, ◌+◌, ◌≡◌, refl, sym, ap, subst, ◌∙◌, String, Bool, true, false, Option, none, some, List,
  permission_error, Result, ok, err, ◌>>=◌, >>=-eq-ok, if◌then◌else◌,
}
use gapforge.Json.{Json, Fields}
use gapforge.Queue.Model.{Run, Task, Db, get_run, get_task, put_task}
use gapforge.Queue.Retry.{RetryDecision}
use gapforge.Queue.Repository.{
  succeeded_task, leased_by, success_checkpoint, renew_owned_task, checkpoint, renew_lease,
  succeeded_task, succeed, failed_task, fail,
}
use gapforge.Queue.Ownership.{
  leased_by-eq-ok, leased_by_foreign, IsForeign, Renewal, extended, overdue,
  renew_owned_task-Renewal,
}
use gapforge.Queue.Written.{
  given_back, with_result, FailedAs, failed_task-FailedAs, Written, committed, given_up, Wrote,
  renewed_until,
}

abbrev after_write : (Task → Task) → Bool × Task × Db → Db
after_write finish (renewed, t, db) = if renewed then put_task (finish t) db else db

-- A renewal followed by the owner's own change of the row.
Written-of_Renewal :
    (finish : Task → Task) (t : Task) (r : Run) (duration now : ℕ) (by : String) (db db' : Db)
    (res : Bool × Task × Db)
    → Renewal t duration now by db r res
    → after_write finish res ≡ db'
    → Written t r now by db
        (finish (renewed_until (min (now + duration) r.deadline_at) t))
        (given_back t)
        db'
Written-of_Renewal finish t r duration now by db db' res (extended e early at live is) h =
    committed e early at live (sym h ∙ ap (after_write finish) is)
Written-of_Renewal finish t r duration now by db db' res (overdue late is) h =
    given_up late (sym h ∙ ap (after_write finish) is)

after_write_of_ok :
    {A : Type 0} (finish : Task → Task) (x y : Task → A) (res : Bool × Task × Db) (a : A) (db' : Db)
    → ◌≡◌ {A = Result (A × Db)}
        (ok (if res.0 then (x res.1, put_task (finish res.1) res.2) else (y res.1, res.2)))
        (ok (a, db'))
    → after_write finish res ≡ db'
after_write_of_ok finish x y (true, t, db) a db' h = cc
after_write_of_ok finish x y (false, t, db) a db' h = cc

-- A write that takes the owner's task `t`, renews the lease of `prepare t`, and then finishes it.
module _ {A : Type 0} (prepare finish : Task → Task) (x y : Task → A) (k : ℕ) (worker : String)
    (duration now : ℕ) (by : String) (same_run : (t : Task) → (prepare t).run_id ≡ t.run_id)
    (same_lease : (t : Task) → (prepare t).lease_expires_at ≡ t.lease_expires_at) where
  abbrev write : Db → Result (A × Db)
  write db = do
    t ← leased_by k worker db
    (renewed, t', db') ← renew_owned_task (prepare t) duration now by db
    ok (if renewed then (x t', put_task (finish t') db') else (y t', db'))

  write_effect :
      (db db' : Db) (a : A)
      → write db ≡ ok (a, db')
      → Wrote k worker now by db
          (λ t r. finish (renewed_until (min (now + duration) r.deadline_at) (prepare t)))
          (λ t. given_back (prepare t))
          db'
  write_effect db db' a h =
      let (t, held, rest) = >>=-eq-ok (leased_by k worker db) _ (a, db') h in
      let (res, renewed, out) =
        >>=-eq-ok (renew_owned_task (prepare t) duration now by db) _ (a, db') rest in
      let (r, belongs, (active, how)) =
        renew_owned_task-Renewal (prepare t) duration now by db res renewed in
      (
        t,
        r,
        record {
          held = leased_by-eq-ok k worker db t held;
          belongs = subst (λ i. get_run i db ≡ some r) (same_run t) belongs;
          active = active;
        },
        restate t r (
            Written-of_Renewal finish (prepare t) r duration now by db db' res how
              (after_write_of_ok finish x y res a db' out)),
      )
    where
      restate :
          (t : Task) (r : Run)
          → Written
              (prepare t)
              r
              now
              by
              db
              (finish (renewed_until (min (now + duration) r.deadline_at) (prepare t)))
              (given_back (prepare t))
              db'
          → Written t r now by db
              (finish (renewed_until (min (now + duration) r.deadline_at) (prepare t)))
              (given_back (prepare t))
              db'
      restate t r (committed e early at live is) =
          committed e early (sym (same_lease t) ∙ at) live is
      restate t r (given_up late is) = given_up late is

pub succeed-Wrote :
    (k : ℕ) (worker : String) (outcome : Fields) (useful : Bool) (warnings : List Json) (now : ℕ)
    (db db' : Db) (t' : Task)
    → succeed k worker outcome useful warnings now db ≡ ok (t', db')
    → Wrote k worker now "task_completion" db
        (λ t _. succeeded_task outcome useful warnings now t)
        given_back
        db'
unfolding succeed
succeed-Wrote k worker outcome useful warnings now db db' t' h =
    let done = succeeded_task outcome useful warnings now in
    write_effect (λ t. t) done done (λ t. t) k worker 0 now "task_completion" (λ _. refl)
      (λ _. refl) db db' t' h

-- When `succeed` commits, the task was leased to the worker and its run was running. Within the
-- deadline and under a live lease the task is written SUCCEEDED, with its result, its completion
-- time, its usefulness and its warnings; past the deadline it goes back to PENDING and the run ends
-- as BUDGET_EXHAUSTED, for the deadline. In both cases the lease is gone, and nothing else changes.
pub succeed_effect :
    (k : ℕ) (worker : String) (outcome : Fields) (useful : Bool) (warnings : List Json) (now : ℕ)
    (db db' : Db) (t' : Task)
    → succeed k worker outcome useful warnings now db ≡ ok (t', db')
    → Wrote k worker now "task_completion" db
        (λ t _. with_result outcome useful warnings now t)
        given_back
        db'
unfolding success_checkpoint
succeed_effect k worker outcome useful warnings now db db' t' h =
    succeed-Wrote k worker outcome useful warnings now db db' t' h

pub fail-Wrote :
    (k : ℕ) (worker : String) (decision : RetryDecision) (error : String) (now : ℕ) (db db' : Db)
    (t' : Task)
    → fail k worker decision error now db ≡ ok (t', db')
    → Wrote k worker now "task_failure" db (λ t _. failed_task decision error now t) given_back db'
unfolding fail
fail-Wrote k worker decision error now db db' t' h =
    let done = failed_task decision error now in
    write_effect (λ t. t) done done (λ t. t) k worker 0 now "task_failure" (λ _. refl) (λ _. refl)
      db db' t' h

-- When `fail` commits, the task was leased to the worker and its run was running. Within the
-- deadline and under a live lease the error, its class and no lease are recorded, and the task waits
-- for the delay if the error is retryable and attempts are left, or has failed; past the deadline it
-- goes back to PENDING and the run ends as BUDGET_EXHAUSTED, for the deadline.
pub fail_effect :
    (k : ℕ) (worker : String) (decision : RetryDecision) (error : String) (now : ℕ) (db db' : Db)
    (t' : Task)
    → fail k worker decision error now db ≡ ok (t', db')
    → (new : Task → Run → Task) × ((t : Task) (r : Run) → FailedAs decision error now t (new t r))
      × Wrote k worker now "task_failure" db new given_back db'
fail_effect k worker decision error now db db' t' h = (
  λ t _. failed_task decision error now t,
  λ t _. failed_task-FailedAs decision error now t,
  fail-Wrote k worker decision error now db db' t' h,
)

-- When `checkpoint` commits, the value is stored on both paths, and within the deadline the lease is
-- extended up to the deadline of the run.
pub checkpoint_effect :
    (k : ℕ) (worker : String) (value : Fields) (duration now : ℕ) (db db' : Db) (t' : Task)
    → checkpoint k worker value duration now db ≡ ok (t', db')
    → Wrote k worker now "task_checkpoint" db
        (λ t r.
          renewed_until (min (now + duration) r.deadline_at) (record t { checkpoint = value }))
        (λ t. given_back (record t { checkpoint = value }))
        db'
unfolding checkpoint
checkpoint_effect k worker value duration now db db' t' h =
    write_effect (λ t. record t { checkpoint = value }) (λ t. t) (λ t. t) (λ t. t) k worker duration
      now "task_checkpoint" (λ _. refl) (λ _. refl) db db' t' h

-- When `renew_lease` commits, it extended the lease up to the deadline of the run, or gave the task
-- back.
pub renew_lease_effect :
    (k : ℕ) (worker : String) (duration now : ℕ) (db db' : Db) (o : Option Task)
    → renew_lease k worker duration now db ≡ ok (o, db')
    → Wrote k worker now "worker_heartbeat" db
        (λ t r. renewed_until (min (now + duration) r.deadline_at) t)
        given_back
        db'
unfolding renew_lease
renew_lease_effect k worker duration now db db' o h =
    write_effect (λ t. t) (λ t. t) some (λ _. none) k worker duration now "worker_heartbeat"
      (λ _. refl) (λ _. refl) db db' o h

-- A worker that does not hold the task's lease can make none of the four writes.
pub stale_worker_refused :
    (k : ℕ) (worker : String) (db : Db) (t : Task) (value outcome : Fields) (useful : Bool)
    (warnings : List Json) (decision : RetryDecision) (error : String) (duration now : ℕ)
    → get_task k db ≡ some t
    → IsForeign worker t
    → (checkpoint k worker value duration now db ≡ err permission_error)
      × (renew_lease k worker duration now db ≡ err permission_error)
      × (succeed k worker outcome useful warnings now db ≡ err permission_error)
      × (fail k worker decision error now db ≡ err permission_error)
unfolding checkpoint renew_lease succeed fail
stale_worker_refused k worker db t value outcome useful warnings decision error duration now e f =
    let refused = leased_by_foreign k worker db t e f in
    (rw refused, rw refused, rw refused, rw refused)
