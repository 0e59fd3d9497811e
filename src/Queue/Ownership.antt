-- ===== src/Queue/Ownership.antt =====
-- The four writes to a leased task: who may make them, and what each does.
use Prim.Native.Nat.{min}
use text.Mathlib.TextEquality.{eq_iff}
use gapforge.Common.{
  ℕ, ◌+◌, ◌≤◌, ◌<◌, ◌≡◌, ◌≢◌, ◌⊎◌, inl, inr, String, Bool, true, false, ◌&&◌, some,
  permission_error, ok, err, arith, Bool-cases, Option-cases, ◌==◌, string_eq, leb,
}
use gapforge.Queue.Model.{
  RunStatus, TaskStatus, Run, Task, Db, get_run, get_task, put_run, put_task, is_leased,
}
use gapforge.Queue.Repository.{exhaust_run, leased_by, unleased, renew_under, renew_owned_task}

-- The task is leased to the worker.
pub record IsHeld (k : ℕ) (worker : String) (db : Db) (t : Task) : Type 0 where
  pub found : get_task k db ≡ some t
  pub leased : t.status ≡ TaskStatus.leased
  pub owner : t.lease_owner ≡ some worker

pub leased_by-eq-ok :
    (k : ℕ) (worker : String) (db : Db) (t : Task)
    → leased_by k worker db ≡ ok t
    → IsHeld k worker db t
unfolding leased_by
leased_by-eq-ok k worker db t h = elim (Option-cases (get_task k db)) [
  | inl e ↦ absurd (ground (arith, e))
  | inr (u, e) ↦ elim (Option-cases u.lease_owner) [
    | inl n ↦ absurd (ground (arith, e, n))
    | inr (w, o) ↦ elim (Bool-cases (is_leased u.status && w == worker)) [
      | inl y ↦ record {
        found = ground (arith, e, o, y);
        leased = ground (arith, e, o, y);
        owner = ground (arith, e, o, y, eq_iff w worker);
      }
      | inr n ↦ absurd (ground (arith, e, o, n))
    ]
  ]
]

-- A write that is not the owner's, or comes when the task is not leased, is refused.
abbrev pub IsForeign : String → Task → Type 0
IsForeign worker t = (t.status ≢ TaskStatus.leased) ⊎ (t.lease_owner ≢ some worker)

pub leased_by_foreign :
    (k : ℕ) (worker : String) (db : Db) (t : Task)
    → get_task k db ≡ some t
    → IsForeign worker t
    → leased_by k worker db ≡ err permission_error
unfolding leased_by
leased_by_foreign k worker db t e f = elim (Option-cases t.lease_owner) [
  | inl n ↦ ground (arith, e, n)
  | inr (w, o) ↦ ground (arith, e, o, eq_iff w worker)
]

-- How a renewal ends: within the deadline and under a live lease it extends the lease, and past the
-- deadline it gives the task back and ends the run.
pub data Renewal (t : Task) (duration now : ℕ) (by : String) (db : Db) (r : Run)
    (result : Bool × Task × Db) : Type 0 where
  extended :
      (e : ℕ)
      → now < r.deadline_at
      → t.lease_expires_at ≡ some e
      → now < e
      → result
        ≡ (true, record t { lease_expires_at = some (min (now + duration) r.deadline_at) }, db)
      → Renewal t duration now by db r result
  overdue :
      r.deadline_at ≤ now
      → result ≡ (
        false,
        record (unleased t) { status = TaskStatus.pending },
        put_task
            (record (unleased t) { status = TaskStatus.pending })
            (put_run (exhaust_run now by r) db),
      )
      → Renewal t duration now by db r result

renew_under-Renewal :
    (r : Run) (t : Task) (duration now : ℕ) (by : String) (db : Db) (result : Bool × Task × Db)
    → renew_under r t duration now by db ≡ ok result
    → (r.status ≡ RunStatus.running) × Renewal t duration now by db r result
unfolding renew_under
renew_under-Renewal r t duration now by db result h = elim (Bool-cases (leb r.deadline_at now)) [
  | inl late ↦ (ground (arith, late), Renewal.overdue (ground arith) (ground (arith, late)))
  | inr early ↦ elim (Option-cases t.lease_expires_at) [
    | inl n ↦ absurd (ground (arith, early, n))
    | inr (e, at) ↦ (
      ground (arith, early),
      Renewal.extended e (ground arith) at (ground (arith, early, at)) (ground (arith, early, at)),
    )
  ]
]

pub renew_owned_task-Renewal :
    (t : Task) (duration now : ℕ) (by : String) (db : Db) (result : Bool × Task × Db)
    → renew_owned_task t duration now by db ≡ ok result
    → (r : Run) × (get_run t.run_id db ≡ some r)
      × ((r.status ≡ RunStatus.running) × Renewal t duration now by db r result)
unfolding renew_owned_task
renew_owned_task-Renewal t duration now by db result h = elim (Option-cases (get_run t.run_id db)) [
  | inl e ↦ absurd (ground (arith, e))
  | inr (r, e) ↦ (r, e, renew_under-Renewal r t duration now by db result (ground (arith, e)))
]
