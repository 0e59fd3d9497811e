-- ===== src/Queue/Repository/Claim.antt =====
-- `enqueue`, `claim` and `_expire_overdue_runs`.
use Prim.Native.Nat.{min}
use gapforge.Common.{
  ℕ, ◌+◌, String, Bool, true, false, not, ◌&&◌, ◌||◌, Option, none, some, List, [], ◌∷◌, ◌++◌,
  integrity_error, runtime_error, Result, ok, err, ◌>>◌, raise_if, ltb, leb, ◌==◌, nat_eq,
  string_eq, if◌then◌else◌, is_some, any, find, map,
}
use gapforge.Common.Int.{ℤ, ltb_ℤ}
use gapforge.Json.{Fields, end, text, set_field}
use gapforge.Rows.{row, best}
use gapforge.Queue.Model.{
  RunStatus, TaskStatus, Run, Task, Db, run_key, get_run, put_task, is_running, is_pending,
  is_leased,
}

abbrev pub same_slot : ℕ → String → Task → Bool
same_slot run_id key t = t.run_id == run_id && t.idempotency_key == key

-- The row that `enqueue` builds; `id` is the fresh UUID, `created_at` the server's default.
abbrev pub new_task : ℕ → ℕ → String → String → Fields → ℤ → ℕ → ℕ → ℕ → Task
new_task id run_id task_type key payload priority max_attempts available_at created_at = record {
  id = id;
  run_id = run_id;
  task_type = task_type;
  status = TaskStatus.pending;
  priority = priority;
  idempotency_key = key;
  payload = payload;
  checkpoint = end;
  outcome = none;
  attempt_count = 0;
  max_attempts = max_attempts;
  retry_class = none;
  last_error = none;
  available_at = available_at;
  created_at = created_at;
  lease_owner = none;
  lease_expires_at = none;
  completed_at = none;
}

-- What the statement does with the row that holds the slot, if there is one.
unfoldable pub enqueue_slot : Option Task → Task → Db → Result (Task × Bool × Db)
enqueue_slot (some existing) task db = ok (existing, false, db)
enqueue_slot none task db = do
  raise_if (not (is_some (get_run task.run_id db))) integrity_error
  ok (task, true, record db { tasks = db.tasks ++ task ∷ [] })

-- `INSERT ... ON CONFLICT (run_id, idempotency_key) DO NOTHING`, then the row that is there. The
-- table refuses `max_attempts` below 1 and a run that does not exist.
unfoldable pub enqueue : Task → Db → Result (Task × Bool × Db)
unfolding enqueue_slot
enqueue task db = do
  raise_if (ltb task.max_attempts 1) integrity_error
  enqueue_slot (find (same_slot task.run_id task.idempotency_key) db.tasks) task db

-- What every write to `last_checkpoint` at a deadline keeps and sets.
abbrev pub deadline_checkpoint : String → Fields → Fields
deadline_checkpoint expired_by c =
    set_field "expired_by" (text expired_by) (set_field "reason" (text "deadline") c)

abbrev pub exhaust_run : ℕ → String → Run → Run
exhaust_run now expired_by r = record r {
  status = RunStatus.budget_exhausted;
  completed_at = some now;
  last_checkpoint = deadline_checkpoint expired_by r.last_checkpoint;
}

abbrev pub is_overdue : ℕ → Run → Bool
is_overdue now r = is_running r.status && leb r.deadline_at now

-- `_expire_overdue_runs`, on one run.
unfoldable pub expire_run : (ℕ → Bool) → ℕ → Run → Run
expire_run run_locked now r =
    if is_overdue now r && not (run_locked r.id) then exhaust_run now "queue_poll" r else r

unfoldable pub expire_overdue_runs : (ℕ → Bool) → ℕ → Db → Db
unfolding expire_run
expire_overdue_runs run_locked now db = record db { runs = map (expire_run run_locked now) db.runs }

-- The filter on the task type: `None` permits all.
abbrev pub type_allowed : Option (List String) → String → Bool
type_allowed none t = true
type_allowed (some types) t = any (λ x. x == t) types

abbrev pub expires_before : ℕ → Option ℕ → Bool
expires_before now none = false
expires_before now (some e) = ltb e now

-- The WHERE clause of `claim`, on a task joined to its run.
unfoldable pub is_claimable : Option (List String) → ℕ → Run → Task → Bool
is_claimable allowed now r t =
    is_running r.status
    && ltb now r.deadline_at
    && leb t.available_at now
    && type_allowed allowed t.task_type
    && (is_pending t.status || is_leased t.status && expires_before now t.lease_expires_at)

-- The joined rows that are claimable and that no other transaction holds.
unfoldable pub candidates :
    (ℕ → Bool) → Option (List String) → ℕ → List Run → List Task → List (Run × Task)
candidates task_locked allowed now runs [] = []
candidates task_locked allowed now runs (t ∷ ts) =
    let rest = candidates task_locked allowed now runs ts in
    elim (row run_key t.run_id runs) [
      | none ↦ rest
      | some r ↦
          if is_claimable allowed now r t && not (task_locked t.id) then (r, t) ∷ rest else rest
    ]

-- ORDER BY run priority, task priority, creation.
unfoldable pub claims_before : Run × Task → Run × Task → Bool
claims_before (r, t) (r', t') =
    ltb_ℤ r.priority r'.priority
    || not (ltb_ℤ r'.priority r.priority)
      && (ltb_ℤ t.priority t'.priority
          || not (ltb_ℤ t'.priority t.priority) && ltb t.created_at t'.created_at)

-- The row as `claim` leaves it.
abbrev pub leased_to : String → ℕ → Task → Task
leased_to worker_id expires_at t = record t {
  status = TaskStatus.leased;
  lease_owner = some worker_id;
  lease_expires_at = some expires_at;
  attempt_count = t.attempt_count + 1;
}

-- `allowed_task_types == frozenset()`
abbrev pub permits_nothing : Option (List String) → Bool
permits_nothing (some []) = true
permits_nothing _ = false

-- What `claim` does with the row that the query returned.
unfoldable pub lease_row : String → ℕ → ℕ → Option (Run × Task) → Db → Result (Option Task × Db)
lease_row worker_id lease_duration now none db = ok (none, db)
lease_row worker_id lease_duration now (some (_, t)) db = elim (get_run t.run_id db) [
  | none ↦ err runtime_error
  | some r ↦
      let t' = leased_to worker_id (min (now + lease_duration) r.deadline_at) t in
      ok (some t', put_task t' db)
]

-- The row that the query of `claim` returns.
abbrev pub next_row : (ℕ → Bool) → Option (List String) → ℕ → Db → Option (Run × Task)
next_row task_locked allowed now db =
    best claims_before (candidates task_locked allowed now db.runs db.tasks)

unfoldable pub claim :
    (ℕ → Bool) → (ℕ → Bool) → String → ℕ → ℕ → Option (List String) → Db → Result (Option Task × Db)
unfolding lease_row
claim run_locked task_locked worker_id lease_duration now allowed db =
    let expired = expire_overdue_runs run_locked now db in
    if permits_nothing allowed
    then ok (none, expired)
    else lease_row worker_id lease_duration now (next_row task_locked allowed now expired) expired
