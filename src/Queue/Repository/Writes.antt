-- ===== src/Queue/Repository/Writes.antt =====
-- `checkpoint`, `renew_lease`, `succeed` and `fail`: what the owner of a lease may write.
use Prim.Native.Nat.{min}
use gapforge.Common.{
  ℕ, ◌+◌, ◌*◌, ◌/◌, String, Bool, true, false, not, ◌&&◌, Option, none, some, List, [], ◌∷◌,
  lookup_error, permission_error, runtime_error, Result, ok, err, ◌>>=◌, ltb, leb, ◌==◌, string_eq,
  if◌then◌else◌,
}
use gapforge.Json.{
  Json, Items, nil, cons, Fields, end, object, boolean, array, get_field, set_field,
}
use gapforge.Queue.Model.{
  TaskStatus, Run, Task, Db, get_run, get_task, put_run, put_task, is_running, is_leased,
}
use gapforge.Queue.Retry.{RetryDecision}
use gapforge.Queue.Repository.Claim.{exhaust_run}

abbrev pub owned_by : String → Option String → Bool
owned_by worker_id none = false
owned_by worker_id (some w) = w == worker_id

unfoldable pub leased_by : ℕ → String → Db → Result Task
leased_by task_id worker_id db = elim (get_task task_id db) [
  | none ↦ err lookup_error
  | some t ↦
      if is_leased t.status && owned_by worker_id t.lease_owner then ok t else err permission_error
]

-- `lease_expires_at is None or lease_expires_at <= now`
abbrev pub lease_over : ℕ → Option ℕ → Bool
lease_over now none = true
lease_over now (some e) = leb e now

abbrev pub unleased : Task → Task
unleased t = record t { lease_owner = none; lease_expires_at = none }

-- `_renew_owned_task` under the locked run, on the task object as the caller has changed it: whether
-- the lease was renewed, with the object and the tables after it. The object is flushed by the
-- caller when the lease was renewed, and here when the run is past its deadline.
unfoldable pub renew_under : Run → Task → ℕ → ℕ → String → Db → Result (Bool × Task × Db)
renew_under r t lease_duration now expired_by db =
    if not (is_running r.status)
    then err permission_error
    else if leb r.deadline_at now
    then (let t' = record (unleased t) { status = TaskStatus.pending } in
        ok (false, t', put_task t' (put_run (exhaust_run now expired_by r) db)))
    else if lease_over now t.lease_expires_at
    then err permission_error
    else ok
        (true, record t { lease_expires_at = some (min (now + lease_duration) r.deadline_at) }, db)

unfoldable pub renew_owned_task : Task → ℕ → ℕ → String → Db → Result (Bool × Task × Db)
unfolding renew_under
renew_owned_task t lease_duration now expired_by db = elim (get_run t.run_id db) [
  | none ↦ err runtime_error
  | some r ↦ renew_under r t lease_duration now expired_by db
]

unfoldable pub checkpoint : ℕ → String → Fields → ℕ → ℕ → Db → Result (Task × Db)
unfolding leased_by renew_owned_task
checkpoint task_id worker_id value lease_duration now db = do
  t ← leased_by task_id worker_id db
  (renewed, t', db') ←
      renew_owned_task (record t { checkpoint = value }) lease_duration now "task_checkpoint" db
  ok (if renewed then (t', put_task t' db') else (t', db'))

unfoldable pub renew_lease : ℕ → String → ℕ → ℕ → Db → Result (Option Task × Db)
unfolding leased_by renew_owned_task
renew_lease task_id worker_id lease_duration now db = do
  t ← leased_by task_id worker_id db
  (renewed, t', db') ← renew_owned_task t lease_duration now "worker_heartbeat" db
  ok (if renewed then (some t', put_task t' db') else (none, db'))

-- `task.checkpoint.get("runtime")` where it is a dict, and otherwise the empty one.
abbrev pub runtime_of : Option Json → Fields
runtime_of (some (object fs)) = fs
runtime_of _ = end

abbrev pub to_items : List Json → Items
to_items [] = nil
to_items (x ∷ xs) = cons x (to_items xs)

-- An empty list of warnings is left out.
abbrev pub with_warnings : List Json → Fields → Fields
with_warnings [] fs = fs
with_warnings (w ∷ ws) fs = set_field "warnings" (array (to_items (w ∷ ws))) fs

unfoldable pub success_checkpoint : Bool → List Json → Fields → Fields
success_checkpoint useful warnings c =
    let runtime =
      set_field "useful_artifact" (boolean useful) (runtime_of (get_field "runtime" c)) in
    set_field "runtime" (object (with_warnings warnings runtime)) c

abbrev pub succeeded_task : Fields → Bool → List Json → ℕ → Task → Task
succeeded_task outcome useful warnings now t = record (unleased t) {
  status = TaskStatus.succeeded;
  outcome = some outcome;
  checkpoint = success_checkpoint useful warnings t.checkpoint;
  completed_at = some now;
}

unfoldable pub succeed : ℕ → String → Fields → Bool → List Json → ℕ → Db → Result (Task × Db)
unfolding leased_by renew_owned_task
succeed task_id worker_id outcome useful warnings now db = do
  t ← leased_by task_id worker_id db
  (allowed, t', db') ← renew_owned_task t 0 now "task_completion" db
  let done = succeeded_task outcome useful warnings now t'
  ok (if allowed then (done, put_task done db') else (t', db'))

-- A retry delay in microseconds, to the nearest, as `timedelta` rounds it.
abbrev pub delay_microseconds : ℕ → ℕ
delay_microseconds ticks = (ticks * 2000000 + 262140) / 524280

unfoldable pub failed_task : RetryDecision → String → ℕ → Task → Task
failed_task decision sanitized_error now t =
    let noted = record (unleased t) {
      retry_class = some decision.kind;
      last_error = some sanitized_error;
    } in
    if decision.retryable && ltb t.attempt_count t.max_attempts
    then record noted {
      status = TaskStatus.pending;
      available_at = now + delay_microseconds decision.delay;
    }
    else record noted { status = TaskStatus.failed; completed_at = some now }

unfoldable pub fail : ℕ → String → RetryDecision → String → ℕ → Db → Result (Task × Db)
unfolding leased_by renew_owned_task failed_task
fail task_id worker_id decision sanitized_error now db = do
  t ← leased_by task_id worker_id db
  (allowed, t', db') ← renew_owned_task t 0 now "task_failure" db
  let done = failed_task decision sanitized_error now t'
  ok (if allowed then (done, put_task done db') else (t', db'))
