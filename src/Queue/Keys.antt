-- ===== src/Queue/Keys.antt =====
-- The primary keys of the tasks stay distinct through every history of the queue.
use gapforge.Common.{
  ℕ, ◌≡◌, ◌⊎◌, inl, inr, sym, subst, String, Bool, Option, none, some, List, [], ◌∷◌, ◌++◌, Exn, ok,
  raise_if-eq-ok, ltb, arith, find,
}
use gapforge.Stages.Commit.{staged_task, Committed, unchanged, written, commit_rows-Committed}
use gapforge.Rows.{IsUnique, put-IsUnique, append-IsUnique}
use gapforge.Queue.Model.{Run, Task, Db, task_key}
use gapforge.Queue.Repository.{enqueue_slot, enqueue, claim, same_slot, expire_overdue_runs}
use gapforge.Queue.Writing.{succeed-Wrote, fail-Wrote, checkpoint_effect, renew_lease_effect}
use gapforge.Queue.Written.{Wrote, committed, given_up}
use gapforge.Queue.Claiming.{claim-none, claim-some}
use gapforge.Queue.Steps.{
  Step, Reach, enqueues, claims, checkpoints, renews, succeeds, fails, starts, finalizes, consumes,
  acquires, releases, stages, settles, here, next, start_tasks, finalize_tasks, consume_tasks,
  acquire_rows, release_rows,
}

stages-IsUnique :
    (now task_id run_id : ℕ) (db db' : Db)
    → IsUnique task_key db.tasks
    → Committed now task_id run_id db db'
    → IsUnique task_key db'.tasks
stages-IsUnique now task_id run_id db _ u unchanged = u
stages-IsUnique now task_id run_id db _ u (written t r w _ _ _) =
    put-IsUnique task_key (staged_task w t) db.tasks u

Wrote-IsUnique :
    (k : ℕ) (worker : String) (now : ℕ) (by : String) (db db' : Db) (new : Task → Run → Task)
    (back : Task → Task)
    → IsUnique task_key db.tasks
    → Wrote k worker now by db new back db'
    → IsUnique task_key db'.tasks
Wrote-IsUnique k worker now by db db' new back u (t, r, _, committed _ _ _ _ is) =
    subst (λ (x : Db). IsUnique task_key x.tasks) (sym is)
      (put-IsUnique task_key (new t r) db.tasks u)
Wrote-IsUnique k worker now by db db' new back u (t, r, _, given_up _ is) =
    subst (λ (x : Db). IsUnique task_key x.tasks) (sym is)
      (put-IsUnique task_key (back t) db.tasks u)

claim-IsUnique :
    (run_locked task_locked : ℕ → Bool) (worker : String) (duration now : ℕ)
    (allowed : Option (List String)) (db db' : Db) (o : Option Task)
    → IsUnique task_key db.tasks
    → claim run_locked task_locked worker duration now allowed db ≡ ok (o, db')
    → IsUnique task_key db'.tasks
unfolding expire_overdue_runs
claim-IsUnique run_locked task_locked worker duration now allowed db db' none u h =
    subst (λ (x : Db). IsUnique task_key x.tasks)
      (sym (claim-none run_locked task_locked worker duration now allowed db db' h)) u
claim-IsUnique run_locked task_locked worker duration now allowed db db' (some t) u h =
    subst (λ (x : Db). IsUnique task_key x.tasks)
      (sym (claim-some run_locked task_locked worker duration now allowed db db' t h))
      (put-IsUnique task_key t db.tasks u)

enqueue_slot-tasks :
    (o : Option Task) (t t' : Task) (fresh : Bool) (db db' : Db)
    → enqueue_slot o t db ≡ ok (t', fresh, db')
    → (db'.tasks ≡ db.tasks) ⊎ (db'.tasks ≡ db.tasks ++ t ∷ [])
unfolding enqueue_slot
enqueue_slot-tasks (some existing) t t' fresh db db' h = inl (ground arith)
enqueue_slot-tasks none t t' fresh db db' h = inr (ground arith)

pub enqueue-tasks :
    (t t' : Task) (fresh : Bool) (db db' : Db)
    → enqueue t db ≡ ok (t', fresh, db')
    → (db'.tasks ≡ db.tasks) ⊎ (db'.tasks ≡ db.tasks ++ t ∷ [])
unfolding enqueue
enqueue-tasks t t' fresh db db' h =
    let (_, rest) =
      raise_if-eq-ok (ltb t.max_attempts 1) Exn.integrity_error _ (t', fresh, db') h in
    enqueue_slot-tasks (find (same_slot t.run_id t.idempotency_key) db.tasks) t t' fresh db db' rest

enqueue_slot-runs :
    (o : Option Task) (t t' : Task) (fresh : Bool) (db db' : Db)
    → enqueue_slot o t db ≡ ok (t', fresh, db')
    → db'.runs ≡ db.runs
unfolding enqueue_slot
enqueue_slot-runs (some existing) t t' fresh db db' h = ground arith
enqueue_slot-runs none t t' fresh db db' h = ground arith

pub enqueue-runs :
    (t t' : Task) (fresh : Bool) (db db' : Db)
    → enqueue t db ≡ ok (t', fresh, db')
    → db'.runs ≡ db.runs
unfolding enqueue
enqueue-runs t t' fresh db db' h =
    let (_, rest) =
      raise_if-eq-ok (ltb t.max_attempts 1) Exn.integrity_error _ (t', fresh, db') h in
    enqueue_slot-runs (find (same_slot t.run_id t.idempotency_key) db.tasks) t t' fresh db db' rest

-- Primary keys stay distinct.
pub Step-IsUnique :
    (db db' : Db) → IsUnique task_key db.tasks → Step db db' → IsUnique task_key db'.tasks
Step-IsUnique db db' u (enqueues t t' fresh _ new h) = elim (enqueue-tasks t t' fresh db db' h) [
  | inl same ↦ subst (IsUnique task_key) (sym same) u
  | inr more ↦ subst (IsUnique task_key) (sym more) (append-IsUnique task_key t db.tasks u new)
]
Step-IsUnique db db' u (claims run_locked task_locked worker duration now allowed o h) =
    claim-IsUnique run_locked task_locked worker duration now allowed db db' o u h
Step-IsUnique db db' u (checkpoints k worker value duration now t h) =
    Wrote-IsUnique k worker now "task_checkpoint" db db' _ _ u
      (checkpoint_effect k worker value duration now db db' t h)
Step-IsUnique db db' u (renews k worker duration now o h) =
    Wrote-IsUnique k worker now "worker_heartbeat" db db' _ _ u
      (renew_lease_effect k worker duration now db db' o h)
Step-IsUnique db db' u (succeeds k worker outcome useful warnings now t h) =
    Wrote-IsUnique k worker now "task_completion" db db' _ _ u
      (succeed-Wrote k worker outcome useful warnings now db db' t h)
Step-IsUnique db db' u (fails k worker decision error now t h) =
    Wrote-IsUnique k worker now "task_failure" db db' _ _ u
      (fail-Wrote k worker decision error now db db' t h)
Step-IsUnique db db' u (starts k now r h) =
    subst (IsUnique task_key) (sym (start_tasks k now db db' r h)) u
Step-IsUnique db db' u (finalizes codec k now r h) =
    subst (IsUnique task_key) (sym (finalize_tasks codec k now db db' r h)) u
Step-IsUnique db db' u (consumes codec k counter limit_key amount now terminalize d h) =
    subst (IsUnique task_key)
      (sym (consume_tasks codec k counter limit_key amount now terminalize db db' d h)) u
Step-IsUnique db db' u (acquires m id k journal owner duration now o h) =
    subst (IsUnique task_key) (sym (acquire_rows m id k journal owner duration now db db' o h).0) u
Step-IsUnique db db' u (releases id owner h) =
    subst (IsUnique task_key) (sym (release_rows id owner db db' h).0) u
Step-IsUnique db db' u (stages ctx now decide h) =
    stages-IsUnique now ctx.task_id ctx.run_id db db' u
      (commit_rows-Committed ctx now decide db db' h)
Step-IsUnique db db' u (settles ls is) = subst (λ (x : Db). IsUnique task_key x.tasks) (sym is) u

pub Reach-IsUnique :
    (db db' : Db) → IsUnique task_key db.tasks → Reach db db' → IsUnique task_key db'.tasks
Reach-IsUnique db db' u here = u
Reach-IsUnique db db' u (next {db' = mid} reach step) =
    Step-IsUnique mid db' (Reach-IsUnique db mid u reach) step
