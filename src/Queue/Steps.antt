-- ===== src/Queue/Steps.antt =====
-- Histories of the rows of the queue: one transaction after another, by whoever.
use gapforge.Common.{
  ℕ, ◌≡◌, inl, inr, refl, sym, ap, subst, String, Bool, Option, none, some, List, ok, arith,
}
use gapforge.Common.Int.{ℤ}
use gapforge.Json.{Json, Fields}
use gapforge.Stages.Reserve.{StageOutcome, staged, PipelineContext}
use gapforge.Stages.Commit.{
  StageWrite, staged_task, staged_run, IsLeased, commit_rows, Committed, unchanged, written,
  commit_rows-Committed,
}
use gapforge.Rows.{row, key-row, put, IsUnique}
use gapforge.Queue.Model.{
  TaskStatus, Run, Task, Journal, CallLease, Db, get_task, task_key, run_key,
}
use gapforge.Queue.Retry.{RetryDecision}
use gapforge.Queue.Repository.{enqueue, claim, checkpoint, renew_lease, succeed, fail}
use gapforge.Queue.Control.{Codec, start, finalize_if_idle, consume_budget, BudgetDecision}
use gapforge.Queue.ProviderCalls.{acquire, release}
use gapforge.Queue.Moves.{Keeps, Keeps-refl, Keeps-put, TaskMove, RunMove}
use gapforge.Queue.RunMoves.{
  RunsKeep, finalize_if_idle-RunsKeep, finalize_if_idle-Finalized, start-RunsKeep, start-Started,
  consume_budget-RunsKeep, consume_budget-Consumed,
}
use gapforge.Queue.TaskMoves.{
  Keep, enqueue-Keep, claim-Keep, checkpoint-Keep, renew_lease-Keep, succeed-Keep, fail-Keep,
}

-- A row as `enqueue` builds it.
pub record IsNew (t : Task) : Type 0 where
  pub waiting : t.status ≡ TaskStatus.pending
  pub unowned : t.lease_owner ≡ none
  pub unexpiring : t.lease_expires_at ≡ none
  pub untried : t.attempt_count ≡ 0

-- One committed transaction on the rows of the queue: of `DurableQueue` and `RunController`, of the
-- limiter of provider calls, of a pipeline stage, or of the reasoner on the leases of provider calls,
-- which may leave any leases. A task is enqueued under a fresh id.
pub data Step (db db' : Db) : Type 0 where
  enqueues :
      (t t' : Task) (fresh : Bool)
      → IsNew t
      → get_task t.id db ≡ none
      → enqueue t db ≡ ok (t', fresh, db')
      → Step db db'
  claims :
      (run_locked task_locked : ℕ → Bool) (worker : String) (duration now : ℕ)
      (allowed : Option (List String)) (o : Option Task)
      → claim run_locked task_locked worker duration now allowed db ≡ ok (o, db')
      → Step db db'
  checkpoints :
      (k : ℕ) (worker : String) (value : Fields) (duration now : ℕ) (t : Task)
      → checkpoint k worker value duration now db ≡ ok (t, db')
      → Step db db'
  renews :
      (k : ℕ) (worker : String) (duration now : ℕ) (o : Option Task)
      → renew_lease k worker duration now db ≡ ok (o, db')
      → Step db db'
  succeeds :
      (k : ℕ) (worker : String) (outcome : Fields) (useful : Bool) (warnings : List Json) (now : ℕ)
      (t : Task)
      → succeed k worker outcome useful warnings now db ≡ ok (t, db')
      → Step db db'
  fails :
      (k : ℕ) (worker : String) (decision : RetryDecision) (error : String) (now : ℕ) (t : Task)
      → fail k worker decision error now db ≡ ok (t, db')
      → Step db db'
  starts : (k now : ℕ) (r : Run) → start k now db ≡ ok (r, db') → Step db db'
  finalizes :
      (codec : Codec) (k now : ℕ) (r : Run)
      → finalize_if_idle codec k now db ≡ ok (r, db')
      → Step db db'
  consumes :
      (codec : Codec) (k : ℕ) (counter limit_key : String) (amount : ℤ) (now : ℕ)
      (terminalize : Bool) (d : BudgetDecision)
      → consume_budget codec k counter limit_key amount now terminalize db ≡ ok (d, db')
      → Step db db'
  acquires :
      (max_parallel id k : ℕ) (journal : Journal) (owner : String) (duration now : ℕ)
      (o : Option CallLease)
      → acquire max_parallel id k journal owner duration now db ≡ ok (o, db')
      → Step db db'
  releases : (id : ℕ) (owner : String) → release id owner db ≡ ok db' → Step db db'
  stages :
      (ctx : PipelineContext) (now : ℕ) (decide : Task → Run → StageOutcome (Option StageWrite))
      → commit_rows ctx now decide db ≡ staged db'
      → Step db db'
  settles : (ls : List CallLease) → db' ≡ record db { leases = ls } → Step db db'

pub data Reach (db : Db) : Db → Type 0 where
  here : Reach db db
  next : {db' db'' : Db} → Reach db db' → Step db' db'' → Reach db db''

abbrev tasks_of : Db → List Task
tasks_of db = db.tasks

-- Run control does not touch the tasks.
pub start_tasks :
    (k now : ℕ) (db db' : Db) (r : Run) → start k now db ≡ ok (r, db') → db'.tasks ≡ db.tasks
start_tasks k now db db' r h = let (_, s) = start-Started k now db db' r h in ap tasks_of s.stored

pub finalize_tasks :
    (codec : Codec) (k now : ℕ) (db db' : Db) (r : Run)
    → finalize_if_idle codec k now db ≡ ok (r, db')
    → db'.tasks ≡ db.tasks
finalize_tasks codec k now db db' r h =
    let (q, f) = finalize_if_idle-Finalized codec k now db db' r h in
    elim f.how [ inl (_, _, same) ↦ ap tasks_of same | inr (_, _, put) ↦ ap tasks_of put ]

pub acquire_rows :
    (max_parallel id k : ℕ) (journal : Journal) (owner : String) (duration now : ℕ) (db db' : Db)
    (o : Option CallLease)
    → acquire max_parallel id k journal owner duration now db ≡ ok (o, db')
    → (db'.tasks ≡ db.tasks) × (db'.runs ≡ db.runs)
unfolding acquire
acquire_rows max_parallel id k journal owner duration now db db' o h = ground arith

pub release_rows :
    (id : ℕ) (owner : String) (db db' : Db)
    → release id owner db ≡ ok db'
    → (db'.tasks ≡ db.tasks) × (db'.runs ≡ db.runs)
unfolding release
release_rows id owner db db' h = ground arith

pub consume_tasks :
    (codec : Codec) (k : ℕ) (counter limit_key : String) (amount : ℤ) (now : ℕ) (terminalize : Bool)
    (db db' : Db) (d : BudgetDecision)
    → consume_budget codec k counter limit_key amount now terminalize db ≡ ok (d, db')
    → db'.tasks ≡ db.tasks
consume_tasks codec k counter limit_key amount now terminalize db db' d h =
    let (_, _, _, c) =
      consume_budget-Consumed codec k counter limit_key amount now terminalize db db' d h in
    ap tasks_of c.stored

Keep-same_tasks : (db db' : Db) → db'.tasks ≡ db.tasks → RunsKeep db db' → Keep db db'
Keep-same_tasks db db' e runs =
    (subst (Keeps task_key TaskMove db.tasks) (sym e) (Keeps-refl task_key TaskMove db.tasks), runs)

Keep-same_rows : (db db' : Db) → (db'.tasks ≡ db.tasks) × (db'.runs ≡ db.runs) → Keep db db'
Keep-same_rows db db' (e, f) =
    Keep-same_tasks db db' e
      (subst (Keeps run_key RunMove db.runs) (sym f) (Keeps-refl run_key RunMove db.runs))

-- A pipeline stage writes to a leased task and to a running run.
stages-Keep :
    (now task_id run_id : ℕ) (db db' : Db) → Committed now task_id run_id db db' → Keep db db'
stages-Keep now task_id run_id db _ unchanged =
    (Keeps-refl task_key TaskMove db.tasks, Keeps-refl run_key RunMove db.runs)
stages-Keep now task_id run_id db _ (written t r w task run l) = (
  Keeps-put task_key TaskMove db.tasks t (staged_task w t)
      (subst (λ i. row task_key i db.tasks ≡ some t)
        (sym (key-row task_key task_id db.tasks t task)) task)
      (inr (moved_task l)),
  Keeps-put run_key RunMove db.runs r (staged_run w r)
      (subst (λ i. row run_key i db.runs ≡ some r) (sym (key-row run_key run_id db.runs r run)) run)
      (inr (moved_run l)),
)
  where
    moved_task : IsLeased now t r → TaskMove t (staged_task w t)
    moved_task l = ground (arith, l.leased, l.owned, l.expiring)

    moved_run : IsLeased now t r → RunMove r (staged_run w r)
    moved_run l = ground (arith, l.active)

-- The queue keeps to its state machines: whatever transaction is committed, every task and every run
-- is still there, and it is as it was or has made one legal move of its diagram.
pub Step-Keep : (db db' : Db) → IsUnique task_key db.tasks → Step db db' → Keep db db'
Step-Keep db db' u (enqueues t t' fresh _ _ h) = enqueue-Keep t t' fresh db db' h
Step-Keep db db' u (claims run_locked task_locked worker duration now allowed o h) =
    claim-Keep run_locked task_locked worker duration now allowed db db' o u h
Step-Keep db db' u (checkpoints k worker value duration now t h) =
    checkpoint-Keep k worker value duration now db db' t h
Step-Keep db db' u (renews k worker duration now o h) =
    renew_lease-Keep k worker duration now db db' o h
Step-Keep db db' u (succeeds k worker outcome useful warnings now t h) =
    succeed-Keep k worker outcome useful warnings now db db' t h
Step-Keep db db' u (fails k worker decision error now t h) =
    fail-Keep k worker decision error now db db' t h
Step-Keep db db' u (starts k now r h) =
    Keep-same_tasks db db' (start_tasks k now db db' r h) (start-RunsKeep k now db db' r h)
Step-Keep db db' u (finalizes codec k now r h) =
    Keep-same_tasks db db' (finalize_tasks codec k now db db' r h)
      (finalize_if_idle-RunsKeep codec k now db db' r h)
Step-Keep db db' u (consumes codec k counter limit_key amount now terminalize d h) =
    Keep-same_tasks db db'
      (consume_tasks codec k counter limit_key amount now terminalize db db' d h)
      (consume_budget-RunsKeep codec k counter limit_key amount now terminalize db db' d h)
Step-Keep db db' u (acquires m id k journal owner duration now o h) =
    Keep-same_rows db db' (acquire_rows m id k journal owner duration now db db' o h)
Step-Keep db db' u (releases id owner h) = Keep-same_rows db db' (release_rows id owner db db' h)
Step-Keep db db' u (stages ctx now decide h) =
    stages-Keep now ctx.task_id ctx.run_id db db' (commit_rows-Committed ctx now decide db db' h)
Step-Keep db db' u (settles ls is) = Keep-same_rows db db' (rw is (refl, refl))
