-- ===== src/Stages/Commit.antt =====
-- `commit_stage`, as far as the rows of the queue go: the locks, the check of the lease, and the one
-- write. What a stage writes there, and whether it was committed before, is a parameter: the code
-- that decides it reads tables that are not modelled.
use gapforge.Common.{ℕ, ◌<◌, ◌≡◌, subst, true, Option, none, some, arith, is_some}
use gapforge.Json.{Fields}
use gapforge.Queue.Model.{
  RunStatus, TaskStatus, Run, Task, Db, get_run, get_task, put_run, put_task,
}
use gapforge.Stages.Reserve.{
  StageOutcome, staged, ◌onward◌, onward-eq-staged, PipelineContext, assert_stage_lease,
  locked_rows,
}
use gapforge.Stages.Reserved.{locked_rows-staged}

-- The columns that a stage writes.
pub record StageWrite : Type 0 where
  pub checkpoint : Fields
  pub budget_used : Fields
  pub last_checkpoint : Fields

abbrev pub staged_task : StageWrite → Task → Task
staged_task w t = record t { checkpoint = w.checkpoint }

abbrev pub staged_run : StageWrite → Run → Run
staged_run w r = record r { budget_used = w.budget_used; last_checkpoint = w.last_checkpoint }

-- A stage that was committed before is rolled back, which is `none` here.
abbrev pub write_stage : Task → Run → Db → Option StageWrite → Db
write_stage t r db none = db
write_stage t r db (some w) = put_task (staged_task w t) (put_run (staged_run w r) db)

unfoldable pub commit_rows :
    PipelineContext → ℕ → (Task → Run → StageOutcome (Option StageWrite)) → Db → StageOutcome Db
unfolding locked_rows assert_stage_lease
commit_rows ctx now decide db = locked_rows ctx db onward λ (t, r).
    assert_stage_lease ctx now t r onward λ _. decide t r onward λ o. staged (write_stage t r db o)

-- What the check of the lease has seen.
pub record IsLeased (now : ℕ) (t : Task) (r : Run) : Type 0 where
  pub leased : t.status ≡ TaskStatus.leased
  pub owned : is_some t.lease_owner ≡ true
  pub expiring : is_some t.lease_expires_at ≡ true
  pub active : r.status ≡ RunStatus.running
  pub early : now < r.deadline_at

pub assert_stage_lease-IsLeased :
    (ctx : PipelineContext) (now : ℕ) (t : Task) (r : Run)
    → assert_stage_lease ctx now t r ≡ staged tt
    → IsLeased now t r
unfolding assert_stage_lease
assert_stage_lease-IsLeased ctx now t r h = record {
  leased = ground (arith, h);
  owned = ground (arith, h);
  expiring = ground (arith, h);
  active = ground (arith, h);
  early = ground (arith, h);
}

-- How a committed stage leaves the tables: as they were, or with its columns written to a task that
-- is leased and to its run, which is running.
pub data Committed (now : ℕ) (task_id run_id : ℕ) (db : Db) : Db → Type 0 where
  unchanged : Committed now task_id run_id db db
  written :
      (t : Task) (r : Run) (w : StageWrite)
      → get_task task_id db ≡ some t
      → get_run run_id db ≡ some r
      → IsLeased now t r
      → Committed now task_id run_id db (put_task (staged_task w t) (put_run (staged_run w r) db))

pub commit_rows-Committed :
    (ctx : PipelineContext) (now : ℕ) (decide : Task → Run → StageOutcome (Option StageWrite))
    (db db' : Db)
    → commit_rows ctx now decide db ≡ staged db'
    → Committed now ctx.task_id ctx.run_id db db'
unfolding commit_rows
commit_rows-Committed ctx now decide db db' h =
    let ((t, r), locked, h₁) = onward-eq-staged (locked_rows ctx db) _ db' h in
    let (u, leased, h₂) = onward-eq-staged (assert_stage_lease ctx now t r) _ db' h₁ in
    let (o, _, h₃) = onward-eq-staged (decide t r) _ db' h₂ in
    let (task, run) = locked_rows-staged ctx db t r locked in
    left t r task run (assert_stage_lease-IsLeased ctx now t r leased) o h₃
  where
    left :
        (t : Task) (r : Run)
        → get_task ctx.task_id db ≡ some t
        → get_run ctx.run_id db ≡ some r
        → IsLeased now t r
        → (o : Option StageWrite)
        → ◌≡◌ {A = StageOutcome Db} (staged (write_stage t r db o)) (staged db')
        → Committed now ctx.task_id ctx.run_id db db'
    left t r task run l none e =
        let is : db ≡ db' = ground (arith, e) in
        subst (Committed now ctx.task_id ctx.run_id db) is unchanged
    left t r task run l (some w) e =
        let is : write_stage t r db (some w) ≡ db' = ground (arith, e) in
        subst (Committed now ctx.task_id ctx.run_id db) is (written t r w task run l)
