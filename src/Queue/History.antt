-- ===== src/Queue/History.antt =====
-- What no history of the queue can break.
use gapforge.Common.{ℕ, ◌≡◌, ◌⊎◌, inl, inr, ap, ◌∙◌, true, some, arith}
use gapforge.Rows.{IsUnique}
use gapforge.Queue.Model.{Run, Task, Db, get_run, get_task, task_key}
use gapforge.Queue.Moves.{TaskMove, RunMove, is_terminal_task, is_terminal_run}
use gapforge.Queue.Steps.{Reach, here, next, Step-Keep}
use gapforge.Queue.Keys.{Reach-IsUnique}

terminal_task_unmoved :
    (t t' : Task) → is_terminal_task t.status ≡ true → (t' ≡ t) ⊎ TaskMove t t' → t' ≡ t
terminal_task_unmoved t t' h (inl same) = same
terminal_task_unmoved t t' h (inr move) = absurd (ground (arith, move.edge))

terminal_run_unmoved :
    (r r' : Run) → is_terminal_run r.status ≡ true → (r' ≡ r) ⊎ RunMove r r' → r' ≡ r
terminal_run_unmoved r r' h (inl same) = same
terminal_run_unmoved r r' h (inr move) = absurd (ground (arith, move.edge))

-- In tables whose tasks have different primary keys, a task that has succeeded, failed or been
-- cancelled stays as it is, its result and completion time included, through every later history of
-- the queue, the run controller, the call limiter, the pipeline stages and the reasoner.
pub terminal_task_stays :
    (k : ℕ) (t : Task) (db db' : Db)
    → IsUnique task_key db.tasks
    → get_task k db ≡ some t
    → is_terminal_task t.status ≡ true
    → Reach db db'
    → get_task k db' ≡ some t
terminal_task_stays k t db db' u found h here = found
terminal_task_stays k t db db' u found h (next {db' = mid} reach step) =
    let (t', found', how) =
      (Step-Keep mid db' (Reach-IsUnique db mid u reach) step).0 k t
        (terminal_task_stays k t db mid u found h reach) in
    found' ∙ ap some (terminal_task_unmoved t t' h how)

-- In tables whose tasks have different primary keys, a run that has ended stays as it is through
-- every later history of the queue, the run controller, the call limiter, the pipeline stages and the
-- reasoner.
pub terminal_run_stays :
    (k : ℕ) (r : Run) (db db' : Db)
    → IsUnique task_key db.tasks
    → get_run k db ≡ some r
    → is_terminal_run r.status ≡ true
    → Reach db db'
    → get_run k db' ≡ some r
terminal_run_stays k r db db' u found h here = found
terminal_run_stays k r db db' u found h (next {db' = mid} reach step) =
    let (r', found', how) =
      (Step-Keep mid db' (Reach-IsUnique db mid u reach) step).1 k r
        (terminal_run_stays k r db mid u found h reach) in
    found' ∙ ap some (terminal_run_unmoved r r' h how)
