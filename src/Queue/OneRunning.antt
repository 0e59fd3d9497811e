-- ===== src/Queue/OneRunning.antt =====
-- At most one run is running, whatever is committed.
use gapforge.Common.{
  ℕ, ◌+◌, ◌≤◌, ◌≡◌, inl, inr, refl, sym, ap, subst, ◌∙◌, String, Bool, Option, none, some, List, ok,
  arith, bit,
}
use gapforge.Rows.{put, count_if-put, key-row}
use gapforge.Queue.Model.{RunStatus, Run, Task, Db, get_run, put_run, run_key, is_running}
use gapforge.Queue.Repository.{claim, exhaust_run, expire_overdue_runs}
use gapforge.Queue.Control.{Codec, finalize_if_idle, count_running, run_tasks, spend}
use gapforge.Queue.Expiry.{count-expire}
use gapforge.Queue.RunMoves.{
  start-Started, finalize_if_idle-Finalized, consume_budget-Consumed, close_run-Moved, spend-Moved,
  Moved,
}
use gapforge.Queue.Writing.{succeed-Wrote, fail-Wrote, checkpoint_effect, renew_lease_effect}
use gapforge.Queue.Written.{Wrote, committed, given_up}
use gapforge.Queue.Claiming.{claim-none, claim-some}
use gapforge.Stages.Commit.{staged_run, Committed, unchanged, written, commit_rows-Committed}
use gapforge.Queue.Steps.{
  stages, settles, Step, enqueues, claims, checkpoints, renews, succeeds, fails, starts, finalizes,
  consumes, acquires, releases, Reach, here, next, acquire_rows, release_rows,
}
use gapforge.Queue.Keys.{enqueue-runs}

-- A row that replaces a running one adds no running run.
put_running :
    (db : Db) (r r' : Run)
    → get_run r'.id db ≡ some r
    → r.status ≡ RunStatus.running
    → count_running (put_run r' db).runs ≤ count_running db.runs
put_running db r r' found active =
    counts (is_running r'.status)
      (count_if-put run_key (λ (x : Run). is_running x.status) r' db.runs r found)
  where
    counts :
        (b : Bool)
        → count_running (put_run r' db).runs + bit (is_running r.status)
          ≡ count_running db.runs + bit b
        → count_running (put_run r' db).runs ≤ count_running db.runs
    counts b e = ground (arith, e)

moved_found :
    (k : ℕ) (db : Db) (r r' : Run)
    → get_run k db ≡ some r
    → r'.id ≡ r.id
    → get_run r'.id db ≡ some r
moved_found k db r r' e same =
    subst (λ i. get_run i db ≡ some r) (sym (same ∙ key-row run_key k db.runs r e)) e

same_id : (r r' : Run) → Moved r r' → r'.id ≡ r.id
same_id r r' (inl e) = ap run_key e
same_id r r' (inr m) = m.same_id

abbrev Fewer : Db → Db → Type 0
Fewer db db' = count_running db'.runs ≤ count_running db.runs

Wrote-Fewer :
    (k : ℕ) (worker : String) (now : ℕ) (by : String) (db db' : Db) (new : Task → Run → Task)
    (back : Task → Task)
    → Wrote k worker now by db new back db'
    → Fewer db db'
Wrote-Fewer k worker now by db db' new back (t, r, w, committed _ _ _ _ is) =
    subst (Fewer db) (sym is) (omega arith)
Wrote-Fewer k worker now by db db' new back (t, r, w, given_up _ is) = subst (Fewer db) (sym is) (
    put_running db r (exhaust_run now by r)
      (moved_found t.run_id db r (exhaust_run now by r) w.belongs refl) w.active)

claim-Fewer :
    (run_locked task_locked : ℕ → Bool) (worker : String) (duration now : ℕ)
    (allowed : Option (List String)) (db db' : Db) (o : Option Task)
    → claim run_locked task_locked worker duration now allowed db ≡ ok (o, db')
    → Fewer db db'
unfolding expire_overdue_runs
claim-Fewer run_locked task_locked worker duration now allowed db db' none h =
    subst (Fewer db) (sym (claim-none run_locked task_locked worker duration now allowed db db' h))
      (count-expire run_locked now db.runs)
claim-Fewer run_locked task_locked worker duration now allowed db db' (some t) h =
    subst (Fewer db)
      (sym (claim-some run_locked task_locked worker duration now allowed db db' t h))
      (count-expire run_locked now db.runs)

pub finalize-Fewer :
    (codec : Codec) (k now : ℕ) (db db' : Db) (r' : Run)
    → finalize_if_idle codec k now db ≡ ok (r', db')
    → Fewer db db'
finalize-Fewer codec k now db db' r' h =
    let (r, f) = finalize_if_idle-Finalized codec k now db db' r' h in
    elim f.how [
      | inl (_, _, same) ↦ subst (Fewer db) (sym same) (omega arith)
      | inr (s, closed, put) ↦
          let m = close_run-Moved codec (run_tasks k db.tasks) now r r' s closed in
          subst (Fewer db) (sym put)
            (put_running db r r' (moved_found k db r r' f.found (same_id r r' m)) s)
    ]

stages-Fewer :
    (now task_id run_id : ℕ) (db db' : Db) → Committed now task_id run_id db db' → Fewer db db'
stages-Fewer now task_id run_id db _ unchanged = omega arith
stages-Fewer now task_id run_id db _ (written t r w _ run l) =
    put_running db r (staged_run w r) (moved_found run_id db r (staged_run w r) run refl) l.active

pub Step-single :
    (db db' : Db) → count_running db.runs ≤ 1 → Step db db' → count_running db'.runs ≤ 1
Step-single db db' s (enqueues t t' fresh _ _ h) =
    subst (λ rs. count_running rs ≤ 1) (sym (enqueue-runs t t' fresh db db' h)) s
Step-single db db' s (claims run_locked task_locked worker duration now allowed o h) =
    omega (arith, claim-Fewer run_locked task_locked worker duration now allowed db db' o h)
Step-single db db' s (checkpoints k worker value duration now t h) = omega (
  arith,
  Wrote-Fewer k worker now "task_checkpoint" db db' _ _
      (checkpoint_effect k worker value duration now db db' t h),
)
Step-single db db' s (renews k worker duration now o h) = omega (
  arith,
  Wrote-Fewer k worker now "worker_heartbeat" db db' _ _
      (renew_lease_effect k worker duration now db db' o h),
)
Step-single db db' s (succeeds k worker outcome useful warnings now t h) = omega (
  arith,
  Wrote-Fewer k worker now "task_completion" db db' _ _
      (succeed-Wrote k worker outcome useful warnings now db db' t h),
)
Step-single db db' s (fails k worker decision error now t h) = omega (
  arith,
  Wrote-Fewer k worker now "task_failure" db db' _ _
      (fail-Wrote k worker decision error now db db' t h),
)
Step-single db db' s (starts k now r h) = (start-Started k now db db' r h).1.single
Step-single db db' s (finalizes codec k now r h) =
    omega (arith, finalize-Fewer codec k now db db' r h)
Step-single db db' s (consumes codec k counter limit_key amount now terminalize d h) =
    let (r, limit, used, c) =
      consume_budget-Consumed codec k counter limit_key amount now terminalize db db' d h in
    let m = spend-Moved terminalize counter amount used limit now r c.active in
    let r' = (spend terminalize counter amount used limit now r).1 in
    let few : Fewer db db' =
      subst (Fewer db) (sym c.stored)
        (put_running db r r' (moved_found k db r r' c.found (same_id r r' m)) c.active) in
    omega (arith, few)
Step-single db db' s (acquires m id k journal owner duration now o h) =
    subst (λ rs. count_running rs ≤ 1)
      (sym (acquire_rows m id k journal owner duration now db db' o h).1) s
Step-single db db' s (releases id owner h) =
    subst (λ rs. count_running rs ≤ 1) (sym (release_rows id owner db db' h).1) s
Step-single db db' s (stages ctx now decide h) = omega (
  arith,
  stages-Fewer now ctx.task_id ctx.run_id db db' (commit_rows-Committed ctx now decide db db' h),
)
Step-single db db' s (settles ls is) = subst (λ (x : Db). count_running x.runs ≤ 1) (sym is) s

-- Only one run is active globally: from tables with at most one RUNNING run, no history of
-- transactions leads to tables with two.
pub one_running :
    (db db' : Db) → count_running db.runs ≤ 1 → Reach db db' → count_running db'.runs ≤ 1
one_running db db' s here = s
one_running db db' s (next {db' = mid} reach step) =
    Step-single mid db' (one_running db mid s reach) step
