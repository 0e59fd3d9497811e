-- ===== src/Queue/TaskMoves.antt =====
-- Every operation of `DurableQueue` moves a task along the diagram of Queue/Moves.
use Prim.Native.Nat.{min}
use gapforge.Common.{
  ℕ, ◌+◌, ◌≡◌, inl, inr, sym, ap, subst, ◌∙◌, String, Bool, true, not, ◌&&◌, Option, none, some,
  List, [], ◌∷◌, ◌++◌, Exn, ok, raise_if-eq-ok, arith, Bool-cases, is_some, find, ltb,
}
use gapforge.Json.{Json, Fields}
use gapforge.Rows.{key-row, row_of_mem, IsUnique}
use gapforge.Queue.Model.{TaskStatus, Run, Task, Db, get_run, get_task, task_key, run_key}
use gapforge.Queue.Retry.{RetryDecision}
use gapforge.Queue.Repository.{
  same_slot, enqueue_slot, enqueue, leased_to, expire_overdue_runs, exhaust_run, claim,
  succeeded_task, failed_task, checkpoint, renew_lease, succeed, fail,
}
use gapforge.Queue.Moves.{TaskMove, RunMove, Keeps, Keeps-refl, Keeps-put, Keeps-append}
use gapforge.Queue.RunMoves.{RunsKeep, expire-RunsKeep, put_run-RunsKeep, exhaust_run-RunMove}
use gapforge.Queue.Ownership.{IsHeld}
use gapforge.Queue.Writing.{succeed-Wrote, fail-Wrote, checkpoint_effect, renew_lease_effect}
use gapforge.Queue.Written.{Wrote, committed, given_up, given_back, renewed_until}
use gapforge.Queue.Candidates.{MayClaim}
use gapforge.Queue.Claiming.{claim_picks, claim-none, claim-some}

abbrev pub TasksKeep : Db → Db → Type 0
TasksKeep db db' = Keeps task_key TaskMove db.tasks db'.tasks

-- Both tables.
abbrev pub Keep : Db → Db → Type 0
Keep db db' = TasksKeep db db' × RunsKeep db db'

leased_to-TaskMove :
    (allowed : Option (List String)) (worker : String) (e now : ℕ) (r : Run) (t : Task)
    → MayClaim allowed now r t
    → TaskMove t (leased_to worker e t)
leased_to-TaskMove allowed worker e now r t m = ground (arith, m.free)

module _ (t : Task) (leased : t.status ≡ TaskStatus.leased) where
  succeeded_task-TaskMove :
      (outcome : Fields) (useful : Bool) (warnings : List Json) (now : ℕ)
      → TaskMove t (succeeded_task outcome useful warnings now t)
  succeeded_task-TaskMove outcome useful warnings now = ground arith

  failed_task-TaskMove :
      (decision : RetryDecision) (error : String) (now : ℕ)
      → TaskMove t (failed_task decision error now t)
  unfolding failed_task
  failed_task-TaskMove decision error now =
      elim (Bool-cases (decision.retryable && ltb t.attempt_count t.max_attempts)) [
        | inl retry ↦ rw retry (ground arith)
        | inr stop ↦ rw stop (ground arith)
      ]

  given_back-TaskMove : (c : Fields) → TaskMove t (given_back (record t { checkpoint = c }))
  given_back-TaskMove c = ground arith

  renewed-TaskMove :
      (c : Fields) (e : ℕ)
      → is_some t.lease_owner ≡ true
      → TaskMove t (renewed_until e (record t { checkpoint = c }))
  renewed-TaskMove c e owned = ground arith

-- What the owner's write leaves is legal where both of its rows are.
Wrote-Keep :
    (k : ℕ) (worker : String) (now : ℕ) (by : String) (db db' : Db) (new : Task → Run → Task)
    (back : Task → Task)
    → ((t : Task) (r : Run) → IsHeld k worker db t → TaskMove t (new t r))
    → ((t : Task) → IsHeld k worker db t → TaskMove t (back t))
    → Wrote k worker now by db new back db'
    → Keep db db'
Wrote-Keep k worker now by db db' new back new_moves back_moves (t, r, w, committed e _ _ _ is) =
    let m = new_moves t r w.held in
    subst (Keep db) (sym is) (
      Keeps-put task_key TaskMove db.tasks t (new t r) (stored (new t r) m) (inr m),
      Keeps-refl run_key RunMove db.runs,
    )
  where
    stored : (x : Task) → TaskMove t x → get_task x.id db ≡ some t
    stored x m =
        subst (λ i. get_task i db ≡ some t)
          (sym (m.same_id ∙ key-row task_key k db.tasks t w.held.found)) w.held.found
Wrote-Keep k worker now by db db' new back new_moves back_moves (t, r, w, given_up _ is) =
    let m = back_moves t w.held in
    subst (Keep db) (sym is) (
      Keeps-put task_key TaskMove db.tasks t (back t) (stored (back t) m) (inr m),
      put_run-RunsKeep db r (exhaust_run now by r) run_stored
          (inr (exhaust_run-RunMove now by r w.active)),
    )
  where
    stored : (x : Task) → TaskMove t x → get_task x.id db ≡ some t
    stored x m =
        subst (λ i. get_task i db ≡ some t)
          (sym (m.same_id ∙ key-row task_key k db.tasks t w.held.found)) w.held.found

    run_stored : get_run (exhaust_run now by r).id db ≡ some r
    run_stored =
        subst (λ i. get_run i db ≡ some r) (sym (key-row run_key t.run_id db.runs r w.belongs))
          w.belongs

pub succeed-Keep :
    (k : ℕ) (worker : String) (outcome : Fields) (useful : Bool) (warnings : List Json) (now : ℕ)
    (db db' : Db) (t' : Task)
    → succeed k worker outcome useful warnings now db ≡ ok (t', db')
    → Keep db db'
succeed-Keep k worker outcome useful warnings now db db' t' h =
    Wrote-Keep k worker now "task_completion" db db'
      (λ t _. succeeded_task outcome useful warnings now t) given_back
      (λ t r held. succeeded_task-TaskMove t held.leased outcome useful warnings now)
      (λ t held. given_back-TaskMove t held.leased t.checkpoint)
      (succeed-Wrote k worker outcome useful warnings now db db' t' h)

pub fail-Keep :
    (k : ℕ) (worker : String) (decision : RetryDecision) (error : String) (now : ℕ) (db db' : Db)
    (t' : Task)
    → fail k worker decision error now db ≡ ok (t', db')
    → Keep db db'
fail-Keep k worker decision error now db db' t' h =
    Wrote-Keep k worker now "task_failure" db db' (λ t _. failed_task decision error now t)
      given_back (λ t r held. failed_task-TaskMove t held.leased decision error now)
      (λ t held. given_back-TaskMove t held.leased t.checkpoint)
      (fail-Wrote k worker decision error now db db' t' h)

pub checkpoint-Keep :
    (k : ℕ) (worker : String) (value : Fields) (duration now : ℕ) (db db' : Db) (t' : Task)
    → checkpoint k worker value duration now db ≡ ok (t', db')
    → Keep db db'
checkpoint-Keep k worker value duration now db db' t' h =
    Wrote-Keep k worker now "task_checkpoint" db db'
      (λ t r. renewed_until (min (now + duration) r.deadline_at) (record t { checkpoint = value }))
      (λ t. given_back (record t { checkpoint = value }))
      (λ t r held.
        renewed-TaskMove t held.leased value (min (now + duration) r.deadline_at) (rw held.owner))
      (λ t held. given_back-TaskMove t held.leased value)
      (checkpoint_effect k worker value duration now db db' t' h)

pub renew_lease-Keep :
    (k : ℕ) (worker : String) (duration now : ℕ) (db db' : Db) (o : Option Task)
    → renew_lease k worker duration now db ≡ ok (o, db')
    → Keep db db'
renew_lease-Keep k worker duration now db db' o h =
    Wrote-Keep k worker now "worker_heartbeat" db db'
      (λ t r. renewed_until (min (now + duration) r.deadline_at) t) given_back
      (λ t r held.
        renewed-TaskMove t held.leased t.checkpoint (min (now + duration) r.deadline_at)
          (rw held.owner))
      (λ t held. given_back-TaskMove t held.leased t.checkpoint)
      (renew_lease_effect k worker duration now db db' o h)

enqueue_slot-Keep :
    (o : Option Task) (t t' : Task) (fresh : Bool) (db db' : Db)
    → enqueue_slot o t db ≡ ok (t', fresh, db')
    → Keep db db'
unfolding enqueue_slot
enqueue_slot-Keep (some existing) t t' fresh db db' h =
    let same : db ≡ db' = cc in
    subst (Keep db) same (Keeps-refl task_key TaskMove db.tasks, Keeps-refl run_key RunMove db.runs)
enqueue_slot-Keep none t t' fresh db db' h =
    let (_, rest) =
      raise_if-eq-ok (not (is_some (get_run t.run_id db))) Exn.integrity_error _ (t', fresh, db')
        h in
    let same : record db { tasks = db.tasks ++ t ∷ [] } ≡ db' = cc in
    subst (Keep db) same
      (Keeps-append task_key TaskMove db.tasks (t ∷ []), Keeps-refl run_key RunMove db.runs)

pub enqueue-Keep :
    (t t' : Task) (fresh : Bool) (db db' : Db) → enqueue t db ≡ ok (t', fresh, db') → Keep db db'
unfolding enqueue
enqueue-Keep t t' fresh db db' h =
    let (_, rest) =
      raise_if-eq-ok (ltb t.max_attempts 1) Exn.integrity_error _ (t', fresh, db') h in
    enqueue_slot-Keep (find (same_slot t.run_id t.idempotency_key) db.tasks) t t' fresh db db' rest

pub claim-Keep :
    (run_locked task_locked : ℕ → Bool) (worker : String) (duration now : ℕ)
    (allowed : Option (List String)) (db db' : Db) (o : Option Task)
    → IsUnique task_key db.tasks
    → claim run_locked task_locked worker duration now allowed db ≡ ok (o, db')
    → Keep db db'
unfolding expire_overdue_runs
claim-Keep run_locked task_locked worker duration now allowed db db' none unique h =
    subst (Keep db) (sym (claim-none run_locked task_locked worker duration now allowed db db' h))
      (Keeps-refl task_key TaskMove db.tasks, expire-RunsKeep run_locked now db)
claim-Keep run_locked task_locked worker duration now allowed db db' (some t') unique h =
    let (t, r, m, _, _, may, made) =
      claim_picks run_locked task_locked worker duration now allowed db db' t' h in
    let e = min (now + duration) r.deadline_at in
    let stored : get_task t'.id db ≡ some t =
      subst (λ i. get_task i db ≡ some t) (sym (ap task_key made))
        (row_of_mem task_key t db.tasks unique m) in
    subst (Keep db)
      (sym (claim-some run_locked task_locked worker duration now allowed db db' t' h))
      (
        Keeps-put task_key TaskMove db.tasks t t' stored
            (inr (subst (TaskMove t) (sym made) (leased_to-TaskMove allowed worker e now r t may))),
        expire-RunsKeep run_locked now db,
      )
