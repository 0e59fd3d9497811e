-- ===== src/Queue/Claiming.antt =====
-- What `DurableQueue.claim` picks, and what it leaves alone.
use Prim.Native.Nat.{min}
use gapforge.Common.{
  ℕ, ◌+◌, ◌≤◌, ◌≡◌, ◌≢◌, inl, inr, refl, sym, subst, ap, ◌∙◌, String, Bool, true, false, Option,
  none, some, List, Memᴰ, ok, arith, All, All-map, All_mem, Bool-cases, Option-cases, string_eq,
}
use gapforge.Common.Int.{◌≤ℤ◌}
use gapforge.Rows.{row, best-Memᴰ, best-none, best_first, row_of_mem, IsUnique, row-put_ne}
use gapforge.Queue.Model.{
  TaskStatus, Run, Task, Db, task_key, get_run, get_task, put_task, is_running,
}
use gapforge.Queue.Expiry.{active_run, timely_run}
use gapforge.Queue.Repository.{
  expire_overdue_runs, candidates, claims_before, leased_to, lease_row, permits_nothing, next_row,
  claim,
}
use gapforge.Queue.Candidates.{
  MayClaim, is_claimable-MayClaim, MayClaim-is_claimable, Joined, candidates-Joined, candidates-All,
  claims_before-IsTransitive, claims_before-IsAsymmetric,
}

lease_row-eq-ok :
    (worker : String) (duration now : ℕ) (c : Option (Run × Task)) (db db' : Db) (t' : Task)
    → lease_row worker duration now c db ≡ ok (some t', db')
    → (r : Run) × (t : Task) × (q : Run) × (c ≡ some (r, t))
      × (get_run t.run_id db ≡ some q)
      × (t' ≡ leased_to worker (min (now + duration) q.deadline_at) t)
      × (db' ≡ put_task t' db)
unfolding lease_row
lease_row-eq-ok worker duration now none db db' t' h = absurd (cc)
lease_row-eq-ok worker duration now (some (r, t)) db db' t' h =
    elim (Option-cases (get_run t.run_id db)) [
      | inl e ↦ absurd (ground (arith, e))
      | inr (q, e) ↦ (r, t, q, refl, e, ground (arith, e), ground (arith, e))
    ]

claim-lease_row :
    (run_locked task_locked : ℕ → Bool) (worker : String) (duration now : ℕ)
    (allowed : Option (List String)) (db db' : Db) (t' : Task)
    → claim run_locked task_locked worker duration now allowed db ≡ ok (some t', db')
    → let expired = expire_overdue_runs run_locked now db in
      lease_row worker duration now (next_row task_locked allowed now expired) expired
      ≡ ok (some t', db')
unfolding claim
claim-lease_row run_locked task_locked worker duration now allowed db db' t' h =
    elim (Bool-cases (permits_nothing allowed)) [
      | inl e ↦ absurd (ground (arith, e))
      | inr e ↦ rw e at h
    ]

-- When `claim` hands out a task, that task stood in the table, no other transaction held it, its
-- run was running and within its deadline, and the task was due, of a permitted type, and pending
-- or under a lease that had expired. It is now leased to the worker until the end of the lease or
-- the run's deadline, whichever is first, with one attempt more, and nothing else of it changed.
pub claim_picks :
    (run_locked task_locked : ℕ → Bool) (worker : String) (duration now : ℕ)
    (allowed : Option (List String)) (db db' : Db) (t' : Task)
    → claim run_locked task_locked worker duration now allowed db ≡ ok (some t', db')
    → (t : Task) × (r : Run) × Memᴰ t db.tasks
      × (task_locked t.id ≡ false)
      × (get_run t.run_id db ≡ some r)
      × MayClaim allowed now r t
      × (t' ≡ leased_to worker (min (now + duration) r.deadline_at) t)
unfolding expire_overdue_runs
claim_picks run_locked task_locked worker duration now allowed db db' t' h =
    let expired = expire_overdue_runs run_locked now db in
    let (r, t, q, picked, found, made, _) =
      lease_row-eq-ok worker duration now (next_row task_locked allowed now expired) expired db' t'
        (claim-lease_row run_locked task_locked worker duration now allowed db db' t' h) in
    let j =
      All_mem (Joined task_locked allowed now expired.runs expired.tasks) (r, t)
        (candidates task_locked allowed now expired.runs expired.tasks)
        (candidates-Joined task_locked allowed now expired.runs expired.tasks)
        (best-Memᴰ claims_before (candidates task_locked allowed now expired.runs expired.tasks)
          (r, t) picked) in
    let may = is_claimable-MayClaim allowed now r t j.2 in
    let running : is_running r.status ≡ true = rw may.run_active in
    let same : q ≡ r = ground (arith, found, j.1) in
    (
      t,
      r,
      j.0,
      j.3,
      active_run run_locked now t.run_id db r j.1 running,
      may,
      subst (λ x. t' ≡ leased_to worker (min (now + duration) x.deadline_at) t) same made,
    )

lease_row-eq-none :
    (worker : String) (duration now : ℕ) (c : Option (Run × Task)) (db db' : Db)
    → lease_row worker duration now c db ≡ ok (none, db')
    → (c ≡ none) × (db' ≡ db)
unfolding lease_row
lease_row-eq-none worker duration now none db db' h = (refl, ground arith)
lease_row-eq-none worker duration now (some (r, t)) db db' h =
    elim (Option-cases (get_run t.run_id db)) [
      | inl e ↦ absurd (ground (arith, e))
      | inr (q, e) ↦ absurd (ground (arith, e))
    ]

-- When `claim` finds nothing although some task type is permitted, every task that it may take, by
-- its run, its times, its type and its lease, is held by another transaction.
pub claim_starves :
    (run_locked task_locked : ℕ → Bool) (worker : String) (duration now : ℕ)
    (allowed : Option (List String)) (db db' : Db)
    → permits_nothing allowed ≡ false
    → claim run_locked task_locked worker duration now allowed db ≡ ok (none, db')
    → All
        (λ t.
          (r : Run)
          → get_run t.run_id db ≡ some r
          → MayClaim allowed now r t
          → task_locked t.id ≡ true)
        db.tasks
unfolding claim expire_overdue_runs
claim_starves run_locked task_locked worker duration now allowed db db' types h =
    let expired = expire_overdue_runs run_locked now db in
    let (nothing, _) =
      lease_row-eq-none worker duration now (next_row task_locked allowed now expired) expired db'
        (rw types at h) in
    let empty =
      best-none claims_before (candidates task_locked allowed now expired.runs expired.tasks)
        nothing in
    let none_listed =
      candidates-All task_locked allowed now expired.runs (λ _. ⊥) db.tasks
        (subst (All (λ _. ⊥)) (sym empty) tt) in
    All-map db.tasks
      (λ t listed r e may. elim (Bool-cases (task_locked t.id)) [
        | inl held ↦ held
        | inr free ↦ absurd (
            listed r (timely_run run_locked now t.run_id db r e may.in_time)
              (MayClaim-is_claimable allowed now r t may) free)
      ])
      none_listed

-- `c` comes no later than `d` by run priority, then task priority, then age.
abbrev pub NoLater : Run × Task → Run × Task → Type 0
NoLater (r, t) (q, u) =
    (r.priority ≤ℤ q.priority)
    × (q.priority ≤ℤ r.priority
        → (t.priority ≤ℤ u.priority) × (u.priority ≤ℤ t.priority → t.created_at ≤ u.created_at))

NoLater-of_before :
    (r q : Run) (t u : Task) → claims_before (q, u) (r, t) ≡ false → NoLater (r, t) (q, u)
unfolding claims_before
NoLater-of_before r q t u h =
    (ground arith, λ same. (ground (arith, same), λ same_task. ground (arith, same, same_task)))

-- The task that `claim` hands out comes first: every task that `claim` may take and that no other
-- transaction holds comes no earlier by run priority, task priority and creation.
pub claim_first :
    (run_locked task_locked : ℕ → Bool) (worker : String) (duration now : ℕ)
    (allowed : Option (List String)) (db db' : Db) (t' : Task)
    → claim run_locked task_locked worker duration now allowed db ≡ ok (some t', db')
    → (r : Run) × (get_run t'.run_id db ≡ some r)
      × All
          (λ u.
            (q : Run)
            → get_run u.run_id db ≡ some q
            → MayClaim allowed now q u
            → task_locked u.id ≡ false
            → NoLater (r, t') (q, u))
          db.tasks
unfolding expire_overdue_runs
claim_first run_locked task_locked worker duration now allowed db db' t' h =
    let expired = expire_overdue_runs run_locked now db in
    let (r, t, q, picked, found, made, _) =
      lease_row-eq-ok worker duration now (next_row task_locked allowed now expired) expired db' t'
        (claim-lease_row run_locked task_locked worker duration now allowed db db' t' h) in
    let rows = candidates task_locked allowed now expired.runs expired.tasks in
    let first =
      candidates-All task_locked allowed now expired.runs (λ c. claims_before c (r, t) ≡ false)
        db.tasks
        (best_first claims_before claims_before-IsTransitive claims_before-IsAsymmetric rows (r, t)
          picked) in
    let j =
      All_mem (Joined task_locked allowed now expired.runs expired.tasks) (r, t) rows
        (candidates-Joined task_locked allowed now expired.runs expired.tasks)
        (best-Memᴰ claims_before rows (r, t) picked) in
    let may = is_claimable-MayClaim allowed now r t j.2 in
    let here = active_run run_locked now t.run_id db r j.1 (rw may.run_active) in
    (
      r,
      subst (λ (x : Task). get_run x.run_id db ≡ some r) (sym made) here,
      All-map db.tasks
          (λ u listed q' e m free.
            subst (λ x. NoLater (r, x) (q', u)) (sym made)
              (NoLater-of_before r q' t u (
                listed q' (timely_run run_locked now u.run_id db q' e m.in_time)
                  (MayClaim-is_claimable allowed now q' u m) free)))
          first,
    )

live_lease :
    (allowed : Option (List String)) (now : ℕ) (r : Run) (t k : Task) (e : ℕ)
    → MayClaim allowed now r t
    → t ≡ k
    → k.status ≡ TaskStatus.leased
    → k.lease_expires_at ≡ some e
    → now ≤ e
    → ⊥
live_lease allowed now r t k e may same leased at live =
    no_claim (subst (MayClaim allowed now r) same may)
  where
    no_claim : MayClaim allowed now r k → ⊥
    no_claim m = ground (arith, m.free)

same_row : (o : Option Task) (t k : Task) → o ≡ some t → o ≡ some k → t ≡ k
same_row o t k h e = cc

-- The tables after a claim that finds nothing, and after one that does.
pub claim-none :
    (run_locked task_locked : ℕ → Bool) (worker : String) (duration now : ℕ)
    (allowed : Option (List String)) (db db' : Db)
    → claim run_locked task_locked worker duration now allowed db ≡ ok (none, db')
    → db' ≡ expire_overdue_runs run_locked now db
unfolding claim
claim-none run_locked task_locked worker duration now allowed db db' h =
    elim (Bool-cases (permits_nothing allowed)) [
      | inl e ↦ ground (arith, e)
      | inr e ↦
          let expired = expire_overdue_runs run_locked now db in
          (lease_row-eq-none worker duration now (next_row task_locked allowed now expired) expired
            db' (rw e at h)).1
    ]

pub claim-some :
    (run_locked task_locked : ℕ → Bool) (worker : String) (duration now : ℕ)
    (allowed : Option (List String)) (db db' : Db) (t' : Task)
    → claim run_locked task_locked worker duration now allowed db ≡ ok (some t', db')
    → db' ≡ put_task t' (expire_overdue_runs run_locked now db)
claim-some run_locked task_locked worker duration now allowed db db' t' h =
    let expired = expire_overdue_runs run_locked now db in
    let (_, _, _, _, _, _, after) =
      lease_row-eq-ok worker duration now (next_row task_locked allowed now expired) expired db' t'
        (claim-lease_row run_locked task_locked worker duration now allowed db db' t' h) in
    after

lease_kept :
    (run_locked task_locked : ℕ → Bool) (worker : String) (duration now : ℕ)
    (allowed : Option (List String)) (db db' : Db) (t' k : Task) (e : ℕ)
    → IsUnique task_key db.tasks
    → claim run_locked task_locked worker duration now allowed db ≡ ok (some t', db')
    → get_task k.id db ≡ some k
    → k.status ≡ TaskStatus.leased
    → k.lease_expires_at ≡ some e
    → now ≤ e
    → get_task k.id db' ≡ some k
unfolding expire_overdue_runs
lease_kept run_locked task_locked worker duration now allowed db db' t' k e unique h there leased at
      live =
    let (t, r, m, _, _, may, made) =
      claim_picks run_locked task_locked worker duration now allowed db db' t' h in
    let own : get_task t.id db ≡ some t = row_of_mem task_key t db.tasks unique m in
    let differ : k.id ≢ t'.id = λ same.
      let id : t.id ≡ k.id = ap task_key (sym made) ∙ sym same in
      live_lease allowed now r t k e may
        (same_row (row task_key k.id db.tasks) t k (rw id at own) there) leased at live in
    rw (claim-some run_locked task_locked worker duration now allowed db db' t' h)
      (row-put_ne task_key k.id t' db.tasks differ ∙ there)

-- A lease holds: while a task is leased and the lease has not expired, a claim by anyone, whether it
-- hands out a task or none, leaves the task as it is, in a table whose primary keys differ.
pub claim_keeps_lease :
    (run_locked task_locked : ℕ → Bool) (worker : String) (duration now : ℕ)
    (allowed : Option (List String)) (db db' : Db) (o : Option Task) (k : Task) (e : ℕ)
    → IsUnique task_key db.tasks
    → claim run_locked task_locked worker duration now allowed db ≡ ok (o, db')
    → get_task k.id db ≡ some k
    → k.status ≡ TaskStatus.leased
    → k.lease_expires_at ≡ some e
    → now ≤ e
    → get_task k.id db' ≡ some k
unfolding expire_overdue_runs
claim_keeps_lease run_locked task_locked worker duration now allowed db db' none k e unique h there
      leased at live =
    rw (claim-none run_locked task_locked worker duration now allowed db db' h) there
claim_keeps_lease run_locked task_locked worker duration now allowed db db' (some t') k e unique h
      there leased at live =
    lease_kept run_locked task_locked worker duration now allowed db db' t' k e unique h there
      leased at live
