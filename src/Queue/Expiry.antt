-- ===== src/Queue/Expiry.antt =====
-- `_expire_overdue_runs`: which runs it ends, and what it leaves as it was.
use gapforge.Common.{
  ℕ, ◌≤◌, ◌<◌, ◌≡◌, refl, Bool, true, false, Option, none, some, List, [], ◌∷◌, map, arith,
  Option-cases, inl, inr, count_if,
}
use gapforge.Rows.{row}
use gapforge.Queue.Model.{Run, Db, run_key, get_run, is_running}
use gapforge.Queue.Repository.{expire_run, expire_overdue_runs}

module _ (locked : ℕ → Bool) (now : ℕ) where
  -- A run that is still running after the overdue ones are expired is as it was.
  pub expire_run-running :
      (r : Run) → is_running (expire_run locked now r).status ≡ true → expire_run locked now r ≡ r
  unfolding expire_run
  expire_run-running r h = ground arith

  pub expire_run-timely : (r : Run) → now < r.deadline_at → expire_run locked now r ≡ r
  unfolding expire_run
  expire_run-timely r h = ground arith

  pub expire_run-idle : (r : Run) → is_running r.status ≡ false → expire_run locked now r ≡ r
  unfolding expire_run
  expire_run-idle r h = ground arith

  pub id-expire_run : (r : Run) → (expire_run locked now r).id ≡ r.id
  unfolding expire_run
  id-expire_run r = ground arith

  abbrev after_expiry : Option Run → Option Run
  after_expiry none = none
  after_expiry (some r) = some (expire_run locked now r)

  row-expire :
      (k : ℕ) (rs : List Run)
      → row run_key k (map (expire_run locked now) rs) ≡ after_expiry (row run_key k rs)
  row-expire k [] = refl
  row-expire k (r ∷ rs) = ground (arith, id-expire_run r, row-expire k rs)

  pub get_run-expire :
      (k : ℕ) (db : Db)
      → get_run k (expire_overdue_runs locked now db) ≡ after_expiry (get_run k db)
  unfolding expire_overdue_runs
  get_run-expire k db = row-expire k db.runs

  -- A run that is running after the overdue ones are expired was there, as it is, before.
  pub active_run :
      (k : ℕ) (db : Db) (r : Run)
      → get_run k (expire_overdue_runs locked now db) ≡ some r
      → is_running r.status ≡ true
      → get_run k db ≡ some r
  active_run k db r h s = elim (Option-cases (get_run k db)) [
    | inl e ↦ absurd (cc (get_run-expire k db, e))
    | inr (q, e) ↦ ground (arith, get_run-expire k db, e, expire_run-running q)
  ]

  -- A run that is not overdue outlives the expiry.
  pub timely_run :
      (k : ℕ) (db : Db) (r : Run)
      → get_run k db ≡ some r
      → now < r.deadline_at
      → get_run k (expire_overdue_runs locked now db) ≡ some r
  timely_run k db r h late = ground (arith, get_run-expire k db, expire_run-timely r)

  pub count-expire :
      (rs : List Run)
      → count_if (λ (r : Run). is_running r.status) (map (expire_run locked now) rs)
        ≤ count_if (λ (r : Run). is_running r.status) rs
  count-expire [] = omega arith
  count-expire (r ∷ rs) = ground (arith, expire_run-running r, count-expire rs)
