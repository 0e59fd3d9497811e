-- ===== src/Queue/Admitting.antt =====
-- `admit_next` as a history of the queue.
use gapforge.Common.{
  ℕ, ◌≡◌, inl, inr, subst, String, Bool, true, false, Option, none, some, List, [], ◌∷◌, Result, ok,
  >>=-eq-ok, arith, find, Option-cases,
}
use gapforge.Queue.Model.{Run, Db, is_running}
use gapforge.Queue.Control.{
  Codec, start, start_best, queue_head, admit_candidate, finish_active, finalize_if_idle,
  admit_next,
}
use gapforge.Queue.Steps.{starts, finalizes, Reach, here, next}

pub Reach-trans : {a b c : Db} → Reach a b → Reach b c → Reach a c
Reach-trans x here = x
Reach-trans x (next y s) = next (Reach-trans x y) s

-- A transaction's tables, whatever it returns beside them.
abbrev pub tables {ℓ} : {A : Type ℓ} → A × Db → Db
tables p = p.1

pub ok-tables {ℓ} :
    {A : Type ℓ} (p q : A × Db) → ◌≡◌ {A = Result (A × Db)} (ok p) (ok q) → p.1 ≡ q.1
ok-tables (a, db) (b, db') h = ground (arith, h)

start_best-Reach :
    (o : Option Run) (now : ℕ) (db db' : Db) (x : Option Run)
    → start_best o now db ≡ ok (x, db')
    → Reach db db'
unfolding start_best
start_best-Reach none now db db' x h = subst (Reach db) (ok-tables (none, db) (x, db') h) here
start_best-Reach (some r) now db db' x h =
    let ((r', mid), started, rest) = >>=-eq-ok (start r.id now db) _ (x, db') h in
    subst (Reach db) (ok-tables (some r', mid) (x, db') rest)
      (next here (starts r.id now r' started))

finish_active-Reach :
    (codec : Codec) (active : Run) (now : ℕ) (db db' : Db) (busy : Bool)
    → finish_active codec active now db ≡ ok (busy, db')
    → Reach db db'
unfolding finish_active
finish_active-Reach codec active now db db' busy h =
    let ((r, mid), closed, rest) =
      >>=-eq-ok (finalize_if_idle codec active.id now db) _ (busy, db') h in
    subst (Reach db) (ok-tables (is_running r.status, mid) (busy, db') rest)
      (next here (finalizes codec active.id now r closed))

-- `admit_next` is a history of the queue: it closes the active run, or starts the head of the queue,
-- or both in that order, or does nothing.
pub admit_next-Reach :
    (codec : Codec) (lock_acquired : Bool) (run_locked : ℕ → Bool) (types : List String) (now : ℕ)
    (db db' : Db) (x : Option Run)
    → admit_next codec lock_acquired run_locked types now db ≡ ok (x, db')
    → Reach db db'
unfolding admit_next admit_candidate
admit_next-Reach codec l run_locked [] now db db' x h =
    subst (Reach db) (ok-tables (none, db) (x, db') h) here
admit_next-Reach codec false run_locked (y ∷ types) now db db' x h =
    subst (Reach db) (ok-tables (none, db) (x, db') h) here
admit_next-Reach codec true run_locked (y ∷ types) now db db' x h =
    elim (Option-cases (find (λ (r : Run). is_running r.status) db.runs)) [
      | inl e ↦
          start_best-Reach (queue_head run_locked (y ∷ types) now db) now db db' x
            (rw (e, admit_next) at h)
      | inr (active, e) ↦
          let ((busy, mid), closed, rest) =
            >>=-eq-ok (finish_active codec active now db) _ (x, db') (rw (e, admit_next) at h) in
          Reach-trans (finish_active-Reach codec active now db mid busy closed)
            (after busy mid rest)
    ]
  where
    after :
        (busy : Bool) (mid : Db)
        → (elim busy [
          | true ↦ ok (none, mid)
          | false ↦ start_best (queue_head run_locked (y ∷ types) now mid) now mid
        ])
          ≡ ok (x, db')
        → Reach mid db'
    after true mid h = subst (Reach mid) (ok-tables (none, mid) (x, db') h) here
    after false mid h = start_best-Reach (queue_head run_locked (y ∷ types) now mid) now mid db' x h
