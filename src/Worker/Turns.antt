-- ===== src/Worker/Turns.antt =====
-- What a turn of the worker does to the queue, whatever its handler does.
use gapforge.Common.{
  ℕ, ◌≡◌, ◌⊎◌, inl, inr, refl, sym, subst, String, true, Option, none, some, List, [], ◌∷◌, Exn,
  Result, ok, err, ◌>>=◌, >>=-eq-ok, arith, Bool-cases, any, ◌==◌, string_eq,
}
use gapforge.Queue.Model.{Task, Db}
use gapforge.Queue.Retry.{RetryDecision, classify_error, classify_exception}
use gapforge.Queue.Repository.{claim, renew_lease, succeed, fail, type_allowed}
use gapforge.Queue.Control.{admit_next, finalize_if_idle}
use gapforge.Queue.Steps.{Step, claims, renews, succeeds, fails, finalizes, Reach, here, next}
use gapforge.Queue.Admitting.{Reach-trans, admit_next-Reach}
use gapforge.Queue.Claiming.{claim_picks}
use gapforge.Worker.Runtime.{
  HandlerEnd, HandlerRun, Registry, task_types, resolve, Report, success, failure_of_kind, failure,
  report_of, raised_by, Watched, finished, abandoned, broken, Config, Moments, after_heartbeat,
  watch, report_failure, report, commit, finish, handle, claim_and_handle, has_types, run_once,
}

pub Result-cases {ℓ} :
    {A : Type ℓ} (r : Result A) → ((a : A) × (r ≡ ok a)) ⊎ ((e : Exn) × (r ≡ err e))
Result-cases (ok a) = inl (a, refl)
Result-cases (err e) = inr (e, refl)

after_heartbeat-Reach :
    (go_on : Db → Watched × Db)
    → ((db : Db) → Reach db (go_on db).1)
    → (db : Db) (res : Result (Option Task × Db))
    → ((o : Option Task) (db' : Db) → res ≡ ok (o, db') → Step db db')
    → Reach db (after_heartbeat go_on db res).1
unfolding after_heartbeat
after_heartbeat-Reach go_on rest db (ok (some t, db')) step =
    Reach-trans (next here (step (some t) db' refl)) (rest db')
after_heartbeat-Reach go_on rest db (ok (none, db')) step = next here (step none db' refl)
after_heartbeat-Reach go_on rest db (err Exn.permission_error) step = here
after_heartbeat-Reach go_on rest db (err Exn.value_error) step = here
after_heartbeat-Reach go_on rest db (err Exn.type_error) step = here
after_heartbeat-Reach go_on rest db (err Exn.lookup_error) step = here
after_heartbeat-Reach go_on rest db (err Exn.runtime_error) step = here
after_heartbeat-Reach go_on rest db (err Exn.integrity_error) step = here
after_heartbeat-Reach go_on rest db (err Exn.overflow_error) step = here

module _ (c : Config) where
  finalized :
      (k now : ℕ) (db mid db' : Db)
      → Reach db mid
      → (finalize_if_idle c.codec k now mid >>= λ p. ok p.1) ≡ ok db'
      → Reach db db'
  finalized k now db mid db' before h =
      let ((r, last), closed, rest) = >>=-eq-ok (finalize_if_idle c.codec k now mid) _ db' h in
      subst (Reach db) (same last rest) (next before (finalizes c.codec k now r closed))
    where
      same : (last : Db) → ◌≡◌ {A = Result Db} (ok last) (ok db') → last ≡ db'
      same last e = ground (arith, e)

  report_failure-Reach :
      (t : Task) (d : RetryDecision) (error : String) (now : ℕ) (db db' : Db)
      → report_failure c t d error now db ≡ ok db'
      → Reach db db'
  unfolding report_failure
  report_failure-Reach t d error now db db' h =
      let ((t', mid), failed, rest) = >>=-eq-ok (fail t.id c.worker_id d error now db) _ db' h in
      finalized t.run_id now db mid db' (next here (fails t.id c.worker_id d error now t' failed))
        rest

  report-Reach :
      (t : Task) (r : Report) (now : ℕ) (db db' : Db) → report c t r now db ≡ ok db' → Reach db db'
  unfolding report
  report-Reach t (success payload useful ws) now db db' h =
      let ((t', mid), done, rest) =
        >>=-eq-ok (succeed t.id c.worker_id payload useful ws now db) _ db' h in
      finalized t.run_id now db mid db'
        (next here (succeeds t.id c.worker_id payload useful ws now t' done)) rest
  report-Reach t (failure_of_kind kind error) now db db' h =
      let (d, _, rest) =
        >>=-eq-ok (classify_error c.digest kind t.attempt_count (c.id_text t.id)) _ db' h in
      report_failure-Reach t d error now db db' rest
  report-Reach t (failure raised error) now db db' h =
      let (d, _, rest) =
        >>=-eq-ok (classify_exception c.digest raised t.attempt_count (c.id_text t.id)) _ db' h in
      report_failure-Reach t d error now db db' rest

  commit-Reach :
      (t : Task) (r : Report) (now : ℕ) (db : Db) → Reach db (commit c (report c t r now db) db).1
  commit-Reach t r now db = elim (Result-cases (report c t r now db)) [
    | inl (db', e) ↦ rw e (report-Reach t r now db db' e)
    | inr (x, e) ↦ rw e here
  ]

  abbrev Honest : Type 0
  Honest = (now : ℕ) (db : Db) → Reach db (c.others now db)

  watch-Reach : Honest → (t : Task) (ms : List ℕ) (db : Db) → Reach db (watch c t ms db).1
  unfolding watch
  watch-Reach honest t [] db = here
  watch-Reach honest t (now ∷ ms) db =
      let db' = c.others now db in
      Reach-trans (honest now db) (
        after_heartbeat-Reach (watch c t ms) (watch-Reach honest t ms) db'
          (renew_lease t.id c.worker_id c.lease_duration now db')
          (λ o db'' e. renews t.id c.worker_id c.lease_duration now o e))

  finish-Reach :
      Honest
      → (t : Task) (end : HandlerEnd) (now : ℕ) (w : Watched) (db : Db)
      → Reach db (finish c t end now (w, db)).1
  unfolding finish
  finish-Reach honest t end now abandoned db = here
  finish-Reach honest t end now finished db =
      Reach-trans (honest now db)
        (commit-Reach t (report_of c.encoded_size end) now (c.others now db))
  finish-Reach honest t end now (broken e) db =
      Reach-trans (honest now db) (commit-Reach t (raised_by e) now (c.others now db))

  handle-Reach : Honest → (o : Option Task) (now : ℕ) (db : Db) → Reach db (handle c o now db).1
  unfolding handle
  handle-Reach honest none now db = here
  handle-Reach honest (some t) now db = elim (Result-cases (resolve c.registry t.task_type)) [
    | inl (handler, e) ↦
        let watched = watch c t (handler t).busy_at db in
        rw (e, handle)
          (Reach-trans (watch-Reach honest t (handler t).busy_at db)
            (finish-Reach honest t (handler t).end now watched.0 watched.1))
    | inr (x, e) ↦ rw (e, handle) here
  ]

  claim_and_handle-Reach : Honest → (m : Moments) (db : Db) → Reach db (claim_and_handle c m db).1
  unfolding claim_and_handle
  claim_and_handle-Reach honest m db =
      let db' = c.others m.claimed_at db in
      let types = some (task_types c.registry) in
      elim (Result-cases
        (claim m.run_locked m.task_locked c.worker_id c.lease_duration m.claimed_at types db')) [
          | inl ((o, db''), e) ↦
              rw (e, claim_and_handle)
                (Reach-trans
                  (next (honest m.claimed_at db) (
                    claims m.run_locked m.task_locked c.worker_id c.lease_duration m.claimed_at
                      types o e))
                  (handle-Reach honest o m.reported_at db''))
          | inr (x, e) ↦ rw (e, claim_and_handle) (honest m.claimed_at db)
        ]

  -- A turn of the worker is a history of the queue, whatever the handlers do, however the turn ends
  -- and wherever an exception cuts it short, if what the others do is one.
  pub run_once-Reach : Honest → (m : Moments) (db : Db) → Reach db (run_once c m db).1
  unfolding run_once
  run_once-Reach honest m db = elim (Bool-cases (has_types c c.registry)) [
    | inl some_types ↦
        elim (Result-cases (
          admit_next c.codec m.lock_acquired m.run_locked (task_types c.registry) m.admitted_at
            db)) [
              | inl ((x, db'), e) ↦
                  rw (some_types, e)
                    (Reach-trans
                      (admit_next-Reach c.codec m.lock_acquired m.run_locked (task_types c.registry)
                        m.admitted_at db db' x e)
                      (claim_and_handle-Reach honest m db'))
              | inr (x, e) ↦ rw (some_types, e) here
            ]
    | inr no_types ↦ rw no_types here
  ]

resolve-allowed :
    (handlers : Registry) (task_type : String)
    → any (λ x. x == task_type) (task_types handlers) ≡ true
    → (handler : Task → HandlerRun) × (resolve handlers task_type ≡ ok handler)
unfolding resolve
resolve-allowed [] task_type h = absurd (cc)
resolve-allowed (f ∷ handlers) task_type h = elim (Bool-cases (f.0 == task_type)) [
  | inl same ↦ (f.1, rw same refl)
  | inr other ↦
      let (handler, e) = resolve-allowed handlers task_type (rw other at h) in (handler, rw other e)
]

-- A task that the worker claims has a type for which a handler is registered, so the lookup in the
-- registry never fails.
pub claimed_resolves :
    (c : Config) (m : Moments) (db db' : Db) (t : Task)
    → claim m.run_locked m.task_locked c.worker_id c.lease_duration m.claimed_at
        (some (task_types c.registry))
        db
      ≡ ok (some t, db')
    → (handler : Task → HandlerRun) × (resolve c.registry t.task_type ≡ ok handler)
claimed_resolves c m db db' t h =
    let types = some (task_types c.registry) in
    let (old, r, _, _, _, may, made) =
      claim_picks m.run_locked m.task_locked c.worker_id c.lease_duration m.claimed_at types db db'
        t h in
    resolve-allowed c.registry t.task_type
      (subst (λ (x : Task). type_allowed types x.task_type ≡ true) (sym made) may.permitted)
