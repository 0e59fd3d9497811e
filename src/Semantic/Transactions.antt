-- ===== src/Semantic/Transactions.antt =====
-- Every transaction of the reasoner is a history of the queue's rows, and what it does to the leases
-- that a run holds.
use gapforge.Common.{
  ℕ, ◌+◌, ◌-◌, ◌≤◌, ◌<◌, ◌≡◌, ◌⊎◌, inl, inr, refl, ap, subst, ◌∙◌, Bool, true, false, not, ◌||◌,
  Option, none, some, List, [], ◌∷◌, ◌++◌, Result, ok, err, arith, Bool-cases, leb, nat_eq, ◌==◌,
  count_if, count_if-append, if◌then◌else◌,
}
use gapforge.Common.Int.{pos}
use gapforge.Json.{get_field}
use gapforge.Rows.{row, delete, key-row, count_if-delete}
use gapforge.Queue.Model.{
  Run, Journal, CallLease, Db, get_run, get_task, run_key, lease_key, is_running,
}
use gapforge.Queue.Control.{BudgetDecision, consume_budget}
use gapforge.Queue.RunMoves.{consume_budget-Consumed}
use gapforge.Queue.ProviderCalls.{active_leases, owns_task, check_journal, grant, acquire}
use gapforge.Queue.CallBound.{acquire-grant}
use gapforge.Queue.Steps.{Reach, here, next, acquires, consumes, settles}
use gapforge.Semantic.Model.{
  AuditRow, audit_key, Ledger, AgentResult, Context, Call, SemanticOutcome, returned, failed_with,
  raised, Reasoner, AdmissionKind,
}
use gapforge.Semantic.Audit.{replay, provider_result_of}
use gapforge.Semantic.Admission.{
  Decision, denied, replayed, Admission, on_budget, on_lease, on_parallel, journal_of, parallel_of,
  has_active_call, admit_new, admit_audited, admit_reconciled, admit_in_context, admit, reconcile,
  was_stale,
}

-- The leases of a run, expired or not.
abbrev pub held : ℕ → List CallLease → ℕ
held run_id ls = count_if (λ (l : CallLease). l.run_id == run_id) ls

-- What an admission leaves of the tables that it found after the reconciliation: a history of the
-- queue, in which a run holds no lease more, unless it is the call's run, had room for one under the
-- limit, and holds one more.
pub record Left (run_id : ℕ) (limit : Result ℕ) (now : ℕ) (db db' : Db) : Type 0 where
  pub reach : Reach db db'
  pub bound :
      (k : ℕ)
      → (held k db'.leases ≤ held k db.leases)
        ⊎ ((m : ℕ) × (limit ≡ ok m)
            × (active_leases run_id now db.leases < m)
            × (run_id ≡ k)
            × (held k db'.leases ≤ held k db.leases + 1))

Left-same : (run_id : ℕ) (limit : Result ℕ) (now : ℕ) (db : Db) → Left run_id limit now db db
Left-same run_id limit now db = record { reach = here; bound = λ k. inl (omega arith) }

-- One lease more for a run that had room, or what is left of that.
Left-grown :
    (run_id m now : ℕ) (db db' : Db) (lease : CallLease)
    → lease.run_id ≡ run_id
    → active_leases run_id now db.leases < m
    → Reach db db'
    → ((k : ℕ) → held k db'.leases ≤ held k (db.leases ++ lease ∷ []))
    → Left run_id (ok m) now db db'
Left-grown run_id m now db db' lease own room path few = record {
  reach = path;
  bound = λ k. elim (Bool-cases (lease.run_id == k)) [
    | inl same ↦ inr (
      m,
      refl,
      room,
      ground (arith, own, same),
      ground (
        arith,
        few k,
        same,
        count_if-append (λ (l : CallLease). l.run_id == k) db.leases (lease ∷ []),
      ),
    )
    | inr other ↦ inl (
        ground (
          arith,
          few k,
          other,
          count_if-append (λ (l : CallLease). l.run_id == k) db.leases (lease ∷ []),
        ))
  ];
}

module _ (c : Reasoner) (id : ℕ) (ctx : Context) (call : Call) where
  -- What a granted lease rests on.
  acquired :
      (m : ℕ) (journal : Journal) (now : ℕ) (db db' : Db) (lease : CallLease)
      → acquire m id ctx.run_id journal c.lease_owner c.lease_duration now db ≡ ok (some lease, db')
      → (lease.run_id ≡ ctx.run_id)
        × (active_leases ctx.run_id now db.leases < m)
        × (db'.leases ≡ db.leases ++ lease ∷ [])
  acquired m journal now db db' lease h =
      let (r, found, g) =
        acquire-grant m id ctx.run_id journal c.lease_owner c.lease_duration now db db' (some lease)
          h in
      let same = key-row run_key ctx.run_id db.runs r found in
      subst
        (λ i.
          (lease.run_id ≡ i)
          × (active_leases i now db.leases < m)
          × (db'.leases ≡ db.leases ++ lease ∷ []))
        same (fields r g)
    where
      fields :
          (r : Run)
          → grant m id r journal c.lease_owner c.lease_duration now db ≡ ok (some lease, db')
          → (lease.run_id ≡ r.id)
            × (active_leases r.id now db.leases < m)
            × (db'.leases ≡ db.leases ++ lease ∷ [])
      fields r g = unfold grant in ground arith

  on_budget-Left :
      (m : ℕ) (journal : Journal) (now remaining : ℕ) (l : Ledger) (db : Db) (lease : CallLease)
      (spent : Result (BudgetDecision × Db)) (d : Decision) (l' : Ledger)
      → acquire m id ctx.run_id journal c.lease_owner c.lease_duration now l.db
        ≡ ok (some lease, db)
      → consume_budget c.codec ctx.run_id "agent_calls" "max_agent_calls_per_run"
          (pos 1)
          now
          false
          db
        ≡ spent
      → on_budget lease.id remaining l spent ≡ returned (d, l')
      → Left ctx.run_id (ok m) now l.db l'.db
  unfolding on_budget
  on_budget-Left m journal now remaining l db lease (err e) d l' got paid h = absurd (cc)
  on_budget-Left m journal now remaining l db lease (ok (b, db')) d l' got paid h =
      let (own, room, grown) = acquired m journal now l.db db lease got in
      let (_, _, _, e) =
        consume_budget-Consumed c.codec ctx.run_id "agent_calls" "max_agent_calls_per_run" (pos 1)
          now false db db' b paid in
      let same : db'.leases ≡ l.db.leases ++ lease ∷ [] =
        ap (λ (x : Db). x.leases) e.stored ∙ grown in
      let path : Reach l.db db' =
        next
          (next here
            (acquires m id ctx.run_id journal c.lease_owner c.lease_duration now (some lease) got))
          (consumes c.codec ctx.run_id "agent_calls" "max_agent_calls_per_run" (pos 1) now false b
            paid) in
      elim (Bool-cases b.allowed) [
        | inl allowed ↦
            let is : l'.db ≡ db' = ground (arith, h, allowed) in
            rw is (
              Left-grown ctx.run_id m now l.db db' lease own room path (λ k. rw same (omega arith)))
        | inr over ↦
            let back : Db = record db' { leases = delete lease_key lease.id db'.leases } in
            let is : l'.db ≡ back = ground (arith, h, over) in
            rw is (
              Left-grown ctx.run_id m now l.db back lease own room
                (next path (settles (delete lease_key lease.id db'.leases) refl))
                (λ k. rw same (
                  count_if-delete lease_key (λ (x : CallLease). x.run_id == k) lease.id
                    (l.db.leases ++ lease ∷ []))))
      ]

  on_lease-Left :
      (m : ℕ) (journal : Journal) (run : Run) (now : ℕ) (l : Ledger)
      (got : Result (Option CallLease × Db)) (d : Decision) (l' : Ledger)
      → acquire m id ctx.run_id journal c.lease_owner c.lease_duration now l.db ≡ got
      → on_lease c ctx run now l got ≡ returned (d, l')
      → Left ctx.run_id (ok m) now l.db l'.db
  unfolding on_lease
  on_lease-Left m journal run now l (err e) d l' got h = absurd (cc)
  on_lease-Left m journal run now l (ok (none, db)) d l' got h =
      let is : l'.db ≡ db = ground (arith, h) in
      let same : db ≡ l.db = unchanged db got in
      rw (is, same) (Left-same ctx.run_id (ok m) now l.db)
    where
      unchanged :
          (db : Db)
          → acquire m id ctx.run_id journal c.lease_owner c.lease_duration now l.db ≡ ok (none, db)
          → db ≡ l.db
      unchanged db h =
          let (r, _, g) =
            acquire-grant m id ctx.run_id journal c.lease_owner c.lease_duration now l.db db none
              h in
          unfold grant in ground (arith, g)
  on_lease-Left m journal run now l (ok (some lease, db)) d l' got h =
      on_budget-Left m journal now (run.deadline_at - now) l db lease _ d l' got refl h

  on_parallel-Left :
      (repair_attempt now : ℕ) (run : Run) (l : Ledger) (limit : Result ℕ) (d : Decision)
      (l' : Ledger)
      → on_parallel c id ctx call repair_attempt now run l limit ≡ returned (d, l')
      → Left ctx.run_id limit now l.db l'.db
  unfolding on_parallel
  on_parallel-Left repair_attempt now run l (err e) d l' h = absurd (cc)
  on_parallel-Left repair_attempt now run l (ok m) d l' h =
      checked (check_journal (journal_of c ctx call repair_attempt)) h
    where
      checked :
          (valid : Result (Unit {0}))
          → elim valid [
            | err e ↦ failed_with (raised e)
            | ok _ ↦ on_lease c ctx run now l (
                acquire m id ctx.run_id
                  (journal_of c ctx call repair_attempt)
                  c.lease_owner
                  c.lease_duration
                  now
                  l.db)
          ]
            ≡ returned (d, l')
          → Left ctx.run_id (ok m) now l.db l'.db
      checked (err e) h = absurd (cc)
      checked (ok u) h =
          on_lease-Left m (journal_of c ctx call repair_attempt) run now l _ d l' refl h

  abbrev limit_of : Run → Result ℕ
  limit_of run = parallel_of (get_field "max_parallel_agent_calls" run.budget_limits)

  refused_same :
      (run : Run) (now : ℕ) (l : Ledger) (d : Decision) (l' : Ledger) (d' : Decision)
      → ◌≡◌ {A = Admission} (returned (d', l)) (returned (d, l'))
      → Left ctx.run_id (limit_of run) now l.db l'.db
  refused_same run now l d l' d' e =
      let is : l' ≡ l = ground (arith, e) in rw is (Left-same ctx.run_id (limit_of run) now l.db)

  admit_new-Left :
      (repair_attempt now : ℕ) (run : Run) (l : Ledger) (d : Decision) (l' : Ledger)
      → admit_new c id ctx call repair_attempt now run l ≡ returned (d, l')
      → Left ctx.run_id (limit_of run) now l.db l'.db
  admit_new-Left repair_attempt now run l d l' h =
      decided (not (is_running run.status) || leb run.deadline_at now)
        (has_active_call ctx.run_id call.id now l.db.leases) (unfold admit_new in h)
    where
      decided :
          (late active : Bool)
          → (if late
              then returned (denied AdmissionKind.deadline_exceeded, l)
              else if active
              then returned (denied AdmissionKind.indeterminate_attempt, l)
              else on_parallel c id ctx call repair_attempt now run l (limit_of run))
            ≡ returned (d, l')
          → Left ctx.run_id (limit_of run) now l.db l'.db
      decided true active e = refused_same run now l d l' (denied AdmissionKind.deadline_exceeded) e
      decided false true e =
          refused_same run now l d l' (denied AdmissionKind.indeterminate_attempt) e
      decided false false e = on_parallel-Left repair_attempt now run l (limit_of run) d l' e

  admit_reconciled-Left :
      (repair_attempt now : ℕ) (run : Run) (l : Ledger) (o : Option AuditRow) (d : Decision)
      (l' : Ledger)
      → admit_reconciled c id ctx call repair_attempt now run l o ≡ returned (d, l')
      → Left ctx.run_id (limit_of run) now l.db l'.db
  unfolding admit_reconciled
  admit_reconciled-Left repair_attempt now run l none d l' h =
      admit_new-Left repair_attempt now run l d l' h
  admit_reconciled-Left repair_attempt now run l (some a) d l' h =
      checked (replay c ctx call a) (unfold admit_audited in h)
    where
      checked :
          (r : SemanticOutcome AgentResult)
          → ◌≡◌ {A = Admission}
              (elim r [
                | failed_with e ↦ failed_with e
                | returned _ ↦ returned (replayed (provider_result_of a), l)
              ])
              (returned (d, l'))
          → Left ctx.run_id (limit_of run) now l.db l'.db
      checked (failed_with e) h = absurd (cc)
      checked (returned r) h = refused_same run now l d l' (replayed (provider_result_of a)) h

  -- A committed admission left the tables as they were, or it found the run, reconciled its leases
  -- and went on from there.
  pub admit-Left :
      (repair_attempt now : ℕ) (l : Ledger) (d : Decision) (l' : Ledger)
      → admit c id ctx call repair_attempt now l ≡ returned (d, l')
      → (l' ≡ l)
        ⊎ ((run : Run) × (get_run ctx.run_id l.db ≡ some run)
            × Left ctx.run_id
                (parallel_of (get_field "max_parallel_agent_calls" run.budget_limits))
                now
                (reconcile ctx.run_id now l).db
                l'.db)
  admit-Left repair_attempt now l d l' h =
      located (get_run ctx.run_id l.db) refl (unfold admit in h)
    where
      base : Ledger
      base = reconcile ctx.run_id now l

      in_context :
          (stale : Bool) (run : Run)
          → (if stale
              then returned (denied AdmissionKind.replay_unavailable, base)
              else admit_reconciled c id ctx call repair_attempt now run base
                  (row audit_key call.id base.audits))
            ≡ returned (d, l')
          → Left ctx.run_id (limit_of run) now base.db l'.db
      in_context true run e =
          refused_same run now base d l' (denied AdmissionKind.replay_unavailable) e
      in_context false run e = admit_reconciled-Left repair_attempt now run base _ d l' e

      located :
          (o : Option Run)
          → get_run ctx.run_id l.db ≡ o
          → ◌≡◌ {A = Admission}
              (elim o [
                | none ↦ returned (denied AdmissionKind.task_context_invalid, l)
                | some run ↦
                    if owns_task ctx.run_id c.lease_owner (get_task ctx.task_id l.db)
                    then admit_in_context c id ctx call repair_attempt now run l
                    else returned (denied AdmissionKind.task_context_invalid, l)
              ])
              (returned (d, l'))
          → (l' ≡ l)
            ⊎ ((run : Run) × (get_run ctx.run_id l.db ≡ some run)
                × Left ctx.run_id (limit_of run) now base.db l'.db)
      located none found e = inl (ground (arith, e))
      located (some run) found e =
          elim (Bool-cases (owns_task ctx.run_id c.lease_owner (get_task ctx.task_id l.db))) [
            | inr foreign ↦ inl (ground (arith, rw foreign at e))
            | inl owns ↦ inr (
              run,
              found,
              in_context (was_stale ctx.run_id call.id now l) run
                  (unfold admit_in_context in rw owns at e),
            )
          ]
