-- ===== src/Semantic/Granting.antt =====
-- What one transaction of the reasoner does to the leases and the calls that the ledger knows.
use gapforge.Common.{
  ℕ, ◌-◌, ◌≡◌, inl, inr, refl, sym, ap, subst, ◌∙◌, String, false, Option, none, some, List, [],
  ◌∷◌, ◌++◌, Result, ok, err, arith, Bool-cases, is_some, nat_eq,
}
use gapforge.Common.Int.{pos}
use gapforge.Rows.{row, delete, delete-append_self, key-row}
use gapforge.Queue.Model.{Run, Journal, CallLease, Db, run_key, lease_key}
use gapforge.Queue.Control.{BudgetDecision, consume_budget}
use gapforge.Queue.RunMoves.{consume_budget-Consumed}
use gapforge.Queue.ProviderCalls.{has_call, check_journal, grant, acquire}
use gapforge.Queue.CallBound.{acquire-grant}
use gapforge.Semantic.Model.{
  AuditRow, audit_key, Ledger, AgentResult, Context, Call, returned, failed_with, raised, Reasoner,
  AdmissionKind,
}
use gapforge.Semantic.Admission.{
  Decision, admitted, replayed, denied, on_budget, on_lease, on_parallel, journal_of, with_db,
}
use gapforge.Semantic.Audit.{replay, provider_result_of, without_lease}

abbrev leases_of : Db → List CallLease
leases_of db = db.leases

-- A spent budget is written to the run only.
consume_leases :
    (c : Reasoner) (k : ℕ) (counter limit_key : String) (now : ℕ) (db db' : Db) (d : BudgetDecision)
    → consume_budget c.codec k counter limit_key (pos 1) now false db ≡ ok (d, db')
    → db'.leases ≡ db.leases
consume_leases c k counter limit_key now db db' d h =
    let (_, _, _, e) =
      consume_budget-Consumed c.codec k counter limit_key (pos 1) now false db db' d h in
    ap leases_of e.stored

-- A granted lease is the last of the table, and the first of its run and call.
pub data Leased (id run_id call_id : ℕ) (db : Db) : Option CallLease → Db → Type 0 where
  refused : Leased id run_id call_id db none db
  leased :
      {db' : Db} (l : CallLease)
      → l.id ≡ id
      → l.run_id ≡ run_id
      → l.journal.call_id ≡ call_id
      → has_call run_id call_id db.leases ≡ false
      → db'.leases ≡ db.leases ++ l ∷ []
      → Leased id run_id call_id db (some l) db'

grant-Leased :
    (max_parallel id : ℕ) (r : Run) (journal : Journal) (owner : String) (duration now : ℕ)
    (db db' : Db) (o : Option CallLease)
    → grant max_parallel id r journal owner duration now db ≡ ok (o, db')
    → Leased id r.id journal.call_id db o db'
grant-Leased max_parallel id r journal owner duration now db db' none h =
    subst (Leased id r.id journal.call_id db none) (sym (unchanged h)) refused
  where
    unchanged : grant max_parallel id r journal owner duration now db ≡ ok (none, db') → db' ≡ db
    unchanged h = unfold grant in ground arith
grant-Leased max_parallel id r journal owner duration now db db' (some l) h =
    let (a, b, c, d, e) = fields h in leased l a b c d e
  where
    fields :
        grant max_parallel id r journal owner duration now db ≡ ok (some l, db')
        → (l.id ≡ id)
          × (l.run_id ≡ r.id)
          × (l.journal.call_id ≡ journal.call_id)
          × (has_call r.id journal.call_id db.leases ≡ false)
          × (db'.leases ≡ db.leases ++ l ∷ [])
    fields h = unfold grant in ground arith

-- The rows as they were; the leases too, where the lease's id was fresh.
abbrev pub SameTables : ℕ → Ledger → Ledger → Type 0
SameTables id l l' =
    (row lease_key id l.db.leases ≡ none → l'.db.leases ≡ l.db.leases) × (l'.audits ≡ l.audits)

module _ (c : Reasoner) (id : ℕ) (ctx : Context) (call : Call) where
  -- What a decision leaves: the rows that it found, and the lease that it admits by.
  pub data Decided (l l' : Ledger) : Decision → Type 0 where
    grants :
        (lease : CallLease) (remaining : ℕ)
        → lease.id ≡ id
        → lease.run_id ≡ ctx.run_id
        → lease.journal.call_id ≡ call.id
        → has_call ctx.run_id call.id l.db.leases ≡ false
        → is_some (row audit_key call.id l.audits) ≡ false
        → l'.db.leases ≡ l.db.leases ++ lease ∷ []
        → l'.audits ≡ l.audits
        → Decided l l' (admitted id remaining)
    replays :
        (a : AuditRow) (answer : AgentResult)
        → row audit_key call.id l.audits ≡ some a
        → replay c ctx call a ≡ returned answer
        → SameTables id l l'
        → Decided l l' (replayed (provider_result_of a))
    denies : (kind : AdmissionKind) → SameTables id l l' → Decided l l' (denied kind)

  on_budget-Decided :
      (l : Ledger) (db : Db) (lease : CallLease) (remaining now : ℕ)
      (spent : Result (BudgetDecision × Db)) (d : Decision) (l' : Ledger)
      → consume_budget c.codec ctx.run_id "agent_calls" "max_agent_calls_per_run"
          (pos 1)
          now
          false
          db
        ≡ spent
      → is_some (row audit_key call.id l.audits) ≡ false
      → Leased id ctx.run_id call.id l.db (some lease) db
      → on_budget lease.id remaining l spent ≡ returned (d, l')
      → Decided l l' d
  unfolding on_budget
  on_budget-Decided l db lease remaining now (err e) d l' b unknown g h = absurd (cc)
  on_budget-Decided l db lease remaining now (ok (b, db')) d l' spent unknown
        (leased _ own by_run by_call new grown) h =
      let same =
        consume_leases c ctx.run_id "agent_calls" "max_agent_calls_per_run" now db db' b spent in
      elim (Bool-cases b.allowed) [
        | inl allowed ↦
            let is : d ≡ admitted lease.id remaining = ground (arith, h, allowed) in
            let tables : l' ≡ with_db db' l = ground (arith, h, allowed) in
            rw (is, tables, own)
              (grants lease remaining own by_run by_call new unknown (same ∙ grown) refl)
        | inr over ↦
            let is : d ≡ denied AdmissionKind.budget_exhausted = ground (arith, h, over) in
            let tables : l' ≡ without_lease lease.id (with_db db' l) = ground (arith, h, over) in
            rw (is, tables)
              (denies AdmissionKind.budget_exhausted (
                λ fresh.
                    ap (delete lease_key lease.id) (same ∙ grown)
                    ∙ delete-append_self lease_key lease l.db.leases
                        (subst (λ i. row lease_key i l.db.leases ≡ none) (sym own) fresh),
                refl,
              ))
      ]

  on_lease-Decided :
      (run : Run) (now : ℕ) (l : Ledger) (o : Option CallLease) (db : Db) (d : Decision)
      (l' : Ledger)
      → is_some (row audit_key call.id l.audits) ≡ false
      → Leased id ctx.run_id call.id l.db o db
      → on_lease c ctx run now l (ok (o, db)) ≡ returned (d, l')
      → Decided l l' d
  unfolding on_lease
  on_lease-Decided run now l none db d l' unknown refused h =
      let is : d ≡ denied AdmissionKind.parallel_limit = ground (arith, h) in
      let tables : l' ≡ with_db l.db l = ground (arith, h) in
      rw (is, tables) (denies AdmissionKind.parallel_limit (λ _. refl, refl))
  on_lease-Decided run now l (some lease) db d l' unknown got h =
      on_budget-Decided l db lease (run.deadline_at - now) now _ d l' refl unknown got h

  acquire-Leased :
      (max_parallel : ℕ) (journal : Journal) (now : ℕ) (db db' : Db) (o : Option CallLease)
      → journal.call_id ≡ call.id
      → acquire max_parallel id ctx.run_id journal c.lease_owner c.lease_duration now db
        ≡ ok (o, db')
      → Leased id ctx.run_id call.id db o db'
  acquire-Leased max_parallel journal now db db' o same h =
      let (r, found, g) =
        acquire-grant max_parallel id ctx.run_id journal c.lease_owner c.lease_duration now db db' o
          h in
      rw (sym (key-row run_key ctx.run_id db.runs r found), sym same)
        (grant-Leased max_parallel id r journal c.lease_owner c.lease_duration now db db' o g)

  on_acquired-Decided :
      (run : Run) (now : ℕ) (l : Ledger) (max_parallel : ℕ) (journal : Journal)
      (got : Result (Option CallLease × Db)) (d : Decision) (l' : Ledger)
      → is_some (row audit_key call.id l.audits) ≡ false
      → journal.call_id ≡ call.id
      → acquire max_parallel id ctx.run_id journal c.lease_owner c.lease_duration now l.db ≡ got
      → on_lease c ctx run now l got ≡ returned (d, l')
      → Decided l l' d
  on_acquired-Decided run now l max_parallel journal (err e) d l' unknown same g h =
      absurd (unfold on_lease in cc)
  on_acquired-Decided run now l max_parallel journal (ok (o, db)) d l' unknown same g h =
      on_lease-Decided run now l o db d l' unknown
        (acquire-Leased max_parallel journal now l.db db o same g) h

  pub on_parallel-Decided :
      (repair_attempt now : ℕ) (run : Run) (l : Ledger) (limit : Result ℕ) (d : Decision)
      (l' : Ledger)
      → is_some (row audit_key call.id l.audits) ≡ false
      → on_parallel c id ctx call repair_attempt now run l limit ≡ returned (d, l')
      → Decided l l' d
  unfolding on_parallel
  on_parallel-Decided repair_attempt now run l (err e) d l' unknown h = absurd (cc)
  on_parallel-Decided repair_attempt now run l (ok max_parallel) d l' unknown h =
      checked (check_journal (journal_of c ctx call repair_attempt)) h
    where
      checked :
          (valid : Result (Unit {0}))
          → elim valid [
            | err e ↦ failed_with (raised e)
            | ok _ ↦ on_lease c ctx run now l (
                acquire max_parallel id ctx.run_id
                  (journal_of c ctx call repair_attempt)
                  c.lease_owner
                  c.lease_duration
                  now
                  l.db)
          ]
            ≡ returned (d, l')
          → Decided l l' d
      checked (err e) h = absurd (cc)
      checked (ok u) h =
          on_acquired-Decided run now l max_parallel (journal_of c ctx call repair_attempt) _ d l'
            unknown refl refl h
