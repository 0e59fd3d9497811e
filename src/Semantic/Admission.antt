-- ===== src/Semantic/Admission.antt =====
-- `_admit`, `_reconcile_stale_attempts` and `_heartbeat_provider_lease`. Each is one transaction: a
-- decision is committed with the tables, also where it denies, and an exception commits nothing.
use Prim.Native.Nat.{min}
use gapforge.Common.{
  ℕ, ◌+◌, ◌-◌, ◌*◌, ◌/◌, ◌%◌, Bool, true, false, not, ◌&&◌, ◌||◌, Option, none, some, List, [], ◌∷◌,
  ◌++◌, value_error, Result, ok, err, leb, ltb, ◌==◌, nat_eq, string_eq, if◌then◌else◌, any,
  is_some,
}
use gapforge.Common.Int.{pos}
use gapforge.Json.{Json, integer, get_field}
use gapforge.Rows.{row, put}
use gapforge.Queue.Model.{Run, Journal, CallLease, Db, get_run, get_task, lease_key, is_running}
use gapforge.Queue.Control.{BudgetDecision, consume_budget}
use gapforge.Queue.ProviderCalls.{owns_task, check_journal, acquire}
use gapforge.Semantic.Model.{
  failed, ProviderResult, AuditRow, audit_key, Ledger, Context, Call, AdmissionKind,
  budget_exhausted, deadline_exceeded, parallel_limit, task_context_invalid, replay_unavailable,
  indeterminate_attempt, admission, raised, SemanticOutcome, failed_with, returned, Reasoner,
}
use gapforge.Semantic.Audit.{replay, provider_result_of, without_lease}

-- `round(n / unit)`: to the nearest, and in the middle to the even one.
abbrev pub round_to : ℕ → ℕ → ℕ
round_to unit n =
    let q = n / unit in
    let r = n % unit in
    if ltb (2 * r) unit then q else if ltb unit (2 * r) then q + 1 else q + q % 2

abbrev pub stale_row : CallLease → AuditRow
stale_row l = record {
  id = l.journal.call_id;
  run_id = l.run_id;
  task_id = l.journal.task_id;
  provider = l.journal.provider;
  operation = l.journal.operation;
  output_schema_name = l.journal.output_schema_name;
  output_schema_sha256 = l.journal.output_schema_sha256;
  request_sha256 = l.journal.request_sha256;
  requested_model = l.journal.requested_model;
  resolved_model = none;
  effort = l.journal.effort;
  cli_version = none;
  status = failed;
  duration_ms = round_to 1000000 (l.lease_expires_at - l.created_at) * 1000;
  repair_attempts = l.journal.repair_attempt;
  usage = record { input_tokens = 0; cached_input_tokens = 0; output_tokens = 0 };
  error_class = some "StaleProviderCall";
  output_json = none;
  output_sha256 = none;
}

abbrev pub is_stale : ℕ → ℕ → CallLease → Bool
is_stale run_id now l = l.run_id == run_id && leb l.lease_expires_at now

-- The audit rows after one lease: a stale one has its row written, unless there is one.
unfoldable pub reconciled_audits : ℕ → ℕ → CallLease → List AuditRow → List AuditRow
reconciled_audits run_id now l audits =
    if is_stale run_id now l && not (is_some (row audit_key l.journal.call_id audits))
    then audits ++ stale_row l ∷ []
    else audits

abbrev pub unless_stale : Bool → CallLease → List CallLease → List CallLease
unless_stale true l ls = ls
unless_stale false l ls = l ∷ ls

-- The loop over the stale leases, on the leases and the audit rows.
unfoldable pub reconcile_rows :
    ℕ → ℕ → List CallLease → List AuditRow → List CallLease × List AuditRow
unfolding reconciled_audits
reconcile_rows run_id now [] audits = ([], audits)
reconcile_rows run_id now (l ∷ ls) audits =
    let rest = reconcile_rows run_id now ls (reconciled_audits run_id now l audits) in
    (unless_stale (is_stale run_id now l) l rest.0, rest.1)

unfoldable pub reconcile : ℕ → ℕ → Ledger → Ledger
unfolding reconcile_rows
reconcile run_id now l =
    let rows = reconcile_rows run_id now l.db.leases l.audits in
    record { db = record l.db { leases = rows.0 }; audits = rows.1 }

-- `target_was_stale`
abbrev pub was_stale : ℕ → ℕ → ℕ → Ledger → Bool
was_stale run_id call_id now l =
    any (λ x. is_stale run_id now x && x.journal.call_id == call_id) l.db.leases

pub data Decision : Type 0 where
  admitted : ℕ → ℕ → Decision  -- the lease, and the microseconds that remain
  replayed : ProviderResult → Decision
  denied : AdmissionKind → Decision

abbrev pub Admission : Type 0
Admission = SemanticOutcome (Decision × Ledger)

-- `budget_limits["max_parallel_agent_calls"]`, 2 if it is not there.
abbrev pub parallel_of : Option Json → Result ℕ
parallel_of none = ok 2
parallel_of (some (integer (pos n))) = if leb 1 n && leb n 2 then ok n else err value_error
parallel_of (some _) = err value_error

abbrev pub journal_of : Reasoner → Context → Call → ℕ → Journal
journal_of c ctx call repair_attempt = record {
  task_id = ctx.task_id;
  call_id = call.id;
  operation = call.operation;
  output_schema_name = call.output_schema_name;
  output_schema_sha256 = call.schema_hash;
  request_sha256 = call.request_hash;
  provider = c.provider_name;
  requested_model = c.model;
  effort = call.effort;
  repair_attempt = repair_attempt;
}

abbrev pub with_db : Db → Ledger → Ledger
with_db db l = record l { db = db }

-- The budget decides on the lease that was acquired.
unfoldable pub on_budget : ℕ → ℕ → Ledger → Result (BudgetDecision × Db) → Admission
on_budget lease_id remaining l (err e) = failed_with (raised e)
on_budget lease_id remaining l (ok (d, db)) =
    if d.allowed
    then returned (admitted lease_id remaining, with_db db l)
    else returned (denied budget_exhausted, without_lease lease_id (with_db db l))

unfoldable pub on_lease :
    Reasoner → Context → Run → ℕ → Ledger → Result (Option CallLease × Db) → Admission
unfolding on_budget
on_lease c ctx run now l (err e) = failed_with (raised e)
on_lease c ctx run now l (ok (none, db)) = returned (denied parallel_limit, with_db db l)
on_lease c ctx run now l (ok (some lease, db)) =
    on_budget lease.id (run.deadline_at - now) l (
      consume_budget c.codec ctx.run_id "agent_calls" "max_agent_calls_per_run" (pos 1) now false
        db)

unfoldable pub on_parallel :
    Reasoner → ℕ → Context → Call → ℕ → ℕ → Run → Ledger → Result ℕ → Admission
unfolding on_lease
on_parallel c id ctx call repair_attempt now run l (err e) = failed_with (raised e)
on_parallel c id ctx call repair_attempt now run l (ok max_parallel) =
    let journal = journal_of c ctx call repair_attempt in
    elim (check_journal journal) [
      | err e ↦ failed_with (raised e)
      | ok _ ↦
          on_lease c ctx run now l
            (acquire max_parallel id ctx.run_id journal c.lease_owner c.lease_duration now l.db)
    ]

abbrev pub has_active_call : ℕ → ℕ → ℕ → List CallLease → Bool
has_active_call run_id call_id now ls =
    any (λ l. l.run_id == run_id && l.journal.call_id == call_id && ltb now l.lease_expires_at) ls

-- A call that neither was audited nor has gone stale.
unfoldable pub admit_new : Reasoner → ℕ → Context → Call → ℕ → ℕ → Run → Ledger → Admission
unfolding on_parallel
admit_new c id ctx call repair_attempt now run l =
    if not (is_running run.status) || leb run.deadline_at now
    then returned (denied deadline_exceeded, l)
    else if has_active_call ctx.run_id call.id now l.db.leases
    then returned (denied indeterminate_attempt, l)
    else on_parallel c id ctx call repair_attempt now run l
        (parallel_of (get_field "max_parallel_agent_calls" run.budget_limits))

-- The replay of an audited call; its result is checked and then read from the row.
unfoldable pub admit_audited : Reasoner → Context → Call → Ledger → AuditRow → Admission
unfolding replay
admit_audited c ctx call l a = elim (replay c ctx call a) [
  | failed_with e ↦ failed_with e
  | returned _ ↦ returned (replayed (provider_result_of a), l)
]

unfoldable pub admit_reconciled :
    Reasoner → ℕ → Context → Call → ℕ → ℕ → Run → Ledger → Option AuditRow → Admission
unfolding admit_audited admit_new
admit_reconciled c id ctx call repair_attempt now run l (some a) = admit_audited c ctx call l a
admit_reconciled c id ctx call repair_attempt now run l none =
    admit_new c id ctx call repair_attempt now run l

unfoldable pub admit_in_context : Reasoner → ℕ → Context → Call → ℕ → ℕ → Run → Ledger → Admission
unfolding reconcile admit_reconciled
admit_in_context c id ctx call repair_attempt now run l =
    let l' = reconcile ctx.run_id now l in
    if was_stale ctx.run_id call.id now l
    then returned (denied replay_unavailable, l')
    else admit_reconciled c id ctx call repair_attempt now run l' (row audit_key call.id l'.audits)

-- `_admit`; `id` is the lease's fresh UUID.
unfoldable pub admit : Reasoner → ℕ → Context → Call → ℕ → ℕ → Ledger → Admission
unfolding admit_in_context
admit c id ctx call repair_attempt now l = elim (get_run ctx.run_id l.db) [
  | none ↦ returned (denied task_context_invalid, l)
  | some run ↦
      if owns_task ctx.run_id c.lease_owner (get_task ctx.task_id l.db)
      then admit_in_context c id ctx call repair_attempt now run l
      else returned (denied task_context_invalid, l)
]

abbrev pub beats_for : Reasoner → ℕ → ℕ → CallLease → Bool
beats_for c run_id call_id lease =
    lease.run_id == run_id && lease.journal.call_id == call_id && lease.lease_owner == c.lease_owner

-- One beat of `_heartbeat_provider_lease`.
unfoldable pub heartbeat_found :
    Reasoner → ℕ → ℕ → ℕ → Run → CallLease → Ledger → SemanticOutcome Ledger
heartbeat_found c run_id call_id now run lease l =
    if not (beats_for c run_id call_id lease)
    then failed_with (admission indeterminate_attempt)
    else if not (is_running run.status) || leb run.deadline_at now
    then failed_with (admission indeterminate_attempt)
    else (let lease' = record lease {
      lease_expires_at = min (now + c.lease_duration) run.deadline_at;
    } in
        returned (with_db (record l.db { leases = put lease_key lease' l.db.leases }) l))

unfoldable pub heartbeat : Reasoner → ℕ → ℕ → ℕ → ℕ → Ledger → SemanticOutcome Ledger
unfolding heartbeat_found
heartbeat c lease_id run_id call_id now l = elim (get_run run_id l.db) [
  | none ↦ failed_with (admission indeterminate_attempt)
  | some run ↦ elim (row lease_key lease_id l.db.leases) [
    | none ↦ failed_with (admission indeterminate_attempt)
    | some lease ↦ heartbeat_found c run_id call_id now run lease l
  ]
]
