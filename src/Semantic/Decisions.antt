-- ===== src/Semantic/Decisions.antt =====
-- What a committed `_admit` leaves, on each of its branches.
use gapforge.Common.{
  ℕ, ◌≡◌, ◌⊎◌, inl, inr, refl, Bool, true, false, not, leb, if◌then◌else◌, ◌||◌, Option, none, some,
  arith, is_some, nat_eq,
}
use gapforge.Json.{get_field}
use gapforge.Rows.{row}
use gapforge.Queue.Model.{Run, get_run, get_task, is_running}
use gapforge.Queue.ProviderCalls.{owns_task}
use gapforge.Semantic.Model.{
  AuditRow, audit_key, Ledger, AgentResult, Context, Call, SemanticOutcome, returned, failed_with,
  Reasoner, AdmissionKind,
}
use gapforge.Semantic.Admission.{
  Decision, replayed, denied, Admission, on_parallel, admit_new, admit_audited, admit_reconciled,
  admit_in_context, admit, reconcile, was_stale, parallel_of, has_active_call,
}
use gapforge.Semantic.Audit.{replay, provider_result_of}
use gapforge.Semantic.Granting.{Decided, replays, denies, on_parallel-Decided}

module _ (c : Reasoner) (id : ℕ) (ctx : Context) (call : Call) where
  abbrev Leaves : Ledger → Ledger → Decision → Type 0
  Leaves l l' d = Decided c id ctx call l l' d

  refusal :
      (l : Ledger) (d : Decision) (l' : Ledger) (kind : AdmissionKind)
      → ◌≡◌ {A = Admission} (returned (denied kind, l)) (returned (d, l'))
      → Leaves l l' d
  refusal l d l' kind e =
      let is : d ≡ denied kind = ground (arith, e) in
      let tables : l' ≡ l = ground (arith, e) in rw (is, tables) (denies kind (λ _. refl, refl))

  admit_new-Decided :
      (repair_attempt now : ℕ) (run : Run) (l : Ledger) (d : Decision) (l' : Ledger)
      → is_some (row audit_key call.id l.audits) ≡ false
      → admit_new c id ctx call repair_attempt now run l ≡ returned (d, l')
      → Leaves l l' d
  admit_new-Decided repair_attempt now run l d l' unknown h =
      decided (not (is_running run.status) || leb run.deadline_at now)
        (has_active_call ctx.run_id call.id now l.db.leases) (unfold admit_new in h)
    where
      decided :
          (late active : Bool)
          → (if late
              then returned (denied AdmissionKind.deadline_exceeded, l)
              else if active
              then returned (denied AdmissionKind.indeterminate_attempt, l)
              else on_parallel c id ctx call repair_attempt now run l
                  (parallel_of (get_field "max_parallel_agent_calls" run.budget_limits)))
            ≡ returned (d, l')
          → Leaves l l' d
      decided true active e = refusal l d l' AdmissionKind.deadline_exceeded e
      decided false true e = refusal l d l' AdmissionKind.indeterminate_attempt e
      decided false false e =
          on_parallel-Decided c id ctx call repair_attempt now run l
            (parallel_of (get_field "max_parallel_agent_calls" run.budget_limits)) d l' unknown e

  admit_reconciled-Decided :
      (repair_attempt now : ℕ) (run : Run) (l : Ledger) (o : Option AuditRow) (d : Decision)
      (l' : Ledger)
      → row audit_key call.id l.audits ≡ o
      → admit_reconciled c id ctx call repair_attempt now run l o ≡ returned (d, l')
      → Leaves l l' d
  unfolding admit_reconciled
  admit_reconciled-Decided repair_attempt now run l none d l' found h =
      admit_new-Decided repair_attempt now run l d l' (rw found refl) h
  admit_reconciled-Decided repair_attempt now run l (some a) d l' found h =
      checked (replay c ctx call a) refl (unfold admit_audited in h)
    where
      checked :
          (r : SemanticOutcome AgentResult)
          → replay c ctx call a ≡ r
          → ◌≡◌ {A = Admission}
              (elim r [
                | failed_with e ↦ failed_with e
                | returned _ ↦ returned (replayed (provider_result_of a), l)
              ])
              (returned (d, l'))
          → Leaves l l' d
      checked (failed_with e) _ h = absurd (cc)
      checked (returned r) answered h =
          let is : d ≡ replayed (provider_result_of a) = ground (arith, h) in
          let tables : l' ≡ l = ground (arith, h) in
          rw (is, tables) (replays a r found answered (λ _. refl, refl))

  -- What a committed admission leaves, after the reconciliation or before it.
  pub admit-Decided :
      (repair_attempt now : ℕ) (l : Ledger) (d : Decision) (l' : Ledger)
      → admit c id ctx call repair_attempt now l ≡ returned (d, l')
      → (base : Ledger) × ((base ≡ l) ⊎ (base ≡ reconcile ctx.run_id now l)) × Leaves base l' d
  admit-Decided repair_attempt now l d l' h = located (get_run ctx.run_id l.db) (unfold admit in h)
    where
      base : Ledger
      base = reconcile ctx.run_id now l

      in_context :
          (stale : Bool) (run : Run)
          → (if stale
              then returned (denied AdmissionKind.replay_unavailable, base)
              else admit_reconciled c id ctx call repair_attempt now run base
                  (row audit_key call.id base.audits))
            ≡ returned (d, l')
          → Leaves base l' d
      in_context true run e = refusal base d l' AdmissionKind.replay_unavailable e
      in_context false run e = admit_reconciled-Decided repair_attempt now run base _ d l' refl e

      owned :
          (owns : Bool) (run : Run)
          → (if owns
              then admit_in_context c id ctx call repair_attempt now run l
              else returned (denied AdmissionKind.task_context_invalid, l))
            ≡ returned (d, l')
          → (b : Ledger) × ((b ≡ l) ⊎ (b ≡ base)) × Leaves b l' d
      owned true run e = (
        base,
        inr refl,
        in_context (was_stale ctx.run_id call.id now l) run (unfold admit_in_context in e),
      )
      owned false run e = (l, inl refl, refusal l d l' AdmissionKind.task_context_invalid e)

      located :
          (o : Option Run)
          → ◌≡◌ {A = Admission}
              (elim o [
                | none ↦ returned (denied AdmissionKind.task_context_invalid, l)
                | some run ↦
                    if owns_task ctx.run_id c.lease_owner (get_task ctx.task_id l.db)
                    then admit_in_context c id ctx call repair_attempt now run l
                    else returned (denied AdmissionKind.task_context_invalid, l)
              ])
              (returned (d, l'))
          → (b : Ledger) × ((b ≡ l) ⊎ (b ≡ base)) × Leaves b l' d
      located none e = (l, inl refl, refusal l d l' AdmissionKind.task_context_invalid e)
      located (some run) e =
          owned (owns_task ctx.run_id c.lease_owner (get_task ctx.task_id l.db)) run e
