-- ===== src/Semantic/Parallel.antt =====
-- The bound on the provider calls that a run has at once.
use Prim.Native.Nat.{min}
use gapforge.Common.{
  ℕ, ◌+◌, ◌≤◌, ◌≡◌, inl, inr, refl, sym, ap, subst, ◌∙◌, true, false, not, ◌||◌, Bool, some, List,
  [], ◌∷◌, Result, ok, arith, Bool-cases, Option-cases, leb, nat_eq, ◌==◌, string_eq,
}
use gapforge.Json.{get_field}
use gapforge.Rows.{row, put, delete, key-row, IsUnique, count_if-put, count_if-delete}
use gapforge.Queue.Model.{Run, CallLease, Db, get_run, task_key, lease_key, is_running}
use gapforge.Queue.ProviderCalls.{active_leases}
use gapforge.Queue.Steps.{Step, Reach, next, settles, Step-Keep}
use gapforge.Queue.Keys.{Reach-IsUnique}
use gapforge.Queue.Admitting.{Reach-trans}
use gapforge.Semantic.Model.{
  AuditRow, Ledger, Context, Call, returned, andthen-eq-returned, Reasoner, ProviderResult,
}
use gapforge.Semantic.Audit.{
  domain_result, journal_matches, add_audit, audit_row, without_lease, audit_leased,
  audit_and_release,
}
use gapforge.Semantic.Admission.{
  parallel_of, is_stale, unless_stale, reconciled_audits, reconcile_rows, reconcile, beats_for,
  heartbeat_found, heartbeat,
}
use gapforge.Semantic.Transactions.{held, Left, admit-Left}
use gapforge.Semantic.Once.{History, admits, concludes, beats, others}

-- A reconciliation adds no lease, and leaves a run only the leases that are live.
unless_stale-held :
    (k : ℕ) (stale : Bool) (l : CallLease) (xs ls : List CallLease)
    → held k xs ≤ held k ls
    → held k (unless_stale stale l xs) ≤ held k (l ∷ ls)
unless_stale-held k true l xs ls h = ground (arith, h)
unless_stale-held k false l xs ls h = ground (arith, h)

reconcile-held :
    (run_id now k : ℕ) (ls : List CallLease) (audits : List AuditRow)
    → held k (reconcile_rows run_id now ls audits).0 ≤ held k ls
unfolding reconcile_rows
reconcile-held run_id now k [] audits = omega arith
reconcile-held run_id now k (l ∷ ls) audits =
    let audits' = reconciled_audits run_id now l audits in
    unless_stale-held k (is_stale run_id now l) l (reconcile_rows run_id now ls audits').0 ls
      (reconcile-held run_id now k ls audits')

unless_stale-live :
    (run_id now : ℕ) (stale : Bool) (l : CallLease) (xs : List CallLease)
    → is_stale run_id now l ≡ stale
    → held run_id xs ≤ active_leases run_id now xs
    → held run_id (unless_stale stale l xs) ≤ active_leases run_id now (unless_stale stale l xs)
unless_stale-live run_id now true l xs e h = h
unless_stale-live run_id now false l xs e h = ground (arith, h, e)

reconcile-live :
    (run_id now : ℕ) (ls : List CallLease) (audits : List AuditRow)
    → held run_id (reconcile_rows run_id now ls audits).0
      ≤ active_leases run_id now (reconcile_rows run_id now ls audits).0
unfolding reconcile_rows
reconcile-live run_id now [] audits = omega arith
reconcile-live run_id now (l ∷ ls) audits =
    let audits' = reconciled_audits run_id now l audits in
    unless_stale-live run_id now (is_stale run_id now l) l (reconcile_rows run_id now ls audits').0
      refl (reconcile-live run_id now ls audits')

active-held : (k now : ℕ) (ls : List CallLease) → active_leases k now ls ≤ held k ls
active-held k now [] = omega arith
active-held k now (l ∷ ls) = ground (arith, active-held k now ls)

-- An audit takes a lease away, and touches no other row of the queue.
audit-settles :
    (c : Reasoner) (ctx : Context) (call : Call) (r : ProviderResult) (lease_id : ℕ) (l l' : Ledger)
    → audit_and_release c ctx call lease_id r l ≡ returned l'
    → (i : ℕ) × (l'.db ≡ record l.db { leases = delete lease_key i l.db.leases })
unfolding audit_and_release
audit-settles c ctx call r lease_id l l' h =
    let (_, _, e) = andthen-eq-returned (domain_result c call.id r) _ l' h in
    elim (Option-cases (row lease_key lease_id l.db.leases)) [
      | inl missing ↦ absurd (cc (rw missing at e))
      | inr (lease, found) ↦ (lease.id, taken lease (rw found at e))
    ]
  where
    taken :
        (lease : CallLease)
        → audit_leased c ctx call r lease l ≡ returned l'
        → l'.db ≡ record l.db { leases = delete lease_key lease.id l.db.leases }
    taken lease e = elim (Bool-cases (lease.lease_owner == c.lease_owner)) [
      | inr other ↦ absurd (cc (rw (other, audit_leased) at e))
      | inl own ↦ elim (Bool-cases (journal_matches c ctx call r lease)) [
        | inr other ↦ absurd (cc (rw (own, other, audit_leased) at e))
        | inl same ↦ added lease (rw (own, same, audit_leased) at e)
      ]
    ]
      where
        added :
            (lease : CallLease)
            → add_audit (audit_row c ctx call r) (without_lease lease.id l) ≡ returned l'
            → l'.db ≡ record l.db { leases = delete lease_key lease.id l.db.leases }
        added lease e = unfold add_audit in ground arith

-- A beat renews a lease in its place.
beat-settles :
    (c : Reasoner) (lease_id run_id call_id now : ℕ) (l l' : Ledger)
    → heartbeat c lease_id run_id call_id now l ≡ returned l'
    → (lease : CallLease) × (until : ℕ) × (row lease_key lease.id l.db.leases ≡ some lease)
      × (l'.db ≡ record l.db {
        leases = put lease_key (record lease { lease_expires_at = until }) l.db.leases;
      })
unfolding heartbeat
beat-settles c lease_id run_id call_id now l l' h = elim (Option-cases (get_run run_id l.db)) [
  | inl missing ↦ absurd (cc (rw (missing, heartbeat) at h))
  | inr (run, e) ↦ elim (Option-cases (row lease_key lease_id l.db.leases)) [
    | inl missing ↦ absurd (cc (rw (e, missing, heartbeat) at h))
    | inr (lease, found) ↦
        let same = key-row lease_key lease_id l.db.leases lease found in
        (
          lease,
          min (now + c.lease_duration) run.deadline_at,
          subst (λ i. row lease_key i l.db.leases ≡ some lease) (sym same) found,
          renewed run lease (rw (e, found, heartbeat) at h),
        )
  ]
]
  where
    renewed :
        (run : Run) (lease : CallLease)
        → heartbeat_found c run_id call_id now run lease l ≡ returned l'
        → l'.db ≡ record l.db {
          leases =
              put lease_key
                (record lease { lease_expires_at = min (now + c.lease_duration) run.deadline_at })
                l.db.leases;
        }
    renewed run lease e = elim (Bool-cases (beats_for c run_id call_id lease)) [
      | inr other ↦ absurd (cc (rw (other, heartbeat_found) at e))
      | inl ours ↦ elim (Bool-cases (not (is_running run.status) || leb run.deadline_at now)) [
        | inl ended ↦ absurd (cc (rw (ours, ended, heartbeat_found) at e))
        | inr going ↦ ground (arith, rw (ours, going, heartbeat_found) at e)
      ]
    ]

-- A history keeps the limit of a run, which its row holds.
abbrev Limited : ℕ → ℕ → Db → Type 0
Limited k n db =
    (r : Run) × (get_run k db ≡ some r)
    × (parallel_of (get_field "max_parallel_agent_calls" r.budget_limits) ≡ ok n)

Limited-Reach :
    (k n : ℕ) (db db' : Db)
    → IsUnique task_key db.tasks
    → Limited k n db
    → Reach db db'
    → Limited k n db'
Limited-Reach k n db db' u limited Reach.here = limited
Limited-Reach k n db db' u limited (next {db' = mid} path step) =
    let (r, found, limit) = Limited-Reach k n db mid u limited path in
    let (r', found', how) = (Step-Keep mid db' (Reach-IsUnique db mid u path) step).1 k r found in
    elim how [
      | inl same ↦ (
        r',
        found',
        subst
            (λ (x : Run). parallel_of (get_field "max_parallel_agent_calls" x.budget_limits) ≡ ok n)
            (sym same) limit,
      )
      | inr move ↦ (
        r',
        found',
        subst (λ b. parallel_of (get_field "max_parallel_agent_calls" b) ≡ ok n)
            (sym move.same_limits) limit,
      )
    ]

-- After an admission of a run with room the run is within its limit.
admission-held :
    (k n : ℕ) (ctx : Context) (run : Run) (now : ℕ) (l l' : Ledger)
    → get_run ctx.run_id l.db ≡ some run
    → Limited k n l.db
    → held k l.db.leases ≤ n
    → Left ctx.run_id
        (parallel_of (get_field "max_parallel_agent_calls" run.budget_limits))
        now
        (reconcile ctx.run_id now l).db
        l'.db
    → held k l'.db.leases ≤ n
unfolding reconcile
admission-held k n ctx run now l l' found (r, stored, limit) few left = elim (left.bound k) [
  | inl no_more ↦ omega (arith, no_more, reconcile-held ctx.run_id now k l.db.leases l.audits)
  | inr (m, bounded, room, same, one_more) ↦
      let is_run : run ≡ r =
        same_row (get_run k l.db) run r (subst (λ i. get_run i l.db ≡ some run) same found)
          stored in
      let is_limit : m ≡ n = same_limit m (
        sym bounded
        ∙ ap (λ (x : Run). parallel_of (get_field "max_parallel_agent_calls" x.budget_limits))
            is_run
        ∙ limit) in
      let live =
        subst
          (λ i.
            held i (reconcile_rows ctx.run_id now l.db.leases l.audits).0
            ≤ active_leases ctx.run_id now (reconcile_rows ctx.run_id now l.db.leases l.audits).0)
          same (reconcile-live ctx.run_id now l.db.leases l.audits) in
      omega (arith, room, one_more, live, is_limit)
]
  where
    same_row : (o : _) (x y : Run) → o ≡ some x → o ≡ some y → x ≡ y
    same_row o x y a b = cc

    same_limit : (x : ℕ) → ◌≡◌ {A = Result ℕ} (ok x) (ok n) → x ≡ n
    same_limit x e = ground (arith, e)

reconcile-Step : (run_id now : ℕ) (l : Ledger) → Step l.db (reconcile run_id now l).db
unfolding reconcile
reconcile-Step run_id now l = settles (reconcile_rows run_id now l.db.leases l.audits).0 refl

within :
    (k n : ℕ) (l₀ : Ledger) (log : List (ℕ × ℕ)) (l : Ledger)
    → IsUnique task_key l₀.db.tasks
    → Limited k n l₀.db
    → held k l₀.db.leases ≤ n
    → History l₀ log l
    → Reach l₀.db l.db × (held k l.db.leases ≤ n)
within k n l₀ log l u limited few History.here = (Reach.here, few)
within k n l₀ log l' u limited few
      (admits {log = log'} {l = l} c id ctx call repair_attempt now d past fresh h) =
    let (path, b) = within k n l₀ log' l u limited few past in
    elim (admit-Left c id ctx call repair_attempt now l d l' h) [
      | inl same ↦ rw same (path, b)
      | inr (run, found, left) ↦ (
        Reach-trans (next path (reconcile-Step ctx.run_id now l)) left.reach,
        admission-held k n ctx run now l l' found (Limited-Reach k n l₀.db l.db u limited path) b
            left,
      )
    ]
within k n l₀ log l' u limited few (concludes {l = l} c ctx call lease_id result past h) =
    let (path, b) = within k n l₀ log l u limited few past in
    let (i, is) = audit-settles c ctx call result lease_id l l' h in
    let fewer = count_if-delete lease_key (λ (x : CallLease). x.run_id == k) i l.db.leases in
    (next path (settles (delete lease_key i l.db.leases) is), rw is (omega (arith, fewer, b)))
within k n l₀ log l' u limited few (beats {l = l} c lease_id run_id call_id now past h) =
    let (path, b) = within k n l₀ log l u limited few past in
    let (lease, until, found, is) = beat-settles c lease_id run_id call_id now l l' h in
    let lease' = record lease { lease_expires_at = until } in
    let same =
      count_if-put lease_key (λ (x : CallLease). x.run_id == k) lease' l.db.leases lease found in
    (next path (settles (put lease_key lease' l.db.leases) is), rw is (omega (arith, same, b)))
within k n l₀ log l' u limited few (others {l = l} db past step same) =
    let (path, b) = within k n l₀ log l u limited few past in (next path step, rw same b)

-- A run that starts with no more leases than its limit `max_parallel_agent_calls` allows (2 where it
-- has none) never has more provider calls under live leases than that, at whatever moment and
-- whatever workers do: admit and audit calls, renew leases, expired ones too, reconcile them, and
-- work on the queue.
pub parallel_limit_kept :
    (k n : ℕ) (r : Run) (l₀ : Ledger) (log : List (ℕ × ℕ)) (l : Ledger) (now : ℕ)
    → IsUnique task_key l₀.db.tasks
    → get_run k l₀.db ≡ some r
    → parallel_of (get_field "max_parallel_agent_calls" r.budget_limits) ≡ ok n
    → held k l₀.db.leases ≤ n
    → History l₀ log l
    → active_leases k now l.db.leases ≤ n
parallel_limit_kept k n r l₀ log l now u found limit few past =
    let (_, b) = within k n l₀ log l u (r, found, limit) few past in
    omega (arith, active-held k now l.db.leases, b)
