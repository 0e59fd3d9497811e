-- ===== src/Semantic/Losing.antt =====
-- No transaction of the reasoner loses a call that the ledger knows.
use Prim.Native.Nat.{min}
use gapforge.Common.{
  ℕ, ◌+◌, ◌≡◌, inl, inr, refl, sym, ap, subst, ◌∙◌, Bool, true, false, not, leb, if◌then◌else◌,
  ◌&&◌, ◌||◌, none, some, [], ◌∷◌, ◌++◌, arith, any, any-append, Bool-cases, Option-cases, is_some,
  nat_beq, ◌==◌, nat_eq, string_eq,
}
use gapforge.Rows.{
  row, put, delete, IsUnique, append-IsUnique, key-row, any-put, any-delete, put-IsUnique,
  delete-IsUnique,
}
use gapforge.Queue.Model.{Run, CallLease, Db, get_run, lease_key, is_running}
use gapforge.Semantic.Model.{
  AuditRow, audit_key, Ledger, Context, Call, AdmissionKind, admission, returned, failed_with,
  andthen-eq-returned, Reasoner, ProviderResult,
}
use gapforge.Semantic.Audit.{
  add_audit, audit_row, without_lease, audit_leased, audit_and_release, journal_matches,
  domain_result,
}
use gapforge.Semantic.Admission.{Decision, with_db, heartbeat, heartbeat_found, beats_for}
use gapforge.Semantic.Reconciled.{known, known_in, audited-append, audited-append_self}
use gapforge.Semantic.Granting.{Decided, grants, replays, denies}

-- A transaction loses no call: what the ledger knew it still knows, and the keys stay distinct.
pub record NoLoss (l l' : Ledger) : Type 0 where
  pub kept : (run_id call_id : ℕ) → known run_id call_id l ≡ true → known run_id call_id l' ≡ true
  pub distinct : IsUnique lease_key l'.db.leases

abbrev pub is_call : ℕ → ℕ → CallLease → Bool
is_call run_id call_id l = l.run_id == run_id && l.journal.call_id == call_id

-- The audit of a call: its lease goes and its row comes.
module _ (c : Reasoner) (ctx : Context) (call : Call) (r : ProviderResult) where
  add_audit-fields :
      (a : AuditRow) (l l' : Ledger)
      → add_audit a l ≡ returned l'
      → (l'.db ≡ l.db) × (l'.audits ≡ l.audits ++ a ∷ []) × (row audit_key a.id l.audits ≡ none)
  unfolding add_audit
  add_audit-fields a l l' h = ground arith

  journal_matches-call :
      (lease : CallLease)
      → journal_matches c ctx call r lease ≡ true
      → (lease.run_id ≡ ctx.run_id) × (lease.journal.call_id ≡ call.id)
  journal_matches-call lease h = ground arith

  audit_leased-fields :
      (lease : CallLease) (l l' : Ledger)
      → audit_leased c ctx call r lease l ≡ returned l'
      → (lease.run_id ≡ ctx.run_id)
        × (lease.journal.call_id ≡ call.id)
        × (l'.db.leases ≡ delete lease_key lease.id l.db.leases)
        × (l'.audits ≡ l.audits ++ audit_row c ctx call r ∷ [])
        × (row audit_key call.id l.audits ≡ none)
  unfolding audit_leased
  audit_leased-fields lease l l' h = elim (Bool-cases (lease.lease_owner == c.lease_owner)) [
    | inr other ↦ absurd (ground (arith, h, other))
    | inl own ↦ elim (Bool-cases (journal_matches c ctx call r lease)) [
      | inr other ↦ absurd (cc (rw (own, other) at h))
      | inl same ↦
          let (by_run, by_call) = journal_matches-call lease same in
          let (db, audits, new) =
            add_audit-fields (audit_row c ctx call r) (without_lease lease.id l) l'
              (rw (own, same) at h) in
          (by_run, by_call, ap (λ (x : Db). x.leases) db, audits, new)
    ]
  ]

  -- The lease that an audit takes was there, and it was the call's.
  pub audit_and_release-fields :
      (lease_id : ℕ) (l l' : Ledger)
      → audit_and_release c ctx call lease_id r l ≡ returned l'
      → (lease : CallLease) × (row lease_key lease_id l.db.leases ≡ some lease)
        × (lease.run_id ≡ ctx.run_id)
        × (lease.journal.call_id ≡ call.id)
        × (l'.db.leases ≡ delete lease_key lease_id l.db.leases)
        × (l'.audits ≡ l.audits ++ audit_row c ctx call r ∷ [])
        × (row audit_key call.id l.audits ≡ none)
  unfolding audit_and_release
  audit_and_release-fields lease_id l l' h =
      let (_, _, e) = andthen-eq-returned (domain_result c call.id r) _ l' h in
      elim (Option-cases (row lease_key lease_id l.db.leases)) [
        | inl missing ↦ absurd (cc (rw missing at e))
        | inr (lease, found) ↦
            let (by_run, by_call, leases, audits, new) =
              audit_leased-fields lease l l' (rw found at e) in
            let same = key-row lease_key lease_id l.db.leases lease found in
            (
              lease,
              found,
              by_run,
              by_call,
              leases ∙ ap (λ i. delete lease_key i l.db.leases) same,
              audits,
              new,
            )
      ]

  pub audit_and_release-NoLoss :
      (lease_id : ℕ) (l l' : Ledger)
      → IsUnique lease_key l.db.leases
      → audit_and_release c ctx call lease_id r l ≡ returned l'
      → NoLoss l l'
  audit_and_release-NoLoss lease_id l l' u h =
      let (lease, found, by_run, by_call, leases, audits, _) =
        audit_and_release-fields lease_id l l' h in
      record {
        distinct = rw leases (delete-IsUnique lease_key lease_id l.db.leases u);
        kept = λ run_id call_id e.
            subst (λ ls. known_in run_id call_id ls l'.audits ≡ true) (sym leases)
              (subst
                (λ rows.
                  known_in run_id call_id (delete lease_key lease_id l.db.leases) rows ≡ true)
                (sym audits) (kept_known lease run_id call_id found by_call e));
      }
    where
      kept_known :
          (lease : CallLease) (run_id call_id : ℕ)
          → row lease_key lease_id l.db.leases ≡ some lease
          → lease.journal.call_id ≡ call.id
          → known run_id call_id l ≡ true
          → known_in run_id call_id
              (delete lease_key lease_id l.db.leases)
              (l.audits ++ audit_row c ctx call r ∷ [])
            ≡ true
      kept_known lease run_id call_id found by_call e =
          elim (Bool-cases (nat_beq call.id call_id)) [
            | inl same ↦
                let id : call.id ≡ call_id = ground (arith, same) in
                let there =
                  subst
                    (λ k.
                      is_some (row audit_key k (l.audits ++ audit_row c ctx call r ∷ [])) ≡ true)
                    id (audited-append_self l.audits (audit_row c ctx call r)) in
                ground (arith, there)
            | inr other ↦ elim (Bool-cases (is_some (row audit_key call_id l.audits))) [
              | inl audited ↦
                  let there = audited-append call_id l.audits (audit_row c ctx call r) audited in
                  ground (arith, there)
              | inr absent ↦
                  let away : is_call run_id call_id lease ≡ false =
                    ground (arith, other, by_call) in
                  let stays =
                    any-delete lease_key (is_call run_id call_id) lease_id l.db.leases lease u found
                      away in
                  ground (arith, stays, e, absent)
            ]
          ]

-- A beat renews the lease in its place.
renewed-NoLoss :
    (lease : CallLease) (until : ℕ) (l l' : Ledger)
    → IsUnique lease_key l.db.leases
    → row lease_key lease.id l.db.leases ≡ some lease
    → l'.db.leases ≡ put lease_key (record lease { lease_expires_at = until }) l.db.leases
    → l'.audits ≡ l.audits
    → NoLoss l l'
renewed-NoLoss lease until l l' u found leases audits =
    let lease' = record lease { lease_expires_at = until } in
    record {
      distinct = rw leases (put-IsUnique lease_key lease' l.db.leases u);
      kept = λ run_id call_id e.
          let same : any (is_call run_id call_id) (put lease_key lease' l.db.leases)
              ≡ any (is_call run_id call_id) l.db.leases =
            any-put lease_key (is_call run_id call_id) lease' l.db.leases lease found refl in
          rw (leases, audits, same) e;
    }

heartbeat_found-fields :
    (c : Reasoner) (run_id call_id now : ℕ) (run : Run) (lease : CallLease) (l l' : Ledger)
    → heartbeat_found c run_id call_id now run lease l ≡ returned l'
    → (l'.audits ≡ l.audits)
      × (l'.db.leases
          ≡ put lease_key
              (record lease { lease_expires_at = min (now + c.lease_duration) run.deadline_at })
              l.db.leases)
unfolding heartbeat_found
heartbeat_found-fields c run_id call_id now run lease l l' h =
    tested (beats_for c run_id call_id lease)
      (not (is_running run.status) || leb run.deadline_at now) h
  where
    beaten : Ledger
    beaten =
        with_db
          (record l.db {
            leases =
                put lease_key
                  (record lease { lease_expires_at = min (now + c.lease_duration) run.deadline_at })
                  l.db.leases;
          })
          l

    tested :
        (ours ended : Bool)
        → (if not ours
            then failed_with (admission AdmissionKind.indeterminate_attempt)
            else if ended
            then failed_with (admission AdmissionKind.indeterminate_attempt)
            else returned beaten)
          ≡ returned l'
        → (l'.audits ≡ l.audits) × (l'.db.leases ≡ beaten.db.leases)
    tested false ended e = absurd (cc)
    tested true true e = absurd (cc)
    tested true false e = let is : beaten ≡ l' = ground (arith, e) in rw (sym is) (refl, refl)

pub heartbeat-NoLoss :
    (c : Reasoner) (lease_id run_id call_id now : ℕ) (l l' : Ledger)
    → IsUnique lease_key l.db.leases
    → heartbeat c lease_id run_id call_id now l ≡ returned l'
    → NoLoss l l'
unfolding heartbeat
heartbeat-NoLoss c lease_id run_id call_id now l l' u h =
    elim (Option-cases (get_run run_id l.db)) [
      | inl missing ↦ absurd (cc (rw (missing, heartbeat) at h))
      | inr (run, e) ↦ elim (Option-cases (row lease_key lease_id l.db.leases)) [
        | inl missing ↦ absurd (cc (rw (e, missing, heartbeat) at h))
        | inr (lease, found) ↦
            let (audits, leases) =
              heartbeat_found-fields c run_id call_id now run lease l l'
                (rw (e, found, heartbeat) at h) in
            let same = key-row lease_key lease_id l.db.leases lease found in
            renewed-NoLoss lease (min (now + c.lease_duration) run.deadline_at) l l' u
              (subst (λ i. row lease_key i l.db.leases ≡ some lease) (sym same) found) leases audits
      ]
    ]

pub same-NoLoss :
    (l l' : Ledger)
    → IsUnique lease_key l.db.leases
    → (l'.db.leases ≡ l.db.leases) × (l'.audits ≡ l.audits)
    → NoLoss l l'
same-NoLoss l l' u (leases, audits) = record {
  distinct = rw leases u;
  kept = λ run_id call_id e. rw (leases, audits) e;
}

-- What an admission decides of a call, seen from the ledger that it found.
pub admission-NoLoss :
    (c : Reasoner) (id : ℕ) (ctx : Context) (call : Call) (l l' : Ledger) (d : Decision)
    → IsUnique lease_key l.db.leases
    → row lease_key id l.db.leases ≡ none
    → Decided c id ctx call l l' d
    → NoLoss l l'
admission-NoLoss c id ctx call l l' d u fresh (replays _ _ _ _ same) =
    same-NoLoss l l' u (same.0 fresh, same.1)
admission-NoLoss c id ctx call l l' d u fresh (denies kind same) =
    same-NoLoss l l' u (same.0 fresh, same.1)
admission-NoLoss c id ctx call l l' d u fresh (grants lease remaining own _ _ _ _ leases audits) =
    record {
      distinct = rw leases (
          append-IsUnique lease_key lease l.db.leases u
            (subst (λ i. row lease_key i l.db.leases ≡ none) (sym own) fresh));
      kept = λ r k e. rw (leases, audits) (grown r k e);
    }
  where
    grown :
        (r k : ℕ) → known r k l ≡ true → known_in r k (l.db.leases ++ lease ∷ []) l.audits ≡ true
    grown r k e = elim (Bool-cases (any (is_call r k) l.db.leases)) [
      | inl there ↦
          let stays = any-append (is_call r k) l.db.leases lease there in ground (arith, stays)
      | inr absent ↦ ground (arith, e, absent)
    ]
