-- ===== src/Semantic/Reconciled.antt =====
-- What reconciliation leaves of the leases and the audit rows.
use gapforge.Common.{
  ℕ, ◌≡◌, inl, inr, refl, subst, Bool, true, false, not, ◌&&◌, ◌||◌, Option, none, some, List, [],
  ◌∷◌, ◌++◌, arith, All, Bool-cases, Option-cases, is_some, nat_eq, nat_beq,
}
use gapforge.Rows.{row, row-append_some, row-append_none, IsUnique}
use gapforge.Queue.Model.{CallLease, lease_key}
use gapforge.Queue.ProviderCalls.{has_call}
use gapforge.Semantic.Model.{AuditRow, audit_key, Ledger}
use gapforge.Semantic.Admission.{
  stale_row, is_stale, unless_stale, reconciled_audits, reconcile_rows, reconcile, has_active_call,
}

-- Whether the ledger knows a call: by a lease of its run, or by an audit row.
abbrev pub known_in : ℕ → ℕ → List CallLease → List AuditRow → Bool
known_in run_id call_id ls audits =
    has_call run_id call_id ls || is_some (row audit_key call_id audits)

abbrev pub known : ℕ → ℕ → Ledger → Bool
known run_id call_id l = known_in run_id call_id l.db.leases l.audits

is_some-eq-true {ℓ} : {A : Type ℓ} (o : Option A) → is_some o ≡ true → (a : A) × (o ≡ some a)
is_some-eq-true none h = absurd (cc)
is_some-eq-true (some a) h = (a, refl)

-- A row that is there stays when one is appended.
pub audited-append :
    (k : ℕ) (audits : List AuditRow) (a : AuditRow)
    → is_some (row audit_key k audits) ≡ true
    → is_some (row audit_key k (audits ++ a ∷ [])) ≡ true
audited-append k audits a h =
    let (x, e) = is_some-eq-true (row audit_key k audits) h in
    rw (row-append_some audit_key k audits (a ∷ []) x e) refl

pub audited-append_self :
    (audits : List AuditRow) (a : AuditRow) → is_some (row audit_key a.id (audits ++ a ∷ [])) ≡ true
audited-append_self audits a = elim (Option-cases (row audit_key a.id audits)) [
  | inl e ↦
      let own : row audit_key a.id (a ∷ []) ≡ some a = ground arith in
      rw (row-append_none audit_key a.id audits (a ∷ []) e, own) refl
  | inr (x, e) ↦ audited-append a.id audits a (rw e refl)
]

module _ (run_id now : ℕ) where
  reconciled_audits-keeps :
      (l : CallLease) (audits : List AuditRow) (k : ℕ)
      → is_some (row audit_key k audits) ≡ true
      → is_some (row audit_key k (reconciled_audits run_id now l audits)) ≡ true
  unfolding reconciled_audits
  reconciled_audits-keeps l audits k h =
      elim (Bool-cases
        (is_stale run_id now l && not (is_some (row audit_key l.journal.call_id audits)))) [
          | inl e ↦ rw e (audited-append k audits (stale_row l) h)
          | inr e ↦ rw e h
        ]

  reconciled_audits-stale :
      (l : CallLease) (audits : List AuditRow)
      → is_stale run_id now l ≡ true
      → is_some (row audit_key l.journal.call_id (reconciled_audits run_id now l audits)) ≡ true
  unfolding reconciled_audits
  reconciled_audits-stale l audits h =
      elim (Bool-cases (is_some (row audit_key l.journal.call_id audits))) [
        | inl e ↦ reconciled_audits-keeps l audits l.journal.call_id e
        | inr e ↦ rw (h, e) (audited-append_self audits (stale_row l))
      ]

  reconcile_rows-audits :
      (ls : List CallLease) (audits : List AuditRow) (k : ℕ)
      → is_some (row audit_key k audits) ≡ true
      → is_some (row audit_key k (reconcile_rows run_id now ls audits).1) ≡ true
  unfolding reconcile_rows
  reconcile_rows-audits [] audits k h = h
  reconcile_rows-audits (l ∷ ls) audits k h =
      reconcile_rows-audits ls (reconciled_audits run_id now l audits) k
        (reconciled_audits-keeps l audits k h)

  -- An audit row stays as it is.
  reconciled_audits-row :
      (l : CallLease) (audits : List AuditRow) (k : ℕ) (a : AuditRow)
      → row audit_key k audits ≡ some a
      → row audit_key k (reconciled_audits run_id now l audits) ≡ some a
  unfolding reconciled_audits
  reconciled_audits-row l audits k a h =
      elim (Bool-cases
        (is_stale run_id now l && not (is_some (row audit_key l.journal.call_id audits)))) [
          | inl e ↦ rw e (row-append_some audit_key k audits (stale_row l ∷ []) a h)
          | inr e ↦ rw e h
        ]

  reconcile_rows-row :
      (ls : List CallLease) (audits : List AuditRow) (k : ℕ) (a : AuditRow)
      → row audit_key k audits ≡ some a
      → row audit_key k (reconcile_rows run_id now ls audits).1 ≡ some a
  unfolding reconcile_rows
  reconcile_rows-row [] audits k a h = h
  reconcile_rows-row (l ∷ ls) audits k a h =
      reconcile_rows-row ls (reconciled_audits run_id now l audits) k a
        (reconciled_audits-row l audits k a h)

  kept-known :
      (b : Bool) (l : CallLease) (ls rest : List CallLease) (audits last : List AuditRow) (r k : ℕ)
      → (b ≡ true → l.journal.call_id ≡ k → is_some (row audit_key k last) ≡ true)
      → (known_in r k ls audits ≡ true → known_in r k rest last ≡ true)
      → known_in r k (l ∷ ls) audits ≡ true
      → known_in r k (unless_stale b l rest) last ≡ true
  kept-known true l ls rest audits last r k written ih h =
      elim (Bool-cases (nat_beq l.run_id r && nat_beq l.journal.call_id k)) [
        | inl here ↦ let there = written refl (ground (arith, here)) in ground (arith, there)
        | inr other ↦ ih (ground (arith, h, other))
      ]
  kept-known false l ls rest audits last r k written ih h =
      elim (Bool-cases (nat_beq l.run_id r && nat_beq l.journal.call_id k)) [
        | inl here ↦ ground (arith, here)
        | inr other ↦ let there = ih (ground (arith, h, other)) in ground (arith, there)
      ]

  -- A known call stays known.
  pub reconcile_rows-known :
      (ls : List CallLease) (audits : List AuditRow) (r k : ℕ)
      → known_in r k ls audits ≡ true
      → let rows = reconcile_rows run_id now ls audits in known_in r k rows.0 rows.1 ≡ true
  unfolding reconcile_rows
  reconcile_rows-known [] audits r k h = h
  reconcile_rows-known (l ∷ ls) audits r k h =
      let audits' = reconciled_audits run_id now l audits in
      let rows = reconcile_rows run_id now ls audits' in
      let keeps : (is_some (row audit_key k audits) ≡ true
          → is_some (row audit_key k audits') ≡ true) =
        reconciled_audits-keeps l audits k in
      kept-known (is_stale run_id now l) l ls rows.0 audits rows.1 r k
        (λ stale same. reconcile_rows-audits ls audits' k (
          subst (λ i. is_some (row audit_key i audits') ≡ true) same
            (reconciled_audits-stale l audits stale)))
        (λ before. reconcile_rows-known ls audits' r k (more r k ls audits audits' before keeps)) h
    where
      more :
          (r k : ℕ) (ls : List CallLease) (audits audits' : List AuditRow)
          → known_in r k ls audits ≡ true
          → (is_some (row audit_key k audits) ≡ true → is_some (row audit_key k audits') ≡ true)
          → known_in r k ls audits' ≡ true
      more r k ls audits audits' h keeps = elim (Bool-cases (is_some (row audit_key k audits))) [
        | inl e ↦ let there = keeps e in ground (arith, there)
        | inr e ↦ ground (arith, h, e)
      ]

  -- No lease of the run that is left is stale.
  kept-live :
      (b : Bool) (l : CallLease) (ls : List CallLease)
      → is_stale run_id now l ≡ b
      → All (λ l. is_stale run_id now l ≡ false) ls
      → All (λ l. is_stale run_id now l ≡ false) (unless_stale b l ls)
  kept-live true l ls e a = a
  kept-live false l ls e a = (e, a)

  pub reconcile_rows-live :
      (ls : List CallLease) (audits : List AuditRow)
      → All (λ l. is_stale run_id now l ≡ false) (reconcile_rows run_id now ls audits).0
  unfolding reconcile_rows
  reconcile_rows-live [] audits = tt
  reconcile_rows-live (l ∷ ls) audits =
      kept-live (is_stale run_id now l) l
        (reconcile_rows run_id now ls (reconciled_audits run_id now l audits)).0 refl
        (reconcile_rows-live ls (reconciled_audits run_id now l audits))

  pub live-has_call :
      (k : ℕ) (ls : List CallLease)
      → All (λ l. is_stale run_id now l ≡ false) ls
      → has_active_call run_id k now ls ≡ false
      → has_call run_id k ls ≡ false
  live-has_call k [] a h = refl
  live-has_call k (l ∷ ls) a h =
      let rest = live-has_call k ls a.1 (ground (arith, h)) in ground (arith, h, rest, a.0)

  kept-row-none :
      (b : Bool) (id : ℕ) (l : CallLease) (ls rest : List CallLease)
      → row lease_key id (l ∷ ls) ≡ none
      → (row lease_key id ls ≡ none → row lease_key id rest ≡ none)
      → row lease_key id (unless_stale b l rest) ≡ none
  kept-row-none true id l ls rest h f = f (ground (arith, h))
  kept-row-none false id l ls rest h f = let e = f (ground (arith, h)) in ground (arith, h, e)

  reconcile_rows-row-none :
      (id : ℕ) (ls : List CallLease) (audits : List AuditRow)
      → row lease_key id ls ≡ none
      → row lease_key id (reconcile_rows run_id now ls audits).0 ≡ none
  unfolding reconcile_rows
  reconcile_rows-row-none id [] audits h = refl
  reconcile_rows-row-none id (l ∷ ls) audits h =
      let audits' = reconciled_audits run_id now l audits in
      kept-row-none (is_stale run_id now l) id l ls (reconcile_rows run_id now ls audits').0 h
        (reconcile_rows-row-none id ls audits')

  kept-IsUnique :
      (b : Bool) (l : CallLease) (ls : List CallLease)
      → row lease_key l.id ls ≡ none
      → IsUnique lease_key ls
      → IsUnique lease_key (unless_stale b l ls)
  kept-IsUnique true l ls e u = u
  kept-IsUnique false l ls e u = (e, u)

  reconcile_rows-IsUnique :
      (ls : List CallLease) (audits : List AuditRow)
      → IsUnique lease_key ls
      → IsUnique lease_key (reconcile_rows run_id now ls audits).0
  unfolding reconcile_rows
  reconcile_rows-IsUnique [] audits u = tt
  reconcile_rows-IsUnique (l ∷ ls) audits u =
      let audits' = reconciled_audits run_id now l audits in
      kept-IsUnique (is_stale run_id now l) l (reconcile_rows run_id now ls audits').0
        (reconcile_rows-row-none l.id ls audits' u.0) (reconcile_rows-IsUnique ls audits' u.1)

  -- On the ledger.
  pub reconcile-known :
      (l : Ledger) (r k : ℕ) → known r k l ≡ true → known r k (reconcile run_id now l) ≡ true
  unfolding reconcile
  reconcile-known l r k h = reconcile_rows-known l.db.leases l.audits r k h

  pub reconcile-IsUnique :
      (l : Ledger)
      → IsUnique lease_key l.db.leases
      → IsUnique lease_key (reconcile run_id now l).db.leases
  unfolding reconcile
  reconcile-IsUnique l u = reconcile_rows-IsUnique l.db.leases l.audits u

  pub reconcile-row-none :
      (l : Ledger) (id : ℕ)
      → row lease_key id l.db.leases ≡ none
      → row lease_key id (reconcile run_id now l).db.leases ≡ none
  unfolding reconcile
  reconcile-row-none l id h = reconcile_rows-row-none id l.db.leases l.audits h

  pub reconcile-live :
      (l : Ledger) → All (λ x. is_stale run_id now x ≡ false) (reconcile run_id now l).db.leases
  unfolding reconcile
  reconcile-live l = reconcile_rows-live l.db.leases l.audits

  pub reconcile-row :
      (l : Ledger) (k : ℕ) (a : AuditRow)
      → row audit_key k l.audits ≡ some a
      → row audit_key k (reconcile run_id now l).audits ≡ some a
  unfolding reconcile
  reconcile-row l k a h = reconcile_rows-row l.db.leases l.audits k a h
