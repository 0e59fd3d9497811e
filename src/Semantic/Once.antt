-- ===== src/Semantic/Once.antt =====
-- No call is given to a provider twice.
use gapforge.Common.{
  ℕ, ◌+◌, ◌≤◌, ◌≡◌, ◌⊎◌, inl, inr, refl, subst, Bool, true, false, ◌&&◌, none, List, [], ◌∷◌, arith,
  any-append_self, Bool-cases, ◌==◌, nat_eq, bit, count_if, string_eq,
}
use gapforge.Rows.{row, IsUnique}
use gapforge.Queue.Model.{Db, lease_key}
use gapforge.Queue.Steps.{Step}
use gapforge.Semantic.Model.{Ledger, Context, Call, returned, Reasoner, ProviderResult}
use gapforge.Semantic.Audit.{audit_and_release}
use gapforge.Semantic.Admission.{Decision, admitted, admit, reconcile, with_db, heartbeat}
use gapforge.Semantic.Reconciled.{known, reconcile-known, reconcile-IsUnique, reconcile-row-none}
use gapforge.Semantic.Granting.{Decided, grants, replays, denies}
use gapforge.Semantic.Decisions.{admit-Decided}
use gapforge.Semantic.Losing.{
  NoLoss, is_call, audit_and_release-NoLoss, heartbeat-NoLoss, same-NoLoss, admission-NoLoss,
}

-- What an admission adds to the log.
abbrev pub granted : ℕ → ℕ → Decision → List (ℕ × ℕ) → List (ℕ × ℕ)
granted run_id call_id (admitted _ _) log = (run_id, call_id) ∷ log
granted run_id call_id _ log = log

abbrev pub is_pair : ℕ → ℕ → ℕ × ℕ → Bool
is_pair run_id call_id p = p.0 == run_id && p.1 == call_id

-- Transactions of any number of workers, each with its own reasoner, one after another. The log
-- holds the run and the call of each admission, the last first.
pub data History (l₀ : Ledger) : List (ℕ × ℕ) → Ledger → Type 0 where
  here : History l₀ [] l₀
  admits :
      {log : List (ℕ × ℕ)} {l l' : Ledger} (c : Reasoner) (id : ℕ) (ctx : Context) (call : Call)
      (repair_attempt now : ℕ) (d : Decision)
      → History l₀ log l
      → row lease_key id l.db.leases ≡ none
      → admit c id ctx call repair_attempt now l ≡ returned (d, l')
      → History l₀ (granted ctx.run_id call.id d log) l'
  concludes :
      {log : List (ℕ × ℕ)} {l l' : Ledger} (c : Reasoner) (ctx : Context) (call : Call)
      (lease_id : ℕ) (r : ProviderResult)
      → History l₀ log l
      → audit_and_release c ctx call lease_id r l ≡ returned l'
      → History l₀ log l'
  beats :
      {log : List (ℕ × ℕ)} {l l' : Ledger} (c : Reasoner) (lease_id run_id call_id now : ℕ)
      → History l₀ log l
      → heartbeat c lease_id run_id call_id now l ≡ returned l'
      → History l₀ log l'
  others :
      {log : List (ℕ × ℕ)} {l : Ledger} (db : Db)
      → History l₀ log l
      → Step l.db db
      → db.leases ≡ l.db.leases
      → History l₀ log (with_db db l)

abbrev Bounded : ℕ → ℕ → Ledger → List (ℕ × ℕ) → Ledger → Type 0
Bounded run_id call_id l₀ log l =
    bit (known run_id call_id l₀) + count_if (is_pair run_id call_id) log
    ≤ bit (known run_id call_id l)

bit_mono : (b b' : Bool) (n : ℕ) → (b ≡ true → b' ≡ true) → n ≤ bit b → n ≤ bit b'
bit_mono true b' n f h = let e = f refl in rw e h
bit_mono false b' n f h = omega arith

bounded-NoLoss :
    (run_id call_id : ℕ) (l₀ : Ledger) (log : List (ℕ × ℕ)) (l l' : Ledger)
    → NoLoss l l'
    → Bounded run_id call_id l₀ log l
    → Bounded run_id call_id l₀ log l'
bounded-NoLoss run_id call_id l₀ log l l' keeps b =
    bit_mono (known run_id call_id l) (known run_id call_id l') _ (keeps.kept run_id call_id) b

admission-Bounded :
    (r k : ℕ) (c : Reasoner) (id : ℕ) (ctx : Context) (call : Call) (l₀ : Ledger)
    (log : List (ℕ × ℕ)) (l l' : Ledger) (d : Decision)
    → NoLoss l l'
    → Decided c id ctx call l l' d
    → Bounded r k l₀ log l
    → Bounded r k l₀ (granted ctx.run_id call.id d log) l'
admission-Bounded r k c id ctx call l₀ log l l' d keeps (replays _ _ _ _ _) b =
    bounded-NoLoss r k l₀ log l l' keeps b
admission-Bounded r k c id ctx call l₀ log l l' d keeps (denies _ _) b =
    bounded-NoLoss r k l₀ log l l' keeps b
admission-Bounded r k c id ctx call l₀ log l l' d keeps
      (grants lease remaining _ by_run by_call new unknown leases audits) b =
    elim (Bool-cases (is_pair r k (ctx.run_id, call.id))) [
      | inr other ↦ rw other (omega (arith, bounded-NoLoss r k l₀ log l l' keeps b))
      | inl this ↦
          let same_run : ctx.run_id ≡ r = ground (arith, this) in
          let same_call : call.id ≡ k = ground (arith, this) in
          let before : known r k l ≡ false =
            subst (λ i. known i k l ≡ false) same_run
              (subst (λ i. known ctx.run_id i l ≡ false) same_call
                (ground (arith, new, unknown))) in
          let passes : is_call r k lease ≡ true =
            ground (arith, by_run, by_call, same_run, same_call) in
          let found = any-append_self (is_call r k) l.db.leases lease passes in
          let after : known r k l' ≡ true = rw leases (ground (arith, found)) in
          rw (this, after) (ground (arith, rw before at b))
    ]

history :
    (r k : ℕ) (l₀ : Ledger) (log : List (ℕ × ℕ)) (l : Ledger)
    → IsUnique lease_key l₀.db.leases
    → History l₀ log l
    → IsUnique lease_key l.db.leases × Bounded r k l₀ log l
history r k l₀ log l u here = (u, omega arith)
history r k l₀ log l' u
      (admits {log = log'} {l = l} c id ctx call repair_attempt now d past fresh h) =
    let (distinct, b) = history r k l₀ log' l u past in
    let (base, which, decided) = admit-Decided c id ctx call repair_attempt now l d l' h in
    let to_base : NoLoss l base × (row lease_key id base.db.leases ≡ none) =
      based base which distinct in
    let from_base = admission-NoLoss c id ctx call base l' d to_base.0.distinct to_base.1 decided in
    (
      from_base.distinct,
      admission-Bounded r k c id ctx call l₀ log' base l' d from_base decided
          (bounded-NoLoss r k l₀ log' l base to_base.0 b),
    )
  where
    based :
        (base : Ledger)
        → (base ≡ l) ⊎ (base ≡ reconcile ctx.run_id now l)
        → IsUnique lease_key l.db.leases
        → NoLoss l base × (row lease_key id base.db.leases ≡ none)
    based base (inl same) distinct = rw same (same-NoLoss l l distinct (refl, refl), fresh)
    based base (inr settled) distinct = rw settled (
      record {
        distinct = reconcile-IsUnique ctx.run_id now l distinct;
        kept = reconcile-known ctx.run_id now l;
      },
      reconcile-row-none ctx.run_id now l id fresh,
    )
history r k l₀ log l' u (concludes {l = l} c ctx call lease_id result past h) =
    let (distinct, b) = history r k l₀ log l u past in
    let keeps = audit_and_release-NoLoss c ctx call result lease_id l l' distinct h in
    (keeps.distinct, bounded-NoLoss r k l₀ log l l' keeps b)
history r k l₀ log l' u (beats {l = l} c lease_id run_id call_id now past h) =
    let (distinct, b) = history r k l₀ log l u past in
    let keeps = heartbeat-NoLoss c lease_id run_id call_id now l l' distinct h in
    (keeps.distinct, bounded-NoLoss r k l₀ log l l' keeps b)
history r k l₀ log l' u (others {l = l} db past _ same) =
    let (distinct, b) = history r k l₀ log l u past in
    let keeps = same-NoLoss l (with_db db l) distinct (same, refl) in
    (keeps.distinct, bounded-NoLoss r k l₀ log l (with_db db l) keeps b)

-- Whatever workers do, in any order and at any times, that is admit and audit calls, renew and
-- reconcile their leases and work on the queue, one call of a run is admitted to the provider at
-- most once, and never if the ledger knew it at the start, by a lease of the run or an audit row.
pub admitted_once :
    (run_id call_id : ℕ) (l₀ : Ledger) (log : List (ℕ × ℕ)) (l : Ledger)
    → IsUnique lease_key l₀.db.leases
    → History l₀ log l
    → bit (known run_id call_id l₀) + count_if (is_pair run_id call_id) log ≤ 1
admitted_once run_id call_id l₀ log l u past =
    let (_, b) = history run_id call_id l₀ log l u past in
    omega (arith, b, bit-bound (known run_id call_id l))
  where
    bit-bound : (b : Bool) → bit b ≤ 1
    bit-bound b = ground arith
