-- ===== src/Semantic/Attempts.antt =====
-- What an attempt leaves of the audit rows.
use gapforge.Common.{ℕ, ◌≡◌, ◌⊎◌, inl, inr, refl, sym, subst, ◌∙◌, some, [], ◌∷◌, arith}
use gapforge.Rows.{row, row-append_some, row-append_none}
use gapforge.Semantic.Model.{
  ProviderResult, AgentResult, AuditRow, audit_key, Ledger, Context, Call, SemanticOutcome,
  failed_with, returned, andthen-eq-returned, Reasoner,
}
use gapforge.Semantic.Audit.{
  domain_result, replay, provider_result_of, audit_row, audit_and_release,
}
use gapforge.Semantic.Admission.{Decision, admitted, admit, reconcile}
use gapforge.Semantic.Boundary.{normalize_provider_result}
use gapforge.Semantic.Reconciled.{reconcile-row}
use gapforge.Semantic.Granting.{Decided, grants, replays, denies}
use gapforge.Semantic.Decisions.{admit-Decided}
use gapforge.Semantic.Losing.{audit_and_release-fields}
use gapforge.Semantic.Replays.{IsOwn, IsStorable, replay-audit_row, replay-provider_result_of}
use gapforge.Semantic.Accepted.{normalize-IsOwn}
use gapforge.Semantic.Calls.{
  Request, Provider, with_attempt, raw_result, after_admission, execute_attempt,
}

-- No transaction touches an audit row.
abbrev pub KeepsRows : Ledger → Ledger → Type 0
KeepsRows l l' =
    (k : ℕ) (a : AuditRow) → row audit_key k l.audits ≡ some a → row audit_key k l'.audits ≡ some a

same-KeepsRows : (l l' : Ledger) → l'.audits ≡ l.audits → KeepsRows l l'
same-KeepsRows l l' same k a h = rw same h

-- A call of the ledger with an audit row that answers a result.
pub record Answered (c : Reasoner) (ctx : Context) (call : Call) (r : ProviderResult) (l : Ledger)
    : Type 0 where
  pub audited : AuditRow
  pub answer : AgentResult
  pub found : row audit_key call.id l.audits ≡ some audited
  pub again : replay c ctx call audited ≡ returned answer
  pub first : domain_result c call.id r ≡ returned answer

-- Whatever the provider is asked for the call and whatever comes of its answer, the column gives the
-- output back as it was.
abbrev pub Storable : Reasoner → Call → Provider → Type 0
Storable c call provider =
    (q : Request) (remaining : ℕ)
    → IsStorable c
        (normalize_provider_result c call q.effort
          (raw_result c q.effort remaining (provider q))).payload

module _ (c : Reasoner) (ctx : Context) (call : Call) where
  base-KeepsRows :
      (now : ℕ) (l base : Ledger)
      → (base ≡ l) ⊎ (base ≡ reconcile ctx.run_id now l)
      → KeepsRows l base
  base-KeepsRows now l base (inl same) k a h = rw same h
  base-KeepsRows now l base (inr settled) k a h = rw settled (reconcile-row ctx.run_id now l k a h)

  audited-Answered :
      (lease_id : ℕ) (r : ProviderResult) (l l' : Ledger)
      → IsOwn c call r
      → IsStorable c r.payload
      → audit_and_release c ctx call lease_id r l ≡ returned l'
      → Answered c ctx call r l' × KeepsRows l l'
  unfolding audit_and_release
  audited-Answered lease_id r l l' own s h =
      let a = audit_row c ctx call r in
      let (answer, first, _) = andthen-eq-returned (domain_result c call.id r) _ l' h in
      let (_, _, _, _, _, audits, new) = audit_and_release-fields c ctx call r lease_id l l' h in
      let own_row : row audit_key call.id (a ∷ []) ≡ some a = ground arith in
      (
        record {
          audited = a;
          answer = answer;
          found = rw audits (row-append_none audit_key call.id l.audits (a ∷ []) new ∙ own_row);
          again = replay-audit_row c ctx call r own s ∙ first;
          first = first;
        },
        λ k x e. rw audits (row-append_some audit_key k l.audits (a ∷ []) x e),
      )

  -- An attempt that gives a result leaves the call answered by it, whether the provider was asked or
  -- the result was there.
  pub execute_attempt-Answered :
      (provider : Provider) (id : ℕ) (q : Request) (repair_attempt now : ℕ) (l l' : Ledger)
      (r : ProviderResult)
      → Storable c call provider
      → q.effort ≡ call.effort
      → execute_attempt c provider id ctx call q repair_attempt now l ≡ returned (r, l')
      → Answered c ctx call r l' × KeepsRows l l'
  unfolding execute_attempt after_admission
  execute_attempt-Answered provider id q repair_attempt now l l' r storable effort h =
      admission_of (admit c id ctx call repair_attempt now l) refl h
    where
      asked : ℕ → ProviderResult
      asked remaining =
          with_attempt q.repair_attempt (
            normalize_provider_result c call q.effort
              (raw_result c q.effort remaining (provider q)))

      asked_own : (remaining : ℕ) → q.effort ≡ call.effort → IsOwn c call (asked remaining)
      asked_own remaining same =
          let raw = raw_result c q.effort remaining (provider q) in
          let own =
            subst (λ x. IsOwn c call (normalize_provider_result c call x raw)) (sym same)
              (normalize-IsOwn c call raw) in
          record {
            by_provider = own.by_provider;
            of_model = own.of_model;
            with_effort = own.with_effort;
          }

      provider_asked :
          (mid : Ledger) (remaining : ℕ)
          → after_admission c provider ctx call q (returned (admitted id remaining, mid))
            ≡ returned (r, l')
          → (fin : Ledger) × (audit_and_release c ctx call id (asked remaining) mid ≡ returned fin)
            × (◌≡◌ {A = SemanticOutcome (ProviderResult × Ledger)}
                (returned (asked remaining, fin))
                (returned (r, l')))
      provider_asked mid remaining e =
          andthen-eq-returned (audit_and_release c ctx call id (asked remaining) mid)
            (λ l'. returned (asked remaining, l')) (r, l') e

      decided :
          (d : Decision) (mid base : Ledger)
          → Decided c id ctx call base mid d
          → KeepsRows l base
          → after_admission c provider ctx call q (returned (d, mid)) ≡ returned (r, l')
          → Answered c ctx call r l' × KeepsRows l l'
      decided _ mid base (denies kind same) keeps e = absurd (cc)
      decided _ mid base (replays a answer found again same) keeps e =
          let is : r ≡ provider_result_of a = ground (arith, e) in
          let left : l' ≡ mid = ground (arith, e) in
          rw (is, left)
            (
              record {
                audited = a;
                answer = answer;
                found = rw same.1 found;
                again = again;
                first = replay-provider_result_of c ctx call a answer again;
              },
              λ k x f. rw same.1 (keeps k x f),
            )
      decided _ mid base (grants lease remaining _ _ _ _ _ _ audits) keeps e =
          let (fin, audited, e') = provider_asked mid remaining e in
          let is : r ≡ asked remaining = ground (arith, e') in
          let left : l' ≡ fin = ground (arith, e') in
          let (answered, kept) =
            audited-Answered id (asked remaining) mid fin (asked_own remaining effort)
              (storable q remaining) audited in
          rw (is, left) (answered, λ k x f. kept k x (rw audits (keeps k x f)))

      admission_of :
          (o : _)
          → admit c id ctx call repair_attempt now l ≡ o
          → after_admission c provider ctx call q o ≡ returned (r, l')
          → Answered c ctx call r l' × KeepsRows l l'
      admission_of (failed_with x) a e = absurd (cc)
      admission_of (returned (d, mid)) a e =
          let (base, which, left) = admit-Decided c id ctx call repair_attempt now l d mid a in
          decided d mid base left (base-KeepsRows now l base which) e
