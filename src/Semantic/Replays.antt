-- ===== src/Semantic/Replays.antt =====
-- What was audited is replayed.
use gapforge.Common.{
  ℕ, ◌≡◌, inl, inr, refl, ap, String, true, Option, none, some, List, [], ◌∷◌, arith, Bool-cases,
  ◌==◌, Comparable, nat_eq, string_eq,
}
use gapforge.Json.{Fields}
use gapforge.Semantic.Model.{
  AgentStatus, completed, failed, from_provider, to_provider, ProviderResult, AgentResult, AuditRow,
  Context, Call, returned, andthen-eq-returned, Reasoner,
}
use gapforge.Semantic.Audit.{
  same_bytes, same_identity, checksum_holds, hash_of, stored_output, result_of, result_of_audit,
  check_result, check_output, contract_text, domain_result, replay, provider_result_of, audit_row,
}

-- Python's `==` holds of a value and itself.
pub agree_refl {ℓ} : {A : Type ℓ} ⦃c : Comparable A⦄ (x : A) → (x == x) ≡ true
agree_refl ⦃c⦄ x = (c.agree_iff x x).1 refl

pub same_bytes_refl : (xs : List ℕ) → same_bytes xs xs ≡ true
same_bytes_refl [] = refl
same_bytes_refl (x ∷ xs) = ground (arith, same_bytes_refl xs)

text_refl : (s : String) → (s == s) ≡ true
text_refl s = agree_refl s

same_identity_refl :
    (c : Reasoner) (ctx : Context) (call : Call) (r : ProviderResult)
    → same_identity c ctx call (audit_row c ctx call r) ≡ true
same_identity_refl c ctx call r = ground (
  arith,
  text_refl call.operation,
  text_refl call.output_schema_name,
  same_bytes_refl call.schema_hash,
  same_bytes_refl call.request_hash,
  text_refl call.effort,
  text_refl c.provider_name,
  text_refl c.model,
)

checksum_holds-hash_of :
    (c : Reasoner) (payload : Option Fields) → checksum_holds c payload (hash_of c payload) ≡ true
checksum_holds-hash_of c none = refl
checksum_holds-hash_of c (some fs) = same_bytes_refl (c.json_hash fs)

-- A provider's result that names the reasoner's provider, its model and the call's effort.
pub record IsOwn (c : Reasoner) (call : Call) (r : ProviderResult) : Type 0 where
  pub by_provider : r.provider ≡ c.provider_name
  pub of_model : r.requested_model ≡ c.model
  pub with_effort : r.effort ≡ call.effort

-- An output that the column gives back as it was.
abbrev pub IsStorable : Reasoner → Option Fields → Type 0
IsStorable c payload = (fs : Fields) → payload ≡ some fs → c.stored_json fs ≡ fs

stored_output-IsStorable :
    (c : Reasoner) (payload : Option Fields)
    → IsStorable c payload
    → stored_output c payload ≡ payload
stored_output-IsStorable c none s = refl
stored_output-IsStorable c (some fs) s = ap some (s fs refl)

result_of-audit :
    (c : Reasoner) (ctx : Context) (call : Call) (r : ProviderResult)
    → IsOwn c call r
    → IsStorable c r.payload
    → result_of_audit call.id (audit_row c ctx call r) ≡ result_of call.id r
result_of-audit c ctx call r own s =
    rw (own.by_provider, own.of_model, own.with_effort, stored_output-IsStorable c r.payload s) refl

-- The row that an audit writes is replayed as the result that the audit was made of, if the column
-- gives its output back.
pub replay-audit_row :
    (c : Reasoner) (ctx : Context) (call : Call) (r : ProviderResult)
    → IsOwn c call r
    → IsStorable c r.payload
    → replay c ctx call (audit_row c ctx call r) ≡ domain_result c call.id r
unfolding replay domain_result
replay-audit_row c ctx call r own s =
    let holds : checksum_holds c (stored_output c r.payload) (hash_of c r.payload) ≡ true =
      rw (stored_output-IsStorable c r.payload s) (checksum_holds-hash_of c r.payload) in
    rw (same_identity_refl c ctx call r, holds)
      (ap (check_result c) (result_of-audit c ctx call r own s))

to_from_provider : (s : AgentStatus) → from_provider (to_provider s) ≡ s
to_from_provider completed = refl
to_from_provider AgentStatus.invalid_output = refl
to_from_provider AgentStatus.auth_required = refl
to_from_provider AgentStatus.timeout = refl
to_from_provider failed = refl

-- A replay is what the domain makes of the provider's result that is read from the row.
pub replay-provider_result_of :
    (c : Reasoner) (ctx : Context) (call : Call) (a : AuditRow) (answer : AgentResult)
    → replay c ctx call a ≡ returned answer
    → domain_result c call.id (provider_result_of a) ≡ returned answer
unfolding replay domain_result
replay-provider_result_of c ctx call a answer h = elim (Bool-cases (same_identity c ctx call a)) [
  | inr other ↦ absurd (cc (rw other at h))
  | inl same ↦ elim (Bool-cases (checksum_holds c a.output_json a.output_sha256)) [
    | inr broken ↦ absurd (cc (rw (same, broken) at h))
    | inl holds ↦ rw (to_from_provider a.status) (rw (same, holds) at h)
  ]
]

-- The domain does not look at the call's name.
pub domain_result-call_id :
    (c : Reasoner) (k k' : ℕ) (r : ProviderResult) (answer : AgentResult)
    → domain_result c k r ≡ returned answer
    → domain_result c k' r ≡ returned (record answer { call_id = k' })
unfolding domain_result check_result
domain_result-call_id c k k' r answer h =
    let (model, e, h₁) =
      andthen-eq-returned (contract_text c 500 (result_of k r).model_requested) _ answer h in
    let (version, f, h₂) = andthen-eq-returned (contract_text c 500 r.cli_version) _ answer h₁ in
    let (error, g, h₃) = andthen-eq-returned (contract_text c 200 r.error_class) _ answer h₂ in
    rw (e, f, g) (unfold check_output in ground (arith, h₃))
