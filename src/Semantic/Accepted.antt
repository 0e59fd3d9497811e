-- ===== src/Semantic/Accepted.antt =====
-- What the boundary lets through of a provider's answer.
use gapforge.Common.{
  ℕ, ◌≡◌, inl, inr, refl, sym, subst, String, true, false, &&-eq-true, Option, none, some, Memᴰ,
  arith, Bool-cases, ◌==◌, string_eq,
}
use gapforge.Common.Text.{contains}
use gapforge.Json.{Fields, object}
use gapforge.Semantic.Model.{
  ProviderResult, AgentResult, Call, SemanticOutcome, failed_with, returned, andthen-eq-returned,
  Reasoner,
}
use gapforge.Semantic.Audit.{
  bounded_metadata, payload_bounded, check_result, check_output, contract_text, domain_result,
  result_of,
}
use gapforge.Semantic.Boundary.{
  names_evidence, names_url, collect_references, all_permitted, invalidated, permitted_fields,
  permitted_payload, enforce_permitted_references, contains_secret, is_success,
  sanitized_provider_failure, identity_matches, bounded_identity, searched, object_or_null,
  if_domain_accepts, normalize_provider_result,
}
use gapforge.Semantic.References.{
  Refers, all_permitted-Refers, TextOf, of_object, of_value, contains_secret-TextOf,
}
use gapforge.Semantic.Replays.{IsOwn}

-- What normalisation makes of an answer: a failure of its own, or the answer, kept or invalidated.
module _ (c : Reasoner) (call : Call) (effort : String) where
  pub data Normalized (raw : Option ProviderResult) : ProviderResult → Type 0 where
    sanitized : (error : String) → Normalized raw (sanitized_provider_failure c effort error)
    passed :
        (r : ProviderResult)
        → raw ≡ some r
        → identity_matches c effort r ≡ true
        → contains_secret c.secret_values (searched r) ≡ false
        → Normalized raw (
            if_domain_accepts
              (domain_result c call.id (enforce_permitted_references call r))
              (enforce_permitted_references call r))

  pub normalize-Normalized :
      (raw : Option ProviderResult) → Normalized raw (normalize_provider_result c call effort raw)
  unfolding normalize_provider_result
  normalize-Normalized none = sanitized "ProviderResultTypeError"
  normalize-Normalized (some r) = elim (Bool-cases (identity_matches c effort r)) [
    | inr differs ↦ rw differs (sanitized "ProviderIdentityMismatch")
    | inl same ↦ elim (Bool-cases (bounded_identity r)) [
      | inr large ↦ rw (same, large) (sanitized "ProviderResultBoundsViolation")
      | inl small ↦ elim (Bool-cases (contains_secret c.secret_values (searched r))) [
        | inl secret ↦ rw (same, small, secret) (sanitized "SecretMaterialDetected")
        | inr clean ↦ rw (same, small, clean) (passed r refl same clean)
      ]
    ]
  ]

  pub data Enforced (r : ProviderResult) : ProviderResult → Type 0 where
    kept :
        ((fs : Fields)
          → is_success r.status ≡ true
          → r.payload ≡ some fs
          → (all_permitted
                (collect_references names_evidence (object fs))
                call.permitted_evidence_ids
              ≡ true)
            × (all_permitted (collect_references names_url (object fs)) call.permitted_urls ≡ true))
        → Enforced r r
    refused : (error message : String) → Enforced r (invalidated error message r)

  permitted_fields-Enforced :
      (fs : Fields) (r : ProviderResult)
      → r.payload ≡ some fs
      → Enforced r (permitted_fields call fs r)
  unfolding permitted_fields
  permitted_fields-Enforced fs r e =
      elim (Bool-cases (
        all_permitted (collect_references names_evidence (object fs))
          call.permitted_evidence_ids)) [
            | inr outside ↦ rw outside (refused "PermittedEvidenceViolation" _)
            | inl ids ↦
                elim (Bool-cases
                  (all_permitted (collect_references names_url (object fs)) call.permitted_urls)) [
                    | inr outside ↦ rw (ids, outside) (refused "PermittedUrlViolation" _)
                    | inl urls ↦
                        rw (ids, urls)
                          (kept (λ fs' _ e'.
                            let same : fs ≡ fs' = ground (arith, e, e') in
                            subst
                              (λ f.
                                (all_permitted (collect_references names_evidence (object f))
                                    call.permitted_evidence_ids
                                  ≡ true)
                                × (all_permitted (collect_references names_url (object f))
                                      call.permitted_urls
                                    ≡ true))
                              same (ids, urls)))
                  ]
          ]

  permitted_payload-Enforced :
      (p : Option Fields) (r : ProviderResult)
      → r.payload ≡ p
      → Enforced r (permitted_payload call p r)
  unfolding permitted_payload
  permitted_payload-Enforced none r e = kept (λ fs _ e'. absurd (cc))
  permitted_payload-Enforced (some fs) r e = permitted_fields-Enforced fs r e

  pub enforce-Enforced : (r : ProviderResult) → Enforced r (enforce_permitted_references call r)
  unfolding enforce_permitted_references
  enforce-Enforced r = elim (Bool-cases (is_success r.status)) [
    | inl success ↦ rw success (permitted_payload-Enforced r.payload r refl)
    | inr failure ↦ rw failure (kept (λ fs success _. absurd (cc)))
  ]

if_domain_accepts-success :
    (o : SemanticOutcome AgentResult) (r : ProviderResult)
    → is_success (if_domain_accepts o r).status ≡ true
    → (a : AgentResult) × (o ≡ returned a) × (if_domain_accepts o r ≡ r)
unfolding if_domain_accepts
if_domain_accepts-success (returned a) r h = (a, refl, refl)
if_domain_accepts-success (failed_with e) r h = absurd (cc)

-- The domain takes only an output of bounded size.
domain_result-bounded :
    (c : Reasoner) (k : ℕ) (r : ProviderResult) (a : AgentResult) (fs : Fields)
    → domain_result c k r ≡ returned a
    → r.payload ≡ some fs
    → bounded_metadata c fs ≡ true
unfolding domain_result check_result
domain_result-bounded c k r a fs h e =
    let (model, _, h₁) =
      andthen-eq-returned (contract_text c 500 (result_of k r).model_requested) _ a h in
    let (version, _, h₂) = andthen-eq-returned (contract_text c 500 r.cli_version) _ a h₁ in
    let (error, _, h₃) = andthen-eq-returned (contract_text c 200 r.error_class) _ a h₂ in
    let bounded : payload_bounded c r.payload ≡ true = unfold check_output in ground (arith, h₃) in
    rw e at bounded

-- The identity survives: all that normalisation changes is what was answered.
module _ (c : Reasoner) (call : Call) where
  identity-IsOwn : (r : ProviderResult) → identity_matches c call.effort r ≡ true → IsOwn c call r
  identity-IsOwn r h =
      let (a, h₁) = &&-eq-true (r.provider == c.provider_name) _ h in
      let (b, d) = &&-eq-true (r.requested_model == c.model) _ h₁ in
      record {
        by_provider = (string_eq.agree_iff r.provider c.provider_name).0 a;
        of_model = (string_eq.agree_iff r.requested_model c.model).0 b;
        with_effort = (string_eq.agree_iff r.effort call.effort).0 d;
      }

  Enforced-IsOwn :
      (r r' : ProviderResult) → Enforced c call call.effort r r' → IsOwn c call r → IsOwn c call r'
  Enforced-IsOwn r _ (kept _) own = own
  Enforced-IsOwn r _ (refused _ _) own = record {
    by_provider = own.by_provider;
    of_model = own.of_model;
    with_effort = own.with_effort;
  }

  if_domain_accepts-IsOwn :
      (o : SemanticOutcome AgentResult) (r : ProviderResult)
      → IsOwn c call r
      → IsOwn c call (if_domain_accepts o r)
  unfolding if_domain_accepts
  if_domain_accepts-IsOwn (returned a) r own = own
  if_domain_accepts-IsOwn (failed_with e) r own = record {
    by_provider = own.by_provider;
    of_model = own.of_model;
    with_effort = own.with_effort;
  }

  pub normalize-IsOwn :
      (raw : Option ProviderResult)
      → IsOwn c call (normalize_provider_result c call call.effort raw)
  normalize-IsOwn raw =
      own (normalize_provider_result c call call.effort raw)
        (normalize-Normalized c call call.effort raw)
    where
      own : (r : ProviderResult) → Normalized c call call.effort raw r → IsOwn c call r
      own _ (sanitized error) = record { by_provider = refl; of_model = refl; with_effort = refl }
      own _ (passed r _ same _) =
          if_domain_accepts-IsOwn (domain_result c call.id (enforce_permitted_references call r)) _
            (Enforced-IsOwn r _ (enforce-Enforced c call call.effort r) (identity-IsOwn r same))

-- What the request permits an output to hold.
pub record IsPermitted (c : Reasoner) (call : Call) (fs : Fields) : Type 0 where
  pub evidence :
      (s : String) → Refers names_evidence s (object fs) → Memᴰ s call.permitted_evidence_ids
  pub urls : (s : String) → Refers names_url s (object fs) → Memᴰ s call.permitted_urls
  pub clean :
      (s secret : String)
      → Memᴰ secret c.secret_values
      → TextOf s (object fs)
      → contains secret s ≡ false
  pub bounded : bounded_metadata c fs ≡ true

-- Whatever a provider answers, the output of a normalised result that is a success names at any
-- depth only evidence and URLs that the request permits, holds no text and no key with a configured
-- secret, and is bounded.
pub accepted_output :
    (c : Reasoner) (call : Call) (effort : String) (raw : Option ProviderResult) (fs : Fields)
    → is_success (normalize_provider_result c call effort raw).status ≡ true
    → (normalize_provider_result c call effort raw).payload ≡ some fs
    → IsPermitted c call fs
accepted_output c call effort raw fs success output =
    permitted (normalize_provider_result c call effort raw) (normalize-Normalized c call effort raw)
      success output
  where
    enforced :
        (r r' : ProviderResult)
        → Enforced c call effort r r'
        → contains_secret c.secret_values (searched r) ≡ false
        → (a : AgentResult) → domain_result c call.id r' ≡ returned a
        → is_success r'.status ≡ true
        → r'.payload ≡ some fs
        → IsPermitted c call fs
    enforced r _ (refused error message) clean a valid success output = absurd (cc)
    enforced r _ (kept allows) clean a valid success output =
        let (ids, urls) = allows fs success output in
        record {
          evidence =
              all_permitted-Refers names_evidence (object fs) call.permitted_evidence_ids ids;
          urls = all_permitted-Refers names_url (object fs) call.permitted_urls urls;
          clean = λ s secret known m.
              contains_secret-TextOf c.secret_values s secret known (searched r) clean
                (of_object (of_value (subst (λ p. TextOf s (object_or_null p)) (sym output) m)));
          bounded = domain_result-bounded c call.id r a fs valid output;
        }

    permitted :
        (r : ProviderResult)
        → Normalized c call effort raw r
        → is_success r.status ≡ true
        → r.payload ≡ some fs
        → IsPermitted c call fs
    permitted _ (sanitized error) success output = absurd (cc)
    permitted _ (passed r _ _ clean) success output =
        let r' = enforce_permitted_references call r in
        let (a, valid, same) = if_domain_accepts-success (domain_result c call.id r') r' success in
        enforced r r' (enforce-Enforced c call effort r) clean a valid
          (subst (λ x. is_success x.status ≡ true) same success)
          (subst (λ x. x.payload ≡ some fs) same output)
