-- ===== src/Semantic/Resumed.antt =====
-- A call that was answered is answered again from its audit rows.
use gapforge.Common.{
  ℕ, ◌≡◌, inl, inr, refl, sym, ap, ◌∙◌, true, false, not, ◌&&◌, ◌||◌, Option, none, some, arith,
  Bool-cases,
}
use gapforge.Rows.{row}
use gapforge.Semantic.Model.{
  ProviderStatus, from_provider, ProviderResult, AgentResult, AuditRow, audit_key, Ledger, Context,
  Call, returned, andthen-eq-returned, Reasoner,
}
use gapforge.Semantic.Audit.{
  domain_result, check_result, check_output, contract_text, result_of, replay, provider_result_of,
}
use gapforge.Semantic.Replays.{domain_result-call_id}
use gapforge.Semantic.Calls.{
  Request, provider_request, build_repair_request, Provider, execute_attempt, repair_call,
  as_repaired, repair_fresh, repair_found, repair, Moment, run_replayed, run_attempted, run_found,
  request_contains_secret, run_call, is_invalid, invalid_answer,
}
use gapforge.Semantic.Attempts.{KeepsRows, Storable, Answered, execute_attempt-Answered}

invalid-from_provider : (s : ProviderStatus) → invalid_answer (from_provider s) ≡ is_invalid s
invalid-from_provider ProviderStatus.success = refl
invalid-from_provider ProviderStatus.auth_required = refl
invalid-from_provider ProviderStatus.invalid_output = refl
invalid-from_provider ProviderStatus.timeout = refl
invalid-from_provider ProviderStatus.error = refl

effort-build_repair_request :
    (q q' : Request) (r : ProviderResult)
    → build_repair_request q r ≡ returned q'
    → q'.effort ≡ q.effort
unfolding build_repair_request
effort-build_repair_request q q' r h = ground arith

-- A repair that gave an answer gives it again, and asks no provider.
module _ (c : Reasoner) (ctx : Context) (call : Call) where
  abbrev Repaired : AgentResult → Ledger → Type 0
  Repaired answer l =
      (provider : Provider) (id : ℕ) (invalid : ProviderResult) (now : ℕ)
      → repair c provider id ctx call invalid now l ≡ returned (answer, l)

  answers_again :
      (l : Ledger) (a : AuditRow) (r answer : AgentResult)
      → row audit_key (c.repair_uuid call.id) l.audits ≡ some a
      → replay c ctx (repair_call c call) a ≡ returned r
      → answer ≡ as_repaired call.id r
      → Repaired answer l
  unfolding repair repair_found
  answers_again l a r answer found again is provider id invalid now = rw (found, again, is) refl

  repair_fresh-Repaired :
      (provider : Provider) (id : ℕ) (invalid : ProviderResult) (now : ℕ) (l l' : Ledger)
      (answer : AgentResult)
      → Storable c (repair_call c call) provider
      → repair_fresh c provider id ctx call invalid now l ≡ returned (answer, l')
      → Repaired answer l' × KeepsRows l l'
  unfolding repair_fresh
  repair_fresh-Repaired provider id invalid now l l' answer storable h =
      let (q, asks, h₁) =
        andthen-eq-returned (build_repair_request (provider_request call) invalid) _ (answer, l')
          h in
      let ((r, l₁), attempted, h₂) =
        andthen-eq-returned (execute_attempt c provider id ctx (repair_call c call) q 1 now l) _
          (answer, l') h₁ in
      let (x, valid, h₃) = andthen-eq-returned (domain_result c call.id r) _ (answer, l') h₂ in
      let is : answer ≡ as_repaired call.id x = ground (arith, h₃) in
      let left : l' ≡ l₁ = ground (arith, h₃) in
      let (done, keeps) =
        execute_attempt-Answered c ctx (repair_call c call) provider id q 1 now l l₁ r storable
          (effort-build_repair_request (provider_request call) q invalid asks) attempted in
      let named = domain_result-call_id c call.id (c.repair_uuid call.id) r x valid in
      let same : done.answer ≡ record x { call_id = c.repair_uuid call.id } =
        ground (arith, done.first, named) in
      rw left (
        answers_again l₁ done.audited done.answer answer done.found done.again
            (is ∙ ap (as_repaired call.id) (sym same)),
        keeps,
      )

  repair-Repaired :
      (provider : Provider) (id : ℕ) (invalid : ProviderResult) (now : ℕ) (l l' : Ledger)
      (answer : AgentResult)
      → Storable c (repair_call c call) provider
      → repair c provider id ctx call invalid now l ≡ returned (answer, l')
      → Repaired answer l' × KeepsRows l l'
  unfolding repair repair_found
  repair-Repaired provider id invalid now l l' answer storable h =
      located (row audit_key (c.repair_uuid call.id) l.audits) refl h
    where
      located :
          (o : Option AuditRow)
          → row audit_key (c.repair_uuid call.id) l.audits ≡ o
          → repair_found c provider id ctx call invalid now l o ≡ returned (answer, l')
          → Repaired answer l' × KeepsRows l l'
      located none _ e = repair_fresh-Repaired provider id invalid now l l' answer storable e
      located (some a) found e =
          let (r, again, e') =
            andthen-eq-returned (replay c ctx (repair_call c call) a) _ (answer, l') e in
          let is : answer ≡ as_repaired call.id r = ground (arith, e') in
          let left : l' ≡ l = ground (arith, e') in
          rw left (answers_again l a r answer found again is, λ k x f. f)

domain_result-status :
    (c : Reasoner) (k : ℕ) (r : ProviderResult) (a : AgentResult)
    → domain_result c k r ≡ returned a
    → a.status ≡ from_provider r.status
unfolding domain_result check_result
domain_result-status c k r a h =
    let (model, _, h₁) =
      andthen-eq-returned (contract_text c 500 (result_of k r).model_requested) _ a h in
    let (version, _, h₂) = andthen-eq-returned (contract_text c 500 r.cli_version) _ a h₁ in
    let (error, _, h₃) = andthen-eq-returned (contract_text c 200 r.error_class) _ a h₂ in
    unfold check_output in ground (arith, h₃)

module _ (c : Reasoner) (ctx : Context) (call : Call) where
  run_replayed-Resumes :
      (provider : Provider) (again : Moment) (l l' : Ledger) (a : AuditRow) (r answer : AgentResult)
      → Storable c (repair_call c call) provider
      → run_replayed c provider again ctx call l a r ≡ returned (answer, l')
      → KeepsRows l l'
        × ((provider' : Provider) (again' : Moment)
            → run_replayed c provider' again' ctx call l' a r ≡ returned (answer, l'))
  unfolding run_replayed
  run_replayed-Resumes provider again l l' a r answer storable h =
      elim (Bool-cases (not (invalid_answer r.status) || not call.allow_repair)) [
        | inl done ↦
            let same = rw done at h in
            let is : answer ≡ r = ground (arith, same) in
            let left : l' ≡ l = ground (arith, same) in
            rw left (λ k x f. f, λ provider' again'. rw (done, is) refl)
        | inr due ↦
            let (repaired, keeps) =
              repair-Repaired c ctx call provider again.lease_id (provider_result_of a) again.now l
                l' answer storable (rw due at h) in
            (
              keeps,
              λ provider' again'.
                  rw due (repaired provider' again'.lease_id (provider_result_of a) again'.now),
            )
      ]

  run_attempted-Resumes :
      (provider : Provider) (again : Moment) (r : ProviderResult) (l l' : Ledger)
      (answer : AgentResult)
      → Storable c (repair_call c call) provider
      → (done : Answered c ctx call r l)
      → run_attempted c provider again ctx call r l ≡ returned (answer, l')
      → KeepsRows l l'
        × ((provider' : Provider) (again' : Moment)
            → run_replayed c provider' again' ctx call l' done.audited done.answer
              ≡ returned (answer, l'))
  unfolding run_attempted run_replayed
  run_attempted-Resumes provider again r l l' answer storable done h =
      let status = domain_result-status c call.id r done.answer done.first in
      let invalid : invalid_answer done.answer.status ≡ is_invalid r.status =
        ap invalid_answer status ∙ invalid-from_provider r.status in
      elim (Bool-cases (is_invalid r.status && call.allow_repair)) [
        | inl due ↦
            let test : (not (invalid_answer done.answer.status) || not call.allow_repair) ≡ false =
              ground (arith, due, invalid) in
            let (repaired, keeps) =
              repair-Repaired c ctx call provider again.lease_id r again.now l l' answer storable
                (rw due at h) in
            (
              keeps,
              λ provider' again'.
                  rw test (
                    repaired provider' again'.lease_id (provider_result_of done.audited)
                      again'.now),
            )
        | inr valid ↦
            let test : (not (invalid_answer done.answer.status) || not call.allow_repair) ≡ true =
              ground (arith, valid, invalid) in
            let (x, made, e) =
              andthen-eq-returned (domain_result c call.id r) _ (answer, l') (rw valid at h) in
            let is : answer ≡ done.answer = ground (arith, made, e, done.first) in
            let left : l' ≡ l = ground (arith, e) in
            rw left (λ k y f. f, λ provider' again'. rw (test, is) refl)
      ]

  replayed_again :
      (provider : Provider) (first again : Moment) (l : Ledger) (a : AuditRow)
      (r answer : AgentResult)
      → request_contains_secret c call ≡ false
      → row audit_key call.id l.audits ≡ some a
      → replay c ctx call a ≡ returned r
      → run_replayed c provider again ctx call l a r ≡ returned (answer, l)
      → run_call c provider first again ctx call l ≡ returned (answer, l)
  unfolding run_call run_found
  replayed_again provider first again l a r answer clean found same done =
      rw (clean, found, same) done

  -- If the JSONB column gives back what the first provider answers as it was, a call that `run` has
  -- answered is answered again, by the same result and without a change of the tables, whatever the
  -- provider would say now and at whatever time: from the audit rows of the call and, where it was
  -- repaired, of its repair.
  pub run_answers_again :
      (provider provider' : Provider) (first again first' again' : Moment) (l l' : Ledger)
      (answer : AgentResult)
      → Storable c call provider
      → Storable c (repair_call c call) provider
      → run_call c provider first again ctx call l ≡ returned (answer, l')
      → run_call c provider' first' again' ctx call l' ≡ returned (answer, l')
  unfolding run_call run_found
  run_answers_again provider provider' first again first' again' l l' answer storable
        storable_repair h =
      elim (Bool-cases (request_contains_secret c call)) [
        | inl secret ↦ absurd (cc (rw (secret, run_call) at h))
        | inr clean ↦
            located clean (row audit_key call.id l.audits) refl (rw (clean, run_call) at h)
      ]
    where
      located :
          (clean : request_contains_secret c call ≡ false) (o : Option AuditRow)
          → row audit_key call.id l.audits ≡ o
          → run_found c provider first again ctx call l o ≡ returned (answer, l')
          → run_call c provider' first' again' ctx call l' ≡ returned (answer, l')
      located clean none _ e =
          let ((r, l₁), attempted, e') =
            andthen-eq-returned
              (execute_attempt c provider first.lease_id ctx call (provider_request call) 0
                first.now l)
              _ (answer, l') e in
          let (done, _) =
            execute_attempt-Answered c ctx call provider first.lease_id (provider_request call) 0
              first.now l l₁ r storable refl attempted in
          let (keeps, resumes) =
            run_attempted-Resumes provider again r l₁ l' answer storable_repair done e' in
          replayed_again provider' first' again' l' done.audited done.answer answer clean
            (keeps call.id done.audited done.found) done.again (resumes provider' again')
      located clean (some a) found e =
          let (r, same, e') = andthen-eq-returned (replay c ctx call a) _ (answer, l') e in
          let (keeps, resumes) =
            run_replayed-Resumes provider again l l' a r answer storable_repair e' in
          replayed_again provider' first' again' l' a r answer clean (keeps call.id a found) same
            (resumes provider' again')
