-- ===== src/Semantic/Calls.antt =====
-- `AuditedSemanticReasoner.run`, `_execute_attempt` and `_repair`, one transaction after another, with
-- the provider as a function of its request. The heartbeats beside the provider are transactions of
-- their own, in Admission; an attempt whose heartbeat fails raises and is not followed further here.
use gapforge.Common.{
  ℕ, String, Bool, true, false, not, ◌&&◌, ◌||◌, Option, none, some, if◌then◌else◌, nat_beq, ◌==◌,
  nat_eq, string_eq, value_error,
}
use gapforge.Json.{object}
use gapforge.Rows.{row}
use gapforge.Semantic.Model.{
  ProviderStatus, AgentStatus, ProviderResult, AgentResult, AuditRow, audit_key, Ledger, Context,
  Call, AdmissionKind, admission, raised, SemanticOutcome, failed_with, returned, ◌andthen◌,
  Reasoner,
}
use gapforge.Semantic.Audit.{replay, provider_result_of, audit_and_release, domain_result}
use gapforge.Semantic.Admission.{Decision, admitted, replayed, denied, admit, round_to}
use gapforge.Semantic.Boundary.{normalize_provider_result, contains_secret}

-- What an attempt asks of the provider: the call, and the context of the repair, if it is one.
pub record Request : Type 0 where
  pub operation : String
  pub allow_repair : Bool
  pub repair_attempt : ℕ
  pub repair_context : Option String
  pub effort : String

-- `_provider_request`
abbrev pub provider_request : Call → Request
provider_request call = record {
  operation = call.operation;
  allow_repair = call.allow_repair;
  repair_attempt = 0;
  repair_context = none;
  effort = call.effort;
}

-- `error_message or "output failed validation"`
abbrev pub message_or_default : Option String → String
message_or_default none = "output failed validation"
message_or_default (some s) = if s == "" then "output failed validation" else s

abbrev pub is_invalid : ProviderStatus → Bool
is_invalid ProviderStatus.invalid_output = true
is_invalid _ = false

abbrev pub invalid_answer : AgentStatus → Bool
invalid_answer AgentStatus.invalid_output = true
invalid_answer _ = false

-- `build_repair_request`
unfoldable pub build_repair_request : Request → ProviderResult → SemanticOutcome Request
build_repair_request q r =
    if not (is_invalid r.status)
    then failed_with (raised value_error)
    else if not q.allow_repair || not (nat_beq q.repair_attempt 0)
    then failed_with (raised value_error)
    else returned (record q {
      allow_repair = false;
      repair_attempt = 1;
      repair_context = some (message_or_default r.error_message);
    })

-- How the provider ends: with a result, which `none` says is no `AgentResult`, with an exception of
-- its own, or not before the time that remains has passed.
pub data ProviderEnd : Type 0 where
  gave : Option ProviderResult → ProviderEnd
  threw timed_out : ProviderEnd

abbrev pub Provider : Type 0
Provider = Request → ProviderEnd

abbrev pub own_failure : Reasoner → String → ProviderStatus → ℕ → String → String → ProviderResult
own_failure c effort status duration_ms error message = record {
  status = status;
  payload = none;
  usage = record { input_tokens = 0; cached_input_tokens = 0; output_tokens = 0 };
  provider = c.provider_name;
  requested_model = c.model;
  resolved_model = none;
  effort = effort;
  cli_version = none;
  duration_ms = duration_ms;
  repair_attempts = 0;
  error_class = some error;
  error_message = some message;
}

-- `raw_result`
abbrev pub raw_result : Reasoner → String → ℕ → ProviderEnd → Option ProviderResult
raw_result c effort remaining (gave r) = r
raw_result c effort remaining threw = some (
    own_failure c effort ProviderStatus.error 0 "ProviderExecutionError"
      "provider raised an exception")
raw_result c effort remaining timed_out = some (
    own_failure c effort ProviderStatus.timeout (round_to 1000 remaining) "RunDeadlineExceeded"
      "provider call reached the remaining run deadline")

abbrev pub with_attempt : ℕ → ProviderResult → ProviderResult
with_attempt n r = record r { repair_attempts = n }

-- What goes on after the admission: the answer of the provider is normalised and audited.
unfoldable pub after_admission :
    Reasoner
    → Provider
    → Context
    → Call
    → Request
    → SemanticOutcome (Decision × Ledger)
    → SemanticOutcome (ProviderResult × Ledger)
after_admission c provider ctx call q (failed_with e) = failed_with e
after_admission c provider ctx call q (returned (denied kind, l)) = failed_with (admission kind)
after_admission c provider ctx call q (returned (replayed r, l)) = returned (r, l)
after_admission c provider ctx call q (returned (admitted lease_id remaining, l)) =
    let r =
      with_attempt q.repair_attempt (
        normalize_provider_result c call q.effort (raw_result c q.effort remaining (provider q))) in
    audit_and_release c ctx call lease_id r l andthen λ l'. returned (r, l')

-- `_execute_attempt`
unfoldable pub execute_attempt :
    Reasoner
    → Provider
    → ℕ
    → Context
    → Call
    → Request
    → ℕ
    → ℕ
    → Ledger
    → SemanticOutcome (ProviderResult × Ledger)
unfolding after_admission
execute_attempt c provider id ctx call q repair_attempt now l =
    after_admission c provider ctx call q (admit c id ctx call repair_attempt now l)

-- The identity of the one repair of a call.
abbrev pub repair_call : Reasoner → Call → Call
repair_call c call = record call {
  id = c.repair_uuid call.id;
  allow_repair = false;
  request_hash = c.repair_hash call;
}

-- `model_copy` of the answer to a repair.
abbrev pub as_repaired : ℕ → AgentResult → AgentResult
as_repaired call_id a = record a { call_id = call_id; repair_attempted = true }

unfoldable pub repair_fresh :
    Reasoner
    → Provider
    → ℕ
    → Context
    → Call
    → ProviderResult
    → ℕ
    → Ledger
    → SemanticOutcome (AgentResult × Ledger)
unfolding build_repair_request execute_attempt
repair_fresh c provider id ctx call invalid now l =
    build_repair_request (provider_request call) invalid andthen λ q.
    execute_attempt c provider id ctx (repair_call c call) q 1 now l andthen λ (r, l').
    domain_result c call.id r andthen λ a. returned (as_repaired call.id a, l')

unfoldable pub repair_found :
    Reasoner
    → Provider
    → ℕ
    → Context
    → Call
    → ProviderResult
    → ℕ
    → Ledger
    → Option AuditRow
    → SemanticOutcome (AgentResult × Ledger)
unfolding repair_fresh
repair_found c provider id ctx call invalid now l (some a) =
    replay c ctx (repair_call c call) a andthen λ r. returned (as_repaired call.id r, l)
repair_found c provider id ctx call invalid now l none =
    repair_fresh c provider id ctx call invalid now l

-- `_repair`
unfoldable pub repair :
    Reasoner
    → Provider
    → ℕ
    → Context
    → Call
    → ProviderResult
    → ℕ
    → Ledger
    → SemanticOutcome (AgentResult × Ledger)
unfolding repair_found
repair c provider id ctx call invalid now l =
    repair_found c provider id ctx call invalid now l
      (row audit_key (c.repair_uuid call.id) l.audits)

-- The fresh lease of an attempt, and its time.
pub record Moment : Type 0 where
  pub lease_id : ℕ
  pub now : ℕ

unfoldable pub run_replayed :
    Reasoner
    → Provider
    → Moment
    → Context
    → Call
    → Ledger
    → AuditRow
    → AgentResult
    → SemanticOutcome (AgentResult × Ledger)
unfolding repair
run_replayed c provider again ctx call l a r =
    if not (invalid_answer r.status) || not call.allow_repair
    then returned (r, l)
    else repair c provider again.lease_id ctx call (provider_result_of a) again.now l

unfoldable pub run_attempted :
    Reasoner
    → Provider
    → Moment
    → Context
    → Call
    → ProviderResult
    → Ledger
    → SemanticOutcome (AgentResult × Ledger)
unfolding repair
run_attempted c provider again ctx call r l =
    if is_invalid r.status && call.allow_repair
    then repair c provider again.lease_id ctx call r again.now l
    else domain_result c call.id r andthen λ a. returned (a, l)

unfoldable pub run_found :
    Reasoner
    → Provider
    → Moment
    → Moment
    → Context
    → Call
    → Ledger
    → Option AuditRow
    → SemanticOutcome (AgentResult × Ledger)
unfolding run_replayed run_attempted execute_attempt
run_found c provider first again ctx call l (some a) =
    replay c ctx call a andthen λ r. run_replayed c provider again ctx call l a r
run_found c provider first again ctx call l none =
    execute_attempt c provider first.lease_id ctx call (provider_request call) 0 first.now l
    andthen λ (r, l'). run_attempted c provider again ctx call r l'

abbrev pub request_contains_secret : Reasoner → Call → Bool
request_contains_secret c call =
    contains_secret c.secret_values (object call.input_json)
    || contains_secret c.secret_values (object call.output_schema)

-- `AuditedSemanticReasoner.run`. The ledger is given for a run that returns; the transactions of one
-- that raises have committed what `admit` and `audit_and_release` say.
unfoldable pub run_call :
    Reasoner
    → Provider
    → Moment
    → Moment
    → Context
    → Call
    → Ledger
    → SemanticOutcome (AgentResult × Ledger)
unfolding run_found contains_secret
run_call c provider first again ctx call l =
    if request_contains_secret c call
    then failed_with (admission AdmissionKind.task_context_invalid)
    else run_found c provider first again ctx call l (row audit_key call.id l.audits)
