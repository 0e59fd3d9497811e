-- ===== src/Semantic/Examples.antt =====
-- A reasoner, a run with one task, and an answer that the boundary lets through.
use gapforge.Common.{
  arith, ℕ, ◌+◌, ◌≤◌, ◌≡◌, refl, true, none, some, List, [], ◌∷◌, ok, bit, count_if,
}
use gapforge.Common.Int.{pos, ◌+ℤ◌}
use gapforge.Common.Text.{is_blank, starts_with, contains, ends_with}
use gapforge.Json.{Fields, end, field, name, text, integer, get_field, set_field, array, cons, nil}
use gapforge.Queue.Model.{RunStatus, Run, Task}
use gapforge.Queue.Repository.{new_task, leased_to}
use gapforge.Queue.Control.{Codec, consume_budget, locked_run, spend}
use gapforge.Queue.ProviderCalls.{active_leases, check_journal, acquire, grant, new_lease}
use gapforge.Semantic.Model.{
  ProviderStatus, ProviderResult, Ledger, Context, Call, returned, Reasoner,
}
use gapforge.Semantic.Audit.{
  contract_text, check_output, check_result, domain_result, add_audit, audit_leased,
  audit_and_release, audit_row, result_of,
}
use gapforge.Semantic.Admission.{
  admitted, journal_of, parallel_of, reconcile_rows, reconcile, on_budget, on_lease, on_parallel,
  admit_new, admit_reconciled, admit_in_context, admit,
}
use gapforge.Semantic.Boundary.{
  collect_references, item_references, field_references, names_evidence, names_url,
  permitted_fields, permitted_payload, enforce_permitted_references, contains_secret,
  items_contain_secret, fields_contain_secret, if_domain_accepts, normalize_provider_result,
}
use gapforge.Semantic.Reconciled.{known}
use gapforge.Semantic.Once.{is_pair, History, here, admits, concludes, admitted_once}
use gapforge.Semantic.Parallel.{parallel_limit_kept}
use gapforge.Semantic.Accepted.{IsPermitted, accepted_output}
use gapforge.Semantic.Resumed.{run_answers_again}
use gapforge.Semantic.Calls.{
  build_repair_request, after_admission, execute_attempt, run_attempted, run_found, gave, timed_out,
  Provider, Moment, run_call,
}

abbrev hash : List ℕ
hash =
    0 ∷ 0 ∷ 0 ∷ 0 ∷ 0 ∷ 0 ∷ 0 ∷ 0 ∷ 0 ∷ 0 ∷ 0 ∷ 0 ∷ 0 ∷ 0 ∷ 0 ∷ 0 ∷ 0 ∷ 0 ∷ 0 ∷ 0 ∷ 0 ∷ 0 ∷ 0 ∷ 0
    ∷ 0 ∷ 0 ∷ 0 ∷ 0 ∷ 0 ∷ 0 ∷ 0 ∷ 0 ∷ []

abbrev plain : Codec
plain = record { parse_warning = λ w. ok w; parse_int = λ _. ok (pos 0); dumps = λ _. "" }

abbrev reasoner : Reasoner
reasoner = record {
  lease_owner = "w1";
  provider_name = "fake";
  model = "m";
  lease_duration = 100;
  secret_values = "hunter2" ∷ [];
  codec = plain;
  json_hash = λ _. hash;
  stored_json = λ fs. fs;
  encoded_size = λ _. some 40;
  trimmed = λ s. s;
  repair_uuid = λ k. k + 1;
  repair_hash = λ _. hash;
}

abbrev context : Context
context = record { run_id = 1; task_id = 7 }

abbrev call : Call
call = record {
  id = 50;
  operation = "extract";
  output_schema_name = "Pain";
  schema_hash = hash;
  request_hash = hash;
  effort = "low";
  allow_repair = true;
  input_json = end;
  output_schema = end;
  permitted_evidence_ids = "e1" ∷ "e2" ∷ [];
  permitted_urls = "https://a.example/" ∷ [];
}

abbrev run : Fields → Run
run used = record {
  id = 1;
  status = RunStatus.running;
  priority = pos 1;
  created_at = 10;
  deadline_at = 1000;
  started_at = none;
  completed_at = none;
  budget_limits = field (name "max_agent_calls_per_run") (integer (pos 5)) end;
  budget_used = used;
  warnings = [];
  last_checkpoint = end;
}

abbrev held : Task
held = leased_to "w1" 200 (new_task 7 1 "extract" "extract:1" end (pos 3) 3 20 10)

abbrev before : Ledger
before = record { db = record { runs = run end ∷ []; tasks = held ∷ []; leases = [] }; audits = [] }

abbrev output : Fields
output =
    field (name "evidence_ids") (array (cons (text "e2") nil))
      (field (name "source_url") (text "https://a.example/") end)

abbrev answer : ProviderResult
answer = record {
  status = ProviderStatus.success;
  payload = some output;
  usage = record { input_tokens = 3; cached_input_tokens = 0; output_tokens = 4 };
  provider = "fake";
  requested_model = "m";
  resolved_model = none;
  effort = "low";
  cli_version = some "1.0";
  duration_ms = 20;
  repair_attempts = 0;
  error_class = none;
  error_message = none;
}

abbrev provider : Provider
provider _ = gave (some answer)

abbrev silent : Provider
silent _ = timed_out

abbrev first : Moment
first = record { lease_id = 90; now = 100 }

abbrev again : Moment
again = record { lease_id = 91; now = 150 }

abbrev later : Ledger
later = record {
  db = record {
    runs = run (field (name "agent_calls") (integer (pos 1)) end) ∷ [];
    tasks = held ∷ [];
    leases = [];
  };
  audits = audit_row reasoner context call answer ∷ [];
}

answered :
    run_call reasoner provider first again context call before
    ≡ returned (result_of 50 answer, later)
unfolding run_call build_repair_request after_admission execute_attempt run_attempted run_found
    reconcile_rows reconcile on_budget on_lease on_parallel admit_new admit_reconciled
    admit_in_context admit contract_text check_output check_result domain_result add_audit
    audit_leased audit_and_release collect_references item_references field_references
    names_evidence names_url permitted_fields permitted_payload enforce_permitted_references
    contains_secret items_contain_secret fields_contain_secret if_domain_accepts
    normalize_provider_result check_journal acquire grant consume_budget locked_run spend get_field
    set_field is_blank starts_with contains ends_with ◌+ℤ◌
answered = refl

run_answers_again_example :
    run_call reasoner silent again first context call later ≡ returned (result_of 50 answer, later)
run_answers_again_example =
    run_answers_again reasoner context call provider silent first again again first before later
      (result_of 50 answer) (λ _ _ _ _. refl) (λ _ _ _ _. refl) answered

passes : normalize_provider_result reasoner call "low" (some answer) ≡ answer
unfolding build_repair_request after_admission execute_attempt run_attempted run_found
    reconcile_rows reconcile on_budget on_lease on_parallel admit_new admit_reconciled
    admit_in_context admit contract_text check_output check_result domain_result add_audit
    audit_leased audit_and_release collect_references item_references field_references
    names_evidence names_url permitted_fields permitted_payload enforce_permitted_references
    contains_secret items_contain_secret fields_contain_secret if_domain_accepts
    normalize_provider_result check_journal acquire grant consume_budget locked_run spend get_field
    set_field is_blank starts_with contains ends_with ◌+ℤ◌
passes = refl

accepted_output_example : IsPermitted reasoner call output
accepted_output_example =
    accepted_output reasoner call "low" (some answer) output (rw passes refl) (rw passes refl)

-- The call is admitted and then audited.
abbrev asked : Ledger
asked = record later {
  db = record later.db {
    leases = new_lease 90 1 "w1" 200 100 (journal_of reasoner context call 0) ∷ [];
  };
  audits = [];
}

admits_call : admit reasoner 90 context call 0 100 before ≡ returned (admitted 90 900, asked)
unfolding build_repair_request after_admission execute_attempt run_attempted run_found
    reconcile_rows reconcile on_budget on_lease on_parallel admit_new admit_reconciled
    admit_in_context admit contract_text check_output check_result domain_result add_audit
    audit_leased audit_and_release collect_references item_references field_references
    names_evidence names_url permitted_fields permitted_payload enforce_permitted_references
    contains_secret items_contain_secret fields_contain_secret if_domain_accepts
    normalize_provider_result check_journal acquire grant consume_budget locked_run spend get_field
    set_field is_blank starts_with contains ends_with ◌+ℤ◌
admits_call = refl

audits_call : audit_and_release reasoner context call 90 answer asked ≡ returned later
unfolding build_repair_request after_admission execute_attempt run_attempted run_found
    reconcile_rows reconcile on_budget on_lease on_parallel admit_new admit_reconciled
    admit_in_context admit contract_text check_output check_result domain_result add_audit
    audit_leased audit_and_release collect_references item_references field_references
    names_evidence names_url permitted_fields permitted_payload enforce_permitted_references
    contains_secret items_contain_secret fields_contain_secret if_domain_accepts
    normalize_provider_result check_journal acquire grant consume_budget locked_run spend get_field
    set_field is_blank starts_with contains ends_with ◌+ℤ◌
audits_call = refl

past : History before ((1, 50) ∷ []) later
past =
    concludes reasoner context call 90 answer
      (admits reasoner 90 context call 0 100 (admitted 90 900) here refl admits_call) audits_call

admitted_once_example : bit (known 1 50 before) + count_if (is_pair 1 50) ((1, 50) ∷ []) ≤ 1
admitted_once_example = admitted_once 1 50 before ((1, 50) ∷ []) later tt past

allows_two : parallel_of (get_field "max_parallel_agent_calls" (run end).budget_limits) ≡ ok 2
unfolding get_field
allows_two = refl

-- The run states no limit, so it may have two calls at once.
parallel_limit_kept_example : active_leases 1 150 later.db.leases ≤ 2
parallel_limit_kept_example =
    parallel_limit_kept 1 2 (run end) before ((1, 50) ∷ []) later 150 (refl, tt) refl allows_two
      (omega arith) past
