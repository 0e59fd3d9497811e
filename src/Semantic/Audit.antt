-- ===== src/Semantic/Audit.antt =====
-- `_domain_result`, `_replay`, `_provider_result_from_audit` and `_audit_and_release`.
use Prim.Native.String.{count}
use gapforge.Common.{
  ℕ, suc, String, Bool, true, false, not, ◌&&◌, Option, none, some, List, [], ◌∷◌, ◌++◌,
  value_error, integrity_error, leb, nat_beq, ◌==◌, nat_eq, string_eq, if◌then◌else◌, is_some,
}
use gapforge.Json.{Fields, end, field}
use gapforge.Rows.{row, delete}
use gapforge.Queue.Model.{CallLease, lease_key}
use gapforge.Semantic.Model.{
  AgentStatus, completed, from_provider, to_provider, ProviderResult, AgentResult, AuditRow,
  audit_key, Ledger, Context, Call, indeterminate_attempt, replay_unavailable, admission, raised,
  SemanticOutcome, failed_with, returned, ◌andthen◌, Reasoner,
}

abbrev pub same_bytes : List ℕ → List ℕ → Bool
same_bytes [] [] = true
same_bytes (x ∷ xs) (y ∷ ys) = nat_beq x y && same_bytes xs ys
same_bytes _ _ = false

-- `text or None`
abbrev pub non_empty : String → Option String
non_empty s = if nat_beq (count s) 0 then none else some s

abbrev pub is_completed : AgentStatus → Bool
is_completed completed = true
is_completed _ = false

abbrev pub same_test : Bool → Bool → Bool
same_test true b = b
same_test false b = not b

abbrev pub field_count : Fields → ℕ
field_count end = 0
field_count (field k v fs) = suc (field_count fs)

abbrev pub within : ℕ → Option ℕ → Bool
within limit none = false
within limit (some size) = leb size limit

-- `_bounded_metadata`, and before it the type's bound of 100 keys.
abbrev pub bounded_metadata : Reasoner → Fields → Bool
bounded_metadata c fs =
    leb (field_count fs) 100 && leb (field_count fs) 50 && within 20000 (c.encoded_size fs)

abbrev pub payload_bounded : Reasoner → Option Fields → Bool
payload_bounded c none = true
payload_bounded c (some fs) = bounded_metadata c fs

-- A text field of a contract, `ShortText` or `Identifier`: trimmed, and of 1 to `limit` characters.
unfoldable pub contract_text : Reasoner → ℕ → Option String → SemanticOutcome (Option String)
contract_text c limit none = returned none
contract_text c limit (some s) =
    let t = c.trimmed s in
    if leb 1 (count t) && leb (count t) limit
    then returned (some t)
    else failed_with (raised value_error)

-- `output_matches_status`: output exactly where completed, and bounded.
unfoldable pub check_output : Reasoner → AgentResult → SemanticOutcome AgentResult
check_output c r =
    if not (same_test (is_completed r.status) (is_some r.output_json))
    then failed_with (raised value_error)
    else if not (payload_bounded c r.output_json)
    then failed_with (raised value_error)
    else returned r

-- What pydantic makes of the fields of a `domain.AgentResult`.
unfoldable pub check_result : Reasoner → AgentResult → SemanticOutcome AgentResult
unfolding contract_text check_output
check_result c r = contract_text c 500 r.model_requested andthen λ model.
    contract_text c 500 r.cli_version andthen λ version.
    contract_text c 200 r.error_class andthen λ error.
    check_output c
      (record r { model_requested = model; cli_version = version; error_class = error })

abbrev pub result_of : ℕ → ProviderResult → AgentResult
result_of call_id r = record {
  call_id = call_id;
  status = from_provider r.status;
  output_json = r.payload;
  provider = r.provider;
  model_requested = non_empty r.requested_model;
  effort = r.effort;
  cli_version = r.cli_version;
  duration_ms = r.duration_ms;
  repair_attempted = not (nat_beq r.repair_attempts 0);
  error_class = r.error_class;
}

unfoldable pub domain_result : Reasoner → ℕ → ProviderResult → SemanticOutcome AgentResult
unfolding check_result
domain_result c call_id r = check_result c (result_of call_id r)

abbrev pub same_identity : Reasoner → Context → Call → AuditRow → Bool
same_identity c ctx call a =
    a.run_id == ctx.run_id
    && a.task_id == ctx.task_id
    && a.operation == call.operation
    && a.output_schema_name == call.output_schema_name
    && same_bytes a.output_schema_sha256 call.schema_hash
    && same_bytes a.request_sha256 call.request_hash
    && a.effort == call.effort
    && a.provider == c.provider_name
    && a.requested_model == c.model

-- `row.output_json is None or row.output_sha256 == _json_hash(row.output_json)`
abbrev pub checksum_holds : Reasoner → Option Fields → Option (List ℕ) → Bool
checksum_holds c none sum = true
checksum_holds c (some fs) none = false
checksum_holds c (some fs) (some sum) = same_bytes sum (c.json_hash fs)

abbrev pub result_of_audit : ℕ → AuditRow → AgentResult
result_of_audit call_id a = record {
  call_id = call_id;
  status = a.status;
  output_json = a.output_json;
  provider = a.provider;
  model_requested = non_empty a.requested_model;
  effort = a.effort;
  cli_version = a.cli_version;
  duration_ms = a.duration_ms;
  repair_attempted = not (nat_beq a.repair_attempts 0);
  error_class = a.error_class;
}

unfoldable pub replay : Reasoner → Context → Call → AuditRow → SemanticOutcome AgentResult
unfolding check_result
replay c ctx call a =
    if not (same_identity c ctx call a)
    then failed_with (admission replay_unavailable)
    else if not (checksum_holds c a.output_json a.output_sha256)
    then failed_with (admission replay_unavailable)
    else check_result c (result_of_audit call.id a)

-- `_provider_result_from_audit`
abbrev pub provider_result_of : AuditRow → ProviderResult
provider_result_of a = record {
  status = to_provider a.status;
  payload = a.output_json;
  usage = a.usage;
  provider = a.provider;
  requested_model = a.requested_model;
  resolved_model = a.resolved_model;
  effort = a.effort;
  cli_version = a.cli_version;
  duration_ms = a.duration_ms;
  repair_attempts = a.repair_attempts;
  error_class = a.error_class;
  error_message = some "prior output failed the audited semantic boundary";
}

-- `expected_journal`
abbrev pub journal_matches : Reasoner → Context → Call → ProviderResult → CallLease → Bool
journal_matches c ctx call r l =
    l.run_id == ctx.run_id
    && l.journal.task_id == ctx.task_id
    && l.journal.call_id == call.id
    && l.journal.operation == call.operation
    && l.journal.output_schema_name == call.output_schema_name
    && same_bytes l.journal.output_schema_sha256 call.schema_hash
    && same_bytes l.journal.request_sha256 call.request_hash
    && l.journal.provider == c.provider_name
    && l.journal.requested_model == c.model
    && l.journal.effort == call.effort
    && l.journal.repair_attempt == r.repair_attempts

abbrev pub hash_of : Reasoner → Option Fields → Option (List ℕ)
hash_of c none = none
hash_of c (some fs) = some (c.json_hash fs)

abbrev pub stored_output : Reasoner → Option Fields → Option Fields
stored_output c none = none
stored_output c (some fs) = some (c.stored_json fs)

-- The row, as it is read back. The checksum is of the output before it was stored.
abbrev pub audit_row : Reasoner → Context → Call → ProviderResult → AuditRow
audit_row c ctx call r = record {
  id = call.id;
  run_id = ctx.run_id;
  task_id = ctx.task_id;
  provider = c.provider_name;
  operation = call.operation;
  output_schema_name = call.output_schema_name;
  output_schema_sha256 = call.schema_hash;
  request_sha256 = call.request_hash;
  requested_model = c.model;
  resolved_model = r.resolved_model;
  effort = call.effort;
  cli_version = r.cli_version;
  status = from_provider r.status;
  duration_ms = r.duration_ms;
  repair_attempts = r.repair_attempts;
  usage = r.usage;
  error_class = r.error_class;
  output_json = stored_output c r.payload;
  output_sha256 = hash_of c r.payload;
}

-- The insert of an audit row, whose primary key the table keeps unique.
unfoldable pub add_audit : AuditRow → Ledger → SemanticOutcome Ledger
add_audit a l =
    if is_some (row audit_key a.id l.audits)
    then failed_with (raised integrity_error)
    else returned (record l { audits = l.audits ++ a ∷ [] })

abbrev pub without_lease : ℕ → Ledger → Ledger
without_lease id l = record l { db = record l.db { leases = delete lease_key id l.db.leases } }

-- The part of `_audit_and_release` with the locked lease.
unfoldable pub audit_leased :
    Reasoner → Context → Call → ProviderResult → CallLease → Ledger → SemanticOutcome Ledger
unfolding add_audit
audit_leased c ctx call r lease l =
    if not (lease.lease_owner == c.lease_owner)
    then failed_with (admission indeterminate_attempt)
    else if not (journal_matches c ctx call r lease)
    then failed_with (admission indeterminate_attempt)
    else add_audit (audit_row c ctx call r) (without_lease lease.id l)

-- `_audit_and_release`, one transaction.
unfoldable pub audit_and_release :
    Reasoner → Context → Call → ℕ → ProviderResult → Ledger → SemanticOutcome Ledger
unfolding domain_result audit_leased
audit_and_release c ctx call lease_id r l = domain_result c call.id r andthen λ _.
    elim (row lease_key lease_id l.db.leases) [
      | none ↦ failed_with (admission indeterminate_attempt)
      | some lease ↦ audit_leased c ctx call r lease l
    ]
