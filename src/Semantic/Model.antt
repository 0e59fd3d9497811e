-- ===== src/Semantic/Model.antt =====
-- The rows, results and requests of the semantic reasoner. A UUID is a number. Operations, schema
-- names and hashes of a request are taken as the request's identity; how the hashes are computed is
-- the library's SHA-256 over JSON.
use gapforge.Common.{ℕ, ◌≡◌, refl, String, Bool, Option, List, Exn}
use gapforge.Json.{Fields}
use gapforge.Queue.Model.{Db}
use gapforge.Queue.Control.{Codec}

-- `providers.contracts.AgentStatus`
pub data ProviderStatus : Type 0 where
  success auth_required invalid_output timeout error : ProviderStatus

-- `domain.contracts.AgentStatus`
pub data AgentStatus : Type 0 where
  completed invalid_output auth_required timeout failed : AgentStatus

-- `agent_status_from_provider`
abbrev pub from_provider : ProviderStatus → AgentStatus
from_provider ProviderStatus.success = completed
from_provider ProviderStatus.invalid_output = AgentStatus.invalid_output
from_provider ProviderStatus.auth_required = AgentStatus.auth_required
from_provider ProviderStatus.timeout = AgentStatus.timeout
from_provider ProviderStatus.error = failed

-- `agent_status_to_provider`
abbrev pub to_provider : AgentStatus → ProviderStatus
to_provider completed = ProviderStatus.success
to_provider AgentStatus.invalid_output = ProviderStatus.invalid_output
to_provider AgentStatus.auth_required = ProviderStatus.auth_required
to_provider AgentStatus.timeout = ProviderStatus.timeout
to_provider failed = ProviderStatus.error

pub record Usage : Type 0 where
  pub input_tokens : ℕ
  pub cached_input_tokens : ℕ
  pub output_tokens : ℕ

-- `providers.contracts.AgentResult`, without the diagnostics of the subprocess.
pub record ProviderResult : Type 0 where
  pub status : ProviderStatus
  pub payload : Option Fields  -- the field `data`
  pub usage : Usage
  pub provider : String
  pub requested_model : String
  pub resolved_model : Option String
  pub effort : String
  pub cli_version : Option String
  pub duration_ms : ℕ
  pub repair_attempts : ℕ
  pub error_class : Option String
  pub error_message : Option String

-- `domain.contracts.AgentResult`
pub record AgentResult : Type 0 where
  pub call_id : ℕ
  pub status : AgentStatus
  pub output_json : Option Fields
  pub provider : String
  pub model_requested : Option String
  pub effort : String
  pub cli_version : Option String
  pub duration_ms : ℕ
  pub repair_attempted : Bool
  pub error_class : Option String

-- The audit row `AgentCall` of src/gapforge/storage/models.py.
pub record AuditRow : Type 0 where
  pub id : ℕ
  pub run_id : ℕ
  pub task_id : ℕ
  pub provider : String
  pub operation : String
  pub output_schema_name : String
  pub output_schema_sha256 : List ℕ
  pub request_sha256 : List ℕ
  pub requested_model : String
  pub resolved_model : Option String
  pub effort : String
  pub cli_version : Option String
  pub status : AgentStatus
  pub duration_ms : ℕ
  pub repair_attempts : ℕ
  pub usage : Usage
  pub error_class : Option String
  pub output_json : Option Fields
  pub output_sha256 : Option (List ℕ)

abbrev pub audit_key : AuditRow → ℕ
audit_key a = a.id

-- The tables of the queue and the audit rows.
pub record Ledger : Type 0 where
  pub db : Db
  pub audits : List AuditRow

pub record Context : Type 0 where
  pub run_id : ℕ
  pub task_id : ℕ

-- A `SemanticCall` by its identity and its permissions.
pub record Call : Type 0 where
  pub id : ℕ
  pub operation : String
  pub output_schema_name : String
  pub schema_hash : List ℕ
  pub request_hash : List ℕ
  pub effort : String
  pub allow_repair : Bool
  pub input_json : Fields
  pub output_schema : Fields
  pub permitted_evidence_ids : List String
  pub permitted_urls : List String

pub data AdmissionKind : Type 0 where
  budget_exhausted deadline_exceeded parallel_limit : AdmissionKind
  task_context_invalid replay_unavailable indeterminate_attempt : AdmissionKind

-- `SemanticAdmissionError`, or another exception.
pub data SemanticFailure : Type 0 where
  admission : AdmissionKind → SemanticFailure
  raised : Exn → SemanticFailure

pub data SemanticOutcome {ℓ} (A : Type ℓ) : Type ℓ where
  failed_with : SemanticFailure → SemanticOutcome A
  returned : A → SemanticOutcome A

infixl 5 ◌andthen◌
abbrev pub ◌andthen◌ {ℓ κ} :
    {A : Type ℓ} {B : Type κ} → SemanticOutcome A → (A → SemanticOutcome B) → SemanticOutcome B
(failed_with e) andthen next = failed_with e
(returned value) andthen next = next value

-- A chain that returns has returned at each link.
pub andthen-eq-returned {ℓ κ} :
    {A : Type ℓ} {B : Type κ} (first : SemanticOutcome A) (next : A → SemanticOutcome B) (final : B)
    → (first andthen next) ≡ returned final
    → (value : A) × (first ≡ returned value) × (next value ≡ returned final)
andthen-eq-returned (failed_with e) next final h = absurd (cc)
andthen-eq-returned (returned value) next final h = (value, refl, h)

-- The reasoner's constructor arguments, with the empty texts gone from `secret_values`. `json_hash` is
-- the SHA-256 of the sorted JSON, `encoded_size` the length of the sorted JSON in bytes, where the
-- value has one, `stored_json` what a JSONB column gives back of a value (it may write a number in
-- another way), `trimmed` pydantic's `strip_whitespace`, `repair_uuid` the UUID of version 5 for
-- `repair:1`, and `repair_hash` the SHA-256 of a call's repair.
pub record Reasoner : Type 0 where
  pub lease_owner : String
  pub provider_name : String
  pub model : String
  pub lease_duration : ℕ
  pub secret_values : List String
  pub codec : Codec
  pub json_hash : Fields → List ℕ
  pub stored_json : Fields → Fields
  pub encoded_size : Fields → Option ℕ
  pub trimmed : String → String
  pub repair_uuid : ℕ → ℕ
  pub repair_hash : Call → List ℕ
