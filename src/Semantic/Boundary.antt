-- ===== src/Semantic/Boundary.antt =====
-- `_normalize_provider_result` and what it looks for in an output: the references outside the
-- request's allowlists, and secrets.
use Prim.Native.String.{count}
use gapforge.Common.{
  ℕ, String, Bool, true, false, not, ◌&&◌, ◌||◌, Option, none, some, List, [], ◌∷◌, ◌++◌, leb, ◌==◌,
  string_eq, if◌then◌else◌, any, every,
}
use gapforge.Common.Text.{contains, ends_with}
use gapforge.Json.{
  Json, Items, Fields, Key, null, text, array, object, nil, cons, end, field, name, foreign,
}
use gapforge.Semantic.Model.{
  ProviderStatus, ProviderResult, Call, SemanticOutcome, failed_with, returned, AgentResult,
  Reasoner,
}
use gapforge.Semantic.Audit.{domain_result}

abbrev pub invalid_reference : String
invalid_reference = "<invalid-reference-type>"

-- `_EVIDENCE_REFERENCE_KEYS`
abbrev pub evidence_keys : List String
evidence_keys =
    "evidence_id" ∷ "evidence_ids" ∷ "raw_signal_revision_id" ∷ "raw_signal_revision_ids"
    ∷ "representative_evidence_ids" ∷ "source_id" ∷ "source_ids" ∷ []

-- A key of a parsed JSON object is a text; another key names nothing.
unfoldable pub names_evidence : Key → Bool
names_evidence (name k) =
    any (λ s. k == s) evidence_keys || (ends_with "_evidence_id" k || ends_with "_evidence_ids" k)
names_evidence foreign = false

unfoldable pub names_url : Key → Bool
names_url (name k) = k == "url" || (ends_with "_url" k || ends_with "_urls" k)
names_url foreign = false

abbrev pub item_string : Json → String
item_string (text s) = s
item_string _ = invalid_reference

abbrev pub item_strings : Items → List String
item_strings nil = []
item_strings (cons v vs) = item_string v ∷ item_strings vs

-- `_collect_strings`
abbrev pub collect_strings : Json → List String
collect_strings (text s) = s ∷ []
collect_strings (array items) = item_strings items
collect_strings _ = invalid_reference ∷ []

abbrev pub strings_if : Bool → Json → List String
strings_if true v = collect_strings v
strings_if false v = []

-- `_collect_references` for one of its two sets, whose keys the test tells.
unfoldable mutual
  pub collect_references : (Key → Bool) → Json → List String
  collect_references names (object fs) = field_references names fs
  collect_references names (array items) = item_references names items
  collect_references names _ = []

  pub item_references : (Key → Bool) → Items → List String
  item_references names nil = []
  item_references names (cons v vs) = collect_references names v ++ item_references names vs

  pub field_references : (Key → Bool) → Fields → List String
  field_references names end = []
  field_references names (field k v fs) =
      strings_if (names k) v ++ collect_references names v ++ field_references names fs

-- `values <= set(allowed)`
abbrev pub all_permitted : List String → List String → Bool
all_permitted values allowed = every (λ x. any (λ y. x == y) allowed) values

abbrev pub is_success : ProviderStatus → Bool
is_success ProviderStatus.success = true
is_success _ = false

-- `model_copy` to an invalid output.
abbrev pub invalidated : String → String → ProviderResult → ProviderResult
invalidated error message r = record r {
  status = ProviderStatus.invalid_output;
  payload = none;
  error_class = some error;
  error_message = some message;
}

unfoldable pub permitted_fields : Call → Fields → ProviderResult → ProviderResult
unfolding collect_references item_references field_references names_evidence names_url
permitted_fields call fs r =
    if not
      (all_permitted (collect_references names_evidence (object fs)) call.permitted_evidence_ids)
    then invalidated "PermittedEvidenceViolation"
        "output referenced evidence outside the permitted allowlist" r
    else if not (all_permitted (collect_references names_url (object fs)) call.permitted_urls)
    then invalidated "PermittedUrlViolation"
        "output referenced a URL outside the permitted allowlist" r
    else r

unfoldable pub permitted_payload : Call → Option Fields → ProviderResult → ProviderResult
unfolding permitted_fields
permitted_payload call none r = r
permitted_payload call (some fs) r = permitted_fields call fs r

-- `_enforce_permitted_references`
unfoldable pub enforce_permitted_references : Call → ProviderResult → ProviderResult
unfolding permitted_payload
enforce_permitted_references call r =
    if is_success r.status then permitted_payload call r.payload r else r

-- `_contains_secret`
unfoldable mutual
  unfolding contains

  pub contains_secret : List String → Json → Bool
  contains_secret secrets (text s) = any (λ secret. contains secret s) secrets
  contains_secret secrets (object fs) = fields_contain_secret secrets fs
  contains_secret secrets (array items) = items_contain_secret secrets items
  contains_secret secrets _ = false

  pub items_contain_secret : List String → Items → Bool
  items_contain_secret secrets nil = false
  items_contain_secret secrets (cons v vs) =
      contains_secret secrets v || items_contain_secret secrets vs

  pub fields_contain_secret : List String → Fields → Bool
  fields_contain_secret secrets end = false
  fields_contain_secret secrets (field (name k) v fs) =
      any (λ secret. contains secret k) secrets
      || (contains_secret secrets v || fields_contain_secret secrets fs)
  fields_contain_secret secrets (field foreign v fs) =
      contains_secret secrets v || fields_contain_secret secrets fs

-- `_sanitized_provider_failure`
abbrev pub sanitized_provider_failure : Reasoner → String → String → ProviderResult
sanitized_provider_failure c effort error = record {
  status = ProviderStatus.error;
  payload = none;
  usage = record { input_tokens = 0; cached_input_tokens = 0; output_tokens = 0 };
  provider = c.provider_name;
  requested_model = c.model;
  resolved_model = none;
  effort = effort;
  cli_version = none;
  duration_ms = 0;
  repair_attempts = 0;
  error_class = some error;
  error_message = some "provider result was rejected at the audited boundary";
}

abbrev pub text_within : ℕ → Option String → Bool
text_within limit none = true
text_within limit (some s) = leb (count s) limit

abbrev pub identity_matches : Reasoner → String → ProviderResult → Bool
identity_matches c effort r =
    r.provider == c.provider_name && (r.requested_model == c.model && r.effort == effort)

abbrev pub bounded_identity : ProviderResult → Bool
bounded_identity r =
    text_within 160 r.resolved_model
    && (text_within 80 r.cli_version
        && (text_within 80 r.error_class
            && (leb r.duration_ms 9223372036854775807
                && (leb r.usage.input_tokens 9223372036854775807
                    && (leb r.usage.cached_input_tokens 9223372036854775807
                        && leb r.usage.output_tokens 9223372036854775807)))))

abbrev pub text_or_null : Option String → Json
text_or_null none = null
text_or_null (some s) = text s

abbrev pub object_or_null : Option Fields → Json
object_or_null none = null
object_or_null (some fs) = object fs

-- The dict whose secrets are looked for, its keys included.
abbrev pub searched : ProviderResult → Json
searched r = object (
    field (name "data") (object_or_null r.payload) (
      field (name "resolved_model") (text_or_null r.resolved_model) (
        field (name "cli_version") (text_or_null r.cli_version) (
          field (name "error_class") (text_or_null r.error_class)
            (field (name "error_message") (text_or_null r.error_message) end)))))

-- The result as it is where the domain accepts it, and an invalid output elsewhere.
unfoldable pub if_domain_accepts : SemanticOutcome AgentResult → ProviderResult → ProviderResult
if_domain_accepts (returned _) r = r
if_domain_accepts (failed_with _) r =
    record (invalidated "ProviderResultBoundsViolation"
      "provider output violates the bounded domain contract" r) {
        resolved_model = none;
        cli_version = none;
      }

-- `_normalize_provider_result`; `none` is a result that is no `AgentResult`, and `effort` is the
-- provider request's.
unfoldable pub normalize_provider_result :
    Reasoner → Call → String → Option ProviderResult → ProviderResult
unfolding enforce_permitted_references contains_secret items_contain_secret fields_contain_secret
    if_domain_accepts
normalize_provider_result c call effort none =
    sanitized_provider_failure c effort "ProviderResultTypeError"
normalize_provider_result c call effort (some r) =
    if not (identity_matches c effort r)
    then sanitized_provider_failure c effort "ProviderIdentityMismatch"
    else if not (bounded_identity r)
    then sanitized_provider_failure c effort "ProviderResultBoundsViolation"
    else if contains_secret c.secret_values (searched r)
    then sanitized_provider_failure c effort "SecretMaterialDetected"
    else (let kept = enforce_permitted_references call r in
        if_domain_accepts (domain_result c call.id kept) kept)
