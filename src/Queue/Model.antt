-- ===== src/Queue/Model.antt =====
-- The rows that the queue works on (storage/models.py) and the tables that hold them.
-- A UUID is a number. A moment is a number of microseconds since 0001-01-01, a duration a number
-- of microseconds. Columns that no operation of the queue reads or writes are left out: the mission
-- revision and the mode of a run, and `updated_at`.
use gapforge.Common.{ℕ, String, Bool, true, false, Option, List}
use gapforge.Common.Int.{ℤ}
use gapforge.Json.{Json, Fields}
use gapforge.Rows.{row, put}

pub data RunStatus : Type 0 where
  queued running completed completed_with_warnings : RunStatus
  budget_exhausted auth_required failed cancelled : RunStatus

pub data TaskStatus : Type 0 where
  pending leased succeeded failed cancelled : TaskStatus

-- `ErrorKind` of queue/retry.py, which the column `retry_class` holds.
pub data ErrorKind : Type 0 where
  auth_required budget_exhausted deadline_exceeded integrity invalid_output : ErrorKind
  rate_limited timeout transient_network source_unavailable permanent : ErrorKind

pub record Run : Type 0 where
  pub id : ℕ
  pub status : RunStatus
  pub priority : ℤ
  pub created_at : ℕ
  pub deadline_at : ℕ
  pub started_at : Option ℕ
  pub completed_at : Option ℕ
  pub budget_limits : Fields
  pub budget_used : Fields
  pub warnings : List Json
  pub last_checkpoint : Fields

pub record Task : Type 0 where
  pub id : ℕ
  pub run_id : ℕ
  pub task_type : String
  pub status : TaskStatus
  pub priority : ℤ
  pub idempotency_key : String
  pub payload : Fields
  pub checkpoint : Fields
  pub outcome : Option Fields  -- the column `result`
  pub attempt_count : ℕ
  pub max_attempts : ℕ
  pub retry_class : Option ErrorKind
  pub last_error : Option String
  pub available_at : ℕ
  pub created_at : ℕ
  pub lease_owner : Option String
  pub lease_expires_at : Option ℕ
  pub completed_at : Option ℕ

-- `ProviderCallJournal` of queue/control.py; a hash is the list of its bytes.
pub record Journal : Type 0 where
  pub task_id : ℕ
  pub call_id : ℕ
  pub operation : String
  pub output_schema_name : String
  pub output_schema_sha256 : List ℕ
  pub request_sha256 : List ℕ
  pub provider : String
  pub requested_model : String
  pub effort : String
  pub repair_attempt : ℕ

-- `ProviderCallLease`. The columns copied from the journal are kept together.
pub record CallLease : Type 0 where
  pub id : ℕ
  pub run_id : ℕ
  pub lease_owner : String
  pub lease_expires_at : ℕ
  pub created_at : ℕ
  pub journal : Journal

pub record Db : Type 0 where
  pub runs : List Run
  pub tasks : List Task
  pub leases : List CallLease

abbrev pub run_key : Run → ℕ
run_key r = r.id

abbrev pub task_key : Task → ℕ
task_key t = t.id

abbrev pub lease_key : CallLease → ℕ
lease_key l = l.id

abbrev pub get_run : ℕ → Db → Option Run
get_run k db = row run_key k db.runs

abbrev pub get_task : ℕ → Db → Option Task
get_task k db = row task_key k db.tasks

abbrev pub put_run : Run → Db → Db
put_run r db = record db { runs = put run_key r db.runs }

abbrev pub put_task : Task → Db → Db
put_task t db = record db { tasks = put task_key t db.tasks }

abbrev pub is_running : RunStatus → Bool
is_running RunStatus.running = true
is_running _ = false

abbrev pub is_queued : RunStatus → Bool
is_queued RunStatus.queued = true
is_queued _ = false

abbrev pub is_pending : TaskStatus → Bool
is_pending TaskStatus.pending = true
is_pending _ = false

abbrev pub is_leased : TaskStatus → Bool
is_leased TaskStatus.leased = true
is_leased _ = false

abbrev pub is_succeeded : TaskStatus → Bool
is_succeeded TaskStatus.succeeded = true
is_succeeded _ = false

abbrev pub is_failed : TaskStatus → Bool
is_failed TaskStatus.failed = true
is_failed _ = false
