-- ===== src/Worker/Runtime.antt =====
-- `TaskHandlerRegistry` and `Worker.run_once`. A turn is a sequence of transactions, each on the
-- tables as the others' transactions up to that moment (`others`) have left them. A transaction that
-- raises changes nothing, and those before it stay committed, so a turn returns its outcome and the
-- tables. `asyncio` is modelled by the moments at which the handler was still busy.
use gapforge.Common.{
  ℕ, String, Bool, true, false, Option, none, some, List, [], ◌∷◌, map, Exn, value_error,
  type_error, lookup_error, permission_error, runtime_error, integrity_error, overflow_error,
  Result, ok, err, ◌>>=◌, ◌==◌, string_eq, if◌then◌else◌, any,
}
use gapforge.Common.Text.{is_blank}
use gapforge.Json.{Json, Fields, object}
use gapforge.Queue.Model.{ErrorKind, Task, Db}
use gapforge.Queue.Retry.{Digest, Raised, RetryDecision, classify_error, classify_exception}
use gapforge.Queue.Repository.{claim, renew_lease, succeed, fail}
use gapforge.Queue.Control.{Codec, admit_next, finalize_if_idle}
use gapforge.Worker.Payload.{validate_payload}

-- How a call of a handler ended: a `TaskHandlerResult`, another value, a `TaskHandlerError`, or
-- another exception with the name of its class.
pub data HandlerEnd : Type 0 where
  typed : Fields → Bool → List Json → HandlerEnd
  raw : Json → HandlerEnd
  typed_error : ErrorKind → String → HandlerEnd
  error : Raised → String → HandlerEnd

-- The moments at which the worker finds the handler still busy, and how it ends.
pub record HandlerRun : Type 0 where
  pub busy_at : List ℕ
  pub end : HandlerEnd

abbrev pub Registry : Type 0
Registry = List (String × (Task → HandlerRun))

-- The constructor's check of the task types.
unfoldable pub check_registry : Registry → Result Registry
check_registry handlers = if any (λ h. is_blank h.0) handlers then err value_error else ok handlers

abbrev pub task_types : Registry → List String
task_types handlers = map (λ h. h.0) handlers

unfoldable pub resolve : Registry → String → Result (Task → HandlerRun)
resolve [] task_type = err lookup_error
resolve (h ∷ handlers) task_type = if h.0 == task_type then ok h.1 else resolve handlers task_type

-- What the worker reports to the queue.
pub data Report : Type 0 where
  success : Fields → Bool → List Json → Report
  failure_of_kind : ErrorKind → String → Report
  failure : Raised → String → Report

-- `TaskHandlerResult.model_validate` where the handler returned no such object.
unfoldable pub report_of : (Json → ℕ) → HandlerEnd → Report
report_of encoded_size (typed payload useful warnings) = success payload useful warnings
report_of encoded_size (raw value) = elim (validate_payload encoded_size value) [
  | ok (object payload) ↦ success payload false []
  | _ ↦ failure Raised.value_error "ValidationError"
]
report_of encoded_size (typed_error kind error_class) = failure_of_kind kind error_class
report_of encoded_size (error raised class_name) = failure raised class_name

-- An exception of the queue, as the worker's `except Exception` meets it.
abbrev pub raised_by : Exn → Report
raised_by value_error = failure Raised.value_error "ValueError"
raised_by type_error = failure Raised.other_error "TypeError"
raised_by lookup_error = failure Raised.other_error "LookupError"
raised_by permission_error = failure Raised.permission_error "PermissionError"
raised_by runtime_error = failure Raised.other_error "RuntimeError"
raised_by integrity_error = failure Raised.other_error "IntegrityError"
raised_by overflow_error = failure Raised.other_error "OverflowError"

-- How the wait for the handler ended.
pub data Watched : Type 0 where
  finished abandoned : Watched
  broken : Exn → Watched

-- `id_text` is `str(task.id)`.
pub record Config : Type 0 where
  pub codec : Codec
  pub digest : Digest
  pub id_text : ℕ → String
  pub encoded_size : Json → ℕ
  pub worker_id : String
  pub lease_duration : ℕ
  pub registry : Registry
  pub others : ℕ → Db → Db

-- The locks that others hold, and the moments of the transactions of a turn.
pub record Moments : Type 0 where
  pub lock_acquired : Bool
  pub run_locked : ℕ → Bool
  pub task_locked : ℕ → Bool
  pub admitted_at : ℕ
  pub claimed_at : ℕ
  pub reported_at : ℕ

-- What a heartbeat decides. `go_on` is the rest of the loop, `db` the tables before the heartbeat.
unfoldable pub after_heartbeat : (Db → Watched × Db) → Db → Result (Option Task × Db) → Watched × Db
after_heartbeat go_on db (ok (some _, db')) = go_on db'
after_heartbeat go_on db (ok (none, db')) = (abandoned, db')
after_heartbeat go_on db (err permission_error) = (abandoned, db)
after_heartbeat go_on db (err e) = (broken e, db)

module _ (c : Config) where
  -- The loop of heartbeats.
  unfoldable pub watch : Task → List ℕ → Db → Watched × Db
  unfolding after_heartbeat
  watch t [] db = (finished, db)
  watch t (now ∷ rest) db =
      let db' = c.others now db in
      after_heartbeat (watch t rest) db' (renew_lease t.id c.worker_id c.lease_duration now db')

  unfoldable pub report_failure : Task → RetryDecision → String → ℕ → Db → Result Db
  report_failure t decision sanitized_error now db = do
    (_, db') ← fail t.id c.worker_id decision sanitized_error now db
    (_, db'') ← finalize_if_idle c.codec t.run_id now db'
    ok db''

  -- The last transaction of a turn.
  unfoldable pub report : Task → Report → ℕ → Db → Result Db
  unfolding report_failure
  report t (success payload useful warnings) now db = do
    (_, db') ← succeed t.id c.worker_id payload useful warnings now db
    (_, db'') ← finalize_if_idle c.codec t.run_id now db'
    ok db''
  report t (failure_of_kind kind error_class) now db = do
    decision ← classify_error c.digest kind t.attempt_count (c.id_text t.id)
    report_failure t decision error_class now db
  report t (failure raised class_name) now db = do
    decision ← classify_exception c.digest raised t.attempt_count (c.id_text t.id)
    report_failure t decision class_name now db

  -- A transaction that ends the turn.
  abbrev pub commit : Result Db → Db → Result Bool × Db
  commit (ok db') db = (ok true, db')
  commit (err e) db = (err e, db)

  unfoldable pub finish : Task → HandlerEnd → ℕ → Watched × Db → Result Bool × Db
  unfolding report report_of
  finish t end now (abandoned, db) = (ok true, db)
  finish t end now (finished, db) =
      let db' = c.others now db in commit (report t (report_of c.encoded_size end) now db') db'
  finish t end now (broken e, db) =
      let db' = c.others now db in commit (report t (raised_by e) now db') db'

  -- The claimed task, if there is one.
  unfoldable pub handle : Option Task → ℕ → Db → Result Bool × Db
  unfolding watch finish resolve
  handle none now db = (ok false, db)
  handle (some t) now db = elim (resolve c.registry t.task_type) [
    | err e ↦ (err e, db)
    | ok handler ↦ finish t (handler t).end now (watch t (handler t).busy_at db)
  ]

  unfoldable pub claim_and_handle : Moments → Db → Result Bool × Db
  unfolding handle
  claim_and_handle m db =
      let db' = c.others m.claimed_at db in
      elim (claim m.run_locked m.task_locked c.worker_id c.lease_duration m.claimed_at
        (some (task_types c.registry)) db') [
          | err e ↦ (err e, db')
          | ok (o, db'') ↦ handle o m.reported_at db''
        ]

  abbrev pub has_types : Registry → Bool
  has_types [] = false
  has_types (_ ∷ _) = true

  unfoldable pub run_once : Moments → Db → Result Bool × Db
  unfolding claim_and_handle
  run_once m db =
      if has_types c.registry
      then elim (admit_next c.codec m.lock_acquired m.run_locked (task_types c.registry)
          m.admitted_at db) [ err e ↦ (err e, db) | ok (_, db') ↦ claim_and_handle m db' ]
      else (ok false, db)
