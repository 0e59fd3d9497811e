-- ===== src/Worker/Examples.antt =====
-- A worker with one handler, and the theorems on it.
use gapforge.Common.{
  ◌≤◌, ◌≡◌, ◌↔◌, refl, leb, if◌then◌else◌, true, false, none, some, [], ◌∷◌, ok, err, value_error,
}
use gapforge.Common.Int.{pos}
use gapforge.Json.{Fields, end, field, name, integer, object}
use gapforge.Queue.Model.{RunStatus, TaskStatus, Run, Task, Db}
use gapforge.Queue.Repository.{
  new_task, leased_to, claim, expire_overdue_runs, expire_run, candidates, is_claimable,
  claims_before, lease_row,
}
use gapforge.Queue.Control.{Codec}
use gapforge.Worker.Payload.{max_result_keys, max_result_bytes, validate_payload}
use gapforge.Worker.Accepting.{Fits, total_keys, validate_payload_accepts}
use gapforge.Worker.Runtime.{HandlerEnd, HandlerRun, Config, Moments, resolve}
use gapforge.Worker.Turns.{claimed_resolves}

abbrev small : Fields
small = field (name "items") (integer (pos 4)) end

validate_payload_accepts_example :
    (validate_payload (λ _. 11) (object small) ≡ ok (object small)) ↔ (
      (object small ≡ object small)
      × Fits 0 (object small)
      × (total_keys (object small) ≤ max_result_keys)
      × (11 ≤ max_result_bytes))
validate_payload_accepts_example = validate_payload_accepts (λ _. 11) small (object small)

abbrev collector : Task → HandlerRun
collector t = record { busy_at = 130 ∷ 160 ∷ []; end = HandlerEnd.raw (object small) }

abbrev codec : Codec
codec = record { parse_warning = λ w. ok w; dumps = λ _. ""; parse_int = λ _. err value_error }

abbrev config : Config
config = record {
  codec = codec;
  digest = λ _ _. 1000;
  id_text = λ _. "7";
  encoded_size = λ _. 11;
  worker_id = "w1";
  lease_duration = 100;
  registry = ("collect", collector) ∷ [];
  others = λ _ db. db;
}

abbrev moments : Moments
moments = record {
  lock_acquired = true;
  run_locked = λ _. false;
  task_locked = λ _. false;
  admitted_at = 90;
  claimed_at = 100;
  reported_at = 180;
}

abbrev active : Run
active = record {
  id = 1;
  status = RunStatus.running;
  priority = pos 1;
  created_at = 10;
  deadline_at = 1000;
  started_at = none;
  completed_at = none;
  budget_limits = end;
  budget_used = end;
  warnings = [];
  last_checkpoint = end;
}

abbrev ready : Task
ready = new_task 7 1 "collect" "collect:1" end (pos 3) 3 20 10

abbrev db : Db
db = record { runs = active ∷ []; tasks = ready ∷ []; leases = [] }

abbrev claimed_db : Db
claimed_db = record db { tasks = leased_to "w1" 200 ready ∷ [] }

claimed :
    claim (λ _. false) (λ _. false) "w1" 100 100 (some ("collect" ∷ [])) db
    ≡ ok (some (leased_to "w1" 200 ready), claimed_db)
unfolding claim expire_overdue_runs expire_run candidates is_claimable claims_before lease_row
claimed = refl

claimed_resolves_example :
    (handler : Task → HandlerRun) × (resolve (("collect", collector) ∷ []) "collect" ≡ ok handler)
claimed_resolves_example =
    claimed_resolves config moments db claimed_db (leased_to "w1" 200 ready) claimed

-- A worker that renews its lease once, and then finds the task finished by another.
abbrev mine : Task
mine = leased_to "w1" 200 ready

abbrev renewed_db : Db
renewed_db = record db { tasks = record mine { lease_expires_at = some 230 } ∷ [] }

abbrev stolen : Task
stolen = record mine {
  status = TaskStatus.succeeded;
  lease_owner = none;
  lease_expires_at = none;
  attempt_count = 2;
  completed_at = some 145;
}

abbrev stolen_db : Db
stolen_db = record db { tasks = stolen ∷ [] }

abbrev robbed : Config
robbed = record config { others = λ now before. if leb 150 now then stolen_db else before }
