-- ===== src/Stages/Examples.antt =====
-- A run that may send ten requests, and a stage that reserves four of them.
use gapforge.Common.{◌<◌, ◌≡◌, refl, Bool, true, false, none, some, [], ◌∷◌, ok, arith, All}
use gapforge.Common.Int.{pos, ◌+ℤ◌}
use gapforge.Json.{Fields, end, field, name, integer, object, get_field, set_field}
use gapforge.Queue.Model.{RunStatus, Run, Task, Db, get_run}
use gapforge.Queue.Repository.{new_task, leased_to}
use gapforge.Queue.Control.{Codec}
use gapforge.Stages.Reserve.{
  staged, PipelineContext, reservation, requested, reserve_external_budget, reserve_requested,
  reserve_demands, reserve_new, admit_budget, charge, demanded, pipeline_part, assert_stage_lease,
  locked_rows,
}
use gapforge.Stages.Charging.{IsCharged}
use gapforge.Stages.Reserved.{reserved_once, reserved_within_limits}

abbrev plain : Codec
plain = record { parse_warning = λ w. ok w; dumps = λ _. ""; parse_int = λ _. ok (pos 0) }

abbrev context : PipelineContext
context = record { run_id = 1; task_id = 7; task_attempt = 1; worker_id = "w1" }

abbrev a_run : Fields → Run
a_run used = record {
  id = 1;
  status = RunStatus.running;
  priority = pos 1;
  created_at = 10;
  deadline_at = 1000;
  started_at = none;
  completed_at = none;
  budget_limits = field (name "max_collector_requests_per_run") (integer (pos 10)) end;
  budget_used = used;
  warnings = [];
  last_checkpoint = end;
}

abbrev a_task : Fields → Task
a_task checkpoint =
    record (leased_to "w1" 200 (new_task 7 1 "research" "research:1" end (pos 3) 3 20 10)) {
      checkpoint = checkpoint;
    }

abbrev before : Db
before = record { runs = a_run end ∷ []; tasks = a_task end ∷ []; leases = [] }

abbrev reservations : Fields
reservations = field (name "COLLECT") (reservation context (requested 4 0)) end

abbrev held_again : Task
held_again = a_task (
    field (name "pipeline")
      (object (field (name "external_reservations") (object reservations) end)) end)

abbrev after : Db
after = record {
  runs = a_run (field (name "collector_requests") (integer (pos 4)) end) ∷ [];
  tasks = held_again ∷ [];
  leases = [];
}

-- The same task under a longer lease.
abbrev renewed_task : Task
renewed_task = record held_again { lease_expires_at = some 400 }

abbrev renewed : Db
renewed = record after { tasks = renewed_task ∷ [] }

reserves : reserve_external_budget plain context "COLLECT" 4 0 100 100 before ≡ staged (true, after)
unfolding reserve_external_budget reserve_requested reserve_demands reserve_new admit_budget charge
    demanded pipeline_part assert_stage_lease locked_rows get_field set_field ◌+ℤ◌
reserves = refl

repeats :
    reserve_external_budget plain context "COLLECT" 3 1 120 120 renewed ≡ staged (false, renewed)
unfolding reserve_external_budget reserve_requested reserve_demands reserve_new admit_budget charge
    demanded pipeline_part assert_stage_lease locked_rows get_field set_field ◌+ℤ◌
repeats = refl

reserved_once_example : (◌≡◌ {A = Bool} false false) × (renewed ≡ renewed)
reserved_once_example =
    reserved_once plain plain context context "COLLECT" 4 0 3 1 100 100 120 120 before after renewed
      renewed false held_again renewed_task (omega arith) (omega arith) reserves refl refl refl
      repeats

reserved_within_limits_example :
    (r : Run) × (r' : Run) × (get_run 1 before ≡ some r)
    × (get_run 1 after ≡ some r')
    × (100 < r.deadline_at)
    × All (IsCharged plain r r'.budget_used) (requested 4 0)
reserved_within_limits_example =
    reserved_within_limits plain context "COLLECT" 4 0 100 100 before after (omega arith) reserves
