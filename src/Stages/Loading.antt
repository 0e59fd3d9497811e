-- ===== src/Stages/Loading.antt =====
-- `load_stage`, `remaining_agent_calls` and `remaining_collection_budget`, which change no row.
use gapforge.Common.{ℕ, String, Option, none, some, ◌+◌, ◌-◌}
use gapforge.Common.Int.{ℤ, pos_part, neg_part}
use gapforge.Json.{Json, Fields, object, get_field}
use gapforge.Queue.Model.{Run, Db}
use gapforge.Queue.Control.{Codec, read_used}
use gapforge.Stages.Reserve.{
  StageOutcome, stage_failed, staged, stage_conflict, ◌onward◌, of_result, PipelineContext,
  locked_rows, assert_stage_lease, pipeline_part, limit_or_zero,
}

-- The payload of a stage's record; a record that is no object counts as none.
abbrev pub stage_payload : Option Json → StageOutcome (Option Fields)
stage_payload (some (object entry)) = payload_object (get_field "payload" entry)
  where
    payload_object : Option Json → StageOutcome (Option Fields)
    payload_object (some (object payload)) = staged (some payload)
    payload_object _ = stage_failed stage_conflict
stage_payload _ = staged none

unfoldable pub load_stage : PipelineContext → String → ℕ → Db → StageOutcome (Option Fields)
unfolding locked_rows assert_stage_lease pipeline_part
load_stage ctx stage now db = locked_rows ctx db onward λ (t, r).
    assert_stage_lease ctx now t r onward λ _.
    pipeline_part "stages" t.checkpoint onward λ stages. stage_payload (get_field stage stages)

-- `max(0, limit - used)`
abbrev pub left_of : ℤ → ℤ → ℕ
left_of limit used = (pos_part limit + neg_part used) - (neg_part limit + pos_part used)

unfoldable pub remaining : Codec → String → String → Run → StageOutcome ℕ
remaining codec counter limit_key r = of_result (limit_or_zero codec limit_key r) onward λ limit.
    of_result (read_used codec counter r) onward λ used. staged (left_of limit used)

unfoldable pub remaining_agent_calls : Codec → PipelineContext → ℕ → Db → StageOutcome ℕ
unfolding locked_rows assert_stage_lease remaining
remaining_agent_calls codec ctx now db = locked_rows ctx db onward λ (t, r).
    assert_stage_lease ctx now t r onward λ _.
    remaining codec "agent_calls" "max_agent_calls_per_run" r

unfoldable pub remaining_collection_budget : Codec → PipelineContext → ℕ → Db → StageOutcome (ℕ × ℕ)
unfolding locked_rows assert_stage_lease remaining
remaining_collection_budget codec ctx now db = locked_rows ctx db onward λ (t, r).
    assert_stage_lease ctx now t r onward λ _.
    remaining codec "collector_requests" "max_collector_requests_per_run" r onward λ requests.
    remaining codec "raw_signals" "max_raw_signals_per_run" r onward λ signals.
    staged (requests, signals)
