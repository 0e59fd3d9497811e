-- ===== src/Stages/Reserve.antt =====
-- `reserve_external_budget`, `_admit_budget`, `load_stage`, `remaining_agent_calls` and
-- `remaining_collection_budget`. A transaction that fails changes nothing.
use gapforge.Common.{
  ℕ, ◌≡◌, refl, String, Bool, true, false, not, ◌||◌, Option, none, some, List, [], ◌∷◌, Exn,
  lookup_error, permission_error, Result, ok, err, leb, ltb, nat_beq, ◌==◌, nat_eq, string_eq,
  if◌then◌else◌, is_some,
}
use gapforge.Common.Int.{ℤ, pos, ◌+ℤ◌, ltb_ℤ}
use gapforge.Json.{Json, Fields, object, integer, text, end, field, name, get_field, set_field}
use gapforge.Queue.Model.{
  Run, Task, Db, get_run, get_task, put_run, put_task, is_leased, is_running,
}
use gapforge.Queue.Repository.{owned_by}
use gapforge.Queue.Control.{Codec, to_int, read_used}

-- `StageConflictError`, `CollectionBudgetExhaustedError`, or another exception.
pub data StageFailure : Type 0 where
  stage_conflict collection_exhausted : StageFailure
  stage_raised : Exn → StageFailure

pub data StageOutcome {ℓ} (A : Type ℓ) : Type ℓ where
  stage_failed : StageFailure → StageOutcome A
  staged : A → StageOutcome A

infixl 5 ◌onward◌
abbrev pub ◌onward◌ {ℓ κ} :
    {A : Type ℓ} {B : Type κ} → StageOutcome A → (A → StageOutcome B) → StageOutcome B
(stage_failed e) onward next = stage_failed e
(staged value) onward next = next value

-- A chain that succeeds has succeeded at each link.
pub onward-eq-staged {ℓ κ} :
    {A : Type ℓ} {B : Type κ} (first : StageOutcome A) (next : A → StageOutcome B) (final : B)
    → (first onward next) ≡ staged final
    → (value : A) × (first ≡ staged value) × (next value ≡ staged final)
onward-eq-staged (stage_failed e) next final h = absurd (cc)
onward-eq-staged (staged value) next final h = (value, refl, h)

abbrev pub of_result {ℓ} : {A : Type ℓ} → Result A → StageOutcome A
of_result (err e) = stage_failed (stage_raised e)
of_result (ok a) = staged a

-- The part of `PipelineContext` that the transactions read.
pub record PipelineContext : Type 0 where
  pub run_id : ℕ
  pub task_id : ℕ
  pub task_attempt : ℕ
  pub worker_id : String

abbrev pub expires_after : ℕ → Option ℕ → Bool
expires_after now none = false
expires_after now (some until) = ltb now until

-- `_assert_stage_lease`
unfoldable pub assert_stage_lease : PipelineContext → ℕ → Task → Run → StageOutcome (Unit {0})
assert_stage_lease ctx now t r =
    if not (is_leased t.status)
      || (not (owned_by ctx.worker_id t.lease_owner)
          || (not (t.attempt_count == ctx.task_attempt)
              || not (expires_after now t.lease_expires_at)))
    then stage_failed (stage_raised permission_error)
    else if not (is_running r.status) || leb r.deadline_at now
    then stage_failed (stage_raised permission_error)
    else staged tt

-- A dict of a checkpoint, empty where there is none.
abbrev pub as_object : Option Json → StageOutcome Fields
as_object none = staged end
as_object (some (object fs)) = staged fs
as_object (some _) = stage_failed stage_conflict

-- `_pipeline_stages` and `_pipeline_reservations`
unfoldable pub pipeline_part : String → Fields → StageOutcome Fields
pipeline_part key checkpoint =
    as_object (get_field "pipeline" checkpoint) onward λ p. as_object (get_field key p)

abbrev pub fields_of : Option Json → Fields
fields_of (some (object fs)) = fs
fields_of _ = end

-- `{**task.checkpoint, "pipeline": {**pipeline, key: part}}`, for a checkpoint that was read.
abbrev pub with_part : String → Fields → Fields → Fields
with_part key part checkpoint =
    set_field "pipeline"
      (object (set_field key (object part) (fields_of (get_field "pipeline" checkpoint))))
      checkpoint

-- A counter, what is asked of it, and the key of its limit.
pub record Demand : Type 0 where
  pub counter : String
  pub amount : ℕ
  pub limit_key : String

-- `int(run.budget_limits.get(key, 0))`
abbrev pub limit_or_zero : Codec → String → Run → Result ℤ
limit_or_zero codec key r = elim (get_field key r.budget_limits) [
  | none ↦ ok (pos 0)
  | some v ↦ to_int codec v
]

-- Whether a demand would pass its limit, and what its counter shows with it.
unfoldable pub demanded : Codec → Run → Demand → StageOutcome (Bool × ℤ)
demanded codec r x = of_result (read_used codec x.counter r) onward λ used.
    of_result (limit_or_zero codec x.limit_key r) onward λ limit.
    staged (ltb_ℤ limit (used +ℤ pos x.amount), used +ℤ pos x.amount)

-- The demands in turn: whether one of them passes its limit, and the counters with them.
unfoldable pub charge : Codec → Run → List Demand → Fields → StageOutcome (Bool × Fields)
unfolding demanded
charge codec r [] used = staged (false, used)
charge codec r (x ∷ xs) used = demanded codec r x onward λ (over, sum).
    charge codec r xs (set_field x.counter (integer sum) used) onward λ (others, final).
    staged (over || others, final)

-- `_admit_budget`, for the locked run and demands that are not zero.
unfoldable pub admit_budget : Codec → ℕ → List Demand → Run → StageOutcome Run
unfolding charge
admit_budget codec now demands r = charge codec r demands r.budget_used onward λ (exhausted, used).
    if leb r.deadline_at now || exhausted
    then stage_failed collection_exhausted
    else staged (record r { budget_used = used })

abbrev pub with_demand : Demand → List Demand → List Demand
with_demand x xs = if nat_beq x.amount 0 then xs else x ∷ xs

-- `requested`
abbrev pub requested : ℕ → ℕ → List Demand
requested collector_requests search_calls =
    with_demand
      (record {
        counter = "collector_requests";
        amount = collector_requests;
        limit_key = "max_collector_requests_per_run";
      })
      (with_demand
        (record {
          counter = "search_calls";
          amount = search_calls;
          limit_key = "max_search_calls_per_run";
        })
        [])

abbrev pub amounts : List Demand → Fields
amounts [] = end
amounts (x ∷ xs) = field (name x.counter) (integer (pos x.amount)) (amounts xs)

abbrev pub reservation : PipelineContext → List Demand → Json
reservation ctx demands = object (
    field (name "reserved") (object (amounts demands)) (
      field (name "task_attempt") (integer (pos ctx.task_attempt))
        (field (name "worker_id") (text ctx.worker_id) end)))

-- The part of `reserve_external_budget` with the reservations that were read.
unfoldable pub reserve_new :
    Codec
    → PipelineContext
    → String
    → List Demand
    → ℕ
    → Task
    → Run
    → Db
    → Fields
    → StageOutcome (Bool × Db)
unfolding admit_budget
reserve_new codec ctx stage demands now t r db reservations =
    if is_some (get_field stage reservations)
    then staged (false, db)
    else (admit_budget codec now demands r onward λ r'. staged (
      true,
      put_task
          (record t {
            checkpoint =
                with_part "external_reservations"
                  (set_field stage (reservation ctx demands) reservations) t.checkpoint;
          })
          (put_run r' db),
    ))

-- A task and its run, both locked.
unfoldable pub locked_rows : PipelineContext → Db → StageOutcome (Task × Run)
locked_rows ctx db = elim (get_task ctx.task_id db) [
  | none ↦ stage_failed (stage_raised lookup_error)
  | some t ↦ elim (get_run ctx.run_id db) [
    | none ↦ stage_failed (stage_raised lookup_error)
    | some r ↦ staged (t, r)
  ]
]

unfoldable pub reserve_demands :
    Codec → PipelineContext → String → List Demand → ℕ → ℕ → Db → StageOutcome (Bool × Db)
unfolding locked_rows assert_stage_lease pipeline_part reserve_new
reserve_demands codec ctx stage demands now later db = locked_rows ctx db onward λ (t, r).
    assert_stage_lease ctx now t r onward λ _.
    pipeline_part "external_reservations" t.checkpoint onward λ reservations.
    reserve_new codec ctx stage demands later t r db reservations

unfoldable pub reserve_requested :
    Codec → PipelineContext → String → List Demand → ℕ → ℕ → Db → StageOutcome (Bool × Db)
unfolding reserve_demands
reserve_requested codec ctx stage [] now later db = staged (true, db)
reserve_requested codec ctx stage (x ∷ xs) now later db =
    reserve_demands codec ctx stage (x ∷ xs) now later db

-- `reserve_external_budget`; `now` and `later` are the two readings of the clock.
unfoldable pub reserve_external_budget :
    Codec → PipelineContext → String → ℕ → ℕ → ℕ → ℕ → Db → StageOutcome (Bool × Db)
unfolding reserve_requested
reserve_external_budget codec ctx stage collector_requests search_calls now later db =
    reserve_requested codec ctx stage (requested collector_requests search_calls) now later db
