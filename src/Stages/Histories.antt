-- ===== src/Stages/Histories.antt =====
-- A reservation is a history of the queue's rows.
use gapforge.Common.{
  ℕ, ◌≡◌, inl, inr, refl, sym, subst, String, Bool, List, some, arith, Bool-cases, is_some,
}
use gapforge.Json.{get_field, set_field}
use gapforge.Queue.Model.{Run, Task, Db, put_run, put_task}
use gapforge.Queue.Control.{Codec}
use gapforge.Queue.Steps.{Reach, here, next, stages}
use gapforge.Stages.Reserve.{
  staged, onward-eq-staged, PipelineContext, assert_stage_lease, pipeline_part, with_part, Demand,
  charge, admit_budget, reservation, reserve_new, locked_rows, reserve_demands,
}
use gapforge.Stages.Commit.{StageWrite, write_stage, commit_rows}

-- The run keeps every column but what it has used.
admit_budget-used :
    (codec : Codec) (now : ℕ) (demands : List Demand) (r r' : Run)
    → admit_budget codec now demands r ≡ staged r'
    → r' ≡ record r { budget_used = r'.budget_used }
unfolding admit_budget
admit_budget-used codec now demands r r' h =
    let (x, _, e) = onward-eq-staged (charge codec r demands r.budget_used) _ r' h in
    ground (arith, e)

committed :
    (ctx : PipelineContext) (now : ℕ) (db : Db) (t : Task) (r : Run) (u : Unit {0}) (w : StageWrite)
    → locked_rows ctx db ≡ staged (t, r)
    → assert_stage_lease ctx now t r ≡ staged u
    → commit_rows ctx now (λ _ _. staged (some w)) db ≡ staged (write_stage t r db (some w))
unfolding commit_rows
committed ctx now db t r u w locked leased = rw (locked, leased) refl

-- What a reservation commits is a step of the queue's rows, or nothing.
pub reserve_demands-Reach :
    (codec : Codec) (ctx : PipelineContext) (stage : String) (demands : List Demand) (now later : ℕ)
    (db db' : Db) (b : Bool)
    → reserve_demands codec ctx stage demands now later db ≡ staged (b, db')
    → Reach db db'
unfolding reserve_demands reserve_new
reserve_demands-Reach codec ctx stage demands now later db db' b h =
    let ((t, r), locked, h₁) = onward-eq-staged (locked_rows ctx db) _ (b, db') h in
    let (u, leased, h₂) = onward-eq-staged (assert_stage_lease ctx now t r) _ (b, db') h₁ in
    let (reservations, _, h₃) =
      onward-eq-staged (pipeline_part "external_reservations" t.checkpoint) _ (b, db') h₂ in
    elim (Bool-cases (is_some (get_field stage reservations))) [
      | inl there ↦ let is : db ≡ db' = ground (arith, rw there at h₃) in subst (Reach db) is here
      | inr fresh ↦
          let (r', admitted, e) =
            onward-eq-staged (admit_budget codec later demands r) _ (b, db') (rw fresh at h₃) in
          let w : StageWrite = record {
            checkpoint =
                with_part "external_reservations"
                  (set_field stage (reservation ctx demands) reservations) t.checkpoint;
            budget_used = r'.budget_used;
            last_checkpoint = r.last_checkpoint;
          } in
          let used = admit_budget-used codec later demands r r' admitted in
          let is : put_task (record t { checkpoint = w.checkpoint }) (put_run r' db) ≡ db' =
            ground (arith, e) in
          subst (Reach db) is (
            subst (λ x. Reach db (put_task (record t { checkpoint = w.checkpoint }) (put_run x db)))
              (sym used)
              (next here (
                stages ctx now (λ _ _. staged (some w))
                  (committed ctx now db t r u w locked leased))))
    ]
