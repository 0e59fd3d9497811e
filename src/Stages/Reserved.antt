-- ===== src/Stages/Reserved.antt =====
-- A stage reserves its budget once, within its limits.
use gapforge.Common.{
  ℕ, ◌≡◌, refl, sym, ap, subst, ◌∙◌, inl, inr, String, Bool, true, false, some, List, [], ◌∷◌,
  arith, All, string_eq, ◌<◌, ◌+◌, Bool-cases, Option-cases, is_some,
}
use gapforge.Json.{Fields, object, get_field, set_field}
use gapforge.Json.Laws.{get_field-set_field_self}
use gapforge.Rows.{row, row-put_self, key-row}
use gapforge.Queue.Model.{Run, Task, Db, get_run, get_task, put_run, put_task, task_key, run_key}
use gapforge.Queue.Control.{Codec}
use gapforge.Stages.Reserve.{
  staged, onward-eq-staged, PipelineContext, assert_stage_lease, pipeline_part, fields_of,
  with_part, Demand, admit_budget, requested, reservation, reserve_new, locked_rows,
  reserve_demands, reserve_requested, reserve_external_budget,
}
use gapforge.Stages.Charging.{IsCharged, admit_budget-charged, charge-IsCharged, requested-Distinct}

-- What is written below `pipeline` is read back.
pipeline_part-with_part :
    (key : String) (part checkpoint : Fields)
    → pipeline_part key (with_part key part checkpoint) ≡ staged part
unfolding pipeline_part
pipeline_part-with_part key part checkpoint =
    let p = fields_of (get_field "pipeline" checkpoint) in
    rw
      (
        get_field-set_field_self "pipeline" (object (set_field key (object part) p)) checkpoint,
        get_field-set_field_self key (object part) p,
      )
      refl

pub locked_rows-staged :
    (ctx : PipelineContext) (db : Db) (t : Task) (r : Run)
    → locked_rows ctx db ≡ staged (t, r)
    → (get_task ctx.task_id db ≡ some t) × (get_run ctx.run_id db ≡ some r)
unfolding locked_rows
locked_rows-staged ctx db t r h = elim (Option-cases (get_task ctx.task_id db)) [
  | inl missing ↦ absurd (cc (rw (missing, locked_rows) at h))
  | inr (t', e) ↦ elim (Option-cases (get_run ctx.run_id db)) [
    | inl missing ↦ absurd (cc (rw (e, missing, locked_rows) at h))
    | inr (r', f) ↦
        let both = rw (e, f, locked_rows) at h in
        let same_task : t' ≡ t = ground (arith, both) in
        let same_run : r' ≡ r = ground (arith, both) in
        (e ∙ ap some same_task, f ∙ ap some same_run)
  ]
]

-- The rows of a stage that holds a reservation.
abbrev pub Holds : ℕ → String → Db → Type 0
Holds task_id stage db =
    (t : Task) × (reservations : Fields) × (get_task task_id db ≡ some t)
    × (pipeline_part "external_reservations" t.checkpoint ≡ staged reservations)
    × (is_some (get_field stage reservations) ≡ true)

reserve_new-Holds :
    (codec : Codec) (ctx : PipelineContext) (stage : String) (demands : List Demand) (now : ℕ)
    (t : Task) (r : Run) (db db' : Db) (reservations : Fields)
    → get_task ctx.task_id db ≡ some t
    → reserve_new codec ctx stage demands now t r db reservations ≡ staged (true, db')
    → Holds ctx.task_id stage db'
unfolding reserve_new
reserve_new-Holds codec ctx stage demands now t r db db' reservations found h =
    elim (Bool-cases (is_some (get_field stage reservations))) [
      | inl there ↦ absurd (cc (rw there at h))
      | inr fresh ↦
          let held = set_field stage (reservation ctx demands) reservations in
          let t' = record t { checkpoint = with_part "external_reservations" held t.checkpoint } in
          let (r', _, e) =
            onward-eq-staged (admit_budget codec now demands r) _ (true, db') (rw fresh at h) in
          let is : db' ≡ put_task t' (put_run r' db) = ground (arith, e) in
          let same = key-row task_key ctx.task_id db.tasks t found in
          let stored : get_task ctx.task_id (put_task t' (put_run r' db)) ≡ some t' =
            subst (λ i. row task_key i (put_task t' (put_run r' db)).tasks ≡ some t') same
              (row-put_self task_key t' db.tasks t
                (subst (λ i. row task_key i db.tasks ≡ some t) (sym same) found)) in
          (
            t',
            held,
            rw is stored,
            pipeline_part-with_part "external_reservations" held t.checkpoint,
            ap is_some (get_field-set_field_self stage (reservation ctx demands) reservations),
          )
    ]

-- How a reservation comes about: from the locked rows, with the lease, from what was reserved before.
reserve_demands-steps :
    (codec : Codec) (ctx : PipelineContext) (stage : String) (demands : List Demand) (now later : ℕ)
    (db db' : Db) (b : Bool)
    → reserve_demands codec ctx stage demands now later db ≡ staged (b, db')
    → (t : Task) × (r : Run) × (reservations : Fields) × (get_task ctx.task_id db ≡ some t)
      × (get_run ctx.run_id db ≡ some r)
      × (pipeline_part "external_reservations" t.checkpoint ≡ staged reservations)
      × (reserve_new codec ctx stage demands later t r db reservations ≡ staged (b, db'))
unfolding reserve_demands
reserve_demands-steps codec ctx stage demands now later db db' b h =
    let ((t, r), locked, h₁) = onward-eq-staged (locked_rows ctx db) _ (b, db') h in
    let (_, _, h₂) = onward-eq-staged (assert_stage_lease ctx now t r) _ (b, db') h₁ in
    let (reservations, part, h₃) =
      onward-eq-staged (pipeline_part "external_reservations" t.checkpoint) _ (b, db') h₂ in
    let (task, run) = locked_rows-staged ctx db t r locked in
    (t, r, reservations, task, run, part, h₃)

reserve_new-held :
    (codec : Codec) (ctx : PipelineContext) (stage : String) (demands : List Demand) (now : ℕ)
    (t : Task) (r : Run) (db db' : Db) (reservations : Fields) (b : Bool)
    → is_some (get_field stage reservations) ≡ true
    → reserve_new codec ctx stage demands now t r db reservations ≡ staged (b, db')
    → (b ≡ false) × (db' ≡ db)
unfolding reserve_new
reserve_new-held codec ctx stage demands now t r db db' reservations b held h =
    let e = rw held at h in (ground (arith, e), ground (arith, e))

reserve_new-admitted :
    (codec : Codec) (ctx : PipelineContext) (stage : String) (demands : List Demand) (now : ℕ)
    (t : Task) (r : Run) (db db' : Db) (reservations : Fields)
    → reserve_new codec ctx stage demands now t r db reservations ≡ staged (true, db')
    → (r' : Run) × (admit_budget codec now demands r ≡ staged r')
      × (db'.runs ≡ (put_run r' db).runs)
unfolding reserve_new
reserve_new-admitted codec ctx stage demands now t r db db' reservations h =
    elim (Bool-cases (is_some (get_field stage reservations))) [
      | inl there ↦ absurd (cc (rw there at h))
      | inr fresh ↦
          let (r', admitted, e) =
            onward-eq-staged (admit_budget codec now demands r) _ (true, db') (rw fresh at h) in
          (r', admitted, ground (arith, e))
    ]

requested-cons :
    (m n : ℕ) → 0 < m + n → (x : Demand) × (xs : List Demand) × (requested m n ≡ x ∷ xs)
requested-cons m n h =
    elim (requested m n)
        as (λ l. requested m n ≡ l → (x : Demand) × (xs : List Demand) × (requested m n ≡ x ∷ xs)) [
          | [] ↦ λ e. absurd (ground (arith, e, h))
          | x ∷ xs ↦ λ e. (x, xs, e)
        ]
      refl

reserve_external_budget-asked :
    (codec : Codec) (ctx : PipelineContext) (stage : String) (m n now later : ℕ) (db : Db)
    → 0 < m + n
    → reserve_external_budget codec ctx stage m n now later db
      ≡ reserve_demands codec ctx stage (requested m n) now later db
unfolding reserve_external_budget reserve_requested
reserve_external_budget-asked codec ctx stage m n now later db h =
    let (x, xs, e) = requested-cons m n h in
    subst
      (λ l.
        reserve_requested codec ctx stage l now later db
        ≡ reserve_demands codec ctx stage l now later db)
      (sym e) refl

-- Once a stage of a task has reserved a budget that is not empty, no reservation for it, by whoever
-- and of whatever amounts, charges the run or changes a row in any tables where the task still has
-- the checkpoint that the reservation left.
pub reserved_once :
    (codec codec' : Codec) (ctx ctx' : PipelineContext) (stage : String)
    (m n m' n' now later now' later' : ℕ) (db db' mid db'' : Db) (b : Bool) (t₁ t₂ : Task)
    → 0 < m + n
    → 0 < m' + n'
    → reserve_external_budget codec ctx stage m n now later db ≡ staged (true, db')
    → get_task ctx.task_id db' ≡ some t₁
    → get_task ctx'.task_id mid ≡ some t₂
    → t₂.checkpoint ≡ t₁.checkpoint
    → reserve_external_budget codec' ctx' stage m' n' now' later' mid ≡ staged (b, db'')
    → (b ≡ false) × (db'' ≡ mid)
reserved_once codec codec' ctx ctx' stage m n m' n' now later now' later' db db' mid db'' b t₁ t₂
      asked asked' h left right same h' =
    let first = sym (reserve_external_budget-asked codec ctx stage m n now later db asked) ∙ h in
    let second =
      sym (reserve_external_budget-asked codec' ctx' stage m' n' now' later' mid asked') ∙ h' in
    let (t, r, reservations, task, _, _, made) =
      reserve_demands-steps codec ctx stage (requested m n) now later db db' true first in
    let (u, held, found, part, there) =
      reserve_new-Holds codec ctx stage (requested m n) later t r db db' reservations task made in
    let (u', r', held', found', _, part', again) =
      reserve_demands-steps codec' ctx' stage (requested m' n') now' later' mid db'' b second in
    let is_first : t₁ ≡ u = ground (arith, left, found) in
    let is_second : t₂ ≡ u' = ground (arith, right, found') in
    let same_checkpoint : u'.checkpoint ≡ u.checkpoint =
      ap (λ (x : Task). x.checkpoint) (sym is_second)
      ∙ same
      ∙ ap (λ (x : Task). x.checkpoint) is_first in
    let part_again =
      subst (λ x. pipeline_part "external_reservations" x ≡ staged held') same_checkpoint part' in
    let is_held : held' ≡ held = ground (arith, part, part_again) in
    reserve_new-held codec' ctx' stage (requested m' n') later' u' r' mid db'' held' b
      (subst (λ x. is_some (get_field stage x) ≡ true) (sym is_held) there) again

-- A reservation that is granted was made before the run's deadline, and raises each counter that it
-- asks for by the amount, to no more than its limit.
pub reserved_within_limits :
    (codec : Codec) (ctx : PipelineContext) (stage : String) (m n now later : ℕ) (db db' : Db)
    → 0 < m + n
    → reserve_external_budget codec ctx stage m n now later db ≡ staged (true, db')
    → (r : Run) × (r' : Run) × (get_run ctx.run_id db ≡ some r)
      × (get_run ctx.run_id db' ≡ some r')
      × (later < r.deadline_at)
      × All (IsCharged codec r r'.budget_used) (requested m n)
reserved_within_limits codec ctx stage m n now later db db' asked h =
    let first = sym (reserve_external_budget-asked codec ctx stage m n now later db asked) ∙ h in
    let (t, r, reservations, _, run, _, made) =
      reserve_demands-steps codec ctx stage (requested m n) now later db db' true first in
    let (r', admitted, stored) =
      reserve_new-admitted codec ctx stage (requested m n) later t r db db' reservations made in
    let (early, same_id, charged) =
      admit_budget-charged codec later (requested m n) r r' admitted in
    let same = same_id ∙ key-row run_key ctx.run_id db.runs r run in
    let found : get_run r'.id (put_run r' db) ≡ some r' =
      row-put_self run_key r' db.runs r
        (subst (λ i. row run_key i db.runs ≡ some r) (sym same) run) in
    (
      r,
      r',
      run,
      ap (row run_key ctx.run_id) stored
          ∙ subst (λ i. row run_key i (put_run r' db).runs ≡ some r') same found,
      early,
      charge-IsCharged codec r (requested m n) r.budget_used r'.budget_used (requested-Distinct m n)
          charged,
    )
