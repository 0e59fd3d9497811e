-- ===== src/Queue/Control/Admit.antt =====
-- `start`, `admit_next` and `consume_budget`.
use gapforge.Common.{
  ℕ, ◌+◌, ◌*◌, ◌-◌, String, Bool, true, false, not, ◌&&◌, ◌||◌, Option, none, some, List, [], ◌∷◌,
  lookup_error, value_error, type_error, integrity_error, Result, ok, err, ◌>>=◌, ◌>>◌, raise_if,
  ltb, leb, ◌==◌, nat_eq, string_eq, if◌then◌else◌, any, count_if, find,
}
use gapforge.Common.Int.{ℤ, pos, ◌+ℤ◌, ltb_ℤ}
use gapforge.Json.{
  Json, Fields, end, field, name, boolean, integer, floating, text, get_field, set_field,
}
use gapforge.Rows.{best}
use gapforge.Queue.Model.{RunStatus, Run, Task, Db, put_run, is_running, is_queued, is_pending}
use gapforge.Queue.Control.Finalize.{Codec, locked_run, finalize_if_idle}

-- `datetime.max`, 9999-12-31 23:59:59.999999.
abbrev pub datetime_max : ℕ
datetime_max = 3652059 * 86400000000 - 1

abbrev pub microseconds_per_minute : ℕ
microseconds_per_minute = 60000000

-- A positive integer that is no `bool`.
abbrev pub positive_int : Option Json → Result ℕ
positive_int (some (integer (pos n))) = if ltb n 1 then err value_error else ok n
positive_int _ = err value_error

-- `start_time + timedelta(minutes=raw_duration)`; both overflows are caught.
unfoldable pub deadline_after : ℕ → ℕ → Result ℕ
deadline_after now minutes =
    let deadline = now + minutes * microseconds_per_minute in
    if ltb datetime_max deadline then err value_error else ok deadline

-- The index `uq_research_runs_one_global_active`, which a flush meets.
abbrev pub count_running : List Run → ℕ
count_running rs = count_if (λ r. is_running r.status) rs

abbrev pub flush_runs : Db → Result Db
flush_runs db = if ltb 1 (count_running db.runs) then err integrity_error else ok db

abbrev pub started : ℕ → ℕ → Run → Run
started now deadline r = record r {
  status = RunStatus.running;
  started_at = some now;
  deadline_at = deadline;
}

abbrev pub too_late : ℕ → Run → Run
too_late now r = record r {
  status = RunStatus.budget_exhausted;
  last_checkpoint = field (name "reason") (text "run deadline reached before start") end;
  completed_at = some now;
}

-- The branches of `start` on the status of the run.
unfoldable pub start_run : RunStatus → ℕ → Run → Result Run
unfolding deadline_after
start_run RunStatus.queued now r = do
  minutes ← positive_int (get_field "max_run_duration_minutes" r.budget_limits)
  deadline ← deadline_after now minutes
  ok (started now deadline r)
start_run RunStatus.running now r = ok (if leb r.deadline_at now then too_late now r else r)
start_run _ now r = err value_error

unfoldable pub start : ℕ → ℕ → Db → Result (Run × Db)
unfolding locked_run start_run
start run_id now db = do
  r ← locked_run run_id db
  r' ← start_run r.status now r
  db' ← flush_runs (put_run r' db)
  ok (r', db')

-- `ResearchTask` rows that make a queued run worth starting.
abbrev pub supports : List String → ℕ → Run → Task → Bool
supports types now r t =
    t.run_id == r.id
    && is_pending t.status
    && leb t.available_at now
    && any (λ x. x == t.task_type) types

abbrev pub is_admissible : (ℕ → Bool) → List String → ℕ → List Task → Run → Bool
is_admissible run_locked types now ts r =
    is_queued r.status && any (supports types now r) ts && not (run_locked r.id)

-- ORDER BY priority, creation, id.
unfoldable pub admits_before : Run → Run → Bool
admits_before r r' =
    ltb_ℤ r.priority r'.priority
    || not (ltb_ℤ r'.priority r.priority)
      && (ltb r.created_at r'.created_at || not (ltb r'.created_at r.created_at) && ltb r.id r'.id)

unfoldable pub admissible_runs : (ℕ → Bool) → List String → ℕ → List Task → List Run → List Run
admissible_runs run_locked types now ts [] = []
admissible_runs run_locked types now ts (r ∷ rs) =
    let rest = admissible_runs run_locked types now ts rs in
    if is_admissible run_locked types now ts r then r ∷ rest else rest

unfoldable pub start_best : Option Run → ℕ → Db → Result (Option Run × Db)
unfolding start
start_best none now db = ok (none, db)
start_best (some r) now db = do (r', db') ← start r.id now db; ok (some r', db')

abbrev pub queue_head : (ℕ → Bool) → List String → ℕ → Db → Option Run
queue_head run_locked types now db =
    best admits_before (admissible_runs run_locked types now db.tasks db.runs)

-- `admit_next` once the active run is seen to.
unfoldable pub admit_candidate : (ℕ → Bool) → List String → ℕ → Db → Result (Option Run × Db)
unfolding start_best
admit_candidate run_locked types now db = start_best (queue_head run_locked types now db) now db

unfoldable pub finish_active : Codec → Run → ℕ → Db → Result (Bool × Db)
unfolding finalize_if_idle
finish_active codec active now db = do
  (r, db') ← finalize_if_idle codec active.id now db
  ok (is_running r.status, db')

-- The global lock is `lock_acquired`: while one transaction holds it, no other gets it.
unfoldable pub admit_next :
    Codec → Bool → (ℕ → Bool) → List String → ℕ → Db → Result (Option Run × Db)
unfolding finish_active admit_candidate
admit_next codec lock_acquired run_locked [] now db = ok (none, db)
admit_next codec false run_locked (x ∷ types) now db = ok (none, db)
admit_next codec true run_locked (x ∷ types) now db =
    elim (find (λ r. is_running r.status) db.runs) [
      | none ↦ admit_candidate run_locked (x ∷ types) now db
      | some active ↦ do
        (busy, db') ← finish_active codec active now db
        elim busy [ true ↦ ok (none, db') | false ↦ admit_candidate run_locked (x ∷ types) now db' ]
    ]

-- `int(value)`
abbrev pub to_int : Codec → Json → Result ℤ
to_int codec (integer n) = ok n
to_int codec (boolean b) = ok (if b then pos 1 else pos 0)
to_int codec (text s) = codec.parse_int (text s)
to_int codec (floating f) = codec.parse_int (floating f)
to_int codec _ = err type_error

abbrev pub read_limit : Codec → String → Run → Result ℤ
read_limit codec limit_key r = elim (get_field limit_key r.budget_limits) [
  | none ↦ err lookup_error
  | some v ↦ to_int codec v
]

abbrev pub read_used : Codec → String → Run → Result ℤ
read_used codec counter r = elim (get_field counter r.budget_used) [
  | none ↦ ok (pos 0)
  | some v ↦ to_int codec v
]

pub record BudgetDecision : Type 0 where
  pub allowed : Bool
  pub used : ℤ
  pub limit : ℤ

abbrev pub denied_checkpoint : Bool → String → ℤ → ℤ → Fields
denied_checkpoint late counter used limit =
    field (name "reason") (text (if late then "deadline" else "budget")) (
      field (name "counter") (text counter)
        (field (name "used") (integer used) (field (name "limit") (integer limit) end)))

abbrev pub exhausted : ℕ → String → ℤ → ℤ → Run → Run
exhausted now counter used limit r = record r {
  status = RunStatus.budget_exhausted;
  completed_at = some now;
  last_checkpoint = denied_checkpoint (leb r.deadline_at now) counter used limit;
}

-- The decision on the locked run, and the run after it.
unfoldable pub spend : Bool → String → ℤ → ℤ → ℤ → ℕ → Run → BudgetDecision × Run
spend terminalize counter amount used limit now r =
    if leb r.deadline_at now || ltb_ℤ limit (used +ℤ amount)
    then (
      record { allowed = false; used = used; limit = limit },
      if terminalize then exhausted now counter used limit r else r,
    )
    else (
      record { allowed = true; used = used +ℤ amount; limit = limit },
      record r { budget_used = set_field counter (integer (used +ℤ amount)) r.budget_used },
    )

unfoldable pub consume_budget :
    Codec → ℕ → String → String → ℤ → ℕ → Bool → Db → Result (BudgetDecision × Db)
unfolding locked_run spend
consume_budget codec run_id counter limit_key amount now terminalize db = do
  raise_if (ltb_ℤ amount (pos 1)) value_error
  r ← locked_run run_id db
  raise_if (not (is_running r.status)) value_error
  limit ← read_limit codec limit_key r
  used ← read_used codec counter r
  let (decision, r') = spend terminalize counter amount used limit now r
  ok (decision, put_run r' db)
