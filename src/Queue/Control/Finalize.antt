-- ===== src/Queue/Control/Finalize.antt =====
-- `finalize_if_idle`: how a run ends once none of its tasks is pending or leased.
use gapforge.Common.{
  ℕ, String, Bool, true, false, ◌&&◌, ◌||◌, Option, none, some, List, [], ◌∷◌, ◌++◌, lookup_error,
  Result, ok, err, ◌>>=◌, ltb, ◌==◌, nat_eq, string_eq, if◌then◌else◌, count_if, any, select,
  length, map,
}
use gapforge.Common.Int.{ℤ, pos}
use gapforge.Json.{
  Json, Items, nil, cons, Fields, end, field, name, object, array, boolean, integer, text,
  get_field, set_field,
}
use gapforge.Queue.Model.{
  RunStatus, ErrorKind, Run, Task, Db, get_run, put_run, is_running, is_pending, is_leased,
  is_succeeded, is_failed,
}
use gapforge.Queue.Repository.{to_items}

-- Third-party and float code that run control calls: `RunWarning.model_validate(...).model_dump()`,
-- `json.dumps(..., sort_keys=True)`, and `int()` of a text or a float.
pub record Codec : Type 0 where
  pub parse_warning : Json → Result Json
  pub dumps : Json → String
  pub parse_int : Json → Result ℤ

-- `_locked_run`
unfoldable pub locked_run : ℕ → Db → Result Run
locked_run run_id db = elim (get_run run_id db) [ none ↦ err lookup_error | some r ↦ ok r ]

abbrev pub run_tasks : ℕ → List Task → List Task
run_tasks run_id ts = select (λ t. t.run_id == run_id) ts

abbrev pub is_true : Option Json → Bool
is_true (some (boolean b)) = b
is_true _ = false

-- `checkpoint["runtime"]` where it is a dict.
abbrev pub runtime_dict : Task → Option Fields
runtime_dict t = elim (get_field "runtime" t.checkpoint) [ some (object fs) ↦ some fs | _ ↦ none ]

abbrev pub is_useful : Task → Bool
is_useful t =
    is_succeeded t.status
    && elim (runtime_dict t) [ none ↦ false | some fs ↦ is_true (get_field "useful_artifact" fs) ]

abbrev pub from_items : Items → List Json
from_items nil = []
from_items (cons x xs) = x ∷ from_items xs

-- The warnings that a task recorded: none where there is no list.
abbrev pub warnings_in : Option Fields → List Json
warnings_in none = []
warnings_in (some fs) = elim (get_field "warnings" fs) [ some (array xs) ↦ from_items xs | _ ↦ [] ]

abbrev pub raw_warnings : Task → List Json
raw_warnings t = if is_succeeded t.status then warnings_in (runtime_dict t) else []

module _ (codec : Codec) where
  -- The inner loop: each warning is validated, and kept if its identity is new. `seen` holds the
  -- identities and the warnings, newest last.
  unfoldable pub collect_warnings : List String → List Json → Result (List String × List Json)
  collect_warnings seen [] = ok (seen, [])
  collect_warnings seen (raw ∷ rest) = do
    warning ← codec.parse_warning raw
    let identity = codec.dumps warning
    let repeated = any (λ s. s == identity) seen
    (seen', kept) ← collect_warnings (if repeated then seen else seen ++ identity ∷ []) rest
    ok (seen', if repeated then kept else warning ∷ kept)

  unfoldable pub success_warnings : List String → List Task → Result (List Json)
  unfolding collect_warnings
  success_warnings seen [] = ok []
  success_warnings seen (t ∷ ts) = do
    (seen', kept) ← collect_warnings seen (raw_warnings t)
    rest ← success_warnings seen' ts
    ok (kept ++ rest)

-- `ErrorKind` members are texts.
abbrev pub kind_text : ErrorKind → String
kind_text ErrorKind.auth_required = "AUTH_REQUIRED"
kind_text ErrorKind.budget_exhausted = "BUDGET_EXHAUSTED"
kind_text ErrorKind.deadline_exceeded = "DEADLINE_EXCEEDED"
kind_text ErrorKind.integrity = "INTEGRITY"
kind_text ErrorKind.invalid_output = "INVALID_OUTPUT"
kind_text ErrorKind.rate_limited = "RATE_LIMITED"
kind_text ErrorKind.timeout = "TIMEOUT"
kind_text ErrorKind.transient_network = "TRANSIENT_NETWORK"
kind_text ErrorKind.source_unavailable = "SOURCE_UNAVAILABLE"
kind_text ErrorKind.permanent = "PERMANENT"

abbrev pub has_class : ErrorKind → Task → Bool
has_class k t =
    is_failed t.status
    && elim t.retry_class [ none ↦ false | some k' ↦ kind_text k == kind_text k' ]

-- The ten members in the order of their texts: `sorted` of a set of them keeps this order.
abbrev pub sorted_kinds : List ErrorKind
sorted_kinds =
    ErrorKind.auth_required ∷ ErrorKind.budget_exhausted ∷ ErrorKind.deadline_exceeded
    ∷ ErrorKind.integrity ∷ ErrorKind.invalid_output ∷ ErrorKind.permanent ∷ ErrorKind.rate_limited
    ∷ ErrorKind.source_unavailable ∷ ErrorKind.timeout ∷ ErrorKind.transient_network ∷ []

abbrev pub failure_classes : List Task → List ErrorKind
failure_classes ts = select (λ k. any (has_class k) ts) sorted_kinds

abbrev pub classes_json : List Task → Json
classes_json ts = array (to_items (map (λ k. text (kind_text k)) (failure_classes ts)))

abbrev pub number : ℕ → Json
number n = integer (pos n)

-- What decides the outcome of a run with no open task.
pub record Tally : Type 0 where
  pub failed : ℕ
  pub succeeded : ℕ
  pub useful : ℕ
  pub auth : Bool
  pub budget : Bool
  pub warned : ℕ

abbrev pub tally : List Task → List Json → Tally
tally ts warnings = record {
  failed = count_if (λ t. is_failed t.status) ts;
  succeeded = count_if (λ t. is_succeeded t.status) ts;
  useful = count_if is_useful ts;
  auth = any (has_class ErrorKind.auth_required) ts;
  budget =
      any (has_class ErrorKind.budget_exhausted) ts
      || any (has_class ErrorKind.deadline_exceeded) ts;
  warned = length warnings;
}

-- The six ways in which the ladder of `finalize_if_idle` ends a run.
pub data Outcome : Type 0 where
  auth_required budget_exhausted partial_failure warned no_useful_artifact : Outcome
  all_failed completed : Outcome

unfoldable pub decide_outcome : Tally → Outcome
decide_outcome c =
    if c.auth
    then auth_required
    else if c.budget
    then budget_exhausted
    else if ltb 0 c.failed && ltb 0 c.useful
    then partial_failure
    else if ltb 0 c.warned && ltb 0 c.useful
    then warned
    else if ltb 0 c.warned
    then no_useful_artifact
    else if ltb 0 c.failed || c.succeeded == 0
    then all_failed
    else completed

abbrev pub reason : String → Fields → Fields
reason why c = set_field "reason" (text why) c

abbrev pub partial_warning : Tally → List Task → Json
partial_warning c ts = object (
    field (name "code") (text "PARTIAL_TASK_FAILURE") (
      field (name "details")
        (object (
          field (name "failed_tasks") (number c.failed) (
            field (name "failure_classes") (classes_json ts)
              (field (name "useful_successes") (number c.useful) end))))
        end))

-- The run as the ladder leaves it, `completed_at` included.
unfoldable pub settle : Outcome → Tally → List Task → List Json → ℕ → Run → Run
settle auth_required c ts ws now r = record r {
  status = RunStatus.auth_required;
  last_checkpoint =
      set_field "failed_tasks" (number c.failed) (reason "auth_required" r.last_checkpoint);
  completed_at = some now;
}
settle budget_exhausted c ts ws now r = record r {
  status = RunStatus.budget_exhausted;
  last_checkpoint =
      set_field "failure_classes" (classes_json ts)
        (set_field "failed_tasks" (number c.failed) (reason "budget_exhausted" r.last_checkpoint));
  completed_at = some now;
}
settle partial_failure c ts ws now r = record r {
  status = RunStatus.completed_with_warnings;
  warnings = r.warnings ++ (ws ++ partial_warning c ts ∷ []);
  completed_at = some now;
}
settle warned c ts ws now r = record r {
  status = RunStatus.completed_with_warnings;
  warnings = r.warnings ++ ws;
  completed_at = some now;
}
settle no_useful_artifact c ts ws now r = record r {
  status = RunStatus.failed;
  last_checkpoint =
      set_field "success_warnings" (number (length ws))
        (reason "no_useful_artifact" r.last_checkpoint);
  completed_at = some now;
}
settle all_failed c ts ws now r = record r {
  status = RunStatus.failed;
  last_checkpoint =
      set_field "failure_classes" (classes_json ts)
        (set_field "failed_tasks" (number c.failed) (reason "all_tasks_failed" r.last_checkpoint));
  completed_at = some now;
}
settle completed c ts ws now r = record r { status = RunStatus.completed; completed_at = some now }

abbrev pub is_open : Task → Bool
is_open t = is_pending t.status || is_leased t.status

abbrev pub without_graph : ℕ → Run → Run
without_graph now r = record r {
  status = RunStatus.failed;
  completed_at = some now;
  last_checkpoint = reason "missing_task_graph" r.last_checkpoint;
}

-- The part of `finalize_if_idle` below the first guard, on the tasks of the run.
unfoldable pub close_run : Codec → List Task → ℕ → Run → Result Run
unfolding success_warnings decide_outcome settle
close_run codec [] now r = ok (without_graph now r)
close_run codec (t ∷ ts) now r = if any is_open (t ∷ ts) then ok r else (do
  ws ← success_warnings codec [] (t ∷ ts)
  let c = tally (t ∷ ts) ws
  ok (settle (decide_outcome c) c (t ∷ ts) ws now r))

-- `finalize_if_idle` on the locked run, by whether it is running.
unfoldable pub finalize_found : Codec → ℕ → ℕ → Db → Run → Bool → Result (Run × Db)
unfolding close_run
finalize_found codec run_id now db r false = ok (r, db)
finalize_found codec run_id now db r true = do
  r' ← close_run codec (run_tasks run_id db.tasks) now r
  ok (r', put_run r' db)

unfoldable pub finalize_if_idle : Codec → ℕ → ℕ → Db → Result (Run × Db)
unfolding locked_run finalize_found
finalize_if_idle codec run_id now db = do
  r ← locked_run run_id db
  finalize_found codec run_id now db r (is_running r.status)
