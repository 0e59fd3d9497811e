-- ===== src/Queue/Examples.antt =====
-- A small database, and the theorems on it.
use Prim.Native.Nat.{min}
use gapforge.Common.{
  ℕ, ◌+◌, ◌*◌, ◌-◌, ◌^◌, ◌≤◌, ◌<◌, ◌≡◌, ◌≢◌, ◌⊎◌, inr, refl, ap, String, Bool, true, false, Option,
  none, some, List, [], ◌∷◌, Memᴰ, ok, err, permission_error, value_error, arith, All, any, find,
}
use gapforge.Common.Int.{ℤ, pos, ◌+ℤ◌}
use gapforge.Common.Text.{is_blank}
use gapforge.Json.{Json, Fields, end, field, name, integer, get_field, set_field}
use gapforge.Queue.Model.{
  RunStatus, TaskStatus, Run, Task, Journal, CallLease, Db, ErrorKind, get_run, get_task, put_task,
}
use gapforge.Queue.Retry.{ticks_per_second, RetryDecision, retry_delay_seconds, classify_error}
use gapforge.Queue.Repository.{
  enqueue_slot, enqueue, new_task, expire_run, expire_overdue_runs, is_claimable, candidates,
  claims_before, leased_to, lease_row, claim, leased_by, renew_under, renew_owned_task, checkpoint,
  renew_lease, succeed, fail, succeeded_task, failed_task, owned_by, success_checkpoint,
}
use gapforge.Queue.Control.{
  Codec, BudgetDecision, locked_run, start_run, deadline_after, start, started, count_running,
  spend, consume_budget, read_limit, read_used, close_run, is_open, success_warnings,
  decide_outcome, settle, collect_warnings,
}
use gapforge.Queue.ProviderCalls.{active_leases, new_lease, grant, acquire}
use gapforge.Queue.Candidates.{MayClaim}
use gapforge.Queue.Claiming.{claim_picks, claim_starves, claim_first, claim_keeps_lease, NoLater}
use gapforge.Queue.Writing.{
  succeed_effect, fail_effect, checkpoint_effect, renew_lease_effect, stale_worker_refused,
}
use gapforge.Queue.Written.{Wrote, FailedAs, with_result, given_back, renewed_until}
use gapforge.Queue.Steps.{Reach, here, next, starts}
use gapforge.Queue.History.{terminal_task_stays, terminal_run_stays}
use gapforge.Queue.OneRunning.{one_running}
use gapforge.Queue.Budgets.{Decided, consume_budget_decides}
use gapforge.Queue.Closing.{IsJust, close_run_verdict}
use gapforge.Queue.Enqueuing.{slot_count, slot_of, enqueue_idempotent}
use gapforge.Queue.CallBound.{acquire_within_run}
use gapforge.Queue.Retrying.{AfterFailure, retry_delay_bounds, failure_retried_or_abandoned}

abbrev limits : Fields
limits =
    field (name "max_run_duration_minutes") (integer (pos 10))
      (field (name "max_calls") (integer (pos 5)) end)

abbrev a_run : ℕ → RunStatus → Run
a_run id status = record {
  id = id;
  status = status;
  priority = pos 1;
  created_at = 10;
  deadline_at = 1000;
  started_at = none;
  completed_at = none;
  budget_limits = limits;
  budget_used = end;
  warnings = [];
  last_checkpoint = end;
}

abbrev active : Run
active = a_run 1 RunStatus.running

abbrev ended : Run
ended = a_run 1 RunStatus.completed

abbrev waiting : Run
waiting = a_run 2 RunStatus.queued

abbrev ready : Task
ready = new_task 7 1 "collect" "collect:1" end (pos 3) 3 20 10

abbrev held : Task
held = leased_to "w1" 200 ready

abbrev later : Task
later = new_task 8 1 "report" "report:1" end (pos 4) 3 500 11

abbrev idle_db : Db
idle_db = record { runs = active ∷ waiting ∷ []; tasks = ready ∷ later ∷ []; leases = [] }

abbrev held_db : Db
held_db = record { runs = active ∷ waiting ∷ []; tasks = held ∷ later ∷ []; leases = [] }

abbrev unlocked : ℕ → Bool
unlocked _ = false

claimed : claim unlocked unlocked "w1" 100 100 none idle_db ≡ ok (some held, held_db)
unfolding claim expire_overdue_runs expire_run candidates is_claimable claims_before lease_row
claimed = refl

abbrev types : Option (List String)
types = none

claim_picks_example :
    (t : Task) × (r : Run) × Memᴰ t idle_db.tasks
    × (unlocked t.id ≡ false)
    × (get_run t.run_id idle_db ≡ some r)
    × MayClaim types 100 r t
    × (held ≡ leased_to "w1" (min (100 + 100) r.deadline_at) t)
claim_picks_example = claim_picks unlocked unlocked "w1" 100 100 types idle_db held_db held claimed

claim_first_example :
    (r : Run) × (get_run held.run_id idle_db ≡ some r)
    × All
        (λ u.
          (q : Run)
          → get_run u.run_id idle_db ≡ some q
          → MayClaim types 100 q u
          → unlocked u.id ≡ false
          → NoLater (r, held) (q, u))
        idle_db.tasks
claim_first_example = claim_first unlocked unlocked "w1" 100 100 types idle_db held_db held claimed

starved : claim unlocked unlocked "w2" 100 120 none held_db ≡ ok (none, held_db)
unfolding claim expire_overdue_runs expire_run candidates is_claimable claims_before lease_row
starved = refl

claim_starves_example :
    All
      (λ t.
        (r : Run)
        → get_run t.run_id held_db ≡ some r
        → MayClaim types 120 r t
        → unlocked t.id ≡ true)
      held_db.tasks
claim_starves_example =
    claim_starves unlocked unlocked "w2" 100 120 types held_db held_db refl starved

abbrev both_due : Db
both_due = record held_db { tasks = held ∷ record later { available_at = 20 } ∷ [] }

abbrev later_held : Task
later_held = leased_to "w2" 220 (record later { available_at = 20 })

abbrev both_held : Db
both_held = record held_db { tasks = held ∷ later_held ∷ [] }

claimed_other : claim unlocked unlocked "w2" 100 120 none both_due ≡ ok (some later_held, both_held)
unfolding claim expire_overdue_runs expire_run candidates is_claimable claims_before lease_row
claimed_other = refl

claim_keeps_lease_example : get_task 7 both_held ≡ some held
claim_keeps_lease_example =
    claim_keeps_lease unlocked unlocked "w2" 100 120 types both_due both_held (some later_held) held
      200 (refl, (refl, tt)) claimed_other refl refl refl (omega arith)

-- A task done, its run ended, and the next run started.
abbrev done : Task
done = succeeded_task end true [] 150 held

abbrev done_db : Db
done_db = record { runs = ended ∷ waiting ∷ []; tasks = done ∷ []; leases = [] }

abbrev going : Run
going = started 300 600000300 waiting

abbrev going_db : Db
going_db = record done_db { runs = ended ∷ going ∷ [] }

started_next : start 2 300 done_db ≡ ok (going, going_db)
unfolding start start_run deadline_after locked_run get_field
started_next = refl

restarted : Reach done_db going_db
restarted = next here (starts 2 300 going started_next)

one_running_example : count_running going_db.runs ≤ 1
one_running_example = one_running done_db going_db (omega arith) restarted

terminal_task_stays_example : get_task 7 going_db ≡ some done
terminal_task_stays_example =
    terminal_task_stays 7 done done_db going_db (refl, tt) refl refl restarted

terminal_run_stays_example : get_run 1 going_db ≡ some ended
terminal_run_stays_example =
    terminal_run_stays 1 ended done_db going_db (refl, tt) refl refl restarted

-- Writes by the owner of the lease.
abbrev finished_db : Db
finished_db = put_task done held_db

succeeded : succeed 7 "w1" end true [] 150 held_db ≡ ok (done, finished_db)
unfolding succeed leased_by renew_owned_task renew_under
succeeded = refl

succeed_effect_example :
    Wrote 7 "w1" 150 "task_completion" held_db
      (λ t _. with_result end true [] 150 t)
      given_back
      finished_db
succeed_effect_example = succeed_effect 7 "w1" end true [] 150 held_db finished_db done succeeded

abbrev lasting_failure : RetryDecision
lasting_failure = record { kind = ErrorKind.permanent; retryable = false; delay = 0 }

abbrev broken : Task
broken = record held {
  lease_owner = none;
  lease_expires_at = none;
  retry_class = some ErrorKind.permanent;
  last_error = some "boom";
  status = TaskStatus.failed;
  completed_at = some 150;
}

failed_for_good :
    fail 7 "w1" lasting_failure "boom" 150 held_db ≡ ok (broken, put_task broken held_db)
unfolding fail failed_task leased_by renew_owned_task renew_under
failed_for_good = refl

fail_effect_example :
    (new : Task → Run → Task) × ((t : Task) (r : Run)
      → FailedAs lasting_failure "boom" 150 t (new t r))
    × Wrote 7 "w1" 150 "task_failure" held_db new given_back (put_task broken held_db)
fail_effect_example =
    fail_effect 7 "w1" lasting_failure "boom" 150 held_db (put_task broken held_db) broken
      failed_for_good

abbrev extended_task : Task
extended_task = renewed_until 250 held

checkpointed :
    checkpoint 7 "w1" end 100 150 held_db ≡ ok (extended_task, put_task extended_task held_db)
unfolding checkpoint leased_by renew_owned_task renew_under
checkpointed = refl

checkpoint_effect_example :
    Wrote 7 "w1" 150 "task_checkpoint" held_db
      (λ t r. renewed_until (min (150 + 100) r.deadline_at) (record t { checkpoint = end }))
      (λ t. given_back (record t { checkpoint = end }))
      (put_task extended_task held_db)
checkpoint_effect_example =
    checkpoint_effect 7 "w1" end 100 150 held_db (put_task extended_task held_db) extended_task
      checkpointed

heartbeat :
    renew_lease 7 "w1" 100 150 held_db ≡ ok (some extended_task, put_task extended_task held_db)
unfolding renew_lease leased_by renew_owned_task renew_under
heartbeat = refl

renew_lease_effect_example :
    Wrote 7 "w1" 150 "worker_heartbeat" held_db
      (λ t r. renewed_until (min (150 + 100) r.deadline_at) t)
      given_back
      (put_task extended_task held_db)
renew_lease_effect_example =
    renew_lease_effect 7 "w1" 100 150 held_db (put_task extended_task held_db) (some extended_task)
      heartbeat

stale_worker_refused_example :
    (checkpoint 7 "w2" end 100 150 held_db ≡ err permission_error)
    × (renew_lease 7 "w2" 100 150 held_db ≡ err permission_error)
    × (succeed 7 "w2" end true [] 150 held_db ≡ err permission_error)
    × (fail 7 "w2" lasting_failure "boom" 150 held_db ≡ err permission_error)
stale_worker_refused_example =
    stale_worker_refused 7 "w2" held_db held end end true [] lasting_failure "boom" 100 150 refl
      (inr another)
  where
    another : held.lease_owner ≢ some "w2"
    another e = apart (ap (owned_by "w2") e)
      where
        apart : false ≡ true → ⊥
        apart h = absurd (cc)

-- The budget of calls, which `limits` sets at five.
abbrev plain : Codec
plain = record { parse_warning = λ w. ok w; dumps = λ _. ""; parse_int = λ _. err value_error }

abbrev charged : Run
charged = record active { budget_used = field (name "calls") (integer (pos 2)) end }

abbrev charged_db : Db
charged_db = record idle_db { runs = charged ∷ waiting ∷ [] }

abbrev two_used : BudgetDecision
two_used = record { allowed = true; used = pos 2; limit = pos 5 }

consumed :
    consume_budget plain 1 "calls" "max_calls" (pos 2) 100 true idle_db ≡ ok (two_used, charged_db)
unfolding consume_budget locked_run spend get_field set_field ◌+ℤ◌
consumed = refl

consume_budget_decides_example :
    (r : Run) × (r' : Run) × (limit : ℤ) × (used : ℤ) × (get_run 1 idle_db ≡ some r)
    × (get_run 1 charged_db ≡ some r')
    × (read_limit plain "max_calls" r ≡ ok limit)
    × (read_used plain "calls" r ≡ ok used)
    × Decided plain "calls" (pos 2) 100 true r r' limit used two_used
consume_budget_decides_example =
    consume_budget_decides plain 1 "calls" "max_calls" (pos 2) 100 true idle_db charged_db two_used
      consumed

-- A run whose only task is done.
abbrev closed : Run
closed = record active { status = RunStatus.completed; completed_at = some 160 }

closes : close_run plain (done ∷ []) 160 active ≡ ok closed
unfolding close_run success_warnings collect_warnings decide_outcome settle success_checkpoint
    set_field get_field
closes = refl

close_run_verdict_example :
    ((done ∷ [] ≡ []) × (closed.status ≡ RunStatus.failed))
    ⊎ ((any is_open (done ∷ []) ≡ true) × (closed ≡ active))
    ⊎ ((any is_open (done ∷ []) ≡ false)
        × (ws : List Json) × (success_warnings plain [] (done ∷ []) ≡ ok ws)
        × IsJust (done ∷ []) ws closed.status)
close_run_verdict_example = close_run_verdict plain (done ∷ []) 160 active closed closes

-- The same slot twice.
abbrev enqueued_db : Db
enqueued_db = record { runs = active ∷ waiting ∷ []; tasks = later ∷ ready ∷ []; leases = [] }

enqueued : enqueue ready (record enqueued_db { tasks = later ∷ [] }) ≡ ok (ready, true, enqueued_db)
unfolding enqueue enqueue_slot
enqueued = refl

abbrev ready_again : Task
ready_again = record ready { id = 9; priority = pos 0 }

enqueue_idempotent_example :
    (find (slot_of ready) enqueued_db.tasks ≡ some ready)
    × (slot_count ready enqueued_db ≤ 1)
    × (enqueue ready_again enqueued_db ≡ ok (ready, false, enqueued_db))
enqueue_idempotent_example =
    enqueue_idempotent ready ready ready_again true (record enqueued_db { tasks = later ∷ [] })
      enqueued_db enqueued (omega arith) refl refl (omega arith)

-- A provider call of the held task.
abbrev a_call : Journal
a_call = record {
  task_id = 7;
  call_id = 50;
  operation = "extract";
  output_schema_name = "Pain";
  output_schema_sha256 = [];
  request_sha256 = [];
  provider = "fake";
  requested_model = "m";
  effort = "low";
  repair_attempt = 0;
}

abbrev call_lease : CallLease
call_lease = new_lease 90 1 "w1" 250 150 a_call

abbrev calling_db : Db
calling_db = record held_db { leases = call_lease ∷ [] }

called : acquire 1 90 1 a_call "w1" 100 150 held_db ≡ ok (some call_lease, calling_db)
unfolding acquire grant is_blank
called = refl

acquire_within_run_example :
    (r : Run) × (get_run 1 held_db ≡ some r)
    × (r.status ≡ RunStatus.running)
    × (150 < r.deadline_at)
    × (call_lease.lease_expires_at ≤ r.deadline_at)
    × (call_lease.lease_expires_at ≤ 150 + 100)
    × (active_leases r.id 150 held_db.leases < 1)
acquire_within_run_example =
    acquire_within_run 1 90 1 a_call "w1" 100 150 held_db calling_db call_lease called

-- Retries, with a digest that is always 1000.
abbrev flat_digest : String → ℕ → ℕ
flat_digest _ _ = 1000

retry_delay_bounds_example :
    (d : ℕ) × (retry_delay_seconds flat_digest 3 "7" ≡ ok d)
    × (ticks_per_second ≤ d)
    × (d ≤ 60 * ticks_per_second)
    × ((2 ^ (3 - 1) * ticks_per_second ≤ d) ⊎ (d ≡ 60 * ticks_per_second))
    × (4 * d ≤ 5 * (2 ^ (3 - 1) * ticks_per_second))
retry_delay_bounds_example =
    retry_delay_bounds flat_digest 3 "7" (omega arith) (omega arith) (omega arith)

failure_retried_or_abandoned_example :
    (d : RetryDecision) × (classify_error flat_digest ErrorKind.timeout 1 "7" ≡ ok d)
    × AfterFailure ErrorKind.timeout 150 held (failed_task d "boom" 150 held)
failure_retried_or_abandoned_example =
    failure_retried_or_abandoned flat_digest ErrorKind.timeout "7" "boom" 150 held (omega arith)
      (omega arith) (omega arith)
