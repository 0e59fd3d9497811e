-- ===== src/Queue/Closing.antt =====
-- When `finalize_if_idle` closes a run, and what each verdict means.
use gapforge.Common.{
  ℕ, ◌<◌, ◌≡◌, ◌⊎◌, inl, inr, refl, sym, ◌∙◌, subst, true, false, List, [], ◌∷◌, ok, >>=-eq-ok,
  arith, Bool-cases, any, count_if, length, Bool,
}
use gapforge.Json.{Json}
use gapforge.Queue.Model.{RunStatus, Run, Task, is_succeeded, is_failed}
use gapforge.Queue.Control.{
  Codec, close_run, decide_outcome, settle, Tally, tally, Outcome, is_open, is_useful,
  success_warnings, has_class,
}
use gapforge.Queue.Model.{ErrorKind}

abbrev verdict : Outcome → RunStatus
verdict Outcome.auth_required = RunStatus.auth_required
verdict Outcome.budget_exhausted = RunStatus.budget_exhausted
verdict Outcome.partial_failure = RunStatus.completed_with_warnings
verdict Outcome.warned = RunStatus.completed_with_warnings
verdict Outcome.no_useful_artifact = RunStatus.failed
verdict Outcome.all_failed = RunStatus.failed
verdict Outcome.completed = RunStatus.completed

status-settle :
    (o : Outcome) (c : Tally) (ts : List Task) (ws : List Json) (now : ℕ) (r : Run)
    → (settle o c ts ws now r).status ≡ verdict o
unfolding settle
status-settle Outcome.auth_required c ts ws now r = refl
status-settle _ c ts ws now r = refl

abbrev pub failures : List Task → ℕ
failures ts = count_if (λ (t : Task). is_failed t.status) ts

abbrev pub successes : List Task → ℕ
successes ts = count_if (λ (t : Task). is_succeeded t.status) ts

abbrev pub useful_successes : List Task → ℕ
useful_successes ts = count_if is_useful ts

abbrev pub failed_of : ErrorKind → List Task → Bool
failed_of k ts = any (has_class k) ts

-- No task has failed for want of credentials, budget or time.
pub record IsUnstopped (ts : List Task) : Type 0 where
  pub authenticated : failed_of ErrorKind.auth_required ts ≡ false
  pub in_budget : failed_of ErrorKind.budget_exhausted ts ≡ false
  pub in_time : failed_of ErrorKind.deadline_exceeded ts ≡ false

-- The status `s` that a run with these tasks and these warnings has to close with, in each of the
-- cases that there are.
pub record IsJust (ts : List Task) (ws : List Json) (s : RunStatus) : Type 0 where
  pub unauthenticated : failed_of ErrorKind.auth_required ts ≡ true → s ≡ RunStatus.auth_required
  pub over_budget :
      failed_of ErrorKind.auth_required ts ≡ false
      → (failed_of ErrorKind.budget_exhausted ts ≡ true)
        ⊎ (failed_of ErrorKind.deadline_exceeded ts ≡ true)
      → s ≡ RunStatus.budget_exhausted
  pub partly_failed :
      IsUnstopped ts
      → 0 < failures ts
      → 0 < useful_successes ts
      → s ≡ RunStatus.completed_with_warnings
  pub warned :
      IsUnstopped ts
      → 0 < length ws
      → 0 < useful_successes ts
      → s ≡ RunStatus.completed_with_warnings
  pub useless :
      IsUnstopped ts
      → (0 < length ws) ⊎ (0 < failures ts)
      → useful_successes ts ≡ 0
      → s ≡ RunStatus.failed
  pub fruitless :
      IsUnstopped ts → length ws ≡ 0 → failures ts ≡ 0 → successes ts ≡ 0 → s ≡ RunStatus.failed
  pub clean :
      IsUnstopped ts → length ws ≡ 0 → failures ts ≡ 0 → 0 < successes ts → s ≡ RunStatus.completed

verdict-IsJust :
    (ts : List Task) (ws : List Json) → IsJust ts ws (verdict (decide_outcome (tally ts ws)))
unfolding decide_outcome
verdict-IsJust ts ws = record {
  unauthenticated = λ h. ground (arith, h);
  over_budget = λ h k. ground (arith, h, k);
  partly_failed = λ u h k. ground (arith, u.authenticated, u.in_budget, u.in_time, h, k);
  warned = λ u h k. ground (arith, u.authenticated, u.in_budget, u.in_time, h, k);
  useless = λ u h k. ground (arith, u.authenticated, u.in_budget, u.in_time, h, k);
  fruitless = λ u h k l. ground (arith, u.authenticated, u.in_budget, u.in_time, h, k, l);
  clean = λ u h k l. ground (arith, u.authenticated, u.in_budget, u.in_time, h, k, l);
}

-- Closing a running run: with no task at all it fails; while a task is pending or leased it stays as
-- it is; otherwise it ends. With the distinct warnings `ws` of its successes it ends as
-- AUTH_REQUIRED if a failure asked for credentials; else as BUDGET_EXHAUSTED if one ran out of
-- budget or time; else as COMPLETED_WITH_WARNINGS if some success was useful and there is a failure
-- or a warning; as FAILED if there is a failure or a warning but no useful success, or no success at
-- all; and as COMPLETED otherwise.
pub close_run_verdict :
    (codec : Codec) (ts : List Task) (now : ℕ) (r r' : Run)
    → close_run codec ts now r ≡ ok r'
    → ((ts ≡ []) × (r'.status ≡ RunStatus.failed))
      ⊎ ((any is_open ts ≡ true) × (r' ≡ r))
      ⊎ ((any is_open ts ≡ false)
          × (ws : List Json) × (success_warnings codec [] ts ≡ ok ws)
          × IsJust ts ws r'.status)
unfolding close_run
close_run_verdict codec [] now r r' h = inl (refl, ground arith)
close_run_verdict codec (t ∷ ts) now r r' h = elim (Bool-cases (any is_open (t ∷ ts))) [
  | inl busy ↦ inr (inl (busy, ground (arith, busy)))
  | inr idle ↦
      let (ws, gathered, e) =
        >>=-eq-ok (success_warnings codec [] (t ∷ ts)) (λ ws. ok (settled ws)) r'
          (ground (arith, idle)) in
      let status : (settled ws).status ≡ r'.status = ok_status (settled ws) r' e in
      inr (
        inr (
          idle,
          ws,
          gathered,
          subst (IsJust (t ∷ ts) ws)
              (sym (
                  status-settle (decide_outcome (tally (t ∷ ts) ws)) (tally (t ∷ ts) ws) (t ∷ ts) ws
                    now r)
                ∙ status)
              (verdict-IsJust (t ∷ ts) ws),
        ))
]
  where
    settled : List Json → Run
    settled ws = settle (decide_outcome (tally (t ∷ ts) ws)) (tally (t ∷ ts) ws) (t ∷ ts) ws now r

    ok_status : (a b : Run) → ok a ≡ ok b → a.status ≡ b.status
    ok_status a b e = cc
