-- ===== src/Analysis/Lifecycle.antt =====
-- Lifecycle transitions, the event history, and the gate that reopens a rejected opportunity
-- (src/gapforge/analysis/lifecycle.py); merge decisions and the state of a cluster
-- (src/gapforge/analysis/clustering.py). A moment is a number of microseconds.
use gapforge.Common.{
  ℕ, ◌-◌, ◌*◌, String, Bool, true, false, not, ◌&&◌, ◌||◌, Option, none, some, List, [], ◌∷◌, ◌++◌,
  value_error, Result, ok, err, ◌>>◌, raise_if, ltb, leb, ◌==◌, string_eq, if◌then◌else◌, any,
  last?,
}

pub data LifecycleState : Type 0 where
  discovered researching research_more validate rejected : LifecycleState

pub data TrendLabel : Type 0 where
  rising flat falling insufficient_data : TrendLabel

pub record LifecycleEvent : Type 0 where
  pub id : String
  pub assessment_id : String
  pub from_state : Option LifecycleState
  pub to_state : LifecycleState
  pub reason : String
  pub evidence_ids : List String
  pub created_at : ℕ

-- `target in allowed[current]`
abbrev pub is_allowed : LifecycleState → LifecycleState → Bool → Bool
is_allowed discovered researching reopen_allowed = true
is_allowed discovered _ reopen_allowed = false
is_allowed researching research_more reopen_allowed = true
is_allowed researching validate reopen_allowed = true
is_allowed researching rejected reopen_allowed = true
is_allowed researching _ reopen_allowed = false
is_allowed research_more researching reopen_allowed = true
is_allowed research_more validate reopen_allowed = true
is_allowed research_more rejected reopen_allowed = true
is_allowed research_more _ reopen_allowed = false
is_allowed rejected research_more reopen_allowed = reopen_allowed
is_allowed rejected _ reopen_allowed = false
is_allowed validate _ reopen_allowed = false

abbrev pub is_validate : LifecycleState → Bool
is_validate validate = true
is_validate _ = false

unfoldable pub transition_lifecycle :
    LifecycleState → LifecycleState → Bool → Bool → Result LifecycleState
transition_lifecycle current target reopen_allowed validation_passed = do
  raise_if (is_validate target && not validation_passed) value_error
  raise_if (not (is_allowed current target reopen_allowed)) value_error
  ok target

abbrev pub same_state : LifecycleState → LifecycleState → Bool
same_state discovered discovered = true
same_state researching researching = true
same_state research_more research_more = true
same_state validate validate = true
same_state rejected rejected = true
same_state _ _ = false

-- `event.from_state is prior.to_state`
abbrev pub continues : Option LifecycleState → LifecycleState → Bool
continues none s = false
continues (some r) s = same_state r s

abbrev pub is_none {ℓ} : {A : Type ℓ} → Option A → Bool
is_none none = true
is_none (some _) = false

-- The checks against the end of the history.
unfoldable pub check_next : Option LifecycleEvent → LifecycleEvent → Result (Unit {0})
check_next none event = raise_if (not (is_none event.from_state)) value_error
check_next (some prior) event = do
  raise_if (not (prior.assessment_id == event.assessment_id)) value_error
  raise_if (ltb event.created_at prior.created_at) value_error
  raise_if (not (continues event.from_state prior.to_state)) value_error

unfoldable pub append_lifecycle_event :
    List LifecycleEvent → LifecycleEvent → Result (List LifecycleEvent)
unfolding check_next
append_lifecycle_event history event = do
  raise_if (any (λ e. e.id == event.id) history) value_error
  check_next (last? history) event
  ok (history ++ event ∷ [])

pub record ReopenEvidence : Type 0 where
  pub new_independent_users : ℕ
  pub new_source : Bool
  pub first_wtp_or_spend : Bool
  pub material_competitor_change : Bool
  pub trend : TrendLabel

abbrev pub microseconds_per_day : ℕ
microseconds_per_day = 86400000000

abbrev pub is_rising : TrendLabel → Bool
is_rising rising = true
is_rising _ = false

abbrev pub is_triggered : ReopenEvidence → Bool
is_triggered e =
    leb 3 e.new_independent_users
    || e.new_source
    || e.first_wtp_or_spend
    || e.material_competitor_change
    || is_rising e.trend

-- `cooldown_days` is not negative here.
unfoldable pub can_reopen_rejected : ℕ → ℕ → ReopenEvidence → ℕ → Result Bool
can_reopen_rejected rejected_at now evidence cooldown_days = do
  raise_if (ltb now rejected_at) value_error
  let cooldown_met = leb (cooldown_days * microseconds_per_day) (now - rejected_at)
  ok (is_triggered evidence && (cooldown_met || evidence.first_wtp_or_spend))

pub data MergeStatus : Type 0 where
  pending accepted rejected reversed : MergeStatus

pub data MergeAction : Type 0 where
  accept reject reverse : MergeAction

pub record MergeCandidate : Type 0 where
  pub id : String
  pub left_problem_id : String
  pub right_problem_id : String
  pub status : MergeStatus
  pub rationale : String

pub record MergeDecision : Type 0 where
  pub candidate_id : String
  pub action : MergeAction
  pub actor : String
  pub reason : String
  pub decided_at : ℕ

-- `transitions.get((candidate.status, decision.action))`
abbrev pub next_status : MergeStatus → MergeAction → Option MergeStatus
next_status MergeStatus.pending MergeAction.accept = some MergeStatus.accepted
next_status MergeStatus.pending MergeAction.reject = some MergeStatus.rejected
next_status MergeStatus.accepted MergeAction.reverse = some MergeStatus.reversed
next_status _ _ = none

unfoldable pub apply_merge_decision : MergeCandidate → MergeDecision → Result MergeCandidate
apply_merge_decision candidate decision = do
  raise_if (not (decision.candidate_id == candidate.id)) value_error
  elim (next_status candidate.status decision.action) [
    | none ↦ err value_error
    | some s ↦ ok (record candidate { status = s })
  ]

pub data ClusterState : Type 0 where
  active dormant : ClusterState

unfoldable pub cluster_state : ℕ → ℕ → Result ClusterState
cluster_state last_growth_at now = do
  raise_if (ltb now last_growth_at) value_error
  ok (if leb (90 * microseconds_per_day) (now - last_growth_at) then dormant else active)
