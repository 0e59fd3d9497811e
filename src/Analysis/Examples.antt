-- ===== src/Analysis/Examples.antt =====
-- An opportunity, its lifecycle and its decision.
use gapforge.Common.{
  ℕ, ◌+◌, ◌*◌, ◌≤◌, ◌≡◌, ◌≢◌, ◌↔◌, ◌⊎◌, refl, String, Bool, true, false, ◌++◌, Option, none, some,
  [], ◌∷◌, ok, nat_beq,
}
use gapforge.Analysis.Lifecycle.{
  LifecycleState, discovered, researching, LifecycleEvent, transition_lifecycle, check_next,
  append_lifecycle_event, ReopenEvidence, TrendLabel, can_reopen_rejected, microseconds_per_day,
}
use gapforge.Analysis.Transitions.{
  start, step, validate_is_gated_and_final, IsHistory, append-IsHistory, reopened_exactly, Trigger,
}
use gapforge.Analysis.Gates.{
  Verdict, complete, EvidenceCard, ScoreSnapshot, CriticResult, ValidationDecision, score_threshold,
  critic_threshold, validation_gates, decide, validation_decision,
}
use gapforge.Analysis.Verdicts.{Deserves, validated_exactly}

researches : transition_lifecycle discovered researching false false ≡ ok researching
unfolding transition_lifecycle
researches = refl

validates :
    transition_lifecycle researching LifecycleState.validate false true ≡ ok LifecycleState.validate
unfolding transition_lifecycle
validates = refl

validate_is_gated_and_final_example :
    (true ≡ true)
    × ((target next : LifecycleState) (reopen pass : Bool)
        → transition_lifecycle LifecycleState.validate target reopen pass ≢ ok next)
validate_is_gated_and_final_example =
    validate_is_gated_and_final discovered LifecycleState.validate true false
      (step LifecycleState.validate LifecycleState.validate false true
        (step researching researching false false start researches) validates)
      other refl
  where
    other : discovered ≢ LifecycleState.validate
    other e = absurd (cc)

abbrev an_event : String → Option LifecycleState → LifecycleState → ℕ → LifecycleEvent
an_event id from to at = record {
  id = id;
  assessment_id = "a";
  from_state = from;
  to_state = to;
  reason = "";
  evidence_ids = [];
  created_at = at;
}

abbrev first_event : LifecycleEvent
first_event = an_event "e1" none discovered 10

abbrev second_event : LifecycleEvent
second_event = an_event "e2" (some discovered) researching 20

appended :
    append_lifecycle_event (first_event ∷ []) second_event ≡ ok (first_event ∷ second_event ∷ [])
unfolding append_lifecycle_event check_next
appended = refl

append-IsHistory_example :
    IsHistory (first_event ∷ second_event ∷ [])
    × (first_event ∷ second_event ∷ [] ≡ (first_event ∷ []) ++ second_event ∷ [])
append-IsHistory_example =
    append-IsHistory (first_event ∷ []) (first_event ∷ second_event ∷ []) second_event
      (record { begins = refl; linked = tt; fresh = (tt, tt) }) appended

abbrev three_users : ReopenEvidence
three_users = record {
  new_independent_users = 3;
  new_source = false;
  first_wtp_or_spend = false;
  material_competitor_change = false;
  trend = TrendLabel.flat;
}

reopened : can_reopen_rejected 5 (31 * microseconds_per_day) three_users 30 ≡ ok true
unfolding can_reopen_rejected
reopened = refl

reopened_exactly_example :
    (can_reopen_rejected 5 (31 * microseconds_per_day) three_users 30 ≡ ok true) ↔ (
      (5 ≤ 31 * microseconds_per_day)
      × Trigger three_users
      × ((false ≡ true) ⊎ (5 + 30 * microseconds_per_day ≤ 31 * microseconds_per_day)))
reopened_exactly_example = reopened_exactly 5 (31 * microseconds_per_day) 30 three_users

abbrev card : EvidenceCard
card = record {
  opportunity_id = "o";
  known_author_ids = "a" ∷ "b" ∷ "c" ∷ "d" ∷ "e" ∷ [];
  thread_ids = "s" ∷ "t" ∷ "u" ∷ [];
  user_sources = "GITHUB" ∷ "REDDIT" ∷ [];
  behavioral_workarounds = 1;
  paid_or_wtp_signals = 2;
  confidence = critic_threshold;
}

abbrev score : ScoreSnapshot
score = record {
  id = "s1";
  opportunity_id = "o";
  final_score = score_threshold;
  evidence_confidence = critic_threshold;
  created_at = 30;
}

abbrev critic : CriticResult
critic = record {
  opportunity_id = "o";
  verdict = Verdict.validate;
  confidence = critic_threshold;
  fatal_flags = [];
}

abbrev decision : ValidationDecision
decision = record {
  verdict = Verdict.validate;
  gates = validation_gates nat_beq (some card) score complete true critic;
}

decided : validation_decision nat_beq (some card) score complete true critic ≡ ok decision
unfolding validation_decision validation_gates decide
decided = refl

validated_exactly_example :
    ((decision.verdict ≡ Verdict.validate)
      ↔ ((c : EvidenceCard) × (some card ≡ some c) × Deserves nat_beq c score complete true critic))
    × (decision.verdict ≡ Verdict.reject → critic.verdict ≡ Verdict.reject)
validated_exactly_example =
    validated_exactly nat_beq (some card) score complete true critic decision decided
