-- ===== src/Analysis/Gates.antt =====
-- `validation_decision` and `append_score_snapshot` (src/gapforge/scoring/engine.py). The floats
-- that the gates compare are counted in units of 2 ** -1074, of which every finite float that is not
-- negative is a multiple; `math.isclose` at the source's tolerance is the parameter `is_close`. A gate
-- keeps its name and whether it passed, and not the texts that are shown.
use gapforge.Common.{
  ℕ, ◌*◌, ◌^◌, String, Bool, true, false, not, ◌&&◌, Option, none, some, List, [], ◌∷◌, ◌++◌,
  value_error, Result, ok, ◌>>◌, raise_if, ltb, leb, ◌==◌, string_eq, if◌then◌else◌, any, every,
  last?, length, nat_beq,
}
use gapforge.Analysis.Lifecycle.{is_none}

pub data Verdict : Type 0 where
  reject research_more validate : Verdict

pub data CompetitorResearchStatus : Type 0 where
  complete incomplete research_unavailable : CompetitorResearchStatus

-- The fields that the decision reads.
pub record EvidenceCard : Type 0 where
  pub opportunity_id : String
  pub known_author_ids : List String
  pub thread_ids : List String
  pub user_sources : List String
  pub behavioral_workarounds : ℕ
  pub paid_or_wtp_signals : ℕ
  pub confidence : ℕ

pub record ScoreSnapshot : Type 0 where
  pub id : String
  pub opportunity_id : String
  pub final_score : ℕ
  pub evidence_confidence : ℕ
  pub created_at : ℕ

pub record CriticResult : Type 0 where
  pub opportunity_id : String
  pub verdict : Verdict
  pub confidence : ℕ
  pub fatal_flags : List String

-- The doubles 70.0, 0.65 and 0.70.
abbrev pub score_threshold : ℕ
score_threshold = 70 * 2 ^ 1074

abbrev pub confidence_threshold : ℕ
confidence_threshold = 5854679515581645 * 2 ^ 1021

abbrev pub critic_threshold : ℕ
critic_threshold = 6305039478318694 * 2 ^ 1021

pub record GateResult : Type 0 where
  pub name : String
  pub passed : Bool

pub record ValidationDecision : Type 0 where
  pub verdict : Verdict
  pub gates : List GateResult

abbrev pub gate : String → Bool → GateResult
gate name passed = record { name = name; passed = passed }

-- `len(artifact_ids) == 1`
abbrev pub one_opportunity : Option EvidenceCard → ScoreSnapshot → CriticResult → Bool
one_opportunity none score critic = score.opportunity_id == critic.opportunity_id
one_opportunity (some card) score critic =
    score.opportunity_id == critic.opportunity_id && card.opportunity_id == score.opportunity_id

-- `... if card else 0`
abbrev pub counted : (EvidenceCard → ℕ) → Option EvidenceCard → ℕ
counted f none = 0
counted f (some card) = f card

abbrev pub is_complete : CompetitorResearchStatus → Bool
is_complete complete = true
is_complete _ = false

abbrev pub is_validate_verdict : Verdict → Bool
is_validate_verdict validate = true
is_validate_verdict _ = false

abbrev pub is_consistent : (ℕ → ℕ → Bool) → Option EvidenceCard → ScoreSnapshot → Bool
is_consistent is_close none score = false
is_consistent is_close (some card) score = is_close card.confidence score.evidence_confidence

unfoldable pub validation_gates :
    (ℕ → ℕ → Bool)
    → Option EvidenceCard
    → ScoreSnapshot
    → CompetitorResearchStatus
    → Bool
    → CriticResult
    → List GateResult
validation_gates is_close card score research gap_evidence_present critic =
    gate "evidence_card" (not (is_none card))
    ∷ gate "known_authors" (leb 5 (counted (λ c. length c.known_author_ids) card))
    ∷ gate "independent_threads" (leb 3 (counted (λ c. length c.thread_ids) card))
    ∷ gate "user_sources" (leb 2 (counted (λ c. length c.user_sources) card))
    ∷ gate "behavioral_workaround" (leb 1 (counted (λ c. c.behavioral_workarounds) card))
    ∷ gate "wtp_or_spend" (leb 1 (counted (λ c. c.paid_or_wtp_signals) card))
    ∷ gate "competitor_research" (is_complete research)
    ∷ gate "gap_evidence" gap_evidence_present
    ∷ gate "fatal_flags" (nat_beq (length critic.fatal_flags) 0)
    ∷ gate "overall_score" (leb score_threshold score.final_score)
    ∷ gate "evidence_confidence_consistency" (is_consistent is_close card score)
    ∷ gate "evidence_confidence" (leb confidence_threshold score.evidence_confidence)
    ∷ gate "critic_verdict" (is_validate_verdict critic.verdict)
    ∷ gate "critic_confidence" (leb critic_threshold critic.confidence)
    ∷ []

abbrev pub all_passed : List GateResult → Bool
all_passed gates = every (λ g. g.passed) gates

unfoldable pub decide : List GateResult → Verdict → Verdict
decide gates critic_verdict =
    if all_passed gates
    then validate
    else elim critic_verdict [ reject ↦ reject | _ ↦ research_more ]

unfoldable pub validation_decision :
    (ℕ → ℕ → Bool)
    → Option EvidenceCard
    → ScoreSnapshot
    → CompetitorResearchStatus
    → Bool
    → CriticResult
    → Result ValidationDecision
unfolding validation_gates decide
validation_decision is_close card score research gap_evidence_present critic = do
  raise_if (not (one_opportunity card score critic)) value_error
  let gates = validation_gates is_close card score research gap_evidence_present critic
  ok (record { verdict = decide gates critic.verdict; gates = gates })

-- `history and snapshot.created_at < history[-1].created_at`
abbrev pub is_early : Option ScoreSnapshot → ScoreSnapshot → Bool
is_early none snapshot = false
is_early (some last) snapshot = ltb snapshot.created_at last.created_at

unfoldable pub append_score_snapshot :
    List ScoreSnapshot → ScoreSnapshot → Result (List ScoreSnapshot)
append_score_snapshot history snapshot = do
  raise_if (any (λ s. s.id == snapshot.id) history) value_error
  raise_if (is_early (last? history) snapshot) value_error
  ok (history ++ snapshot ∷ [])
