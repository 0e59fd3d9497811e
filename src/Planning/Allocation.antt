-- ===== src/Planning/Allocation.antt =====
-- `allocate_signal_budget` (src/gapforge/research/query_planning.py), `research_more_intents`
-- (src/gapforge/analysis/critic.py), and the checks of src/gapforge/analysis/hypotheses.py on
-- alternatives, evidence and product hypotheses.
use Prim.Native.Nat.{min, max}
use gapforge.Common.{
  ℕ, ◌+◌, ◌/◌, ◌%◌, String, Bool, true, false, not, ◌||◌, Option, none, some, List, [], ◌∷◌,
  value_error, Result, ok, ◌>>◌, raise_if, ltb, leb, bit, if◌then◌else◌, any, every, select, take,
  length, nat_beq, ◌==◌, string_eq,
}
use gapforge.Common.Text.{is_blank}
use gapforge.Analysis.Gates.{Verdict, is_validate_verdict}

pub data Source : Type 0 where
  brave github hacker_news reddit static_web user : Source

abbrev pub same_source : Source → Source → Bool
same_source brave brave = true
same_source github github = true
same_source hacker_news hacker_news = true
same_source reddit reddit = true
same_source static_web static_web = true
same_source user user = true
same_source _ _ = false

-- The six members in the order of their values.
abbrev pub sorted_sources : List Source
sorted_sources = brave ∷ github ∷ hacker_news ∷ reddit ∷ static_web ∷ user ∷ []

-- `sorted(set(sources), key=...)`
abbrev pub unique_sources : List Source → List Source
unique_sources sources = select (λ s. any (same_source s) sources) sorted_sources

abbrev pub share : ℕ → ℕ → ℕ → ℕ → ℕ
share fair remainder cap index = min (min (fair + bit (ltb index remainder)) 100) cap

-- The comprehension over `enumerate(selected)`.
unfoldable pub allot : ℕ → ℕ → ℕ → ℕ → List Source → List (Source × ℕ)
allot fair remainder cap index [] = []
allot fair remainder cap index (s ∷ ss) =
    (s, share fair remainder cap index) ∷ allot fair remainder cap (index + 1) ss

abbrev pub allocated : ℕ → List Source → List (Source × ℕ)
allocated total selected =
    allot (total / length selected) (total % length selected) (max 1 (total / 2)) 0 selected

unfoldable pub allocate_unique : ℕ → List Source → Result (List (Source × ℕ))
allocate_unique total [] = ok []
allocate_unique total (s ∷ ss) = do
  raise_if (ltb total 1 || ltb 300 total) value_error
  ok (allocated total (take total (s ∷ ss)))

unfoldable pub allocate_signal_budget : List Source → ℕ → Result (List (Source × ℕ))
unfolding allocate_unique
allocate_signal_budget sources total = allocate_unique total (unique_sources sources)

-- `research_more_intents`, on the intents that the critic recommends; no count is negative here.
unfoldable pub research_more_intents {ℓ} : {A : Type ℓ} → List A → ℕ → ℕ → Result (List A)
research_more_intents recommended completed_rounds remaining_agent_calls = do
  raise_if (ltb 2 completed_rounds) value_error
  ok (
      if leb 2 completed_rounds || nat_beq remaining_agent_calls 0
      then []
      else take (min 4 remaining_agent_calls) recommended)

-- `set(xs) <= permitted`
abbrev pub subset : List String → List String → Bool
subset xs permitted = every (λ x. any (λ y. y == x) permitted) xs

unfoldable pub validate_critic_result : List String → List String → Result (Unit {0})
validate_critic_result contradictions permitted_claim_ids =
    raise_if (not (subset contradictions permitted_claim_ids)) value_error

pub data AlternativeKind : Type 0 where
  saas app spreadsheet manual_work employee agency internal_script open_source : AlternativeKind
  platform_feature do_nothing : AlternativeKind

abbrev pub is_do_nothing : AlternativeKind → Bool
is_do_nothing do_nothing = true
is_do_nothing _ = false

-- `NON_SOFTWARE - {DO_NOTHING}`
abbrev pub is_active_non_software : AlternativeKind → Bool
is_active_non_software spreadsheet = true
is_active_non_software manual_work = true
is_active_non_software employee = true
is_active_non_software agency = true
is_active_non_software internal_script = true
is_active_non_software _ = false

unfoldable pub validate_alternative_coverage : List AlternativeKind → Result (Unit {0})
validate_alternative_coverage kinds = do
  raise_if (not (any is_do_nothing kinds)) value_error
  raise_if (not (any is_active_non_software kinds)) value_error

-- On the evidence ids of a gap hypothesis.
unfoldable pub validate_gap_hypothesis :
    List String → List String → List String → List String → Result (Unit {0})
validate_gap_hypothesis user_evidence competitor_evidence permitted_user permitted_competitor = do
  raise_if (not (subset user_evidence permitted_user)) value_error
  raise_if (not (subset competitor_evidence permitted_competitor)) value_error

pub record ProductHypothesis : Type 0 where
  pub id : String
  pub assessment_id : String
  pub explicit_request_id : String
  pub proposition : String
  pub created_at : ℕ

abbrev pub validates : Option Verdict → Bool
validates none = false
validates (some v) = is_validate_verdict v

-- `assessment` is given by its id and its verdict.
unfoldable pub create_product_hypothesis :
    String → String → Option Verdict → String → String → ℕ → Result ProductHypothesis
create_product_hypothesis id assessment_id verdict explicit_request_id proposition created_at = do
  raise_if (not (validates verdict)) value_error
  raise_if (is_blank explicit_request_id) value_error
  ok (record {
    id = id;
    assessment_id = assessment_id;
    explicit_request_id = explicit_request_id;
    proposition = proposition;
    created_at = created_at;
  })
