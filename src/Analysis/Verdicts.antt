-- ===== src/Analysis/Verdicts.antt =====
-- When an opportunity is validated.
use gapforge.Common.{
  ℕ, ◌≤◌, ◌≡◌, ◌↔◌, refl, sym, ◌∙◌, String, Bool, true, false, not, Option, none, some, List, [],
  ◌∷◌, value_error, Result, ok, raise_if-eq-ok, arith, leb, string_eq, length, nat_beq, Bool-cases,
  inl, inr,
}
use gapforge.Analysis.Gates.{
  Verdict, reject, research_more, validate, CompetitorResearchStatus, complete, EvidenceCard,
  ScoreSnapshot, CriticResult, score_threshold, confidence_threshold, critic_threshold, GateResult,
  ValidationDecision, one_opportunity, validation_gates, all_passed, decide, validation_decision,
}

-- What it takes to be validated.
pub record Deserves (is_close : ℕ → ℕ → Bool) (card : EvidenceCard) (score : ScoreSnapshot)
    (research : CompetitorResearchStatus) (gap : Bool) (critic : CriticResult) : Type 0 where
  pub authors : 5 ≤ length card.known_author_ids
  pub threads : 3 ≤ length card.thread_ids
  pub sources : 2 ≤ length card.user_sources
  pub workaround : 1 ≤ card.behavioral_workarounds
  pub paid : 1 ≤ card.paid_or_wtp_signals
  pub researched : research ≡ complete
  pub gap_shown : gap ≡ true
  pub no_flag : critic.fatal_flags ≡ []
  pub scored : score_threshold ≤ score.final_score
  pub consistent : is_close card.confidence score.evidence_confidence ≡ true
  pub confident : confidence_threshold ≤ score.evidence_confidence
  pub upheld : critic.verdict ≡ validate
  pub sure : critic_threshold ≤ critic.confidence

all_passed-Deserves :
    (is_close : ℕ → ℕ → Bool) (card : EvidenceCard) (score : ScoreSnapshot)
    (research : CompetitorResearchStatus) (gap : Bool) (critic : CriticResult)
    → all_passed (validation_gates is_close (some card) score research gap critic) ≡ true
    → Deserves is_close card score research gap critic
unfolding validation_gates
all_passed-Deserves is_close card score research gap critic h = record {
  authors = ground arith;
  threads = ground arith;
  sources = ground arith;
  workaround = ground arith;
  paid = ground arith;
  researched = ground arith;
  gap_shown = ground arith;
  no_flag = empty critic.fatal_flags (ground arith);
  scored = ground arith;
  consistent = ground arith;
  confident = ground arith;
  upheld = ground arith;
  sure = ground arith;
}
  where
    empty : (xs : List String) → nat_beq (length xs) 0 ≡ true → xs ≡ []
    empty [] e = refl
    empty (x ∷ xs) e = absurd (ground (arith, e))

Deserves-all_passed :
    (is_close : ℕ → ℕ → Bool) (card : EvidenceCard) (score : ScoreSnapshot)
    (research : CompetitorResearchStatus) (gap : Bool) (critic : CriticResult)
    → Deserves is_close card score research gap critic
    → all_passed (validation_gates is_close (some card) score research gap critic) ≡ true
unfolding validation_gates
Deserves-all_passed is_close card score research gap critic d =
    let a : leb 5 (length card.known_author_ids) ≡ true = ground (arith, d.authors) in
    let b : leb 3 (length card.thread_ids) ≡ true = ground (arith, d.threads) in
    let s : leb 2 (length card.user_sources) ≡ true = ground (arith, d.sources) in
    let w : leb 1 card.behavioral_workarounds ≡ true = ground (arith, d.workaround) in
    let p : leb 1 card.paid_or_wtp_signals ≡ true = ground (arith, d.paid) in
    let f : leb score_threshold score.final_score ≡ true = ground (arith, d.scored) in
    let e : leb confidence_threshold score.evidence_confidence ≡ true =
      ground (arith, d.confident) in
    let q : leb critic_threshold critic.confidence ≡ true = ground (arith, d.sure) in
    rw (a, b, s, w, p, d.researched, d.gap_shown, d.no_flag, f, d.consistent, e, d.upheld, q) refl

no_card_fails :
    (is_close : ℕ → ℕ → Bool) (score : ScoreSnapshot) (research : CompetitorResearchStatus)
    (gap : Bool) (critic : CriticResult)
    → all_passed (validation_gates is_close none score research gap critic) ≡ false
unfolding validation_gates
no_card_fails is_close score research gap critic = refl

decide_validate :
    (gates : List GateResult) (v : Verdict) → decide gates v ≡ validate → all_passed gates ≡ true
unfolding decide
decide_validate gates v h = elim (Bool-cases (all_passed gates)) [
  | inl e ↦ e
  | inr e ↦ absurd (other v (rw e at h))
]
  where
    other : (v : Verdict) → elim v [ reject ↦ reject | _ ↦ research_more ] ≡ validate → ⊥
    other reject x = ground (arith, x)
    other research_more x = ground (arith, x)
    other validate x = ground (arith, x)

decide_passed :
    (gates : List GateResult) (v : Verdict) → all_passed gates ≡ true → decide gates v ≡ validate
unfolding decide
decide_passed gates v h = rw h refl

decide_reject : (gates : List GateResult) (v : Verdict) → decide gates v ≡ reject → v ≡ reject
unfolding decide
decide_reject gates v h = ground (arith, h)

-- The gates cannot be bypassed: a decision is VALIDATE exactly if there is an evidence card and it,
-- the score, the competitor research, the gap evidence and the critic meet every threshold. It is
-- REJECT only if the critic rejects.
pub validated_exactly :
    (is_close : ℕ → ℕ → Bool) (card : Option EvidenceCard) (score : ScoreSnapshot)
    (research : CompetitorResearchStatus) (gap : Bool) (critic : CriticResult)
    (d : ValidationDecision)
    → validation_decision is_close card score research gap critic ≡ ok d
    → ((d.verdict ≡ validate)
        ↔ ((c : EvidenceCard) × (card ≡ some c) × Deserves is_close c score research gap critic))
      × (d.verdict ≡ reject → critic.verdict ≡ reject)
unfolding validation_decision
validated_exactly is_close card score research gap critic d h =
    let gates = validation_gates is_close card score research gap critic in
    let (_, done) = raise_if-eq-ok (not (one_opportunity card score critic)) value_error _ d h in
    let is : decide gates critic.verdict ≡ d.verdict = same d done in
    (
      (
        λ v. from_passed card (decide_validate gates critic.verdict (is ∙ v)),
        λ (c, e, w).
            sym is
            ∙ decide_passed gates critic.verdict
                (rw e (Deserves-all_passed is_close c score research gap critic w)),
      ),
      λ v. decide_reject gates critic.verdict (is ∙ v),
    )
  where
    same :
        (d : ValidationDecision)
        → ◌≡◌ {A = Result ValidationDecision}
            (ok (record {
              verdict =
                  decide (validation_gates is_close card score research gap critic) critic.verdict;
              gates = validation_gates is_close card score research gap critic;
            }))
            (ok d)
        → decide (validation_gates is_close card score research gap critic) critic.verdict
          ≡ d.verdict
    same d e = ground (arith, e)

    from_passed :
        (o : Option EvidenceCard)
        → all_passed (validation_gates is_close o score research gap critic) ≡ true
        → (c : EvidenceCard) × (o ≡ some c) × Deserves is_close c score research gap critic
    from_passed none e = absurd (cc (e, no_card_fails is_close score research gap critic))
    from_passed (some c) e = (c, refl, all_passed-Deserves is_close c score research gap critic e)
