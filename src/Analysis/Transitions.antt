-- ===== src/Analysis/Transitions.antt =====
-- What the lifecycle of an opportunity guarantees.
use gapforge.Common.{
  ℕ, ◌+◌, ◌-◌, ◌*◌, ◌≤◌, ◌≡◌, ◌≢◌, ◌⊎◌, ◌↔◌, inl, inr, refl, sym, Bool, Bool-cases, true, false,
  not, ◌&&◌, ◌||◌, Option, none, some, List, [], ◌∷◌, ◌++◌, value_error, Result, ok, raise_if,
  >>=-eq-ok, raise_if-eq-ok, arith, ltb, leb, ◌==◌, string_eq, any, last?, All,
}
use text.Mathlib.TextEquality.{eq_iff}
use gapforge.Analysis.Lifecycle.{
  LifecycleState, validate, LifecycleEvent, is_allowed, is_validate, transition_lifecycle,
  continues, is_none, check_next, append_lifecycle_event, ReopenEvidence, TrendLabel, is_triggered,
  can_reopen_rejected, microseconds_per_day,
}

-- A lifecycle as the transitions make it. `passed` tells whether some step had all validation gates
-- passed, `reopened` whether some step reopened a rejection.
pub data Walk (from : LifecycleState) : Bool → Bool → LifecycleState → Type 0 where
  start : Walk from false false from
  step :
      {passed reopened : Bool} {mid : LifecycleState} (target next : LifecycleState)
      (reopen pass : Bool)
      → Walk from passed reopened mid
      → transition_lifecycle mid target reopen pass ≡ ok next
      → Walk from (passed || pass) (reopened || reopen) next

transition-eq-ok :
    (current target next : LifecycleState) (reopen pass : Bool)
    → transition_lifecycle current target reopen pass ≡ ok next
    → (next ≡ target)
      × (is_allowed current target reopen ≡ true)
      × ((target ≡ validate) → pass ≡ true)
unfolding transition_lifecycle
transition-eq-ok current target next reopen pass h =
    let (gate, rest) = raise_if-eq-ok (is_validate target && not pass) value_error _ next h in
    let (edge, done) =
      raise_if-eq-ok (not (is_allowed current target reopen)) value_error (ok target) next rest in
    (ground (arith, done), ground (arith, edge), λ v. gated target pass gate v)
  where
    gated :
        (target : LifecycleState) (pass : Bool)
        → (is_validate target && not pass) ≡ false
        → target ≡ validate
        → pass ≡ true
    gated target pass g v = ground (arith, g, v)

validate_after_gate :
    (from state : LifecycleState) (passed reopened : Bool)
    → Walk from passed reopened state
    → from ≢ validate
    → state ≡ validate
    → passed ≡ true
validate_after_gate from state passed reopened start other v = absurd (other v)
validate_after_gate from state p r (step {passed = before} target next reopen pass walk h) other v =
    let (same, edge, gate) = transition-eq-ok _ target next reopen pass h in
    let yes = gate (cc (same, v)) in ground (arith, yes)

-- VALIDATE is reached from any other state only by a step at which all validation gates had passed,
-- and nothing leads out of it again.
pub validate_is_gated_and_final :
    (from state : LifecycleState) (passed reopened : Bool)
    → Walk from passed reopened state
    → from ≢ validate
    → state ≡ validate
    → (passed ≡ true)
      × ((target next : LifecycleState) (reopen pass : Bool)
          → transition_lifecycle state target reopen pass ≢ ok next)
validate_is_gated_and_final from state passed reopened walk other v =
    (validate_after_gate from state passed reopened walk other v, final)
  where
    final :
        (target next : LifecycleState) (reopen pass : Bool)
        → transition_lifecycle state target reopen pass ≢ ok next
    final target next reopen pass h =
        let (_, edge, _) = transition-eq-ok state target next reopen pass h in
        absurd (ground (arith, edge, v))

-- Each event continues the one before it.
abbrev pub Follows : LifecycleEvent → LifecycleEvent → Type 0
Follows prior event =
    (event.assessment_id ≡ prior.assessment_id)
    × (prior.created_at ≤ event.created_at)
    × (event.from_state ≡ some prior.to_state)

abbrev pub Linked : List LifecycleEvent → Type 0
Linked [] = Unit
Linked (e ∷ []) = Unit
Linked (e ∷ f ∷ es) = Follows e f × Linked (f ∷ es)

abbrev pub Begins : List LifecycleEvent → Type 0
Begins [] = Unit
Begins (e ∷ es) = e.from_state ≡ none

abbrev pub FreshIds : List LifecycleEvent → Type 0
FreshIds [] = Unit
FreshIds (e ∷ es) = All (λ f. f.id ≢ e.id) es × FreshIds es

-- A history: it starts without a prior state, is linked, and no id is used twice.
pub record IsHistory (es : List LifecycleEvent) : Type 0 where
  pub begins : Begins es
  pub linked : Linked es
  pub fresh : FreshIds es

check_next-eq-ok :
    (prior event : LifecycleEvent) → check_next (some prior) event ≡ ok tt → Follows prior event
unfolding check_next
check_next-eq-ok prior event h =
    let (same, rest) =
      raise_if-eq-ok (not (prior.assessment_id == event.assessment_id)) value_error _ tt h in
    let (order, rest') =
      raise_if-eq-ok (ltb event.created_at prior.created_at) value_error _ tt rest in
    (
      ground (arith, same, eq_iff prior.assessment_id event.assessment_id),
      ground (arith, order),
      chained event.from_state prior.to_state (ground (arith, rest')),
    )
  where
    chained : (o : Option LifecycleState) (s : LifecycleState) → continues o s ≡ true → o ≡ some s
    chained none s e = absurd (cc)
    chained (some r) s e = ground (arith, e)

Linked-append :
    (es : List LifecycleEvent) (event : LifecycleEvent)
    → Linked es
    → check_next (last? es) event ≡ ok tt
    → Linked (es ++ event ∷ [])
Linked-append [] event l h = tt
Linked-append (e ∷ []) event l h = (check_next-eq-ok e event h, tt)
Linked-append (e ∷ f ∷ es) event l h = (l.0, Linked-append (f ∷ es) event l.1 h)

Begins-append :
    (es : List LifecycleEvent) (event : LifecycleEvent)
    → Begins es
    → check_next (last? es) event ≡ ok tt
    → Begins (es ++ event ∷ [])
unfolding check_next
Begins-append [] event b h = first event.from_state h
  where
    first : (o : Option LifecycleState) → raise_if (not (is_none o)) value_error ≡ ok tt → o ≡ none
    first none e = refl
    first (some s) e = absurd (cc)
Begins-append (e ∷ es) event b h = b

fresh-append :
    (es : List LifecycleEvent) (event : LifecycleEvent)
    → FreshIds es
    → any (λ e. e.id == event.id) es ≡ false
    → FreshIds (es ++ event ∷ [])
fresh-append [] event f h = (tt, tt)
fresh-append (e ∷ es) event f h = (
  All-last es f.0 (ground (arith, h, eq_iff e.id event.id)),
  fresh-append es event f.1 (ground (arith, h)),
)
  where
    All-last :
        (es : List LifecycleEvent)
        → All (λ f. f.id ≢ e.id) es
        → event.id ≢ e.id
        → All (λ f. f.id ≢ e.id) (es ++ event ∷ [])
    All-last [] a n = (n, tt)
    All-last (g ∷ gs) a n = (a.0, All-last gs a.1 n)

-- Appending an event to a history gives a history that ends in it: events are never reused, mixed
-- between assessments, out of order in time, or out of line with the state before them.
pub append-IsHistory :
    (es es' : List LifecycleEvent) (event : LifecycleEvent)
    → IsHistory es
    → append_lifecycle_event es event ≡ ok es'
    → IsHistory es' × (es' ≡ es ++ event ∷ [])
unfolding append_lifecycle_event
append-IsHistory es es' event w h =
    let (unused, rest) =
      raise_if-eq-ok (any (λ (e : LifecycleEvent). e.id == event.id) es) value_error _ es' h in
    let (_, checked, done) = >>=-eq-ok (check_next (last? es) event) _ es' rest in
    let is : es ++ event ∷ [] ≡ es' = ground (arith, done) in
    (
      rw (sym is) (record {
        begins = Begins-append es event w.begins checked;
        linked = Linked-append es event w.linked checked;
        fresh = fresh-append es event w.fresh unused;
      }),
      sym is,
    )

-- What calls for another look at a rejected opportunity: at least three new independent users, a new
-- source, a first sign of spending, a material change of a competitor, or a rising trend.
pub data Trigger (e : ReopenEvidence) : Type 0 where
  users : 3 ≤ e.new_independent_users → Trigger e
  source : e.new_source ≡ true → Trigger e
  spending : e.first_wtp_or_spend ≡ true → Trigger e
  competitor : e.material_competitor_change ≡ true → Trigger e
  trend : e.trend ≡ TrendLabel.rising → Trigger e

is_triggered-Trigger : (e : ReopenEvidence) → is_triggered e ≡ true → Trigger e
is_triggered-Trigger e h = elim (Bool-cases (leb 3 e.new_independent_users)) [
  | inl many ↦ users (ground (arith, many))
  | inr few ↦ elim (Bool-cases e.new_source) [
    | inl new ↦ source new
    | inr old ↦ elim (Bool-cases e.first_wtp_or_spend) [
      | inl spent ↦ spending spent
      | inr unspent ↦ elim (Bool-cases e.material_competitor_change) [
        | inl changed ↦ competitor changed
        | inr unchanged ↦ trend (ground (arith, few, old, unspent, unchanged, h))
      ]
    ]
  ]
]

Trigger-is_triggered : (e : ReopenEvidence) → Trigger e → is_triggered e ≡ true
Trigger-is_triggered e (users h) = ground (arith, h)
Trigger-is_triggered e (source h) = ground (arith, h)
Trigger-is_triggered e (spending h) = ground (arith, h)
Trigger-is_triggered e (competitor h) = ground (arith, h)
Trigger-is_triggered e (trend h) = ground (arith, h)

-- A rejected opportunity may be reopened exactly if it was rejected by now, the evidence holds a
-- trigger, and either there is a first sign of spending or the cool-down has passed.
pub reopened_exactly :
    (rejected_at now days : ℕ) (e : ReopenEvidence)
    → (can_reopen_rejected rejected_at now e days ≡ ok true) ↔ (
        (rejected_at ≤ now)
        × Trigger e
        × ((e.first_wtp_or_spend ≡ true) ⊎ (rejected_at + days * microseconds_per_day ≤ now)))
unfolding can_reopen_rejected
reopened_exactly rejected_at now days e = (only, enough)
  where
    split :
        (a b d : Bool)
        → ◌≡◌ {A = Result Bool} (ok (a && (b || d))) (ok true)
        → (a ≡ true) × ((d ≡ true) ⊎ (b ≡ true))
    split true true d x = (refl, inr refl)
    split true false true x = (refl, inl refl)
    split true false false x = absurd (cc)
    split false b d x = absurd (cc)

    only :
        can_reopen_rejected rejected_at now e days ≡ ok true
        → (rejected_at ≤ now)
          × Trigger e
          × ((e.first_wtp_or_spend ≡ true) ⊎ (rejected_at + days * microseconds_per_day ≤ now))
    only h =
        let (started, rest) = raise_if-eq-ok (ltb now rejected_at) value_error _ true h in
        let (trigger, due) =
          split (is_triggered e) (leb (days * microseconds_per_day) (now - rejected_at))
            e.first_wtp_or_spend rest in
        (ground (arith, started), is_triggered-Trigger e trigger, ground (arith, due, started))

    enough :
        (rejected_at ≤ now)
          × Trigger e
          × ((e.first_wtp_or_spend ≡ true) ⊎ (rejected_at + days * microseconds_per_day ≤ now))
        → can_reopen_rejected rejected_at now e days ≡ ok true
    enough (started, t, due) =
        let still : ltb now rejected_at ≡ false = ground (arith, started) in
        rw (still, Trigger-is_triggered e t) (ground (arith, due))
