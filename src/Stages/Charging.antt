-- ===== src/Stages/Charging.antt =====
-- What admitting a stage's demands charges (src/gapforge/integration/evidence_store.py).
use gapforge.Common.{
  ℕ, ◌≡◌, sym, ap, ◌∙◌, inl, inr, String, Bool, true, false, ◌||◌, some, List, [], ◌∷◌, arith, leb,
  All, Result, ok, err, ◌≢◌, nat_beq, string_eq, if◌then◌else◌, ◌<◌, Bool-cases,
}
use gapforge.Common.Int.{ℤ, pos, ◌+ℤ◌, ◌≤ℤ◌, ltb_ℤ}
use gapforge.Json.{integer, Fields, get_field, set_field}
use gapforge.Json.Laws.{get_field-set_field_self, get_field-set_field_ne}
use gapforge.Queue.Model.{Run}
use gapforge.Queue.Control.{Codec, read_used}
use gapforge.Stages.Reserve.{
  staged, onward-eq-staged, Demand, charge, admit_budget, requested, demanded, of_result,
  limit_or_zero,
}

-- What is charged for a demand: its counter is raised by it, within its limit.
pub record IsCharged (codec : Codec) (r : Run) (final : Fields) (x : Demand) : Type 0 where
  pub used : ℤ
  pub limit : ℤ
  pub before : read_used codec x.counter r ≡ ok used
  pub bound : limit_or_zero codec x.limit_key r ≡ ok limit
  pub within : used +ℤ pos x.amount ≤ℤ limit
  pub stored : get_field x.counter final ≡ some (integer (used +ℤ pos x.amount))

of_result-staged {ℓ} : {A : Type ℓ} (o : Result A) (a : A) → of_result o ≡ staged a → o ≡ ok a
of_result-staged (err e) a h = absurd (cc)
of_result-staged (ok x) a h = ap ok (ground (arith, h))

demanded-staged :
    (codec : Codec) (r : Run) (x : Demand) (over : Bool) (sum : ℤ)
    → demanded codec r x ≡ staged (over, sum)
    → (used : ℤ) × (limit : ℤ) × (read_used codec x.counter r ≡ ok used)
      × (limit_or_zero codec x.limit_key r ≡ ok limit)
      × (over ≡ ltb_ℤ limit (used +ℤ pos x.amount))
      × (sum ≡ used +ℤ pos x.amount)
unfolding demanded
demanded-staged codec r x over sum h =
    let (used, u, h₁) =
      onward-eq-staged (of_result (read_used codec x.counter r)) _ (over, sum) h in
    let (limit, l, h₂) =
      onward-eq-staged (of_result (limit_or_zero codec x.limit_key r)) _ (over, sum) h₁ in
    (
      used,
      limit,
      of_result-staged _ used u,
      of_result-staged _ limit l,
      ground (arith, h₂),
      ground (arith, h₂),
    )

-- A counter that is not among the demands stays.
charge-others :
    (codec : Codec) (r : Run) (k : String) (xs : List Demand) (used final : Fields) (over : Bool)
    → All (λ x. k ≢ x.counter) xs
    → charge codec r xs used ≡ staged (over, final)
    → get_field k final ≡ get_field k used
unfolding charge
charge-others codec r k [] used final over a h = ground (arith, h)
charge-others codec r k (x ∷ xs) used final over a h =
    let ((o, sum), _, h₁) = onward-eq-staged (demanded codec r x) _ (over, final) h in
    let ((others, last), rest, h₂) =
      onward-eq-staged (charge codec r xs (set_field x.counter (integer sum) used)) _ (over, final)
        h₁ in
    let is : last ≡ final = ground (arith, h₂) in
    ap (get_field k) (sym is)
    ∙ charge-others codec r k xs (set_field x.counter (integer sum) used) last others a.1 rest
    ∙ get_field-set_field_ne k x.counter (integer sum) used a.0

-- No two demands are of one counter.
abbrev pub Distinct : List Demand → Type 0
Distinct [] = Unit
Distinct (x ∷ xs) = All (λ y. x.counter ≢ y.counter) xs × Distinct xs

pub charge-IsCharged :
    (codec : Codec) (r : Run) (xs : List Demand) (used final : Fields)
    → Distinct xs
    → charge codec r xs used ≡ staged (false, final)
    → All (IsCharged codec r final) xs
unfolding charge
charge-IsCharged codec r [] used final u h = tt
charge-IsCharged codec r (x ∷ xs) used final u h =
    let ((over, sum), first, h₁) = onward-eq-staged (demanded codec r x) _ (false, final) h in
    let ((others, last), rest, h₂) =
      onward-eq-staged (charge codec r xs (set_field x.counter (integer sum) used)) _ (false, final)
        h₁ in
    let (n, limit, before, bound, tested, is_sum) = demanded-staged codec r x over sum first in
    let is : last ≡ final = ground (arith, h₂) in
    let fits : over ≡ false = ground (arith, h₂) in
    let none_over : others ≡ false = ground (arith, h₂) in
    let rest' : charge codec r xs (set_field x.counter (integer sum) used) ≡ staged (false, final) =
      rw (sym is, sym none_over) rest in
    let kept =
      charge-others codec r x.counter xs (set_field x.counter (integer sum) used) final false u.0
        rest' in
    (
      record {
        used = n;
        limit = limit;
        before = before;
        bound = bound;
        within = ground (arith, tested, fits);
        stored =
            kept
            ∙ get_field-set_field_self x.counter (integer sum) used
            ∙ ap (λ s. some (integer s)) is_sum;
      },
      charge-IsCharged codec r xs (set_field x.counter (integer sum) used) final u.1 rest',
    )

pub admit_budget-charged :
    (codec : Codec) (now : ℕ) (demands : List Demand) (r r' : Run)
    → admit_budget codec now demands r ≡ staged r'
    → (now < r.deadline_at)
      × (r'.id ≡ r.id)
      × (charge codec r demands r.budget_used ≡ staged (false, r'.budget_used))
unfolding admit_budget
admit_budget-charged codec now demands r r' h =
    let ((exhausted, used), charged, e) =
      onward-eq-staged (charge codec r demands r.budget_used) _ r' h in
    elim (Bool-cases (leb r.deadline_at now || exhausted)) [
      | inl refused ↦ absurd (cc (rw refused at e))
      | inr fine ↦
          let is : record r { budget_used = used } ≡ r' = ground (arith, rw fine at e) in
          let within : exhausted ≡ false = ground (arith, fine) in
          (
            ground (arith, fine),
            ap (λ (x : Run). x.id) (sym is),
            charged
                ∙ ap (λ b. staged (b, used)) within
                ∙ ap (λ (x : Run). staged (false, x.budget_used)) is,
          )
    ]

pub requested-Distinct : (m n : ℕ) → Distinct (requested m n)
requested-Distinct m n = tested (nat_beq m 0) (nat_beq n 0)
  where
    clash : false ≡ true → ⊥
    clash h = absurd (cc)

    apart : ◌≢◌ {A = String} "collector_requests" "search_calls"
    apart h = clash ((string_eq.agree_iff "collector_requests" "search_calls").1 h)

    tested :
        (b d : Bool)
        → let first : Demand = record {
          counter = "collector_requests";
          amount = m;
          limit_key = "max_collector_requests_per_run";
        } in
          let second : Demand = record {
            counter = "search_calls";
            amount = n;
            limit_key = "max_search_calls_per_run";
          } in
          let rest : List Demand = if d then [] else second ∷ [] in
          Distinct (if b then rest else first ∷ rest)
    tested true true = tt
    tested true false = (tt, tt)
    tested false true = (tt, tt)
    tested false false = ((apart, tt), (tt, tt))
