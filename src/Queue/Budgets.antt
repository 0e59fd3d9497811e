-- ===== src/Queue/Budgets.antt =====
-- Budgets, admission and the closing of runs.
use gapforge.Common.{
  ℕ, ◌≤◌, ◌<◌, ◌≡◌, ◌⊎◌, inl, inr, refl, sym, ap, subst, ◌∙◌, String, Bool, true, false, ◌||◌, some,
  ok, arith, if◌then◌else◌, Bool-cases, leb,
}
use gapforge.Common.Int.{ℤ, ◌+ℤ◌, ◌≤ℤ◌, ltb_ℤ}
use gapforge.Json.{get_field, integer}
use gapforge.Json.Laws.{get_field-set_field_self}
use gapforge.Rows.{row, put, row-put_self, key-row}
use gapforge.Queue.Model.{RunStatus, Run, Db, get_run, run_key}
use gapforge.Queue.Control.{Codec, consume_budget, spend, BudgetDecision, read_limit, read_used}
use gapforge.Queue.RunMoves.{consume_budget-Consumed}

-- A spend that is allowed stays within the limit, is stored under its counter, and was made before
-- the deadline.
spend_allowed :
    (terminalize : Bool) (counter : String) (amount used limit : ℤ) (now : ℕ) (r : Run)
    → let (d, r') = spend terminalize counter amount used limit now r in
      d.allowed ≡ true
      → (now < r.deadline_at)
        × (used +ℤ amount ≤ℤ limit)
        × (get_field counter r'.budget_used ≡ some (integer (used +ℤ amount)))
        × (r'.status ≡ r.status)
unfolding spend
spend_allowed terminalize counter amount used limit now r h =
    elim (Bool-cases (leb r.deadline_at now || ltb_ℤ limit (used +ℤ amount))) [
      | inl denied ↦ absurd (ground (arith, denied))
      | inr granted ↦ rw granted (
        ground (arith, granted),
        ground (arith, granted),
        get_field-set_field_self counter (integer (used +ℤ amount)) r.budget_used,
        refl,
      )
    ]

-- A spend that is denied leaves the budget as it was, and ends the run if it is asked to.
spend_denied :
    (terminalize : Bool) (counter : String) (amount used limit : ℤ) (now : ℕ) (r : Run)
    → let (d, r') = spend terminalize counter amount used limit now r in
      d.allowed ≡ false
      → ((r.deadline_at ≤ now) ⊎ ¬ (used +ℤ amount ≤ℤ limit))
        × (r'.budget_used ≡ r.budget_used)
        × (r'.status ≡ (if terminalize then RunStatus.budget_exhausted else r.status))
unfolding spend
spend_denied true counter amount used limit now r h = ground arith
spend_denied false counter amount used limit now r h = ground arith

-- What a decision of `consume_budget` says of the run before and after it.
pub data Decided (codec : Codec) (counter : String) (amount : ℤ) (now : ℕ) (terminalize : Bool)
    (r r' : Run) (limit used : ℤ) (d : BudgetDecision) : Type 0 where
  granted :
      d.allowed ≡ true
      → now < r.deadline_at
      → used +ℤ amount ≤ℤ limit
      → read_used codec counter r' ≡ ok (used +ℤ amount)
      → r'.status ≡ RunStatus.running
      → Decided codec counter amount now terminalize r r' limit used d
  denied :
      d.allowed ≡ false
      → (r.deadline_at ≤ now) ⊎ ¬ (used +ℤ amount ≤ℤ limit)
      → r'.budget_used ≡ r.budget_used
      → r'.status ≡ (if terminalize then RunStatus.budget_exhausted else RunStatus.running)
      → Decided codec counter amount now terminalize r r' limit used d

used_after :
    (codec : Codec) (counter : String) (r : Run) (n : ℤ)
    → get_field counter r.budget_used ≡ some (integer n)
    → read_used codec counter r ≡ ok n
used_after codec counter r n e = ground (arith, e)

spend-Decided :
    (codec : Codec) (counter : String) (amount : ℤ) (now : ℕ) (terminalize : Bool) (r : Run)
    (limit used : ℤ)
    → r.status ≡ RunStatus.running
    → Decided codec counter amount now terminalize r
        (spend terminalize counter amount used limit now r).1
        limit
        used
        (spend terminalize counter amount used limit now r).0
spend-Decided codec counter amount now terminalize r limit used active =
    let (d, r') = spend terminalize counter amount used limit now r in
    elim (Bool-cases d.allowed) [
      | inl y ↦
          let (early, within, stored, same) =
            spend_allowed terminalize counter amount used limit now r y in
          granted y early within (used_after codec counter r' (used +ℤ amount) stored)
            (same ∙ active)
      | inr n ↦
          let (why, kept, ended) = spend_denied terminalize counter amount used limit now r n in
          denied n why kept
            (ended ∙ ap (if◌then◌else◌ terminalize RunStatus.budget_exhausted) active)
    ]

id-spend :
    (terminalize : Bool) (counter : String) (amount used limit : ℤ) (now : ℕ) (r : Run)
    → (spend terminalize counter amount used limit now r).1.id ≡ r.id
unfolding spend
id-spend terminalize counter amount used limit now r = ground arith

-- When `consume_budget` answers, the run was running. It grants the amount only before the deadline
-- and only if the sum stays within the limit, and then the sum is what the next call reads. It
-- denies for one of these two reasons, and then the budget is as it was, and the run is ended as
-- BUDGET_EXHAUSTED if the caller asked for that, and otherwise goes on.
pub consume_budget_decides :
    (codec : Codec) (k : ℕ) (counter limit_key : String) (amount : ℤ) (now : ℕ) (terminalize : Bool)
    (db db' : Db) (d : BudgetDecision)
    → consume_budget codec k counter limit_key amount now terminalize db ≡ ok (d, db')
    → (r : Run) × (r' : Run) × (limit : ℤ) × (used : ℤ) × (get_run k db ≡ some r)
      × (get_run k db' ≡ some r')
      × (read_limit codec limit_key r ≡ ok limit)
      × (read_used codec counter r ≡ ok used)
      × Decided codec counter amount now terminalize r r' limit used d
consume_budget_decides codec k counter limit_key amount now terminalize db db' d h =
    let (r, limit, used, c) =
      consume_budget-Consumed codec k counter limit_key amount now terminalize db db' d h in
    let r' = (spend terminalize counter amount used limit now r).1 in
    let key : r'.id ≡ k =
      id-spend terminalize counter amount used limit now r ∙ key-row run_key k db.runs r c.found in
    let found : get_run r'.id db ≡ some r = subst (λ i. get_run i db ≡ some r) (sym key) c.found in
    (
      r,
      r',
      limit,
      used,
      c.found,
      subst (λ (x : Db). get_run k x ≡ some r') (sym c.stored)
          (subst (λ i. row run_key i (put run_key r' db.runs) ≡ some r') key
            (row-put_self run_key r' db.runs r found)),
      c.limited,
      c.spent,
      subst (Decided codec counter amount now terminalize r r' limit used) (sym c.decided)
          (spend-Decided codec counter amount now terminalize r limit used c.active),
    )
