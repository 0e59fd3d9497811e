-- ===== src/Queue/Candidates.antt =====
-- The rows that the query of `DurableQueue.claim` ranks, and their order.
use gapforge.Common.{
  ℕ, ◌≤◌, ◌<◌, ◌≡◌, ◌⊎◌, inl, inr, refl, sym, subst, String, Bool, true, false, not, ◌&&◌, Option,
  none, some, List, [], ◌∷◌, Memᴰ, arith, All, All-map, Bool-cases, Option-cases, string_eq, ltb,
}
use gapforge.Common.Int.{ltb_ℤ}
use gapforge.Rows.{row, IsTransitive, IsAsymmetric, lex, lex-IsTransitive, lex-IsAsymmetric}
use gapforge.Queue.Model.{RunStatus, TaskStatus, Run, Task, run_key}
use gapforge.Queue.Repository.{type_allowed, is_claimable, candidates, claims_before}

-- What the query's WHERE clause says of a task and its run.
pub record MayClaim (allowed : Option (List String)) (now : ℕ) (r : Run) (t : Task) : Type 0 where
  pub run_active : r.status ≡ RunStatus.running
  pub in_time : now < r.deadline_at
  pub available : t.available_at ≤ now
  pub permitted : type_allowed allowed t.task_type ≡ true
  pub free :
      (t.status ≡ TaskStatus.pending)
      ⊎ ((t.status ≡ TaskStatus.leased) × ((e : ℕ) × (t.lease_expires_at ≡ some e) × (e < now)))

pub is_claimable-MayClaim :
    (allowed : Option (List String)) (now : ℕ) (r : Run) (t : Task)
    → is_claimable allowed now r t ≡ true
    → MayClaim allowed now r t
unfolding is_claimable
is_claimable-MayClaim allowed now r t h = record {
  run_active = ground arith;
  in_time = ground arith;
  available = ground arith;
  permitted = ground arith;
  free = ground arith;
}

pub MayClaim-is_claimable :
    (allowed : Option (List String)) (now : ℕ) (r : Run) (t : Task)
    → MayClaim allowed now r t
    → is_claimable allowed now r t ≡ true
unfolding is_claimable
MayClaim-is_claimable allowed now r t h =
    ground (arith, h.run_active, h.in_time, h.available, h.permitted, h.free)

module _ (task_locked : ℕ → Bool) (allowed : Option (List String)) (now : ℕ) (runs : List Run) where
  abbrev pub Joined : List Task → Run × Task → Type 0
  Joined ts c =
      Memᴰ c.1 ts
      × (row run_key c.1.run_id runs ≡ some c.0)
      × (is_claimable allowed now c.0 c.1 ≡ true)
      × (task_locked c.1.id ≡ false)

  abbrev rows_of : List Task → List (Run × Task)
  rows_of ts = candidates task_locked allowed now runs ts

  rows_absent :
      (t : Task) (ts : List Task) → row run_key t.run_id runs ≡ none → rows_of (t ∷ ts) ≡ rows_of ts
  unfolding candidates
  rows_absent t ts e = ground arith

  rows_kept :
      (t : Task) (ts : List Task) (r : Run)
      → row run_key t.run_id runs ≡ some r
      → (is_claimable allowed now r t && not (task_locked t.id)) ≡ true
      → rows_of (t ∷ ts) ≡ (r, t) ∷ rows_of ts
  unfolding candidates
  rows_kept t ts r e c = ground arith

  rows_dropped :
      (t : Task) (ts : List Task) (r : Run)
      → row run_key t.run_id runs ≡ some r
      → (is_claimable allowed now r t && not (task_locked t.id)) ≡ false
      → rows_of (t ∷ ts) ≡ rows_of ts
  unfolding candidates
  rows_dropped t ts r e c = ground arith

  pub candidates-Joined : (ts : List Task) → All (Joined ts) (rows_of ts)
  unfolding candidates
  candidates-Joined [] = tt
  candidates-Joined (t ∷ ts) =
      let rest : All (Joined (t ∷ ts)) (rows_of ts) =
        All-map (rows_of ts) (λ c j. (Memᴰ.tail j.0, j.1, j.2, j.3)) (candidates-Joined ts) in
      elim (Option-cases (row run_key t.run_id runs)) [
        | inl e ↦ subst (All (Joined (t ∷ ts))) (sym (rows_absent t ts e)) rest
        | inr (r, e) ↦ elim (Bool-cases (is_claimable allowed now r t && not (task_locked t.id))) [
          | inl kept ↦
              subst (All (Joined (t ∷ ts))) (sym (rows_kept t ts r e kept))
                ((Memᴰ.head refl, e, ground arith, ground arith), rest)
          | inr dropped ↦ subst (All (Joined (t ∷ ts))) (sym (rows_dropped t ts r e dropped)) rest
        ]
      ]

  -- Every task that is claimable and not locked is among the candidates.
  abbrev pub Listed : (Run × Task → Type 0) → Task → Type 0
  Listed P t =
      (r : Run)
      → row run_key t.run_id runs ≡ some r
      → is_claimable allowed now r t ≡ true
      → task_locked t.id ≡ false
      → P (r, t)

  pub candidates-All :
      (P : Run × Task → Type 0) (ts : List Task) → All P (rows_of ts) → All (Listed P) ts
  candidates-All P [] h = tt
  candidates-All P (t ∷ ts) h = elim (Option-cases (row run_key t.run_id runs)) [
    | inl e ↦
        ((λ r e' c l. absurd (cc)), candidates-All P ts (subst (All P) (rows_absent t ts e) h))
    | inr (r, e) ↦ elim (Bool-cases (is_claimable allowed now r t && not (task_locked t.id))) [
      | inl kept ↦
          let h' = subst (All P) (rows_kept t ts r e kept) h in
          ((λ r' e' c l. subst (λ q. P (q, t)) (ground arith) h'.0), candidates-All P ts h'.1)
      | inr dropped ↦ (
        (λ r' e' c l. absurd (drops t r r' e e' c l dropped)),
        candidates-All P ts (subst (All P) (rows_dropped t ts r e dropped) h),
      )
    ]
  ]
    where
      drops :
          (t : Task) (r r' : Run)
          → row run_key t.run_id runs ≡ some r
          → row run_key t.run_id runs ≡ some r'
          → is_claimable allowed now r' t ≡ true
          → task_locked t.id ≡ false
          → (is_claimable allowed now r t && not (task_locked t.id)) ≡ false
          → ⊥
      drops t r r' e e' c l d = ground arith

abbrev by_run : Run × Task → Run × Task → Bool
by_run c d = ltb_ℤ c.0.priority d.0.priority

abbrev by_task : Run × Task → Run × Task → Bool
by_task c d = ltb_ℤ c.1.priority d.1.priority

abbrev by_age : Run × Task → Run × Task → Bool
by_age c d = ltb c.1.created_at d.1.created_at

pub claims_before-IsTransitive : IsTransitive claims_before
unfolding claims_before
claims_before-IsTransitive =
    lex-IsTransitive by_run (lex by_task by_age) (λ x y z h k. ground arith) (λ x y h. ground arith)
      (lex-IsTransitive by_task by_age (λ x y z h k. ground arith) (λ x y h. ground arith)
        (λ x y z h k. ground arith))

pub claims_before-IsAsymmetric : IsAsymmetric claims_before
unfolding claims_before
claims_before-IsAsymmetric =
    lex-IsAsymmetric by_run (lex by_task by_age) (λ x y h. ground arith)
      (lex-IsAsymmetric by_task by_age (λ x y h. ground arith) (λ x y h. ground arith))
