-- ===== src/Queue/Moves.antt =====
-- The state machines that the queue promises, for tasks and for runs: which rows may become which.
-- The operations are shown to keep to them in Queue/Steps.
use gapforge.Common.{
  ℕ, ◌≤◌, ◌≡◌, ◌⊎◌, inl, inr, refl, ◌∙◌, Bool, true, false, some, List, [], ◌∷◌, ◌++◌, arith,
  is_some, nat_beq, Bool-cases, map,
}
use gapforge.Rows.{row, put, row-put_ne, row-put_self, row-append_some}
use gapforge.Queue.Model.{RunStatus, TaskStatus, Run, Task, is_leased}

abbrev pub task_edge : TaskStatus → TaskStatus → Bool
task_edge TaskStatus.pending TaskStatus.leased = true
task_edge TaskStatus.leased TaskStatus.leased = true
task_edge TaskStatus.leased TaskStatus.pending = true
task_edge TaskStatus.leased TaskStatus.succeeded = true
task_edge TaskStatus.leased TaskStatus.failed = true
task_edge _ _ = false

abbrev pub run_edge : RunStatus → RunStatus → Bool
run_edge RunStatus.queued RunStatus.running = true
run_edge RunStatus.running RunStatus.queued = false
run_edge RunStatus.running RunStatus.cancelled = false
run_edge RunStatus.running _ = true
run_edge _ _ = false

abbrev pub is_terminal_task : TaskStatus → Bool
is_terminal_task TaskStatus.pending = false
is_terminal_task TaskStatus.leased = false
is_terminal_task _ = true

abbrev pub is_terminal_run : RunStatus → Bool
is_terminal_run RunStatus.queued = false
is_terminal_run RunStatus.running = false
is_terminal_run _ = true

-- A legal change of a task: an edge of the diagram, with the identity of the task kept and its
-- attempts never counted down. A lease is recorded exactly while the task is leased, and a terminal
-- task has a completion time.
pub record TaskMove (t t' : Task) : Type 0 where
  pub same_id : t'.id ≡ t.id
  pub same_run : t'.run_id ≡ t.run_id
  pub same_type : t'.task_type ≡ t.task_type
  pub same_key : t'.idempotency_key ≡ t.idempotency_key
  pub same_payload : t'.payload ≡ t.payload
  pub same_limit : t'.max_attempts ≡ t.max_attempts
  pub edge : task_edge t.status t'.status ≡ true
  pub attempts : t.attempt_count ≤ t'.attempt_count
  pub owned : is_some t'.lease_owner ≡ is_leased t'.status
  pub expiring : is_some t'.lease_expires_at ≡ is_leased t'.status
  pub closed : is_terminal_task t'.status ≡ true → is_some t'.completed_at ≡ true

-- A legal change of a run.
pub record RunMove (r r' : Run) : Type 0 where
  pub same_id : r'.id ≡ r.id
  pub same_priority : r'.priority ≡ r.priority
  pub same_limits : r'.budget_limits ≡ r.budget_limits
  pub edge : run_edge r.status r'.status ≡ true
  pub closed : is_terminal_run r'.status ≡ true → is_some r'.completed_at ≡ true

-- Every row of a table is there after a step, as it was or legally moved.
module _ {A : Type 0} (key : A → ℕ) (Move : A → A → Type 0) where
  abbrev pub Keeps : List A → List A → Type 0
  Keeps xs ys =
      (k : ℕ) (x : A)
      → row key k xs ≡ some x
      → (y : A) × (row key k ys ≡ some y) × ((y ≡ x) ⊎ Move x y)

  pub Keeps-refl : (xs : List A) → Keeps xs xs
  Keeps-refl xs k x h = (x, h, inl refl)

  pub Keeps-put :
      (xs : List A) (old new : A)
      → row key (key new) xs ≡ some old
      → (new ≡ old) ⊎ Move old new
      → Keeps xs (put key new xs)
  Keeps-put xs old new found move k x h = elim (Bool-cases (nat_beq k (key new))) [
    | inl same ↦
        let e : k ≡ key new = ground arith in
        (new, rw e (row-put_self key new xs old found), rw (old_is_x e) move)
    | inr other ↦ (x, row-put_ne key k new xs (ground arith) ∙ h, inl refl)
  ]
    where
      old_is_x : k ≡ key new → x ≡ old
      old_is_x e = cc (found, rw e at h)

  pub Keeps-append : (xs ys : List A) → Keeps xs (xs ++ ys)
  Keeps-append xs ys k x h = (x, row-append_some key k xs ys x h, inl refl)

  pub Keeps-map :
      (f : A → A) (xs : List A)
      → ((x : A) → key (f x) ≡ key x)
      → ((x : A) → (f x ≡ x) ⊎ Move x (f x))
      → Keeps xs (map f xs)
  Keeps-map f [] same move k x h = absurd (cc)
  Keeps-map f (y ∷ xs) same move k x h = elim (Bool-cases (nat_beq (key y) k)) [
    | inl here ↦ let e : y ≡ x = ground arith in (f y, ground (arith, same y), rw (← e) (move y))
    | inr there ↦
        let (z, found, how) = Keeps-map f xs same move k x (ground arith) in
        (z, ground (arith, same y), how)
  ]
