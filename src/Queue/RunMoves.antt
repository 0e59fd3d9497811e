-- ===== src/Queue/RunMoves.antt =====
-- Every operation of `RunController` moves a run along the diagram of Queue/Moves.
use gapforge.Common.{
  ℕ, ◌≤◌, ◌≡◌, ◌⊎◌, inl, inr, refl, sym, ap, subst, ◌∙◌, not, ◌&&◌, String, Bool, true, false, some,
  List, [], ◌∷◌, Exn, ok, >>=-eq-ok, raise_if-eq-ok, arith, if◌then◌else◌, Bool-cases, Option-cases,
  any, leb, ltb, ◌||◌,
}
use gapforge.Common.Int.{ℤ, pos, ltb_ℤ, ◌+ℤ◌}
use gapforge.Json.{Json, get_field}
use gapforge.Queue.Model.{RunStatus, Run, Task, Db, get_run, put_run, run_key, is_running}
use gapforge.Rows.{key-row}
use gapforge.Queue.Expiry.{id-expire_run}
use gapforge.Queue.Repository.{is_overdue, exhaust_run, expire_run, expire_overdue_runs}
use gapforge.Queue.Control.{
  Codec, locked_run, run_tasks, Tally, tally, Outcome, decide_outcome, settle, is_open, close_run,
  success_warnings, finalize_found, finalize_if_idle, start_run, started, exhausted, deadline_after,
  positive_int, count_running, flush_runs, start, spend, BudgetDecision, read_limit, read_used,
  consume_budget,
}
use gapforge.Queue.Moves.{RunMove, Keeps, Keeps-refl, Keeps-put, Keeps-map}

abbrev pub Moved : Run → Run → Type 0
Moved r r' = (r' ≡ r) ⊎ RunMove r r'

pub exhaust_run-RunMove :
    (now : ℕ) (by : String) (r : Run)
    → r.status ≡ RunStatus.running
    → RunMove r (exhaust_run now by r)
exhaust_run-RunMove now by r h = ground arith

pub expire_run-Moved : (locked : ℕ → Bool) (now : ℕ) (r : Run) → Moved r (expire_run locked now r)
unfolding expire_run
expire_run-Moved locked now r = elim (Bool-cases (is_overdue now r && not (locked r.id))) [
  | inl late ↦ rw late (inr (exhaust_run-RunMove now "queue_poll" r (ground (arith, late))))
  | inr early ↦ rw early (inl refl)
]

pub settle-RunMove :
    (o : Outcome) (c : Tally) (ts : List Task) (ws : List Json) (now : ℕ) (r : Run)
    → r.status ≡ RunStatus.running
    → RunMove r (settle o c ts ws now r)
unfolding settle
settle-RunMove Outcome.auth_required c ts ws now r h = ground arith
settle-RunMove _ c ts ws now r h = ground arith

pub close_run-Moved :
    (codec : Codec) (ts : List Task) (now : ℕ) (r r' : Run)
    → r.status ≡ RunStatus.running
    → close_run codec ts now r ≡ ok r'
    → Moved r r'
unfolding close_run
close_run-Moved codec [] now r r' s h = inr (ground arith)
close_run-Moved codec (t ∷ ts) now r r' s h = elim (Bool-cases (any is_open (t ∷ ts))) [
  | inl busy ↦ inl (ground (arith, busy))
  | inr idle ↦
      let (ws, _, e) =
        >>=-eq-ok (success_warnings codec [] (t ∷ ts)) (λ ws. ok (settled ws)) r'
          (ground (arith, idle)) in
      inr (
        subst (RunMove r) (ok-injective (settled ws) r' e) (
          settle-RunMove (decide_outcome (tally (t ∷ ts) ws)) (tally (t ∷ ts) ws) (t ∷ ts) ws now r
            s))
]
  where
    settled : List Json → Run
    settled ws = settle (decide_outcome (tally (t ∷ ts) ws)) (tally (t ∷ ts) ws) (t ∷ ts) ws now r

    ok-injective : (a b : Run) → ok a ≡ ok b → a ≡ b
    ok-injective a b e = cc

start_run-from :
    (s : RunStatus) (now : ℕ) (r r' : Run) → r.status ≡ s → start_run s now r ≡ ok r' → Moved r r'
unfolding start_run
start_run-from RunStatus.queued now r r' s h =
    let (minutes, _, rest) =
      >>=-eq-ok (positive_int (get_field "max_run_duration_minutes" r.budget_limits)) _ r' h in
    let (deadline, _, e) = >>=-eq-ok (deadline_after now minutes) _ r' rest in
    inr (moved deadline e)
  where
    moved : (d : ℕ) → ok (started now d r) ≡ ok r' → RunMove r r'
    moved d e = ground (arith, e)
start_run-from RunStatus.running now r r' s h = elim (Bool-cases (leb r.deadline_at now)) [
  | inl late ↦ inr (ground (arith, late))
  | inr early ↦ inl (ground (arith, early))
]
start_run-from _ now r r' s h = absurd (cc)

pub start_run-Moved : (now : ℕ) (r r' : Run) → start_run r.status now r ≡ ok r' → Moved r r'
start_run-Moved now r r' h = start_run-from r.status now r r' refl h

pub spend-Moved :
    (terminalize : Bool) (counter : String) (amount used limit : ℤ) (now : ℕ) (r : Run)
    → r.status ≡ RunStatus.running
    → Moved r (spend terminalize counter amount used limit now r).1
unfolding spend
spend-Moved terminalize counter amount used limit now r s =
    elim (Bool-cases (leb r.deadline_at now || ltb_ℤ limit (used +ℤ amount))) [
      | inl denied ↦ rw denied (stop terminalize)
      | inr granted ↦ rw granted (inr (ground arith))
    ]
  where
    stop : (b : Bool) → Moved r (if b then exhausted now counter used limit r else r)
    stop true = inr (ground arith)
    stop false = inl refl

abbrev pub RunsKeep : Db → Db → Type 0
RunsKeep db db' = Keeps run_key RunMove db.runs db'.runs

pub put_run-RunsKeep :
    (db : Db) (r r' : Run) → get_run r'.id db ≡ some r → Moved r r' → RunsKeep db (put_run r' db)
put_run-RunsKeep db r r' found move = Keeps-put run_key RunMove db.runs r r' found move

pub expire-RunsKeep :
    (locked : ℕ → Bool) (now : ℕ) (db : Db) → RunsKeep db (expire_overdue_runs locked now db)
unfolding expire_overdue_runs
expire-RunsKeep locked now db =
    Keeps-map run_key RunMove (expire_run locked now) db.runs (id-expire_run locked now)
      (expire_run-Moved locked now)

locked_run-eq-ok : (k : ℕ) (db : Db) (r : Run) → locked_run k db ≡ ok r → get_run k db ≡ some r
unfolding locked_run
locked_run-eq-ok k db r h = elim (Option-cases (get_run k db)) [
  | inl e ↦ absurd (ground (arith, e))
  | inr (q, e) ↦ ground (arith, e)
]

-- The id of a run that has moved, as the key under which it is stored.
found-Moved :
    (k : ℕ) (db : Db) (r r' : Run) → get_run k db ≡ some r → Moved r r' → get_run r'.id db ≡ some r
found-Moved k db r r' e m =
    subst (λ i. get_run i db ≡ some r) (sym (id r' m ∙ key-row run_key k db.runs r e)) e
  where
    id : (x : Run) → Moved r x → x.id ≡ r.id
    id x (inl same) = ap run_key same
    id x (inr move) = move.same_id

-- How `finalize_if_idle` ends: it found the run, and let it be or closed it.
pub record Finalized (codec : Codec) (k now : ℕ) (db : Db) (r r' : Run) (db' : Db) : Type 0 where
  pub found : get_run k db ≡ some r
  pub how :
      ((is_running r.status ≡ false) × (r' ≡ r) × (db' ≡ db))
      ⊎ ((r.status ≡ RunStatus.running)
          × (close_run codec (run_tasks k db.tasks) now r ≡ ok r')
          × (db' ≡ put_run r' db))

finalize_from :
    (codec : Codec) (k now : ℕ) (db db' : Db) (r r' : Run) (b : Bool)
    → is_running r.status ≡ b
    → finalize_found codec k now db r b ≡ ok (r', db')
    → ((is_running r.status ≡ false) × (r' ≡ r) × (db' ≡ db))
      ⊎ ((r.status ≡ RunStatus.running)
          × (close_run codec (run_tasks k db.tasks) now r ≡ ok r')
          × (db' ≡ put_run r' db))
unfolding finalize_found
finalize_from codec k now db db' r r' false s h = inl (s, cc, cc)
finalize_from codec k now db db' r r' true s h =
    let (q, e, out) = >>=-eq-ok (close_run codec (run_tasks k db.tasks) now r) _ (r', db') h in
    let same : q ≡ r' = cc in
    inr (ground arith, subst (λ x. close_run codec (run_tasks k db.tasks) now r ≡ ok x) same e, cc)

pub finalize_if_idle-Finalized :
    (codec : Codec) (k now : ℕ) (db db' : Db) (r' : Run)
    → finalize_if_idle codec k now db ≡ ok (r', db')
    → (r : Run) × Finalized codec k now db r r' db'
unfolding finalize_if_idle
finalize_if_idle-Finalized codec k now db db' r' h =
    let (r, e, rest) = >>=-eq-ok (locked_run k db) _ (r', db') h in
    (
      r,
      record {
        found = locked_run-eq-ok k db r e;
        how = finalize_from codec k now db db' r r' (is_running r.status) refl rest;
      },
    )

pub finalize_if_idle-RunsKeep :
    (codec : Codec) (k now : ℕ) (db db' : Db) (r' : Run)
    → finalize_if_idle codec k now db ≡ ok (r', db')
    → RunsKeep db db'
finalize_if_idle-RunsKeep codec k now db db' r' h =
    let (r, f) = finalize_if_idle-Finalized codec k now db db' r' h in
    elim f.how [
      | inl (_, _, same) ↦ subst (RunsKeep db) (sym same) (Keeps-refl run_key RunMove db.runs)
      | inr (s, closed, put) ↦
          let m = close_run-Moved codec (run_tasks k db.tasks) now r r' s closed in
          subst (RunsKeep db) (sym put)
            (put_run-RunsKeep db r r' (found-Moved k db r r' f.found m) m)
    ]

-- How `start` ends: the row it wrote, which the index on running runs has let pass.
pub record Started (k now : ℕ) (db : Db) (r r' : Run) (db' : Db) : Type 0 where
  pub found : get_run k db ≡ some r
  pub moved : start_run r.status now r ≡ ok r'
  pub stored : db' ≡ put_run r' db
  pub single : count_running db'.runs ≤ 1

flush_runs-eq-ok : (db db' : Db) → flush_runs db ≡ ok db' → (db' ≡ db) × (count_running db.runs ≤ 1)
flush_runs-eq-ok db db' h = elim (Bool-cases (ltb 1 (count_running db.runs))) [
  | inl over ↦ absurd (ground (arith, over))
  | inr within ↦ (ground (arith, within), ground arith)
]

pub start-Started :
    (k now : ℕ) (db db' : Db) (r' : Run)
    → start k now db ≡ ok (r', db')
    → (r : Run) × Started k now db r r' db'
unfolding start
start-Started k now db db' r' h =
    let (r, e, rest) = >>=-eq-ok (locked_run k db) _ (r', db') h in
    let (q, moved, rest') = >>=-eq-ok (start_run r.status now r) _ (r', db') rest in
    let (d, flushed, out) = >>=-eq-ok (flush_runs (put_run q db)) _ (r', db') rest' in
    let (same, single) = flush_runs-eq-ok (put_run q db) d flushed in
    let same_run : q ≡ r' = cc in
    let written : d ≡ db' = cc in
    let stored : db' ≡ put_run r' db = sym written ∙ same ∙ ap (λ x. put_run x db) same_run in
    (
      r,
      record {
        found = locked_run-eq-ok k db r e;
        moved = subst (λ x. start_run r.status now r ≡ ok x) same_run moved;
        stored = stored;
        single = subst (λ (x : Db). count_running x.runs ≤ 1) (sym same ∙ written) single;
      },
    )

pub start-RunsKeep :
    (k now : ℕ) (db db' : Db) (r' : Run) → start k now db ≡ ok (r', db') → RunsKeep db db'
start-RunsKeep k now db db' r' h =
    let (r, s) = start-Started k now db db' r' h in
    let m = start_run-Moved now r r' s.moved in
    subst (RunsKeep db) (sym s.stored)
      (put_run-RunsKeep db r r' (found-Moved k db r r' s.found m) m)

-- How `consume_budget` ends: on a running run, with the limit and the use that it read.
pub record Consumed (codec : Codec) (k : ℕ) (counter limit_key : String) (amount : ℤ) (now : ℕ)
    (terminalize : Bool) (db : Db) (d : BudgetDecision) (db' : Db) (r : Run) (limit used : ℤ)
    : Type 0 where
  pub positive : ltb_ℤ amount (pos 1) ≡ false
  pub found : get_run k db ≡ some r
  pub active : r.status ≡ RunStatus.running
  pub limited : read_limit codec limit_key r ≡ ok limit
  pub spent : read_used codec counter r ≡ ok used
  pub decided : d ≡ (spend terminalize counter amount used limit now r).0
  pub stored : db' ≡ put_run (spend terminalize counter amount used limit now r).1 db

pub consume_budget-Consumed :
    (codec : Codec) (k : ℕ) (counter limit_key : String) (amount : ℤ) (now : ℕ) (terminalize : Bool)
    (db db' : Db) (d : BudgetDecision)
    → consume_budget codec k counter limit_key amount now terminalize db ≡ ok (d, db')
    → (r : Run) × (limit : ℤ) × (used : ℤ) × Consumed codec k counter limit_key amount now
        terminalize db d db' r limit used
unfolding consume_budget
consume_budget-Consumed codec k counter limit_key amount now terminalize db db' d h =
    let (positive, h₁) = raise_if-eq-ok (ltb_ℤ amount (pos 1)) Exn.value_error _ (d, db') h in
    let (r, found, h₂) = >>=-eq-ok (locked_run k db) _ (d, db') h₁ in
    let (active, h₃) = raise_if-eq-ok (not (is_running r.status)) Exn.value_error _ (d, db') h₂ in
    let (limit, limited, h₄) = >>=-eq-ok (read_limit codec limit_key r) _ (d, db') h₃ in
    let (used, spent, h₅) = >>=-eq-ok (read_used codec counter r) _ (d, db') h₄ in
    (
      r,
      limit,
      used,
      record {
        positive = positive;
        found = locked_run-eq-ok k db r found;
        active = ground (arith, active);
        limited = limited;
        spent = spent;
        decided = first _ _ h₅;
        stored = second _ _ h₅;
      },
    )
  where
    first : (a b : BudgetDecision × Db) → ok a ≡ ok b → b.0 ≡ a.0
    first a b e = cc

    second : (a b : BudgetDecision × Db) → ok a ≡ ok b → b.1 ≡ a.1
    second a b e = cc

pub consume_budget-RunsKeep :
    (codec : Codec) (k : ℕ) (counter limit_key : String) (amount : ℤ) (now : ℕ) (terminalize : Bool)
    (db db' : Db) (d : BudgetDecision)
    → consume_budget codec k counter limit_key amount now terminalize db ≡ ok (d, db')
    → RunsKeep db db'
consume_budget-RunsKeep codec k counter limit_key amount now terminalize db db' d h =
    let (r, limit, used, c) =
      consume_budget-Consumed codec k counter limit_key amount now terminalize db db' d h in
    let r' = (spend terminalize counter amount used limit now r).1 in
    let m = spend-Moved terminalize counter amount used limit now r c.active in
    subst (RunsKeep db) (sym c.stored)
      (put_run-RunsKeep db r r' (found-Moved k db r r' c.found m) m)
