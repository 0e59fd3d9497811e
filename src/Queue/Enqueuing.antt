-- ===== src/Queue/Enqueuing.antt =====
-- Idempotence of `enqueue`.
use gapforge.Common.{
  ℕ, ◌≤◌, ◌≡◌, ◌⊎◌, inl, inr, refl, ◌∙◌, Bool, true, false, Option, none, some, List, [], ◌∷◌, ◌++◌,
  integrity_error, ok, raise_if-eq-ok, arith, find, find-append_none, find-none, count_if,
  count_if-append, bit, ltb, nat_eq, string_eq, is_some, Bool-cases,
}
use text.Mathlib.TextEquality.{eq_iff}
use gapforge.Queue.Model.{Task, Db, get_run}
use gapforge.Queue.Repository.{same_slot, enqueue_slot, enqueue}

abbrev pub slot_of : Task → Task → Bool
slot_of t = same_slot t.run_id t.idempotency_key

same_slot_self : (t : Task) → slot_of t t ≡ true
same_slot_self t = ground (arith, eq_iff t.idempotency_key t.idempotency_key)

-- Whether the slot was taken, and what became of it.
enqueue_slot-eq-ok :
    (o : Option Task) (t t' : Task) (fresh : Bool) (db db' : Db)
    → enqueue_slot o t db ≡ ok (t', fresh, db')
    → ((o ≡ some t') × (fresh ≡ false) × (db' ≡ db))
      ⊎ ((o ≡ none)
          × (fresh ≡ true)
          × (t' ≡ t)
          × (is_some (get_run t.run_id db) ≡ true)
          × (db' ≡ record db { tasks = db.tasks ++ t ∷ [] }))
unfolding enqueue_slot
enqueue_slot-eq-ok (some x) t t' fresh db db' h =
    inl (ground (arith, h), ground (arith, h), ground (arith, h))
enqueue_slot-eq-ok none t t' fresh db db' h = elim (Bool-cases (is_some (get_run t.run_id db))) [
  | inl there ↦
      inr
        (refl, ground (arith, h, there), ground (arith, h, there), there, ground (arith, h, there))
  | inr absent ↦ absurd (ground (arith, h, absent))
]

abbrev pub slot_count : Task → Db → ℕ
slot_count t db = count_if (slot_of t) db.tasks

enqueue-eq-ok :
    (t t' : Task) (fresh : Bool) (db db' : Db)
    → enqueue t db ≡ ok (t', fresh, db')
    → (ltb t.max_attempts 1 ≡ false)
      × (enqueue_slot (find (slot_of t) db.tasks) t db ≡ ok (t', fresh, db'))
unfolding enqueue
enqueue-eq-ok t t' fresh db db' h =
    raise_if-eq-ok (ltb t.max_attempts 1) integrity_error
      (enqueue_slot (find (slot_of t) db.tasks) t db) (t', fresh, db') h

enqueue-stored :
    (t t' : Task) (fresh : Bool) (db db' : Db)
    → enqueue t db ≡ ok (t', fresh, db')
    → find (slot_of t) db'.tasks ≡ some t'
enqueue-stored t t' fresh db db' h =
    elim (enqueue_slot-eq-ok (find (slot_of t) db.tasks) t t' fresh db db'
      (enqueue-eq-ok t t' fresh db db' h).1) [
        | inl (there, _, same) ↦ rw same there
        | inr (absent, _, here, _, after) ↦
            rw (after, here)
              (find-append_none (slot_of t) db.tasks (t ∷ []) absent ∙ rw (same_slot_self t))
      ]

enqueue_again :
    (t t' again : Task) (fresh : Bool) (db db' : Db)
    → enqueue t db ≡ ok (t', fresh, db')
    → again.run_id ≡ t.run_id
    → again.idempotency_key ≡ t.idempotency_key
    → 1 ≤ again.max_attempts
    → enqueue again db' ≡ ok (t', false, db')
unfolding enqueue enqueue_slot
enqueue_again t t' again fresh db db' h run key most =
    let enough : ltb again.max_attempts 1 ≡ false = ground arith in
    rw (enough, run, key, enqueue-stored t t' fresh db db' h)

enqueue-slot_count :
    (t t' : Task) (fresh : Bool) (db db' : Db)
    → enqueue t db ≡ ok (t', fresh, db')
    → slot_count t db' ≤ slot_count t db ⊎ (slot_count t db' ≡ 1)
enqueue-slot_count t t' fresh db db' h =
    elim (enqueue_slot-eq-ok (find (slot_of t) db.tasks) t t' fresh db db'
      (enqueue-eq-ok t t' fresh db db' h).1) [
        | inl (_, _, same) ↦ inl (rw same (omega arith))
        | inr (absent, _, _, _, after) ↦ inr (rw after (count t db.tasks absent))
      ]
  where
    count :
        (t : Task) (ts : List Task)
        → find (slot_of t) ts ≡ none
        → count_if (slot_of t) (ts ++ t ∷ []) ≡ 1
    count t ts e =
        let zero_before = find-none (slot_of t) ts e in
        let one : bit (slot_of t t) ≡ 1 = rw (same_slot_self t) in
        omega (arith, zero_before, one, count_if-append (slot_of t) ts (t ∷ []))

-- `enqueue` is idempotent, where the slot of the run and the idempotency key holds at most one task.
-- A call that succeeds leaves the task that it returns in the slot, and no second one. The next call
-- for the same slot that permits an attempt, whatever else it asks for, returns that same task as not
-- new and changes nothing.
pub enqueue_idempotent :
    (t t' again : Task) (fresh : Bool) (db db' : Db)
    → enqueue t db ≡ ok (t', fresh, db')
    → slot_count t db ≤ 1
    → again.run_id ≡ t.run_id
    → again.idempotency_key ≡ t.idempotency_key
    → 1 ≤ again.max_attempts
    → (find (slot_of t) db'.tasks ≡ some t')
      × (slot_count t db' ≤ 1)
      × (enqueue again db' ≡ ok (t', false, db'))
enqueue_idempotent t t' again fresh db db' h one run key most = (
  enqueue-stored t t' fresh db db' h,
  elim (enqueue-slot_count t t' fresh db db' h) [
    | inl fewer ↦ omega arith
    | inr single ↦ omega arith
  ],
  enqueue_again t t' again fresh db db' h run key most,
)
