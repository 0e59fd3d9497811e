-- ===== src/Planning/Shares.antt =====
-- The signal budget is never exceeded, and no source gets more than its cap.
use Prim.Native.Nat.{max}
use native.Mathlib.Nat.{div-add-mod, mod-lt}
use gapforge.Common.{
  ℕ, zero, suc, ◌+◌, ◌-◌, ◌*◌, ◌/◌, ◌%◌, ◌≤◌, ◌<◌, ◌≡◌, subst, ◌||◌, List, [], ◌∷◌, value_error, ok,
  raise_if-eq-ok, arith, ltb, length, take, All,
}
use gapforge.Planning.Allocation.{
  Source, unique_sources, share, allot, allocated, allocate_unique, allocate_signal_budget,
}

abbrev pub total_of : List (Source × ℕ) → ℕ
total_of [] = 0
total_of (c ∷ cs) = c.1 + total_of cs

-- The share of a source is at least one signal, and at most 100 and half the budget, or one.
abbrev pub IsFair : ℕ → Source × ℕ → Type 0
IsFair total c = (1 ≤ c.1) × (c.1 ≤ 100) × (c.1 ≤ max 1 (total / 2))

suc-times : (n m : ℕ) → suc n * m ≡ m + n * m
suc-times n m = grind arith

total_of-allot :
    (fair remainder cap index : ℕ) (ss : List Source)
    → total_of (allot fair remainder cap index ss) ≤ length ss * fair + (remainder - index)
unfolding allot
total_of-allot fair remainder cap index [] = omega arith
total_of-allot fair remainder cap index (s ∷ ss) =
    step (length ss * fair) (suc (length ss) * fair)
      (total_of (allot fair remainder cap (index + 1) ss)) (suc-times (length ss) fair)
      (total_of-allot fair remainder cap (index + 1) ss)
  where
    step :
        (p q t : ℕ)
        → q ≡ fair + p
        → t ≤ p + (remainder - (index + 1))
        → share fair remainder cap index + t ≤ q + (remainder - index)
    step p q t e h = ground (arith, e, h)

All-allot :
    (fair remainder total index : ℕ) (ss : List Source)
    → 1 ≤ fair
    → All (IsFair total) (allot fair remainder (max 1 (total / 2)) index ss)
unfolding allot
All-allot fair remainder total index [] h = tt
All-allot fair remainder total index (s ∷ ss) h =
    ((omega arith, omega arith, omega arith), All-allot fair remainder total (index + 1) ss h)

length-take : (n : ℕ) (ss : List Source) → length (take n ss) ≤ n
length-take zero ss = omega arith
length-take (suc n) [] = omega arith
length-take (suc n) (s ∷ ss) = omega (arith, length-take n ss)

quotient_pos : (total n : ℕ) → 1 ≤ n → n ≤ total → 1 ≤ total / n
quotient_pos total n low high =
    large (total / n) (div-add-mod total n) (mod-lt total {m = n} (omega arith))
  where
    large : (q : ℕ) → n * q + total % n ≡ total → total % n < n → 1 ≤ q
    large zero e h = grind (arith, e, h)
    large (suc q) e h = omega arith

fair_total : (total : ℕ) (ss : List Source) → total_of (allocated total ss) ≤ total
fair_total total ss =
    close (length ss * (total / length ss)) (total % length ss) (total_of (allocated total ss))
      (div-add-mod total (length ss))
      (total_of-allot (total / length ss) (total % length ss) (max 1 (total / 2)) 0 ss)
  where
    close : (p r t : ℕ) → p + r ≡ total → t ≤ p + (r - 0) → t ≤ total
    close p r t e h = omega arith

allocate_unique-eq-ok :
    (total : ℕ) (s : Source) (ss : List Source) (shares : List (Source × ℕ))
    → allocate_unique total (s ∷ ss) ≡ ok shares
    → (1 ≤ total) × (total ≤ 300) × (allocated total (take total (s ∷ ss)) ≡ shares)
unfolding allocate_unique
allocate_unique-eq-ok total s ss shares h =
    let (fine, done) = raise_if-eq-ok (ltb total 1 || ltb 300 total) value_error _ shares h in
    (ground (arith, fine), ground (arith, fine), same (allocated total (take total (s ∷ ss))) done)
  where
    same : (xs : List (Source × ℕ)) → ok xs ≡ ok shares → xs ≡ shares
    same xs e = ground (arith, e)

-- The shares of the sources add up to no more than the budget, and each of them is fair.
pub signal_budget_respected :
    (sources : List Source) (total : ℕ) (shares : List (Source × ℕ))
    → allocate_signal_budget sources total ≡ ok shares
    → (total_of shares ≤ total) × All (IsFair total) shares
unfolding allocate_signal_budget
signal_budget_respected sources total shares h = by_unique (unique_sources sources) h
  where
    selected_fair :
        (s : Source) (ss : List Source)
        → 1 ≤ total
        → All (IsFair total) (allocated total (take total (s ∷ ss)))
    selected_fair s ss low =
        All-allot (total / length (take total (s ∷ ss))) (total % length (take total (s ∷ ss)))
          total 0 (take total (s ∷ ss))
          (quotient_pos total (length (take total (s ∷ ss))) (filled total low)
            (length-take total (s ∷ ss)))
      where
        filled : (n : ℕ) → 1 ≤ n → 1 ≤ length (take n (s ∷ ss))
        filled zero l = absurd (ground (arith, l))
        filled (suc n) l = omega arith

    by_unique :
        (us : List Source)
        → allocate_unique total us ≡ ok shares
        → (total_of shares ≤ total) × All (IsFair total) shares
    by_unique [] e = none_left shares (ground (arith, e))
      where
        none_left :
            (xs : List (Source × ℕ)) → xs ≡ [] → (total_of xs ≤ total) × All (IsFair total) xs
        none_left [] x = (omega arith, tt)
        none_left (y ∷ ys) x = absurd (cc)
    by_unique (s ∷ ss) e =
        let (low, _, is) = allocate_unique-eq-ok total s ss shares e in
        (
          subst (λ x. total_of x ≤ total) is (fair_total total (take total (s ∷ ss))),
          subst (All (IsFair total)) is (selected_fair s ss low),
        )
