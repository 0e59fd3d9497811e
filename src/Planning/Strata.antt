-- ===== src/Planning/Strata.antt =====
-- The windows of a hunt tile the time that it looks back.
use gapforge.Common.{
  ℕ, ◌+◌, ◌-◌, ◌≤◌, ◌<◌, ◌≡◌, ◌⊎◌, inl, inr, refl, sym, subst, false, ◌||◌, List, [], ◌∷◌, ok,
  arith, ltb, take,
}
use gapforge.Planning.Windows.{
  Band, TimeWindow, days, bands, reached, weights, windows_of, stratified_windows,
}

-- The windows lie end to end, the newest first, from `since` up to `until`.
abbrev pub Tiles : ℕ → ℕ → List TimeWindow → Type 0
Tiles since until [] = since ≡ until
Tiles since until (w ∷ ws) = (w.until ≡ until) × (w.since < w.until) × Tiles since w.since ws

-- The sum of the windows' weights, and the total that each of them holds.
abbrev pub weight_sum : List TimeWindow → ℕ
weight_sum [] = 0
weight_sum (w ∷ ws) = w.weight + weight_sum ws

abbrev pub HaveTotal : ℕ → List TimeWindow → Type 0
HaveTotal total [] = Unit
HaveTotal total (w ∷ ws) = (w.total ≡ total) × HaveTotal total ws

abbrev hunt_windows : ℕ → ℕ → List TimeWindow
hunt_windows until lookback =
    let kept = reached lookback bands in windows_of until lookback (weights kept) kept

-- How many bands a look-back reaches.
reach_cases :
    (lookback : ℕ)
    → (lookback ≤ 30)
      ⊎ ((30 < lookback) × (lookback ≤ 90))
      ⊎ ((90 < lookback) × (lookback ≤ 180))
      ⊎ (180 < lookback)
reach_cases lookback = ground arith

abbrev Good : ℕ → ℕ → List Band → Type 0
Good until lookback kept =
    let ws = windows_of until lookback (weights kept) kept in
    Tiles (until - days lookback) until ws × HaveTotal (weight_sum ws) ws × (0 < weight_sum ws)

reached_1 : (lookback : ℕ) → 1 ≤ lookback → lookback ≤ 30 → reached lookback bands ≡ take 1 bands
reached_1 lookback low below = ground arith

good_1 :
    (until lookback : ℕ)
    → 1 ≤ lookback
    → lookback ≤ 30
    → days 366 ≤ until
    → Good until lookback (take 1 bands)
good_1 until lookback low below room =
    ((omega arith, omega arith, omega arith), (refl, tt), omega arith)

reached_2 :
    (lookback : ℕ)
    → 1 ≤ lookback
    → 30 < lookback
    → lookback ≤ 90
    → reached lookback bands ≡ take 2 bands
reached_2 lookback low above below = ground arith

good_2 :
    (until lookback : ℕ)
    → 1 ≤ lookback
    → 30 < lookback
    → lookback ≤ 90
    → days 366 ≤ until
    → Good until lookback (take 2 bands)
good_2 until lookback low above below room = (
  (omega arith, omega arith, (omega arith, omega arith, omega arith)),
  (refl, (refl, tt)),
  omega arith,
)

reached_3 :
    (lookback : ℕ)
    → 1 ≤ lookback
    → 90 < lookback
    → lookback ≤ 180
    → reached lookback bands ≡ take 3 bands
reached_3 lookback low above below = ground arith

good_3 :
    (until lookback : ℕ)
    → 1 ≤ lookback
    → 90 < lookback
    → lookback ≤ 180
    → days 366 ≤ until
    → Good until lookback (take 3 bands)
good_3 until lookback low above below room = (
  (omega arith, omega arith, (omega arith, omega arith, (omega arith, omega arith, omega arith))),
  (refl, (refl, (refl, tt))),
  omega arith,
)

reached_4 :
    (lookback : ℕ)
    → 1 ≤ lookback
    → 180 < lookback
    → lookback ≤ 365
    → reached lookback bands ≡ take 4 bands
reached_4 lookback low above below = ground arith

good_4 :
    (until lookback : ℕ)
    → 1 ≤ lookback
    → 180 < lookback
    → lookback ≤ 365
    → days 366 ≤ until
    → Good until lookback (take 4 bands)
good_4 until lookback low above below room = (
  (
    omega arith,
    omega arith,
    (omega arith, omega arith, (omega arith, omega arith, (omega arith, omega arith, omega arith))),
  ),
  (refl, (refl, (refl, (refl, tt)))),
  omega arith,
)

good :
    (until lookback : ℕ)
    → 1 ≤ lookback
    → lookback ≤ 365
    → days 366 ≤ until
    → Good until lookback (reached lookback bands)
good until lookback low high room = elim (reach_cases lookback) [
  | inl a ↦
      subst (Good until lookback) (sym (reached_1 lookback low a))
        (good_1 until lookback low a room)
  | inr (inl (a, b)) ↦
      subst (Good until lookback) (sym (reached_2 lookback low a b))
        (good_2 until lookback low a b room)
  | inr (inr (inl (a, b))) ↦
      subst (Good until lookback) (sym (reached_3 lookback low a b))
        (good_3 until lookback low a b room)
  | inr (inr (inr a)) ↦
      subst (Good until lookback) (sym (reached_4 lookback low a high))
        (good_4 until lookback low a high room)
]

-- For every look-back of 1 to 365 days from a moment at least 366 days after the first, there are
-- windows, and they cover the time from the end of
-- the look-back up to now, end to end, none empty; their shares of the budget sum up to one.
pub windows_tile :
    (until lookback : ℕ)
    → 1 ≤ lookback
    → lookback ≤ 365
    → days 366 ≤ until
    → (ws : List TimeWindow) × (stratified_windows until lookback ≡ ok ws)
      × Tiles (until - days lookback) until ws
      × HaveTotal (weight_sum ws) ws
      × (0 < weight_sum ws)
unfolding stratified_windows
windows_tile until lookback low high room =
    let fine : (ltb lookback 1 || ltb 365 lookback) ≡ false = ground arith in
    let (tiles, total, some_weight) = good until lookback low high room in
    (hunt_windows until lookback, rw fine refl, tiles, total, some_weight)
