-- ===== src/Planning/Examples.antt =====
-- A hunt of a hundred days, and a budget for three sources.
use gapforge.Common.{ℕ, ◌-◌, ◌≤◌, ◌<◌, ◌≡◌, refl, List, [], ◌∷◌, ok, arith, All}
use gapforge.Planning.Windows.{TimeWindow, days, stratified_windows}
use gapforge.Planning.Strata.{Tiles, HaveTotal, weight_sum, windows_tile}
use gapforge.Planning.Allocation.{
  Source, reddit, github, brave, allot, allocate_unique, allocate_signal_budget,
}
use gapforge.Planning.Shares.{total_of, IsFair, signal_budget_respected}

windows_tile_example :
    (ws : List TimeWindow) × (stratified_windows (days 700000) 100 ≡ ok ws)
    × Tiles (days 700000 - days 100) (days 700000) ws
    × HaveTotal (weight_sum ws) ws
    × (0 < weight_sum ws)
windows_tile_example = windows_tile (days 700000) 100 (omega arith) (omega arith) (omega arith)

abbrev shares : List (Source × ℕ)
shares = (brave, 34) ∷ (github, 33) ∷ (reddit, 33) ∷ []

allocates : allocate_signal_budget (reddit ∷ github ∷ brave ∷ github ∷ []) 100 ≡ ok shares
unfolding allocate_signal_budget allocate_unique allot
allocates = refl

signal_budget_respected_example : (total_of shares ≤ 100) × All (IsFair 100) shares
signal_budget_respected_example =
    signal_budget_respected (reddit ∷ github ∷ brave ∷ github ∷ []) 100 shares allocates
