-- ===== src/Planning/Windows.antt =====
-- `stratified_windows` and `collection_windows`. A moment is a number of microseconds, at least a
-- year and a day after the first. A window's share of the budget is its weight in hundredths, over
-- the sum of the weights.
use Prim.Native.Nat.{min}
use gapforge.Common.{
  ℕ, ◌+◌, ◌-◌, ◌*◌, String, ◌||◌, Option, none, some, List, [], ◌∷◌, value_error, Result, ok, err,
  ◌>>◌, raise_if, ltb, leb, if◌then◌else◌,
}

pub data RunMode : Type 0 where
  hunt monitor : RunMode

pub record TimeWindow : Type 0 where
  pub label : String
  pub since : ℕ
  pub until : ℕ
  pub weight : ℕ
  pub total : ℕ

pub record Band : Type 0 where
  pub label : String
  pub recent : ℕ
  pub old : ℕ
  pub weight : ℕ

abbrev pub days : ℕ → ℕ
days n = n * 86400000000

abbrev pub bands : List Band
bands =
    record { label = "0-30"; recent = 0; old = 30; weight = 35 }
    ∷ record { label = "31-90"; recent = 30; old = 90; weight = 25 }
    ∷ record { label = "91-180"; recent = 90; old = 180; weight = 20 }
    ∷ record { label = "181-365"; recent = 180; old = 365; weight = 20 }
    ∷ []

-- The bands that the look-back reaches.
abbrev pub reached : ℕ → List Band → List Band
reached lookback [] = []
reached lookback (b ∷ bs) =
    let rest = reached lookback bs in if leb lookback b.recent then rest else b ∷ rest

abbrev pub weights : List Band → ℕ
weights [] = 0
weights (b ∷ bs) = b.weight + weights bs

abbrev pub window : ℕ → ℕ → ℕ → Band → TimeWindow
window until lookback total b = record {
  label = b.label;
  since = until - days (min b.old lookback);
  until = until - days b.recent;
  weight = b.weight;
  total = total;
}

abbrev pub windows_of : ℕ → ℕ → ℕ → List Band → List TimeWindow
windows_of until lookback total [] = []
windows_of until lookback total (b ∷ bs) =
    window until lookback total b ∷ windows_of until lookback total bs

unfoldable pub stratified_windows : ℕ → ℕ → Result (List TimeWindow)
stratified_windows until lookback = do
  raise_if (ltb lookback 1 || ltb 365 lookback) value_error
  let kept = reached lookback bands
  ok (windows_of until lookback (weights kept) kept)

abbrev pub overlap_window : ℕ → ℕ → TimeWindow
overlap_window since until = record {
  label = "monitor-overlap";
  since = since;
  until = until;
  weight = 1;
  total = 1;
}

unfoldable pub collection_windows : RunMode → ℕ → Option ℕ → ℕ → Result (List TimeWindow)
unfolding stratified_windows
collection_windows hunt until watermark lookback = stratified_windows until lookback
collection_windows monitor until none lookback = err value_error
collection_windows monitor until (some watermark) lookback = do
  let since = watermark - days 1
  raise_if (leb until since) value_error
  ok (overlap_window since until ∷ [])
