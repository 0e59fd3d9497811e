-- ===== src/Reports/Store.antt =====
-- The files of the reports directory, and the pointer to the latest report.
use Prim.Native.Nat.{Ordering}
use Prim.Native.Char.{code}
use Prim.Native.String.{String, count, compare}
use gapforge.Common.{
  ℕ, Bool, true, false, not, ◌&&◌, ◌||◌, Option, none, some, List, [], ◌∷◌, leb, ltb, nat_beq, ◌==◌,
  nat_eq, string_eq, if◌then◌else◌, length,
}

abbrev pub Bytes : Type 0
Bytes = List ℕ

-- A file by its path below the reports directory: `<date>/run-<id>.md`, `.latest.json`, `latest.md`.
pub data Place : Type 0 where
  run_file : String → String → Place
  pointer_file latest_file : Place

abbrev pub same_place : Place → Place → Bool
same_place (run_file d i) (run_file e j) = d == e && i == j
same_place pointer_file pointer_file = true
same_place latest_file latest_file = true
same_place _ _ = false

-- What stands at a path: a regular file, or something else.
pub data Entry : Type 0 where
  regular : Bytes → Entry
  special : Entry

abbrev pub Disk : Type 0
Disk = List (Place × Entry)

abbrev pub entry_at : Place → Disk → Option Entry
entry_at p [] = none
entry_at p ((q, e) ∷ d) = if same_place q p then some e else entry_at p d

-- The replacement of a file by a complete one.
abbrev pub replace_file : Place → Bytes → Disk → Disk
replace_file p b [] = (p, regular b) ∷ []
replace_file p b ((q, e) ∷ d) =
    let rest = replace_file p b d in if same_place q p then (q, regular b) ∷ d else (q, e) ∷ rest

pub data ReportError : Type 0 where
  conflict unsafe_path invalid_state : ReportError

pub data ReportOutcome {ℓ} (A : Type ℓ) : Type ℓ where
  refused : ReportError → ReportOutcome A
  read : A → ReportOutcome A

-- `_read_regular_file`
unfoldable pub read_entry : ℕ → Option Entry → ReportOutcome (Option Bytes)
read_entry limit none = read none
read_entry limit (some special) = refused unsafe_path
read_entry limit (some (regular b)) =
    if ltb limit (length b) then refused unsafe_path else read (some b)

unfoldable pub read_regular_file : Place → ℕ → Disk → ReportOutcome (Option Bytes)
unfolding read_entry
read_regular_file p limit d = read_entry limit (entry_at p d)

-- An aware `datetime`: its instant, and its own date.
pub record Started : Type 0 where
  pub instant : ℕ
  pub date : String

-- `_LatestPointer`
pub record Pointer : Type 0 where
  pub run_id : String
  pub started : Started
  pub place : Place
  pub digest : String

-- The comparison of the dataclass; datetimes are equal where their instants are.
abbrev pub same_pointer : Pointer → Pointer → Bool
same_pointer p q =
    p.run_id == q.run_id
    && (p.started.instant == q.started.instant
        && (same_place p.place q.place && p.digest == q.digest))

abbrev pub text_before : String → String → Bool
text_before s t = elim (compare s t) [ Ordering.lt ↦ true | _ ↦ false ]

-- `chronology`: equality, and the order of the pairs.
abbrev pub same_chronology : Pointer → Pointer → Bool
same_chronology p q = p.started.instant == q.started.instant && p.run_id == q.run_id

abbrev pub chronology_before : Pointer → Pointer → Bool
chronology_before p q =
    ltb p.started.instant q.started.instant
    || (p.started.instant == q.started.instant && text_before p.run_id q.run_id)

-- A character of a safe run id.
unfoldable pub is_safe_character : ℕ → Bool
is_safe_character c =
    (leb 97 c && leb c 122)
    || ((leb 65 c && leb c 90) || ((leb 48 c && leb c 57) || (nat_beq c 45 || nat_beq c 95)))

unfoldable pub all_safe : String → Bool
unfolding is_safe_character
all_safe String.[] = true
all_safe (String.◌∷◌ c s) = is_safe_character (code c) && all_safe s

-- The guard of `run_report_paths`.
unfoldable pub is_safe_id : String → Bool
unfolding all_safe
is_safe_id s = not (s == "") && all_safe s

unfoldable pub is_hex_digit : ℕ → Bool
is_hex_digit c = (leb 48 c && leb c 57) || (leb 97 c && leb c 102)

unfoldable pub all_hex : String → Bool
unfolding is_hex_digit
all_hex String.[] = true
all_hex (String.◌∷◌ c s) = is_hex_digit (code c) && all_hex s

-- `re.fullmatch(r"[0-9a-f]{64}", s)`
unfoldable pub is_digest : String → Bool
unfolding all_hex
is_digest s = nat_beq (count s) 64 && all_hex s
