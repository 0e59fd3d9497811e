-- ===== src/Reports/Publish.antt =====
-- `ReportArtifactStore.persist_run`, as the sequence of its replacements.
use gapforge.Common.{
  ℕ, Bool, true, false, not, ◌&&◌, ◌||◌, Option, none, some, [], ◌∷◌, leb, ltb, nat_beq,
  if◌then◌else◌, length, String, ◌==◌, string_eq, any,
}
use gapforge.Queue.Model.{RunStatus, queued, running}
use gapforge.Reports.Store.{
  Bytes, Place, run_file, pointer_file, latest_file, same_place, Disk, replace_file, ReportError,
  conflict, unsafe_path, invalid_state, ReportOutcome, refused, read, read_regular_file, Started,
  Pointer, same_pointer, same_chronology, chronology_before, is_safe_id, is_digest,
}

-- The store's limit; SHA-256 in hexadecimal; the JSON of a pointer, and what is read of such JSON,
-- which is nothing where it has another schema, version or timestamp, or an unaware one.
pub record Artifacts : Type 0 where
  pub max_report_bytes : ℕ
  pub sha256 : Bytes → String
  pub serialize : Pointer → Bytes
  pub deserialize : Bytes → Option Pointer

abbrev pub max_latest_pointer_bytes : ℕ
max_latest_pointer_bytes = 2048

-- The `RunReportData` that persistence looks at. `rendered` is the report's text in UTF-8.
pub record RunReport : Type 0 where
  pub run_id : String
  pub status : RunStatus
  pub started : Started
  pub started_aware : Bool
  pub finished : Option ℕ
  pub finished_aware : Bool
  pub rendered : Bytes

abbrev pub is_terminal_status : RunStatus → Bool
is_terminal_status queued = false
is_terminal_status running = false
is_terminal_status _ = true

-- `_validate_terminal_run`
unfoldable pub validate_terminal_run : RunReport → Option ReportError
validate_terminal_run r =
    if not (is_terminal_status r.status) then some invalid_state else elim r.finished [
      | none ↦ some invalid_state
      | some finished ↦
          if not r.started_aware || (not r.finished_aware || ltb finished r.started.instant)
          then some invalid_state
          else none
    ]

abbrev pub current_pointer : Artifacts → RunReport → Pointer
current_pointer c r = record {
  run_id = r.run_id;
  started = r.started;
  place = run_file r.started.date r.run_id;
  digest = c.sha256 r.rendered;
}

-- `_select_latest_pointer`
unfoldable pub select_latest_pointer : Option Pointer → Pointer → ReportOutcome Pointer
select_latest_pointer none current = read current
select_latest_pointer (some existing) current =
    if same_chronology existing current && not (same_pointer existing current)
    then refused conflict
    else if chronology_before existing current
    then read current
    else read existing

abbrev pub same_bytes_of : Bytes → Bytes → Bool
same_bytes_of [] [] = true
same_bytes_of (x ∷ xs) (y ∷ ys) = nat_beq x y && same_bytes_of xs ys
same_bytes_of _ _ = false

-- The checks of `_read_latest_pointer` on what the JSON holds.
unfoldable pub check_pointer : Artifacts → Bytes → Option Pointer → ReportOutcome (Option Pointer)
check_pointer c b none = refused unsafe_path
check_pointer c b (some p) =
    if not (is_digest p.digest)
    then refused unsafe_path
    else if not (is_safe_id p.run_id)
    then refused unsafe_path
    else if not (same_place p.place (run_file p.started.date p.run_id))
    then refused unsafe_path
    else if not (same_bytes_of b (c.serialize p))
    then refused unsafe_path
    else read (some p)

unfoldable pub pointer_of :
    Artifacts → ReportOutcome (Option Bytes) → ReportOutcome (Option Pointer)
unfolding check_pointer
pointer_of c (refused e) = refused e
pointer_of c (read none) = read none
pointer_of c (read (some b)) = check_pointer c b (c.deserialize b)

-- `_read_latest_pointer`
unfoldable pub read_latest_pointer : Artifacts → Disk → ReportOutcome (Option Pointer)
unfolding pointer_of read_regular_file
read_latest_pointer c d = pointer_of c (read_regular_file pointer_file max_latest_pointer_bytes d)

unfoldable pub pointed : Artifacts → Pointer → ReportOutcome (Option Bytes) → ReportOutcome Bytes
pointed c p (refused e) = refused e
pointed c p (read none) = refused unsafe_path
pointed c p (read (some b)) = if not (c.sha256 b == p.digest) then refused conflict else read b

-- `_read_pointed_report`
unfoldable pub read_pointed_report : Artifacts → Pointer → Disk → ReportOutcome Bytes
unfolding pointed read_regular_file
read_pointed_report c p d = pointed c p (read_regular_file p.place c.max_report_bytes d)

-- A run of the code on the disk: an exception, an end, or a replacement and what comes after it.
pub data Writing {ℓ} (A : Type ℓ) : Type ℓ where
  raises : ReportError → Writing A
  ends : A → Disk → Writing A
  replaces : Disk → Writing A → Writing A

-- `_atomic_replace`
abbrev pub atomic_replace {ℓ} : {A : Type ℓ} → Place → Bytes → Disk → (Disk → Writing A) → Writing A
atomic_replace p b d rest = let d' = replace_file p b d in replaces d' (rest d')

pub record Artifact : Type 0 where
  pub run_place : Place
  pub content_sha256 : String
  pub is_latest : Bool

abbrev pub is_content : Bytes → Option Bytes → Bool
is_content b none = false
is_content b (some x) = same_bytes_of x b

-- The copy of the latest report.
unfoldable pub copy_latest :
    Artifacts → Artifact → Bytes → Disk → ReportOutcome (Option Bytes) → Writing Artifact
copy_latest c done payload d (refused e) = raises e
copy_latest c done payload d (read x) =
    if is_content payload x then ends done d else atomic_replace latest_file payload d (ends done)

unfoldable pub publish_latest : Artifacts → Artifact → Disk → ReportOutcome Bytes → Writing Artifact
unfolding copy_latest read_regular_file
publish_latest c done d (refused e) = raises e
publish_latest c done d (read payload) =
    copy_latest c done payload d (read_regular_file latest_file c.max_report_bytes d)

abbrev pub artifact_of : Artifacts → RunReport → Pointer → Artifact
artifact_of c r selected = record {
  run_place = run_file r.started.date r.run_id;
  content_sha256 = c.sha256 r.rendered;
  is_latest = same_pointer selected (current_pointer c r);
}

unfoldable pub with_pointer : Artifacts → RunReport → Pointer → Disk → Writing Artifact
unfolding publish_latest read_pointed_report
with_pointer c r selected d =
    publish_latest c (artifact_of c r selected) d (read_pointed_report c selected d)

abbrev pub is_selected : Pointer → Option Pointer → Bool
is_selected selected none = false
is_selected selected (some existing) = same_pointer existing selected

unfoldable pub point :
    Artifacts → RunReport → Disk → Option Pointer → ReportOutcome Pointer → Writing Artifact
unfolding with_pointer
point c r d existing (refused e) = raises e
point c r d existing (read selected) =
    if is_selected selected existing
    then with_pointer c r selected d
    else atomic_replace pointer_file (c.serialize selected) d (with_pointer c r selected)

unfoldable pub select_and_point :
    Artifacts → RunReport → Disk → ReportOutcome (Option Pointer) → Writing Artifact
unfolding point select_latest_pointer
select_and_point c r d (refused e) = raises e
select_and_point c r d (read existing) =
    point c r d existing (select_latest_pointer existing (current_pointer c r))

unfoldable pub update_latest : Artifacts → RunReport → Disk → Writing Artifact
unfolding select_and_point read_latest_pointer
update_latest c r d = select_and_point c r d (read_latest_pointer c d)

-- The report itself, under the lock.
unfoldable pub persist_report :
    Artifacts → RunReport → Disk → ReportOutcome (Option Bytes) → Writing Artifact
unfolding update_latest
persist_report c r d (refused e) = raises e
persist_report c r d (read (some existing)) =
    if not (same_bytes_of existing r.rendered) then raises conflict else update_latest c r d
persist_report c r d (read none) =
    atomic_replace (run_file r.started.date r.run_id) r.rendered d (update_latest c r)

abbrev pub has_nul : Bytes → Bool
has_nul b = any (λ x. nat_beq x 0) b

-- The guards before the lock, `usable` telling whether the directories could be prepared.
unfoldable pub check_report : Artifacts → Bool → RunReport → Option ReportError
unfolding validate_terminal_run is_safe_id
check_report c usable r = elim (validate_terminal_run r) [
  | some e ↦ some e
  | none ↦
      if not usable || not (is_safe_id r.run_id)
      then some unsafe_path
      else if not (leb 1 (length r.rendered) && leb (length r.rendered) c.max_report_bytes)
      then some unsafe_path
      else if has_nul r.rendered
      then some unsafe_path
      else none
]

-- `persist_run`
unfoldable pub persist_run : Artifacts → Bool → RunReport → Disk → Writing Artifact
unfolding persist_report check_report read_regular_file
persist_run c usable r d = elim (check_report c usable r) [
  | some e ↦ raises e
  | none ↦
      persist_report c r d
        (read_regular_file (run_file r.started.date r.run_id) c.max_report_bytes d)
]
