-- ===== src/Reports/Crashes.antt =====
-- What a crash or a failed replacement leaves, and what the next call makes of it.
use gapforge.Common.{
  ◌≡◌, refl, ◌∙◌, inl, inr, Bool, false, Option, none, some, nat_eq, string_eq, Bool-cases, String,
}
use gapforge.Reports.Store.{
  Bytes, Place, run_file, pointer_file, latest_file, same_place, Entry, Disk, entry_at,
  replace_file, ReportError, ReportOutcome, refused, read, read_regular_file, Pointer,
}
use gapforge.Reports.Publish.{
  Artifacts, RunReport, same_bytes_of, read_latest_pointer, Writing, raises, ends, replaces,
  Artifact, is_content, copy_latest, publish_latest, artifact_of, with_pointer, is_selected, point,
  select_and_point, update_latest, persist_report, check_report, persist_run,
}
use gapforge.Reports.Reading.{entry_at-replace_file_ne, same_place-eq, read_regular_file-none}

-- The disks at which a run may be interrupted: before each replacement, and at the end.
pub data Crash {ℓ} {A : Type ℓ} : Disk → Writing A → Disk → Type ℓ where
  at_once : {d : Disk} {w : Writing A} → Crash d w d
  later : {d d' x : Disk} {w : Writing A} → Crash d' w x → Crash d (replaces d' w) x

-- A run that ends, with what it returns and the disk that it leaves.
pub data Finishes {ℓ} {A : Type ℓ} : Writing A → A → Disk → Type ℓ where
  ended : {a : A} {d : Disk} → Finishes (ends a d) a d
  replaced : {d f : Disk} {w : Writing A} {a : A} → Finishes w a f → Finishes (replaces d w) a f

abbrev pub SameReports : Disk → Disk → Type 0
SameReports d x = (date id : String) → entry_at (run_file date id) x ≡ entry_at (run_file date id) d

-- A run that replaces only files beside the reports.
pub data Beside : Disk → Writing Artifact → Type 0 where
  raised : {d : Disk} (e : ReportError) → Beside d (raises e)
  stopped : {d : Disk} (a : Artifact) → Beside d (ends a d)
  beside :
      {d : Disk} (p : Place) (b : Bytes) {w : Writing Artifact}
      → ((date id : String) → same_place p (run_file date id) ≡ false)
      → Beside (replace_file p b d) w
      → Beside d (replaces (replace_file p b d) w)

pub Beside-SameReports :
    (d x : Disk) (w : Writing Artifact) → Beside d w → Crash d w x → SameReports d x
Beside-SameReports d x w q at_once date id = refl
Beside-SameReports d x _ (beside p b {w = w} away q) (later h) date id =
    Beside-SameReports (replace_file p b d) x w q h date id
    ∙ entry_at-replace_file_ne p (run_file date id) b d (away date id)

module _ (c : Artifacts) (r : RunReport) where
  copy_latest-Beside :
      (done : Artifact) (payload : Bytes) (d : Disk) (o : ReportOutcome (Option Bytes))
      → Beside d (copy_latest c done payload d o)
  unfolding copy_latest
  copy_latest-Beside done payload d (refused e) = raised e
  copy_latest-Beside done payload d (read y) = elim (Bool-cases (is_content payload y)) [
    | inl there ↦ rw there (stopped done)
    | inr gone ↦ rw gone (beside latest_file payload (λ date id. refl) (stopped done))
  ]

  publish_latest-Beside :
      (done : Artifact) (d : Disk) (o : ReportOutcome Bytes) → Beside d (publish_latest c done d o)
  unfolding publish_latest
  publish_latest-Beside done d (refused e) = raised e
  publish_latest-Beside done d (read payload) = copy_latest-Beside done payload d _

  with_pointer-Beside : (selected : Pointer) (d : Disk) → Beside d (with_pointer c r selected d)
  unfolding with_pointer
  with_pointer-Beside selected d = publish_latest-Beside (artifact_of c r selected) d _

  point-Beside :
      (d : Disk) (existing : Option Pointer) (o : ReportOutcome Pointer)
      → Beside d (point c r d existing o)
  unfolding point
  point-Beside d existing (refused e) = raised e
  point-Beside d existing (read selected) = elim (Bool-cases (is_selected selected existing)) [
    | inl kept ↦ rw kept (with_pointer-Beside selected d)
    | inr moved ↦ rw moved (
        beside pointer_file (c.serialize selected) (λ date id. refl)
          (with_pointer-Beside selected _))
  ]

  select_and_point-Beside :
      (d : Disk) (o : ReportOutcome (Option Pointer)) → Beside d (select_and_point c r d o)
  unfolding select_and_point
  select_and_point-Beside d (refused e) = raised e
  select_and_point-Beside d (read existing) = point-Beside d existing _

  pub update_latest-Beside : (d : Disk) → Beside d (update_latest c r d)
  unfolding update_latest
  update_latest-Beside d = select_and_point-Beside d (read_latest_pointer c d)

  persist_report-kept :
      (d x : Disk) (o : ReportOutcome (Option Bytes))
      → read_regular_file (run_file r.started.date r.run_id) c.max_report_bytes d ≡ o
      → Crash d (persist_report c r d o) x
      → (date id : String) (e : Entry) → entry_at (run_file date id) d ≡ some e
      → entry_at (run_file date id) x ≡ some e
  unfolding persist_report
  persist_report-kept d x (refused _) found at_once date id e h = h
  persist_report-kept d x (read (some existing)) found crash date id e h =
      elim (Bool-cases (same_bytes_of existing r.rendered)) [
        | inl same ↦
            Beside-SameReports d x _ (update_latest-Beside d) (rw same at crash) date id ∙ h
        | inr differs ↦
            Beside-SameReports d x _ (raised ReportError.conflict) (rw differs at crash) date id ∙ h
      ]
  persist_report-kept d x (read none) found at_once date id e h = h
  persist_report-kept d x (read none) found (later crash) date id e h =
      elim (Bool-cases (same_place (run_file r.started.date r.run_id) (run_file date id))) [
        | inl same ↦
            let place = same_place-eq (run_file r.started.date r.run_id) (run_file date id) same in
            let absent =
              read_regular_file-none (run_file r.started.date r.run_id) c.max_report_bytes d
                found in
            absurd (cc (rw place at absent))
        | inr other ↦
            Beside-SameReports _ x _ (update_latest-Beside _) crash date id
            ∙ entry_at-replace_file_ne (run_file r.started.date r.run_id) (run_file date id)
                r.rendered d other
            ∙ h
      ]

-- A report that is there stays as it is: wherever `persist_run` of any run is interrupted, by a crash
-- or by a replacement that fails, and however it ends.
pub reports_stay :
    (c : Artifacts) (usable : Bool) (r : RunReport) (d x : Disk) (date id : String) (e : Entry)
    → Crash d (persist_run c usable r d) x
    → entry_at (run_file date id) d ≡ some e
    → entry_at (run_file date id) x ≡ some e
unfolding persist_run
reports_stay c usable r d x date id e crash found = guarded (check_report c usable r) x crash
  where
    guarded :
        (o : Option ReportError) (y : Disk)
        → Crash d
            (elim o [
              | some refusal ↦ raises refusal
              | none ↦
                  persist_report c r d
                    (read_regular_file (run_file r.started.date r.run_id) c.max_report_bytes d)
            ])
            y
        → entry_at (run_file date id) y ≡ some e
    guarded (some refusal) y at_once = found
    guarded none y h = persist_report-kept c r d y _ refl h date id e found
