-- ===== src/Reports/Persisted.antt =====
-- `persist_run` as a whole: what it leaves, and that it can be repeated.
use gapforge.Common.{
  ◌≤◌, ◌≡◌, ◌⊎◌, refl, sym, ap, subst, ◌∙◌, inl, inr, Bool, true, false, not, ◌&&◌, ◌||◌,
  &&-eq-true, Option, none, some, arith, leb, ◌==◌, nat_eq, string_eq, if◌then◌else◌, length,
  Bool-cases,
}
use gapforge.Reports.Store.{
  Bytes, Place, run_file, pointer_file, latest_file, same_place, regular, Disk, entry_at,
  replace_file, ReportError, ReportOutcome, refused, read, read_regular_file, Pointer, same_pointer,
  same_chronology, chronology_before, text_before, is_safe_id,
}
use gapforge.Reports.Publish.{
  Artifacts, RunReport, current_pointer, select_latest_pointer, same_bytes_of, read_latest_pointer,
  Writing, raises, atomic_replace, Artifact, with_pointer, is_selected, point, select_and_point,
  update_latest, persist_report, check_report, has_nul, validate_terminal_run, persist_run,
}
use gapforge.Reports.Reading.{
  entry_at-replace_file_self, entry_at-replace_file_ne, same_bytes_of_refl, same_bytes_of-eq,
  same_pointer_refl, read_regular_file-found, read_regular_file-some,
}
use gapforge.Reports.Crashes.{
  Crash, at_once, later, Finishes, Beside-SameReports, update_latest-Beside,
}
use gapforge.Reports.Recovery.{replaces-fields}
use gapforge.Reports.Latest.{
  read_latest-replaced, Reliable, Updated, kept-Updated, moved-Updated, select-fields,
  text_before_irrefl,
}

same_pointer-chronology : (p q : Pointer) → same_pointer p q ≡ true → chronology_before p q ≡ false
same_pointer-chronology p q h =
    let (ids, h₁) = &&-eq-true (p.run_id == q.run_id) _ h in
    let (instants, _) = &&-eq-true (p.started.instant == q.started.instant) _ h₁ in
    let same_id : p.run_id ≡ q.run_id = (string_eq.agree_iff p.run_id q.run_id).0 ids in
    let before : text_before p.run_id q.run_id ≡ false =
      subst (λ i. text_before p.run_id i ≡ false) same_id (text_before_irrefl p.run_id) in
    ground (arith, instants, before)

-- The pointer that is written is another one than the one that is there.
select-kept :
    (o : Option Pointer) (current selected : Pointer)
    → select_latest_pointer o current ≡ read selected
    → is_selected selected o ≡ true
    → o ≡ some selected
unfolding select_latest_pointer
select-kept none current selected h kept = absurd (cc)
select-kept (some e) current selected h kept =
    elim (Bool-cases (same_chronology e current && not (same_pointer e current))) [
      | inl clash ↦ absurd (cc (rw clash at h))
      | inr fine ↦ elim (Bool-cases (chronology_before e current)) [
        | inl before ↦
            let is : current ≡ selected = ground (arith, rw (fine, before) at h) in
            let after = same_pointer-chronology e selected kept in
            absurd (cc (subst (λ p. chronology_before e p ≡ true) is before, after))
        | inr after ↦ ap some (ground (arith, rw (fine, after) at h))
      ]
    ]

select-moved :
    (o : Option Pointer) (current selected : Pointer)
    → select_latest_pointer o current ≡ read selected
    → is_selected selected o ≡ false
    → selected ≡ current
select-moved o current selected h moved = elim (select-fields o current selected h).0 [
  | inl is ↦ is
  | inr there ↦
      absurd
        (cc (same_pointer_refl selected, subst (λ x. is_selected selected x ≡ false) there moved))
]

module _ (c : Artifacts) (r : RunReport) (reliable : Reliable c r)
    (safe : is_safe_id r.run_id ≡ true) where
  point-Updated :
      (existing : Option Pointer) (q : ReportOutcome Pointer) (d f : Disk) (a : Artifact)
      → read_latest_pointer c d ≡ read existing
      → select_latest_pointer existing (current_pointer c r) ≡ q
      → Finishes (point c r d existing q) a f
      → Updated c r d a f
  unfolding point
  point-Updated existing (refused e) d f a seen chosen h = elim h [ ]
  point-Updated existing (read selected) d f a seen chosen h =
      elim (Bool-cases (is_selected selected existing)) [
        | inl kept ↦
            let there = select-kept existing (current_pointer c r) selected chosen kept in
            kept-Updated c r reliable safe selected d f a (seen ∙ ap read there)
              (subst (λ o. select_latest_pointer o (current_pointer c r) ≡ read selected) there
                chosen)
              (rw kept at h)
        | inr moved ↦
            let is = select-moved existing (current_pointer c r) selected chosen moved in
            moved-Updated c r reliable safe existing d f a seen (chosen ∙ ap read is)
              (subst (λ p. is_selected p existing ≡ false) is moved)
              (subst
                (λ p.
                  Finishes (with_pointer c r p (replace_file pointer_file (c.serialize p) d)) a f)
                is (replaces-fields _ _ a f (rw moved at h)))
      ]

  select_and_point-Updated :
      (o : ReportOutcome (Option Pointer)) (d f : Disk) (a : Artifact)
      → read_latest_pointer c d ≡ o
      → Finishes (select_and_point c r d o) a f
      → Updated c r d a f
  unfolding select_and_point
  select_and_point-Updated (refused e) d f a seen h = elim h [ ]
  select_and_point-Updated (read existing) d f a seen h = point-Updated existing _ d f a seen refl h

  update-Updated :
      (d f : Disk) (a : Artifact) → Finishes (update_latest c r d) a f → Updated c r d a f
  unfolding update_latest
  update-Updated d f a h = select_and_point-Updated (read_latest_pointer c d) d f a refl h

-- The guards that have let a report pass.
check_report-none :
    (c : Artifacts) (usable : Bool) (r : RunReport)
    → check_report c usable r ≡ none
    → (is_safe_id r.run_id ≡ true) × (length r.rendered ≤ c.max_report_bytes)
unfolding check_report
check_report-none c usable r h = guarded (validate_terminal_run r) h
  where
    guarded :
        (o : Option ReportError)
        → ◌≡◌ {A = Option ReportError}
            (elim o [
              | some e ↦ some e
              | none ↦
                  if not usable || not (is_safe_id r.run_id)
                  then some ReportError.unsafe_path
                  else if not
                      (leb 1 (length r.rendered) && leb (length r.rendered) c.max_report_bytes)
                  then some ReportError.unsafe_path
                  else if has_nul r.rendered
                  then some ReportError.unsafe_path
                  else none
            ])
            none
        → (is_safe_id r.run_id ≡ true) × (length r.rendered ≤ c.max_report_bytes)
    guarded (some e) h = absurd (cc)
    guarded none h = (ground (arith, h), ground (arith, h))

module _ (c : Artifacts) (r : RunReport) (reliable : Reliable c r) where
  abbrev pub own_place : Place
  own_place = run_file r.started.date r.run_id

  -- A run past the guards that ends: the report is there, and the rest is an update.
  record Done (d : Disk) (w : Writing Artifact) (a : Artifact) (f : Disk) : Type 0 where
    base : Disk
    written : entry_at own_place base ≡ some (regular r.rendered)
    updated : Updated c r base a f
    before : ((x : Disk) → Crash d w x → (x ≡ d) ⊎ Crash base (update_latest c r base) x)
    start : (p : Place) → same_place own_place p ≡ false → entry_at p base ≡ entry_at p d

  persist_report-Done :
      (d f : Disk) (a : Artifact) (o : ReportOutcome (Option Bytes))
      → is_safe_id r.run_id ≡ true
      → read_regular_file own_place c.max_report_bytes d ≡ o
      → Finishes (persist_report c r d o) a f
      → Done d (persist_report c r d o) a f
  unfolding persist_report
  persist_report-Done d f a (refused e) safe found h = elim h [ ]
  persist_report-Done d f a (read (some existing)) safe found h =
      elim (Bool-cases (same_bytes_of existing r.rendered)) [
        | inr differs ↦ elim (rw differs at h) [ ]
        | inl same ↦
            let is = same_bytes_of-eq existing r.rendered same in
            let (there, _) = read_regular_file-some own_place c.max_report_bytes d existing found in
            record {
              base = d;
              written = there ∙ ap (λ b. some (regular b)) is;
              updated = update-Updated c r reliable safe d f a (rw same at h);
              before = λ x crash. inr (rw same at crash);
              start = λ p _. refl;
            }
      ]
  persist_report-Done d f a (read none) safe found h =
      let base = replace_file own_place r.rendered d in
      record {
        base = base;
        written = entry_at-replace_file_self own_place r.rendered d;
        updated = update-Updated c r reliable safe base f a (replaces-fields _ _ a f h);
        before = crashes;
        start = λ p away. entry_at-replace_file_ne own_place p r.rendered d away;
      }
    where
      crashes :
          (x : Disk)
          → Crash d (atomic_replace own_place r.rendered d (update_latest c r)) x
          → (x ≡ d)
            ⊎ Crash
                (replace_file own_place r.rendered d)
                (update_latest c r (replace_file own_place r.rendered d))
                x
      crashes x at_once = inl refl
      crashes x (later crash) = inr crash

  -- The next call finds the report, and goes on with the update.
  persist_report-again :
      (x f : Disk) (a : Artifact)
      → length r.rendered ≤ c.max_report_bytes
      → entry_at own_place x ≡ some (regular r.rendered)
      → Finishes (update_latest c r x) a f
      → Finishes (persist_report c r x (read_regular_file own_place c.max_report_bytes x)) a f
  unfolding persist_report
  persist_report-again x f a small there h =
      rw
        (
          read_regular_file-found own_place c.max_report_bytes x r.rendered there small,
          same_bytes_of_refl r.rendered,
        )
        h

  persist_run-checked :
      (usable : Bool) (d : Disk)
      → check_report c usable r ≡ none
      → persist_run c usable r d
        ≡ persist_report c r d (read_regular_file own_place c.max_report_bytes d)
  unfolding persist_run
  persist_run-checked usable d h = rw (h, persist_run) refl

  persist_run-passes :
      (usable : Bool) (d f : Disk) (a : Artifact)
      → Finishes (persist_run c usable r d) a f
      → check_report c usable r ≡ none
  unfolding persist_run
  persist_run-passes usable d f a h = guarded (check_report c usable r) h
    where
      guarded :
          (o : Option ReportError)
          → Finishes
              (elim o [
                | some e ↦ raises e
                | none ↦ persist_report c r d (read_regular_file own_place c.max_report_bytes d)
              ])
              a
              f
          → o ≡ none
      guarded (some e) h = elim h [ ]
      guarded none h = refl

  persist_run-Done :
      (usable : Bool) (d f : Disk) (a : Artifact)
      → Finishes (persist_run c usable r d) a f
      → Done d (persist_run c usable r d) a f
  persist_run-Done usable d f a h =
      let passes = persist_run-passes usable d f a h in
      let checked = persist_run-checked usable d passes in
      subst (λ w. Done d w a f) (sym checked)
        (persist_report-Done d f a (read_regular_file own_place c.max_report_bytes d)
          (check_report-none c usable r passes).0 refl (subst (λ w. Finishes w a f) checked h))

  -- Wherever a call of `persist_run` that would have ended is interrupted, the next call for the same
  -- run ends with the same result and leaves the same files. A call that has ended can be repeated.
  pub interruption_repaired :
      (usable : Bool) (d x f : Disk) (a : Artifact)
      → Finishes (persist_run c usable r d) a f
      → Crash d (persist_run c usable r d) x
      → Finishes (persist_run c usable r x) a f
  interruption_repaired usable d x f a h crash =
      let passes = persist_run-passes usable d f a h in
      let done = persist_run-Done usable d f a h in
      elim (done.before x crash) [
        | inl same ↦ rw same h
        | inr at ↦
            let there =
              Beside-SameReports done.base x _ (update_latest-Beside c r done.base) at
                r.started.date r.run_id
              ∙ done.written in
            subst (λ w. Finishes w a f) (sym (persist_run-checked usable x passes))
              (persist_report-again x f a (check_report-none c usable r passes).1 there
                (done.updated.again x at))
      ]

  -- What a call that ends leaves: the report under its name; a pointer to a report, the newer of the
  -- current one and the one that was pointed to; and the copy of that report, whose digest is the
  -- pointer's.
  pub record IsPublished (d : Disk) (a : Artifact) (f : Disk) : Type 0 where
    pub selected : Pointer
    pub payload : Bytes
    pub own : entry_at own_place f ≡ some (regular r.rendered)
    pub pointer : read_latest_pointer c f ≡ read (some selected)
    pub report : entry_at selected.place f ≡ some (regular payload)
    pub copied : entry_at latest_file f ≡ some (regular payload)
    pub digest : c.sha256 payload ≡ selected.digest
    pub newest : chronology_before selected (current_pointer c r) ≡ false
    pub origin : (selected ≡ current_pointer c r) ⊎ (read_latest_pointer c d ≡ read (some selected))
    pub latest : a.is_latest ≡ same_pointer selected (current_pointer c r)

  pub latest-IsPublished :
      (usable : Bool) (d f : Disk) (a : Artifact)
      → Finishes (persist_run c usable r d) a f
      → IsPublished d a f
  latest-IsPublished usable d f a h =
      let done = persist_run-Done usable d f a h in
      let u = done.updated in
      record {
        selected = u.selected;
        payload = u.payload;
        own = u.reports r.started.date r.run_id ∙ done.written;
        pointer = u.pointer;
        report = u.report;
        copied = u.copied;
        digest = u.digest;
        newest = u.newest;
        origin = from_start done u.origin;
        latest = u.latest;
      }
    where
      from_start :
          (done : Done d (persist_run c usable r d) a f)
          → (done.updated.selected ≡ current_pointer c r)
            ⊎ (read_latest_pointer c done.base ≡ read (some done.updated.selected))
          → (done.updated.selected ≡ current_pointer c r)
            ⊎ (read_latest_pointer c d ≡ read (some done.updated.selected))
      from_start done (inl is) = inl is
      from_start done (inr was) =
          inr (sym (read_latest-replaced c r d done.base (done.start pointer_file refl)) ∙ was)
