-- ===== src/Reports/Latest.antt =====
-- The pointer to the latest report and its copy, after a call and after an interrupted one.
use gapforge.Common.{
  ◌≤◌, ◌≡◌, ◌⊎◌, refl, sym, ap, subst, ◌∙◌, inl, inr, Bool, true, false, not, ◌&&◌, Option, none,
  some, arith, ◌==◌, nat_eq, string_eq, if◌then◌else◌, length, Bool-cases, String,
}
use gapforge.Reports.Store.{
  Bytes, run_file, pointer_file, latest_file, same_place, regular, Disk, entry_at, replace_file,
  ReportError, ReportOutcome, refused, read, read_regular_file, Pointer, same_pointer,
  same_chronology, chronology_before, text_before, is_digest, is_safe_id,
}
use gapforge.Reports.Publish.{
  Artifacts, RunReport, current_pointer, select_latest_pointer, check_pointer, pointer_of,
  read_latest_pointer, replaces, Artifact, with_pointer, is_selected, point, select_and_point,
  update_latest, max_latest_pointer_bytes,
}
use gapforge.Reports.Reading.{
  entry_at-replace_file_self, entry_at-replace_file_ne, same_bytes_of_refl, same_pointer_refl,
  same_place_refl, same_place-eq, read_regular_file-found,
}
use gapforge.Reports.Crashes.{Crash, at_once, later, Finishes, replaced, SameReports}
use gapforge.Reports.Recovery.{Shown, with_pointer-Shown}

-- What is relied on of SHA-256 and of JSON: the digest is 64 hexadecimal digits, a pointer is read
-- back as it was written, and it fits its file.
pub record Reliable (c : Artifacts) (r : RunReport) : Type 0 where
  pub decodes : c.deserialize (c.serialize (current_pointer c r)) ≡ some (current_pointer c r)
  pub fits : length (c.serialize (current_pointer c r)) ≤ max_latest_pointer_bytes
  pub digests : is_digest (c.sha256 r.rendered) ≡ true

text_same : (s : String) → (s == s) ≡ true
text_same s = (string_eq.agree_iff s s).1 refl

pub text_before_irrefl : (s : String) → text_before s s ≡ false
text_before_irrefl s = ground (arith, text_same s)

pub chronology_before_irrefl : (p : Pointer) → chronology_before p p ≡ false
chronology_before_irrefl p = ground (arith, text_before_irrefl p.run_id)

-- The pointer that is selected: the newest of the two.
pub select-fields :
    (o : Option Pointer) (current selected : Pointer)
    → select_latest_pointer o current ≡ read selected
    → ((selected ≡ current) ⊎ (o ≡ some selected)) × (chronology_before selected current ≡ false)
unfolding select_latest_pointer
select-fields none current selected h =
    let is : current ≡ selected = ground (arith, h) in
    (
      inl (sym is),
      subst (λ p. chronology_before p current ≡ false) is (chronology_before_irrefl current),
    )
select-fields (some e) current selected h =
    elim (Bool-cases (same_chronology e current && not (same_pointer e current))) [
      | inl clash ↦ absurd (cc (rw clash at h))
      | inr fine ↦ elim (Bool-cases (chronology_before e current)) [
        | inl before ↦
            let is : current ≡ selected = ground (arith, rw (fine, before) at h) in
            (
              inl (sym is),
              subst (λ p. chronology_before p current ≡ false) is
                  (chronology_before_irrefl current),
            )
        | inr after ↦
            let is : e ≡ selected = ground (arith, rw (fine, after) at h) in
            (inr (ap some is), subst (λ p. chronology_before p current ≡ false) is after)
      ]
    ]

select_again : (p : Pointer) → select_latest_pointer (some p) p ≡ read p
unfolding select_latest_pointer
select_again p = rw (same_pointer_refl p, chronology_before_irrefl p) (tested (same_chronology p p))
  where
    tested :
        (b : Bool)
        → ◌≡◌ {A = ReportOutcome Pointer}
            (if b && false then refused ReportError.conflict else read p)
            (read p)
    tested true = refl
    tested false = refl

module _ (c : Artifacts) (r : RunReport) where
  read_latest-written :
      (d : Disk)
      → Reliable c r
      → is_safe_id r.run_id ≡ true
      → entry_at pointer_file d ≡ some (regular (c.serialize (current_pointer c r)))
      → read_latest_pointer c d ≡ read (some (current_pointer c r))
  unfolding read_latest_pointer pointer_of check_pointer
  read_latest-written d reliable safe written =
      let b = c.serialize (current_pointer c r) in
      rw
        (
          read_regular_file-found pointer_file max_latest_pointer_bytes d b written reliable.fits,
          reliable.decodes,
          reliable.digests,
          safe,
          same_place_refl (run_file r.started.date r.run_id),
          same_bytes_of_refl b,
        )
        refl

  check_pointer-place :
      (b : Bytes) (o : Option Pointer) (p : Pointer)
      → check_pointer c b o ≡ read (some p)
      → same_place latest_file p.place ≡ false
  unfolding check_pointer
  check_pointer-place b none p h = absurd (cc)
  check_pointer-place b (some q) p h =
      elim (Bool-cases (same_place q.place (run_file q.started.date q.run_id))) [
        | inr differs ↦ absurd (ground (arith, h, differs))
        | inl same ↦
            let is : q ≡ p = ground (arith, h) in
            let at = same_place-eq q.place (run_file q.started.date q.run_id) same in
            subst (λ x. same_place latest_file x.place ≡ false) is (rw at refl)
      ]

  pointer_of-place :
      (o : ReportOutcome (Option Bytes)) (p : Pointer)
      → pointer_of c o ≡ read (some p)
      → same_place latest_file p.place ≡ false
  unfolding pointer_of
  pointer_of-place (refused e) p h = absurd (cc)
  pointer_of-place (read none) p h = absurd (cc)
  pointer_of-place (read (some b)) p h = check_pointer-place b (c.deserialize b) p h

  pub read_latest-replaced :
      (d f : Disk)
      → entry_at pointer_file f ≡ entry_at pointer_file d
      → read_latest_pointer c f ≡ read_latest_pointer c d
  unfolding read_latest_pointer read_regular_file
  read_latest-replaced d f same = rw same refl

  update_latest-kept :
      (existing : Option Pointer) (selected : Pointer) (d : Disk)
      → read_latest_pointer c d ≡ read existing
      → select_latest_pointer existing (current_pointer c r) ≡ read selected
      → is_selected selected existing ≡ true
      → update_latest c r d ≡ with_pointer c r selected d
  unfolding update_latest select_and_point point
  update_latest-kept existing selected d seen chosen kept = rw (seen, chosen, kept) refl

  -- One more update of the pointer and the copy, from the same selection.
  update_again :
      (existing : Option Pointer) (selected : Pointer) (d f : Disk) (a : Artifact)
      → read_latest_pointer c d ≡ read existing
      → select_latest_pointer existing (current_pointer c r) ≡ read selected
      → is_selected selected existing ≡ true
      → Finishes (with_pointer c r selected d) a f
      → Finishes (update_latest c r d) a f
  unfolding update_latest select_and_point point
  update_again existing selected d f a seen chosen kept h = rw (seen, chosen, kept) h

  -- An update that ends: what it shows, and that a second one ends the same, from wherever the first
  -- was interrupted.
  pub record Updated (d : Disk) (a : Artifact) (f : Disk) : Type 0 where
    pub selected : Pointer
    pub pointer : read_latest_pointer c f ≡ read (some selected)
    pub payload : Bytes
    pub report : entry_at selected.place f ≡ some (regular payload)
    pub digest : c.sha256 payload ≡ selected.digest
    pub copied : entry_at latest_file f ≡ some (regular payload)
    pub latest : a.is_latest ≡ same_pointer selected (current_pointer c r)
    pub newest : chronology_before selected (current_pointer c r) ≡ false
    pub origin : (selected ≡ current_pointer c r) ⊎ (read_latest_pointer c d ≡ read (some selected))
    pub reports : SameReports d f
    pub again : (x : Disk) → Crash d (update_latest c r d) x → Finishes (update_latest c r x) a f

  module _ (reliable : Reliable c r) (safe : is_safe_id r.run_id ≡ true) where
    -- The pointer stays: it was the selected one.
    pub kept-Updated :
        (selected : Pointer) (d f : Disk) (a : Artifact)
        → read_latest_pointer c d ≡ read (some selected)
        → select_latest_pointer (some selected) (current_pointer c r) ≡ read selected
        → Finishes (with_pointer c r selected d) a f
        → Updated d a f
    unfolding update_latest select_and_point point
    kept-Updated selected d f a seen chosen h =
        let s = with_pointer-Shown c r selected d a f (pointer_of-place _ selected seen) h in
        let seen' = read_latest-replaced d f (s.others pointer_file refl) ∙ seen in
        let kept = same_pointer_refl selected in
        record {
          selected = selected;
          pointer = seen';
          payload = s.payload;
          report = s.report;
          digest = s.digest;
          copied = s.copied;
          latest = ap (λ x. x.is_latest) s.result;
          newest = (select-fields (some selected) (current_pointer c r) selected chosen).1;
          origin = inr seen;
          reports = λ date id. s.others (run_file date id) refl;
          again = λ x crash. settle x s (s.interrupted x (rw (seen, chosen, kept) at crash));
        }
      where
        settle :
            (x : Disk)
            → Shown c r selected d a f
            → (x ≡ d) ⊎ (x ≡ f)
            → Finishes (update_latest c r x) a f
        settle x s (inl same) =
            rw same (
              update_again (some selected) selected d f a seen chosen (same_pointer_refl selected)
                h)
        settle x s (inr same) = rw same (
            update_again (some selected) selected f f a
              (read_latest-replaced d f (s.others pointer_file refl) ∙ seen) chosen
              (same_pointer_refl selected) s.again)

    -- The pointer moves to the current report.
    pub moved-Updated :
        (existing : Option Pointer) (d f : Disk) (a : Artifact)
        → read_latest_pointer c d ≡ read existing
        → select_latest_pointer existing (current_pointer c r) ≡ read (current_pointer c r)
        → is_selected (current_pointer c r) existing ≡ false
        → Finishes
            (with_pointer c r
              (current_pointer c r)
              (replace_file pointer_file (c.serialize (current_pointer c r)) d))
            a
            f
        → Updated d a f
    unfolding update_latest select_and_point point
    moved-Updated existing d f a seen chosen moved h =
        let current = current_pointer c r in
        let mid = replace_file pointer_file (c.serialize current) d in
        let s = with_pointer-Shown c r current mid a f refl h in
        let seen_mid =
          read_latest-written mid reliable safe
            (entry_at-replace_file_self pointer_file (c.serialize current) d) in
        let u = kept-Updated current mid f a seen_mid (select_again current) h in
        record {
          selected = current;
          pointer = read_latest-replaced mid f (s.others pointer_file refl) ∙ seen_mid;
          payload = s.payload;
          report = s.report;
          digest = s.digest;
          copied = s.copied;
          latest = ap (λ x. x.is_latest) s.result;
          newest = chronology_before_irrefl current;
          origin = inl refl;
          reports = λ date id.
              s.others (run_file date id) refl
              ∙ entry_at-replace_file_ne pointer_file (run_file date id) (c.serialize current) d
                  refl;
          again = λ x crash. settle x u (rw (seen, chosen, moved) at crash);
        }
      where
        current : Pointer
        current = current_pointer c r

        mid : Disk
        mid = replace_file pointer_file (c.serialize current) d

        settle :
            (x : Disk)
            → Updated mid a f
            → Crash d (replaces mid (with_pointer c r current mid)) x
            → Finishes (update_latest c r x) a f
        settle x u at_once = rw (seen, chosen, moved) (replaced h)
        settle x u (later crash) =
            let seen_mid =
              read_latest-written mid reliable safe
                (entry_at-replace_file_self pointer_file (c.serialize current) d) in
            let same =
              update_latest-kept (some current) current mid seen_mid (select_again current)
                (same_pointer_refl current) in
            u.again x (subst (λ w. Crash mid w x) (sym same) crash)
