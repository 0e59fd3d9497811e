-- ===== src/Reports/Recovery.antt =====
-- The next call after an interruption ends where the interrupted one would have.
use gapforge.Common.{
  ◌≤◌, ◌≡◌, ◌⊎◌, refl, ap, subst, ◌∙◌, inl, inr, Bool, true, false, Option, none, some, arith, ◌==◌,
  nat_eq, string_eq, if◌then◌else◌, length, Bool-cases,
}
use gapforge.Reports.Store.{
  Bytes, Place, latest_file, same_place, regular, Disk, entry_at, replace_file, ReportOutcome,
  refused, read, read_regular_file, Pointer,
}
use gapforge.Reports.Publish.{
  Artifacts, RunReport, pointed, read_pointed_report, Writing, ends, replaces, atomic_replace,
  Artifact, is_content, copy_latest, publish_latest, artifact_of, with_pointer,
}
use gapforge.Reports.Reading.{
  entry_at-replace_file_self, entry_at-replace_file_ne, same_bytes_of_refl, same_bytes_of-eq,
  read_regular_file-found, read_regular_file-some,
}
use gapforge.Reports.Crashes.{Crash, at_once, later, Finishes, ended, replaced}

ends-fields : (a b : Artifact) (d f : Disk) → Finishes (ends a d) b f → (b ≡ a) × (f ≡ d)
ends-fields a b d f ended = (refl, refl)

pub replaces-fields :
    (d : Disk) (w : Writing Artifact) (a : Artifact) (f : Disk)
    → Finishes (replaces d w) a f
    → Finishes w a f
replaces-fields d w a f (replaced h) = h

module _ (c : Artifacts) (r : RunReport) where
  pointed-read :
      (p : Pointer) (o : ReportOutcome (Option Bytes)) (b : Bytes)
      → pointed c p o ≡ read b
      → (o ≡ read (some b)) × (c.sha256 b ≡ p.digest)
  unfolding pointed
  pointed-read p (refused e) b h = absurd (cc)
  pointed-read p (read none) b h = absurd (cc)
  pointed-read p (read (some x)) b h = elim (Bool-cases (c.sha256 x == p.digest)) [
    | inr differs ↦ absurd (cc (rw differs at h))
    | inl same ↦
        let is : x ≡ b = ground (arith, rw same at h) in
        (
          ap (λ z. read (some z)) is,
          subst (λ z. c.sha256 z ≡ p.digest) is
              ((string_eq.agree_iff (c.sha256 x) p.digest).0 same),
        )
  ]

  -- A run of `with_pointer` that ends: the report that it copied, and where it may be interrupted.
  pub record Shown (selected : Pointer) (d : Disk) (a : Artifact) (f : Disk) : Type 0 where
    pub payload : Bytes
    pub report : entry_at selected.place f ≡ some (regular payload)
    pub digest : c.sha256 payload ≡ selected.digest
    pub copied : entry_at latest_file f ≡ some (regular payload)
    pub result : a ≡ artifact_of c r selected
    pub others : (p : Place) → same_place latest_file p ≡ false → entry_at p f ≡ entry_at p d
    pub again : Finishes (with_pointer c r selected f) a f
    pub interrupted : (x : Disk) → Crash d (with_pointer c r selected d) x → (x ≡ d) ⊎ (x ≡ f)

  is_content_self : (b : Bytes) → is_content b (some b) ≡ true
  is_content_self b = same_bytes_of_refl b

  is_content-some : (b : Bytes) (o : Option Bytes) → is_content b o ≡ true → o ≡ some b
  is_content-some b none h = absurd (cc)
  is_content-some b (some x) h = ap some (same_bytes_of-eq x b h)

  -- Where the copy is there, nothing is left to do.
  shown-again :
      (selected : Pointer) (payload : Bytes) (f : Disk)
      → entry_at selected.place f ≡ some (regular payload)
      → entry_at latest_file f ≡ some (regular payload)
      → c.sha256 payload ≡ selected.digest
      → length payload ≤ c.max_report_bytes
      → Finishes (with_pointer c r selected f) (artifact_of c r selected) f
  unfolding with_pointer publish_latest copy_latest read_pointed_report pointed
  shown-again selected payload f report copied digest small =
      let right : (c.sha256 payload == selected.digest) ≡ true =
        (string_eq.agree_iff (c.sha256 payload) selected.digest).1 digest in
      rw
        (
          read_regular_file-found selected.place c.max_report_bytes f payload report small,
          right,
          read_regular_file-found latest_file c.max_report_bytes f payload copied small,
          is_content_self payload,
        )
        ended

  copy_latest-ends :
      (done : Artifact) (payload : Bytes) (d : Disk) (o : ReportOutcome (Option Bytes))
      (a : Artifact) (f : Disk)
      → Finishes (copy_latest c done payload d o) a f
      → (a ≡ done)
        × ((o ≡ read (some payload)) × (f ≡ d) ⊎ (f ≡ replace_file latest_file payload d))
        × ((x : Disk) → Crash d (copy_latest c done payload d o) x → (x ≡ d) ⊎ (x ≡ f))
  unfolding copy_latest
  copy_latest-ends done payload d (refused e) a f h = elim h [ ]
  copy_latest-ends done payload d (read y) a f h = tested (is_content payload y) refl h
    where
      stays : (x : Disk) → Crash d (ends done d) x → (x ≡ d) ⊎ (x ≡ d)
      stays x at_once = inl refl

      moves :
          (x : Disk)
          → Crash d (atomic_replace latest_file payload d (ends done)) x
          → (x ≡ d) ⊎ (x ≡ replace_file latest_file payload d)
      moves x at_once = inl refl
      moves x (later at_once) = inr refl

      tested :
          (b : Bool)
          → is_content payload y ≡ b
          → Finishes
              (if b then ends done d else atomic_replace latest_file payload d (ends done))
              a
              f
          → (a ≡ done)
            × ((◌≡◌ {A = ReportOutcome (Option Bytes)} (read y) (read (some payload))) × (f ≡ d)
                ⊎ (f ≡ replace_file latest_file payload d))
            × ((x : Disk)
                → Crash d
                    (if b then ends done d else atomic_replace latest_file payload d (ends done))
                    x
                → (x ≡ d) ⊎ (x ≡ f))
      tested true e h =
          let (result, same) = ends-fields done a d f h in
          (result, inl (ap read (is_content-some payload y e), same), λ x at. rw same (stays x at))
      tested false e h =
          let (result, same) =
            ends-fields done a (replace_file latest_file payload d) f (replaces-fields _ _ a f h) in
          (result, inr same, λ x at. rw same (moves x at))

  pub with_pointer-Shown :
      (selected : Pointer) (d : Disk) (a : Artifact) (f : Disk)
      → same_place latest_file selected.place ≡ false
      → Finishes (with_pointer c r selected d) a f
      → Shown selected d a f
  unfolding with_pointer publish_latest read_pointed_report
  with_pointer-Shown selected d a f apart h = located (read_pointed_report c selected d) refl h
    where
      done : Artifact
      done = artifact_of c r selected

      located :
          (q : ReportOutcome Bytes)
          → read_pointed_report c selected d ≡ q
          → Finishes (publish_latest c done d q) a f
          → Shown selected d a f
      located (refused e) _ h = elim h [ ]
      located (read payload) e h =
          let (found, digest) =
            pointed-read selected (read_regular_file selected.place c.max_report_bytes d) payload
              e in
          let (report, small) =
            read_regular_file-some selected.place c.max_report_bytes d payload found in
          let (result, which, crashes) =
            copy_latest-ends done payload d (read_regular_file latest_file c.max_report_bytes d) a f
              h in
          let crash : (x : Disk) → Crash d (with_pointer c r selected d) x → (x ≡ d) ⊎ (x ≡ f) =
            λ x at. crashes x (subst (λ q. Crash d (publish_latest c done d q) x) e at) in
          elim which [
            | inl (there, same) ↦
                let (copied, _) =
                  read_regular_file-some latest_file c.max_report_bytes d payload there in
                record {
                  payload = payload;
                  report = rw same report;
                  digest = digest;
                  copied = rw same copied;
                  result = result;
                  others = λ p _. ap (entry_at p) same;
                  again =
                      rw (same, result) (shown-again selected payload d report copied digest small);
                  interrupted = crash;
                }
            | inr written ↦
                let report' : entry_at selected.place (replace_file latest_file payload d)
                    ≡ some (regular payload) =
                  entry_at-replace_file_ne latest_file selected.place payload d apart ∙ report in
                let copied = entry_at-replace_file_self latest_file payload d in
                record {
                  payload = payload;
                  report = rw written report';
                  digest = digest;
                  copied = rw written copied;
                  result = result;
                  others = λ p away.
                      ap (entry_at p) written
                      ∙ entry_at-replace_file_ne latest_file p payload d away;
                  again =
                      rw (written, result)
                        (shown-again selected payload (replace_file latest_file payload d) report'
                          copied digest small);
                  interrupted = crash;
                }
          ]
