-- ===== src/Reports/Examples.antt =====
-- A first report, and the same call after a crash between its replacements.
use gapforge.Common.{◌≡◌, refl, true, some, [], ◌∷◌, arith, String}
use gapforge.Queue.Model.{RunStatus}
use gapforge.Reports.Store.{
  run_file, pointer_file, latest_file, Disk, regular, entry_at, read_entry, read_regular_file,
  Pointer, is_safe_id, all_safe, is_safe_character, is_digest, all_hex, is_hex_digit,
}
use gapforge.Reports.Publish.{
  Artifacts, RunReport, validate_terminal_run, check_report, persist_run, persist_report,
  update_latest, read_latest_pointer, pointer_of, check_pointer, select_and_point,
  select_latest_pointer, point, with_pointer, read_pointed_report, pointed, publish_latest,
  copy_latest, artifact_of,
}
use gapforge.Reports.Crashes.{Crash, at_once, later, Finishes, ended, replaced, reports_stay}
use gapforge.Reports.Latest.{Reliable}
use gapforge.Reports.Persisted.{interruption_repaired, IsPublished, latest-IsPublished}

abbrev hex : String
hex = "0123456789abcdef0123456789abcdef0123456789abcdef0123456789abcdef"

abbrev a_report : RunReport
a_report = record {
  run_id = "r1";
  status = RunStatus.completed;
  started = record { instant = 100; date = "2025-01-02" };
  started_aware = true;
  finished = some 200;
  finished_aware = true;
  rendered = 35 ∷ 10 ∷ [];
}

abbrev one_pointer : Pointer
one_pointer = record {
  run_id = "r1";
  started = record { instant = 100; date = "2025-01-02" };
  place = run_file "2025-01-02" "r1";
  digest = hex;
}

abbrev artifacts : Artifacts
artifacts = record {
  max_report_bytes = 1000;
  sha256 = λ _. hex;
  serialize = λ _. 123 ∷ 125 ∷ [];
  deserialize = λ _. some one_pointer;
}

reliable : Reliable artifacts a_report
unfolding is_digest all_hex is_hex_digit
reliable = record { decodes = refl; fits = omega arith; digests = refl }

abbrev fresh : Disk
fresh = []

abbrev written : Disk
written = (run_file "2025-01-02" "r1", regular (35 ∷ 10 ∷ [])) ∷ []

abbrev pointing : Disk
pointing =
    (run_file "2025-01-02" "r1", regular (35 ∷ 10 ∷ []))
    ∷ (pointer_file, regular (123 ∷ 125 ∷ []))
    ∷ []

abbrev complete : Disk
complete =
    (run_file "2025-01-02" "r1", regular (35 ∷ 10 ∷ []))
    ∷ (pointer_file, regular (123 ∷ 125 ∷ []))
    ∷ (latest_file, regular (35 ∷ 10 ∷ []))
    ∷ []

finishes :
    Finishes
      (persist_run artifacts true a_report fresh)
      (artifact_of artifacts a_report one_pointer)
      complete
unfolding persist_run check_report validate_terminal_run is_safe_id all_safe is_safe_character
    persist_report update_latest read_latest_pointer pointer_of check_pointer select_and_point
    select_latest_pointer point with_pointer read_pointed_report pointed publish_latest copy_latest
    read_regular_file read_entry
finishes = replaced (replaced (replaced ended))

crashes : Crash fresh (persist_run artifacts true a_report fresh) pointing
unfolding persist_run check_report validate_terminal_run is_safe_id all_safe is_safe_character
    persist_report update_latest read_latest_pointer pointer_of check_pointer select_and_point
    select_latest_pointer point with_pointer read_pointed_report pointed publish_latest copy_latest
    read_regular_file read_entry
crashes = later (later at_once)

interruption_repaired_example :
    Finishes
      (persist_run artifacts true a_report pointing)
      (artifact_of artifacts a_report one_pointer)
      complete
interruption_repaired_example =
    interruption_repaired artifacts a_report reliable true fresh pointing complete
      (artifact_of artifacts a_report one_pointer) finishes crashes

latest-IsPublished_example :
    IsPublished artifacts a_report reliable fresh
      (artifact_of artifacts a_report one_pointer)
      complete
latest-IsPublished_example =
    latest-IsPublished artifacts a_report reliable true fresh complete
      (artifact_of artifacts a_report one_pointer) finishes

again : Crash written (persist_run artifacts true a_report written) pointing
unfolding persist_run check_report validate_terminal_run is_safe_id all_safe is_safe_character
    persist_report update_latest read_latest_pointer pointer_of check_pointer select_and_point
    select_latest_pointer point with_pointer read_pointed_report pointed publish_latest copy_latest
    read_regular_file read_entry
again = later at_once

reports_stay_example :
    entry_at (run_file "2025-01-02" "r1") pointing ≡ some (regular (35 ∷ 10 ∷ []))
reports_stay_example =
    reports_stay artifacts true a_report written pointing "2025-01-02" "r1" (regular (35 ∷ 10 ∷ []))
      again refl
