-- ===== src/Escalate/Tools/Reports.antt =====
-- What the reports of the sanitizers and of valgrind say of the lines of the output.
use recompile.Base.{
  ℕ, ◌≡◌, refl, true, is_some, Option, none, some, List, [], ◌∷◌, ◌++◌, Text, codes, arith, map,
  find_last, if◌then◌else◌, append-nil,
}
use recompile.Base.Scan.{trim, contains, lines}
use recompile.Escalate.Tools.{combined, push_detection}
use recompile.Escalate.Tools.Loops.{Reports, detections, loop-Reports, loop-last}
use recompile.Escalate.Tools.Asan.{
  AsanReport, asan_error_class, is_asan_summary, asan_line, parse_asan_output,
}
use recompile.Escalate.Tools.Lsan.{LsanReport, is_lsan_summary, lsan_line, parse_lsan_output}
use recompile.Escalate.Tools.Ubsan.{UbsanReport, ubsan_error_class, ubsan_line, parse_ubsan_output}
use recompile.Escalate.Tools.Valgrind.{
  ValgrindReport, normalized, is_error_summary, valgrind_class, valgrind_line,
  parse_valgrind_output,
}

abbrev pub asan_class : ℕ → Text → Option Text
asan_class i line = asan_error_class line

asan_line-detected :
    (i : ℕ) (line : Text) (r : AsanReport)
    → (asan_line i line r).detected ≡ r.detected ++ detections asan_class trim i (line ∷ [])
unfolding asan_line push_detection
asan_line-detected i line r = ground (arith, append-nil r.detected)

asan_line-summary :
    (i : ℕ) (line : Text) (r : AsanReport)
    → (asan_line i line r).summary
      ≡ (if is_asan_summary (trim line) then some (trim line) else r.summary)
unfolding asan_line
asan_line-summary i line r = ground arith

-- Each detection of an asan report stands for a line of the output, with the class, the trimmed
-- text and the number of the line; every line with a class has one; their numbers increase. The
-- summary is the last line that holds one.
pub parse_asan-Reports :
    (stdout stderr : Text)
    → let ls = lines (combined stdout stderr) in
      let report = parse_asan_output stdout stderr in
      Reports asan_class trim ls report.detected
      × (report.summary ≡ find_last is_asan_summary (map trim ls))
unfolding parse_asan_output
parse_asan-Reports stdout stderr =
    let ls = lines (combined stdout stderr) in
    let start : AsanReport = record { tool = codes "asan"; summary = none; detected = [] } in
    (
      loop-Reports asan_line asan_class trim (λ r. r.detected) ls start asan_line-detected refl,
      loop-last asan_line is_asan_summary trim (λ r. r.summary) ls start asan_line-summary refl,
    )

-- A line with a leak report, and no other, has a class.
abbrev pub lsan_class : ℕ → Text → Option Text
lsan_class i line =
    if contains (codes "ERROR: LeakSanitizer: detected memory leaks") line
    then some (codes "memory_leak")
    else none

lsan_line-detected :
    (i : ℕ) (line : Text) (r : LsanReport)
    → (lsan_line i line r).detected ≡ r.detected ++ detections lsan_class trim i (line ∷ [])
unfolding lsan_line push_detection
lsan_line-detected i line r = ground (arith, append-nil r.detected)

lsan_line-summary :
    (i : ℕ) (line : Text) (r : LsanReport)
    → (lsan_line i line r).summary
      ≡ (if is_lsan_summary (trim line) then some (trim line) else r.summary)
unfolding lsan_line
lsan_line-summary i line r = refl

-- Each detection of an lsan report stands for a line of the output that reports leaks, with its
-- trimmed text and its number, and every such line has one, in order. The summary is the last
-- line that holds one.
pub parse_lsan-Reports :
    (stdout stderr : Text)
    → let ls = lines (combined stdout stderr) in
      let report = parse_lsan_output stdout stderr in
      Reports lsan_class trim ls report.detected
      × (report.summary ≡ find_last is_lsan_summary (map trim ls))
unfolding parse_lsan_output
parse_lsan-Reports stdout stderr =
    let ls = lines (combined stdout stderr) in
    let start : LsanReport = record { tool = codes "lsan"; summary = none; detected = [] } in
    (
      loop-Reports lsan_line lsan_class trim (λ r. r.detected) ls start lsan_line-detected refl,
      loop-last lsan_line is_lsan_summary trim (λ r. r.summary) ls start lsan_line-summary refl,
    )

-- The lines with a runtime error have the class of the error.
abbrev pub ubsan_class : ℕ → Text → Option Text
ubsan_class i line = if contains (codes "runtime error:") line then ubsan_error_class line else none

ubsan_line-detected :
    (i : ℕ) (line : Text) (r : UbsanReport)
    → (ubsan_line i line r).detected ≡ r.detected ++ detections ubsan_class trim i (line ∷ [])
unfolding ubsan_line push_detection
ubsan_line-detected i line r = ground (arith, append-nil r.detected)

ubsan_error_class_some : (line : Text) → is_some (ubsan_error_class line) ≡ true
unfolding ubsan_error_class
ubsan_error_class_some line = ground arith

-- Each detection of a ubsan report stands for a line of the output with a runtime error, with the
-- class of the error, its trimmed text and its number, in order. No runtime error is left out: a
-- line that holds one has a class.
pub parse_ubsan-Reports :
    (stdout stderr : Text)
    → Reports ubsan_class trim
        (lines (combined stdout stderr))
        (parse_ubsan_output stdout stderr).detected
      × ((i : ℕ) (line : Text)
          → is_some (ubsan_class i line) ≡ contains (codes "runtime error:") line)
unfolding parse_ubsan_output
parse_ubsan-Reports stdout stderr = (
  loop-Reports ubsan_line ubsan_class trim (λ r. r.detected) (lines (combined stdout stderr))
      (record { tool = codes "ubsan"; detected = [] }) ubsan_line-detected refl,
  λ i line. ground (arith, ubsan_error_class_some line),
)

valgrind_line-detected :
    (ls : List Text) (i : ℕ) (line : Text) (r : ValgrindReport)
    → (valgrind_line ls i line r).detected
      ≡ r.detected ++ detections (valgrind_class ls) normalized i (line ∷ [])
unfolding valgrind_line push_detection
valgrind_line-detected ls i line r = ground (arith, append-nil r.detected)

valgrind_line-summary :
    (ls : List Text) (i : ℕ) (line : Text) (r : ValgrindReport)
    → (valgrind_line ls i line r).error_summary
      ≡ (if is_error_summary (normalized line) then some (normalized line) else r.error_summary)
unfolding valgrind_line
valgrind_line-summary ls i line r = ground arith

-- Each detection of a valgrind report stands for a line of the output, with the class that the
-- line has among the lines behind it, its text without the prefix that names the process, and its
-- number; every line with a class has one; their numbers increase. The error summary is the last one.
pub parse_valgrind-Reports :
    (stdout stderr : Text)
    → let ls = lines (combined stdout stderr) in
      let report = parse_valgrind_output stdout stderr in
      Reports (valgrind_class ls) normalized ls report.detected
      × (report.error_summary ≡ find_last is_error_summary (map normalized ls))
unfolding parse_valgrind_output
parse_valgrind-Reports stdout stderr =
    let ls = lines (combined stdout stderr) in
    let start : ValgrindReport = record {
      tool = codes "valgrind";
      error_summary = none;
      detected = [];
    } in
    (
      loop-Reports (valgrind_line ls) (valgrind_class ls) normalized (λ r. r.detected) ls start
          (valgrind_line-detected ls) refl,
      loop-last (valgrind_line ls) is_error_summary normalized (λ r. r.error_summary) ls start
          (valgrind_line-summary ls) refl,
    )
