-- ===== src/Escalate/Tools/Asan.antt =====
-- recompile/re-escalate/src/asan.rs: reading the output of AddressSanitizer.
use recompile.Base.{
  ℕ, ◌+◌, [], ◌||◌, Bool, Option, none, some, List, Text, codes, for_each, if◌then◌else◌,
}
use recompile.Base.Scan.{trim, contains, lines}
use recompile.Escalate.Result.{EscalationDetection}
use recompile.Escalate.Tools.{combined, push_detection}

pub record AsanReport : Type 0 where
  pub tool : Text
  pub summary : Option Text
  pub detected : List EscalationDetection

unfoldable pub asan_error_class : Text → Option Text
unfolding contains
asan_error_class line =
    if contains (codes "ERROR: AddressSanitizer: heap-buffer-overflow") line
    then some (codes "heap_overflow")
    else if contains (codes "ERROR: AddressSanitizer: heap-use-after-free") line
    then some (codes "use_after_free")
    else if contains (codes "ERROR: AddressSanitizer: attempting double-free") line
    then some (codes "double_free")
    else if contains
        (codes "ERROR: AddressSanitizer: attempting free on address which was not malloc()-ed") line
    then some (codes "invalid_free")
    else if contains (codes "ERROR: LeakSanitizer: detected memory leaks") line
        || contains (codes "ERROR: AddressSanitizer: detected memory leaks") line
    then some (codes "memory_leak")
    else none

abbrev pub is_asan_summary : Text → Bool
is_asan_summary line =
    contains (codes "SUMMARY: AddressSanitizer:") line
    || contains (codes "SUMMARY: LeakSanitizer:") line

-- The body of the loop over the lines.
unfoldable pub asan_line : ℕ → Text → AsanReport → AsanReport
asan_line index line report =
    let normalized = trim line in
    let summary = if is_asan_summary normalized then some normalized else report.summary in
    elim (asan_error_class normalized) [
      | none ↦ record report { summary = summary }
      | some error_class ↦ record report {
        summary = summary;
        detected = push_detection report.detected error_class normalized (index + 1);
      }
    ]

unfoldable pub parse_asan_output : Text → Text → AsanReport
unfolding lines
parse_asan_output stdout stderr =
    for_each asan_line 0 (lines (combined stdout stderr))
      (record { tool = codes "asan"; summary = none; detected = [] })
