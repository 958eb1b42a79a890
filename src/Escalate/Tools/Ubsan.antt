-- ===== src/Escalate/Tools/Ubsan.antt =====
-- recompile/re-escalate/src/ubsan.rs: reading the output of UndefinedBehaviorSanitizer.
use recompile.Base.{
  ℕ, ◌+◌, [], ◌&&◌, ◌||◌, Option, none, some, List, Text, codes, for_each, if◌then◌else◌,
}
use recompile.Base.Scan.{trim, contains, lines}
use recompile.Base.Words.{to_ascii_lowercase}
use recompile.Escalate.Result.{EscalationDetection}
use recompile.Escalate.Tools.{combined, push_detection}

pub record UbsanReport : Type 0 where
  pub tool : Text
  pub detected : List EscalationDetection

unfoldable pub ubsan_error_class : Text → Option Text
unfolding contains
ubsan_error_class line =
    let lower = to_ascii_lowercase line in
    if contains (codes "signed integer overflow") lower
    then some (codes "signed_integer_overflow")
    else if contains (codes "shift exponent") lower
        || contains (codes "shift base") lower
        || contains (codes "left shift of") lower
    then some (codes "shift_out_of_bounds")
    else if contains (codes "null pointer") lower
        || contains (codes "null value") lower
        || contains (codes "member access within null") lower
    then some (codes "null_pointer_use")
    else if contains (codes "misaligned address") lower
        || (contains (codes "requires ") lower
            && contains (codes " byte alignment") lower
            && contains (codes "address ") lower)
    then some (codes "misaligned_pointer")
    else if contains (codes "index ") lower && contains (codes "out of bounds") lower
    then some (codes "bounds")
    else some (codes "undefined_behavior")

-- The body of the loop over the lines.
unfoldable pub ubsan_line : ℕ → Text → UbsanReport → UbsanReport
ubsan_line index line report =
    let normalized = trim line in
    if contains (codes "runtime error:") normalized
    then elim (ubsan_error_class normalized) [
      | none ↦ report
      | some class ↦ record report {
        detected = push_detection report.detected class normalized (index + 1);
      }
    ]
    else report

unfoldable pub parse_ubsan_output : Text → Text → UbsanReport
unfolding lines
parse_ubsan_output stdout stderr =
    for_each ubsan_line 0 (lines (combined stdout stderr))
      (record { tool = codes "ubsan"; detected = [] })
