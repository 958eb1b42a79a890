-- ===== src/Escalate/Tools/Lsan.antt =====
-- recompile/re-escalate/src/lsan.rs: reading the output of LeakSanitizer.
use recompile.Base.{
  ℕ, ◌+◌, [], Bool, Option, none, some, List, Text, codes, for_each, if◌then◌else◌,
}
use recompile.Base.Scan.{trim, contains, lines}
use recompile.Escalate.Result.{EscalationDetection}
use recompile.Escalate.Tools.{combined, push_detection}

pub record LsanReport : Type 0 where
  pub tool : Text
  pub summary : Option Text
  pub detected : List EscalationDetection

abbrev pub is_lsan_summary : Text → Bool
is_lsan_summary line = contains (codes "SUMMARY: LeakSanitizer:") line

-- The body of the loop over the lines.
unfoldable pub lsan_line : ℕ → Text → LsanReport → LsanReport
lsan_line index line report =
    let normalized = trim line in
    record report {
      summary = if is_lsan_summary normalized then some normalized else report.summary;
      detected =
          if contains (codes "ERROR: LeakSanitizer: detected memory leaks") normalized
          then push_detection report.detected (codes "memory_leak") normalized (index + 1)
          else report.detected;
    }

unfoldable pub parse_lsan_output : Text → Text → LsanReport
unfolding lines
parse_lsan_output stdout stderr =
    for_each lsan_line 0 (lines (combined stdout stderr))
      (record { tool = codes "lsan"; summary = none; detected = [] })
