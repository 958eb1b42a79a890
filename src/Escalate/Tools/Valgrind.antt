-- ===== src/Escalate/Tools/Valgrind.antt =====
-- recompile/re-escalate/src/valgrind.rs: reading the output of valgrind.
use recompile.Base.{
  ℕ, ◌+◌, [], ◌∷◌, ◌&&◌, ◌||◌, not, Bool, Option, none, some, List, map, take, drop, Text, codes,
  for_each, if◌then◌else◌,
}
use recompile.Base.Scan.{trim, trim_start, starts_with, contains, split_once, lines, join}
use recompile.Escalate.Result.{EscalationDetection}
use recompile.Escalate.Tools.{combined, push_detection}

pub record ValgrindReport : Type 0 where
  pub tool : Text
  pub error_summary : Option Text
  pub detected : List EscalationDetection

-- `trimmed.get(2..)` is there behind `==`.
unfoldable pub strip_valgrind_prefix : Text → Text
unfolding split_once
strip_valgrind_prefix line =
    let trimmed = trim_start line in
    if starts_with (codes "==") trimmed
    then elim (split_once (codes "==") (drop 2 trimmed)) [
      | none ↦ trimmed
      | some (before, after) ↦ after
    ]
    else trimmed

abbrev pub normalized : Text → Text
normalized line = trim (strip_valgrind_prefix line)

unfoldable pub context_after : List Text → ℕ → ℕ → Text
unfolding join
context_after ls start count =
    join (10 ∷ []) (map (λ line. normalized line) (take count (drop start ls)))

abbrev pub is_freed : Text → Bool
is_freed context = contains (codes "free'd") context || contains (codes "freed") context

-- The class of the line under an index, and nothing for other lines.
unfoldable pub valgrind_class : List Text → ℕ → Text → Option Text
unfolding contains
valgrind_class ls index line =
    if starts_with (codes "Invalid write of size") line
      || starts_with (codes "Invalid read of size") line
    then some (
        if is_freed (context_after ls index 8)
        then codes "use_after_free"
        else codes "heap_overflow")
    else if starts_with (codes "Invalid free()") line
    then some
        (if is_freed (context_after ls index 10) then codes "double_free" else codes "invalid_free")
    else if starts_with (codes "Mismatched free()") line
    then some (codes "allocator_mismatch")
    else if (contains (codes "definitely lost:") line
          || contains (codes "are definitely lost") line)
        && not (contains (codes "0 bytes") line)
    then some (codes "memory_leak")
    else if starts_with (codes "Open file descriptor ") line
    then some (codes "fd_leak")
    else none

abbrev pub is_error_summary : Text → Bool
is_error_summary line = starts_with (codes "ERROR SUMMARY:") line

-- The body of the loop over the lines.
unfoldable pub valgrind_line : List Text → ℕ → Text → ValgrindReport → ValgrindReport
valgrind_line ls index line report =
    let text = normalized line in
    let error_summary = if is_error_summary text then some text else report.error_summary in
    elim (valgrind_class ls index text) [
      | none ↦ record report { error_summary = error_summary }
      | some class ↦ record report {
        error_summary = error_summary;
        detected = push_detection report.detected class text (index + 1);
      }
    ]

unfoldable pub parse_valgrind_output : Text → Text → ValgrindReport
unfolding lines
parse_valgrind_output stdout stderr =
    let ls = lines (combined stdout stderr) in
    for_each (valgrind_line ls) 0 ls
      (record { tool = codes "valgrind"; error_summary = none; detected = [] })
