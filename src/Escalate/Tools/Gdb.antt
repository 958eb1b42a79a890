-- ===== src/Escalate/Tools/Gdb.antt =====
-- recompile/re-escalate/src/gdb.rs: reading the output of gdb.
use recompile.Base.{
  ℕ, ◌+◌, [], ◌∷◌, ◌&&◌, ◌||◌, ◌>>=◌, ◌==◌, not, Bool, Option, none, some, List, all, any, find,
  keep, map, take, drop, position, filter_map, head?, Text, codes, text_eq, is_some, opt_map,
  unwrap_or, if◌then◌else◌,
}
use recompile.Base.Scan.{
  trim, trim_end_of, is_whitespace, starts_with, strip_prefix, contains, split_once, lines, join,
}
use recompile.Base.Words.{split_whitespace, split_once_at, is_ascii_digit}
use recompile.Escalate.Result.{EscalationDetection, is_empty}
use recompile.Escalate.Tools.{is_blank}

pub record GdbReport : Type 0 where
  pub tool : Text
  pub confirmed : Bool
  pub signal_name : Option Text
  pub signal_line : Option Text
  pub crash_frames : List Text
  pub registers : List Text
  pub detected : List EscalationDetection

-- The streams that are not blank.
unfoldable pub combined_parts : Text → Text → Text
unfolding join
combined_parts stdout stderr =
    join (10 ∷ []) (keep (λ part. not (is_blank part)) (stdout ∷ stderr ∷ []))

unfoldable pub extract_signal_name : Text → Option Text
unfolding split_once
extract_signal_name line = split_once (codes "Program received signal") line >>= λ found.
    let tail = trim found.1 in
    let signal = unwrap_or (opt_map (λ parts. parts.0) (split_once (codes ",") tail)) tail in
    let name = trim_end_of (λ c. c == b'.') (trim signal) in
    if is_empty name then none else some name

unfoldable pub stable_gdb_frame : Text → Option Text
unfolding split_whitespace
stable_gdb_frame line =
    let trimmed = trim line in
    if starts_with (codes "#") trimmed
    then (head? (split_whitespace trimmed) >>= λ frame_number.
        if is_some (strip_prefix (codes "#") frame_number)
          && all is_ascii_digit (drop 1 frame_number)
        then some trimmed
        else none)
    else none

register_names : List Text
register_names =
    map codes ("rip" ∷ "rsp" ∷ "rbp" ∷ "pc" ∷ "sp" ∷ "fp" ∷ "lr" ∷ "x0" ∷ "x1" ∷ "x2" ∷ "x3" ∷ [])

unfoldable pub is_likely_register_name : Text → Bool
unfolding register_names
is_likely_register_name name =
    any (text_eq name) register_names
    || (starts_with (codes "r") name && all is_ascii_digit (drop 1 name))
    || (starts_with (codes "x") name && all is_ascii_digit (drop 1 name))

unfoldable pub register_line : Text → Option Text
unfolding split_once_at
register_line line =
    let trimmed = trim line in
    split_once_at is_whitespace trimmed >>= λ parts.
    if is_likely_register_name parts.0 then some trimmed else none

unfoldable pub collect_register_lines : Text → List Text
unfolding lines
collect_register_lines output = take 64 (filter_map register_line (lines output))

unfoldable pub line_number_for : Text → Text → Option ℕ
unfolding lines
line_number_for haystack needle =
    opt_map (λ index. index + 1)
      (position (λ line. text_eq (trim line) (trim needle)) (lines haystack))

-- `signal_line`: the first line that tells of a signal.
unfoldable pub signal_line_of : Text → Option Text
unfolding contains lines
signal_line_of output =
    opt_map (λ line. trim line)
      (find (λ line. contains (codes "Program received signal") line) (lines output))

-- The detection for a crash.
unfoldable pub crash_detection : Text → Option Text → EscalationDetection
crash_detection output signal_line = record {
  class = codes "unclassified_crash";
  summary = unwrap_or signal_line (codes "gdb captured crash stack");
  line = signal_line >>= line_number_for output;
}

unfoldable pub parse_gdb_output : Text → Text → GdbReport
unfolding lines
parse_gdb_output stdout stderr =
    let output = combined_parts stdout stderr in
    let signal_line = signal_line_of output in
    let crash_frames = filter_map stable_gdb_frame (lines output) in
    let confirmed = is_some signal_line || not (is_empty crash_frames) in
    record {
      tool = codes "gdb";
      confirmed = confirmed;
      signal_name = signal_line >>= extract_signal_name;
      signal_line = signal_line;
      crash_frames = crash_frames;
      registers = collect_register_lines output;
      detected = if confirmed then crash_detection output signal_line ∷ [] else [];
    }
