-- ===== src/Cli/Promote.antt =====
-- recompile/rerun/src/cli.rs: what the observer takes from a tool's report and output to make
-- findings of it.
pub mod Frames
pub mod Reported
pub mod Detections
pub mod Findings
pub mod Additions
pub mod Gdb
pub mod Crashpack
use recompile.Base.{
  ℕ, ◌+◌, ◌-◌, ◌∷◌, [], ◌++◌, ◌&&◌, ◌||◌, ◌>>=◌, Bool, Option, none, some, List, map, head?, length,
  take, drop, min, leb, Text, codes, text_eq, filter_map, position, not, or_else, opt_map,
  unwrap_or, is_some, add64, if◌then◌else◌,
}
use recompile.Base.Order.{text_ord}
use recompile.Base.Dict.{Dict, alter}
use recompile.Base.Scan.{contains, lines, join}
use recompile.Escalate.Result.{EscalationResult, is_empty}
use recompile.Escalate.Tools.{is_blank}
use recompile.Issues.Json.{Json}
use recompile.Cli.Promote.Frames.{
  stable_valgrind_frame, stable_asan_stack_frame, stable_asan_summary_frame, stable_ubsan_location,
  find_map,
}

pub record ToolDetection : Type 0 where
  pub class : Text
  pub summary : Text
  pub line : Option ℕ
  pub call_frame : Option Text
  pub alloc_frame : Option Text
  pub free_frame : Option Text

-- A frame that is there is kept by a function that finds none.
abbrev pub kept_or : Option Text → Option Text → Option Text
kept_or old new = if is_some old then old else new

-- The first frame at or behind the first line that passes a test; without such a line the frame
-- is as before.
unfoldable pub behind : (Text → Bool) → (Text → Option Text) → List Text → Option Text → Option Text
behind marker frame ls old = elim (position marker ls) [
  | none ↦ old
  | some n ↦ find_map frame (drop n ls)
]

unfoldable pub attach_valgrind_frames : List Text → ToolDetection → ToolDetection
unfolding contains behind
attach_valgrind_frames ls d = record d {
  call_frame = kept_or d.call_frame (find_map stable_valgrind_frame ls);
  free_frame =
      behind (λ line. contains (codes "free'd") line || contains (codes "freed") line)
        stable_valgrind_frame ls d.free_frame;
  alloc_frame =
      behind (λ line. contains (codes "alloc'd") line || contains (codes "allocated") line)
        stable_valgrind_frame ls d.alloc_frame;
}

asan_call_frame : Text → Option Text
asan_call_frame line = or_else (stable_asan_summary_frame line) (stable_asan_stack_frame line)

unfoldable pub attach_asan_frames : List Text → ToolDetection → ToolDetection
unfolding contains behind asan_call_frame
attach_asan_frames ls d = record d {
  call_frame = kept_or d.call_frame (find_map asan_call_frame ls);
  free_frame =
      behind
        (λ line.
          contains (codes "freed by thread") line
          || contains (codes "previously allocated by thread") line)
        stable_asan_stack_frame ls d.free_frame;
}

unfoldable pub attach_lsan_frames : List Text → ToolDetection → ToolDetection
unfolding contains behind asan_call_frame
attach_lsan_frames ls d = record d {
  call_frame = kept_or d.call_frame (find_map asan_call_frame ls);
  alloc_frame =
      behind (λ line. contains (codes "allocated from:") line) stable_asan_stack_frame ls
        d.alloc_frame;
}

unfoldable pub attach_ubsan_frames : List Text → ToolDetection → ToolDetection
attach_ubsan_frames ls d = record d {
  call_frame =
      kept_or d.call_frame
        (find_map (λ line. or_else (stable_ubsan_location line) (stable_asan_stack_frame line)) ls);
}

-- `&xs[start..end]`, which panics if the bounds are not in order or beyond the end.
unfoldable pub slice_range : {A : Type 0} → ℕ → ℕ → List A → Option (List A)
slice_range start end xs =
    if leb start end && leb end (length xs) then some (take (end - start) (drop start xs)) else none

-- Where the window of a detection starts.
unfoldable pub window_start : Option ℕ → ℕ → ℕ
window_start line count = min (unwrap_or (opt_map (λ n. n - 1) line) 0) (count - 1)

unfoldable pub attach_frames_of : Text → List Text → ToolDetection → ToolDetection
unfolding text_eq attach_valgrind_frames attach_asan_frames attach_lsan_frames attach_ubsan_frames
attach_frames_of tool window d =
    if text_eq tool (codes "valgrind")
    then attach_valgrind_frames window d
    else if text_eq tool (codes "asan")
    then attach_asan_frames window d
    else if text_eq tool (codes "lsan")
    then attach_lsan_frames window d
    else if text_eq tool (codes "ubsan")
    then attach_ubsan_frames window d
    else d

module _ (read_to_string : Text → Option Text) where
  abbrev not_blank : Option Text → Option Text
  not_blank none = none
  not_blank (some content) = if is_blank content then none else some content

  unfoldable pub read_tool_output : EscalationResult → Option Text
  unfolding join
  read_tool_output result =
      let parts =
        filter_map (λ path. not_blank (path >>= read_to_string))
          (result.stdout_path ∷ result.stderr_path ∷ []) in
      if is_empty parts then none else some (join (10 ∷ []) parts)

  -- A panic is `none`.
  unfoldable pub attach_tool_frames : EscalationResult → ToolDetection → Option ToolDetection
  unfolding slice_range window_start attach_frames_of
  attach_tool_frames result d = elim (read_tool_output result) [
    | none ↦ some d
    | some output ↦
        let ls = lines output in
        let start = window_start d.line (length ls) in
        opt_map (λ window. attach_frames_of result.tool window d)
          (slice_range start (min (start + 24) (length ls)) ls)
  ]
