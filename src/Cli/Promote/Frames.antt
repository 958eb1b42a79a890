-- ===== src/Cli/Promote/Frames.antt =====
-- recompile/rerun/src/cli.rs: the frames that the lines of a tool's output hold.
use recompile.Base.{
  ◌&&◌, ◌||◌, ◌==◌, ◌>>=◌, not, Option, none, some, List, any, find, filter_map, head?, Text, codes,
  opt_map, or_else, unwrap_or, rsplit_once, if◌then◌else◌,
}
use recompile.Base.Scan.{trim, starts_with, strip_prefix, contains, split_once}
use recompile.Base.Words.{split_whitespace, trim_of}
use recompile.Escalate.Tools.Valgrind.{strip_valgrind_prefix}

unfoldable pub stable_valgrind_frame : Text → Option Text
unfolding strip_prefix contains
stable_valgrind_frame line =
    let normalized = trim (strip_valgrind_prefix line) in
    or_else (strip_prefix (codes "at ") normalized) (strip_prefix (codes "by ") normalized)
    >>= λ rest.
        let frame = trim rest in
        if contains (codes "vg_replace_") frame
          || not (contains (codes "(") frame)
          || not (contains (codes ")") frame)
        then none
        else some frame

unfoldable pub stable_asan_stack_frame : Text → Option Text
unfolding split_once rsplit_once contains
stable_asan_stack_frame line =
    let trimmed = trim line in
    if starts_with (codes "#") trimmed
    then (split_once (codes " in ") trimmed >>= λ parts.
        let location =
          trim (unwrap_or (opt_map (λ halves. halves.1) (rsplit_once b' ' parts.1)) parts.1) in
        if contains (codes ":") location then some location else none)
    else none

unfoldable pub stable_asan_summary_frame : Text → Option Text
unfolding split_whitespace contains
stable_asan_summary_frame line =
    let trimmed = trim line in
    if not (contains (codes "SUMMARY: AddressSanitizer:") trimmed)
      && not (contains (codes "SUMMARY: LeakSanitizer:") trimmed)
    then none
    else opt_map (trim_of (λ c. c == b',' || c == b';')) (
        find (λ token. contains (codes ":") token && any (λ c. c == b'.') token)
          (split_whitespace trimmed))

unfoldable pub stable_ubsan_location : Text → Option Text
unfolding split_once contains
stable_ubsan_location line =
    let trimmed = trim line in
    if contains (codes "runtime error:") trimmed
    then (split_once (codes ": runtime error:") trimmed >>= λ parts.
        if contains (codes ":") parts.0 then some parts.0 else none)
    else none

-- `lines.iter().find_map(f)`
abbrev pub find_map : (Text → Option Text) → List Text → Option Text
find_map f ls = head? (filter_map f ls)
