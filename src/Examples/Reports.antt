-- ===== src/Examples/Reports.antt =====
-- The theorems on the reports of the tools at sample output.
use recompile.Base.{
  ℕ, ◌+◌, ◌≡◌, refl, some, [], ◌∷◌, List, Text, codes, text_eq, find_last, get_elem?, map,
}
use recompile.Base.Scan.{trim, lines, is_whitespace, trim_start_of, trim_end_of}
use recompile.Escalate.Result.{EscalationDetection}
use recompile.Escalate.Tools.{combined, detected_classes}
use recompile.Escalate.Tools.Loops.{Reports}
use recompile.Escalate.Tools.Asan.{is_asan_summary, parse_asan_output}
use recompile.Escalate.Tools.Ubsan.{ubsan_error_class}
use recompile.Escalate.Tools.Valgrind.{
  normalized, is_error_summary, valgrind_class, parse_valgrind_output, strip_valgrind_prefix,
  context_after,
}
use recompile.Escalate.Tools.Gdb.{
  combined_parts, stable_gdb_frame, signal_line_of, parse_gdb_output,
}
use recompile.Escalate.Tools.Reports.{asan_class, parse_asan-Reports, parse_valgrind-Reports}
use recompile.Escalate.Tools.Crashes.{parse_gdb_locates}

abbrev detection : Text → ℕ → EscalationDetection
detection class n = record { class = class; summary = codes "s"; line = some n }

abbrev leak_twice : List EscalationDetection
leak_twice =
    detection (codes "leak") 1 ∷ detection (codes "bounds") 2 ∷ detection (codes "leak") 3 ∷ []

abbrev asan_text : Text
asan_text = codes "a\n ERROR: AddressSanitizer: heap-use-after-free x\nSUMMARY: LeakSanitizer: 1"

abbrev valgrind_text : Text
valgrind_text = codes "==1== Invalid read of size 1\n==1== free'd\n==1== ERROR SUMMARY: 1"

abbrev gdb_text : Text
gdb_text = codes " Program received signal SIGV.\n#0 f\nrip 0"

-- The loops at sample output.
asan_test :
    (parse_asan_output [] asan_text).detected
    ≡ record {
      class = codes "use_after_free";
      summary = codes "ERROR: AddressSanitizer: heap-use-after-free x";
      line = some 2;
    }
      ∷ []
unfolding parse_asan_output combined trim_end_of trim_start_of
    recompile.Escalate.Tools.Asan.asan_line recompile.Escalate.Tools.Asan.asan_error_class
    is_whitespace recompile.Escalate.Tools.push_detection
asan_test = refl

ubsan_test :
    (ubsan_error_class (codes "Requires 4 byte alignment, address ")
      ≡ some (codes "misaligned_pointer"))
    × (ubsan_error_class (codes "index 3") ≡ some (codes "undefined_behavior"))
unfolding ubsan_error_class
ubsan_test = (refl, refl)

valgrind_test :
    ((parse_valgrind_output valgrind_text []).error_summary ≡ some (codes "ERROR SUMMARY: 1"))
    × (detected_classes (parse_valgrind_output valgrind_text []).detected
        ≡ codes "use_after_free" ∷ [])
unfolding parse_valgrind_output combined trim_end_of trim_start_of is_whitespace
    recompile.Escalate.Tools.Valgrind.valgrind_line valgrind_class strip_valgrind_prefix
    detected_classes recompile.Escalate.Tools.push_detection context_after
valgrind_test = (refl, refl)

gdb_test :
    let report = parse_gdb_output gdb_text [] in
    (report.signal_name ≡ some (codes "SIGV"))
    × (report.crash_frames ≡ codes "#0 f" ∷ [])
    × (report.registers ≡ codes "rip 0" ∷ [])
unfolding parse_gdb_output signal_line_of combined_parts trim_end_of trim_start_of is_whitespace
    recompile.Escalate.Tools.Gdb.extract_signal_name stable_gdb_frame
    recompile.Escalate.Tools.Gdb.collect_register_lines recompile.Escalate.Tools.Gdb.register_line
    recompile.Escalate.Tools.Gdb.is_likely_register_name text_eq
gdb_test = (refl, refl, refl)

parse_asan-Reports_example :
    let ls = lines (combined [] asan_text) in
    Reports asan_class trim ls (parse_asan_output [] asan_text).detected
    × ((parse_asan_output [] asan_text).summary ≡ find_last is_asan_summary (map trim ls))
parse_asan-Reports_example = parse_asan-Reports [] asan_text

abbrev ubsan_text : Text
ubsan_text = codes "x.c:3: runtime error: index 4 out of bounds"

parse_valgrind-Reports_example :
    let ls = lines (combined valgrind_text []) in
    let report = parse_valgrind_output valgrind_text [] in
    Reports (valgrind_class ls) normalized ls report.detected
    × (report.error_summary ≡ find_last is_error_summary (map normalized ls))
parse_valgrind-Reports_example = parse_valgrind-Reports valgrind_text []

-- The signal stands in the first line.
parse_gdb_locates_example :
    (n : ℕ) × (line : Text) × (get_elem? (lines (combined_parts gdb_text [])) n ≡ some line)
    × (trim line ≡ codes "Program received signal SIGV.")
    × ((parse_gdb_output gdb_text []).detected
        ≡ record {
          class = codes "unclassified_crash";
          summary = codes "Program received signal SIGV.";
          line = some (n + 1);
        }
          ∷ [])
unfolding parse_gdb_output signal_line_of combined_parts trim_end_of trim_start_of is_whitespace
parse_gdb_locates_example =
    parse_gdb_locates gdb_text [] (codes "Program received signal SIGV.") refl
