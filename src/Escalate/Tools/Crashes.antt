-- ===== src/Escalate/Tools/Crashes.antt =====
-- What gdb's report says of the lines of the output.
use recompile.Base.{
  ℕ, zero, suc, not, ap, sym, ◌+◌, ◌≤◌, ◌≡◌, refl, ◌∙◌, Bool, true, ◌||◌, Option, some, List, [],
  ◌∷◌, Text, codes, arith, any, find, take, length, filter_map, position, get_elem?, is_some,
  text_eq, text_eq_iff, if◌then◌else◌, Option-cases, Bool-cases, inl, inr,
}
use recompile.Base.Scan.{trim, contains, lines}
use recompile.Base.Trims.{trim_idem}
use recompile.Escalate.Result.{is_empty}
use recompile.Escalate.Tools.Gdb.{
  combined_parts, stable_gdb_frame, collect_register_lines, register_line, line_number_for,
  signal_line_of, crash_detection, parse_gdb_output,
}

abbrev pub tells_signal : Text → Bool
tells_signal line = contains (codes "Program received signal") line

-- If `find p` has a result that passes `q`, `position q` has one too.
position-some {ℓ} :
    {A : Type ℓ} (p q : A → Bool) (xs : List A) (a : A)
    → find p xs ≡ some a
    → q a ≡ true
    → (n : ℕ) × (x : A) × (position q xs ≡ some n) × (get_elem? xs n ≡ some x) × (q x ≡ true)
position-some p q [] a f h = ground arith
position-some p q (x ∷ xs) a f h = elim (Bool-cases (q x)) [
  | inl here ↦ (0, x, rw here, refl, here)
  | inr later ↦
      let (n, y, at, found, passes) = position-some p q xs a (ground arith) h in
      (suc n, y, ground arith, found, passes)
]

-- A signal line is a line of the output, trimmed, that tells of a signal; `line_number_for` finds
-- a line that reads like it.
signal_line-number :
    (output signal : Text)
    → signal_line_of output ≡ some signal
    → (n : ℕ) × (line : Text) × (line_number_for output signal ≡ some (n + 1))
      × (get_elem? (lines output) n ≡ some line)
      × (trim line ≡ signal)
unfolding signal_line_of line_number_for
signal_line-number output signal h = elim (Option-cases (find tells_signal (lines output))) [
  | inl missing ↦ ground arith
  | inr (found, e) ↦
      let is_it : trim found ≡ signal = ground arith in
      let again : trim signal ≡ signal = ap trim (sym is_it) ∙ trim_idem found ∙ is_it in
      let (n, line, at, stands, same) =
        position-some tells_signal (λ l. text_eq (trim l) (trim signal)) (lines output) found e
          ((text_eq_iff (trim found) (trim signal)).1 (is_it ∙ sym again)) in
      (
        n,
        line,
        rw (at, line_number_for) refl,
        stands,
        (text_eq_iff (trim line) (trim signal)).0 same ∙ again,
      )
]

take-le : {A : Type 0} (n : ℕ) (xs : List A) → length (take n xs) ≤ n
take-le zero xs = omega arith
take-le (suc n) [] = omega arith
take-le (suc n) (x ∷ xs) = omega (arith, take-le n xs)

any-filter_map :
    {A B : Type 0} (f : A → Option B) (xs : List A)
    → is_empty (filter_map f xs) ≡ not (any (λ x. is_some (f x)) xs)
any-filter_map f [] = refl
any-filter_map f (x ∷ xs) = ground (arith, any-filter_map f xs)

find-some : {A : Type 0} (p : A → Bool) (xs : List A) → is_some (find p xs) ≡ any p xs
find-some p [] = refl
find-some p (x ∷ xs) = ground (arith, find-some p xs)

signal_line-some :
    (output : Text) → is_some (signal_line_of output) ≡ any tells_signal (lines output)
unfolding signal_line_of
signal_line-some output = ground (arith, find-some tells_signal (lines output))

-- A gdb report is confirmed exactly if a line of the output tells of a signal or is a stack
-- frame; then it has one detection, and else none. It keeps at most 64 registers.
pub parse_gdb_confirms :
    (stdout stderr : Text)
    → let ls = lines (combined_parts stdout stderr) in
      let report = parse_gdb_output stdout stderr in
      (report.confirmed ≡ (any tells_signal ls || any (λ line. is_some (stable_gdb_frame line)) ls))
      × (length report.detected ≡ (if report.confirmed then 1 else 0))
      × (length report.registers ≤ 64)
unfolding parse_gdb_output collect_register_lines
parse_gdb_confirms stdout stderr =
    let output = combined_parts stdout stderr in
    (
      ground (arith, signal_line-some output, any-filter_map stable_gdb_frame (lines output)),
      ground arith,
      take-le 64 (filter_map register_line (lines output)),
    )

-- Where a gdb report has a signal line, its detection has that line as its summary and the number
-- of a line of the output that reads, trimmed, like it.
pub parse_gdb_locates :
    (stdout stderr signal : Text)
    → (parse_gdb_output stdout stderr).signal_line ≡ some signal
    → (n : ℕ) × (line : Text) × (get_elem? (lines (combined_parts stdout stderr)) n ≡ some line)
      × (trim line ≡ signal)
      × ((parse_gdb_output stdout stderr).detected
          ≡ record { class = codes "unclassified_crash"; summary = signal; line = some (n + 1) }
            ∷ [])
unfolding parse_gdb_output crash_detection
parse_gdb_locates stdout stderr signal h =
    let (n, line, number, at, reads) = signal_line-number (combined_parts stdout stderr) signal h in
    (n, line, at, reads, ground (arith, h, number))
