-- ===== src/Escalate/Tools.antt =====
-- recompile/re-escalate/src: what the readers of tool output (asan.rs, lsan.rs, ubsan.rs,
-- valgrind.rs, gdb.rs) share.
pub mod Asan
pub mod Lsan
pub mod Ubsan
pub mod Valgrind
pub mod Gdb
pub mod Classes
pub mod Loops
pub mod Reports
pub mod Crashes
use recompile.Base.{ℕ, ◌∷◌, [], ◌++◌, Bool, not, some, List, Text, text_eq, any, if◌then◌else◌}
use recompile.Base.Scan.{trim}
use recompile.Escalate.Result.{EscalationDetection, is_empty}

-- `s.trim().is_empty()`
abbrev pub is_blank : Text → Bool
is_blank s = is_empty (trim s)

-- The two streams as one text.
unfoldable pub combined : Text → Text → Text
combined stdout stderr =
    if is_blank stdout then stderr else if is_blank stderr then stdout else stdout ++ 10 ∷ stderr

unfoldable pub push_detection :
    List EscalationDetection → Text → Text → ℕ → List EscalationDetection
push_detection detected class summary line =
    detected ++ record { class = class; summary = summary; line = some line } ∷ []

-- `confirmed` of the reports but gdb's.
abbrev pub confirmed : List EscalationDetection → Bool
confirmed detected = not (is_empty detected)

-- The body of the loop of `detected_classes`.
class_step : List Text → EscalationDetection → List Text
unfolding text_eq
class_step classes detection =
    if any (λ c. text_eq c detection.class) classes
    then classes
    else classes ++ detection.class ∷ []

unfoldable pub classes_from : List Text → List EscalationDetection → List Text
unfolding class_step
classes_from classes [] = classes
classes_from classes (detection ∷ detected) = classes_from (class_step classes detection) detected

unfoldable pub detected_classes : List EscalationDetection → List Text
unfolding classes_from
detected_classes detected = classes_from [] detected
