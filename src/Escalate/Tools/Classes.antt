-- ===== src/Escalate/Tools/Classes.antt =====
-- `detected_classes`, which the five reports share.
use recompile.Base.{
  any-append, count-append, ◌≡◌, refl, false, sym, ap, ◌∙◌, Bool, true, ◌||◌, ◌&&◌, List, [], ◌∷◌,
  Text, text_eq, text_eq_iff, any, any-congr, count, arith, if◌then◌else◌,
}
use recompile.Escalate.Result.{EscalationDetection, is_empty}
use recompile.Escalate.Tools.{class_step, classes_from, detected_classes}

-- Is there a detection of the class?
abbrev pub has_class : Text → List EscalationDetection → Bool
has_class class detected = any (λ d. text_eq class d.class) detected

text_eq_comm : (s t : Text) → text_eq s t ≡ text_eq t s
text_eq_comm s t = ground (arith, text_eq_iff s t, text_eq_iff t s)

-- Each class of the list stands in it once, for `class` as for any other.
abbrev Once : Text → List Text → Type 0
Once class classes = count (text_eq class) classes ≡ (if any (text_eq class) classes then 1 else 0)

known_same :
    (class k : Text) (classes : List Text)
    → text_eq class k ≡ true
    → any (λ c. text_eq c k) classes ≡ any (text_eq class) classes
known_same class k classes same =
    any-congr (λ c. text_eq c k) (text_eq class) classes
      (λ c. text_eq_comm c k ∙ ap (λ t. text_eq t c) (sym ((text_eq_iff class k).0 same)))

class_step-Once :
    (class : Text) (classes : List Text) (d : EscalationDetection)
    → Once class classes
    → Once class (class_step classes d)
unfolding class_step
class_step-Once class classes d h = ground (
  arith,
  known_same class d.class classes,
  any-append (text_eq class) classes (d.class ∷ []),
  count-append (text_eq class) classes (d.class ∷ []),
)

any-class_step :
    (class : Text) (classes : List Text) (d : EscalationDetection)
    → any (text_eq class) (class_step classes d)
      ≡ (any (text_eq class) classes || text_eq class d.class)
unfolding class_step
any-class_step class classes d =
    ground
      (arith, known_same class d.class classes, any-append (text_eq class) classes (d.class ∷ []))

classes_from_count :
    (class : Text) (classes : List Text) (detected : List EscalationDetection)
    → Once class classes
    → count (text_eq class) (classes_from classes detected)
      ≡ (if any (text_eq class) classes || has_class class detected then 1 else 0)
unfolding classes_from
classes_from_count class classes [] h = ground arith
classes_from_count class classes (d ∷ detected) h = ground (
  arith,
  classes_from_count class (class_step classes d) detected (class_step-Once class classes d h),
  any-class_step class classes d,
)

-- The classes of a report are those of its detections, each once.
pub detected_classes_once :
    (detected : List EscalationDetection) (class : Text)
    → count (text_eq class) (detected_classes detected)
      ≡ (if has_class class detected then 1 else 0)
unfolding detected_classes
detected_classes_once detected class = classes_from_count class [] detected refl

class_step-empty :
    (classes : List Text) (d : EscalationDetection) → is_empty (class_step classes d) ≡ false
unfolding class_step
class_step-empty [] d = refl
class_step-empty (c ∷ classes) d = ground arith

classes_from-empty :
    (classes : List Text) (detected : List EscalationDetection)
    → is_empty (classes_from classes detected) ≡ (is_empty classes && is_empty detected)
unfolding classes_from
classes_from-empty classes [] = ground arith
classes_from-empty classes (d ∷ detected) =
    ground (arith, classes_from-empty (class_step classes d) detected, class_step-empty classes d)

-- A report has a class exactly if it has a detection.
pub detected_classes-empty :
    (detected : List EscalationDetection) → is_empty (detected_classes detected) ≡ is_empty detected
unfolding detected_classes
detected_classes-empty detected = classes_from-empty [] detected
