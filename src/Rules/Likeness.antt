-- ===== src/Rules/Likeness.antt =====
-- recompile/re-rules/src/clustering.rs: the fingerprint of a finding, and how alike two are.
use recompile.Base.{
  ◌+◌, ◌/◌, ◌%◌, ◌==◌, ◌++◌, not, Option, none, some, List, [], ◌∷◌, Text, codes, map, take, count,
  length, if◌then◌else◌,
}
use recompile.Base.Order.{text_ord}
use recompile.Base.Sets.{Set, insert_all, member}
use recompile.Base.Scan.{join}
use recompile.Base.FileNames.{split_at}
use recompile.Base.Decimal.{decimal}
use recompile.Base.Hex.{lower_hex}
use recompile.Rules.Event.{AnomalyClass, Finding, MemoryEvidence, StackEvidence, StackFrame}
use recompile.Rules.Outside.{Outside}

-- `format!("{:?}", class)`
unfoldable pub class_name : AnomalyClass → Text
class_name AnomalyClass.heap_overflow = codes "HeapOverflow"
class_name AnomalyClass.double_free = codes "DoubleFree"
class_name AnomalyClass.invalid_free = codes "InvalidFree"
class_name AnomalyClass.use_after_free = codes "UseAfterFree"
class_name AnomalyClass.uninit_to_io = codes "UninitToIo"
class_name AnomalyClass.lock_cycle = codes "LockCycle"
class_name AnomalyClass.undefined_behavior = codes "UndefinedBehavior"
class_name AnomalyClass.memory_leak = codes "MemoryLeak"

-- The first two frames of the allocation, or of the call if there is no stack of the allocation.
abbrev pub top_frames : StackEvidence → List StackFrame
top_frames stacks =
    if length stacks.alloc_stack == 0 then take 2 stacks.call_stack else take 2 stacks.alloc_stack

abbrev pub frame_parts : Option StackEvidence → List Text
frame_parts none = []
frame_parts (some stacks) =
    map (λ frame. frame.module_name ++ codes ":" ++ frame.function) (top_frames stacks)

abbrev pub memory_parts : Option MemoryEvidence → List Text
memory_parts none = []
memory_parts (some memory) = (codes "ptr:" ++ lower_hex 4 (memory.ptr / 0x1000 % 0x10000)) ∷ []

unfoldable pub components : Finding → List Text
components finding =
    class_name finding.class
    ∷ (frame_parts finding.evidence.stacks
        ++ memory_parts finding.evidence.memory
        ++ (codes "pid:" ++ decimal finding.pid) ∷ [])

unfoldable pub generate_fingerprint : Finding → Text
unfolding components join
generate_fingerprint finding = join (codes "|") (components finding)

-- `fp.split('|').collect::<HashSet<&str>>()`
abbrev pub parts : Text → Set Text
parts fp = insert_all (split_at b'|' fp) []

module _ (out : Outside) where
  unfoldable pub calculate_similarity : Text → Text → out.F
  calculate_similarity fp1 fp2 =
      let intersection = count (λ e. member e.0 (parts fp2)) (parts fp1) in
      let union = length (parts fp1) + count (λ e. not (member e.0 (parts fp1))) (parts fp2) in
      if union == 0
      then out.literal 0 1
      else out.div (out.from_count intersection) (out.from_count union)
