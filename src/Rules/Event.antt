-- ===== src/Rules/Event.antt =====
-- recompile/re-rules/src/lib.rs: the events of the sentinel, and the findings that the rules make.
use recompile.Base.{ℕ, ℤ, Bool, true, false, Option, List, Text}

pub data EventType : Type 0 where
  malloc free mmap munmap memcpy memmove strcpy strlen read write send recv dup pipe epoll_ctl
        inotify_add lock_acq lock_rel futex_wait futex_wake signal_enter signal_forbidden_call segv
        mark_flush :
      EventType

pub data AnomalyClass : Type 0 where
  heap_overflow double_free invalid_free use_after_free uninit_to_io lock_cycle undefined_behavior
        memory_leak :
      AnomalyClass

pub data Confidence : Type 0 where
  low medium high certain : Confidence

pub data Severity : Type 0 where
  low medium high critical : Severity

pub record ExtraKv : Type 0 where
  pub k : ℕ
  pub v_len : ℕ
  pub v : List ℕ

pub record SentinelEvent : Type 0 where
  pub version : ℕ
  pub seq : ℕ
  pub pid : ℕ
  pub tid : ℕ
  pub ts_ns : ℕ
  pub event_type : EventType
  pub site_id : ℕ
  pub stack_id : ℤ
  pub stack_fp : ℕ
  pub addr : ℕ
  pub len : ℕ
  pub alloc_size : ℕ
  pub fd : ℤ
  pub bytes_ret : ℤ
  pub errno_code : ℤ
  pub lock_kind : ℕ
  pub lock_addr : ℕ
  pub lock_site_id : ℕ
  pub flags : ℕ
  pub drop_count : ℕ
  pub extra_kv : List ExtraKv

pub record MemoryEvidence : Type 0 where
  pub ptr : ℕ
  pub size : ℕ
  pub alloc_size : ℕ
  pub operation : Text

pub record StackFrame : Type 0 where
  pub module_name : Text
  pub function : Text
  pub offset : ℕ
  pub file : Option Text
  pub line : Option ℕ

pub record StackEvidence : Type 0 where
  pub alloc_stack : List StackFrame
  pub call_stack : List StackFrame

pub record Evidence : Type 0 where
  pub memory : Option MemoryEvidence
  pub stacks : Option StackEvidence
  pub alloc_site : Option Text
  pub event_sequence : List SentinelEvent

pub record EscalationPlan : Type 0 where
  pub tool : Text
  pub reason : Text
  pub estimated_cost : Text
  pub cooldown_ms : ℕ

pub record Finding : Type 0 where
  pub id : Text
  pub schema_version : Text
  pub class : AnomalyClass
  pub confidence : Confidence
  pub severity : Severity
  pub timestamp : ℕ
  pub pid : ℕ
  pub evidence : Evidence
  pub escalation : Option EscalationPlan
  pub related : List Text

-- `matches!(e.event_type, EventType::Memcpy | EventType::Memmove)`
abbrev pub is_copy : EventType → Bool
is_copy EventType.memcpy = true
is_copy EventType.memmove = true
is_copy _ = false

-- `e.event_type == EventType::Free`
abbrev pub is_free : EventType → Bool
is_free EventType.free = true
is_free _ = false

-- `EventType::Malloc | EventType::Mmap`
abbrev pub allocates : EventType → Bool
allocates EventType.malloc = true
allocates EventType.mmap = true
allocates _ = false

-- `EventType::Free | EventType::Munmap`
abbrev pub releases : EventType → Bool
releases EventType.free = true
releases EventType.munmap = true
releases _ = false
