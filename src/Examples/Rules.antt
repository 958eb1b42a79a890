-- ===== src/Examples/Rules.antt =====
-- The theorems on the rules, for numbers in thousandths in place of f64, a simple hash, and maps that
-- are iterated in the order of their keys.
use Prim.Native.Nat.{compare}
use Prim.Native.Nat.Ordering.{eq}
use recompile.Base.Sort.{sort_by, count-sort_by}
use recompile.Base.{
  unwrap_or, keep, if◌then◌else◌, ℕ, ◌+◌, ◌*◌, ◌/◌, ◌^◌, ◌≡◌, refl, ◌++◌, ◌==◌, true, false, pos,
  Option, none, some, List, [], ◌∷◌, codes, leb, ltb, max, arith, All, is_some, opt_map, u64_mod,
  ◌<◌, not, ◌&&◌,
}
use recompile.Base.Order.{text_cmp, nat_ord, text_ord}
use recompile.Base.Dict.{alter, get}
use recompile.Base.Sets.{insert}
use recompile.Base.Removal.{remove}
use recompile.Base.Hex.{lower_hex}
use recompile.Rules.Event.{EventType, SentinelEvent, Finding, AnomalyClass, Confidence, Severity}
use recompile.Rules.Outside.{Floats, Outside}
use recompile.Rules.Config.{default_config, get_cooldown}
use recompile.Rules.Matchers.{
  double_free, invalid_free, uaf_hint, memcpy_oob, evidence_of, frees_untracked, frees_twice,
}
use recompile.Rules.Matchers.Reference.{first_where, repeats_free, releases_dead}
use recompile.Rules.Matchers.History.{double_free-Reported, invalid_free-Reported}
use recompile.Rules.Registry
use recompile.Rules.Registry.Shown.{shows, extract_evidence_total}
use recompile.Rules.Checks.{
  rule_info, rule_matches, RuleInfo, since, class_of_type, count_hit, cluster_key, is_cooling,
}
use recompile.Rules.Clusters.Limits.{Iterates}
use recompile.Rules.Report.Totals.{Permutes}
use recompile.Rules.Engine.{
  simple_finding, RuleEngine, Moment, Result, ok, new_engine, check_rule_by_id,
}
use recompile.Rules.Engine.Agreement.{rule_matches-Agrees}
use recompile.Rules.Process.{Readings, process_event}
use recompile.Rules.Process.Total.{Completes, IsUsable, play, events_complete}
use recompile.Rules.Process.Rests.{rule_rests}
use recompile.Rules.Process.Windows.{event_buffer-IsWindow, window_ns, early_event_unseen}

abbrev thousandths : Floats
thousandths = record {
  F = ℕ;
  literal = λ n k. n * 1000 / 10 ^ k;
  from_count = λ n. n * 1000;
  to_u64 = λ x. x / 1000;
  add = λ x y. x + y;
  mul = λ x y. x * y / 1000;
  div = λ x y. x * 1000 / y;
  larger = max;
  at_least = λ x y. leb y x;
  exceeds = λ x y. ltb y x;
  equal = λ x y. x == y;
  partial_cmp = λ x y. some (compare x y);
}

abbrev pub plain : Outside
plain = record {
  floats = thousandths;
  hash_of = λ addr stack_fp ts_ns. addr + stack_fp + ts_ns;
  iterate = λ A m. m;
  sort_by = λ A cmp xs. some (sort_by (λ a b. unwrap_or (cmp 0 a b) eq) xs);
}

pub plain-Iterates : Iterates plain
plain-Iterates A m p = refl

pub plain-Permutes : Permutes plain
plain-Permutes A cmp xs ys p e =
    ground (arith, e, count-sort_by (λ a b. unwrap_or (cmp 0 a b) eq) p xs)

-- An event of process 7, in seconds since the start.
abbrev event_at : ℕ → EventType → ℕ → ℕ → ℕ → SentinelEvent
event_at seconds event_type addr len alloc_size = record {
  version = 1;
  seq = seconds;
  pid = 7;
  tid = 7;
  ts_ns = seconds * 1000000000;
  event_type = event_type;
  site_id = 0;
  stack_id = pos 0;
  stack_fp = 0xabc;
  addr = addr;
  len = len;
  alloc_size = alloc_size;
  fd = pos 0;
  bytes_ret = pos 0;
  errno_code = pos 0;
  lock_kind = 0;
  lock_addr = 0;
  lock_site_id = 0;
  flags = 0;
  drop_count = 0;
  extra_kv = [];
}

abbrev freed_twice : List SentinelEvent
freed_twice =
    event_at 10 EventType.malloc 0x1000 16 16
    ∷ event_at 10 EventType.free 0x1000 0 0
    ∷ event_at 11 EventType.free 0x1000 0 0
    ∷ []

abbrev copy_out_of_bounds : List SentinelEvent
copy_out_of_bounds = event_at 10 EventType.memcpy 0x2000 32 16 ∷ []

abbrev read_of_clock : ℕ → Moment
read_of_clock now = record {
  asked = now;
  seen = now;
  ended = now;
  timestamp = some 5;
  id_timestamp = some 5;
}

-- The clock moves on while the findings are sorted.
abbrev pub clocks : ℕ → Option ℕ × Option ℕ
clocks n = (some (5 + n), some (5 + n))

abbrev readings : ℕ → Readings
readings now = record { check = λ id. read_of_clock now; clustered = λ id. some 5; sorted = clocks }

usable : (now : ℕ) → IsUsable plain (readings now)
usable now = record { check = λ id. (refl, refl); clustered = λ id. refl; sorted = λ xs. refl }

abbrev engine_with : List SentinelEvent → RuleEngine ℕ
engine_with buffer = record (new_engine (default_config plain)) { event_buffer = buffer }

abbrev last_free : SentinelEvent
last_free = event_at 11 EventType.free 0x1000 0 0

-- A double free is both a double free and, to the registered rule, a free of a dead address; the
-- test of the engine for the latter misses it.
matchers_test :
    (double_free.matches freed_twice ≡ true)
    × (invalid_free.matches freed_twice ≡ true)
    × (rule_matches (codes "invalid_free") freed_twice ≡ false)
    × (memcpy_oob.matches copy_out_of_bounds ≡ true)
unfolding double_free invalid_free memcpy_oob rule_matches frees_twice get insert alter
    frees_untracked remove
matchers_test = (refl, refl, refl, refl)

double_free-Reported_example :
    (double_free.matches freed_twice ≡ is_some (first_where repeats_free [] freed_twice))
    × (double_free.extract_evidence freed_twice
        ≡ opt_map (evidence_of 0 0 (codes "double_free")) (first_where repeats_free [] freed_twice))
double_free-Reported_example = double_free-Reported freed_twice

invalid_free-Reported_example :
    (invalid_free.matches freed_twice ≡ is_some (first_where releases_dead [] freed_twice))
    × (invalid_free.extract_evidence freed_twice
        ≡ opt_map
            (evidence_of 0 0 (codes "invalid_free"))
            (first_where releases_dead [] freed_twice))
invalid_free-Reported_example = invalid_free-Reported freed_twice

extract_evidence_total_example :
    All (λ e. shows e.1.matcher copy_out_of_bounds ≡ true) Registry.new.rules
extract_evidence_total_example = extract_evidence_total copy_out_of_bounds

rule_matches-Agrees_example :
    (rule_matches (codes "memcpy") freed_twice ≡ memcpy_oob.matches freed_twice)
    × (rule_matches (codes "double_free") freed_twice ≡ double_free.matches freed_twice)
    × (rule_matches (codes "uaf") freed_twice ≡ uaf_hint.matches freed_twice)
    × ((rule_matches (codes "invalid_free") freed_twice && not (invalid_free.matches freed_twice))
        ≡ false)
rule_matches-Agrees_example = rule_matches-Agrees freed_twice

abbrev double_free_info : RuleInfo
double_free_info = record {
  id = codes "R-double-free";
  rule_type = codes "double_free";
  min_hits = 1;
  window_ms = 0;
}

double_free_known : rule_info (codes "R-double-free") ≡ some double_free_info
unfolding rule_info
double_free_known = refl

events_complete_example : Completes plain (
    process_event plain
      (play plain (new_engine (default_config plain)) ((last_free, readings 2) ∷ []))
      last_free
      (readings 3))
events_complete_example =
    events_complete plain plain-Iterates (default_config plain) ((last_free, readings 2) ∷ [])
      last_free (readings 3) (usable 2, tt) (usable 3)

-- A copy out of bounds that is the second of its cluster.
abbrev hit_once : RuleEngine ℕ
hit_once =
    (check_rule_by_id plain (engine_with copy_out_of_bounds) (codes "R-memcpy-oob")
      (event_at 10 EventType.memcpy 0x2000 32 16) (read_of_clock 2)).0

abbrev copy_event : SentinelEvent
copy_event = event_at 10 EventType.memcpy 0x2000 32 16

abbrev result_of_copy : Result (Option Finding)
result_of_copy =
    (check_rule_by_id plain hit_once (codes "R-memcpy-oob") copy_event (read_of_clock 3)).1

abbrev pub copy_finding : Finding
copy_finding =
    simple_finding plain hit_once (codes "memcpy") AnomalyClass.heap_overflow Confidence.high
      Severity.high copy_out_of_bounds copy_event 5 5

copy_found : result_of_copy ≡ ok (some copy_finding)
unfolding check_rule_by_id rule_info is_cooling get new_engine rule_matches since count_hit alter
    text_cmp cluster_key lower_hex class_of_type simple_finding
copy_found = refl

copy_rest : get_cooldown hit_once.config (codes "R-memcpy-oob") ≡ 10000 * 1000000
unfolding get_cooldown get check_rule_by_id rule_info is_cooling new_engine rule_matches since
    count_hit default_config alter text_cmp
copy_rest = refl

rule_rests_example :
    let later =
      play plain
        (check_rule_by_id plain hit_once (codes "R-memcpy-oob") copy_event (read_of_clock 3)).0
        ((copy_event, readings 4) ∷ []) in
    check_rule_by_id plain later (codes "R-memcpy-oob") copy_event (read_of_clock 5)
    ≡ (later, ok none)
rule_rests_example =
    rule_rests plain hit_once (codes "R-memcpy-oob") copy_event (read_of_clock 3) copy_finding
      ((copy_event, readings 4) ∷ []) copy_event (read_of_clock 5) copy_found
      (omega (arith, copy_rest), tt) (omega (arith, copy_rest))

short_window : window_ns plain (engine_with copy_out_of_bounds) < u64_mod
unfolding new_engine default_config
short_window = omega arith

event_buffer-IsWindow_example :
    (process_event plain (engine_with copy_out_of_bounds) last_free (readings 3)).0.event_buffer ≡ (
      if leb (window_ns plain (engine_with copy_out_of_bounds)) last_free.ts_ns
      then keep
          (λ e. leb last_free.ts_ns (e.ts_ns + window_ns plain (engine_with copy_out_of_bounds)))
          (copy_out_of_bounds ++ last_free ∷ [])
      else [])
event_buffer-IsWindow_example =
    event_buffer-IsWindow plain (engine_with copy_out_of_bounds) last_free (readings 3)
      (unfold new_engine in omega arith) (omega arith) short_window

abbrev early_event : SentinelEvent
early_event = event_at 1 EventType.free 0x1000 0 0

early_event_unseen_example :
    check_rule_by_id plain
      (engine_with (early_event ∷ []))
      (codes "R-invalid-free")
      early_event
      (read_of_clock 3)
    ≡ (engine_with (early_event ∷ []), ok none)
early_event_unseen_example =
    early_event_unseen plain (engine_with (early_event ∷ [])) (codes "R-invalid-free") early_event
      (read_of_clock 3) (omega arith) (omega arith, tt)
