-- ===== src/Observation/Run/Totals.antt =====
-- The totals of a run over its targets.
use recompile.Base.{
  ℕ, ◌+◌, ◌<◌, ◌≡◌, List, [], ◌∷◌, Text, arith, length, count, sum_of, u64_mod, if◌then◌else◌,
  count-le-length,
}
use recompile.Base.Order.{text_ord, text_cmp}
use recompile.Base.Dict.{same}
use recompile.Base.Tally.{counter, grand_total, share, counter-tally, grand_total-tally}
use recompile.Observation.Status.{TargetStatus, as_str, status_eq}
use recompile.Observation.Target.{ObservationTargetSummary}
use recompile.Observation.Run.{new_run, status_totals}

-- Names of statuses are told apart by the map.
pub same-as_str : (s t : TargetStatus) → same (as_str s) (as_str t) ≡ status_eq s t
unfolding as_str text_cmp
same-as_str s t = ground arith

share-count :
    (s : TargetStatus) (targets : List ObservationTargetSummary)
    → share (λ target. as_str target.status) (λ _. 1) (as_str s) targets
      ≡ count (λ target. status_eq s target.status) targets
share-count s [] = omega arith
share-count s (t ∷ ts) = ground (arith, same-as_str s t.status, share-count s ts)

length-sum : (targets : List ObservationTargetSummary) → sum_of (λ _. 1) targets ≡ length targets
length-sum [] = omega arith
length-sum (t ∷ ts) = omega (arith, length-sum ts)

-- In a run summary the entry of `status_totals` at the name of a status is the number of targets
-- with that status (an absent entry reads as 0), for fewer than 2^64 targets.
pub status_totals_count :
    (output_root : Text) (targets : List ObservationTargetSummary) (next_commands : List Text)
    (s : TargetStatus)
    → length targets < u64_mod
    → counter (as_str s) (new_run output_root targets next_commands).status_totals
      ≡ count (λ target. status_eq s target.status) targets
unfolding new_run status_totals recompile.Base.Dict.get
status_totals_count output_root targets next_commands s h = omega (
  arith,
  counter-tally (λ target. as_str target.status) (λ _. 1) (as_str s) [] targets (omega arith),
  share-count s targets,
  count-le-length (λ target. status_eq s target.status) targets,
)

-- The entries of `status_totals` add up to `target_count`, for fewer than 2^64 targets.
pub status_totals_total :
    (output_root : Text) (targets : List ObservationTargetSummary) (next_commands : List Text)
    → length targets < u64_mod
    → let run = new_run output_root targets next_commands in
      grand_total run.status_totals ≡ run.target_count
unfolding new_run status_totals
status_totals_total output_root targets next_commands h = omega (
  arith,
  length-sum targets,
  grand_total-tally (λ target. as_str target.status) (λ _. 1) [] targets
      (omega (arith, length-sum targets)),
)
