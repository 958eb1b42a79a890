-- ===== src/Cli/Fallback/Laws.antt =====
-- How the results of the tools give the status of a target that only they could look at.
use recompile.Base.{
  ℕ, ◌≡◌, refl, true, false, ◌||◌, ◌&&◌, not, List, [], ◌∷◌, arith, ltb, leb, ◌==◌, any, all, keep,
  max, if◌then◌else◌,
}
use recompile.Observation.Status.{
  TargetStatus, clean, findings, failed, timeout, skipped, tool_unavailable, not_applicable,
}
use recompile.Observation.Target.{ObservationTargetSummary}
use recompile.Escalate.Result.{EscalationResult, is_empty}
use recompile.Cli.Fallback.{escalation_status, has_status, shows_findings, fallback_target_status}

-- How much a tool's status says of a program, the most last.
abbrev pub rank : TargetStatus → ℕ
rank skipped = 1
rank not_applicable = 2
rank failed = 3
rank findings = 3
rank tool_unavailable = 4
rank timeout = 5
rank clean = 6

abbrev pub highest : List EscalationResult → ℕ
highest [] = 0
highest (r ∷ rs) = max (rank (escalation_status r)) (highest rs)

abbrev pub verdict : ℕ → TargetStatus
verdict n =
    if leb 6 n
    then clean
    else if leb 5 n
    then timeout
    else if leb 4 n
    then tool_unavailable
    else if leb 3 n
    then failed
    else if n == 1
    then skipped
    else not_applicable

abbrev counted : List EscalationResult → List EscalationResult
counted rs = keep (λ r. not (has_status skipped r)) rs

any-rank :
    (rs : List EscalationResult)
    → (any (λ r. has_status clean r) (counted rs) ≡ leb 6 (highest rs))
      × ((any (λ r. has_status clean r) (counted rs)
            || any (λ r. has_status timeout r) (counted rs))
          ≡ leb 5 (highest rs))
      × ((any (λ r. has_status clean r) (counted rs)
            || any (λ r. has_status timeout r) (counted rs)
            || any (λ r. has_status tool_unavailable r) (counted rs))
          ≡ leb 4 (highest rs))
unfolding has_status
any-rank [] = (refl, refl, refl)
any-rank (r ∷ rs) = ground (arith, any-rank rs)

all-rank :
    (rs : List EscalationResult)
    → (all (λ r. has_status not_applicable r) (counted rs) ≡ leb (highest rs) 2)
      × (is_empty (counted rs) ≡ leb (highest rs) 1)
      × (all (λ r. has_status skipped r) rs ≡ leb (highest rs) 1)
      × (is_empty rs ≡ (highest rs == 0))
unfolding has_status
all-rank [] = (refl, refl, refl, refl)
all-rank (r ∷ rs) = ground (arith, all-rank rs)

na-rank :
    (rs : List EscalationResult)
    → (all (λ r. has_status not_applicable r) rs && leb 3 (highest rs)) ≡ false
unfolding has_status
na-rank [] = refl
na-rank (r ∷ rs) = ground (arith, na-rank rs)

na-empty :
    (rs : List EscalationResult)
    → is_empty rs ≡ true
    → all (λ r. has_status not_applicable r) rs ≡ true
na-empty [] h = refl
na-empty (r ∷ rs) h = cc

-- The status of a target that only the tools have looked at: `findings` if it has any or a tool
-- confirms or detects some, else what the most telling result says, `clean` before `timeout`
-- before `tool_unavailable` before `failed` before `not_applicable` before `skipped`, whatever
-- the order of the tools; with no result it is `not_applicable`. A result with the status findings
-- that neither confirms nor detects any ranks with `failed`.
pub fallback_status_ranks :
    (target : ObservationTargetSummary) (results : List EscalationResult)
    → fallback_target_status target results ≡ (
        if ltb 0 target.findings_count || any shows_findings results
        then findings
        else verdict (highest results))
unfolding fallback_target_status
fallback_status_ranks target results =
    ground (arith, any-rank results, all-rank results, na-rank results, na-empty results)
