-- ===== src/Observation/Run/Classes.antt =====
-- The totals of a run by class and by tool.
use recompile.Base.{
  ℕ, sym, Option, some, Bool-cases, inl, inr, ◌%◌, ◌<◌, ◌≡◌, ap, ◌∙◌, Bool, ◌&&◌, List, [], ◌∷◌,
  Text, arith, count, sum_of, u64_mod, add64, unwrap_or, if◌then◌else◌,
}
use recompile.Base.Order.{text_ord}
use recompile.Base.Dict.{Dict, get, alter, same, same→eq, get-alter}
use recompile.Base.Tally.{bump, counter, share, counter-tally, counter-bump}
use recompile.Observation.Status.{TargetStatus, as_str, status_eq}
use recompile.Observation.Target.{ObservationTargetSummary, ObservationEscalationSummary}
use recompile.Observation.Run.{
  add_classes, add_targets, finding_totals_by_class, count_escalations, add_escalations,
  escalation_totals_by_tool,
}
use recompile.Observation.Run.Totals.{same-as_str}

-- What a map of counts by class says of one class.
abbrev pub reported : Text → Dict Text ℕ → ℕ
reported class by_class = share (λ entry. entry.0) (λ entry. entry.1) class by_class

add_targets-reported :
    (class : Text) (m : Dict Text ℕ) (ts : List ObservationTargetSummary)
    → counter class m < u64_mod
    → counter class (add_targets m ts)
      ≡ add64 (counter class m) (sum_of (λ t. reported class t.findings_by_class) ts)
unfolding add_targets add_classes
add_targets-reported class m [] h = omega arith
add_targets-reported class m (t ∷ ts) h =
    let one = counter-tally (λ (e : Text × ℕ). e.0) (λ e. e.1) class m t.findings_by_class h in
    omega (
      arith,
      one,
      add_targets-reported class (add_classes m t.findings_by_class) ts (omega (arith, one)),
    )

-- The entry of `finding_totals_by_class` at a class is the sum of what the targets report of that
-- class, modulo 2^64 (an absent entry reads as 0).
pub finding_totals_sum :
    (class : Text) (targets : List ObservationTargetSummary)
    → counter class (finding_totals_by_class targets)
      ≡ sum_of (λ t. reported class t.findings_by_class) targets % u64_mod
unfolding finding_totals_by_class get
finding_totals_sum class targets =
    omega (arith, add_targets-reported class [] targets (omega arith))

-- The count under a tool and a status, 0 if there is none.
abbrev pub count_at : Text → Text → Dict Text (Dict Text ℕ) → ℕ
count_at tool status totals = counter status (unwrap_or (get tool totals) [])

abbrev pub ran : Text → TargetStatus → ObservationEscalationSummary → Bool
ran tool s e = same tool e.tool && status_eq s e.status

count_at-alter :
    (tool : Text) (s : TargetStatus) (m : Dict Text (Dict Text ℕ))
    (e : ObservationEscalationSummary)
    → count_at tool (as_str s) m < u64_mod
    → count_at tool (as_str s) (alter e.tool (λ old. bump (as_str e.status) 1 (unwrap_or old [])) m)
      ≡ add64 (count_at tool (as_str s) m) (if ran tool s e then 1 else 0)
count_at-alter tool s m e h =
    let grow : Option (Dict Text ℕ) → Dict Text ℕ =
      λ old. bump (as_str e.status) 1 (unwrap_or old []) in
    elim (Bool-cases (same tool e.tool)) [
      | inl hit ↦
          let found =
            get-alter tool e.tool grow m
            ∙ ap (λ b. if b then some (grow (get e.tool m)) else get tool m) hit
            ∙ ap (λ k. some (grow (get k m))) (sym (same→eq tool e.tool hit)) in
          ap (λ o. counter (as_str s) (unwrap_or o [])) found
          ∙ counter-bump (as_str s) (as_str e.status) 1 (unwrap_or (get tool m) []) h
          ∙ ap (λ b. add64 (count_at tool (as_str s) m) (if b then 1 else 0))
              (same-as_str s e.status ∙ sym (ap (λ b. b && status_eq s e.status) hit))
      | inr miss ↦
          let kept =
            get-alter tool e.tool grow m
            ∙ ap (λ b. if b then some (grow (get e.tool m)) else get tool m) miss in
          ap (λ o. counter (as_str s) (unwrap_or o [])) kept ∙ ground (arith, miss, h)
    ]

count_escalations-ran :
    (tool : Text) (s : TargetStatus) (m : Dict Text (Dict Text ℕ))
    (es : List ObservationEscalationSummary)
    → count_at tool (as_str s) m < u64_mod
    → count_at tool (as_str s) (count_escalations m es)
      ≡ add64 (count_at tool (as_str s) m) (count (λ e. ran tool s e) es)
unfolding count_escalations
count_escalations-ran tool s m [] h = omega arith
count_escalations-ran tool s m (e ∷ es) h =
    let one = count_at-alter tool s m e h in
    omega (
      arith,
      one,
      count_escalations-ran tool s
          (alter e.tool (λ old. bump (as_str e.status) 1 (unwrap_or old [])) m) es
          (omega (arith, one)),
    )

add_escalations-ran :
    (tool : Text) (s : TargetStatus) (m : Dict Text (Dict Text ℕ))
    (ts : List ObservationTargetSummary)
    → count_at tool (as_str s) m < u64_mod
    → count_at tool (as_str s) (add_escalations m ts)
      ≡ add64 (count_at tool (as_str s) m) (sum_of (λ t. count (λ e. ran tool s e) t.escalation) ts)
unfolding add_escalations
add_escalations-ran tool s m [] h = omega arith
add_escalations-ran tool s m (t ∷ ts) h =
    let one = count_escalations-ran tool s m t.escalation h in
    omega (
      arith,
      one,
      add_escalations-ran tool s (count_escalations m t.escalation) ts (omega (arith, one)),
    )

-- The entry of `escalation_totals_by_tool` under a tool and a status is the number of escalations,
-- over all targets, of that tool with that status, modulo 2^64 (an absent entry reads as 0).
pub escalation_totals_count :
    (tool : Text) (s : TargetStatus) (targets : List ObservationTargetSummary)
    → count_at tool (as_str s) (escalation_totals_by_tool targets)
      ≡ sum_of (λ t. count (λ e. ran tool s e) t.escalation) targets % u64_mod
unfolding escalation_totals_by_tool get
escalation_totals_count tool s targets =
    omega (arith, add_escalations-ran tool s [] targets (omega arith))
