-- ===== src/Cli/Agent.antt =====
-- recompile/rerun/src/cli.rs: the summaries for agents, of a crashpack and of a repeated run.
pub mod Links
pub mod Build
use recompile.Base.{
  ℕ, ◌+◌, ◌-◌, ◌==◌, ◌∷◌, [], ◌++◌, ◌>>=◌, Bool, true, false, Option, none, some, List, map, find,
  length, ltb, Text, codes, unwrap_or, opt_map, or_else, filter_map, if◌then◌else◌,
}
use recompile.Base.Order.{text_ord}
use recompile.Base.Dict.{Dict, alter}
use recompile.Base.Sets.{Set, insert, insert_all}
use recompile.Base.Paths.{path_join}
use recompile.Issues.Json.{Json}
use recompile.Issues.Finding.{value_at}
use recompile.Cli.Promote.Findings.{Maker, same_text}

-- The variables of the closure over the results.
pub record Gathered (V : Type 0) : Type 0 where
  pub tools : Set Text
  pub detected_classes : Set Text
  pub by_finding : Dict Text V
  pub confirmed_runs : ℕ

-- `Value::as_bool` is a parameter.
module _ {V : Type 0} (json : Json V) (maker : Maker V) (as_bool : V → Option Bool) where
  -- `value.get(key).cloned().unwrap_or(default)`, for null, an empty object and an empty array.
  abbrev pub kept : V → V → Text → Text × V
  kept default value key = (key, unwrap_or (json.get value key) default)

  abbrev pub or_null : V → Text → Text × V
  or_null value key = kept maker.null value key

  abbrev pub or_object : V → Text → Text × V
  or_object value key = kept (maker.object []) value key

  abbrev pub or_array : V → Text → Text × V
  or_array value key = kept (maker.array []) value key

  -- The value under a pointer of two names.
  abbrev pub pointer : V → V → Text → Text → V
  pointer default value outer key = unwrap_or (value_at json value (outer ∷ key ∷ [])) default

  unfoldable pub compact_escalation_result : V → V
  compact_escalation_result result = maker.object (
      map (or_null result)
        (codes "id" ∷ codes "finding_id" ∷ codes "tool" ∷ codes "success" ∷ codes "confirmed" ∷ [])
      ++ (or_array result (codes "findings_detected")
          ∷ map (or_null result) (codes "output_path" ∷ codes "report_path" ∷ codes "error" ∷ [])))

  -- A result that a finding with an id was escalated to.
  abbrev pub has_finding_id : Text → V → Bool
  has_finding_id id result = same_text (json.get result (codes "finding_id") >>= json.as_str) id

  unfoldable pub linked_escalation : V → List V → V
  unfolding compact_escalation_result
  linked_escalation finding escalation_results =
      unwrap_or
        (opt_map compact_escalation_result (
          (json.get finding (codes "id") >>= json.as_str) >>= λ id.
          find (has_finding_id id) escalation_results))
        maker.null

  unfoldable pub compact_agent_finding : List V → V → V
  unfolding linked_escalation
  compact_agent_finding escalation_results finding = maker.object (
      map (or_null finding) (
        codes "id"
        ∷ codes "origin"
        ∷ codes "fingerprint"
        ∷ codes "issue_group_id"
        ∷ codes "class"
        ∷ codes "severity"
        ∷ codes "confidence"
        ∷ codes "source"
        ∷ codes "operation"
        ∷ codes "memory"
        ∷ codes "crash"
        ∷ codes "stacks"
        ∷ codes "alloc_site"
        ∷ codes "tool"
        ∷ codes "escalation_plan"
        ∷ [])
      ++ (codes "escalation_result", linked_escalation finding escalation_results) ∷ [])

  -- What the closure does with a result.
  unfoldable pub gather : V → Gathered V → Gathered V
  unfolding compact_escalation_result
  gather result g = record {
    tools = elim (json.get result (codes "tool") >>= json.as_str) [
      | some tool ↦ insert tool g.tools
      | none ↦ g.tools
    ];
    detected_classes = elim (json.get result (codes "findings_detected") >>= json.as_array) [
      | some classes ↦ insert_all (filter_map json.as_str classes) g.detected_classes
      | none ↦ g.detected_classes
    ];
    by_finding = elim (json.get result (codes "finding_id") >>= json.as_str) [
      | some finding_id ↦ alter finding_id (λ old. compact_escalation_result result) g.by_finding
      | none ↦ g.by_finding
    ];
    confirmed_runs =
        if unwrap_or (json.get result (codes "confirmed") >>= as_bool) false
        then g.confirmed_runs + 1
        else g.confirmed_runs;
  }

  unfoldable pub gather_all : List V → Gathered V → Gathered V
  unfolding gather
  gather_all [] g = g
  gather_all (result ∷ results) g = gather_all results (gather result g)

  abbrev pub nothing_gathered : Gathered V
  nothing_gathered = record {
    tools = [];
    detected_classes = [];
    by_finding = [];
    confirmed_runs = 0;
  }

  -- The texts of a set.
  abbrev pub texts_of : Set Text → V
  texts_of set = maker.array (map (λ e. json.string e.0) set)

  unfoldable pub summarize_escalation_results : Text → List V → V
  unfolding gather_all path_join
  summarize_escalation_results crashpack_path results =
      let g = gather_all results nothing_gathered in
      maker.object (
        (
          codes "results_path",
          json.string
              (path_join (path_join crashpack_path (codes "escalations")) (codes "results.json")),
        )
        ∷ (codes "total_runs", maker.number (length results))
        ∷ (codes "confirmed_runs", maker.number g.confirmed_runs)
        ∷ (codes "tools", texts_of g.tools)
        ∷ (codes "detected_classes", texts_of g.detected_classes)
        ∷ (codes "by_finding_id", maker.object g.by_finding)
        ∷ (codes "results", maker.array (map compact_escalation_result results))
        ∷ [])
