-- ===== src/Examples/Agent.antt =====
-- The summaries for agents, at sample values.
use recompile.Base.{
  ℕ, ◌≡◌, refl, Bool, true, false, Option, none, some, List, [], ◌∷◌, Text, codes, count, any, find,
  find_last, opt_map, unwrap_or,
}
use recompile.Base.Order.{text_ord}
use recompile.Base.Dict.{get}
use recompile.Base.Sets.{member}
use recompile.Cli.Agent.{
  gather_all, nothing_gathered, linked_escalation, compact_escalation_result, has_finding_id,
}
use recompile.Cli.Agent.Links.{is_confirmed, is_of_tool, detects, escalation_links}
use recompile.Examples.Issues.{Value, text, get_field, sample_json}
use recompile.Examples.Promotion.{sample_object, sample_maker}

abbrev no_bool : Value → Option Bool
no_bool v = none

abbrev result_of : Text → Value
result_of tool =
    sample_object ((codes "finding_id", text (codes "F1")) ∷ (codes "tool", text tool) ∷ [])

abbrev two_results : List Value
two_results = result_of (codes "valgrind") ∷ result_of (codes "asan") ∷ []

abbrev escalated_finding : Value
escalated_finding = sample_object ((codes "id", text (codes "F1")) ∷ [])

abbrev tool_in : Option Value → Option Value
tool_in none = none
tool_in (some v) = get_field v (codes "tool")

-- The two summaries of one finding name different tools.
linked_test :
    get_field
      (linked_escalation sample_json sample_maker no_bool escalated_finding two_results)
      (codes "tool")
    ≡ some (text (codes "valgrind"))
unfolding get_field linked_escalation
linked_test = refl

listed_test :
    tool_in (
      get
        (codes "F1")
        (gather_all sample_json sample_maker no_bool two_results
          (nothing_gathered sample_json sample_maker no_bool)).by_finding)
    ≡ some (text (codes "asan"))
unfolding get gather_all get_field recompile.Base.Dict.alter recompile.Base.Order.text_cmp
listed_test = refl

escalation_links_example :
    let g =
      gather_all sample_json sample_maker no_bool two_results
        (nothing_gathered sample_json sample_maker no_bool) in
    (g.confirmed_runs ≡ count (is_confirmed sample_json sample_maker no_bool) two_results)
    × ((t : Text)
        → member t g.tools ≡ any (is_of_tool sample_json sample_maker no_bool t) two_results)
    × ((c : Text)
        → member c g.detected_classes
          ≡ any (detects sample_json sample_maker no_bool c) two_results)
    × (linked_escalation sample_json sample_maker no_bool escalated_finding two_results
        ≡ unwrap_or
            (opt_map
              (compact_escalation_result sample_json sample_maker no_bool)
              (find (has_finding_id sample_json sample_maker no_bool (codes "F1")) two_results))
            sample_maker.null)
    × (get (codes "F1") g.by_finding
        ≡ opt_map
            (compact_escalation_result sample_json sample_maker no_bool)
            (find_last (has_finding_id sample_json sample_maker no_bool (codes "F1")) two_results))
unfolding get_field
escalation_links_example =
    escalation_links sample_json sample_maker no_bool two_results escalated_finding (codes "F1")
      refl
