-- ===== src/Cli/Promote/Gdb.antt =====
-- recompile/rerun/src/cli.rs: `enrich_gdb_crash_findings`, what the reports of gdb add to the findings of
-- crashes.
pub mod Objects
pub mod Kept
pub mod Same
use recompile.Base.{
  ℕ, ◌∷◌, [], ◌++◌, ◌&&◌, ◌>>=◌, Bool, true, false, Option, none, some, List, map, any, not, Text,
  codes, text_eq, unwrap_or, if◌then◌else◌,
}
use recompile.Escalate.Result.{EscalationResult, is_empty}
use recompile.Issues.Json.{Json}
use recompile.Cli.Promote.Findings.{
  Maker, same_text, text_or_null, integer_or_null, finding_class, is_confirmed_by,
}

module _ {V : Type 0} (json : Json V) (maker : Maker V) where
  -- The value, or an empty object in its place.
  abbrev pub object_of : V → V
  object_of v = if json.is_object v then v else maker.object []

  -- `ensure_object_path(value, path).insert(key, x)`
  unfoldable pub insert_at : V → List Text → Text → V → V
  insert_at v [] key x = json.insert (object_of v) key x
  insert_at v (step ∷ path) key x =
      json.insert (object_of v) step
        (insert_at (unwrap_or (json.get (object_of v) step) (maker.object [])) path key x)

  abbrev pub field_or_null : V → Text → V
  field_or_null report key = unwrap_or (json.get report key) maker.null

  unfoldable pub gdb_evidence : EscalationResult → V → V
  gdb_evidence result report = maker.object (
      (codes "result_id", json.string result.id)
      ∷ (codes "report_path", text_or_null json maker result.report_path)
      ∷ (codes "stdout_path", text_or_null json maker result.stdout_path)
      ∷ (codes "stderr_path", text_or_null json maker result.stderr_path)
      ∷ (codes "command", maker.array (map json.string result.command))
      ∷ (codes "exit_code", integer_or_null json maker result.exit_code)
      ∷ (codes "signal_name", field_or_null report (codes "signal_name"))
      ∷ (codes "signal_line", field_or_null report (codes "signal_line"))
      ∷ (codes "registers", unwrap_or (json.get report (codes "registers")) (maker.array []))
      ∷ [])

  -- The command that shows the report, among the next commands, if the finding has a list of those.
  unfoldable pub with_next_command : Option Text → V → V
  unfolding text_eq
  with_next_command none finding = finding
  with_next_command (some report_path) finding =
      let command = codes "cat " ++ report_path in
      elim (json.get finding (codes "next_commands") >>= json.as_array) [
        | none ↦ finding
        | some commands ↦
            if any (λ value. same_text (json.as_str value) command) commands
            then finding
            else json.insert finding (codes "next_commands")
                (maker.array (commands ++ json.string command ∷ []))
      ]

  -- The body of the inner loop.
  unfoldable pub enrich_finding : EscalationResult → V → List V → V → V
  unfolding insert_at gdb_evidence with_next_command
  enrich_finding result report crash_frames finding = with_next_command result.report_path (
      insert_at
        (insert_at finding (codes "evidence" ∷ codes "stacks" ∷ []) (codes "crash")
          (maker.array crash_frames))
        (codes "evidence" ∷ codes "tool" ∷ []) (codes "gdb") (gdb_evidence result report))

  -- Is it the crash that gdb was asked about?
  abbrev pub is_crash : EscalationResult → V → Bool
  is_crash result finding =
      is_confirmed_by json result.finding_id (codes "unclassified_crash") finding

  -- The inner loop, and whether it has changed a finding.
  unfoldable pub enrich_each : EscalationResult → V → List V → List V → List V × Bool
  unfolding enrich_finding
  enrich_each result report crash_frames [] = ([], false)
  enrich_each result report crash_frames (finding ∷ findings) =
      let (rest, changed) = enrich_each result report crash_frames findings in
      if is_crash result finding
      then (enrich_finding result report crash_frames finding ∷ rest, true)
      else (finding ∷ rest, changed)

  abbrev pub is_gdb_result : EscalationResult → Bool
  unfolding text_eq
  is_gdb_result result = text_eq result.tool (codes "gdb") && result.success && result.confirmed

  -- Reading and parsing a report is a parameter.
  module _ (read_report : Text → Option V) where
    -- The body of the outer loop.
    unfoldable pub enrich_with : EscalationResult → List V × Bool → List V × Bool
    unfolding enrich_each is_gdb_result
    enrich_with result (findings, changed) =
        if is_gdb_result result
        then elim (result.report_path >>= read_report) [
          | none ↦ (findings, changed)
          | some report ↦
              let crash_frames =
                unwrap_or (json.get report (codes "crash_frames") >>= json.as_array) [] in
              if is_empty crash_frames
              then (findings, changed)
              else (let (enriched, now) = enrich_each result report crash_frames findings in
                  (enriched, if now then true else changed))
        ]
        else (findings, changed)

    unfoldable pub enrich_from : List EscalationResult → List V × Bool → List V × Bool
    unfolding enrich_with
    enrich_from [] state = state
    enrich_from (result ∷ results) state = enrich_from results (enrich_with result state)

    unfoldable pub enrich_gdb_crash_findings : List V → List EscalationResult → List V × Bool
    unfolding enrich_from
    enrich_gdb_crash_findings findings results = enrich_from results (findings, false)
