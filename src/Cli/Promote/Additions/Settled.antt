-- ===== src/Cli/Promote/Additions/Settled.antt =====
-- What the promotion has dealt with: a detection is settled if it confirms a finding or its key is known.
use recompile.Base.{
  ℕ, ◌+◌, ◌≡◌, refl, ◌∷◌, [], ◌++◌, ◌||◌, Bool, true, Option, none, some, List, All, All-map,
  is_some, Text, arith, any-append, Option-cases, inl, inr, >>=-eq-some,
}
use mathlib.Core.Path.{subst}
use recompile.Base.Order.{text_ord}
use recompile.Base.Dict.{same_self}
use recompile.Base.Sets.{member, member-insert}
use recompile.Escalate.Result.{EscalationResult}
use recompile.Issues.Json.{Json}
use recompile.Cli.Effects.{NativeRunMetadata}
use recompile.Cli.Promote.{ToolDetection}
use recompile.Cli.Promote.Findings.{
  Maker, tool_detection_key, tool_backed_finding, confirms_existing_finding, is_confirmed_by,
}
use recompile.Cli.Promote.Additions.{
  Promotion, promote_detection, promote_detections, promote_results,
}

module _ {V : Type 0} (json : Json V) (maker : Maker V) (quote : Text → Text)
    (analysis : NativeRunMetadata) where
  abbrev pub is_settled : Promotion V → EscalationResult → ToolDetection → Bool
  is_settled p result d =
      confirms_existing_finding json p.findings result d
      || member (tool_detection_key quote result.tool d) p.known_tool_keys

  -- What was settled stays so, and what was handled is settled.
  confirms-append :
      (fs : List V) (f : V) (result : EscalationResult) (d : ToolDetection)
      → confirms_existing_finding json fs result d ≡ true
      → confirms_existing_finding json (fs ++ f ∷ []) result d ≡ true
  unfolding confirms_existing_finding
  confirms-append fs f result d h =
      ground (arith, h, any-append (is_confirmed_by json result.finding_id d.class) fs (f ∷ []))

  is_settled_stays :
      (result : EscalationResult) (index : ℕ) (d : ToolDetection) (p : Promotion V)
      (r : EscalationResult) (e : ToolDetection)
      → is_settled p r e ≡ true
      → is_settled (promote_detection json maker quote analysis result index d p) r e ≡ true
  unfolding promote_detection
  is_settled_stays result index d p r e h =
      let key = tool_detection_key quote result.tool d in
      let new = tool_backed_finding json maker result d index analysis in
      ground (
        arith,
        h,
        confirms-append p.findings new r e,
        member-insert (tool_detection_key quote r.tool e) key p.known_tool_keys,
      )

  is_settled_then :
      (result : EscalationResult) (index : ℕ) (d : ToolDetection) (p : Promotion V)
      → is_settled (promote_detection json maker quote analysis result index d p) result d ≡ true
  unfolding promote_detection
  is_settled_then result index d p =
      let key = tool_detection_key quote result.tool d in
      ground (arith, member-insert key key p.known_tool_keys, same_self key)

  detections_stay :
      (result : EscalationResult) (index : ℕ) (ds : List ToolDetection) (p : Promotion V)
      (r : EscalationResult) (e : ToolDetection)
      → is_settled p r e ≡ true
      → is_settled (promote_detections json maker quote analysis result index ds p) r e ≡ true
  unfolding promote_detections
  detections_stay result index [] p r e h = h
  detections_stay result index (d ∷ ds) p r e h =
      detections_stay result (index + 1) ds _ r e (is_settled_stays result index d p r e h)

  detections_settled :
      (result : EscalationResult) (index : ℕ) (ds : List ToolDetection) (p : Promotion V)
      → All
          (λ d.
            is_settled (promote_detections json maker quote analysis result index ds p) result d
            ≡ true)
          ds
  unfolding promote_detections
  detections_settled result index [] p = tt
  detections_settled result index (d ∷ ds) p = (
    detections_stay result (index + 1) ds _ result d (is_settled_then result index d p),
    detections_settled result (index + 1) ds
        (promote_detection json maker quote analysis result index d p),
  )

  -- A promotion that has nothing to add for settled detections.
  detections_skipped :
      (result : EscalationResult) (index : ℕ) (ds : List ToolDetection) (p : Promotion V)
      → All (λ d. is_settled p result d ≡ true) ds
      → promote_detections json maker quote analysis result index ds p ≡ p
  unfolding promote_detections promote_detection
  detections_skipped result index [] p h = refl
  detections_skipped result index (d ∷ ds) p h =
      ground (arith, h.0, detections_skipped result (index + 1) ds p h.1)

  module _ (tool_detections : EscalationResult → Option (List ToolDetection)) where
    -- The detections of a result are settled.
    abbrev pub AreSettled : Promotion V → EscalationResult → Option (List ToolDetection) → Type 0
    AreSettled p result none = Unit
    AreSettled p result (some ds) = All (λ d. is_settled p result d ≡ true) ds

    results_stay :
        (results : List EscalationResult) (p q : Promotion V) (r : EscalationResult)
        (e : ToolDetection)
        → promote_results json maker quote analysis tool_detections results p ≡ some q
        → is_settled p r e ≡ true
        → is_settled q r e ≡ true
    unfolding promote_results
    results_stay [] p q r e h s = ground (arith, h, s)
    results_stay (result ∷ results) p q r e h s =
        let (ds, found, rest) = >>=-eq-some (tool_detections result) _ h in
        results_stay results _ q r e rest (detections_stay result 0 ds p r e s)

    -- Behind the loop the detections of every result are settled.
    pub results_settled :
        (results : List EscalationResult) (p q : Promotion V)
        → promote_results json maker quote analysis tool_detections results p ≡ some q
        → All (λ r. AreSettled q r (tool_detections r)) results
    unfolding promote_results
    results_settled [] p q h = tt
    results_settled (result ∷ results) p q h =
        let (ds, found, rest) = >>=-eq-some (tool_detections result) _ h in
        (
          rw found (
              All-map (λ d s. results_stay results _ q result d rest s) ds
                (detections_settled result 0 ds p)),
          results_settled results _ q rest,
        )

    -- Settled results change nothing.
    pub results_skipped :
        (results : List EscalationResult) (p : Promotion V)
        → All (λ r. AreSettled p r (tool_detections r)) results
        → All (λ r. is_some (tool_detections r) ≡ true) results
        → promote_results json maker quote analysis tool_detections results p ≡ some p
    unfolding promote_results
    results_skipped [] p h d = refl
    results_skipped (result ∷ results) p h d = elim (Option-cases (tool_detections result)) [
      | inl missing ↦ absurd (ground (arith, missing, d.0))
      | inr (ds, found) ↦
          let settled = subst (λ o. AreSettled p result o) found h.0 in
          let same = detections_skipped result 0 ds p settled in
          rw (found, promote_results) (rw same (results_skipped results p h.1 d.1))
    ]
