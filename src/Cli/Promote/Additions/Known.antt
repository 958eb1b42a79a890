-- ===== src/Cli/Promote/Additions/Known.antt =====
-- What the promotion knows: its keys are those of its findings.
use recompile.Base.{
  ℕ, ◌+◌, ◌≡◌, refl, ◌∙◌, ◌∷◌, [], Bool, true, false, Option, none, some, List, All, All-map, Text,
  arith, any, any-append, filter_map, Option-cases, inl, inr, >>=-eq-some, is_some,
}
use mathlib.Core.Path.{subst}
use recompile.Base.Order.{text_ord}
use recompile.Base.Dict.{same, get}
use recompile.Base.Sets.{member, member-insert, member-insert_all}
use recompile.Escalate.Result.{EscalationResult}
use recompile.Issues.Json.{Json}
use recompile.Cli.Effects.{NativeRunMetadata}
use recompile.Cli.Promote.{ToolDetection}
use recompile.Cli.Promote.Findings.{
  Maker, tool_detection_key, tool_backed_finding, confirms_existing_finding, existing_key,
  existing_tool_detection_keys,
}
use recompile.Cli.Promote.Additions.{
  Promotion, promote_detection, promote_detections, promote_results,
}
use recompile.Cli.Promote.Additions.Settled.{AreSettled}
use recompile.Cli.Promote.Findings.Keys.{MakerLaws, IsTrimmed, existing_key-tool_backed_finding}

member_empty : (k : Text) → member k [] ≡ false
unfolding get
member_empty k = refl

some_injective {ℓ} : {A : Type ℓ} {a b : A} → some a ≡ some b → a ≡ b
some_injective e = cc

module _ {V : Type 0} (json : Json V) (maker : Maker V) (laws : MakerLaws json maker)
    (quote : Text → Text) (analysis : NativeRunMetadata) where
  -- Does a finding have a key?
  abbrev pub has_key : Text → V → Bool
  has_key k f = elim (existing_key json quote f) [ none ↦ false | some j ↦ same k j ]

  any-keys :
      (k : Text) (fs : List V)
      → any (λ j. same k j) (filter_map (existing_key json quote) fs) ≡ any (has_key k) fs
  any-keys k [] = refl
  any-keys k (f ∷ fs) = elim (Option-cases (existing_key json quote f)) [
    | inl missing ↦ ground (arith, missing, any-keys k fs)
    | inr (j, found) ↦ ground (arith, found, any-keys k fs)
  ]

  pub member-existing :
      (k : Text) (fs : List V)
      → member k (existing_tool_detection_keys json quote fs) ≡ any (has_key k) fs
  unfolding existing_tool_detection_keys
  member-existing k fs =
      member-insert_all k (filter_map (existing_key json quote) fs) []
      ∙ ground (arith, any-keys k fs, member_empty k)

  -- The known keys are those of the findings.
  abbrev pub KeysAgree : Promotion V → Type 0
  KeysAgree p = (k : Text) → member k p.known_tool_keys ≡ any (has_key k) p.findings

  has_key_new :
      (k : Text) (result : EscalationResult) (d : ToolDetection) (index : ℕ)
      → IsTrimmed d
      → has_key k (tool_backed_finding json maker result d index analysis)
        ≡ same k (tool_detection_key quote result.tool d)
  has_key_new k result d index t =
      ground
        (arith, existing_key-tool_backed_finding json maker laws quote analysis result d index t)

  detection-KeysAgree :
      (result : EscalationResult) (index : ℕ) (d : ToolDetection) (p : Promotion V)
      → IsTrimmed d
      → KeysAgree p
      → KeysAgree (promote_detection json maker quote analysis result index d p)
  unfolding promote_detection
  detection-KeysAgree result index d p t h k =
      let key = tool_detection_key quote result.tool d in
      let new = tool_backed_finding json maker result d index analysis in
      ground (
        arith,
        h k,
        member-insert k key p.known_tool_keys,
        any-append (has_key k) p.findings (new ∷ []),
        has_key_new k result d index t,
      )

  detections-KeysAgree :
      (result : EscalationResult) (index : ℕ) (ds : List ToolDetection) (p : Promotion V)
      → All IsTrimmed ds
      → KeysAgree p
      → KeysAgree (promote_detections json maker quote analysis result index ds p)
  unfolding promote_detections
  detections-KeysAgree result index [] p t h = h
  detections-KeysAgree result index (d ∷ ds) p t h =
      detections-KeysAgree result (index + 1) ds _ t.1 (detection-KeysAgree result index d p t.0 h)

  module _ (tool_detections : EscalationResult → Option (List ToolDetection)) where
    -- The detections of a result are trimmed, and reading them does not panic.
    abbrev pub AreTrimmed : Option (List ToolDetection) → Type 0
    AreTrimmed none = ⊥
    AreTrimmed (some ds) = All IsTrimmed ds

    pub AreTrimmed-some : (o : Option (List ToolDetection)) → AreTrimmed o → is_some o ≡ true
    AreTrimmed-some none h = absurd h
    AreTrimmed-some (some ds) h = refl

    pub results-KeysAgree :
        (results : List EscalationResult) (p q : Promotion V)
        → promote_results json maker quote analysis tool_detections results p ≡ some q
        → All (λ r. AreTrimmed (tool_detections r)) results
        → KeysAgree p
        → KeysAgree q
    unfolding promote_results
    results-KeysAgree [] p q e t h = subst KeysAgree (some_injective e) h
    results-KeysAgree (result ∷ results) p q e t h =
        let (ds, found, rest) = >>=-eq-some (tool_detections result) _ e in
        results-KeysAgree results _ q rest t.1
          (detections-KeysAgree result 0 ds p (subst AreTrimmed found t.0) h)

    -- The loop ends, where reading the detections does not panic.
    pub results_total :
        (results : List EscalationResult) (p : Promotion V)
        → All (λ r. AreTrimmed (tool_detections r)) results
        → (q : Promotion V) × (promote_results json maker quote analysis tool_detections results p
            ≡ some q)
    unfolding promote_results
    results_total [] p t = (p, refl)
    results_total (result ∷ results) p t = elim (Option-cases (tool_detections result)) [
      | inl missing ↦ absurd (subst AreTrimmed missing t.0)
      | inr (ds, found) ↦
          let (q, rest) =
            results_total results (promote_detections json maker quote analysis result 0 ds p)
              t.1 in
          (q, rw (promote_results, found) rest)
    ]

    -- A state that confirms the same and has the same known keys has the same detections settled.
    pub transfer :
        (p q : Promotion V) (r : EscalationResult) (o : Option (List ToolDetection))
        → ((d : ToolDetection)
            → confirms_existing_finding json p.findings r d
              ≡ confirms_existing_finding json q.findings r d)
        → ((k : Text) → member k p.known_tool_keys ≡ member k q.known_tool_keys)
        → AreSettled json maker quote analysis tool_detections p r o
        → AreSettled json maker quote analysis tool_detections q r o
    transfer p q r none c k h = tt
    transfer p q r (some ds) c k h =
        All-map (λ d s. ground (arith, s, k (tool_detection_key quote r.tool d), c d)) ds h
