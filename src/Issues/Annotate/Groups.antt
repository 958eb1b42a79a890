-- ===== src/Issues/Annotate/Groups.antt =====
-- What the groups of a crashpack hold.
use recompile.Base.{
  ℕ, suc, ◌+◌, ◌<◌, ◌≡◌, refl, sym, ap, ◌∷◌, [], ◌++◌, Bool, true, false, Option, none, some, List,
  map, Text, arith, ltb, length, length-append, append_assoc, append-nil, count, any, All, is_some,
  if◌then◌else◌, >>=-eq-some,
}
use mathlib.Core.Path.{subst}
use recompile.Base.Order.{text_ord}
use recompile.Base.Dict.{Dict, get, alter, same, same→eq, get-alter, IsSorted, alter-IsSorted}
use recompile.Base.Entries.{entries-get, count-get}
use recompile.Issues.Json.{Json}
use recompile.Issues.Inputs.{IssueFingerprintInputs, fingerprint_inputs}
use recompile.Issues.Fingerprint.{issue_fingerprint, issue_group_id}
use recompile.Issues.Annotate.{
  IssueGroup, IssueGroupReport, add_finding, enter, annotate, commit, new_call_site, finding_id_of,
  new_group, annotate_step, annotate_from, annotate_findings_with_issue_groups,
}

module _ {V : Type 0} (json : Json V) where
  -- Is this the finding's fingerprint?
  abbrev pub has_fingerprint : Text → V → Bool
  has_fingerprint f finding = elim (fingerprint_inputs json finding) [
    | none ↦ false
    | some inputs ↦ same f (issue_fingerprint inputs)
  ]

  -- The indices, from one on, of the findings with a fingerprint.
  abbrev pub indices_of : Text → ℕ → List V → List ℕ
  indices_of f index [] = []
  indices_of f index (finding ∷ findings) =
      let later = indices_of f (index + 1) findings in
      if has_fingerprint f finding then index ∷ later else later

  -- A group for a fingerprint, and the findings under the indices.
  abbrev pub IsGroupOf : Text → List ℕ → IssueGroup → Type 0
  IsGroupOf f indices group =
      (group.fingerprint ≡ f)
      × (some group.id ≡ issue_group_id f)
      × (group.finding_indices ≡ indices)
      × (group.finding_count ≡ length indices)
      × (length group.finding_ids ≡ length indices)
      × (0 < length indices)

  -- What a map has under a fingerprint, for the findings with that fingerprint.
  abbrev Fits : Text → List ℕ → Option IssueGroup → Type 0
  Fits f indices none = indices ≡ []
  Fits f indices (some group) = IsGroupOf f indices group

  enter-Fits :
      (f : Text) (indices : List ℕ) (index : ℕ) (id : Text) (new : IssueGroup)
      (o : Option IssueGroup)
      → IsGroupOf f (index ∷ []) new
      → Fits f indices o
      → Fits f (indices ++ index ∷ []) (some (enter index id new o))
  unfolding enter add_finding
  enter-Fits f indices index id new none n h =
      subst (λ is. IsGroupOf f (is ++ index ∷ []) new) (sym h) n
  enter-Fits f indices index id new (some group) n h = (
    h.0,
    h.1,
    ap (λ is. is ++ index ∷ []) h.2,
    omega (arith, h.3, length-append indices (index ∷ [])),
    omega
        (arith, h.4, length-append indices (index ∷ []), length-append group.finding_ids (id ∷ [])),
    omega (arith, length-append indices (index ∷ [])),
  )

  -- What a step without a panic has computed.
  record Committed (index : ℕ) (finding : V) (groups : Dict Text IssueGroup)
      (r : V × Dict Text IssueGroup) : Type 0 where
    inputs : IssueFingerprintInputs
    id : Text
    call_site : Option Text
    read : fingerprint_inputs json finding ≡ some inputs
    named : issue_group_id (issue_fingerprint inputs) ≡ some id
    commits : commit json index finding groups inputs id call_site ≡ r

  annotate_step-Committed :
      (index : ℕ) (finding : V) (groups : Dict Text IssueGroup) (r : V × Dict Text IssueGroup)
      → annotate_step json index finding groups ≡ some r
      → Committed index finding groups r
  unfolding annotate_step
  annotate_step-Committed index finding groups r h =
      let (inputs, e0, h0) = >>=-eq-some (fingerprint_inputs json finding) _ h in
      let fingerprint = issue_fingerprint inputs in
      let (id, e1, h1) = >>=-eq-some (issue_group_id fingerprint) _ h0 in
      let (call_site, e2, h2) =
        >>=-eq-some (new_call_site json fingerprint (annotate json fingerprint id finding) groups)
          (λ c. some (commit json index finding groups inputs id c)) h1 in
      record {
        inputs = inputs;
        id = id;
        call_site = call_site;
        read = e0;
        named = e1;
        commits = ground arith;
      }

  choose-Fits :
      (b : Bool) (f : Text) (indices : List ℕ) (index : ℕ) (group : IssueGroup)
      (o : Option IssueGroup)
      → (b ≡ true → IsGroupOf f (indices ++ index ∷ []) group)
      → Fits f indices o
      → Fits f (indices ++ (if b then index ∷ [] else [])) (if b then some group else o)
  choose-Fits true f indices index group o g k = g refl
  choose-Fits false f indices index group o g k =
      subst (λ is. Fits f is o) (sym (append-nil indices)) k

  alter-Fits :
      (f fp : Text) (indices : List ℕ) (index : ℕ) (id : Text) (new : IssueGroup)
      (groups : Dict Text IssueGroup)
      → IsGroupOf fp (index ∷ []) new
      → Fits f indices (get f groups)
      → Fits f
          (indices ++ (if same f fp then index ∷ [] else []))
          (get f (alter fp (enter index id new) groups))
  alter-Fits f fp indices index id new groups n k =
      subst (Fits f (indices ++ (if same f fp then index ∷ [] else [])))
        (sym (get-alter f fp (enter index id new) groups))
        (choose-Fits (same f fp) f indices index (enter index id new (get fp groups)) (get f groups)
          (λ this.
            let e = same→eq f fp this in
            enter-Fits f indices index id new (get fp groups)
              (subst (λ t. IsGroupOf t (index ∷ []) new) (sym e) n)
              (subst (λ t. Fits f indices (get t groups)) e k))
          k)

  new_group-IsGroupOf :
      (index : ℕ) (marked : V) (inputs : IssueFingerprintInputs) (id : Text)
      (call_site : Option Text)
      → issue_group_id (issue_fingerprint inputs) ≡ some id
      → IsGroupOf
          (issue_fingerprint inputs)
          (index ∷ [])
          (new_group json index marked inputs (issue_fingerprint inputs) id call_site)
  unfolding new_group
  new_group-IsGroupOf index marked inputs id call_site h =
      (refl, sym h, refl, refl, refl, omega arith)

  annotate_step-Fits :
      (f : Text) (indices : List ℕ) (index : ℕ) (finding : V) (groups : Dict Text IssueGroup)
      (r : V × Dict Text IssueGroup)
      → Committed index finding groups r
      → Fits f indices (get f groups)
      → Fits f (indices ++ (if has_fingerprint f finding then index ∷ [] else [])) (get f r.1)
  unfolding commit
  annotate_step-Fits f indices index finding groups r s k =
      let marked = annotate json (issue_fingerprint s.inputs) s.id finding in
      let new =
        new_group json index marked s.inputs (issue_fingerprint s.inputs) s.id s.call_site in
      rw (s.read, has_fingerprint)
        (subst
          (λ (t : V × Dict Text IssueGroup).
            Fits f (indices ++ (if same f (issue_fingerprint s.inputs) then index ∷ [] else []))
              (get f t.1))
          s.commits
          (alter-Fits f (issue_fingerprint s.inputs) indices index (finding_id_of json index marked)
            new groups (new_group-IsGroupOf index marked s.inputs s.id s.call_site s.named) k))

  annotate_step-IsSorted :
      (index : ℕ) (finding : V) (groups : Dict Text IssueGroup) (r : V × Dict Text IssueGroup)
      → Committed index finding groups r
      → IsSorted groups
      → IsSorted r.1
  unfolding commit
  annotate_step-IsSorted index finding groups r s k =
      subst (λ (t : V × Dict Text IssueGroup). IsSorted t.1) s.commits
        (alter-IsSorted (issue_fingerprint s.inputs) _ groups k)

  append-choose :
      (b : Bool) (index : ℕ) (indices later : List ℕ)
      → (indices ++ (if b then index ∷ [] else [])) ++ later
        ≡ indices ++ (if b then index ∷ later else later)
  append-choose true index indices later = append_assoc indices (index ∷ []) later
  append-choose false index indices later = ap (λ is. is ++ later) (append-nil indices)

  -- The whole loop.
  annotate_from-Fits :
      (f : Text) (indices : List ℕ) (index : ℕ) (findings : List V) (groups : Dict Text IssueGroup)
      (r : List V × Dict Text IssueGroup)
      → annotate_from json index findings groups ≡ some r
      → Fits f indices (get f groups)
      → IsSorted groups
      → Fits f (indices ++ indices_of f index findings) (get f r.1)
        × IsSorted r.1
        × (length r.0 ≡ length findings)
  unfolding annotate_from
  annotate_from-Fits f indices index [] groups r h k s =
      let same_pair : ([], groups) ≡ r = ground arith in
      subst
        (λ (t : List V × Dict Text IssueGroup).
          Fits f (indices ++ []) (get f t.1) × IsSorted t.1 × (length t.0 ≡ 0))
        same_pair (subst (λ is. Fits f is (get f groups)) (sym (append-nil indices)) k, s, refl)
  annotate_from-Fits f indices index (finding ∷ findings) groups r h k s =
      let (one, e0, h0) = >>=-eq-some (annotate_step json index finding groups) _ h in
      let (rest, e1, h1) = >>=-eq-some (annotate_from json (index + 1) findings one.1) _ h0 in
      let step = annotate_step-Committed index finding groups one e0 in
      let here = if has_fingerprint f finding then index ∷ [] else [] in
      let later =
        annotate_from-Fits f (indices ++ here) (index + 1) findings one.1 rest e1
          (annotate_step-Fits f indices index finding groups one step k)
          (annotate_step-IsSorted index finding groups one step s) in
      let whole : (one.0 ∷ rest.0, rest.1) ≡ r = ground arith in
      subst
        (λ (t : List V × Dict Text IssueGroup).
          Fits f (indices ++ indices_of f index (finding ∷ findings)) (get f t.1)
          × IsSorted t.1
          × (length t.0 ≡ suc (length findings)))
        whole
        (
          subst (λ is. Fits f is (get f rest.1))
              (append-choose (has_fingerprint f finding) index indices
                (indices_of f (index + 1) findings))
              later.0,
          later.1,
          ap suc later.2,
        )

  pub any-indices_of :
      (f : Text) (index : ℕ) (findings : List V)
      → any (has_fingerprint f) findings ≡ ltb 0 (length (indices_of f index findings))
  any-indices_of f index [] = refl
  any-indices_of f index (finding ∷ findings) =
      ground (arith, any-indices_of f (index + 1) findings)

  Fits-some :
      (f : Text) (indices : List ℕ) (o : Option IssueGroup)
      → Fits f indices o
      → is_some o ≡ ltb 0 (length indices)
  Fits-some f indices none h = ground (arith, h)
  Fits-some f indices (some group) h = ground (arith, h.5)

  -- The groups of a map whose entries fit their keys.
  module _ (findings : List V) where
    abbrev Whole : Text → IssueGroup → Type 0
    Whole f group = IsGroupOf f (indices_of f 0 findings) group

    entries-Whole :
        (m n : Dict Text IssueGroup)
        → ((f : Text) → Fits f (indices_of f 0 findings) (get f m))
        → All (λ e. get e.0 m ≡ some e.1) n
        → All (λ e. Whole e.0 e.1) n
    entries-Whole m [] k h = tt
    entries-Whole m ((f, group) ∷ n) k h =
        (subst (Fits f (indices_of f 0 findings)) h.0 (k f), entries-Whole m n k h.1)

    values-Whole :
        (n : Dict Text IssueGroup)
        → All (λ e. Whole e.0 e.1) n
        → All (λ g. Whole g.fingerprint g) (map (λ e. e.1) n)
    values-Whole [] h = tt
    values-Whole ((f, group) ∷ n) h =
        (subst (λ t. Whole t group) (sym h.0.0) h.0, values-Whole n h.1)

    count-values :
        (f : Text) (n : Dict Text IssueGroup)
        → All (λ e. Whole e.0 e.1) n
        → count (λ g. same f g.fingerprint) (map (λ e. e.1) n) ≡ count (λ e. same f e.0) n
    count-values f [] h = refl
    count-values f ((k, group) ∷ n) h = rw (h.0.0, count-values f n h.1) refl

  -- When the findings are annotated without a panic, there is a marked finding for each, and each
  -- group holds, for its fingerprint, the indices of all findings with that fingerprint, in order,
  -- as many ids and their number, and the id made from the fingerprint; every fingerprint of a
  -- finding has exactly one group, and any other text none.
  pub annotate_groups :
      (findings marked : List V) (report : IssueGroupReport)
      → annotate_findings_with_issue_groups json findings ≡ some (marked, report)
      → (length marked ≡ length findings)
        × All (λ g. IsGroupOf g.fingerprint (indices_of g.fingerprint 0 findings) g) report.groups
        × ((f : Text)
            → count (λ g. same f g.fingerprint) report.groups
              ≡ (if any (has_fingerprint f) findings then 1 else 0))
  unfolding annotate_findings_with_issue_groups
  annotate_groups findings marked report h =
      let (r, e, h0) = >>=-eq-some (annotate_from json 0 findings []) _ h in
      let fits = λ (f : Text). annotate_from-Fits f [] 0 findings [] r e (unfold get in refl) tt in
      let whole = entries-Whole findings r.1 r.1 (λ f. (fits f).0) (entries-get r.1 (fits []).1) in
      let out : (r.0, map (λ e. e.1) r.1) ≡ (marked, report.groups) = ground arith in
      subst
        (λ (t : List V × List IssueGroup).
          (length t.0 ≡ length findings)
          × All (λ g. IsGroupOf g.fingerprint (indices_of g.fingerprint 0 findings) g) t.1
          × ((f : Text)
              → count (λ g. same f g.fingerprint) t.1
                ≡ (if any (has_fingerprint f) findings then 1 else 0)))
        out
        (
          (fits []).2,
          values-Whole findings r.1 whole,
          λ f. ground (
            arith,
            count-values findings f r.1 whole,
            count-get f r.1 (fits []).1,
            Fits-some f (indices_of f 0 findings) (get f r.1) (fits f).0,
            any-indices_of f 0 findings,
          ),
        )
