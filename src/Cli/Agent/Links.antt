-- ===== src/Cli/Agent/Links.antt =====
-- What the summary for agents tells of the results of the tools.
use recompile.Base.{
  ◌+◌, ◌≡◌, refl, sym, ◌∙◌, ap, ◌∷◌, [], ◌>>=◌, ◌||◌, Bool, true, false, Option, none, some, List,
  any, count, find, find_last, filter_map, Text, codes, text_eq, text_eq_iff, arith, opt_map,
  or_else, unwrap_or, Bool-cases, inl, inr, if◌then◌else◌,
}
use recompile.Base.Order.{text_ord}
use recompile.Base.Dict.{Dict, get, alter, get-alter, same, same→eq, same_self}
use recompile.Base.Sets.{Set, insert, member, member-insert, insert_all, member-insert_all}
use recompile.Issues.Json.{Json}
use recompile.Cli.Promote.Findings.{Maker, same_text}
use recompile.Cli.Agent.{
  Gathered, gather, gather_all, nothing_gathered, has_finding_id, linked_escalation,
  compact_escalation_result,
}

text_eq-same : (s t : Text) → text_eq s t ≡ same t s
text_eq-same s t = elim (Bool-cases (same t s)) [
  | inl equal ↦ (text_eq_iff s t).1 (sym (same→eq t s equal)) ∙ sym equal
  | inr other ↦ elim (Bool-cases (text_eq s t)) [
    | inl equal ↦ absurd (ground (arith, other, same_self t, (text_eq_iff s t).0 equal))
    | inr differs ↦ differs ∙ sym other
  ]
]

or_else-none {ℓ} : {A : Type ℓ} (o : Option A) → or_else o none ≡ o
or_else-none none = refl
or_else-none (some a) = refl

module _ {V : Type 0} (json : Json V) (maker : Maker V) (as_bool : V → Option Bool) where
  abbrev pub is_confirmed : V → Bool
  is_confirmed result = unwrap_or (json.get result (codes "confirmed") >>= as_bool) false

  abbrev pub is_of_tool : Text → V → Bool
  is_of_tool tool result = same_text (json.get result (codes "tool") >>= json.as_str) tool

  -- The classes of a result.
  abbrev pub classes_in : Option (List V) → List Text
  classes_in none = []
  classes_in (some classes) = filter_map json.as_str classes

  abbrev pub detects : Text → V → Bool
  detects class result =
      any (λ c. same class c)
        (classes_in (json.get result (codes "findings_detected") >>= json.as_array))

  -- What has been gathered from results, from some state on.
  pub record Gathers (results : List V) (g h : Gathered V) : Type 0 where
    pub confirmed : h.confirmed_runs ≡ g.confirmed_runs + count is_confirmed results
    pub tools : (t : Text) → member t h.tools ≡ (any (is_of_tool t) results || member t g.tools)
    pub classes :
        (c : Text)
        → member c h.detected_classes ≡ (any (detects c) results || member c g.detected_classes)
    pub by_finding :
        (id : Text)
        → get id h.by_finding
          ≡ or_else
              (opt_map
                (compact_escalation_result json maker as_bool)
                (find_last (has_finding_id json maker as_bool id) results))
              (get id g.by_finding)

  tools_step :
      (o : Option Text) (t : Text) (s : Set Text)
      → member t (elim o [ some tool ↦ insert tool s | none ↦ s ]) ≡ (same_text o t || member t s)
  tools_step none t s = refl
  tools_step (some tool) t s =
      member-insert t tool s ∙ ap (λ b. b || member t s) (sym (text_eq-same tool t))

  classes_step :
      (o : Option (List V)) (c : Text) (s : Set Text)
      → member c
          (elim o [ some classes ↦ insert_all (filter_map json.as_str classes) s | none ↦ s ])
        ≡ (any (λ k. same c k) (classes_in o) || member c s)
  classes_step none c s = refl
  classes_step (some classes) c s =
      member-insert_all c (filter_map json.as_str classes) s ∙ ground arith

  finding_step :
      (o : Option Text) (v : V) (id : Text) (m : Dict Text V)
      → get id (elim o [ some finding_id ↦ alter finding_id (λ old. v) m | none ↦ m ])
        ≡ (if same_text o id then some v else get id m)
  finding_step none v id m = refl
  finding_step (some finding_id) v id m =
      get-alter id finding_id (λ old. v) m
      ∙ ap (λ (b : Bool). if b then some v else get id m) (sym (text_eq-same finding_id id))

  abbrev compact : V → V
  compact = compact_escalation_result json maker as_bool

  -- The last entry, among a result and those behind it.
  last_step :
      (b : Bool) (result : V) (later o : Option V)
      → or_else (opt_map compact later) (if b then some (compact result) else o)
        ≡ or_else
            (opt_map compact
              (elim later [ some y ↦ some y | none ↦ (if b then some result else none) ]))
            o
  last_step b result (some y) o = refl
  last_step true result none o = refl
  last_step false result none o = refl

  gather_all-Gathers :
      (results : List V) (g : Gathered V)
      → Gathers results g (gather_all json maker as_bool results g)
  unfolding gather_all gather
  gather_all-Gathers [] g = record {
    confirmed = omega arith;
    tools = λ t. refl;
    classes = λ c. refl;
    by_finding = λ id. refl;
  }
  gather_all-Gathers (result ∷ results) g =
      let rest = gather_all-Gathers results (gather json maker as_bool result g) in
      record {
        confirmed = ground (arith, rest.confirmed);
        tools = λ t.
            rest.tools t
            ∙ ground (arith, tools_step (json.get result (codes "tool") >>= json.as_str) t g.tools);
        classes = λ c.
            rest.classes c
            ∙ ground (
              arith,
              classes_step (json.get result (codes "findings_detected") >>= json.as_array) c
                  g.detected_classes,
            );
        by_finding = λ id.
            rest.by_finding id
            ∙ ap
                (or_else
                  (opt_map compact (find_last (has_finding_id json maker as_bool id) results)))
                (finding_step (json.get result (codes "finding_id") >>= json.as_str)
                  (compact result) id g.by_finding)
            ∙ last_step (has_finding_id json maker as_bool id result) result
                (find_last (has_finding_id json maker as_bool id) results) (get id g.by_finding);
      }

  -- The summary for agents counts the confirmed results of the tools, and names exactly the tools and
  -- the classes of the results. It links a finding with an id to the first result for that id, but
  -- lists the last one under the id, or neither where there is none.
  pub escalation_links :
      (results : List V) (finding : V) (id : Text)
      → (json.get finding (codes "id") >>= json.as_str) ≡ some id
      → let g = gather_all json maker as_bool results (nothing_gathered json maker as_bool) in
        (g.confirmed_runs ≡ count is_confirmed results)
        × ((t : Text) → member t g.tools ≡ any (is_of_tool t) results)
        × ((c : Text) → member c g.detected_classes ≡ any (detects c) results)
        × (linked_escalation json maker as_bool finding results
            ≡ unwrap_or
                (opt_map compact (find (has_finding_id json maker as_bool id) results))
                maker.null)
        × (get id g.by_finding
            ≡ opt_map compact (find_last (has_finding_id json maker as_bool id) results))
  unfolding linked_escalation
  escalation_links results finding id named =
      let all = gather_all-Gathers results (nothing_gathered json maker as_bool) in
      let none_under : (k : Text) → get {V = V} k [] ≡ none = λ k. unfold get in refl in
      let no_member : (k : Text) → member k [] ≡ false = λ k. unfold get in refl in
      (
        omega (arith, all.confirmed),
        λ t. all.tools t ∙ ground (arith, no_member t),
        λ c. all.classes c ∙ ground (arith, no_member c),
        rw named refl,
        all.by_finding id
            ∙ rw (none_under id) (
                or_else-none
                  (opt_map compact (find_last (has_finding_id json maker as_bool id) results))),
      )
