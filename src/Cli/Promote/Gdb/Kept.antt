-- ===== src/Cli/Promote/Gdb/Kept.antt =====
-- What the enrichment leaves of a finding as it is: every field but two, and in its evidence the fields of
-- the tool that are not of gdb.
use recompile.Base.{
  ◌≡◌, ◌≢◌, refl, ◌∙◌, ◌∷◌, [], ◌++◌, ◌>>=◌, true, false, Option, none, some, List, Text, codes,
  text_eq, any, Option-cases, Bool-cases, inl, inr,
}
use recompile.Escalate.Result.{EscalationResult}
use recompile.Issues.Json.{Json}
use recompile.Cli.Promote.Findings.{
  Maker, same_text, finding_class, is_confirmed_by, tool_field, detection_in, existing_key,
  tool_detection_key,
}
use recompile.Cli.Promote.Gdb.{insert_at, with_next_command, enrich_finding, gdb_evidence}
use recompile.Cli.Promote.Gdb.Objects.{
  ObjectLaws, differ, is_object-insert_at, get-insert_at, tool_field-insert_at,
  tool_field-insert_tool,
}

module _ {V : Type 0} (json : Json V) (maker : Maker V) (laws : ObjectLaws json maker) where
  pub record Keeps (v w : V) : Type 0 where
    pub others :
        (key : Text)
        → key ≢ codes "evidence"
        → key ≢ codes "next_commands"
        → json.get w key ≡ json.get v key
    pub tool : (key : Text) → key ≢ codes "gdb" → tool_field json w key ≡ tool_field json v key

  then-Keeps : (u v w : V) → Keeps u v → Keeps v w → Keeps u w
  then-Keeps u v w a b = record {
    others = λ key e n. b.others key e n ∙ a.others key e n;
    tool = λ key d. b.tool key d ∙ a.tool key d;
  }

  itself-Keeps : (v : V) → Keeps v v
  itself-Keeps v = record { others = λ key e n. refl; tool = λ key d. refl }

  with_stacks-Keeps :
      (v : V) (key : Text) (x : V)
      → Keeps v (insert_at json maker v (codes "evidence" ∷ codes "stacks" ∷ []) key x)
  with_stacks-Keeps v key x = record {
    others = λ field e n. get-insert_at json maker laws v (codes "stacks") key field x e;
    tool = λ field d.
        tool_field-insert_at json maker laws v (codes "stacks") key field x
          (differ (codes "tool") (codes "stacks") (unfold text_eq in refl));
  }

  with_gdb-Keeps :
      (v x : V)
      → Keeps v (insert_at json maker v (codes "evidence" ∷ codes "tool" ∷ []) (codes "gdb") x)
  with_gdb-Keeps v x = record {
    others = λ field e n. get-insert_at json maker laws v (codes "tool") (codes "gdb") field x e;
    tool = λ field d. tool_field-insert_tool json maker laws v (codes "gdb") field x d;
  }

  insert-Keeps :
      (v x : V) → json.is_object v ≡ true → Keeps v (json.insert v (codes "next_commands") x)
  insert-Keeps v x h =
      let other = λ (key : Text) (n : key ≢ codes "next_commands").
        laws.laws.get-insert_other v x (codes "next_commands") key h n in
      record {
        others = λ key e n. other key n;
        tool = λ key d.
            unfold tool_field in
            rw
              (other (codes "evidence")
                (differ (codes "evidence") (codes "next_commands") (unfold text_eq in refl)))
              refl;
      }

  with_next_command-Keeps :
      (path : Option Text) (v : V)
      → json.is_object v ≡ true
      → Keeps v (with_next_command json maker path v)
  unfolding with_next_command
  with_next_command-Keeps none v h = itself-Keeps v
  with_next_command-Keeps (some path) v h =
      elim (Option-cases (json.get v (codes "next_commands") >>= json.as_array)) [
        | inl missing ↦ rw (with_next_command, missing) (itself-Keeps v)
        | inr (commands, found) ↦
            rw (with_next_command, found)
              (elim (Bool-cases
                (any (λ value. same_text (json.as_str value) (codes "cat " ++ path)) commands)) [
                  | inl known ↦ rw known (itself-Keeps v)
                  | inr new ↦ rw new (insert-Keeps v _ h)
                ])
      ]

  pub enrich_finding-Keeps :
      (result : EscalationResult) (report : V) (frames : List V) (v : V)
      → Keeps v (enrich_finding json maker result report frames v)
  unfolding enrich_finding
  enrich_finding-Keeps result report frames v =
      let first = with_stacks-Keeps v (codes "crash") (maker.array frames) in
      let second = with_gdb-Keeps _ (gdb_evidence json maker result report) in
      then-Keeps _ _ _ first (
        then-Keeps _ _ _ second (
          with_next_command-Keeps result.report_path _
            (is_object-insert_at json maker laws _ (codes "tool") (codes "gdb") _)))

  same_field :
      (v w : V) (key : Text)
      → Keeps v w
      → text_eq key (codes "evidence") ≡ false
      → text_eq key (codes "next_commands") ≡ false
      → json.get w key ≡ json.get v key
  same_field v w key k e n =
      k.others key (differ key (codes "evidence") e) (differ key (codes "next_commands") n)

  class_kept : (v w : V) → Keeps v w → finding_class json w ≡ finding_class json v
  unfolding finding_class text_eq
  class_kept v w k =
      rw (same_field v w (codes "class") k refl refl, same_field v w (codes "kind") k refl refl)
        refl

  -- What a finding confirms, and its key, are kept.
  pub confirmed_kept :
      (id class : Text) (v w : V)
      → Keeps v w
      → is_confirmed_by json id class w ≡ is_confirmed_by json id class v
  unfolding text_eq
  confirmed_kept id class v w k =
      rw (same_field v w (codes "id") k refl refl, class_kept v w k) refl

  tool_kept :
      (v w : V) (key : Text)
      → Keeps v w
      → text_eq key (codes "gdb") ≡ false
      → tool_field json w key ≡ tool_field json v key
  tool_kept v w key k e = k.tool key (differ key (codes "gdb") e)

  detection_kept :
      (v w : V) (class : Text) → Keeps v w → detection_in json w class ≡ detection_in json v class
  unfolding detection_in text_eq
  detection_kept v w class k =
      rw
        (
          same_field v w (codes "message") k refl refl,
          tool_kept v w (codes "line") k refl,
          tool_kept v w (codes "call_frame") k refl,
          tool_kept v w (codes "alloc_frame") k refl,
          tool_kept v w (codes "free_frame") k refl,
        )
        refl

  pub key_kept :
      (quote : Text → Text) (v w : V)
      → Keeps v w
      → existing_key json quote w ≡ existing_key json quote v
  unfolding existing_key text_eq
  key_kept quote v w k =
      rw (tool_kept v w (codes "name") k refl, class_kept v w k)
        (λ i. (tool_field json v (codes "name") >>= json.as_str) >>= λ tool.
          finding_class json v >>= λ class.
          some (tool_detection_key quote tool (detection_kept v w class k i)))
