-- ===== src/Cli/Promote/Gdb/Objects.antt =====
-- recompile/rerun/src/cli.rs: what `ensure_object_path` and the insertion behind it leave as it was.
use recompile.Base.{
  ◌≡◌, ◌≢◌, refl, ◌∙◌, ap, ◌∷◌, [], ◌>>=◌, true, false, Option, none, some, List, arith, Text,
  codes, text_eq, text_eq_iff, unwrap_or, Bool-cases, inl, inr,
}
use recompile.Issues.Json.{Json, Laws}
use recompile.Cli.Promote.Findings.{Maker, tool_field}
use recompile.Cli.Promote.Gdb.{insert_at, object_of}

-- What is documented of objects: a value that is none has no fields, and `json!({})` is an object
-- without fields.
pub record ObjectLaws {V : Type 0} (json : Json V) (maker : Maker V) : Type 0 where
  pub laws : Laws json
  pub get-other : (v : V) (key : Text) → json.is_object v ≡ false → json.get v key ≡ none
  pub is_object-object : (fields : List (Text × V)) → json.is_object (maker.object fields) ≡ true
  pub get-empty : (key : Text) → json.get (maker.object []) key ≡ none

pub differ : (s t : Text) → text_eq s t ≡ false → s ≢ t
differ s t h e = absurd (ground (arith, (text_eq_iff s t).1 e, h))

module _ {V : Type 0} (json : Json V) (maker : Maker V) (laws : ObjectLaws json maker) where
  is_object-object_of : (v : V) → json.is_object (object_of json maker v) ≡ true
  is_object-object_of v = elim (Bool-cases (json.is_object v)) [
    | inl object ↦ rw (object_of, object) object
    | inr other ↦ rw (object_of, other) (laws.is_object-object [])
  ]

  get-object_of : (v : V) (key : Text) → json.get (object_of json maker v) key ≡ json.get v key
  get-object_of v key = elim (Bool-cases (json.is_object v)) [
    | inl object ↦ rw (object_of, object) refl
    | inr other ↦ rw (object_of, other, laws.get-empty key, laws.get-other v key other) refl
  ]

  -- Where there is no value, the empty object has as many fields.
  get-unwrap_or :
      (o : Option V) (key : Text)
      → json.get (unwrap_or o (maker.object [])) key ≡ (o >>= λ v. json.get v key)
  get-unwrap_or none key = laws.get-empty key
  get-unwrap_or (some v) key = refl

  get-insert :
      (v x : V) (field key : Text)
      → key ≢ field
      → json.get (json.insert (object_of json maker v) field x) key ≡ json.get v key
  get-insert v x field key d =
      laws.laws.get-insert_other (object_of json maker v) x field key (is_object-object_of v) d
      ∙ get-object_of v key

  get-insert_self :
      (v x : V) (field : Text)
      → json.get (json.insert (object_of json maker v) field x) field ≡ some x
  get-insert_self v x field =
      laws.laws.get-insert_same (object_of json maker v) x field (is_object-object_of v)

  pub is_object-insert_at :
      (v : V) (step : Text) (key : Text) (x : V)
      → json.is_object (insert_at json maker v (codes "evidence" ∷ step ∷ []) key x) ≡ true
  unfolding insert_at
  is_object-insert_at v step key x =
      laws.laws.is_object-insert (object_of json maker v) _ (codes "evidence")
        (is_object-object_of v)

  pub get-insert_at :
      (v : V) (step key field : Text) (x : V)
      → field ≢ codes "evidence"
      → json.get (insert_at json maker v (codes "evidence" ∷ step ∷ []) key x) field
        ≡ json.get v field
  unfolding insert_at
  get-insert_at v step key field x d = get-insert v _ (codes "evidence") field d

  abbrev evidence_of : V → V
  evidence_of v = unwrap_or (json.get (object_of json maker v) (codes "evidence")) (maker.object [])

  assoc : (o : Option V) (f g : V → Option V) → ((o >>= f) >>= g) ≡ (o >>= λ v. f v >>= g)
  assoc none f g = refl
  assoc (some v) f g = refl

  -- The tool's fields behind a new value of the evidence, and those of the evidence before.
  tool_field-insert :
      (v inner : V) (field : Text)
      → tool_field json (json.insert (object_of json maker v) (codes "evidence") inner) field
        ≡ (json.get inner (codes "tool") >>= λ tool. json.get tool field)
  unfolding tool_field
  tool_field-insert v inner field = rw (get-insert_self v inner (codes "evidence")) refl

  tool_field-evidence_of :
      (v : V) (field : Text)
      → (json.get (evidence_of v) (codes "tool") >>= λ tool. json.get tool field)
        ≡ tool_field json v field
  unfolding tool_field
  tool_field-evidence_of v field =
      rw
        (
          get-unwrap_or (json.get (object_of json maker v) (codes "evidence")) (codes "tool"),
          get-object_of v (codes "evidence"),
        )
        (assoc (json.get v (codes "evidence")) (λ e. json.get e (codes "tool"))
          (λ t. json.get t field))

  -- An insertion elsewhere in the evidence leaves the tool's fields.
  pub tool_field-insert_at :
      (v : V) (step key field : Text) (x : V)
      → codes "tool" ≢ step
      → tool_field json (insert_at json maker v (codes "evidence" ∷ step ∷ []) key x) field
        ≡ tool_field json v field
  unfolding insert_at
  tool_field-insert_at v step key field x d =
      tool_field-insert v _ field
      ∙ ap (λ o. o >>= λ tool. json.get tool field)
          (get-insert (evidence_of v) _ step (codes "tool") d)
      ∙ tool_field-evidence_of v field

  -- An insertion among the tool's fields leaves the others.
  pub tool_field-insert_tool :
      (v : V) (key field : Text) (x : V)
      → field ≢ key
      → tool_field json (insert_at json maker v (codes "evidence" ∷ codes "tool" ∷ []) key x) field
        ≡ tool_field json v field
  unfolding insert_at
  tool_field-insert_tool v key field x d =
      let before = json.get (object_of json maker (evidence_of v)) (codes "tool") in
      tool_field-insert v _ field
      ∙ ap (λ o. o >>= λ tool. json.get tool field)
          (get-insert_self (evidence_of v) _ (codes "tool"))
      ∙ get-insert (unwrap_or before (maker.object [])) x key field d
      ∙ get-unwrap_or before field
      ∙ ap (λ o. o >>= λ tool. json.get tool field) (get-object_of (evidence_of v) (codes "tool"))
      ∙ tool_field-evidence_of v field
