-- ===== src/Observation/Groups/Collect.antt =====
-- What the builders hold: the builder of a fingerprint is made from the inputs with it, in order.
use recompile.Base.{
  ℕ, ◌+◌, ◌<◌, ◌≡◌, refl, sym, ap, ◌∙◌, Option, none, some, List, [], ◌∷◌, ◌++◌, map, Text, arith,
  keep, sum_of, u64_mod, Bool-cases, inl, inr, true, any, is_some,
}
use mathlib.Core.List.{append_assoc, append-nil}
use recompile.Base.Order.{text_ord, nat_ord}
use mathlib.Core.Path.{subst}
use mathlib.Core.Option.{some-injective}
use recompile.Base.Dict.{Dict, get, alter, same, get-alter, same→eq, alter-IsSorted, IsSorted}
use recompile.Base.Sets.{insert_all}
use recompile.Observation.Groups.{
  RepeatIssueGroupInput, RepeatIssueGroupBuilder, RepeatIssueGroupOccurrence, new_builder, extend,
  update, collect, repeat_issue_group_id,
}

-- The inputs with one fingerprint.
abbrev pub inputs_of : Text → List RepeatIssueGroupInput → List RepeatIssueGroupInput
inputs_of f inputs = keep (λ input. same f input.fingerprint) inputs

-- The updates that one entry receives.
pub merged :
    List RepeatIssueGroupInput → Option RepeatIssueGroupBuilder → Option RepeatIssueGroupBuilder
merged [] o = o
merged (input ∷ inputs) o = merged inputs (some (update input o))

merged_step :
    (f : Text) (m : Dict Text RepeatIssueGroupBuilder) (input : RepeatIssueGroupInput)
    (inputs : List RepeatIssueGroupInput)
    → merged (inputs_of f inputs) (get f (alter input.fingerprint (update input) m))
      ≡ merged (inputs_of f (input ∷ inputs)) (get f m)
unfolding merged
merged_step f m input inputs = elim (Bool-cases (same f input.fingerprint)) [
  | inl here ↦
      rw (get-alter f input.fingerprint (update input) m, here)
        (ap (λ k. merged (inputs_of f inputs) (some (update input (get k m))))
          (sym (same→eq f input.fingerprint here)))
  | inr other ↦ rw (get-alter f input.fingerprint (update input) m, other) refl
]

pub get-collect :
    (f : Text) (m : Dict Text RepeatIssueGroupBuilder) (inputs : List RepeatIssueGroupInput)
    → get f (collect m inputs) ≡ merged (inputs_of f inputs) (get f m)
unfolding collect merged
get-collect f m [] = refl
get-collect f m (input ∷ inputs) =
    get-collect f (alter input.fingerprint (update input) m) inputs ∙ merged_step f m input inputs

pub collect-IsSorted :
    (m : Dict Text RepeatIssueGroupBuilder) (inputs : List RepeatIssueGroupInput)
    → IsSorted m
    → IsSorted (collect m inputs)
unfolding collect
collect-IsSorted m [] s = s
collect-IsSorted m (input ∷ inputs) s =
    collect-IsSorted (alter input.fingerprint (update input) m) inputs
      (alter-IsSorted input.fingerprint (update input) m s)

abbrev pub occurrences : List RepeatIssueGroupInput → List RepeatIssueGroupOccurrence
occurrences inputs = map (λ (i : RepeatIssueGroupInput). i.occurrence) inputs

abbrev pub attempt_numbers : List RepeatIssueGroupInput → List ℕ
attempt_numbers inputs = map (λ (i : RepeatIssueGroupInput). i.occurrence.attempt) inputs

abbrev pub findings_of : List RepeatIssueGroupInput → ℕ
findings_of inputs = sum_of (λ i. i.occurrence.finding_count) inputs

-- What a builder holds of the inputs that made it, `first` and then `rest`.
pub record Holds (first : RepeatIssueGroupInput) (rest : List RepeatIssueGroupInput)
    (b : RepeatIssueGroupBuilder) : Type 0 where
  pub id : b.id ≡ repeat_issue_group_id first.fingerprint
  pub fingerprint : b.fingerprint ≡ first.fingerprint
  pub attempts : b.attempts ≡ occurrences (first ∷ rest)
  pub numbers : b.attempt_numbers ≡ insert_all (attempt_numbers (first ∷ rest)) []
  pub count : findings_of (first ∷ rest) < u64_mod → b.occurrence_count ≡ findings_of (first ∷ rest)

-- The `and_modify` steps after the first.
extended : List RepeatIssueGroupInput → RepeatIssueGroupBuilder → RepeatIssueGroupBuilder
extended [] b = b
extended (input ∷ inputs) b = extended inputs (extend input b)

merged-some :
    (rest : List RepeatIssueGroupInput) (b : RepeatIssueGroupBuilder)
    → merged rest (some b) ≡ some (extended rest b)
unfolding merged extended update
merged-some [] b = refl
merged-some (input ∷ rest) b = merged-some rest (extend input b)

extended_names :
    (rest : List RepeatIssueGroupInput) (b : RepeatIssueGroupBuilder)
    → ((extended rest b).id ≡ b.id) × ((extended rest b).fingerprint ≡ b.fingerprint)
unfolding extended extend
extended_names [] b = (refl, refl)
extended_names (input ∷ rest) b = extended_names rest (extend input b)

extended_attempts :
    (rest : List RepeatIssueGroupInput) (b : RepeatIssueGroupBuilder)
    → (extended rest b).attempts ≡ b.attempts ++ occurrences rest
unfolding extended extend
extended_attempts [] b = sym (append-nil b.attempts)
extended_attempts (input ∷ rest) b =
    extended_attempts rest (extend input b) ∙ append_assoc b.attempts _ _

extended_numbers :
    (rest : List RepeatIssueGroupInput) (b : RepeatIssueGroupBuilder)
    → (extended rest b).attempt_numbers ≡ insert_all (attempt_numbers rest) b.attempt_numbers
unfolding extended extend insert_all
extended_numbers [] b = refl
extended_numbers (input ∷ rest) b = extended_numbers rest (extend input b)

extended_count :
    (rest : List RepeatIssueGroupInput) (b : RepeatIssueGroupBuilder)
    → b.occurrence_count + findings_of rest < u64_mod
    → (extended rest b).occurrence_count ≡ b.occurrence_count + findings_of rest
unfolding extended extend
extended_count [] b h = omega arith
extended_count (input ∷ rest) b h =
    omega (arith, extended_count rest (extend input b) (omega arith))

extended-Holds :
    (first : RepeatIssueGroupInput) (rest : List RepeatIssueGroupInput)
    → Holds first rest (extended rest (new_builder first))
unfolding new_builder insert_all
extended-Holds first rest = record {
  id = (extended_names rest (new_builder first)).0;
  fingerprint = (extended_names rest (new_builder first)).1;
  attempts = extended_attempts rest (new_builder first);
  numbers = extended_numbers rest (new_builder first);
  count = λ h. extended_count rest (new_builder first) h;
}

abbrev Made : List RepeatIssueGroupInput → RepeatIssueGroupBuilder → Type 0
Made xs b =
    (first : RepeatIssueGroupInput) × (rest : List RepeatIssueGroupInput) × (xs ≡ first ∷ rest)
    × Holds first rest b

merged-Made :
    (xs : List RepeatIssueGroupInput) (b : RepeatIssueGroupBuilder)
    → merged xs none ≡ some b
    → Made xs b
unfolding merged update
merged-Made [] b h = cc
merged-Made (first ∷ rest) b h = (
  first,
  rest,
  refl,
  subst (Holds first rest) (some-injective _ _ (sym (merged-some rest (new_builder first)) ∙ h))
      (extended-Holds first rest),
)

-- A collected builder holds the inputs of its fingerprint, of which there is one.
pub collect-Holds :
    (f : Text) (inputs : List RepeatIssueGroupInput) (b : RepeatIssueGroupBuilder)
    → get f (collect [] inputs) ≡ some b
    → (first : RepeatIssueGroupInput) × (rest : List RepeatIssueGroupInput) × (inputs_of f inputs
        ≡ first ∷ rest)
      × Holds first rest b
unfolding get
collect-Holds f inputs b h = merged-Made (inputs_of f inputs) b (sym (get-collect f [] inputs) ∙ h)

some-merged :
    (xs : List RepeatIssueGroupInput) (b : RepeatIssueGroupBuilder)
    → is_some (merged xs (some b)) ≡ true
unfolding merged
some-merged [] b = refl
some-merged (x ∷ xs) b = some-merged xs (update x (some b))

some_kept :
    (f : Text) (xs : List RepeatIssueGroupInput)
    → is_some (merged (inputs_of f xs) none) ≡ any (λ i. same f i.fingerprint) xs
unfolding merged
some_kept f [] = refl
some_kept f (x ∷ xs) = elim (Bool-cases (same f x.fingerprint)) [
  | inl here ↦ rw here (some-merged (inputs_of f xs) (update x none))
  | inr other ↦ rw other (some_kept f xs)
]

-- A builder is made exactly for the fingerprints of the inputs.
pub collect_some :
    (f : Text) (inputs : List RepeatIssueGroupInput)
    → is_some (get f (collect [] inputs)) ≡ any (λ i. same f i.fingerprint) inputs
unfolding get
collect_some f inputs = rw (get-collect f [] inputs) (some_kept f inputs)
