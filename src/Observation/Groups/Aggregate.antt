-- ===== src/Observation/Groups/Aggregate.antt =====
-- What a group of the repeat summary says of the inputs with its fingerprint.
use mathlib.Core.List.{Perm}
use mathlib.Core.Path.{subst}
use mathlib.Core.Option.{some-injective}
use Prim.Native.Nat.Ordering.{lt, gt}
use recompile.Base.{
  ℕ, ◌<◌, ◌≤◌, ◌≡◌, refl, sym, ap, ◌∙◌, some, List, [], ◌∷◌, Text, arith, keep, u64_mod, head?,
  length, All, any, false, true, Bool, Bool-cases, inl, inr, >>=-eq-some, count, if◌then◌else◌,
}
use recompile.Base.Order.{text_ord, nat_ord, text_cmp-Total}
use recompile.Base.Dict.{Dict, get, same, same→eq, IsSorted}
use recompile.Base.Entries.{entries-get, count-get}
use recompile.Base.Sets.{
  first, last, member, distinct, length-insert_all, member-insert_all, first-least, last-greatest,
  insert_all-IsSorted,
}
use recompile.Base.Sort.{sort_by, sort_by-perm, sort_by-IsOrdered, IsOrdered}
use recompile.Observation.Groups.{
  RepeatIssueGroupInput, RepeatIssueGroupBuilder, RepeatIssueGroup, RepeatIssueGroupOccurrence,
  compare_occurrences, finish, finish_all, collect, aggregate_repeat_issue_groups,
}
use recompile.Observation.Groups.Collect.{
  inputs_of, occurrences, attempt_numbers, findings_of, Holds, collect-Holds, collect-IsSorted,
  collect_some,
}

record Finished (b : RepeatIssueGroupBuilder) (g : RepeatIssueGroup) : Type 0 where
  id : b.id ≡ some g.id
  fingerprint : g.fingerprint ≡ b.fingerprint
  attempts : g.attempts ≡ sort_by compare_occurrences b.attempts
  representative : head? (sort_by compare_occurrences b.attempts) ≡ some g.representative_attempt
  first_attempt : first b.attempt_numbers ≡ some g.first_attempt
  last_attempt : last b.attempt_numbers ≡ some g.last_attempt
  attempt_count : g.attempt_count ≡ length b.attempt_numbers
  occurrence_count : g.occurrence_count ≡ b.occurrence_count

finish-Finished :
    (b : RepeatIssueGroupBuilder) (g : RepeatIssueGroup) → finish b ≡ some g → Finished b g
unfolding finish
finish-Finished b g h = ground arith

flip_occurrences :
    (l r : RepeatIssueGroupOccurrence) → compare_occurrences l r ≡ gt → compare_occurrences r l ≡ lt
unfolding compare_occurrences
flip_occurrences l r h = ground (
  arith,
  text_cmp-Total.cmp_gt l.target_name r.target_name,
  text_cmp-Total.cmp_eq l.target_name r.target_name,
  text_cmp-Total.cmp_self l.target_name,
  text_cmp-Total.cmp_gt l.issue_group_id r.issue_group_id,
)

-- A group against the inputs `xs` with its fingerprint.
pub record GroupOf (xs : List RepeatIssueGroupInput) (g : RepeatIssueGroup) : Type 0 where
  pub occurrences_perm : Perm g.attempts (occurrences xs)
  pub attempts_ordered : IsOrdered compare_occurrences g.attempts
  pub representative : head? g.attempts ≡ some g.representative_attempt
  pub attempt_count : g.attempt_count ≡ distinct (λ _. false) (attempt_numbers xs)
  pub within :
      (n : ℕ)
      → any (λ k. same n k) (attempt_numbers xs) ≡ true
      → (g.first_attempt ≤ n) × (n ≤ g.last_attempt)
  pub occurrence_count : findings_of xs < u64_mod → g.occurrence_count ≡ findings_of xs

module _ (first' : RepeatIssueGroupInput) (rest : List RepeatIssueGroupInput)
    (b : RepeatIssueGroupBuilder) (g : RepeatIssueGroup) (held : Holds first' rest b)
    (done : Finished b g) where
  is_member :
      (n : ℕ)
      → any (λ k. same n k) (attempt_numbers (first' ∷ rest)) ≡ true
      → member n b.attempt_numbers ≡ true
  unfolding get
  is_member n h = rw held.numbers (member-insert_all n (attempt_numbers (first' ∷ rest)) [] ∙ h)

  numbers-IsSorted : IsSorted b.attempt_numbers
  numbers-IsSorted = rw held.numbers (insert_all-IsSorted (attempt_numbers (first' ∷ rest)) [] tt)

  group_within :
      (n : ℕ)
      → any (λ k. same n k) (attempt_numbers (first' ∷ rest)) ≡ true
      → (g.first_attempt ≤ n) × (n ≤ g.last_attempt)
  group_within n h =
      let low =
        first-least b.attempt_numbers n g.first_attempt done.first_attempt (is_member n h) in
      let high =
        last-greatest b.attempt_numbers n g.last_attempt numbers-IsSorted done.last_attempt
          (is_member n h) in
      (ground (arith, low), ground (arith, high))

  group_count : g.attempt_count ≡ distinct (λ _. false) (attempt_numbers (first' ∷ rest))
  unfolding get
  group_count = omega (
    arith,
    done.attempt_count,
    ap length held.numbers,
    length-insert_all (attempt_numbers (first' ∷ rest)) [] (λ _. false) (λ j. ground arith),
  )

  Holds-GroupOf : GroupOf (first' ∷ rest) g
  Holds-GroupOf = record {
    occurrences_perm =
        rw (done.attempts, held.attempts)
          (sort_by-perm compare_occurrences (occurrences (first' ∷ rest)));
    attempts_ordered =
        rw done.attempts (sort_by-IsOrdered compare_occurrences flip_occurrences b.attempts);
    representative = rw done.attempts done.representative;
    attempt_count = group_count;
    within = group_within;
    occurrence_count = λ h. done.occurrence_count ∙ held.count h;
  }

keep-head {ℓ} :
    {A : Type ℓ} (p : A → Bool) (xs : List A) (x : A) (ys : List A)
    → keep p xs ≡ x ∷ ys
    → p x ≡ true
keep-head p [] x ys h = ground arith
keep-head p (z ∷ xs) x ys h = elim (Bool-cases (p z)) [
  | inl hit ↦ ground (arith)
  | inr miss ↦ keep-head p xs x ys (ground arith)
]

module _ (inputs : List RepeatIssueGroupInput) where
  entry-GroupOf :
      (f : Text) (b : RepeatIssueGroupBuilder) (g : RepeatIssueGroup)
      → get f (collect [] inputs) ≡ some b
      → finish b ≡ some g
      → GroupOf (inputs_of g.fingerprint inputs) g × (g.fingerprint ≡ f)
  entry-GroupOf f b g e h =
      let (first', rest, of, held) = collect-Holds f inputs b e in
      let done = finish-Finished b g h in
      let key =
        same→eq f first'.fingerprint
          (keep-head (λ i. same f i.fingerprint) inputs first' rest of) in
      let name : g.fingerprint ≡ f = done.fingerprint ∙ held.fingerprint ∙ sym key in
      (
        subst (λ xs. GroupOf xs g) (sym of ∙ ap (λ k. inputs_of k inputs) (sym name))
            (Holds-GroupOf first' rest b g held done),
        name,
      )

  groups_of :
      (m : Dict Text RepeatIssueGroupBuilder) (groups : List RepeatIssueGroup)
      → All (λ e. get e.0 (collect [] inputs) ≡ some e.1) m
      → finish_all m ≡ some groups
      → All (λ g. GroupOf (inputs_of g.fingerprint inputs) g) groups
        × ((f : Text) → count (λ g. same f g.fingerprint) groups ≡ count (λ e. same f e.0) m)
  unfolding finish_all
  groups_of [] groups a h = rw (← some-injective _ _ h) (tt, λ f. refl)
  groups_of ((f, b) ∷ m) groups a h =
      let (g, here, later) = >>=-eq-some (finish b) _ h in
      let (gs, rest, whole) = >>=-eq-some (finish_all m) _ later in
      let (good, name) = entry-GroupOf f b g a.0 here in
      let (all_good, counts) = groups_of m gs a.1 rest in
      rw (← some-injective _ _ whole) ((good, all_good), λ k. rw (name, counts k) refl)

-- The issue groups of a repeat summary, when they are computed without a panic. Every group has,
-- for the inputs with its fingerprint: their occurrences, each once, ordered by attempt, target
-- name and group id, the first of them as its representative; the number of distinct attempts; a
-- first and a last attempt that bound every attempt; and the sum of their finding counts, if that
-- is below 2^64. And each fingerprint of an input has exactly one group, any other text none.
pub aggregate_groups :
    (inputs : List RepeatIssueGroupInput) (groups : List RepeatIssueGroup)
    → aggregate_repeat_issue_groups inputs ≡ some groups
    → All (λ g. GroupOf (inputs_of g.fingerprint inputs) g) groups
      × ((f : Text)
          → count (λ g. same f g.fingerprint) groups
            ≡ (if any (λ i. same f i.fingerprint) inputs then 1 else 0))
unfolding aggregate_repeat_issue_groups
aggregate_groups inputs groups h =
    let sorted = collect-IsSorted [] inputs tt in
    let (good, counts) = groups_of inputs (collect [] inputs) groups (entries-get _ sorted) h in
    (
      good,
      λ f.
          counts f
          ∙ count-get f (collect [] inputs) sorted
          ∙ ap (λ (b : Bool). if b then 1 else 0) (collect_some f inputs),
    )
