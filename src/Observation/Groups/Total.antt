-- ===== src/Observation/Groups/Total.antt =====
-- Where the issue groups could panic: the `expect`s and the slice of the fingerprint.
use recompile.Base.{
  ◌≡◌, refl, List, [], ◌∷◌, ◌++◌, Text, IsAscii, arith, All, head?, true, is_some, Option-cases,
  inl, inr, min, text_len, slice_to_ascii, rsplit_once, rsplit_once-IsAscii,
}
use recompile.Base.Order.{text_ord, nat_ord}
use recompile.Base.Dict.{Dict, alter}
use recompile.Base.Entries.{All-alter}
use recompile.Base.Sets.{first, first-insert, last_some}
use recompile.Base.Sort.{sort_by-some}
use recompile.Observation.Groups.{
  RepeatIssueGroupInput, RepeatIssueGroupBuilder, compare_occurrences, new_builder, extend, update,
  collect, id_suffix, repeat_issue_group_id, finish, finish_all, aggregate_repeat_issue_groups,
}

abbrev IsWhole : RepeatIssueGroupBuilder → Type 0
IsWhole b =
    (is_some b.id ≡ true)
    × (is_some (head? b.attempts) ≡ true)
    × (is_some (first b.attempt_numbers) ≡ true)

id_suffix-IsAscii : (f : Text) → IsAscii f → IsAscii (id_suffix f)
unfolding id_suffix
id_suffix-IsAscii f a = elim (Option-cases (rsplit_once b'-' f)) [
  | inl e ↦ rw (e, id_suffix) a
  | inr ((head, value), e) ↦ rw (e, id_suffix) (rsplit_once-IsAscii b'-' f head value a e)
]

group_id_some : (f : Text) → IsAscii f → is_some (repeat_issue_group_id f) ≡ true
unfolding repeat_issue_group_id
group_id_some f a =
    let suffix = id_suffix f in
    let (t, e) =
      slice_to_ascii (min (text_len suffix) 12) suffix (id_suffix-IsAscii f a) (omega arith) in
    ground (arith, e)

head?-append {ℓ} :
    {A : Type ℓ} (xs ys : List A) → is_some (head? xs) ≡ true → is_some (head? (xs ++ ys)) ≡ true
head?-append [] ys h = ground arith
head?-append (x ∷ xs) ys h = refl

new_builder-IsWhole :
    (input : RepeatIssueGroupInput) → IsAscii input.fingerprint → IsWhole (new_builder input)
unfolding new_builder
new_builder-IsWhole input a =
    (group_id_some input.fingerprint a, refl, first-insert input.occurrence.attempt [])

extend-IsWhole :
    (input : RepeatIssueGroupInput) (b : RepeatIssueGroupBuilder)
    → IsWhole b
    → IsWhole (extend input b)
unfolding extend
extend-IsWhole input b w = (
  w.0,
  head?-append b.attempts (input.occurrence ∷ []) w.1,
  first-insert input.occurrence.attempt b.attempt_numbers,
)

collect-IsWhole :
    (m : Dict Text RepeatIssueGroupBuilder) (inputs : List RepeatIssueGroupInput)
    → All (λ e. IsWhole e.1) m
    → All (λ i. IsAscii i.fingerprint) inputs
    → All (λ e. IsWhole e.1) (collect m inputs)
unfolding collect update
collect-IsWhole m [] w a = w
collect-IsWhole m (input ∷ inputs) w a =
    collect-IsWhole (alter input.fingerprint (update input) m) inputs
      (All-alter IsWhole input.fingerprint (update input) m (new_builder-IsWhole input a.0)
        (extend-IsWhole input) w)
      a.1

finish-IsWhole : (b : RepeatIssueGroupBuilder) → IsWhole b → is_some (finish b) ≡ true
unfolding finish
finish-IsWhole b w =
    ground (arith, sort_by-some compare_occurrences b.attempts w.1, last_some b.attempt_numbers w.2)

finish_all-IsWhole :
    (m : Dict Text RepeatIssueGroupBuilder)
    → All (λ e. IsWhole e.1) m
    → is_some (finish_all m) ≡ true
unfolding finish_all
finish_all-IsWhole [] w = refl
finish_all-IsWhole ((f, b) ∷ m) w = ground (arith, finish-IsWhole b w.0, finish_all-IsWhole m w.1)

-- For inputs with ASCII fingerprints (as `issue_fingerprint` makes them) the groups are computed
-- without a panic.
pub aggregate_total :
    (inputs : List RepeatIssueGroupInput)
    → All (λ i. IsAscii i.fingerprint) inputs
    → is_some (aggregate_repeat_issue_groups inputs) ≡ true
unfolding aggregate_repeat_issue_groups
aggregate_total inputs a = finish_all-IsWhole (collect [] inputs) (collect-IsWhole [] inputs tt a)
