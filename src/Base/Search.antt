-- ===== src/Base/Search.antt =====
-- What `find` returns: the first element that passes the test.
use mathlib.Core.Path.{◌≡◌, refl, ap}
use mathlib.Core.Logic.{inl, inr}
use mathlib.Core.Bool.{Bool, true, false, not}
use mathlib.Core.Option.{Option, none, some}
use mathlib.Core.List.{List, [], ◌∷◌, ◌++◌}
use recompile.Base.Tests.{Bool-cases}
use recompile.Base.Lists.{find, all, All}

module _ {ℓ} {A : Type ℓ} where
  -- `a` passes the test and nothing before it does.
  pub record IsFirst (p : A → Bool) (xs : List A) (a : A) : Type ℓ where
    pub before : List A
    pub after : List A
    pub split : xs ≡ before ++ a ∷ after
    pub skipped : all (λ x. not (p x)) before ≡ true
    pub found : p a ≡ true

  pub data Finds (p : A → Bool) (xs : List A) : Option A → Type ℓ where
    missed : all (λ x. not (p x)) xs ≡ true → Finds p xs none
    hit : (a : A) → IsFirst p xs a → Finds p xs (some a)

  Finds-cons :
      (p : A → Bool) (x : A) (xs : List A) {r : Option A}
      → p x ≡ false
      → Finds p xs r
      → Finds p (x ∷ xs) r
  Finds-cons p x xs miss (missed h) = missed (rw miss h)
  Finds-cons p x xs miss (hit a f) = hit a (record {
    before = x ∷ f.before;
    after = f.after;
    split = ap (λ t. x ∷ t) f.split;
    skipped = rw miss f.skipped;
    found = f.found;
  })

  pub find-Finds : (p : A → Bool) (xs : List A) → Finds p xs (find p xs)
  find-Finds p [] = missed refl
  find-Finds p (x ∷ xs) = elim (Bool-cases (p x)) [
    | inl now ↦
        rw now
          (hit x (record { before = []; after = xs; split = refl; skipped = refl; found = now }))
    | inr miss ↦ rw miss (Finds-cons p x xs miss (find-Finds p xs))
  ]

  -- Tests that agree on the elements find the same one.
  pub find-congr : (p q : A → Bool) (xs : List A) → All (λ x. p x ≡ q x) xs → find p xs ≡ find q xs
  find-congr p q [] h = refl
  find-congr p q (x ∷ xs) h = rw (h.0, find-congr p q xs h.1)
