-- ===== src/Base/Sort.antt =====
-- `slice::sort_by`, a stable sort: the library documents its result, and insertion computes it.
use Prim.Native.Nat.{Ordering}
use Prim.Native.Nat.Ordering.{lt, eq, gt}
use mathlib.Core.Path.{◌≡◌, refl}
use mathlib.Core.Bool.{Bool, true, false}
use mathlib.Core.List.{List, [], ◌∷◌, Perm}
use mathlib.Core.List.Perm
use recompile.Base.Tests.{is_some}
use recompile.Base.Lists.{head?, length, count}
use native.Mathlib.Omega.{arith}

module _ {ℓ} {A : Type ℓ} (cmp : A → A → Ordering) where
  insert_by : A → List A → List A
  insert_by x [] = x ∷ []
  insert_by x (y ∷ ys) = elim (cmp x y) [
    | lt ↦ x ∷ y ∷ ys
    | eq ↦ x ∷ y ∷ ys
    | gt ↦ y ∷ insert_by x ys
  ]

  unfoldable pub sort_by : List A → List A
  unfolding insert_by
  sort_by [] = []
  sort_by (x ∷ xs) = insert_by x (sort_by xs)

  abbrev pub at_most : A → A → Bool
  at_most x y = elim (cmp x y) [ gt ↦ false | _ ↦ true ]

  abbrev pub Leads : A → List A → Type 0
  Leads x [] = Unit
  Leads x (y ∷ ys) = at_most x y ≡ true

  -- No element is greater than the next one.
  abbrev pub IsOrdered : List A → Type 0
  IsOrdered [] = Unit
  IsOrdered (x ∷ xs) = Leads x xs × IsOrdered xs

  insert_by-perm : (x : A) (xs : List A) → Perm (insert_by x xs) (x ∷ xs)
  unfolding insert_by
  insert_by-perm x [] = Perm.refl (x ∷ [])
  insert_by-perm x (y ∷ ys) =
      let moved = Perm.trans (Perm.cons y (insert_by-perm x ys)) (Perm.swap x y ys) in
      ground (arith, moved, Perm.refl (x ∷ y ∷ ys))

  -- Sorting keeps the elements.
  pub sort_by-perm : (xs : List A) → Perm (sort_by xs) xs
  unfolding sort_by
  sort_by-perm [] = Perm.refl []
  sort_by-perm (x ∷ xs) = Perm.trans (insert_by-perm x (sort_by xs)) (Perm.cons x (sort_by-perm xs))

  module _ (flip : (x y : A) → cmp x y ≡ gt → cmp y x ≡ lt) where
    Leads-insert_by : (y x : A) (xs : List A) → cmp x y ≡ gt → Leads y xs → Leads y (insert_by x xs)
    unfolding insert_by
    Leads-insert_by y x [] h l = ground (arith, flip x y)
    Leads-insert_by y x (z ∷ xs) h l = ground (arith, flip x y)

    insert_by-IsOrdered : (x : A) (xs : List A) → IsOrdered xs → IsOrdered (insert_by x xs)
    unfolding insert_by
    insert_by-IsOrdered x [] s = (tt, tt)
    insert_by-IsOrdered x (y ∷ ys) s =
        ground (arith, Leads-insert_by y x ys, insert_by-IsOrdered x ys s.1)

    -- The result is in order, for a comparison that is antisymmetric.
    pub sort_by-IsOrdered : (xs : List A) → IsOrdered (sort_by xs)
    unfolding sort_by
    sort_by-IsOrdered [] = tt
    sort_by-IsOrdered (x ∷ xs) = insert_by-IsOrdered x (sort_by xs) (sort_by-IsOrdered xs)

  insert_by-some : (x : A) (xs : List A) → is_some (head? (insert_by x xs)) ≡ true
  unfolding insert_by
  insert_by-some x [] = refl
  insert_by-some x (y ∷ ys) = ground arith

  -- Sorting keeps a list nonempty.
  pub sort_by-some : (xs : List A) → is_some (head? xs) ≡ true → is_some (head? (sort_by xs)) ≡ true
  unfolding sort_by
  sort_by-some [] h = h
  sort_by-some (x ∷ xs) h = insert_by-some x (sort_by xs)

  length-insert_by : (x : A) (xs : List A) → length (insert_by x xs) ≡ length (x ∷ xs)
  unfolding insert_by
  length-insert_by x [] = refl
  length-insert_by x (y ∷ ys) = ground (arith, length-insert_by x ys)

  pub length-sort_by : (xs : List A) → length (sort_by xs) ≡ length xs
  unfolding sort_by
  length-sort_by [] = refl
  length-sort_by (x ∷ xs) = omega (arith, length-insert_by x (sort_by xs), length-sort_by xs)

  -- How many elements pass a test does not depend on the order.
  count-insert_by :
      (p : A → Bool) (x : A) (xs : List A) → count p (insert_by x xs) ≡ count p (x ∷ xs)
  unfolding insert_by
  count-insert_by p x [] = refl
  count-insert_by p x (y ∷ ys) = ground (arith, count-insert_by p x ys)

  pub count-sort_by : (p : A → Bool) (xs : List A) → count p (sort_by xs) ≡ count p xs
  unfolding sort_by
  count-sort_by p [] = refl
  count-sort_by p (x ∷ xs) = ground (arith, count-insert_by p x (sort_by xs), count-sort_by p xs)
