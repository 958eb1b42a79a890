-- ===== src/Cli/Ensures.antt =====
-- What a fallible computation of the observer ensures of its result, if it gives one.
use recompile.Base.{◌≡◌, Bool, true, false, if◌then◌else◌}
use recompile.Cli.Policy.{Result, ok, err, panicked, ◌>>=◌}
use mathlib.Core.Path.{subst}

unfoldable pub Ensures {ℓ κ} : {A : Type ℓ} → (A → Type κ) → Result A → Type κ
Ensures P (ok a) = P a
Ensures P (err e) = Unit
Ensures P panicked = Unit

pub gives {ℓ κ} : {A : Type ℓ} (P : A → Type κ) (a : A) → P a → Ensures P (ok a)
unfolding Ensures
gives P a h = h

-- The continuation alone ensures it.
pub after {ℓ κ μ} :
    {A : Type ℓ} {B : Type κ} (P : B → Type μ) (m : Result A) (f : A → Result B)
    → ((a : A) → Ensures P (f a))
    → Ensures P (m >>= f)
unfolding Ensures
after P (ok a) f h = h a
after P (err e) f h = tt
after P panicked f h = tt

pub after_known {ℓ κ μ ν} :
    {A : Type ℓ} {B : Type κ} (P : B → Type μ) (Q : A → Type ν) (m : Result A) (f : A → Result B)
    → Ensures Q m
    → ((a : A) → Q a → Ensures P (f a))
    → Ensures P (m >>= f)
unfolding Ensures
after_known P Q (ok a) f q h = h a q
after_known P Q (err e) f q h = tt
after_known P Q panicked f q h = tt

pub weaken {ℓ κ μ} :
    {A : Type ℓ} (P : A → Type κ) (Q : A → Type μ) (m : Result A)
    → Ensures Q m
    → ((a : A) → Q a → P a)
    → Ensures P m
unfolding Ensures
weaken P Q (ok a) q h = h a q
weaken P Q (err e) q h = tt
weaken P Q panicked q h = tt

pub branch {ℓ κ} :
    {A : Type ℓ} (P : A → Type κ) (b : Bool) (m n : Result A)
    → Ensures P m
    → Ensures P n
    → Ensures P (if b then m else n)
branch P true m n p q = p
branch P false m n p q = q

pub ensured {ℓ κ} :
    {A : Type ℓ} (P : A → Type κ) (m : Result A) (a : A) → Ensures P m → m ≡ ok a → P a
unfolding Ensures
ensured P m a p e = subst (λ r. Ensures P r) e p
