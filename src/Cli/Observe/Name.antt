-- ===== src/Cli/Observe/Name.antt =====
-- The name of an observed target.
use recompile.Base.{
  ℕ, ◌<◌, ◌≡◌, refl, true, [], ◌∷◌, Text, arith, length, all, if◌then◌else◌, or_else, unwrap_or,
  codes,
}
use recompile.Base.FileNames.{file_name, file_stem}
use recompile.Cli.Observe.{is_safe_char, sanitize, or_target, observation_target_name}

-- A name that is not empty and has safe characters alone.
abbrev pub IsSafe : Text → Type 0
IsSafe name = (0 < length name) × (all (λ c. is_safe_char c) name ≡ true)

safe_char : (c : ℕ) → is_safe_char (if is_safe_char c then c else b'_') ≡ true
unfolding is_safe_char
safe_char c = ground arith

sanitize-all : (raw : Text) → all (λ c. is_safe_char c) (sanitize raw) ≡ true
unfolding sanitize
sanitize-all [] = refl
sanitize-all (c ∷ raw) = rw (safe_char c, sanitize-all raw)

or_target-IsSafe : (s : Text) → all (λ c. is_safe_char c) s ≡ true → IsSafe (or_target s)
unfolding or_target is_safe_char
or_target-IsSafe [] h = (omega arith, refl)
or_target-IsSafe (c ∷ s) h = (omega arith, h)

-- The name of a target, the last part of its directory, is never empty, and has no `/` or other
-- character than ASCII letters, digits, `-`, `_` and `.`.
observation_target_name-IsSafe : (path : Text) → IsSafe (observation_target_name path)
unfolding observation_target_name
observation_target_name-IsSafe path =
    or_target-IsSafe _
      (sanitize-all (unwrap_or (or_else (file_stem path) (file_name path)) (codes "target")))
