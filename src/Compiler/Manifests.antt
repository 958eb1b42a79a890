-- ===== src/Compiler/Manifests.antt =====
-- What the compiler wrapper does, as a whole.
use recompile.Base.{
  ℕ, ◌==◌, ◌≡◌, refl, ◌∷◌, [], Bool, true, false, Option, none, some, List, All, Text, Option-cases,
  inl, inr, if◌then◌else◌, unwrap_or, opt_map,
}
use recompile.Compiler.{
  main, detect_output_binary, detect_underlying_compiler, is_forwarded, forwarded, required_flags,
}
use recompile.Compiler.Arguments.{output_kept}

module _ (which : Text → Option Text) (on_linux : Bool)
    (start : Text → List Text → Option (Option ℕ)) where
  -- The arguments of the command of a run name an output.
  abbrev pub TellsOutput : Option (Text × List Text) → Text → Type 0
  TellsOutput none path = Unit
  TellsOutput (some (cc, arguments)) path = detect_output_binary arguments ≡ some path

  written : (b : Bool) (path : Text) → All (λ binary. binary ≡ path) (if b then path ∷ [] else [])
  written true path = (refl, tt)
  written false path = tt

  -- Where the arguments name an output, other than the flag of the wrapper itself, a command that is
  -- run names the same output, and every manifest is written for it.
  pub main_names_output :
      (rest : List Text) (only : Bool) (path : Text)
      → detect_output_binary rest ≡ some path
      → is_forwarded path ≡ true
      → TellsOutput (main which on_linux start rest only).command path
        × All (λ binary. binary ≡ path) (main which on_linux start rest only).manifests
  unfolding main forwarded
  main_names_output rest true path e f = (tt, rw e (refl, (refl, tt)))
  main_names_output rest false path e f =
      let told = output_kept rest (required_flags on_linux) path e f in
      elim (Option-cases
        (start (detect_underlying_compiler which rest) (forwarded on_linux rest))) [
          | inl failed ↦ rw failed (told, tt)
          | inr (code, ran) ↦
              rw ran (told, rw e (written (unwrap_or (opt_map (λ n. n == 0) code) false) path))
        ]
