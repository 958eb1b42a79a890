-- ===== src/Compiler.antt =====
-- recompile/recc/src/main.rs: the compiler wrapper: which compiler it runs, with which arguments, and for
-- which binary it writes a manifest. Arguments are texts, as `to_string_lossy` gives them.
pub mod Libraries
pub mod Arguments
pub mod Manifests
pub mod Stub
use recompile.Base.{
  ℕ, ◌==◌, ◌∷◌, [], ◌++◌, ◌&&◌, ◌||◌, ◌>>=◌, Bool, true, false, Option, none, some, List, not, find,
  head?, unwrap_or, filter_map, keep, Text, codes, text_eq, if◌then◌else◌, opt_map,
}
use recompile.Base.Scan.{contains}
use recompile.Base.Words.{ends_with}

-- The name of a source file of C++.
unfoldable pub is_cxx_source : Text → Bool
unfolding text_eq
is_cxx_source value =
    ends_with (codes ".cc") value
    || ends_with (codes ".cpp") value
    || ends_with (codes ".cxx") value
    || ends_with (codes ".c++") value
    || ends_with (codes ".C") value

-- The loop of `infer_cxx_mode`, from a value of `expect_lang`.
unfoldable pub infer_from : Bool → List Text → Bool
unfolding text_eq contains is_cxx_source
infer_from expect_lang [] = false
infer_from true (lang ∷ args) = contains (codes "++") lang || infer_from false args
infer_from false (arg ∷ args) =
    let behind_x = infer_from true args in
    let rest = infer_from false args in
    if text_eq arg (codes "-x") then behind_x else is_cxx_source arg || rest

unfoldable pub infer_cxx_mode : List Text → Bool
unfolding infer_from
infer_cxx_mode args = infer_from false args

unfoldable pub detect_output_binary : List Text → Option Text
unfolding text_eq
detect_output_binary [] = none
detect_output_binary (a ∷ args) =
    let rest = detect_output_binary args in if text_eq a (codes "-o") then head? args else rest

-- What `which::which` finds under a name is a parameter.
unfoldable pub detect_underlying_compiler : (Text → Option Text) → List Text → Text
unfolding infer_cxx_mode
detect_underlying_compiler which args =
    if infer_cxx_mode args
    then unwrap_or (head? (filter_map which (codes "clang++" ∷ codes "g++" ∷ []))) (codes "c++")
    else unwrap_or (head? (filter_map which (codes "clang" ∷ codes "gcc" ∷ []))) (codes "cc")

abbrev pub is_forwarded : Text → Bool
is_forwarded a = not (text_eq a (codes "--emit-manifest-only"))

-- The flags that are added, on Linux or elsewhere.
abbrev pub required_flags : Bool → List Text
required_flags on_linux =
    codes "-g"
    ∷ codes "-fno-omit-frame-pointer"
    ∷ (if on_linux then codes "-rdynamic" ∷ codes "-Wl,--export-dynamic" ∷ [] else [])

unfoldable pub forwarded : Bool → List Text → List Text
forwarded on_linux rest = keep is_forwarded rest ++ required_flags on_linux

-- What a run does: the command that it runs, the binaries that manifests are written for, in order,
-- and the exit code, if the compiler was started.
pub record Run : Type 0 where
  pub command : Option (Text × List Text)
  pub manifests : List Text
  pub code : Option ℕ

-- `option.into_iter().collect()`
abbrev pub binaries_of : Option Text → List Text
binaries_of none = []
binaries_of (some binary) = binary ∷ []

module _ (which : Text → Option Text) (on_linux : Bool)
    -- `Command::status`: none if the compiler cannot be started, else its `code()`, none for a signal.
    (start : Text → List Text → Option (Option ℕ)) where
  -- What follows the status.
  abbrev pub after_status : List Text → Option (Text × List Text) → List Text → Option ℕ → Run
  after_status rest command manifests code = record {
    command = command;
    manifests =
        if unwrap_or (opt_map (λ n. n == 0) code) false
        then manifests ++ binaries_of (detect_output_binary rest)
        else manifests;
    code = some (unwrap_or code 1);
  }

  unfoldable pub main : List Text → Bool → Run
  main rest emit_manifest_only =
      let cc = detect_underlying_compiler which rest in
      let arguments = forwarded on_linux rest in
      if emit_manifest_only
      then after_status rest none (binaries_of (detect_output_binary rest)) (some 0)
      else elim (start cc arguments) [
        | none ↦ record { command = some (cc, arguments); manifests = []; code = none }
        | some code ↦ after_status rest (some (cc, arguments)) [] code
      ]
