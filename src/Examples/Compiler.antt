-- ===== src/Examples/Compiler.antt =====
-- The compiler wrapper at sample arguments, those of the tests of recompile/recc/src/main.rs among them.
use recompile.Base.{
  ℕ, ◌≡◌, refl, ◌∷◌, [], true, false, Option, none, some, List, All, Text, codes, text_eq,
}
use recompile.Base.Scan.{split_once, lines, is_whitespace, trim_start_of, trim_end_of}
use recompile.Base.Words.{split_whitespace}
use recompile.Compiler.{main, infer_cxx_mode, detect_output_binary}
use recompile.Compiler.Libraries.{detect_dsos, detect_build_id}
use recompile.Compiler.Manifests.{TellsOutput, main_names_output}

abbrev c_arguments : List Text
c_arguments = codes "input.c" ∷ codes "-O2" ∷ codes "-o" ∷ codes "build/out" ∷ []

detect_output_binary_test : detect_output_binary c_arguments ≡ some (codes "build/out")
unfolding detect_output_binary
detect_output_binary_test = refl

cxx_extension_test : infer_cxx_mode (codes "main.cpp" ∷ codes "-o" ∷ codes "main" ∷ []) ≡ true
unfolding infer_cxx_mode
cxx_extension_test = refl

cxx_language_test :
    infer_cxx_mode (codes "-x" ∷ codes "c++" ∷ codes "main.c" ∷ codes "-o" ∷ codes "main" ∷ [])
    ≡ true
unfolding infer_cxx_mode
cxx_language_test = refl

c_default_test : infer_cxx_mode c_arguments ≡ false
unfolding infer_cxx_mode
c_default_test = refl

ldd_test :
    detect_dsos false (
      codes
        "\tvdso.so (0x7)\n\tlibc.so => /lib/libc.so (0x7)\n\tx.so => not found\n\t/lib/ld.so (0x7)")
    ≡ codes "/lib/libc.so" ∷ codes "/lib/ld.so" ∷ []
unfolding detect_dsos lines split_whitespace is_whitespace
ldd_test = refl

otool_test : detect_dsos true (codes "a:\n\t/usr/lib/b (c)\n") ≡ codes "/usr/lib/b" ∷ []
unfolding detect_dsos lines trim_end_of trim_start_of is_whitespace
otool_test = refl

build_id_test : detect_build_id true true (codes "x\n    Build ID: 1f2e\n") ≡ codes "1f2e"
unfolding detect_build_id lines split_once trim_end_of trim_start_of is_whitespace
build_id_test = refl

abbrev none_found : Text → Option Text
none_found name = none

abbrev ends_well : Text → List Text → Option (Option ℕ)
ends_well cc arguments = some (some 0)

-- Without a compile, the manifest is written twice.
only_manifest_test :
    (main none_found true ends_well c_arguments true).manifests
    ≡ codes "build/out" ∷ codes "build/out" ∷ []
unfolding main detect_output_binary
only_manifest_test = refl

main_names_output_example :
    TellsOutput none_found true ends_well
      (main none_found true ends_well c_arguments false).command
      (codes "build/out")
    × All
        (λ binary. binary ≡ codes "build/out")
        (main none_found true ends_well c_arguments false).manifests
unfolding text_eq
main_names_output_example =
    main_names_output none_found true ends_well c_arguments false (codes "build/out")
      detect_output_binary_test refl
