-- ===== src/Compiler/Arguments.antt =====
-- The arguments that the compiler wrapper reads: the language and the output.
use recompile.Base.{
  ◌≡◌, refl, ◌∷◌, [], ◌++◌, Bool, true, false, some, List, any, keep, head?, arith, Text, codes,
  text_eq, text_eq_iff, if◌then◌else◌, Bool-cases, inl, inr,
}
use recompile.Base.Scan.{contains}
use recompile.Compiler.{
  is_cxx_source, infer_from, infer_cxx_mode, detect_output_binary, is_forwarded,
}

-- What an argument stands for: a language, named behind -x, or a file or flag.
pub data Word : Type 0 where
  language : Text → Word
  file : Text → Word

unfoldable pub words_from : Bool → List Text → List Word
unfolding text_eq
words_from behind [] = []
words_from true (lang ∷ args) = language lang ∷ words_from false args
words_from false (arg ∷ args) =
    let behind_x = words_from true args in
    let rest = words_from false args in
    if text_eq arg (codes "-x") then behind_x else file arg ∷ rest

abbrev is_cxx : Word → Bool
is_cxx (language lang) = contains (codes "++") lang
is_cxx (file name) = is_cxx_source name

infer_from_lem :
    (behind : Bool) (args : List Text)
    → infer_from behind args ≡ any is_cxx (words_from behind args)
unfolding infer_from words_from
infer_from_lem behind [] = refl
infer_from_lem true (lang ∷ args) = ground (arith, infer_from_lem false args)
infer_from_lem false (arg ∷ args) =
    ground (arith, infer_from_lem false args, infer_from_lem true args)

-- The wrapper runs a C++ compiler exactly if one of the arguments, read as languages behind -x and as
-- files or flags, is a language with ++ in its name or ends like a source file of C++.
pub infer_cxx_mode_lem :
    (args : List Text) → infer_cxx_mode args ≡ any is_cxx (words_from false args)
unfolding infer_cxx_mode
infer_cxx_mode_lem args = infer_from_lem false args

some_injective {ℓ} : {A : Type ℓ} {a b : A} → some a ≡ some b → a ≡ b
some_injective e = cc

o_forwarded : (a : Text) → text_eq a (codes "-o") ≡ true → is_forwarded a ≡ true
unfolding text_eq
o_forwarded a h = rw ((text_eq_iff a (codes "-o")).0 h) refl

output_found :
    (args flags : List Text) (path : Text)
    → head? args ≡ some path
    → is_forwarded path ≡ true
    → (a : Text) → text_eq a (codes "-o") ≡ true
    → detect_output_binary (keep is_forwarded (a ∷ args) ++ flags) ≡ some path
unfolding detect_output_binary
output_found [] flags path e f a found = absurd (ground (arith, e))
output_found (b ∷ args) flags path e f a found =
    let kept : is_forwarded b ≡ true = rw (some_injective e) f in
    ground (arith, found, e, kept, o_forwarded a found)

-- Behind the flags that are kept, the output is the same.
pub output_kept :
    (args flags : List Text) (path : Text)
    → detect_output_binary args ≡ some path
    → is_forwarded path ≡ true
    → detect_output_binary (keep is_forwarded args ++ flags) ≡ some path
unfolding detect_output_binary
output_kept [] flags path e f = absurd (ground (arith, e))
output_kept (a ∷ args) flags path e f = elim (Bool-cases (text_eq a (codes "-o"))) [
  | inr other ↦ ground (arith, other, e, output_kept args flags path (ground (arith, e, other)) f)
  | inl found ↦ output_found args flags path (ground (arith, e, found)) f a found
]
