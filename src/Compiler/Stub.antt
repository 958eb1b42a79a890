-- ===== src/Compiler/Stub.antt =====
-- recompile/recc/src/main.rs: the manifest that `write_manifest_stub` writes.
use recompile.Base.{◌∷◌, [], Option, List, map, Text, codes, unwrap_or}
use recompile.Issues.Json.{Json}
use recompile.Cli.Promote.Findings.{Maker}

-- What the function learns of a binary from the system: its canonical path and its file name, if it
-- has them, and what otool or ldd and readelf say, if they run.
pub record Binary : Type 0 where
  pub path : Text
  pub canonical : Option Text
  pub file_name : Option Text
  pub dsos : Option (List Text)
  pub build_id : Option Text

unfoldable pub manifest_of : {V : Type 0} → Json V → Maker V → Text → Binary → V
manifest_of json maker cwd binary = maker.object (
    (codes "binary", json.string (unwrap_or binary.canonical binary.path))
    ∷ (codes "argv", maker.array (json.string (unwrap_or binary.file_name (codes "a.out")) ∷ []))
    ∷ (
      codes "env",
      maker.object (
          (codes "RE_FRAMEPTR", json.string (codes "1"))
          ∷ (codes "RECC_OPTIONAL", json.string (codes "1"))
          ∷ []),
    )
    ∷ (codes "build_id", json.string (unwrap_or binary.build_id []))
    ∷ (codes "dsos", maker.array (map json.string (unwrap_or binary.dsos [])))
    ∷ (codes "cwd", json.string cwd)
    ∷ (
      codes "policy",
      maker.object
          ((codes "stack_depth", maker.number 64) ∷ (codes "ringbuf_mb", maker.number 16) ∷ []),
    )
    ∷ [])
