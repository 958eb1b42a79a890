-- ===== src/Issues/Fingerprint/Native.antt =====
-- The fingerprints of findings that the native tracer can tell apart by their memory.
use recompile.Base.{◌≡◌, refl, true, Option, Text, ap, ◌++◌, ◌∷◌, [], codes}
use recompile.Base.Scan.{join}
use recompile.Issues.Inputs.{IssueFingerprintInputs, uses_stable_native_memory_identity}
use recompile.Issues.Fingerprint.{fields, issue_fingerprint, fnv1a64}
use recompile.Base.Hex.{hex}

-- The same inputs with other locations.
abbrev pub moved :
    IssueFingerprintInputs
    → Option Text
    → Option Text
    → Option Text
    → Option Text
    → IssueFingerprintInputs
moved inputs source_path call_site alloc_site free_site = record inputs {
  source_path = source_path;
  call_site = call_site;
  alloc_site = alloc_site;
  free_site = free_site;
}

module _ (inputs : IssueFingerprintInputs)
    (source_path call_site alloc_site free_site : Option Text) where
  there : IssueFingerprintInputs
  there = moved inputs source_path call_site alloc_site free_site

  fields-moved : uses_stable_native_memory_identity inputs ≡ true → fields there ≡ fields inputs
  unfolding fields there
  fields-moved h = rw (h, fields) refl

-- Inputs with a native memory identity (no tool, a known class and operation, and all three sizes)
-- have the same fingerprint wherever the source, the call, the allocation and the release are.
pub native_fingerprint_moves :
    (inputs : IssueFingerprintInputs) (source_path call_site alloc_site free_site : Option Text)
    → uses_stable_native_memory_identity inputs ≡ true
    → issue_fingerprint (moved inputs source_path call_site alloc_site free_site)
      ≡ issue_fingerprint inputs
unfolding issue_fingerprint there
native_fingerprint_moves inputs source_path call_site alloc_site free_site h =
    ap (λ fs. codes "re-issue-v1-" ++ hex 16 (fnv1a64 (join (0x1f ∷ []) fs)))
      (fields-moved inputs source_path call_site alloc_site free_site h)
