-- ===== src/Compiler/Libraries.antt =====
-- recompile/recc/src/main.rs: reading the output of otool, ldd and readelf.
use recompile.Base.{
  [], Bool, Option, none, some, List, head?, drop, unwrap_or, filter_map, Text, codes,
  if◌then◌else◌, opt_map,
}
use recompile.Base.Scan.{lines, split_once, trim, starts_with}
use recompile.Base.Words.{split_whitespace}

-- `part.starts_with('/')`
abbrev pub is_absolute : Text → Bool
is_absolute path = starts_with (codes "/") path

-- The first word of a text, if it is an absolute path.
unfoldable pub absolute_word : Text → Option Text
absolute_word s =
    let path_part = unwrap_or (head? (split_whitespace s)) [] in
    if is_absolute path_part then some path_part else none

-- A line of ldd.
unfoldable pub ldd_line : Text → Option Text
unfolding absolute_word split_once
ldd_line line = elim (split_once (codes "=>") line) [
  | some (left, right) ↦ absolute_word right
  | none ↦ absolute_word line
]

-- A line of otool, behind the first.
unfoldable pub otool_line : Text → Option Text
otool_line line = opt_map (λ parts. trim parts.0) (split_once (codes " (") (trim line))

-- The libraries that the output of otool or ldd names.
unfoldable pub detect_dsos : Bool → Text → List Text
unfolding ldd_line otool_line
detect_dsos on_macos output =
    if on_macos
    then filter_map otool_line (drop 1 (lines output))
    else filter_map ldd_line (lines output)

-- The build id in the output of readelf, if it ended with success.
unfoldable pub detect_build_id : Bool → Bool → Text → Text
detect_build_id on_linux success output =
    if on_linux
    then if success
      then unwrap_or
          (head? (
            filter_map
              (λ line. opt_map (λ parts. trim parts.1) (split_once (codes "Build ID:") line))
              (lines output)))
          []
      else []
    else []
