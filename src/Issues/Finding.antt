-- ===== src/Issues/Finding.antt =====
-- recompile/rerun/src/issue_groups.rs: reading the fields of a finding.
use recompile.Base.{
  ℕ, ◌-◌, ◌+◌, ◌*◌, ◌&&◌, ◌||◌, ◌>>=◌, ◌∷◌, [], ℤ, pos, negsuc, not, Option, none, some, List, Text,
  codes, text_eq, all, ltb, opt_map, or_else, unwrap_or, if◌then◌else◌, u64_mod,
}
use recompile.Base.Scan.{trim, strip_prefix}
use recompile.Base.Words.{is_ascii_digit}
use recompile.Base.FileNames.{file_name}
use recompile.Escalate.Result.{is_empty}
use recompile.Issues.Json.{Json}
use recompile.Issues.Normalize.{stable_non_unknown, normalize_stack_site, normalize_volatile_tokens}

-- `option.filter(stable_non_unknown)`
abbrev pub stable_only : Option Text → Option Text
stable_only none = none
stable_only (some value) = if stable_non_unknown value then some value else none

digits_value : ℕ → Text → ℕ
digits_value n [] = n
digits_value n (c ∷ s) = digits_value (n * 10 + (c - b'0')) s

-- `s.parse::<u64>().ok()`: digits, behind a plus sign if there is one, below 2^64.
unfoldable pub parse_u64 : Text → Option ℕ
unfolding strip_prefix digits_value
parse_u64 s =
    let digits = unwrap_or (strip_prefix (codes "+") s) s in
    if is_empty digits || not (all is_ascii_digit digits)
    then none
    else if ltb (digits_value 0 digits) u64_mod
    then some (digits_value 0 digits)
    else none

-- `u64::try_from(value).ok()`
abbrev pub try_from : ℤ → Option ℕ
try_from (pos n) = some n
try_from (negsuc n) = none

module _ {V : Type 0} (json : Json V) where
  -- The value under a path of keys.
  unfoldable pub value_at : V → List Text → Option V
  value_at current [] = some current
  value_at current (key ∷ path) = json.get current key >>= λ next. value_at next path

  unfoldable pub finding_string : V → List Text → Option Text
  unfolding value_at
  finding_string finding path = value_at finding path >>= json.as_str

  unfoldable pub finding_u64 : V → List Text → Option ℕ
  unfolding value_at
  finding_u64 finding path = value_at finding path >>= λ current.
      or_else (or_else (json.as_u64 current) (json.as_i64 current >>= try_from))
        (json.as_str current >>= λ value. parse_u64 (trim value))

  unfoldable pub finding_file_uri : V → List Text → Option Text
  unfolding strip_prefix
  finding_file_uri finding path =
      finding_string finding path >>= λ value. stable_only (strip_prefix (codes "file://") value)

  -- The first of the frames that is a text with a site, unless one before it panics.
  first_site : List V → Option (Option Text)
  first_site [] = some none
  first_site (frame ∷ frames) =
      let later = first_site frames in
      elim (json.as_str frame) [
        | none ↦ later
        | some text ↦ elim (normalize_stack_site text) [
          | none ↦ none
          | some none ↦ later
          | some (some site) ↦ some (some site)
        ]
      ]

  unfoldable pub first_stack_site : V → Text → Option (Option Text)
  unfolding value_at first_site
  first_stack_site finding stack_name =
      elim (value_at finding (codes "evidence" ∷ codes "stacks" ∷ stack_name ∷ [])
        >>= json.as_array) [ none ↦ some none | some frames ↦ first_site frames ]

  unfoldable pub tool_frame : V → Text → Option (Option Text)
  tool_frame finding field =
      elim (finding_string finding (codes "evidence" ∷ codes "tool" ∷ field ∷ [])) [
        | none ↦ some none
        | some frame ↦ normalize_stack_site frame
      ]

  unfoldable pub tool_name : V → Option Text
  unfolding text_eq
  tool_name finding =
      or_else (finding_string finding (codes "evidence" ∷ codes "tool" ∷ codes "name" ∷ []))
        (finding_string finding (codes "origin" ∷ []))
      >>= λ value.
          if not (text_eq value (codes "ebpf")) && stable_non_unknown value
          then some value
          else none

  unfoldable pub normalized_tool_summary : V → Option (Option Text)
  normalized_tool_summary finding =
      elim (or_else
        (finding_string finding (codes "evidence" ∷ codes "tool" ∷ codes "summary" ∷ []))
        (finding_string finding (codes "message" ∷ []))) [
          | none ↦ some none
          | some summary ↦
              opt_map (λ normalized. stable_only (some normalized))
                (normalize_volatile_tokens summary)
        ]

  unfoldable pub binary_identity : V → Option Text
  binary_identity finding = stable_only (
      or_else (finding_string finding (codes "provenance" ∷ codes "original_binary_path" ∷ []))
        (finding_string finding (codes "provenance" ∷ codes "binary_path" ∷ []))
      >>= file_name)

  -- `first.or_else(|| second)` of two sites that may panic.
  unfoldable pub site_or_else : Option (Option Text) → Option (Option Text) → Option (Option Text)
  site_or_else none second = none
  site_or_else (some none) second = second
  site_or_else (some (some site)) second = some (some site)

  unfoldable pub finding_call_site : V → Option (Option Text)
  finding_call_site finding =
      site_or_else (tool_frame finding (codes "call_frame"))
        (first_stack_site finding (codes "call"))

  -- `alloc_site` and `free_site` of the inputs: the field of the evidence, the frame of the tool,
  -- the stack.
  unfoldable pub evidence_site : V → Text → Text → Text → Option (Option Text)
  evidence_site finding site frame stack =
      site_or_else (some (stable_only (finding_string finding (codes "evidence" ∷ site ∷ []))))
        (site_or_else (tool_frame finding frame) (first_stack_site finding stack))
