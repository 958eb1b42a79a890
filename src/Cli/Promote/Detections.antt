-- ===== src/Cli/Promote/Detections.antt =====
-- The windows of output that detections get their frames from.
use recompile.Base.{
  ℕ, ◌+◌, ◌-◌, ◌≤◌, ◌≡◌, refl, ◌∙◌, ap, true, Option, some, List, [], ◌∷◌, Text, arith, is_some,
  length, take, drop, min, zero, suc, sym, leb, ◌<◌, Bool-cases, Option-cases, inl, inr,
}
use recompile.Base.Scan.{lines}
use recompile.Escalate.Result.{EscalationResult}
use recompile.Cli.Promote.{
  ToolDetection, slice_range, window_start, attach_frames_of, read_tool_output, attach_tool_frames,
}

length-drop : (n : ℕ) (xs : List Text) → length (drop n xs) ≡ length xs - n
length-drop zero xs = omega arith
length-drop (suc n) [] = omega arith
length-drop (suc n) (x ∷ xs) = omega (arith, length-drop n xs)

take-long : (n : ℕ) (xs : List Text) → length xs ≤ n → take n xs ≡ xs
take-long zero [] h = refl
take-long (suc n) [] h = refl
take-long zero (x ∷ xs) h = absurd (omega arith)
take-long (suc n) (x ∷ xs) h = ap (λ ys. x ∷ ys) (take-long n xs (omega arith))

-- The slice that ends at the end of the list or after `k` elements.
slice-take :
    (start k : ℕ) (xs : List Text)
    → start ≤ length xs
    → slice_range start (min (start + k) (length xs)) xs ≡ some (take k (drop start xs))
unfolding slice_range
slice-take start k xs h =
    let rest = drop start xs in
    let left = length-drop start xs in
    let same : take (min (start + k) (length xs) - start) rest ≡ take k rest =
      elim (Bool-cases (leb k (length rest))) [
        | inl fits ↦ ap (λ n. take n rest) (ground (arith, left, fits))
        | inr long ↦
            take-long (min (start + k) (length xs) - start) rest (ground (arith, left, long))
            ∙ sym (take-long k rest (ground (arith, long)))
      ] in
    ground (arith, same)

window_start-le : (line : Option ℕ) (count : ℕ) → window_start line count ≤ count
unfolding window_start
window_start-le line count = ground arith

module _ (read_to_string : Text → Option Text) where
  -- The frames of a detection come from the 24 lines of the output from the start of its window
  -- on; the slice is made without a panic.
  attach-window :
      (result : EscalationResult) (d : ToolDetection) (output : Text)
      → read_tool_output read_to_string result ≡ some output
      → let ls = lines output in
        attach_tool_frames read_to_string result d
        ≡ some
            (attach_frames_of result.tool (take 24 (drop (window_start d.line (length ls)) ls)) d)
  unfolding attach_tool_frames
  attach-window result d output h =
      let ls = lines output in
      let start = window_start d.line (length ls) in
      ground (arith, h, slice-take start 24 ls (window_start-le d.line (length ls)))

  -- Frames are attached to a detection without a panic, whatever line number it has and whatever
  -- output was kept.
  pub attach_tool_frames_total :
      (result : EscalationResult) (d : ToolDetection)
      → is_some (attach_tool_frames read_to_string result d) ≡ true
  unfolding attach_tool_frames
  attach_tool_frames_total result d = elim (Option-cases (read_tool_output read_to_string result)) [
    | inl missing ↦ ground (arith, missing)
    | inr (output, h) ↦ ground (arith, attach-window result d output h)
  ]

  -- A detection at a line of the output that was kept gets its frames from that line and the 23
  -- behind it.
  pub attach_tool_frames_window :
      (result : EscalationResult) (d : ToolDetection) (output : Text) (n : ℕ)
      → read_tool_output read_to_string result ≡ some output
      → d.line ≡ some (n + 1)
      → n < length (lines output)
      → attach_tool_frames read_to_string result d
        ≡ some (attach_frames_of result.tool (take 24 (drop n (lines output))) d)
  unfolding window_start
  attach_tool_frames_window result d output n h at inside =
      let ls = lines output in
      let start : window_start d.line (length ls) ≡ n = ground (arith, at, inside) in
      attach-window result d output h
      ∙ ap (λ k. some (attach_frames_of result.tool (take 24 (drop k ls)) d)) start
