-- ===== src/Escalate/Tools/Loops.antt =====
-- The loops over the lines of a tool's output.
use recompile.Base.{
  ℕ, zero, suc, ◌+◌, ◌<◌, ◌≡◌, refl, ap, ◌∙◌, sym, Bool, Option, none, some, List, [], ◌∷◌, ◌++◌,
  Text, arith, map, for_each, find_last, or_else, append_assoc, append-nil, if◌then◌else◌,
  Option-cases, inl, inr, get_elem?, All, All-map, Mem, mem-cons_self, mem-cons_of_mem, ◌≤◌,
}
use mathlib.Core.Path.{subst}
use recompile.Escalate.Result.{EscalationDetection}

-- The detections of the lines from an index on: for each line that has a class, the class, the
-- line without what stands around it, and its number, counted from 1.
abbrev pub detections :
    (ℕ → Text → Option Text) → (Text → Text) → ℕ → List Text → List EscalationDetection
detections class clean index [] = []
detections class clean index (line ∷ ls) = elim (class index (clean line)) [
  | none ↦ detections class clean (index + 1) ls
  | some c ↦
      record { class = c; summary = clean line; line = some (index + 1) }
      ∷ detections class clean (index + 1) ls
]

detections-cons :
    (class : ℕ → Text → Option Text) (clean : Text → Text) (index : ℕ) (line : Text)
    (ls : List Text)
    → detections class clean index (line ∷ ls)
      ≡ detections class clean index (line ∷ []) ++ detections class clean (index + 1) ls
detections-cons class clean index line ls = ground arith

module _ {S : Type 0} (body : ℕ → Text → S → S) (clean : Text → Text) where
  -- A loop that adds the detections of each line to those in its state.
  loop_detected :
      (class : ℕ → Text → Option Text) (detected : S → List EscalationDetection)
      → ((i : ℕ) (line : Text) (s : S)
          → detected (body i line s) ≡ detected s ++ detections class clean i (line ∷ []))
      → (index : ℕ) (ls : List Text) (s : S)
      → detected (for_each body index ls s) ≡ detected s ++ detections class clean index ls
  loop_detected class detected step index [] s = sym (append-nil (detected s))
  loop_detected class detected step index (line ∷ ls) s =
      let d = detections class clean in
      loop_detected class detected step (index + 1) ls (body index line s)
      ∙ ap (λ ds. ds ++ d (index + 1) ls) (step index line s)
      ∙ append_assoc (detected s) (d index (line ∷ [])) (d (index + 1) ls)
      ∙ ap (λ ds. detected s ++ ds) (sym (detections-cons class clean index line ls))

  -- A loop that keeps the last line that passes a test.
  loop_summary :
      (p : Text → Bool) (summary : S → Option Text)
      → ((i : ℕ) (line : Text) (s : S)
          → summary (body i line s) ≡ (if p (clean line) then some (clean line) else summary s))
      → (index : ℕ) (ls : List Text) (s : S)
      → summary (for_each body index ls s) ≡ or_else (find_last p (map clean ls)) (summary s)
  loop_summary p summary step index [] s = refl
  loop_summary p summary step index (line ∷ ls) s =
      ground
        (arith, loop_summary p summary step (index + 1) ls (body index line s), step index line s)

-- The numbers of the detections increase from above a bound.
abbrev pub Increasing : ℕ → List EscalationDetection → Type 0
Increasing n [] = Unit
Increasing n (d ∷ ds) = (m : ℕ) × (d.line ≡ some m) × (n < m) × Increasing m ds

module _ (class : ℕ → Text → Option Text) (clean : Text → Text) where
  -- A detection stands for a line: it has the line's number, text and class.
  abbrev pub StandsFor : ℕ → Text → EscalationDetection → Type 0
  StandsFor i line d =
      (class i (clean line) ≡ some d.class) × (d.summary ≡ clean line) × (d.line ≡ some (i + 1))

  abbrev pub detection_at : ℕ → Text → Text → EscalationDetection
  detection_at i line c = record { class = c; summary = clean line; line = some (i + 1) }

  -- What a list of detections says of the lines: each detection stands for a line, every line with
  -- a class has a detection that stands for it, and the detections are in the order of the lines.
  pub record Reports (ls : List Text) (detected : List EscalationDetection) : Type 0 where
    pub sound :
        All
          (λ d. (i : ℕ) × (line : Text) × (get_elem? ls i ≡ some line) × StandsFor i line d)
          detected
    pub complete :
        (i : ℕ) (line c : Text)
        → get_elem? ls i ≡ some line
        → class i (clean line) ≡ some c
        → Mem (detection_at i line c) detected
    pub ordered : Increasing 0 detected

  detections-Increasing :
      (n index : ℕ) (ls : List Text) → n ≤ index → Increasing n (detections class clean index ls)
  detections-Increasing n index [] h = tt
  detections-Increasing n index (line ∷ ls) h = elim (Option-cases (class index (clean line))) [
    | inl none_here ↦
        rw (none_here, detections) (detections-Increasing n (index + 1) ls (omega arith))
    | inr (c, here) ↦
        rw (here, detections)
          (
            index + 1,
            refl,
            omega arith,
            detections-Increasing (index + 1) (index + 1) ls (omega arith),
          )
  ]

  detections-complete :
      (index : ℕ) (ls : List Text) (i n : ℕ) (line c : Text)
      → index + i ≡ n
      → get_elem? ls i ≡ some line
      → class n (clean line) ≡ some c
      → Mem (detection_at n line c) (detections class clean index ls)
  detections-complete index [] i n line c e at h = ground arith
  detections-complete index (l ∷ ls) zero n line c e at h =
      let here : class index (clean l) ≡ some c = ground arith in
      let this : detection_at index l c ≡ detection_at n line c = ground arith in
      let rest = detections class clean (index + 1) ls in
      rw (here, detections) (subst (λ d. Mem d (detection_at index l c ∷ rest)) this mem-cons_self)
  detections-complete index (l ∷ ls) (suc i) n line c e at h =
      let later = detections-complete (index + 1) ls i n line c (omega arith) at h in
      elim (Option-cases (class index (clean l))) [
        | inl none_here ↦ rw (none_here, detections) later
        | inr (b, here) ↦ rw (here, detections) (mem-cons_of_mem _ later)
      ]

  -- What each detection of the lines from an index on stands for.
  abbrev Sound : ℕ → List Text → List EscalationDetection → Type 0
  Sound index ls ds =
      All
        (λ d. (i : ℕ) × (line : Text) × (get_elem? ls i ≡ some line) × StandsFor (index + i) line d)
        ds

  Sound-later :
      (index : ℕ) (l : Text) (ls : List Text) (ds : List EscalationDetection)
      → Sound (index + 1) ls ds
      → Sound index (l ∷ ls) ds
  Sound-later index l ls [] h = tt
  Sound-later index l ls (d ∷ ds) ((i, line, at, stands), h) = (
    (suc i, line, at, subst (λ n. StandsFor n line d) (omega arith) stands),
    Sound-later index l ls ds h,
  )

  detections-Sound : (index : ℕ) (ls : List Text) → Sound index ls (detections class clean index ls)
  detections-Sound index [] = tt
  detections-Sound index (l ∷ ls) =
      let later =
        Sound-later index l ls (detections class clean (index + 1) ls)
          (detections-Sound (index + 1) ls) in
      elim (Option-cases (class index (clean l))) [
        | inl none_here ↦ rw (none_here, Sound, detections) later
        | inr (c, here) ↦
            rw (here, Sound, detections)
              (
                (
                  zero,
                  l,
                  refl,
                  subst (λ n. StandsFor n l (detection_at index l c)) (omega arith)
                      (here, refl, refl),
                ),
                later,
              )
      ]

  detections-Reports : (ls : List Text) → Reports ls (detections class clean 0 ls)
  detections-Reports ls = record {
    sound =
        All-map
          (λ d (i, line, at, stands).
            (i, line, at, subst (λ n. StandsFor n line d) (omega arith) stands))
          (detections class clean 0 ls) (detections-Sound 0 ls);
    complete = λ i line c at h. detections-complete 0 ls i i line c (omega arith) at h;
    ordered = detections-Increasing 0 0 ls (omega arith);
  }

-- A loop that starts without detections and adds those of each line reports the lines.
pub loop-Reports :
    {S : Type 0} (body : ℕ → Text → S → S) (class : ℕ → Text → Option Text) (clean : Text → Text)
    (detected : S → List EscalationDetection) (ls : List Text) (start : S)
    → ((i : ℕ) (line : Text) (s : S)
        → detected (body i line s) ≡ detected s ++ detections class clean i (line ∷ []))
    → detected start ≡ []
    → Reports class clean ls (detected (for_each body 0 ls start))
loop-Reports body class clean detected ls start step empty =
    subst (Reports class clean ls)
      (sym (
        loop_detected body clean class detected step 0 ls start
        ∙ ap (λ ds. ds ++ detections class clean 0 ls) empty))
      (detections-Reports class clean ls)

-- A loop that starts without a summary ends with the last one.
pub loop-last :
    {S : Type 0} (body : ℕ → Text → S → S) (p : Text → Bool) (clean : Text → Text)
    (summary : S → Option Text) (ls : List Text) (start : S)
    → ((i : ℕ) (line : Text) (s : S)
        → summary (body i line s) ≡ (if p (clean line) then some (clean line) else summary s))
    → summary start ≡ none
    → summary (for_each body 0 ls start) ≡ find_last p (map clean ls)
loop-last body p clean summary ls start step empty =
    ground (arith, loop_summary body clean p summary step 0 ls start)
