-- ===== src/Escalate/Process/Answering.antt =====
-- When valgrind and gdb give a result.
use recompile.Base.{ℕ, ◌≡◌, ◌||◌, Bool, true, false, Text, is_some, ◌>>=◌}
use recompile.Escalate.Finding.{Finding}
use recompile.Escalate.Config.{EscalationConfig}
use recompile.Escalate.Process.{
  Outcome, done, failed_with, Report, Surroundings, Command, existing, Ending, broken,
}

abbrev pub is_done : {A : Type 0} → Outcome A → Bool
is_done (done a) = true
is_done (failed_with e) = false

abbrev pub is_broken : Ending → Bool
is_broken (broken message) = true
is_broken _ = false

-- Directories, files and reports can be written, and a process may end in any way but by an error
-- other than that its program is not found.
pub record Working (env : Surroundings) : Type 0 where
  pub creates : (path : Text) → is_done (env.create_dir path) ≡ true
  pub writes : (path text : Text) → is_done (env.write path text) ≡ true
  pub serializes : (report : Report) → is_done (env.to_json report) ≡ true
  pub starts : (command : Command) (limit : ℕ) → is_broken (env.run command limit) ≡ false

module _ (env : Surroundings) where
  -- A binary is found exactly if one of the three candidates exists: those of the finding's
  -- provenance, and the configured one.
  abbrev pub is_found : {E : Type 0} → EscalationConfig → Finding E → Bool
  is_found c finding =
      is_some (existing env (finding.provenance >>= λ p. p.binary_path))
      || is_some (existing env (finding.provenance >>= λ p. p.original_binary_path))
      || is_some (existing env c.binary_path)
