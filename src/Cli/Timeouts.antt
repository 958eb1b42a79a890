-- ===== src/Cli/Timeouts.antt =====
-- recompile/rerun/src/cli.rs: `EscalationTimeoutOverrides`, the time budgets of the command line.
use recompile.Base.{
  ℕ, ◌≡◌, Option, none, some, List, [], ◌∷◌, ◌++◌, Text, codes, or_else, unwrap_or, arith,
}
use recompile.Base.Decimal.{decimal}
use recompile.Escalate.Config.{EscalationConfig}

pub record EscalationTimeoutOverrides : Type 0 where
  pub default_ms : Option ℕ
  pub asan_ms : Option ℕ
  pub lsan_ms : Option ℕ
  pub ubsan_ms : Option ℕ
  pub valgrind_ms : Option ℕ
  pub gdb_ms : Option ℕ

apply_default : Option ℕ → EscalationConfig → EscalationConfig
apply_default none c = c
apply_default (some ms) c = record c {
  timeouts = record c.timeouts { default_ms = ms; run_ms = ms };
  tools = record c.tools {
    asan = record c.tools.asan { timeout_ms = ms };
    lsan = record c.tools.lsan { timeout_ms = ms };
    ubsan = record c.tools.ubsan { timeout_ms = ms };
    valgrind = record c.tools.valgrind { timeout_ms = ms };
    gdb = record c.tools.gdb { timeout_ms = ms };
  };
}

apply_asan : Option ℕ → EscalationConfig → EscalationConfig
apply_asan none c = c
apply_asan (some ms) c = record c {
  tools = record c.tools { asan = record c.tools.asan { timeout_ms = ms } };
}

apply_lsan : Option ℕ → EscalationConfig → EscalationConfig
apply_lsan none c = c
apply_lsan (some ms) c = record c {
  tools = record c.tools { lsan = record c.tools.lsan { timeout_ms = ms } };
}

apply_ubsan : Option ℕ → EscalationConfig → EscalationConfig
apply_ubsan none c = c
apply_ubsan (some ms) c = record c {
  tools = record c.tools { ubsan = record c.tools.ubsan { timeout_ms = ms } };
}

apply_valgrind : Option ℕ → EscalationConfig → EscalationConfig
apply_valgrind none c = c
apply_valgrind (some ms) c = record c {
  tools = record c.tools { valgrind = record c.tools.valgrind { timeout_ms = ms } };
}

apply_gdb : Option ℕ → EscalationConfig → EscalationConfig
apply_gdb none c = c
apply_gdb (some ms) c = record c {
  tools = record c.tools { gdb = record c.tools.gdb { timeout_ms = ms } };
}

unfoldable pub apply : EscalationTimeoutOverrides → EscalationConfig → EscalationConfig
unfolding apply_default apply_asan apply_lsan apply_ubsan apply_valgrind apply_gdb
apply o c = apply_gdb o.gdb_ms (
    apply_valgrind o.valgrind_ms (
      apply_ubsan o.ubsan_ms
        (apply_lsan o.lsan_ms (apply_asan o.asan_ms (apply_default o.default_ms c)))))

budget : Text → Option ℕ → List Text
budget name none = []
budget name (some ms) = (name ++ codes "=" ++ decimal ms ++ codes "ms") ∷ []

unfoldable pub describe : EscalationTimeoutOverrides → List Text
unfolding budget
describe o =
    budget (codes "all") o.default_ms
    ++ budget (codes "asan") o.asan_ms
    ++ budget (codes "lsan") o.lsan_ms
    ++ budget (codes "ubsan") o.ubsan_ms
    ++ budget (codes "valgrind") o.valgrind_ms
    ++ budget (codes "gdb") o.gdb_ms

-- A tool's own budget, else the general one, else what was configured.
abbrev pub budget_of : Option ℕ → Option ℕ → ℕ → ℕ
budget_of own general old = unwrap_or (or_else own general) old

-- Each tool gets its own budget if one is given, else the general one, else it keeps the
-- configured one; the general budget also sets the default and the run timeout, and nothing
-- sets the compile timeout.
pub apply_budgets :
    (o : EscalationTimeoutOverrides) (c : EscalationConfig)
    → let d = apply o c in
      (d.tools.asan.timeout_ms ≡ budget_of o.asan_ms o.default_ms c.tools.asan.timeout_ms)
      × (d.tools.lsan.timeout_ms ≡ budget_of o.lsan_ms o.default_ms c.tools.lsan.timeout_ms)
      × (d.tools.ubsan.timeout_ms ≡ budget_of o.ubsan_ms o.default_ms c.tools.ubsan.timeout_ms)
      × (d.tools.valgrind.timeout_ms
          ≡ budget_of o.valgrind_ms o.default_ms c.tools.valgrind.timeout_ms)
      × (d.tools.gdb.timeout_ms ≡ budget_of o.gdb_ms o.default_ms c.tools.gdb.timeout_ms)
      × (d.timeouts.default_ms ≡ unwrap_or o.default_ms c.timeouts.default_ms)
      × (d.timeouts.run_ms ≡ unwrap_or o.default_ms c.timeouts.run_ms)
      × (d.timeouts.compile_ms ≡ c.timeouts.compile_ms)
unfolding apply
apply_budgets o c = ground arith
