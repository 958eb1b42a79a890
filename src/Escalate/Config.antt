-- ===== src/Escalate/Config.antt =====
-- recompile/re-escalate/src/lib.rs: the configuration of the escalation runner and its defaults.
use recompile.Base.{ℕ, Bool, true, Option, none, List, [], ◌∷◌, Text, codes, map}
use recompile.Base.Order.{text_ord}
use recompile.Base.Dict.{Dict, alter}

pub record AsanConfig : Type 0 where
  pub enabled : Bool
  pub timeout_ms : ℕ
  pub compile_flags : List Text
  pub runtime_flags : List Text

pub record UbsanConfig : Type 0 where
  pub enabled : Bool
  pub timeout_ms : ℕ
  pub runtime_flags : List Text

pub record LsanConfig : Type 0 where
  pub enabled : Bool
  pub timeout_ms : ℕ
  pub runtime_flags : List Text

pub record ValgrindConfig : Type 0 where
  pub enabled : Bool
  pub timeout_ms : ℕ
  pub flags : List Text

pub record GdbConfig : Type 0 where
  pub enabled : Bool
  pub timeout_ms : ℕ
  pub commands : List Text

pub record ToolConfig : Type 0 where
  pub asan : AsanConfig
  pub lsan : LsanConfig
  pub ubsan : UbsanConfig
  pub valgrind : ValgrindConfig
  pub gdb : GdbConfig

pub record TimeoutConfig : Type 0 where
  pub default_ms : ℕ
  pub compile_ms : ℕ
  pub run_ms : ℕ

pub record CooldownConfig : Type 0 where
  pub default_ms : ℕ
  pub per_tool : Dict Text ℕ

pub record EscalationConfig : Type 0 where
  pub tools : ToolConfig
  pub timeouts : TimeoutConfig
  pub cooldowns : CooldownConfig
  pub output_dir : Text
  pub binary_path : Option Text
  pub source_file : Option Text
  pub cwd : Option Text
  pub args : List Text

unfoldable pub default_lsan : LsanConfig
default_lsan = record {
  enabled = true;
  timeout_ms = 30000;
  runtime_flags = map codes ("exitcode=99" ∷ []);
}

unfoldable pub default_ubsan : UbsanConfig
default_ubsan = record {
  enabled = true;
  timeout_ms = 30000;
  runtime_flags = map codes ("print_stacktrace=1" ∷ "halt_on_error=1" ∷ []);
}

default_tools : ToolConfig
unfolding default_lsan default_ubsan
default_tools = record {
  asan = record {
    enabled = true;
    timeout_ms = 30000;
    compile_flags = map codes (
        "-fsanitize=address" ∷ "-fsanitize-recover=address" ∷ "-fno-omit-frame-pointer" ∷ "-g"
        ∷ "-O1" ∷ []);
    runtime_flags =
        map codes ("detect_leaks=1" ∷ "abort_on_error=1" ∷ "check_initialization_order=1" ∷ []);
  };
  lsan = default_lsan;
  ubsan = default_ubsan;
  valgrind = record {
    enabled = true;
    timeout_ms = 60000;
    flags = map codes (
        "--error-exitcode=99" ∷ "--leak-check=full" ∷ "--track-origins=yes" ∷ "--track-fds=yes"
        ∷ "--show-leak-kinds=all" ∷ []);
  };
  gdb = record {
    enabled = true;
    timeout_ms = 15000;
    commands = map codes (
        "set pagination off" ∷ "set confirm off" ∷ "run" ∷ "bt full" ∷ "info registers"
        ∷ "thread apply all bt" ∷ "quit" ∷ []);
  };
}

put : Text → ℕ → Dict Text ℕ → Dict Text ℕ
put tool ms m = alter tool (λ _. ms) m

unfoldable pub default_cooldowns : Dict Text ℕ
unfolding put
default_cooldowns = put (codes "gdb") 3000 (
    put (codes "valgrind") 10000
      (put (codes "ubsan") 5000 (put (codes "lsan") 5000 (put (codes "asan") 5000 []))))

unfoldable pub default_config : EscalationConfig
unfolding default_tools default_cooldowns
default_config = record {
  tools = default_tools;
  timeouts = record { default_ms = 30000; compile_ms = 60000; run_ms = 30000 };
  cooldowns = record { default_ms = 5000; per_tool = default_cooldowns };
  output_dir = codes "build/escalations";
  binary_path = none;
  source_file = none;
  cwd = none;
  args = [];
}
