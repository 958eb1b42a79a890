-- ===== src/Rules/Config.antt =====
-- recompile/re-rules/src/config.rs: the configuration of the rules, its defaults, and the variables of
-- the environment that override it. `F` is f64.
use recompile.Base.{
  ℕ, ◌*◌, Bool, true, Option, List, [], ◌∷◌, Text, codes, text_eq, unwrap_or, if◌then◌else◌,
  opt_map, ◌>>=◌,
}
use recompile.Base.Order.{text_ord}
use recompile.Base.Dict.{Dict, get, alter}
use recompile.Rules.Outside.{Outside}

pub record RulesConfig (F : Type 0) : Type 0 where
  pub debounce_ms : ℕ
  pub cooldowns : Dict Text ℕ
  pub confidence_hi : F
  pub confidence_lo : F

pub record EscalationConfig : Type 0 where
  pub timeouts : Dict Text ℕ
  pub default_timeout : ℕ
  pub max_total_budget : ℕ

pub record ClusteringConfig (F : Type 0) : Type 0 where
  pub window_s : F
  pub top_k : ℕ
  pub enabled : Bool
  pub max_clusters : ℕ
  pub confidence_merge_threshold : F
  pub similarity_threshold : F

pub record SymbolizeConfig : Type 0 where
  pub enabled : Bool
  pub max_frames : ℕ
  pub redact_paths : List Text

pub data Mode : Type 0 where
  vm native : Mode

pub record Config (F : Type 0) : Type 0 where
  pub rules : RulesConfig F
  pub escalation : EscalationConfig
  pub clustering : ClusteringConfig F
  pub symbolize : SymbolizeConfig
  pub mode : Mode

-- `map.insert(k, v)`
abbrev pub put {ℓ} : {V : Type ℓ} → Text → V → Dict Text V → Dict Text V
put k v m = alter k (λ _. v) m

abbrev pub default_cooldowns : Dict Text ℕ
default_cooldowns = put (codes "R-uaf-hint") 5000 (
    put (codes "R-invalid-free") 5000
      (put (codes "R-double-free") 0 (put (codes "R-memcpy-oob") 10000 [])))

unfoldable pub default_config : (out : Outside) → Config out.F
default_config out = record {
  rules = record {
    debounce_ms = 1500;
    cooldowns = default_cooldowns;
    confidence_hi = out.literal 8 1;
    confidence_lo = out.literal 5 1;
  };
  escalation = record {
    timeouts = put (codes "gdb") 60 (put (codes "valgrind") 300 (put (codes "asan") 120 []));
    default_timeout = 120;
    max_total_budget = 600;
  };
  clustering = record {
    window_s = out.literal 15 1;
    top_k = 3;
    enabled = true;
    max_clusters = 1000;
    confidence_merge_threshold = out.literal 8 1;
    similarity_threshold = out.literal 9 1;
  };
  symbolize = record {
    enabled = true;
    max_frames = 5;
    redact_paths = codes "/workspace" ∷ codes "/tmp" ∷ [];
  };
  mode = Mode.native;
}

-- The variables of the environment, and how the standard library reads their values.
pub record Environment (F : Type 0) : Type 0 where
  pub var : Text → Option Text
  pub parse_u32 : Text → Option ℕ
  pub parse_usize : Text → Option ℕ
  pub parse_f64 : Text → Option F
  pub to_lowercase : Text → Text

module _ {F : Type 0} (env : Environment F) where
  -- The value of a variable, if it is set and can be read, else the old one.
  abbrev pub overridden {ℓ} : {A : Type ℓ} → (Text → Option A) → Text → A → A
  overridden parse name old = unwrap_or (env.var name >>= parse) old

  mode_of : Text → Mode
  mode_of val = if text_eq (env.to_lowercase val) (codes "vm") then Mode.vm else Mode.native

  unfoldable pub apply_env_overrides : Config F → Config F
  unfolding mode_of
  apply_env_overrides config = record config {
    rules = record config.rules {
      debounce_ms = overridden env.parse_u32 (codes "RE_DEBOUNCE_MS") config.rules.debounce_ms;
      confidence_hi =
          overridden env.parse_f64 (codes "RE_CONFIDENCE_HI") config.rules.confidence_hi;
      confidence_lo =
          overridden env.parse_f64 (codes "RE_CONFIDENCE_LO") config.rules.confidence_lo;
    };
    clustering = record config.clustering {
      window_s =
          overridden env.parse_f64 (codes "RE_CLUSTERING_WINDOW_S") config.clustering.window_s;
      top_k = overridden env.parse_usize (codes "RE_CLUSTERING_TOP_K") config.clustering.top_k;
    };
    mode = unwrap_or (opt_map mode_of (env.var (codes "RE_MODE"))) config.mode;
    symbolize = record config.symbolize {
      enabled =
          unwrap_or
            (opt_map (λ val. text_eq (env.to_lowercase val) (codes "true"))
              (env.var (codes "RE_SYMBOLIZE_ENABLED")))
            config.symbolize.enabled;
    };
  }

-- A duration in nanoseconds.
unfoldable pub get_cooldown : {F : Type 0} → Config F → Text → ℕ
get_cooldown config rule_id = unwrap_or (get rule_id config.rules.cooldowns) 5000 * 1000000

unfoldable pub get_escalation_timeout : {F : Type 0} → Config F → Text → ℕ
get_escalation_timeout config tool =
    unwrap_or (get tool config.escalation.timeouts) config.escalation.default_timeout * 1000000000
