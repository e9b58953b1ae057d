-- ===== src/Agent/Sampler.antt =====
-- internal/agent/sampler/sampler.go: which raw events are kept. The draw of `rand.Float64` is
-- compared with the rate outside this model: `below` says whether a draw is below a rate.
use intelligent_odoo_dev_too.Prelude.{
  ℕ, Bool, true, false, ◌&&◌, ◌||◌, List, [], ◌∷◌, map, any, if◌then◌else◌,
}
use intelligent_odoo_dev_too.Prelude.Int.{ℤ, pos, ltb_ℤ}
use intelligent_odoo_dev_too.Prelude.Text.{Bytes, codes, eqb}

-- `strings.ToLower` and `strings.TrimSpace`, and the rates with their comparison.
pub record Host (Rate : Type 0) : Type 0 where
  pub to_lower : Bytes → Bytes
  pub trim_space : Bytes → Bytes
  pub below : ℕ → Rate → Bool
  pub whole : Rate
  pub quarter : Rate
  pub twentieth : Rate

-- `Mode`, with the values that are none of the constants.
pub data Mode : Type 0 where
  full : Mode
  sampled : Mode
  aggregated_only : Mode
  unknown_mode : Bytes → Mode

module _ (Rate : Type 0) where
  -- `Config`.
  pub record Config : Type 0 where
    pub mode : Mode
    pub sample_rate : Rate
    pub always_capture : List Bytes
    pub slow_threshold_ms : ℤ

  -- `Sampler` without its lock; the set is the list of its members.
  pub record Sampler : Type 0 where
    pub config : Config
    pub always_set : List Bytes

-- `EventInfo`.
pub record EventInfo : Type 0 where
  pub category : Bytes
  pub duration_ms : ℤ
  pub is_error : Bool
  pub is_n1 : Bool

module _ {Rate : Type 0} (h : Host Rate) where
  -- `applyConfig`, `New` and `UpdateConfig`.
  abbrev pub apply_config : Config Rate → Sampler Rate
  apply_config cfg = record {
    config = cfg;
    always_set = map (λ cat. h.to_lower (h.trim_space cat)) cfg.always_capture;
  }

  abbrev pub new_sampler : Config Rate → Sampler Rate
  new_sampler cfg = apply_config cfg

  abbrev pub update_config : Config Rate → Sampler Rate → Sampler Rate
  update_config cfg s = apply_config cfg

  abbrev pub current_config : Sampler Rate → Config Rate
  current_config s = s.config

  -- `isCritical`.
  abbrev pub is_critical : EventInfo → ℤ → List Bytes → Bool
  is_critical info slow_threshold always =
      info.is_error
      || (info.is_n1
          || ((ltb_ℤ (pos 0) slow_threshold && ltb_ℤ slow_threshold info.duration_ms)
              || any (eqb (h.to_lower info.category)) always))

  abbrev pub allow_mode : Mode → ℕ → Rate → Bool
  allow_mode full draw rate = true
  allow_mode sampled draw rate = h.below draw rate
  allow_mode aggregated_only draw rate = false
  allow_mode (unknown_mode m) draw rate = true

  -- `Allow`, with the number that is drawn.
  unfoldable pub allow : Sampler Rate → ℕ → EventInfo → Bool
  allow s draw info =
      is_critical info s.config.slow_threshold_ms s.always_set
      || allow_mode s.config.mode draw s.config.sample_rate

  abbrev captured : List Bytes
  captured = codes "error" ∷ codes "slow_query" ∷ codes "n1" ∷ []

  -- `DefaultDevelopment`, `DefaultStaging`, `DefaultProduction` and `ForEnvironment`.
  abbrev pub default_development : Config Rate
  default_development = record {
    mode = full;
    sample_rate = h.whole;
    always_capture = [];
    slow_threshold_ms = pos 50;
  }

  abbrev pub default_staging : Config Rate
  default_staging = record {
    mode = sampled;
    sample_rate = h.quarter;
    always_capture = captured;
    slow_threshold_ms = pos 100;
  }

  abbrev pub default_production : Config Rate
  default_production = record {
    mode = aggregated_only;
    sample_rate = h.twentieth;
    always_capture = captured;
    slow_threshold_ms = pos 200;
  }

  unfoldable pub for_environment : Bytes → Config Rate
  for_environment env =
      let name = h.to_lower (h.trim_space env) in
      if eqb name (codes "staging")
      then default_staging
      else if eqb name (codes "production")
      then default_production
      else default_development
