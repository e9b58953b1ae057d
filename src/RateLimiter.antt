-- ===== src/RateLimiter.antt =====
-- internal/agent/transport/ratelimiter.go: the byte and batch limits of the agent. Each operation is
-- one step: the source allows a race between senders, and the agent has one. The ticker is a
-- sequence of `reset`s.
use intelligent_odoo_dev_too.Prelude.{Bool, true, false, ◌&&◌, List, [], ◌∷◌, if◌then◌else◌}
use intelligent_odoo_dev_too.Prelude.Int.{ℤ, pos, half32, wrap, add64, add32, ltb_ℤ, leb_ℤ}
pub mod Window

-- `RateLimiterConfig`.
pub record RateLimiterConfig : Type 0 where
  pub max_bytes_per_minute : ℤ
  pub max_batches_per_minute : ℤ

-- `RateLimiter` without its mutex and its cancel function.
pub record RateLimiter : Type 0 where
  pub max_bytes : ℤ
  pub max_batches : ℤ
  pub current_bytes : ℤ
  pub current_batches : ℤ
  pub stopped : Bool

-- `NewRateLimiter`.
unfoldable pub new_rate_limiter : RateLimiterConfig → RateLimiter
new_rate_limiter cfg = record {
  max_bytes = cfg.max_bytes_per_minute;
  max_batches = wrap half32 cfg.max_batches_per_minute;
  current_bytes = pos 0;
  current_batches = pos 0;
  stopped = false;
}

-- `Allow`.
unfoldable pub allow : RateLimiter → ℤ → Bool × RateLimiter
allow rl compressed =
    if ltb_ℤ (pos 0) rl.max_bytes && ltb_ℤ rl.max_bytes (add64 rl.current_bytes compressed)
    then (false, rl)
    else if ltb_ℤ (pos 0) rl.max_batches && leb_ℤ rl.max_batches rl.current_batches
    then (false, rl)
    else (
      true,
      record rl {
        current_bytes = add64 rl.current_bytes compressed;
        current_batches = add32 rl.current_batches (pos 1);
      },
    )

-- `Stats`.
pub record RateLimiterStats : Type 0 where
  pub bytes_used : ℤ
  pub batches_used : ℤ
  pub bytes_limit : ℤ
  pub batch_limit : ℤ

abbrev pub stats : RateLimiter → RateLimiterStats
stats rl = record {
  bytes_used = rl.current_bytes;
  batches_used = rl.current_batches;
  bytes_limit = rl.max_bytes;
  batch_limit = rl.max_batches;
}

-- `Stop`.
abbrev pub stop : RateLimiter → RateLimiter
stop rl = record rl { stopped = true }

-- `UpdateLimits`.
unfoldable pub update_limits : ℤ → ℤ → RateLimiter → RateLimiter
update_limits max_bytes_per_minute max_batches_per_minute rl = record rl {
  max_bytes = max_bytes_per_minute;
  max_batches = wrap half32 max_batches_per_minute;
}

-- `Reset`.
unfoldable pub reset : RateLimiter → RateLimiter
reset rl = record rl { current_bytes = pos 0; current_batches = pos 0 }
