-- ===== src/RateLimit.antt =====
-- peat-sapient/src/rate_limit.rs: a token bucket for each node. The two readings of the clock in
-- one call of `check`, in `TokenBucket::new` and in `try_consume`, are its arguments `made` and
-- `now`, in nanoseconds. The mutex is held for the whole call, so the state is the map.
pub mod Isolation
pub mod Burst
use peat_sapient.Base.{
  ℕ, ◌-◌, String, Bool, true, false, not, ◌&&◌, List, [], ◌∷◌, ltb, if◌then◌else◌, unwrap_or,
}
use peat_sapient.Base.Dict
use peat_sapient.Base.Dict.{Dict}
use peat_sapient.Float.{Float}

pub record RateLimitConfig (fl : Float) : Type 0 where
  pub max_per_second : fl.F64
  pub burst_size : ℕ

pub record TokenBucket (fl : Float) : Type 0 where
  pub tokens : fl.F64
  pub capacity : fl.F64
  pub refill_rate : fl.F64
  pub last_check : ℕ

pub record DetectionLimiter (fl : Float) : Type 0 where
  pub buckets : Dict (TokenBucket fl)
  pub config : RateLimitConfig fl
  pub enabled : Bool

module _ (fl : Float) where
  open fl use {decimal, add, sub, mul, min, le, lt, as_secs_f64}

  unfoldable pub new_bucket : ℕ → RateLimitConfig fl → TokenBucket fl
  new_bucket made config = record {
    tokens = decimal config.burst_size 0;
    capacity = decimal config.burst_size 0;
    refill_rate = config.max_per_second;
    last_check = made;
  }

  unfoldable pub refilled : ℕ → TokenBucket fl → fl.F64
  refilled now b =
      let elapsed = as_secs_f64 (now - b.last_check) in
      min (add b.tokens (mul elapsed b.refill_rate)) b.capacity

  unfoldable pub try_consume : ℕ → TokenBucket fl → TokenBucket fl × Bool
  try_consume now b =
      let tokens = refilled now b in
      if le (decimal 1 0) tokens
      then (record b { tokens = sub tokens (decimal 1 0); last_check = now }, true)
      else (record b { tokens = tokens; last_check = now }, false)

  unfoldable pub new : RateLimitConfig fl → DetectionLimiter fl
  new config = record {
    buckets = [];
    config = config;
    enabled = lt (decimal 0 0) config.max_per_second && ltb 0 config.burst_size;
  }

  unfoldable pub check : ℕ → ℕ → String → DetectionLimiter fl → DetectionLimiter fl × Bool
  check made now node_id l =
      let bucket = unwrap_or (new_bucket made l.config) (Dict.get node_id l.buckets) in
      let (bucket', forward) = try_consume now bucket in
      if not l.enabled
      then (l, true)
      else (record l { buckets = Dict.insert node_id bucket' l.buckets }, forward)
