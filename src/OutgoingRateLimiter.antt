-- ===== src/OutgoingRateLimiter.antt =====
-- The token buckets of outgoing messages (core/outgoing_ratelimit.go). Times are in nanoseconds. A
-- rate is a number of thousandths of a token in a second, and tokens are counted in `unit`-ths, so
-- that a refill is exact; the rounding of float64 is left out.
pub mod Attempts
pub mod Bucket
pub mod Budget
pub mod Waited
use agent_in_chat_feishu.Shared.{
  ℕ, ◌+◌, ◌-◌, ◌*◌, ◌/◌, ◌^◌, Bool, true, false, String, ◌==◌, Option, none, some, List, [], ◌∷◌,
  eqb, ltb, leb, if◌then◌else◌,
}
use agent_in_chat_feishu.Shared.Dict.{Dict, lookup, insert}

-- How many parts a token has: thousandths of nanoseconds' worth.
abbrev pub unit : ℕ
unit = 1000000000000

pub record OutgoingRateLimitCfg : Type 0 where
  pub max_per_second : ℕ
  pub burst : ℕ

abbrev pub disabled : OutgoingRateLimitCfg → Bool
disabled c = leb c.max_per_second 0

-- `math.Ceil` of a number of thousandths
unfoldable pub effective_burst : OutgoingRateLimitCfg → ℕ
effective_burst c = if ltb 0 c.burst then c.burst else (c.max_per_second + 999) / 1000

pub record TokenBucket : Type 0 where
  pub tokens : ℕ
  pub max_tokens : ℕ
  pub refill_rate : ℕ
  pub last_refill : ℕ

pub record OutgoingRateLimiter : Type 0 where
  pub buckets : Dict TokenBucket
  pub defaults : OutgoingRateLimitCfg
  pub overrides : Dict OutgoingRateLimitCfg

unfoldable pub new_outgoing_rate_limiter :
    OutgoingRateLimitCfg → Dict OutgoingRateLimitCfg → OutgoingRateLimiter
new_outgoing_rate_limiter defaults overrides = record {
  buckets = [];
  defaults = defaults;
  overrides = overrides;
}

-- The override of a platform, or the default.
abbrev pub or_else : OutgoingRateLimitCfg → Option OutgoingRateLimitCfg → OutgoingRateLimitCfg
or_else d none = d
or_else d (some c) = c

unfoldable pub cfg_for : String → OutgoingRateLimiter → OutgoingRateLimitCfg
cfg_for platform orl = or_else orl.defaults (lookup platform orl.overrides)

unfoldable pub full_bucket : OutgoingRateLimitCfg → ℕ → TokenBucket
full_bucket cfg now = record {
  tokens = effective_burst cfg * unit;
  max_tokens = effective_burst cfg * unit;
  refill_rate = cfg.max_per_second;
  last_refill = now;
}

-- The bucket that is there, or a new one; the caller puts it into the map.
unfoldable pub bucket_or_new : OutgoingRateLimitCfg → ℕ → Option TokenBucket → TokenBucket
bucket_or_new cfg now none = full_bucket cfg now
bucket_or_new cfg now (some b) = b

unfoldable pub refill : ℕ → TokenBucket → TokenBucket
refill now b =
    let tokens = b.tokens + (now - b.last_refill) * b.refill_rate in
    if leb now b.last_refill then b else record b {
      tokens = if ltb b.max_tokens tokens then b.max_tokens else tokens;
      last_refill = now;
    }

-- One round of the loop of `Wait`: whether the message may be sent.
unfoldable pub take_token : TokenBucket → TokenBucket × Bool
take_token b =
    if leb unit b.tokens then (record b { tokens = b.tokens - unit }, true) else (b, false)

-- How long `Wait` sleeps before the next round.
unfoldable pub wait_time : TokenBucket → ℕ
wait_time b = (unit - b.tokens) / b.refill_rate

unfoldable pub attempt : String → ℕ → OutgoingRateLimiter → OutgoingRateLimiter × Bool
attempt platform now orl =
    let cfg = cfg_for platform orl in
    let taken = take_token (refill now (bucket_or_new cfg now (lookup platform orl.buckets))) in
    if disabled cfg
    then (orl, true)
    else (record orl { buckets = insert platform taken.0 orl.buckets }, taken.1)

-- Rounds of any callers, in the order in which they hold the lock.
unfoldable pub run : List (String × ℕ) → OutgoingRateLimiter → OutgoingRateLimiter
run [] orl = orl
run ((platform, now) ∷ rest) orl = run rest (attempt platform now orl).0

-- How many of them let a message to the platform pass.
unfoldable pub passed : String → List (String × ℕ) → OutgoingRateLimiter → ℕ
passed p [] orl = 0
passed p ((platform, now) ∷ rest) orl =
    let later = passed p rest (attempt platform now orl).0 in
    if platform == p then if (attempt platform now orl).1 then later + 1 else later else later
