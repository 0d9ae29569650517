-- ===== src/RateLimiter.antt =====
-- core/ratelimit.go: a sliding window of message times for each key. `mu` is held through a call.
-- Times are milliseconds. The ticker of `cleanupLoop` is a call of `clean` at the time of a tick;
-- `Stop` ends the ticks and changes nothing that `Allow` reads.
pub mod Spec
pub mod Recent
pub mod Refines
pub mod Window
use agent_in_chat_feishu.Shared.{
  ℕ, zero, suc, ◌+◌, ◌*◌, Bool, true, false, not, List, [], ◌∷◌, ◌++◌, String, Option, none, some,
  ltb, leb, if◌then◌else◌, length, filter, ℤ, pos, negsuc,
}
use agent_in_chat_feishu.Shared.Dict.{Dict, lookup, insert, retain}

pub record RateBucket : Type 0 where
  pub timestamps : List ℕ
  pub last_access : ℕ

pub record RateLimiter : Type 0 where
  pub buckets : Dict RateBucket
  pub max_messages : ℤ
  pub window_ms : ℕ

unfoldable pub new_rate_limiter : ℤ → ℕ → RateLimiter
new_rate_limiter max_messages window_ms = record {
  buckets = [];
  max_messages = max_messages;
  window_ms = window_ms;
}

-- `ts > now - windowMs`, where the difference may be negative.
abbrev pub is_recent : ℕ → ℕ → ℕ → Bool
is_recent window_ms now ts = ltb now (ts + window_ms)

abbrev pub recent : ℕ → ℕ → List ℕ → List ℕ
recent window_ms now = filter (is_recent window_ms now)

abbrev pub timestamps_of : Option RateBucket → List ℕ
timestamps_of none = []
timestamps_of (some b) = b.timestamps

-- The part of `Allow` below its first test, for a positive limit.
unfoldable pub allow_within : ℕ → String → ℕ → RateLimiter → RateLimiter × Bool
allow_within limit key now rl =
    let filtered = recent rl.window_ms now (timestamps_of (lookup key rl.buckets)) in
    let full = leb limit (length filtered) in
    (
      record rl {
        buckets =
            insert key
              (record {
                timestamps = if full then filtered else filtered ++ now ∷ [];
                last_access = now;
              })
              rl.buckets;
      },
      not full,
    )

unfoldable pub allow : String → ℕ → RateLimiter → RateLimiter × Bool
unfolding allow_within
allow key now rl = elim rl.max_messages [
  | negsuc n ↦ (rl, true)
  | pos n ↦ if leb n 0 then (rl, true) else allow_within n key now rl
]

-- The loop of a tick keeps the buckets with `now - lastAccess <= windowMs * 2`.
unfoldable pub clean : ℕ → RateLimiter → RateLimiter
clean now rl = record rl {
  buckets = retain (λ k b. leb now (b.last_access + rl.window_ms * 2)) rl.buckets;
}
