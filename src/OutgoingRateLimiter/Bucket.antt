-- ===== src/OutgoingRateLimiter/Bucket.antt =====
-- What a bucket may still give (core/outgoing_ratelimit.go).
use agent_in_chat_feishu.Shared.{
  ℕ, ◌+◌, ◌-◌, ◌*◌, ◌≤◌, ◌≡◌, refl, subst, inl, inr, Bool, true, false, ◌||◌, arith, leb,
  Bool-cases, if_both,
}
use agent_in_chat_feishu.OutgoingRateLimiter.{
  unit, OutgoingRateLimitCfg, disabled, effective_burst, TokenBucket, refill, take_token,
}

product_of_sum : (a b c r : ℕ) → c ≡ a + b → c * r ≡ a * r + b * r
product_of_sum a b c r e = rw e (omega arith)

product_le : (a b r : ℕ) → a ≤ b → a * r ≤ b * r
product_le a b r h = omega (arith, product_of_sum a (b - a) b r (omega arith))

-- What a bucket may still give until `end`: its tokens and the refills.
abbrev pub budget : ℕ → TokenBucket → ℕ
budget end b = b.tokens + (end - b.last_refill) * b.refill_rate

pub refill-budget :
    (now end : ℕ) (b : TokenBucket) → now ≤ end → budget end (refill now b) ≤ budget end b
unfolding refill
refill-budget now end b h = elim (Bool-cases (leb now b.last_refill)) [
  | inl e ↦ rw e (omega arith)
  | inr e ↦ rw e (
      ground (
        arith,
        product_of_sum (now - b.last_refill) (end - now) (end - b.last_refill) b.refill_rate
            (ground arith),
      ))
]

-- A token less where the message passes.
abbrev pub price : Bool → ℕ
price true = unit
price false = 0

pub take_token-budget :
    (end : ℕ) (b : TokenBucket)
    → budget end (take_token b).0 + price (take_token b).1 ≡ budget end b
unfolding take_token
take_token-budget end b = ground arith

-- The bucket is one of the configuration, and not fuller than it may be.
pub record IsFor (cfg : OutgoingRateLimitCfg) (b : TokenBucket) : Type 0 where
  pub fits : b.tokens ≤ b.max_tokens
  pub sized : b.max_tokens ≡ effective_burst cfg * unit
  pub rated : b.refill_rate ≡ cfg.max_per_second

pub refill-IsFor :
    (cfg : OutgoingRateLimitCfg) (now : ℕ) (b : TokenBucket)
    → IsFor cfg b
    → IsFor cfg (refill now b)
unfolding refill
refill-IsFor cfg now b f =
    if_both (IsFor cfg) (leb now b.last_refill) f
      (record { fits = ground arith; sized = f.sized; rated = f.rated })

pub take_token-IsFor :
    (cfg : OutgoingRateLimitCfg) (b : TokenBucket) → IsFor cfg b → IsFor cfg (take_token b).0
unfolding take_token
take_token-IsFor cfg b f =
    if_both {S = TokenBucket × Bool} (λ r. IsFor cfg r.0) (leb unit b.tokens)
      (record { fits = omega (arith, f.fits); sized = f.sized; rated = f.rated }) f

pub refill-late : (now : ℕ) (b : TokenBucket) → now ≤ (refill now b).last_refill
unfolding refill
refill-late now b = ground arith

-- Within a window, a bucket that was refilled in it has at most a full burst and the refills.
pub refilled-budget :
    (cfg : OutgoingRateLimitCfg) (start end : ℕ) (b : TokenBucket)
    → IsFor cfg b
    → start ≤ b.last_refill
    → budget end b ≤ effective_burst cfg * unit + (end - start) * cfg.max_per_second
refilled-budget cfg start end b f h =
    let base : budget end b ≤ b.max_tokens + (end - start) * b.refill_rate =
      omega (
        arith,
        f.fits,
        product_le (end - b.last_refill) (end - start) b.refill_rate (omega arith),
      ) in
    subst (λ m. budget end b ≤ m + (end - start) * cfg.max_per_second) f.sized
      (subst (λ r. budget end b ≤ b.max_tokens + (end - start) * r) f.rated base)

pub after-last_refill :
    (now end : ℕ) (b : TokenBucket)
    → now ≤ end
    → b.last_refill ≤ end
    → (take_token (refill now b)).0.last_refill ≤ end
unfolding refill take_token
after-last_refill now end b n h = ground arith

pub refill-last_refill :
    (now : ℕ) (b : TokenBucket) → b.last_refill ≤ now → (refill now b).last_refill ≤ now
unfolding refill
refill-last_refill now b h = ground arith

pub effective_burst-positive :
    (cfg : OutgoingRateLimitCfg) → disabled cfg ≡ false → unit ≤ effective_burst cfg * unit
unfolding effective_burst
effective_burst-positive cfg d = ground arith

take_token-full : (b : TokenBucket) → unit ≤ b.tokens → (take_token b).1 ≡ true
unfolding take_token
take_token-full b h = ground arith

take_token-short : (b : TokenBucket) → leb unit b.tokens ≡ false → take_token b ≡ (b, false)
unfolding take_token
take_token-short b h = rw h refl

refill-full :
    (now : ℕ) (b : TokenBucket)
    → unit ≤ b.max_tokens
    → unit ≤ (now - b.last_refill) * b.refill_rate
    → unit ≤ (refill now b).tokens
unfolding refill
refill-full now b m g = elim (Bool-cases (leb now b.last_refill)) [
  | inl e ↦
      let nothing : now - b.last_refill ≡ 0 = ground arith in
      absurd (absurd_unit (subst (λ d. unit ≤ d * b.refill_rate) nothing g))
  | inr e ↦ rw e (ground arith)
]
  where
    absurd_unit : unit ≤ 0 * b.refill_rate → ⊥
    absurd_unit h = omega arith

-- A bucket without a token has one again after the time of a token.
pub take_token-waited :
    (now gap : ℕ) (b : TokenBucket)
    → unit ≤ b.max_tokens
    → b.last_refill ≤ now
    → unit ≤ gap * b.refill_rate
    → ((take_token b).1 || (take_token (refill (now + gap) (take_token b).0)).1) ≡ true
take_token-waited now gap b m l g = elim (Bool-cases (leb unit b.tokens)) [
  | inl e ↦ rw (take_token-full b (ground arith)) refl
  | inr e ↦
      let more = product_le gap (now + gap - b.last_refill) b.refill_rate (omega arith) in
      rw
        (
          take_token-short b e,
          take_token-full (refill (now + gap) b)
              (refill-full (now + gap) b m (omega (arith, more, g))),
        )
        refl
]
