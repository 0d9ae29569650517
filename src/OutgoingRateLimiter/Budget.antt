-- ===== src/OutgoingRateLimiter/Budget.antt =====
-- How many messages pass in a window of time (core/outgoing_ratelimit.go).
use agent_in_chat_feishu.Shared.{
  ℕ, ◌+◌, ◌-◌, ◌*◌, ◌≤◌, ◌≡◌, refl, sym, subst, inl, inr, Bool, true, false, String, ◌==◌, eq_iff,
  eq_refl, some, List, [], ◌∷◌, arith, if◌then◌else◌, Bool-cases,
}
use agent_in_chat_feishu.Shared.Dict.{Dict, lookup, lookup_nil}
use agent_in_chat_feishu.OutgoingRateLimiter.{
  unit, OutgoingRateLimitCfg, disabled, effective_burst, TokenBucket, OutgoingRateLimiter,
  new_outgoing_rate_limiter, cfg_for, bucket_or_new, refill, take_token, attempt, run, passed,
}
use agent_in_chat_feishu.OutgoingRateLimiter.Bucket.{
  budget, price, refill-budget, take_token-budget, refill-IsFor, refill-late, refilled-budget,
}
use agent_in_chat_feishu.OutgoingRateLimiter.Attempts.{
  cfg_for-attempt, attempt_other, after_attempt, attempt_at, Within, OwnBucket, bucket_or_new-IsFor,
  attempt-OwnBucket, run-OwnBucket,
}
use agent_in_chat_feishu.OutgoingRateLimiter.Waited.{one_passes, run-FilledBy, attempt_waited}

module _ (p : String) where
  -- A pass costs a token.
  passed-cons :
      (now : ℕ) (rest : List (String × ℕ)) (orl : OutgoingRateLimiter)
      → passed p ((p, now) ∷ rest) orl * unit
        ≡ passed p rest (attempt p now orl).0 * unit + price (attempt p now orl).1
  unfolding passed
  passed-cons now rest orl = rw (eq_refl p) (paid (attempt p now orl).1)
    where
      paid :
          (b : Bool)
          → (if b
                then passed p rest (attempt p now orl).0 + 1
                else passed p rest (attempt p now orl).0)
              * unit
            ≡ passed p rest (attempt p now orl).0 * unit + price b
      paid true = omega arith
      paid false = omega arith

  -- An attempt of the platform, where the rest keeps to the budget of the bucket after it.
  own-budget :
      (end now : ℕ) (rest : List (String × ℕ)) (orl : OutgoingRateLimiter) (b : TokenBucket)
      → disabled (cfg_for p orl) ≡ false
      → refill now (bucket_or_new (cfg_for p orl) now (lookup p orl.buckets)) ≡ b
      → ((c : TokenBucket)
          → lookup p (attempt p now orl).0.buckets ≡ some c
          → passed p rest (attempt p now orl).0 * unit ≤ budget end c)
      → passed p ((p, now) ∷ rest) orl * unit ≤ budget end b
  own-budget end now rest orl b d r keep =
      let (bucket, pass) = attempt_at p now orl d in
      let after : after_attempt p now orl ≡ take_token b = rw r refl in
      let later = keep (take_token b).0 (rw (bucket, after) refl) in
      let answer : (attempt p now orl).1 ≡ (take_token b).1 = rw (pass, after) refl in
      rw (passed-cons now rest orl, answer) (omega (arith, later, take_token-budget end b))

  -- From a bucket that is there, no more passes than its budget.
  passed-budget :
      (start end : ℕ) (ats : List (String × ℕ)) (orl : OutgoingRateLimiter) (b : TokenBucket)
      → disabled (cfg_for p orl) ≡ false
      → lookup p orl.buckets ≡ some b
      → Within p start end ats
      → passed p ats orl * unit ≤ budget end b
  unfolding passed bucket_or_new
  passed-budget start end [] orl b d h w = omega arith
  passed-budget start end ((q, now) ∷ rest) orl b d h w = elim (Bool-cases (q == p)) [
    | inr e ↦ rw e (
        passed-budget start end rest (attempt q now orl).0 b (rw (cfg_for-attempt p q now orl) d)
          (rw (attempt_other p q now orl e) h) w.1)
    | inl e ↦
        let own = own-budget end now rest orl (refill now b) d (rw h refl) (λ c k.
          passed-budget start end rest (attempt p now orl).0 c (rw (cfg_for-attempt p p now orl) d)
            k w.1) in
        let here : passed p ((p, now) ∷ rest) orl * unit ≤ budget end b =
          omega (arith, own, refill-budget now end b w.0.1) in
        subst (λ r. passed p ((r, now) ∷ rest) orl * unit ≤ budget end b) (sym ((eq_iff q p).0 e))
          here
  ]

  -- A full burst, and the refills of a window.
  abbrev pub allowance : ℕ → OutgoingRateLimitCfg → ℕ
  allowance width cfg = effective_burst cfg * unit + width * cfg.max_per_second

  passed-allowance :
      (start end : ℕ) (ats : List (String × ℕ)) (orl : OutgoingRateLimiter)
      → disabled (cfg_for p orl) ≡ false
      → OwnBucket p orl
      → Within p start end ats
      → passed p ats orl * unit ≤ allowance (end - start) (cfg_for p orl)
  unfolding passed
  passed-allowance start end [] orl d own w = omega arith
  passed-allowance start end ((q, now) ∷ rest) orl d own w = elim (Bool-cases (q == p)) [
    | inr e ↦ rw e (
        subst (λ cfg. passed p rest (attempt q now orl).0 * unit ≤ allowance (end - start) cfg)
          (cfg_for-attempt p q now orl)
          (passed-allowance start end rest (attempt q now orl).0
            (rw (cfg_for-attempt p q now orl) d) (attempt-OwnBucket p q now orl d own) w.1))
    | inl e ↦
        let b = refill now (bucket_or_new (cfg_for p orl) now (lookup p orl.buckets)) in
        let mine = own-budget end now rest orl b d refl (λ c k.
          passed-budget start end rest (attempt p now orl).0 c (rw (cfg_for-attempt p p now orl) d)
            k w.1) in
        let late = refill-late now (bucket_or_new (cfg_for p orl) now (lookup p orl.buckets)) in
        let most =
          refilled-budget (cfg_for p orl) start end b
            (refill-IsFor (cfg_for p orl) now _ (bucket_or_new-IsFor p now orl own))
            (omega (arith, late, w.0.0)) in
        let here : passed p ((p, now) ∷ rest) orl * unit ≤ allowance (end - start) (cfg_for p orl) =
          omega (arith, mine, most) in
        subst (λ r. passed p ((r, now) ∷ rest) orl * unit ≤ allowance (end - start) (cfg_for p orl))
          (sym ((eq_iff q p).0 e)) here
  ]

none_there :
    (p : String) (defaults : OutgoingRateLimitCfg) (overrides : Dict OutgoingRateLimitCfg)
    (b : TokenBucket)
    → lookup p (new_outgoing_rate_limiter defaults overrides).buckets ≡ some b
    → ⊥
unfolding new_outgoing_rate_limiter
none_there p defaults overrides b h = let empty = lookup_nil {V = TokenBucket} p in ground arith

-- Whatever was sent before, and whatever the order of the senders: in a window from `start` to
-- `end`, at most as many messages to a platform with a limit pass as its burst and the refills of
-- the window pay for. And of two attempts of the platform, one at `now`, by which all that was sent
-- before was sent, and the next after the time `gap` of a token, one passes. Tokens are exact
-- numbers here, without the rounding of float64.
pub passed-run :
    (p : String) (defaults : OutgoingRateLimitCfg) (overrides : Dict OutgoingRateLimitCfg)
    (before ats : List (String × ℕ)) (start end now gap : ℕ)
    → disabled (cfg_for p (new_outgoing_rate_limiter defaults overrides)) ≡ false
    → Within p start end ats
    → Within p 0 now before
    → unit ≤ gap * (cfg_for p (new_outgoing_rate_limiter defaults overrides)).max_per_second
    → (passed p ats (run before (new_outgoing_rate_limiter defaults overrides)) * unit
        ≤ allowance p (end - start) (cfg_for p (new_outgoing_rate_limiter defaults overrides)))
      × (one_passes p now gap (run before (new_outgoing_rate_limiter defaults overrides)) ≡ true)
passed-run p defaults overrides before ats start end now gap d w b g =
    let orl = new_outgoing_rate_limiter defaults overrides in
    let (kept, same) =
      run-OwnBucket p before orl d (λ c h. absurd (none_there p defaults overrides c h)) in
    let filled =
      run-FilledBy p now before orl d (λ c h. absurd (none_there p defaults overrides c h)) b in
    (
      subst (λ cfg. passed p ats (run before orl) * unit ≤ allowance p (end - start) cfg) same
          (passed-allowance p start end ats (run before orl) (rw same d) kept w),
      attempt_waited p now gap (run before orl) (rw same d) kept filled (rw same g),
    )
