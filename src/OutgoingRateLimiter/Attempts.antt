-- ===== src/OutgoingRateLimiter/Attempts.antt =====
-- What an attempt does to the bucket of a platform (core/outgoing_ratelimit.go).
use agent_in_chat_feishu.Shared.{
  ℕ, ◌≤◌, ◌≡◌, refl, sym, subst, ◌∙◌, inl, inr, Bool, false, String, ◌==◌, eq_iff, eq_refl, some,
  List, [], ◌∷◌, arith, Bool-cases, Option-cases, if_both,
}
use agent_in_chat_feishu.Shared.Dict.{lookup, lookup-insert}
use agent_in_chat_feishu.OutgoingRateLimiter.{
  disabled, TokenBucket, OutgoingRateLimiter, or_else, cfg_for, full_bucket, bucket_or_new, refill,
  take_token, attempt, run,
}
use agent_in_chat_feishu.OutgoingRateLimiter.Bucket.{IsFor, refill-IsFor, take_token-IsFor}

module _ (p : String) where
  pub cfg_for-attempt :
      (q : String) (now : ℕ) (orl : OutgoingRateLimiter)
      → cfg_for p (attempt q now orl).0 ≡ cfg_for p orl
  unfolding attempt cfg_for
  cfg_for-attempt q now orl =
      if_both {S = OutgoingRateLimiter × Bool}
        (λ r. or_else r.0.defaults (lookup p r.0.overrides) ≡ cfg_for p orl)
        (disabled (cfg_for q orl)) refl refl

  pub attempt_other :
      (q : String) (now : ℕ) (orl : OutgoingRateLimiter)
      → (q == p) ≡ false
      → lookup p (attempt q now orl).0.buckets ≡ lookup p orl.buckets
  unfolding attempt
  attempt_other q now orl e =
      if_both {S = OutgoingRateLimiter × Bool} (λ r. lookup p r.0.buckets ≡ lookup p orl.buckets)
        (disabled (cfg_for q orl)) refl (rw (lookup-insert q p _ orl.buckets, e) refl)

  -- The bucket after an attempt of the platform, and whether it passes.
  abbrev pub after_attempt : ℕ → OutgoingRateLimiter → TokenBucket × Bool
  after_attempt now orl =
      take_token (refill now (bucket_or_new (cfg_for p orl) now (lookup p orl.buckets)))

  pub attempt_at :
      (now : ℕ) (orl : OutgoingRateLimiter)
      → disabled (cfg_for p orl) ≡ false
      → (lookup p (attempt p now orl).0.buckets ≡ some (after_attempt now orl).0)
        × ((attempt p now orl).1 ≡ (after_attempt now orl).1)
  unfolding attempt
  attempt_at now orl d = rw (d, lookup-insert p p _ orl.buckets, eq_refl p) (refl, refl)

  -- Every time lies in the window.
  abbrev pub Within : ℕ → ℕ → List (String × ℕ) → Type 0
  Within start end [] = Unit {0}
  Within start end ((q, now) ∷ rest) = ((start ≤ now) × (now ≤ end)) × Within start end rest

  -- The platform's bucket, if there is one, is one of its configuration.
  abbrev pub OwnBucket : OutgoingRateLimiter → Type 0
  OwnBucket orl = (b : TokenBucket) → lookup p orl.buckets ≡ some b → IsFor (cfg_for p orl) b

  pub bucket_or_new-IsFor :
      (now : ℕ) (orl : OutgoingRateLimiter)
      → OwnBucket orl
      → IsFor (cfg_for p orl) (bucket_or_new (cfg_for p orl) now (lookup p orl.buckets))
  unfolding bucket_or_new full_bucket
  bucket_or_new-IsFor now orl own = elim (Option-cases (lookup p orl.buckets)) [
    | inl e ↦ rw (bucket_or_new, e) (record { fits = omega arith; sized = refl; rated = refl })
    | inr (b, e) ↦ rw (bucket_or_new, e) (own b e)
  ]

  -- What every bucket of the platform has, it has after an attempt of any platform too.
  pub attempt-keeps :
      (P : TokenBucket → Type 0) (q : String) (now : ℕ) (orl : OutgoingRateLimiter)
      → disabled (cfg_for p orl) ≡ false
      → ((b : TokenBucket) → lookup p orl.buckets ≡ some b → P b)
      → P (after_attempt now orl).0
      → (b : TokenBucket) → lookup p (attempt q now orl).0.buckets ≡ some b
      → P b
  attempt-keeps P q now orl d own made b h = elim (Bool-cases (q == p)) [
    | inr e ↦ own b (subst (λ o. o ≡ some b) (attempt_other q now orl e) h)
    | inl e ↦
        subst (λ r. lookup p (attempt r now orl).0.buckets ≡ some b → P b) (sym ((eq_iff q p).0 e))
          own_case h
  ]
    where
      own_case : lookup p (attempt p now orl).0.buckets ≡ some b → P b
      own_case k =
          let same : b ≡ (after_attempt now orl).0 = ground (arith, attempt_at now orl d) in
          rw same made

  pub attempt-OwnBucket :
      (q : String) (now : ℕ) (orl : OutgoingRateLimiter)
      → disabled (cfg_for p orl) ≡ false
      → OwnBucket orl
      → OwnBucket (attempt q now orl).0
  attempt-OwnBucket q now orl d own b h = rw (cfg_for-attempt q now orl) (
      attempt-keeps (IsFor (cfg_for p orl)) q now orl d own
        (take_token-IsFor (cfg_for p orl) _
          (refill-IsFor (cfg_for p orl) now _ (bucket_or_new-IsFor now orl own)))
        b h)

  pub run-OwnBucket :
      (ats : List (String × ℕ)) (orl : OutgoingRateLimiter)
      → disabled (cfg_for p orl) ≡ false
      → OwnBucket orl
      → OwnBucket (run ats orl) × (cfg_for p (run ats orl) ≡ cfg_for p orl)
  unfolding run
  run-OwnBucket [] orl d own = (own, refl)
  run-OwnBucket ((q, now) ∷ rest) orl d own =
      let (kept, same) =
        run-OwnBucket rest (attempt q now orl).0 (rw (cfg_for-attempt q now orl) d)
          (attempt-OwnBucket q now orl d own) in
      (kept, same ∙ cfg_for-attempt q now orl)
