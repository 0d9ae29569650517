-- ===== src/OutgoingRateLimiter/Waited.antt =====
-- How long a message waits for a token (core/outgoing_ratelimit.go).
use agent_in_chat_feishu.Shared.{
  ℕ, ◌+◌, ◌*◌, ◌≤◌, ◌≡◌, sym, subst, inl, inr, Bool, true, false, ◌||◌, String, some, List, [], ◌∷◌,
  arith, Option-cases,
}
use agent_in_chat_feishu.Shared.Dict.{lookup}
use agent_in_chat_feishu.OutgoingRateLimiter.{
  unit, disabled, TokenBucket, OutgoingRateLimiter, cfg_for, full_bucket, bucket_or_new, refill,
  attempt, run,
}
use agent_in_chat_feishu.OutgoingRateLimiter.Bucket.{
  refill-IsFor, refill-last_refill, after-last_refill, take_token-waited, effective_burst-positive,
}
use agent_in_chat_feishu.OutgoingRateLimiter.Attempts.{
  cfg_for-attempt, attempt_at, Within, OwnBucket, bucket_or_new-IsFor, attempt-keeps,
}

module _ (p : String) where
  -- The platform's bucket, if there is one, was last filled by `end`.
  abbrev pub FilledBy : ℕ → OutgoingRateLimiter → Type 0
  FilledBy end orl = (b : TokenBucket) → lookup p orl.buckets ≡ some b → b.last_refill ≤ end

  bucket_or_new-last_refill :
      (now end : ℕ) (orl : OutgoingRateLimiter)
      → now ≤ end
      → FilledBy end orl
      → (bucket_or_new (cfg_for p orl) now (lookup p orl.buckets)).last_refill ≤ end
  unfolding bucket_or_new full_bucket
  bucket_or_new-last_refill now end orl n old = elim (Option-cases (lookup p orl.buckets)) [
    | inl e ↦ rw (bucket_or_new, e) n
    | inr (b, e) ↦ rw (bucket_or_new, e) (old b e)
  ]

  pub run-FilledBy :
      (end : ℕ) (ats : List (String × ℕ)) (orl : OutgoingRateLimiter)
      → disabled (cfg_for p orl) ≡ false
      → FilledBy end orl
      → Within p 0 end ats
      → FilledBy end (run ats orl)
  unfolding run
  run-FilledBy end [] orl d old w = old
  run-FilledBy end ((q, now) ∷ rest) orl d old w =
      run-FilledBy end rest (attempt q now orl).0 (rw (cfg_for-attempt p q now orl) d)
        (attempt-keeps p (λ b. b.last_refill ≤ end) q now orl d old
          (after-last_refill now end _ w.0.1 (bucket_or_new-last_refill now end orl w.0.1 old)))
        w.1

  -- Of an attempt now and one after the gap, one passes.
  abbrev pub one_passes : ℕ → ℕ → OutgoingRateLimiter → Bool
  one_passes now gap orl = (attempt p now orl).1 || (attempt p (now + gap) (attempt p now orl).0).1

  -- A message that may not be sent at once may be sent after the time of a token.
  pub attempt_waited :
      (now gap : ℕ) (orl : OutgoingRateLimiter)
      → disabled (cfg_for p orl) ≡ false
      → OwnBucket p orl
      → FilledBy now orl
      → unit ≤ gap * (cfg_for p orl).max_per_second
      → one_passes now gap orl ≡ true
  unfolding bucket_or_new
  attempt_waited now gap orl d own old g =
      let b = refill now (bucket_or_new (cfg_for p orl) now (lookup p orl.buckets)) in
      let f = refill-IsFor (cfg_for p orl) now _ (bucket_or_new-IsFor p now orl own) in
      let (bucket, pass) = attempt_at p now orl d in
      let (later_bucket, later_pass) =
        attempt_at p (now + gap) (attempt p now orl).0 (rw (cfg_for-attempt p p now orl) d) in
      rw (pass, later_pass, bucket)
        (take_token-waited now gap b
          (subst (λ m. unit ≤ m) (sym f.sized) (effective_burst-positive (cfg_for p orl) d))
          (refill-last_refill now _ (bucket_or_new-last_refill now now orl (omega arith) old))
          (subst (λ r. unit ≤ gap * r) (sym f.rated) g))
