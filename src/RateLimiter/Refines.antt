-- ===== src/RateLimiter/Refines.antt =====
-- The limiter (core/ratelimit.go) beside its specification.
use mathlib.Core.Path.{ap₂}
use agent_in_chat_feishu.Shared.{
  ℕ, suc, ◌+◌, ◌*◌, ◌≤◌, ◌≡◌, ◌⊎◌, refl, ap, ◌∙◌, Bool, true, not, List, [], ◌∷◌, String, ◌==◌,
  eq_iff, Option, none, some, arith, leb, if◌then◌else◌, Bool-cases, inl, inr, Option-cases, length,
  pos, negsuc,
}
use agent_in_chat_feishu.Shared.Dict.{
  lookup, lookup-insert, lookup-retain, IsMap, insert-IsMap, retain-IsMap, lookup_nil,
}
use agent_in_chat_feishu.RateLimiter.{
  RateLimiter, RateBucket, new_rate_limiter, recent, is_recent, timestamps_of, allow, allow_within,
  clean,
}
use agent_in_chat_feishu.RateLimiter.Spec.{
  Log, spec_allow, Event, asks, ticks, InOrder, answers, spec_answers,
}
use agent_in_chat_feishu.RateLimiter.Recent.{
  filter-nil, recent_nil, recent-Before, later-Before, recent-extended, extended-Before, Before,
  extended,
}

-- A bucket holds no time after its last access, and that is not in the future.
abbrev IsPast : ℕ → Option RateBucket → Type 0
IsPast now none = Unit {0}
IsPast now (some b) = Before b.last_access b.timestamps × (b.last_access ≤ now)

-- From `now` on, the buckets show the same recent times as the log.
record Represents (now : ℕ) (rl : RateLimiter) (log : Log) : Type 0 where
  is_map : IsMap rl.buckets
  is_past : (k : String) → IsPast now (lookup k rl.buckets)
  same :
      (k : String) (t : ℕ)
      → now ≤ t
      → recent rl.window_ms t (timestamps_of (lookup k rl.buckets)) ≡ recent rl.window_ms t (log k)

new-Represents : (limit : ℕ) (w : ℕ) → Represents 0 (new_rate_limiter (pos limit) w) (λ k. [])
unfolding new_rate_limiter
new-Represents limit w = record {
  is_map = tt;
  is_past = λ k. ground (arith, lookup_nil {V = RateBucket} k);
  same = λ k t h. ground (arith, lookup_nil {V = RateBucket} k);
}

clean-Represents :
    (now t : ℕ) (rl : RateLimiter) (log : Log)
    → now ≤ t
    → Represents now rl log
    → Represents t (clean t rl) log
unfolding clean
clean-Represents now t rl log h r = record {
  is_map = retain-IsMap kept rl.buckets r.is_map;
  is_past = λ k. elim (Option-cases (lookup k rl.buckets)) [
    | inl n ↦ ground (arith, lookup-retain kept k rl.buckets r.is_map)
    | inr (b, n) ↦ ground (arith, lookup-retain kept k rl.buckets r.is_map, r.is_past k)
  ];
  same = λ k u le. elim (Option-cases (lookup k rl.buckets)) [
    | inl n ↦ ground (arith, lookup-retain kept k rl.buckets r.is_map, r.same k u)
    | inr (b, n) ↦ ground (
      arith,
      lookup-retain kept k rl.buckets r.is_map,
      r.same k u,
      r.is_past k,
      recent_nil rl.window_ms u b.last_access b.timestamps,
      filter-nil (is_recent rl.window_ms u),
    )
  ];
}
  where
    kept : String → RateBucket → Bool
    kept k b = leb t (b.last_access + rl.window_ms * 2)

timestamps-Before : (now : ℕ) (o : Option RateBucket) → IsPast now o → Before now (timestamps_of o)
timestamps-Before now none p = tt
timestamps-Before now (some b) p = later-Before b.last_access now b.timestamps p.0 p.1

later-IsPast : (now t : ℕ) (o : Option RateBucket) → IsPast now o → now ≤ t → IsPast t o
later-IsPast now t none p h = tt
later-IsPast now t (some b) p h = (p.0, omega arith)

module _ (limit now t : ℕ) (key : String) (rl : RateLimiter) (log : Log) (h : now ≤ t)
    (r : Represents now rl log) where
  found : List ℕ
  found = timestamps_of (lookup key rl.buckets)

  full : Bool
  full = leb limit (length (recent rl.window_ms t found))

  full-eq : full ≡ leb limit (length (recent rl.window_ms t (log key)))
  unfolding full found
  full-eq = ap (λ (l : List ℕ). leb limit (length l)) (r.same key t h)

  allow_within-answer :
      (allow_within limit key t rl).1 ≡ (spec_allow limit rl.window_ms key t log).1
  unfolding allow_within spec_allow full found
  allow_within-answer = ap not full-eq

  spec_log :
      (k : String)
      → (spec_allow limit rl.window_ms key t log).0 k
        ≡ (if key == k then extended full t (log k) else log k)
  unfolding spec_allow
  spec_log k = ground (arith, full-eq)

  allow_within-Represents :
      Represents t (allow_within limit key t rl).0 (spec_allow limit rl.window_ms key t log).0
  unfolding allow_within full found
  allow_within-Represents = record {
    is_map = insert-IsMap key bucket rl.buckets r.is_map;
    is_past = λ k. elim (Bool-cases (key == k)) [
      | inl e ↦
          rw (lookup-insert key k bucket rl.buckets, e)
            (
              extended-Before full now t _
                  (recent-Before rl.window_ms t now _
                    (timestamps-Before now (lookup key rl.buckets) (r.is_past key)))
                  h,
              omega arith,
            )
      | inr e ↦
          rw (lookup-insert key k bucket rl.buckets, e)
            (later-IsPast now t (lookup k rl.buckets) (r.is_past k) h)
    ];
    same = λ k u le. elim (Bool-cases (key == k)) [
      | inl e ↦
          rw (lookup-insert key k bucket rl.buckets, spec_log k, e)
            (rw (← (eq_iff key k).0 e) (
              recent-extended full rl.window_ms t u found (log key) le
                (r.same key u (omega arith))))
      | inr e ↦ rw (lookup-insert key k bucket rl.buckets, spec_log k, e) (r.same k u (omega arith))
    ];
  }
    where
      bucket : RateBucket
      bucket = record {
        timestamps = extended full t (recent rl.window_ms t found);
        last_access = t;
      }

allow_pos :
    (n t : ℕ) (key : String) (rl : RateLimiter)
    → rl.max_messages ≡ pos (suc n)
    → allow key t rl ≡ allow_within (suc n) key t rl
unfolding allow
allow_pos n t key rl e = rw (e, allow) (ground arith)

answers-Represents :
    (n now : ℕ) (es : List (ℕ × Event)) (rl : RateLimiter) (log : Log)
    → rl.max_messages ≡ pos (suc n)
    → InOrder now es
    → Represents now rl log
    → answers es rl ≡ spec_answers (suc n) rl.window_ms es log
unfolding answers spec_answers clean allow_within
answers-Represents n now [] rl log e o r = refl
answers-Represents n now ((t, asks key) ∷ es) rl log e o r =
    ap (λ (p : RateLimiter × Bool). p.1 ∷ answers es p.0) (allow_pos n t key rl e)
    ∙ ap₂ ◌∷◌ (allow_within-answer (suc n) now t key rl log o.0 r) (
        answers-Represents n t es (allow_within (suc n) key t rl).0
          (spec_allow (suc n) rl.window_ms key t log).0 e o.1
          (allow_within-Represents (suc n) now t key rl log o.0 r))
answers-Represents n now ((t, ticks) ∷ es) rl log e o r =
    answers-Represents n t es (clean t rl) log e o.1 (clean-Represents now t rl log o.0 r)

-- A limiter with a positive limit answers every series of messages, and of ticks of its clean-up,
-- in the order of their times, as the specification does that forgets nothing: dropping old times
-- and whole buckets never changes an answer.
pub answers-spec_answers :
    (n w : ℕ) (es : List (ℕ × Event))
    → InOrder 0 es
    → answers es (new_rate_limiter (pos (suc n)) w) ≡ spec_answers (suc n) w es (λ k. [])
unfolding new_rate_limiter
answers-spec_answers n w es o =
    answers-Represents n 0 es (new_rate_limiter (pos (suc n)) w) (λ k. []) refl o
      (new-Represents (suc n) w)

-- With a limit of zero or below every message is let through.
pub allow_disabled :
    (key : String) (now n : ℕ) (rl : RateLimiter)
    → (rl.max_messages ≡ negsuc n) ⊎ (rl.max_messages ≡ pos 0)
    → allow key now rl ≡ (rl, true)
unfolding allow
allow_disabled key now n rl (inl e) = ground arith
allow_disabled key now n rl (inr e) = ground arith
