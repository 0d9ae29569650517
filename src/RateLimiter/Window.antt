-- ===== src/RateLimiter/Window.antt =====
-- The messages that the limiter of core/ratelimit.go lets through within one window.
use agent_in_chat_feishu.Shared.{
  ℕ, suc, ◌+◌, ◌≤◌, ◌<◌, ◌≡◌, Bool, ◌&&◌, List, [], ◌∷◌, ◌++◌, String, ◌==◌, eq_iff, arith, leb,
  ltb, if◌then◌else◌, length, filter, append-nil, append_assoc, pos,
}
use agent_in_chat_feishu.RateLimiter.{new_rate_limiter, recent}
use agent_in_chat_feishu.RateLimiter.Spec.{
  Log, spec_allow, Event, asks, ticks, InOrder, answers, spec_answers,
}
use agent_in_chat_feishu.RateLimiter.Refines.{answers-spec_answers}

-- The messages of a key that the answers let through, by their times.
unfoldable pub passed : String → List (ℕ × Event) → List Bool → List ℕ
passed key [] bs = []
passed key ((t, ticks) ∷ es) bs = passed key es bs
passed key ((t, asks k) ∷ es) [] = []
passed key ((t, asks k) ∷ es) (b ∷ bs) =
    let rest = passed key es bs in if b && k == key then t ∷ rest else rest

-- The times within the window that ends at `at`: after `at - window_ms`, and up to `at`.
abbrev pub in_window : ℕ → ℕ → List ℕ → List ℕ
in_window window_ms at = filter (λ t. leb t at && ltb at (t + window_ms))

abbrev Bounded : ℕ → ℕ → List ℕ → Type 0
Bounded limit w ts = (at : ℕ) → length (in_window w at ts) ≤ limit

abbrev Until : ℕ → List ℕ → Type 0
Until now [] = Unit {0}
Until now (t ∷ ts) = (t ≤ now) × Until now ts

in_window-append :
    (w at : ℕ) (xs ys : List ℕ)
    → length (in_window w at (xs ++ ys)) ≡ length (in_window w at xs) + length (in_window w at ys)
unfolding filter
in_window-append w at [] ys = omega arith
in_window-append w at (x ∷ xs) ys = ground (arith, in_window-append w at xs ys)

in_window-le-recent :
    (w at t : ℕ) (ts : List ℕ) → t ≤ at → length (in_window w at ts) ≤ length (recent w t ts)
unfolding filter
in_window-le-recent w at t [] h = omega arith
in_window-le-recent w at t (x ∷ ts) h = ground (arith, in_window-le-recent w at t ts h)

snoc-Bounded :
    (limit w t : ℕ) (ts : List ℕ)
    → Bounded limit w ts
    → length (recent w t ts) < limit
    → Bounded limit w (ts ++ t ∷ [])
unfolding filter
snoc-Bounded limit w t ts b h at =
    ground (arith, b at, in_window-append w at ts (t ∷ []), in_window-le-recent w at t ts)

-- The log grows by what passes.
log_after :
    (limit w t : ℕ) (k key : String) (log : Log) (rest : List ℕ)
    → (spec_allow limit w k t log).0 key ++ rest
      ≡ log key ++ (if (spec_allow limit w k t log).1 && k == key then t ∷ rest else rest)
unfolding spec_allow
log_after limit w t k key log rest =
    ground (
      arith,
      append_assoc (log key) (t ∷ []) rest,
      append_assoc (log k) (t ∷ []) rest,
      eq_iff k key,
    )

spec_allow-Bounded :
    (limit w t : ℕ) (k key : String) (log : Log)
    → Bounded limit w (log key)
    → Bounded limit w ((spec_allow limit w k t log).0 key)
unfolding spec_allow
spec_allow-Bounded limit w t k key log b at =
    ground (arith, eq_iff k key, b at, snoc-Bounded limit w t (log key) b _ at)

spec-Bounded :
    (limit w : ℕ) (key : String) (es : List (ℕ × Event)) (log : Log)
    → Bounded limit w (log key)
    → Bounded limit w (log key ++ passed key es (spec_answers limit w es log))
unfolding passed spec_answers
spec-Bounded limit w key [] log b = rw (append-nil (log key)) b
spec-Bounded limit w key ((t, ticks) ∷ es) log b = spec-Bounded limit w key es log b
spec-Bounded limit w key ((t, asks k) ∷ es) log b =
    let log' = (spec_allow limit w k t log).0 in
    rw (← log_after limit w t k key log (passed key es (spec_answers limit w es log')))
      (spec-Bounded limit w key es log' (spec_allow-Bounded limit w t k key log b))

-- With a positive limit, and messages in the order of their times, no window of `w` milliseconds
-- holds more messages of a key that were let through than the limit.
pub passed-le-limit :
    (n w at : ℕ) (key : String) (es : List (ℕ × Event))
    → InOrder 0 es
    → length (in_window w at (passed key es (answers es (new_rate_limiter (pos (suc n)) w))))
      ≤ suc n
passed-le-limit n w at key es o =
    rw (answers-spec_answers n w es o)
      (spec-Bounded (suc n) w key es (λ k. []) (unfold filter in λ u. omega arith) at)
