-- ===== src/RateLimiter/Spec.antt =====
-- What the limiter promises: it remembers every message that it let through, and lets the next one
-- through if fewer than `limit` of them lie within the window. Nothing is ever forgotten here.
use agent_in_chat_feishu.Shared.{
  ℕ, ◌≤◌, Bool, List, [], ◌∷◌, ◌++◌, String, ◌==◌, leb, not, if◌then◌else◌, length,
}
use agent_in_chat_feishu.RateLimiter.{RateLimiter, recent, allow, clean}

-- The times at which messages of each key were let through, oldest first.
abbrev pub Log : Type 0
Log = String → List ℕ

abbrev pub record_at : String → ℕ → Log → Log
record_at key now log k = if key == k then log k ++ now ∷ [] else log k

unfoldable pub spec_allow : ℕ → ℕ → String → ℕ → Log → Log × Bool
spec_allow limit window_ms key now log =
    let full = leb limit (length (recent window_ms now (log key))) in
    (if full then log else record_at key now log, not full)

-- What happens to a limiter: a message asks, or a tick of the clean-up comes.
pub data Event : Type 0 where
  asks : String → Event
  ticks : Event

-- The events come in the order of their times, none before `now`.
abbrev pub InOrder : ℕ → List (ℕ × Event) → Type 0
InOrder now [] = Unit {0}
InOrder now ((t, e) ∷ es) = (now ≤ t) × InOrder t es

unfoldable pub answers : List (ℕ × Event) → RateLimiter → List Bool
answers [] rl = []
answers ((t, asks key) ∷ es) rl = let (rl', ok) = allow key t rl in ok ∷ answers es rl'
answers ((t, ticks) ∷ es) rl = answers es (clean t rl)

unfoldable pub spec_answers : ℕ → ℕ → List (ℕ × Event) → Log → List Bool
spec_answers limit window_ms [] log = []
spec_answers limit window_ms ((t, asks key) ∷ es) log =
    let (log', ok) = spec_allow limit window_ms key t log in
    ok ∷ spec_answers limit window_ms es log'
spec_answers limit window_ms ((t, ticks) ∷ es) log = spec_answers limit window_ms es log
