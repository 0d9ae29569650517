-- ===== src/RateLimiter/Recent.antt =====
-- The times of a bucket (core/ratelimit.go) that are recent, and those that are past.
use agent_in_chat_feishu.Shared.{
  ℕ, ◌+◌, ◌≤◌, ◌≡◌, refl, sym, ap, ◌∙◌, Bool, true, false, List, [], ◌∷◌, ◌++◌, arith,
  if◌then◌else◌, filter,
}
use agent_in_chat_feishu.RateLimiter.{recent}

-- No time of the list lies after `last`.
abbrev pub Before : ℕ → List ℕ → Type 0
Before last [] = Unit {0}
Before last (t ∷ ts) = (t ≤ last) × Before last ts

pub filter-nil : (p : ℕ → Bool) → filter p [] ≡ []
unfolding filter
filter-nil p = refl

-- What is recent later was recent before.
pub recent-recent :
    (w now later : ℕ) (ts : List ℕ)
    → now ≤ later
    → recent w later (recent w now ts) ≡ recent w later ts
unfolding filter
recent-recent w now later [] h = refl
recent-recent w now later (t ∷ ts) h = ground (arith, recent-recent w now later ts h)

pub recent-append :
    (w now : ℕ) (xs ys : List ℕ) → recent w now (xs ++ ys) ≡ recent w now xs ++ recent w now ys
unfolding filter
recent-append w now [] ys = refl
recent-append w now (x ∷ xs) ys = ground (arith, recent-append w now xs ys)

-- After the last time has left the window nothing is recent.
pub recent_nil :
    (w now last : ℕ) (ts : List ℕ) → Before last ts → last + w ≤ now → recent w now ts ≡ []
unfolding filter
recent_nil w now last [] b h = refl
recent_nil w now last (t ∷ ts) b h = ground (arith, recent_nil w now last ts b.1 h)

pub recent-Before : (w now last : ℕ) (ts : List ℕ) → Before last ts → Before last (recent w now ts)
unfolding filter
recent-Before w now last [] b = tt
recent-Before w now last (t ∷ ts) b = ground (arith, recent-Before w now last ts b.1)

pub snoc-Before :
    (last now : ℕ) (ts : List ℕ) → Before last ts → last ≤ now → Before now (ts ++ now ∷ [])
snoc-Before last now [] b h = (omega arith, tt)
snoc-Before last now (t ∷ ts) b h = (omega arith, snoc-Before last now ts b.1 h)

pub later-Before : (last now : ℕ) (ts : List ℕ) → Before last ts → last ≤ now → Before now ts
later-Before last now [] b h = tt
later-Before last now (t ∷ ts) b h = (omega arith, later-Before last now ts b.1 h)

abbrev pub extended : Bool → ℕ → List ℕ → List ℕ
extended full t ts = if full then ts else ts ++ t ∷ []

pub recent-extended :
    (full : Bool) (w t u : ℕ) (ts logged : List ℕ)
    → t ≤ u
    → recent w u ts ≡ recent w u logged
    → recent w u (extended full t (recent w t ts)) ≡ recent w u (extended full t logged)
recent-extended true w t u ts logged h e = recent-recent w t u ts h ∙ e
recent-extended false w t u ts logged h e =
    recent-append w u (recent w t ts) (t ∷ [])
    ∙ ap (λ (l : List ℕ). l ++ recent w u (t ∷ [])) (recent-recent w t u ts h ∙ e)
    ∙ sym (recent-append w u logged (t ∷ []))

pub extended-Before :
    (full : Bool) (last t : ℕ) (ts : List ℕ)
    → Before last ts
    → last ≤ t
    → Before t (extended full t ts)
extended-Before true last t ts b h = later-Before last t ts b h
extended-Before false last t ts b h = snoc-Before last t ts b h
