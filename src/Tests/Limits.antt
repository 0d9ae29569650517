-- ===== src/Tests/Limits.antt =====
-- Rate limits, duplicate messages and directory histories on concrete inputs.
use agent_in_chat_feishu.Shared.{
  ℕ, ◌+◌, ◌≤◌, ◌≡◌, refl, true, false, List, [], ◌∷◌, String, eq_iff, arith, none, length, pos,
  take, filter,
}
use agent_in_chat_feishu.Shared.Dict.{lookup}
use agent_in_chat_feishu.RateLimiter.{new_rate_limiter}
use agent_in_chat_feishu.RateLimiter.Spec.{Event, asks, ticks, answers, spec_answers, spec_allow}
use agent_in_chat_feishu.RateLimiter.Refines.{answers-spec_answers}
use agent_in_chat_feishu.RateLimiter.Window.{passed-le-limit, passed, in_window}
use agent_in_chat_feishu.MessageDedup.Spec.{duplicates, spec_duplicates, duplicates-spec_duplicates}
use agent_in_chat_feishu.DirHistory.{DirHistory, list}
use agent_in_chat_feishu.DirHistory.Recent.{list-add_all, add_all, visited}

-- Three messages of one sender within a second, one of another, a tick, and a late one.
abbrev traffic : List (ℕ × Event)
traffic =
    (10, asks "ann")
    ∷ (20, asks "ann")
    ∷ (30, asks "bob")
    ∷ (40, asks "ann")
    ∷ (2500, ticks)
    ∷ (2600, asks "ann")
    ∷ []

answers-spec_answers_example :
    answers traffic (new_rate_limiter (pos 2) 1000) ≡ spec_answers 2 1000 traffic (λ k. [])
answers-spec_answers_example = answers-spec_answers 1 1000 traffic (omega arith)

traffic_answers : spec_answers 2 1000 traffic (λ k. []) ≡ true ∷ true ∷ true ∷ false ∷ true ∷ []
unfolding spec_answers filter spec_allow
traffic_answers = refl

passed-le-limit_example :
    length
      (in_window 1000 40 (passed "ann" traffic (answers traffic (new_rate_limiter (pos 2) 1000))))
    ≤ 2
passed-le-limit_example = passed-le-limit 1 1000 40 "ann" traffic (omega arith)

abbrev minute : ℕ
minute = 60000000000

abbrev messages : List (ℕ × String)
messages = (0, "m1") ∷ (5, "m1") ∷ (minute + 6, "m1") ∷ []

duplicates-spec_duplicates_example : duplicates messages [] ≡ spec_duplicates messages (λ k. none)
duplicates-spec_duplicates_example = duplicates-spec_duplicates messages (omega arith)

abbrev fresh_history : DirHistory
fresh_history = record { entries = []; max_size = 2; store_path = ""; file = none; writable = true }

list-add_all_example :
    list "app" (add_all "app" ("/a" ∷ "/b" ∷ "/c" ∷ "/b" ∷ []) fresh_history)
    ≡ take 2 (visited ("/a" ∷ "/b" ∷ "/c" ∷ "/b" ∷ []) [])
unfolding list lookup
list-add_all_example =
    list-add_all 1 "app" ("/a" ∷ "/b" ∷ "/c" ∷ "/b" ∷ []) [] fresh_history
      (
        ground (arith, eq_iff "/a" ""),
        (
          ground (arith, eq_iff "/b" ""),
          (ground (arith, eq_iff "/c" ""), (ground (arith, eq_iff "/b" ""), tt)),
        ),
      )
      refl refl
