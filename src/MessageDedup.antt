-- ===== src/MessageDedup.antt =====
-- core/dedup.go: message IDs seen within the last minute. Times are nanoseconds.
pub mod Spec
use agent_in_chat_feishu.Shared.{
  ℕ, ◌+◌, ◌*◌, Bool, true, false, String, ◌==◌, leb, ltb, if◌then◌else◌,
}
use agent_in_chat_feishu.Shared.Dict.{Dict, insert, retain, has}

abbrev pub second : ℕ
second = 1000000000

abbrev pub dedup_ttl : ℕ
dedup_ttl = 60 * second

-- `seen`; a nil map reads as the empty one.
abbrev pub MessageDedup : Type 0
MessageDedup = Dict ℕ

-- The entry stays: `now.Sub(t) <= dedupTTL`, also where `t` is after `now`.
abbrev pub is_alive : ℕ → ℕ → Bool
is_alive now t = leb now (t + dedup_ttl)

unfoldable pub is_duplicate : String → ℕ → MessageDedup → MessageDedup × Bool
is_duplicate msg_id now seen =
    if msg_id == ""
    then (seen, false)
    else (let live = retain (λ k. is_alive now) seen in
        if has msg_id live then (live, true) else (insert msg_id now live, false))

-- `msgTime.Before(StartTime.Add(-2 * time.Second))`
unfoldable pub is_old_message : ℕ → ℕ → Bool
is_old_message start_time msg_time = ltb (msg_time + 2 * second) start_time
