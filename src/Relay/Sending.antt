-- ===== src/Relay/Sending.antt =====
-- Which messages reach another bot (core/relay.go, `Send`).
use agent_in_chat_feishu.Shared.{
  ◌≡◌, refl, inl, inr, Bool, true, false, ◌&&◌, String, Option, none, some, List, [], ◌∷◌,
  Bool-cases, Option-cases, is_some, contains,
}
use agent_in_chat_feishu.Shared.Dict.{Dict, lookup}
use agent_in_chat_feishu.Relay.{
  RelayManager, RelayRequest, SendError, Post, Sent, Handler, parse_session_key_parts, relay,
  send_bound, send,
}
use agent_in_chat_feishu.Relay.Bindings.{bot_in}

abbrev pub has_posts : List Post → Bool
has_posts [] = false
has_posts (p ∷ ps) = true

-- Something became of the request outside the manager: the target answered or failed, or the
-- group saw a message.
abbrev pub got_out : Sent × List Post → Bool
got_out (Sent.response text, posts) = true
got_out (Sent.failed SendError.relay_failed, posts) = true
got_out (Sent.failed e, posts) = has_posts posts

-- The key names a chat in which the target is bound, and the target runs.
abbrev pub allowed : RelayManager → RelayRequest → Option (String × String) → Bool
allowed rm req none = false
allowed rm req (some (platform, chat_id)) =
    is_some (bot_in rm chat_id req.to) && contains rm.engines req.to

relay-got_out :
    (h : Handler) (rm : RelayManager) (req : RelayRequest) (platform chat_id : String)
    (bots : Dict String)
    → got_out (relay h rm req platform chat_id bots) ≡ true
unfolding relay
relay-got_out h rm req platform chat_id bots =
    elim (Option-cases (h req.to req.from chat_id req.message)) [
      | inl e ↦ rw (relay, e) refl
      | inr (text, e) ↦ rw (relay, e) refl
    ]

send_bound-got_out :
    (h : Handler) (rm : RelayManager) (req : RelayRequest) (platform chat_id : String)
    (bots : Dict String)
    → got_out (send_bound h rm req platform chat_id bots)
      ≡ (is_some (lookup req.to bots) && contains rm.engines req.to)
unfolding send_bound
send_bound-got_out h rm req platform chat_id bots =
    elim (Bool-cases (is_some (lookup req.to bots))) [
      | inr e ↦ rw e refl
      | inl e ↦ elim (Bool-cases (contains rm.engines req.to)) [
        | inr k ↦ rw (e, k) refl
        | inl k ↦ rw (e, k) (relay-got_out h rm req platform chat_id bots)
      ]
    ]

-- A request gets out of the manager, to the target or to the group, exactly if its key names a
-- chat in which the target is bound and the target's engine is registered; in every other case the
-- result is an error and nothing is posted.
pub send-got_out :
    (h : Handler) (req : RelayRequest) (rm : RelayManager)
    → got_out (send h req rm) ≡ allowed rm req (parse_session_key_parts req.session_key)
unfolding send
send-got_out h req rm = elim (Option-cases (parse_session_key_parts req.session_key)) [
  | inl e ↦ rw (send, e) refl
  | inr ((platform, chat_id), e) ↦ elim (Option-cases (lookup chat_id rm.bindings)) [
    | inl k ↦ rw (send, e, k) refl
    | inr (binding, k) ↦ rw (send, e, k) (send_bound-got_out h rm req platform chat_id binding.bots)
  ]
]
