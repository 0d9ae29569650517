-- ===== src/Permissions/Decisions.antt =====
-- What a reply to a permission request does (core/engine.go, `handlePendingPermission`).
use agent_in_chat_feishu.Unicode.{Unicode}
use agent_in_chat_feishu.Shared.{
  ◌≡◌, refl, Bool, true, false, String, none, some, [], ◌∷◌, ◌++◌, arith, ltb, length,
}
use agent_in_chat_feishu.Permissions.{
  PendingPermission, PermissionResult, Conversation, is_approve_all_response, is_allow_response,
  is_deny_response, respond, decide, handle_pending_permission,
}
use agent_in_chat_feishu.Permissions.Words.{deny_only, allow_only}

-- The request is answered: it is closed, and the agent has one response more.
abbrev pub Answered : PendingPermission → PermissionResult → Conversation → Conversation → Type 0
Answered p r c d =
    (d.pending ≡ none)
    × (d.responses ≡ c.responses ++ (p.request_id, r) ∷ [])
    × (d.resolved ≡ c.resolved ++ p.request_id ∷ [])

-- The request stays open.
abbrev pub Open : Conversation → Conversation → Type 0
Open c d =
    (d.pending ≡ c.pending)
    × (d.responses ≡ c.responses)
    × (d.resolved ≡ c.resolved)
    × (d.approve_all ≡ c.approve_all)

-- What the word decides.
pub record DecidedBy (p : PendingPermission) (word : String) (c d : Conversation) : Type 0 where
  pub denies :
      is_deny_response word ≡ true
      → Answered p (PermissionResult.deny "User denied this tool use.") c d
        × (d.approve_all ≡ c.approve_all)
  pub allows :
      is_allow_response word ≡ true
      → Answered p (PermissionResult.allow p.tool_input) c d × (d.approve_all ≡ c.approve_all)
  pub allows_all :
      is_approve_all_response word ≡ true
      → Answered p (PermissionResult.allow p.tool_input) c d × (d.approve_all ≡ true)
  pub asks_again :
      is_deny_response word ≡ false
      → is_allow_response word ≡ false
      → is_approve_all_response word ≡ false
      → Open c d

decide-DecidedBy :
    (p : PendingPermission) (word : String) (fails : Bool) (c : Conversation)
    → DecidedBy p word c (decide p word fails c)
unfolding decide respond
decide-DecidedBy p word fails c = record {
  denies = λ h. let (a, b) = deny_only word h in rw (b, a, h) ((refl, refl, refl), refl);
  allows = λ h. rw (allow_only word h, h) ((refl, refl, refl), refl);
  allows_all = λ h. rw h ((refl, refl, refl), refl);
  asks_again = λ h k l. rw (l, k, h) (refl, refl, refl, refl);
}

-- A reply to a request without questions is taken. A deny word denies, an allow word allows, and an
-- allow-all word also sets the approval of all; each closes the request with one response, which
-- is recorded whether the agent takes it or not. After any other text the request stays open.
pub handle_pending_permission-DecidedBy :
    (u : Unicode) (content : String) (fails : Bool) (c : Conversation) (p : PendingPermission)
    → c.pending ≡ some p
    → length p.questions ≡ 0
    → (d : Conversation) × (handle_pending_permission u content fails c ≡ some (d, true))
      × DecidedBy p (u.to_lower (u.trim_space content)) c d
unfolding handle_pending_permission
handle_pending_permission-DecidedBy u content fails c p h none_asked =
    let no : ltb 0 (length p.questions) ≡ false = ground arith in
    (
      decide p (u.to_lower (u.trim_space content)) fails c,
      rw (h, no) refl,
      decide-DecidedBy p (u.to_lower (u.trim_space content)) fails c,
    )
