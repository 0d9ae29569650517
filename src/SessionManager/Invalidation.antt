-- ===== src/SessionManager/Invalidation.antt =====
-- Invalidating the agent session IDs of other agents (core/session.go).
use mathlib.Core.Option
use agent_in_chat_feishu.Shared.{
  ◌≡◌, refl, ap, ◌∙◌, String, ◌==◌, eq_iff, true, false, some, arith, Bool-cases, inl, inr,
}
use agent_in_chat_feishu.Shared.Dict.{lookup, lookup-update_all, update_all, exists}
use agent_in_chat_feishu.Session.{
  Session, is_real, continue_session, strip_continue_session_sentinel,
}
use agent_in_chat_feishu.Session.Ids.{knows, knows-record_past}
use agent_in_chat_feishu.SessionManager.Types.{SessionManager}
use agent_in_chat_feishu.SessionManager.Delete.{is_stale, invalidate, invalidate_for_agent}
use agent_in_chat_feishu.SessionManager.Saved.{settled, lookup-save_locked}

-- A session that needs no further invalidation, and has lost no ID of the old one.
abbrev pub Invalidated : String → Session → Session → Type 0
Invalidated agent_type s t =
    (is_stale agent_type t ≡ false)
    × ((i : String) → is_real i ≡ true → knows i s ≡ true → knows i t ≡ true)

invalidate-Invalidated :
    (agent_type : String) (s : Session) → Invalidated agent_type s (invalidate agent_type s)
unfolding invalidate
invalidate-Invalidated agent_type s = elim (Bool-cases (is_stale agent_type s)) [
  | inl stale ↦ rw (stale, invalidate) (refl, λ i r h. ground (arith, knows-record_past i s r h))
  | inr fresh ↦ rw (fresh, invalidate) (fresh, λ i r h. h)
]

settled-Invalidated :
    (agent_type store_path : String) (s t : Session)
    → Invalidated agent_type s t
    → Invalidated agent_type s (settled store_path t)
unfolding strip_continue_session_sentinel
settled-Invalidated agent_type store_path s t (fresh, kept) = elim (Bool-cases (store_path == "")) [
  | inl unsaved ↦ rw (unsaved) (fresh, kept)
  | inr saved ↦ elim (Bool-cases (t.agent_session_id == continue_session)) [
    | inr real ↦ rw (saved, strip_continue_session_sentinel, real) (fresh, kept)
    | inl sentinel ↦
        rw (saved, strip_continue_session_sentinel, sentinel)
          (
            refl,
            λ i r h. ground (
              arith,
              kept i r h,
              eq_iff t.agent_session_id i,
              eq_iff t.agent_session_id continue_session,
              eq_iff i continue_session,
            ),
          )
  ]
]

-- After the manager was told which agent runs, every session that was there is there, has no agent
-- session ID of another agent, and still knows every ID that it knew, as a past one if it was its
-- current ID.
pub invalidate_for_agent-Invalidated :
    (agent_type k : String) (s : Session) (m : SessionManager)
    → lookup k m.sessions ≡ some s
    → (t : Session) × (lookup k (invalidate_for_agent agent_type m).sessions ≡ some t)
      × Invalidated agent_type s t
unfolding invalidate_for_agent
invalidate_for_agent-Invalidated agent_type k s m e =
    let visited : lookup k (update_all (λ j. invalidate agent_type) m.sessions)
        ≡ some (invalidate agent_type s) =
      lookup-update_all (λ j. invalidate agent_type) k m.sessions
      ∙ ap (Option.map (invalidate agent_type)) e in
    let here = invalidate-Invalidated agent_type s in
    elim (Bool-cases (exists (λ j. is_stale agent_type) m.sessions)) [
      | inr none_stale ↦ (invalidate agent_type s, rw (none_stale) visited, here)
      | inl stale ↦ (
        settled m.store_path (invalidate agent_type s),
        rw (stale) (lookup-save_locked _ k ∙ ap (Option.map (settled m.store_path)) visited),
        settled-Invalidated agent_type m.store_path s (invalidate agent_type s) here,
      )
    ]
