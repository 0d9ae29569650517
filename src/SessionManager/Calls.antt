-- ===== src/SessionManager/Calls.antt =====
-- Every method of the SessionManager that changes it (core/session.go), and histories of calls.
use agent_in_chat_feishu.Shared.{
  ℕ, ◌+◌, ◌≤◌, ◌≡◌, refl, ◌∙◌, Bool, true, false, ◌||◌, List, [], ◌∷◌, String, ◌==◌, arith,
  if◌then◌else◌, inl, inr, Option-cases,
}
use agent_in_chat_feishu.Shared.Dict.{Dict}
use agent_in_chat_feishu.Session.{Session, set_agent_info}
use agent_in_chat_feishu.Session.Ids
use agent_in_chat_feishu.SessionManager.Saved.{counter-save_locked}
use agent_in_chat_feishu.SessionManager.Types.{SessionManager, ids_of, next_counter}
use agent_in_chat_feishu.SessionManager.Store.{save_locked}
use agent_in_chat_feishu.SessionManager.Create.{
  register, set_active, create_locked, new_session, new_side_session, get_or_create_active,
  find_session, switch_session, on_session, switch_to_agent_session,
}
use agent_in_chat_feishu.SessionManager.Query.{set_session_name, update_user_meta}
use agent_in_chat_feishu.SessionManager.Delete.{
  delete_by_id, delete_by_id_locked, delete_matching, delete_by_agent_session_id,
  invalidate_for_agent,
}
use agent_in_chat_feishu.SessionManager.Invariant.{counter-register}

pub data Call : Type 0 where
  gets_or_creates : String → ℕ → Call
  creates creates_side : String → String → ℕ → Call
  switches : String → String → Call
  switches_to_agent : String → String → String → String → ℕ → Call
  names : String → String → Call
  updates_meta : String → String → String → Call
  deletes deletes_agent invalidates : String → Call
  saves : Call
  calls_session : String → Ids.Call → Call

unfoldable pub apply : Call → SessionManager → SessionManager
apply (gets_or_creates u now) m = (get_or_create_active u now m).0
apply (creates u name now) m = (new_session u name now m).0
apply (creates_side u name now) m = (new_side_session u name now m).0
apply (switches u target) m = (switch_session u target m).0
apply (switches_to_agent u sid agent summary now) m =
    (switch_to_agent_session u sid agent summary now m).0
apply (names id name) m = set_session_name id name m
apply (updates_meta k user chat) m = update_user_meta k user chat m
apply (deletes id) m = (delete_by_id id m).0
apply (deletes_agent id) m = (delete_by_agent_session_id id m).0
apply (invalidates agent) m = invalidate_for_agent agent m
apply saves m = save_locked m
apply (calls_session id c) m = on_session id (Ids.apply c) m

unfoldable pub run : List Call → SessionManager → SessionManager
run [] m = m
run (c ∷ cs) m = run cs (apply c m)

-- Each call issues one key at most.
counter-create_locked :
    (u name : String) (now : ℕ) (m : SessionManager)
    → (create_locked u name now m).0.counter ≡ next_counter m.counter
unfolding create_locked register
counter-create_locked u name now m = refl

counter-delete_matching :
    (agent : String) (entries : Dict Session) (n : ℕ) (m : SessionManager)
    → (delete_matching agent entries n m).0.counter ≡ m.counter
unfolding delete_matching
counter-delete_matching agent [] n m = refl
counter-delete_matching agent ((id, s) ∷ rest) n m =
    counter-delete_matching agent rest _
      (if s.agent_session_id == agent then delete_by_id_locked id m else m)
    ∙ either (s.agent_session_id == agent)
  where
    either : (b : Bool) → (if b then delete_by_id_locked id m else m).counter ≡ m.counter
    either true = unfold delete_by_id_locked in refl
    either false = refl

counter-new_session :
    (u name : String) (now : ℕ) (m : SessionManager)
    → (new_session u name now m).0.counter ≡ next_counter m.counter
unfolding new_session
counter-new_session u name now m =
    counter-save_locked (create_locked u name now m).0 ∙ counter-create_locked u name now m

counter-on_session :
    (id : String) (f : Session → Session) (m : SessionManager)
    → (on_session id f m).counter ≡ m.counter
unfolding on_session
counter-on_session id f m = ground arith

next-le : (n : ℕ) → next_counter n ≤ n + 1
unfolding next_counter
next-le n = omega arith

counter_saved_if :
    (b : Bool) (m : SessionManager) → (if b then save_locked m else m).counter ≡ m.counter
counter_saved_if true m = counter-save_locked m
counter_saved_if false m = refl

counter-switch_session :
    (u target : String) (m : SessionManager) → (switch_session u target m).0.counter ≡ m.counter
unfolding switch_session
counter-switch_session u target m =
    elim (Option-cases
      (find_session (λ s. s.id == target || s.name == target) m.sessions (ids_of u m))) [
        | inl e ↦ rw (e, switch_session) refl
        | inr (s, e) ↦ rw (e, switch_session) (counter-save_locked (set_active u s.id m))
      ]

counter-switch_to_agent_session :
    (u sid agent summary : String) (now : ℕ) (m : SessionManager)
    → (switch_to_agent_session u sid agent summary now m).0.counter ≤ m.counter + 1
unfolding switch_to_agent_session
counter-switch_to_agent_session u sid agent summary now m =
    let (created, id) = create_locked u summary now m in
    elim (Option-cases (find_session (λ s. s.agent_session_id == sid) m.sessions (ids_of u m))) [
      | inl e ↦
          rw (e, switch_to_agent_session)
            (omega (
              arith,
              counter-save_locked (on_session id (set_agent_info sid agent summary) created),
              counter-on_session id (set_agent_info sid agent summary) created,
              counter-create_locked u summary now m,
              next-le m.counter,
            ))
      | inr (s, e) ↦
          rw (e, switch_to_agent_session) (omega (arith, counter-save_locked (set_active u s.id m)))
    ]

pub counter-apply : (c : Call) (m : SessionManager) → (apply c m).counter ≤ m.counter + 1
unfolding apply
counter-apply (gets_or_creates u now) m =
    unfold get_or_create_active in
    ground (arith, counter-new_session u "default" now m, next-le m.counter)
counter-apply (creates u name now) m =
    omega (arith, counter-new_session u name now m, next-le m.counter)
counter-apply (creates_side u name now) m =
    unfold new_side_session in
    omega (
      arith,
      counter-save_locked (register u name now m).0,
      counter-register u name now m,
      next-le m.counter,
    )
counter-apply (switches u target) m = omega (arith, counter-switch_session u target m)
counter-apply (switches_to_agent u sid agent summary now) m =
    counter-switch_to_agent_session u sid agent summary now m
counter-apply (names id name) m = unfold set_session_name in rw counter-save_locked (omega arith)
counter-apply (updates_meta k user chat) m = unfold update_user_meta in ground arith
counter-apply (deletes id) m =
    unfold delete_by_id delete_by_id_locked in
    ground (arith, counter-save_locked (delete_by_id_locked id m))
counter-apply (deletes_agent id) m =
    unfold delete_by_agent_session_id in
    ground (
      arith,
      counter-delete_matching id m.sessions 0 m,
      counter-save_locked (delete_matching id m.sessions 0 m).0,
    )
counter-apply (invalidates agent) m =
    unfold invalidate_for_agent in rw counter_saved_if (omega arith)
counter-apply saves m = omega (arith, counter-save_locked m)
counter-apply (calls_session id c) m = omega (arith, counter-on_session id (Ids.apply c) m)
