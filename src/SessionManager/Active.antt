-- ===== src/SessionManager/Active.antt =====
-- The active session of a user (core/session.go): creating, switching, and side sessions.
use agent_in_chat_feishu.Shared.{
  ℕ, ◌+◌, ◌^◌, ◌<◌, ◌≡◌, refl, sym, ap, ◌∙◌, Bool, true, false, ◌||◌, List, [], ◌∷◌, String, ◌==◌,
  eq_iff, eq_refl, none, some, arith, if◌then◌else◌, inl, inr, Option-cases, contains, is_some,
}
use agent_in_chat_feishu.Shared.Dict.{Dict, lookup, has, lookup-insert}
use agent_in_chat_feishu.Session.{Session}
use agent_in_chat_feishu.SessionManager.Types.{SessionManager, ids_of, or_empty}
use agent_in_chat_feishu.SessionManager.Store.{save_locked}
use agent_in_chat_feishu.SessionManager.Create.{
  register, set_active, create_locked, new_session, new_side_session, active_of,
  get_or_create_active, find_session, switch_session,
}
use agent_in_chat_feishu.SessionManager.Saved.{
  has-save_locked, active-save_locked, user_sessions-save_locked,
}
use agent_in_chat_feishu.SessionManager.Invariant.{
  WellFormed, next-fresh, has-register, contains-register, active-register, new_id,
}
use agent_in_chat_feishu.SessionManager.Preserved.{find_session-found}

active_of-some :
    (u sid : String) (m : SessionManager)
    → lookup u m.active_session ≡ some sid
    → has sid m.sessions ≡ true
    → active_of u m ≡ some sid
active_of-some u sid m e h = ground arith

active_of-new_session :
    (u name : String) (now : ℕ) (m : SessionManager)
    → active_of u (new_session u name now m).0 ≡ some (new_session u name now m).1
unfolding new_session create_locked
active_of-new_session u name now m =
    let (m', id) = register u name now m in
    active_of-some u id (save_locked (set_active u id m'))
      (ap (lookup u) (active-save_locked (set_active u id m'))
        ∙ lookup-insert u u id m'.active_session
        ∙ rw (eq_refl u) refl)
      (has-save_locked (set_active u id m') id
        ∙ has-register u name now m id
        ∙ unfold register in rw (eq_refl id) refl)

get_or_create_active-some :
    (u sid : String) (now : ℕ) (m : SessionManager)
    → active_of u m ≡ some sid
    → get_or_create_active u now m ≡ (m, sid)
unfolding get_or_create_active
get_or_create_active-some u sid now m e = rw (e, get_or_create_active) refl

get_or_create_active-none :
    (u : String) (now : ℕ) (m : SessionManager)
    → active_of u m ≡ none
    → get_or_create_active u now m ≡ new_session u "default" now m
unfolding get_or_create_active
get_or_create_active-none u now m e = rw (e, get_or_create_active) refl

-- Asking twice for the active session of a user gives one session, and the second call changes
-- nothing: there is no second default session.
pub get_or_create_active_twice :
    (u : String) (now later : ℕ) (m : SessionManager)
    → get_or_create_active u later (get_or_create_active u now m).0 ≡ get_or_create_active u now m
get_or_create_active_twice u now later m = elim (Option-cases (active_of u m)) [
  | inr (sid, e) ↦
      ap (λ (p : SessionManager × String). get_or_create_active u later p.0)
        (get_or_create_active-some u sid now m e)
      ∙ get_or_create_active-some u sid later m e
      ∙ sym (get_or_create_active-some u sid now m e)
  | inl e ↦
      ap (λ (p : SessionManager × String). get_or_create_active u later p.0)
        (get_or_create_active-none u now m e)
      ∙ get_or_create_active-some u (new_session u "default" now m).1 later
          (new_session u "default" now m).0 (active_of-new_session u "default" now m)
      ∙ sym (get_or_create_active-none u now m e)
]

-- A side session is a new entry, listed for its user, and leaves the active session of every user
-- and every session that was there where they were.
pub new_side_session-isolated :
    (u name : String) (now : ℕ) (m : SessionManager)
    → WellFormed m
    → m.counter + 1 < 2 ^ 63
    → let (m', id) = new_side_session u name now m in
      (has id m.sessions ≡ false)
      × (contains (ids_of u m') id ≡ true)
      × (m'.active_session ≡ m.active_session)
      × ((k : String) → has k m'.sessions ≡ (id == k || has k m.sessions))
unfolding new_side_session
new_side_session-isolated u name now m w h =
    let r : SessionManager = (register u name now m).0 in
    let id : String = new_id u name now m in
    unfold register in
    (
      next-fresh m w h,
      ap (λ (us : Dict (List String)). contains (or_empty (lookup u us)) id)
            (user_sessions-save_locked r)
          ∙ ground (arith, contains-register u name now m u id, eq_refl u, eq_refl id),
      active-save_locked r ∙ active-register u name now m,
      λ k. has-save_locked r k ∙ has-register u name now m k,
    )

-- The search finds something if a listed session passes the test.
find_session-ne-none :
    (p : Session → Bool) (sessions : Dict Session) (ids : List String) (k : String) (s : Session)
    → contains ids k ≡ true
    → lookup k sessions ≡ some s
    → p s ≡ true
    → is_some (find_session p sessions ids) ≡ true
unfolding find_session contains
find_session-ne-none p sessions [] k s listed found hit = cc
find_session-ne-none p sessions (sid ∷ sids) k s listed found hit =
    elim (Option-cases (lookup sid sessions)) [
      | inl n ↦ ground (arith, eq_iff sid k, find_session-ne-none p sessions sids k s)
      | inr (t, n) ↦ ground (arith, eq_iff sid k, find_session-ne-none p sessions sids k s)
    ]

abbrev pub answers_to : String → Session → Bool
answers_to target s = s.id == target || s.name == target

-- If a session of the user answers to the target, by its ID or its name, switching makes such a
-- session the active one of this user, and leaves the active session of every other user.
pub switch_session-found :
    (u target k : String) (m : SessionManager) (s : Session)
    → WellFormed m
    → contains (ids_of u m) k ≡ true
    → lookup k m.sessions ≡ some s
    → answers_to target s ≡ true
    → (t : Session) × ((switch_session u target m).1 ≡ some t.id)
      × (contains (ids_of u m) t.id ≡ true)
      × (answers_to target t ≡ true)
      × ((v : String)
          → lookup v (switch_session u target m).0.active_session
            ≡ (if u == v then some t.id else lookup v m.active_session))
unfolding switch_session
switch_session-found u target k m s w listed found hit =
    elim (Option-cases (find_session (answers_to target) m.sessions (ids_of u m))) [
      | inl n ↦ absurd (
          cc
            (find_session-ne-none (answers_to target) m.sessions (ids_of u m) k s listed found hit))
      | inr (t, e) ↦
          let (j, in_list, at, passes) =
            find_session-found (answers_to target) m.sessions (ids_of u m) e in
          (
            t,
            rw (e, switch_session) refl,
            rw (w.keyed j t at) in_list,
            passes,
            λ v.
                rw (e, switch_session)
                  (ap (lookup v) (active-save_locked (set_active u t.id m))
                    ∙ lookup-insert u v t.id m.active_session),
          )
    ]

-- If nothing is found, the manager is as it was and the caller gets the error.
pub switch_session-missing :
    (u target : String) (m : SessionManager)
    → (switch_session u target m).1 ≡ none
    → (switch_session u target m).0 ≡ m
unfolding switch_session
switch_session-missing u target m e =
    elim (Option-cases (find_session (answers_to target) m.sessions (ids_of u m))) [
      | inl n ↦ rw (n, switch_session) refl
      | inr (t, n) ↦ absurd (cc (rw (n, switch_session) at e))
    ]
