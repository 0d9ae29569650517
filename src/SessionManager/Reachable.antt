-- ===== src/SessionManager/Reachable.antt =====
-- Histories of calls of the SessionManager (core/session.go) and its invariant.
use agent_in_chat_feishu.Shared.{
  ℕ, ◌+◌, ◌^◌, ◌<◌, ◌≡◌, Bool, true, false, ◌||◌, ◌&&◌, List, [], ◌∷◌, String, ◌==◌, eq_refl, some,
  arith, if◌then◌else◌, Bool-cases, inl, inr, Option-cases, length, contains_nil,
}
use agent_in_chat_feishu.Shared.Dict.{Dict, lookup_nil}
use agent_in_chat_feishu.Session.{Session, set_agent_info, record_past_agent_session_id}
use agent_in_chat_feishu.Session.Ids
use agent_in_chat_feishu.SessionManager.Types.{Disk, UserMeta, SessionManager, ids_of, session_id}
use agent_in_chat_feishu.SessionManager.Store.{new_session_manager, save_locked}
use agent_in_chat_feishu.SessionManager.Create.{
  register, set_active, create_locked, new_session, new_side_session, active_of,
  get_or_create_active, find_session, switch_session, switch_to_agent_session,
}
use agent_in_chat_feishu.SessionManager.Query.{set_session_name, update_user_meta}
use agent_in_chat_feishu.SessionManager.Delete.{
  delete_by_id_locked, delete_matching, delete_by_agent_session_id, invalidate,
  invalidate_for_agent,
}
use agent_in_chat_feishu.SessionManager.Invariant.{
  WellFormed, save_locked-WellFormed, register-WellFormed, contains-register, new_id,
}
use agent_in_chat_feishu.SessionManager.Preserved.{
  find_session-found, set_active-WellFormed, update_all-WellFormed, on_session-WellFormed,
}
use agent_in_chat_feishu.SessionManager.Deletion.{
  delete_by_id_locked-WellFormed, delete_by_id-WellFormed,
}
use agent_in_chat_feishu.SessionManager.Calls.{
  Call, gets_or_creates, creates, creates_side, switches, switches_to_agent, names, updates_meta,
  deletes, deletes_agent, invalidates, saves, calls_session, apply, run, counter-apply,
}

create_locked-WellFormed :
    (u name : String) (now : ℕ) (m : SessionManager)
    → WellFormed m
    → m.counter + 1 < 2 ^ 63
    → WellFormed (create_locked u name now m).0
unfolding create_locked register session_id
create_locked-WellFormed u name now m w h =
    set_active-WellFormed u (new_id u name now m) (register u name now m).0
      (ground (
        arith,
        contains-register u name now m u (new_id u name now m),
        eq_refl u,
        eq_refl (new_id u name now m),
      ))
      (register-WellFormed u name now m w h)

new_session-WellFormed :
    (u name : String) (now : ℕ) (m : SessionManager)
    → WellFormed m
    → m.counter + 1 < 2 ^ 63
    → WellFormed (new_session u name now m).0
unfolding new_session
new_session-WellFormed u name now m w h =
    save_locked-WellFormed (create_locked u name now m).0
      (create_locked-WellFormed u name now m w h)

find-set_active-WellFormed :
    (u : String) (p : Session → Bool) (m : SessionManager) {s : Session}
    → WellFormed m
    → find_session p m.sessions (ids_of u m) ≡ some s
    → WellFormed (save_locked (set_active u s.id m))
find-set_active-WellFormed u p m {s} w e =
    let (k, listed, found, passes) = find_session-found p m.sessions (ids_of u m) e in
    let same : s.id ≡ k = w.keyed k s found in
    save_locked-WellFormed (set_active u s.id m) (set_active-WellFormed u s.id m (rw same listed) w)

delete_matching-WellFormed :
    (agent : String) (entries : Dict Session) (n : ℕ) (m : SessionManager)
    → WellFormed m
    → WellFormed (delete_matching agent entries n m).0
unfolding delete_matching
delete_matching-WellFormed agent [] n m w = w
delete_matching-WellFormed agent ((id, s) ∷ rest) n m w =
    delete_matching-WellFormed agent rest _
      (if s.agent_session_id == agent then delete_by_id_locked id m else m)
      (either (s.agent_session_id == agent))
  where
    either : (b : Bool) → WellFormed (if b then delete_by_id_locked id m else m)
    either true = delete_by_id_locked-WellFormed id m w
    either false = w

saved_if-WellFormed :
    (b : Bool) (m : SessionManager) → WellFormed m → WellFormed (if b then save_locked m else m)
saved_if-WellFormed true m w = save_locked-WellFormed m w
saved_if-WellFormed false m w = w

invalidate-id : (agent_type : String) (s : Session) → (invalidate agent_type s).id ≡ s.id
unfolding invalidate record_past_agent_session_id
invalidate-id agent_type s = ground arith

module _ (m : SessionManager) (w : WellFormed m) where
  get_or_create_active-WellFormed :
      (u : String) (now : ℕ) → m.counter + 1 < 2 ^ 63 → WellFormed (get_or_create_active u now m).0
  unfolding get_or_create_active
  get_or_create_active-WellFormed u now h = elim (Option-cases (active_of u m)) [
    | inl e ↦ rw (e, get_or_create_active) (new_session-WellFormed u "default" now m w h)
    | inr (sid, e) ↦ rw (e, get_or_create_active) w
  ]

  switch_session-WellFormed : (u target : String) → WellFormed (switch_session u target m).0
  unfolding switch_session
  switch_session-WellFormed u target =
      elim (Option-cases
        (find_session (λ s. s.id == target || s.name == target) m.sessions (ids_of u m))) [
          | inl e ↦ rw (e, switch_session) w
          | inr (s, e) ↦ rw (e, switch_session) (find-set_active-WellFormed u _ m w e)
        ]

  switch_to_agent_session-WellFormed :
      (u sid agent summary : String) (now : ℕ)
      → m.counter + 1 < 2 ^ 63
      → WellFormed (switch_to_agent_session u sid agent summary now m).0
  unfolding switch_to_agent_session
  switch_to_agent_session-WellFormed u sid agent summary now h =
      elim (Option-cases (find_session (λ s. s.agent_session_id == sid) m.sessions (ids_of u m))) [
        | inl e ↦
            rw (e, switch_to_agent_session)
              (save_locked-WellFormed _ (
                on_session-WellFormed _ (set_agent_info sid agent summary) _ renamed
                  (create_locked-WellFormed u summary now m w h)))
        | inr (s, e) ↦ rw (e, switch_to_agent_session) (find-set_active-WellFormed u _ m w e)
      ]
    where
      renamed : (s : Session) → (set_agent_info sid agent summary s).id ≡ s.id
      renamed s = unfold Ids.apply in Ids.apply-id (Ids.sets_agent_info sid agent summary) s

  -- The names and the metadata are no part of the invariant.
  with_names-WellFormed :
      (given : Dict String) (meta : Dict UserMeta)
      → WellFormed (record m { session_names = given; user_meta = meta })
  with_names-WellFormed given meta = record {
    sessions_map = w.sessions_map;
    keyed = w.keyed;
    issued = w.issued;
    listed = w.listed;
    owner = w.owner;
    distinct = w.distinct;
    active = w.active;
  }

  update_user_meta-WellFormed : (k user chat : String) → WellFormed (update_user_meta k user chat m)
  unfolding update_user_meta
  update_user_meta-WellFormed k user chat = elim (Bool-cases (user == "" && chat == "")) [
    | inl e ↦ rw (e, update_user_meta) w
    | inr e ↦ rw (e, update_user_meta) (with_names-WellFormed m.session_names _)
  ]

  delete_by_agent_session_id-WellFormed :
      (id : String) → WellFormed (delete_by_agent_session_id id m).0
  unfolding delete_by_agent_session_id
  delete_by_agent_session_id-WellFormed id = elim (Bool-cases (id == "")) [
    | inl e ↦ rw (e, delete_by_agent_session_id) w
    | inr e ↦
        rw (e, delete_by_agent_session_id)
          (saved_if-WellFormed _ _ (delete_matching-WellFormed id m.sessions 0 m w))
  ]

  invalidate_for_agent-WellFormed : (agent : String) → WellFormed (invalidate_for_agent agent m)
  unfolding invalidate_for_agent
  invalidate_for_agent-WellFormed agent =
      saved_if-WellFormed _ _ (update_all-WellFormed (invalidate agent) m (invalidate-id agent) w)

  apply-WellFormed : (c : Call) → m.counter + 1 < 2 ^ 63 → WellFormed (apply c m)
  unfolding apply
  apply-WellFormed (gets_or_creates u now) h = get_or_create_active-WellFormed u now h
  apply-WellFormed (creates u name now) h = new_session-WellFormed u name now m w h
  apply-WellFormed (creates_side u name now) h =
      unfold new_side_session in
      save_locked-WellFormed (register u name now m).0 (register-WellFormed u name now m w h)
  apply-WellFormed (switches u target) h = switch_session-WellFormed u target
  apply-WellFormed (switches_to_agent u sid agent summary now) h =
      switch_to_agent_session-WellFormed u sid agent summary now h
  apply-WellFormed (names id name) h =
      unfold set_session_name in save_locked-WellFormed _ (with_names-WellFormed _ m.user_meta)
  apply-WellFormed (updates_meta k user chat) h = update_user_meta-WellFormed k user chat
  apply-WellFormed (deletes id) h = delete_by_id-WellFormed id m w
  apply-WellFormed (deletes_agent id) h = delete_by_agent_session_id-WellFormed id
  apply-WellFormed (invalidates agent) h = invalidate_for_agent-WellFormed agent
  apply-WellFormed saves h = save_locked-WellFormed m w
  apply-WellFormed (calls_session id c) h =
      on_session-WellFormed id (Ids.apply c) m (Ids.apply-id c) w

-- Whatever methods are called, in any order, the manager stays well-formed, as long as the counter
-- stays below the end of its range: every session is under its own key, every listed key is in
-- the map, in one list and once, and every active session is in its user's list.
pub run-WellFormed :
    (cs : List Call) (m : SessionManager)
    → WellFormed m
    → m.counter + length cs < 2 ^ 63
    → WellFormed (run cs m)
unfolding run
run-WellFormed [] m w h = w
run-WellFormed (c ∷ cs) m w h =
    run-WellFormed cs (apply c m) (apply-WellFormed m w c (omega arith))
      (omega (arith, counter-apply c m))

-- A manager with no file to start from is empty, and so well-formed.
pub new_session_manager-WellFormed : (d : Disk) → WellFormed (new_session_manager "" d)
unfolding new_session_manager
new_session_manager-WellFormed d = record {
  sessions_map = tt;
  keyed = λ k s h. absurd (cc (lookup_nil {V = Session} k));
  issued = λ k h. absurd (cc (lookup_nil {V = Session} k));
  listed = λ u k h. ground (arith, lookup_nil {V = List String} u, contains_nil k);
  owner = λ u v k hu hv. ground (arith, lookup_nil {V = List String} u, contains_nil k);
  distinct = λ u. rw (lookup_nil {V = List String} u) tt;
  active = λ u k h. absurd (cc (lookup_nil {V = String} u));
}
