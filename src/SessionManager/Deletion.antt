-- ===== src/SessionManager/Deletion.antt =====
-- Deleting sessions from the SessionManager (core/session.go).
use agent_in_chat_feishu.Shared.{
  ◌≡◌, refl, ap, ◌∙◌, true, false, not, ◌&&◌, List, String, ◌==◌, eq_iff, none, some, arith,
  if◌then◌else◌, Bool-cases, inl, inr, Option-cases, contains, contains_nil, remove_first,
  contains-remove_first, remove_first-Distinct,
}
use agent_in_chat_feishu.Shared.Dict.{
  Dict, lookup, has, lookup-delete, delete-IsMap, lookup-update_all,
}
use agent_in_chat_feishu.SessionManager.Types.{SessionManager, ids_of, or_empty}
use agent_in_chat_feishu.SessionManager.Saved.{
  has-save_locked, active-save_locked, user_sessions-save_locked,
}
use agent_in_chat_feishu.SessionManager.Delete.{points_to, delete_by_id_locked, delete_by_id}
use agent_in_chat_feishu.SessionManager.Invariant.{WellFormed, save_locked-WellFormed}
use agent_in_chat_feishu.SessionManager.Preserved.{lookup-clear_active}

module _ (id : String) (m : SessionManager) where
  ids_of-delete : (u : String) → ids_of u (delete_by_id_locked id m) ≡ remove_first id (ids_of u m)
  unfolding delete_by_id_locked remove_first
  ids_of-delete u =
      ground (arith, lookup-update_all {V = List String} (λ k. remove_first id) u m.user_sessions)

  pub lookup-delete_by_id :
      (k : String)
      → lookup k (delete_by_id_locked id m).sessions
        ≡ (if id == k then none else lookup k m.sessions)
  unfolding delete_by_id_locked
  lookup-delete_by_id k = lookup-delete id k m.sessions

  active-delete :
      (u : String)
      → lookup u (delete_by_id_locked id m).active_session ≡ (
          if has u m.user_sessions && points_to id (lookup u m.active_session)
          then none
          else lookup u m.active_session)
  unfolding delete_by_id_locked
  active-delete u = lookup-clear_active id u m.user_sessions m.active_session

  counter-delete : (delete_by_id_locked id m).counter ≡ m.counter
  unfolding delete_by_id_locked
  counter-delete = refl

  module _ (w : WellFormed m) where
    listed-delete :
        (u k : String)
        → contains (ids_of u (delete_by_id_locked id m)) k
          ≡ (if id == k then false else contains (ids_of u m) k)
    listed-delete u k =
        ap (λ (l : List String). contains l k) (ids_of-delete u)
        ∙ contains-remove_first id k (ids_of u m) (w.distinct u)

    -- A user with an active session has a list of sessions.
    has_list : (u k : String) → lookup u m.active_session ≡ some k → has u m.user_sessions ≡ true
    has_list u k h = ground (arith, w.active u k, contains_nil k)

    active-delete_eq :
        (u : String)
        → lookup u (delete_by_id_locked id m).active_session
          ≡ (if points_to id (lookup u m.active_session) then none else lookup u m.active_session)
    active-delete_eq u = elim (Option-cases (lookup u m.active_session)) [
      | inl n ↦ ground (arith, active-delete u)
      | inr (k, e) ↦ ground (arith, active-delete u, has_list u k e)
    ]

    pub delete_by_id_locked-WellFormed : WellFormed (delete_by_id_locked id m)
    delete_by_id_locked-WellFormed = record {
      sessions_map = unfold delete_by_id_locked in delete-IsMap id m.sessions w.sessions_map;
      keyed = λ k s h. ground (arith, lookup-delete_by_id k, w.keyed k s);
      issued = λ k h.
          let (n, le, e) = w.issued k (ground (arith, lookup-delete_by_id k)) in
          (n, rw counter-delete le, e);
      listed = λ u k h. ground (arith, lookup-delete_by_id k, listed-delete u k, w.listed u k);
      owner = λ u v k hu hv. ground (arith, listed-delete u k, listed-delete v k, w.owner u v k);
      distinct = λ u. rw (ids_of-delete u) (remove_first-Distinct id (ids_of u m) (w.distinct u));
      active = λ u k h.
          ground
            (arith, active-delete_eq u, listed-delete u k, w.active u k, eq_iff id k, eq_iff k id);
    }

    -- Deleting a session that is there removes it from the map, from the list of every user and
    -- from every active entry; every other session stays in the map and in the lists, and every
    -- active entry that does not point to it stays.
    pub delete_by_id-removes :
        has id m.sessions ≡ true
        → let m' = (delete_by_id id m).0 in
          ((delete_by_id id m).1 ≡ true)
          × ((k : String) → has k m'.sessions ≡ (not (id == k) && has k m.sessions))
          × ((u k : String) → contains (ids_of u m') k ≡ (not (id == k) && contains (ids_of u m) k))
          × ((u : String)
              → lookup u m'.active_session ≡ (
                  if points_to id (lookup u m.active_session)
                  then none
                  else lookup u m.active_session))
    unfolding delete_by_id
    delete_by_id-removes h =
        let d = delete_by_id_locked id m in
        rw (h, delete_by_id)
          (
            refl,
            λ k. has-save_locked d k ∙ ground (arith, lookup-delete_by_id k),
            λ u k. ground (
              arith,
              ap (λ (us : Dict (List String)). contains (or_empty (lookup u us)) k)
                  (user_sessions-save_locked d),
              listed-delete u k,
            ),
            λ u. ap (lookup u) (active-save_locked d) ∙ active-delete_eq u,
          )

  pub delete_by_id-WellFormed : WellFormed m → WellFormed (delete_by_id id m).0
  unfolding delete_by_id
  delete_by_id-WellFormed w = elim (Bool-cases (has id m.sessions)) [
    | inl e ↦
        rw (e, delete_by_id)
          (save_locked-WellFormed (delete_by_id_locked id m) (delete_by_id_locked-WellFormed w))
    | inr e ↦ rw (e, delete_by_id) w
  ]
