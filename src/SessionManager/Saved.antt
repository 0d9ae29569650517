-- ===== src/SessionManager/Saved.antt =====
-- What `saveLocked` leaves as it was, and what `load` gives back (core/session.go).
use mathlib.Core.Option
use agent_in_chat_feishu.Shared.{
  ◌≡◌, String, ◌==◌, some, arith, if◌then◌else◌, Bool-cases, inl, inr, Option-cases,
}
use agent_in_chat_feishu.Shared.Dict.{lookup, has, lookup-update_all, IsMap, update_all-IsMap}
use agent_in_chat_feishu.Session.{Session, strip_continue_session_sentinel}
use agent_in_chat_feishu.SessionManager.Types.{SessionManager}
use agent_in_chat_feishu.SessionManager.Store.{save_locked}

-- What a save does to a session: it strips the sentinel, unless nothing is saved at all.
abbrev pub settled : String → Session → Session
settled store_path s = if store_path == "" then s else strip_continue_session_sentinel s

module _ (m : SessionManager) where
  pub lookup-save_locked :
      (k : String)
      → lookup k (save_locked m).sessions ≡ Option.map (settled m.store_path) (lookup k m.sessions)
  unfolding save_locked
  lookup-save_locked k = elim (Bool-cases (m.store_path == "")) [
    | inl e ↦ elim (Option-cases (lookup k m.sessions)) [
      | inl n ↦ ground arith
      | inr (s, n) ↦ ground arith
    ]
    | inr e ↦
        let visited =
          lookup-update_all {V = Session} (λ _. strip_continue_session_sentinel) k m.sessions in
        elim (Option-cases (lookup k m.sessions)) [
          | inl n ↦ ground arith
          | inr (s, n) ↦ ground arith
        ]
  ]

  pub has-save_locked : (k : String) → has k (save_locked m).sessions ≡ has k m.sessions
  has-save_locked k = elim (Option-cases (lookup k m.sessions)) [
    | inl n ↦ rw (lookup-save_locked k, n)
    | inr (s, n) ↦ rw (lookup-save_locked k, n)
  ]

  -- A session that is in the map after a save was there before, and has kept its ID.
  pub id-save_locked :
      (k : String) {s : Session}
      → lookup k (save_locked m).sessions ≡ some s
      → (t : Session) × (lookup k m.sessions ≡ some t) × (s.id ≡ t.id)
  unfolding strip_continue_session_sentinel
  id-save_locked k {s} h = elim (Option-cases (lookup k m.sessions)) [
    | inl n ↦ absurd (cc (lookup-save_locked k))
    | inr (t, n) ↦ (t, n, ground (arith, lookup-save_locked k))
  ]

  pub active-save_locked : (save_locked m).active_session ≡ m.active_session
  unfolding save_locked
  active-save_locked = ground arith

  pub user_sessions-save_locked : (save_locked m).user_sessions ≡ m.user_sessions
  unfolding save_locked
  user_sessions-save_locked = ground arith

  pub counter-save_locked : (save_locked m).counter ≡ m.counter
  unfolding save_locked
  counter-save_locked = ground arith

  pub names-save_locked : (save_locked m).session_names ≡ m.session_names
  unfolding save_locked
  names-save_locked = ground arith

  pub path-save_locked : (save_locked m).store_path ≡ m.store_path
  unfolding save_locked
  path-save_locked = ground arith

  pub sessions-save_locked-IsMap : IsMap m.sessions → IsMap (save_locked m).sessions
  unfolding save_locked
  sessions-save_locked-IsMap h = elim (Bool-cases (m.store_path == "")) [
    | inl e ↦ rw (e, save_locked) h
    | inr e ↦ rw (e, save_locked) (update_all-IsMap _ m.sessions h)
  ]
