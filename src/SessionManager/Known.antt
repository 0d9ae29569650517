-- ===== src/SessionManager/Known.antt =====
-- The agent session IDs that the manager knows (core/session.go): what the known set holds.
use agent_in_chat_feishu.Shared.{
  ◌≡◌, Bool, true, false, not, ◌||◌, ◌&&◌, List, [], ◌∷◌, String, ◌==◌, eq_iff, eq_refl, some,
  arith, Bool-cases, inl, inr, contains, contains-append, contains_cons, contains_nil,
}
use agent_in_chat_feishu.Shared.Dict.{Dict, lookup, IsMap}
use agent_in_chat_feishu.Session.{Session}
use agent_in_chat_feishu.SessionManager.Types.{SessionManager}
use agent_in_chat_feishu.SessionManager.Query.{
  collect_session_agent_ids, collect_all, all_sessions, known_agent_session_ids,
}

-- The session has the ID, as its current one or a past one. An empty current ID does not count.
abbrev pub tracks : String → Session → Bool
tracks i s =
    (not (s.agent_session_id == "") && s.agent_session_id == i)
    || contains s.past_agent_session_ids i

abbrev pub any_tracks : String → List Session → Bool
any_tracks i [] = false
any_tracks i (s ∷ ss) = tracks i s || any_tracks i ss

contains-collect_session :
    (i : String) (ids : List String) (s : Session)
    → contains (collect_session_agent_ids ids s) i ≡ (contains ids i || tracks i s)
unfolding collect_session_agent_ids
contains-collect_session i ids s = elim (Bool-cases (s.agent_session_id == "")) [
  | inl e ↦ ground (arith, contains-append ids s.past_agent_session_ids i)
  | inr e ↦ ground (
    arith,
    contains-append (s.agent_session_id ∷ ids) s.past_agent_session_ids i,
    contains_cons s.agent_session_id ids i,
  )
]

contains-collect_all :
    (i : String) (ids : List String) (ss : List Session)
    → contains (collect_all ids ss) i ≡ (contains ids i || any_tracks i ss)
unfolding collect_all
contains-collect_all i ids [] = ground arith
contains-collect_all i ids (s ∷ ss) = ground (
  arith,
  contains-collect_all i (collect_session_agent_ids ids s) ss,
  contains-collect_session i ids s,
)

any_tracks-lookup :
    (i k : String) (s : Session) (d : Dict Session)
    → lookup k d ≡ some s
    → tracks i s ≡ true
    → any_tracks i (all_sessions d) ≡ true
unfolding lookup all_sessions
any_tracks-lookup i k s [] e t = absurd (cc)
any_tracks-lookup i k s ((j, r) ∷ d) e t = ground (arith, eq_iff j k, any_tracks-lookup i k s d)

lookup_of_tracks :
    (i : String) (d : Dict Session)
    → IsMap d
    → any_tracks i (all_sessions d) ≡ true
    → (k : String) × (s : Session) × (lookup k d ≡ some s) × (tracks i s ≡ true)
unfolding lookup all_sessions
lookup_of_tracks i [] h e = absurd (cc)
lookup_of_tracks i ((j, r) ∷ d) h e = elim (Bool-cases (tracks i r)) [
  | inl t ↦ (j, r, ground (arith, eq_refl j), t)
  | inr f ↦
      let (k, s, found, t) = lookup_of_tracks i d h.1 (ground arith) in
      (k, s, ground (arith, eq_iff j k), t)
]

-- While old data is migrated the set is not given. After that it holds exactly the IDs that some
-- session of the map has, as its current one (if that is not empty) or a past one.
pub known_agent_session_ids-exact :
    (i : String) (m : SessionManager)
    → IsMap m.sessions
    → m.legacy_data ≡ false
    → (ids : List String) × (known_agent_session_ids m ≡ some ids)
      × ((contains ids i ≡ true
            → (k : String) × (s : Session) × (lookup k m.sessions ≡ some s) × (tracks i s ≡ true))
          × ((k : String) (s : Session)
              → lookup k m.sessions ≡ some s
              → tracks i s ≡ true
              → contains ids i ≡ true))
unfolding known_agent_session_ids
known_agent_session_ids-exact i m h e = (
  collect_all [] (all_sessions m.sessions),
  ground arith,
  (
    λ c.
        lookup_of_tracks i m.sessions h
          (ground (arith, contains-collect_all i [] (all_sessions m.sessions), contains_nil i)),
    λ k s found t. ground (
      arith,
      contains-collect_all i [] (all_sessions m.sessions),
      any_tracks-lookup i k s m.sessions,
    ),
  ),
)
