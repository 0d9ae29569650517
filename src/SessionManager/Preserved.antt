-- ===== src/SessionManager/Preserved.antt =====
-- The methods of the SessionManager (core/session.go) and its invariant.
use agent_in_chat_feishu.Shared.{
  ◌≡◌, refl, sym, ap, ◌∙◌, Bool, true, ◌&&◌, List, [], ◌∷◌, String, eq_iff, eq_refl, none, some,
  arith, if◌then◌else◌, Bool-cases, inl, inr, Option-cases, contains,
}
use agent_in_chat_feishu.Shared.Dict.{
  Dict, lookup, delete, has, update_all, lookup-insert, insert-IsMap, lookup-delete,
  lookup-update_all, update_all-IsMap,
}
use agent_in_chat_feishu.Session.{Session}
use agent_in_chat_feishu.SessionManager.Types.{SessionManager, ids_of}
use agent_in_chat_feishu.SessionManager.Create.{set_active, find_session, on_session}
use agent_in_chat_feishu.SessionManager.Delete.{points_to, clear_active}
use agent_in_chat_feishu.SessionManager.Invariant.{WellFormed}

-- The search returns a session of the list, under its key, that passes the test.
pub find_session-found :
    (p : Session → Bool) (sessions : Dict Session) (ids : List String) {s : Session}
    → find_session p sessions ids ≡ some s
    → (k : String) × (contains ids k ≡ true) × (lookup k sessions ≡ some s) × (p s ≡ true)
unfolding find_session contains
find_session-found p sessions [] h = absurd (cc)
find_session-found p sessions (sid ∷ sids) {s} h = elim (Option-cases (lookup sid sessions)) [
  | inl n ↦
      let (k, listed, found, passes) = find_session-found p sessions sids (ground arith) in
      (k, ground arith, found, passes)
  | inr (t, n) ↦ elim (Bool-cases (p t)) [
    | inl hit ↦
        let e : t ≡ s = ground arith in
        (sid, ground (arith, eq_refl sid), n ∙ ap some e, ap p (sym e) ∙ hit)
    | inr miss ↦
        let (k, listed, found, passes) = find_session-found p sessions sids (ground arith) in
        (k, ground arith, found, passes)
  ]
]

pub set_active-WellFormed :
    (u id : String) (m : SessionManager)
    → contains (ids_of u m) id ≡ true
    → WellFormed m
    → WellFormed (set_active u id m)
set_active-WellFormed u id m c w = record {
  sessions_map = w.sessions_map;
  keyed = w.keyed;
  issued = w.issued;
  listed = w.listed;
  owner = w.owner;
  distinct = w.distinct;
  active = λ v k h. ground (arith, lookup-insert u v id m.active_session, eq_iff u v, w.active v k);
}

pub update_all-WellFormed :
    (f : Session → Session) (m : SessionManager)
    → ((s : Session) → (f s).id ≡ s.id)
    → WellFormed m
    → WellFormed (record m { sessions = update_all (λ k. f) m.sessions })
update_all-WellFormed f m same w = record {
  sessions_map = update_all-IsMap (λ k. f) m.sessions w.sessions_map;
  keyed = λ k s h. elim (Option-cases (lookup k m.sessions)) [
    | inl n ↦ absurd (cc (lookup-update_all {V = Session} (λ k. f) k m.sessions))
    | inr (t, n) ↦
        ap (λ (r : Session). r.id) {x = s} {y = f t}
          (ground (arith, lookup-update_all {V = Session} (λ k. f) k m.sessions))
        ∙ same t
        ∙ w.keyed k t n
  ];
  issued = λ k h. w.issued k (sym (kept k) ∙ h);
  listed = λ u k h. kept k ∙ w.listed u k h;
  owner = w.owner;
  distinct = w.distinct;
  active = w.active;
}
  where
    kept : (k : String) → has k (update_all (λ k. f) m.sessions) ≡ has k m.sessions
    kept k = elim (Option-cases (lookup k m.sessions)) [
      | inl n ↦ ground (arith, lookup-update_all {V = Session} (λ k. f) k m.sessions)
      | inr (t, n) ↦ ground (arith, lookup-update_all {V = Session} (λ k. f) k m.sessions)
    ]

pub on_session-WellFormed :
    (id : String) (f : Session → Session) (m : SessionManager)
    → ((s : Session) → (f s).id ≡ s.id)
    → WellFormed m
    → WellFormed (on_session id f m)
unfolding on_session
on_session-WellFormed id f m same w = elim (Option-cases (lookup id m.sessions)) [
  | inl n ↦ rw (n, on_session) w
  | inr (t, n) ↦
      rw (n, on_session)
        (record {
          sessions_map = insert-IsMap id (f t) m.sessions w.sessions_map;
          keyed = λ k s h. ground (
            arith,
            lookup-insert id k (f t) m.sessions,
            eq_iff id k,
            same t,
            w.keyed id t n,
            w.keyed k s,
          );
          issued =
              λ k h. w.issued k (ground (arith, lookup-insert id k (f t) m.sessions, eq_iff id k));
          listed = λ u k h.
              ground (arith, lookup-insert id k (f t) m.sessions, eq_iff id k, w.listed u k);
          owner = w.owner;
          distinct = w.distinct;
          active = w.active;
        })
]

-- The loop clears the active entry of every listed user that points to the deleted session.
pub lookup-clear_active :
    (id u : String) (users : Dict (List String)) (active : Dict String)
    → lookup u (clear_active id users active)
      ≡ (if has u users && points_to id (lookup u active) then none else lookup u active)
unfolding clear_active lookup
lookup-clear_active id u [] active = refl
lookup-clear_active id u ((v, ids) ∷ rest) active =
    elim (Bool-cases (points_to id (lookup v active))) [
      | inl hit ↦ ground (
        arith,
        lookup-clear_active id u rest (delete v active),
        lookup-delete v u active,
        eq_iff v u,
      )
      | inr miss ↦ ground (arith, lookup-clear_active id u rest active, eq_iff v u)
    ]
