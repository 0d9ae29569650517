-- ===== src/SessionManager/Invariant.antt =====
-- What holds of the SessionManager of core/session.go between two of its methods.
use text.Mathlib.TextLemmas.{append_cancel_left}
use agent_in_chat_feishu.Shared.{
  ℕ, ◌+◌, ◌^◌, ◌≤◌, ◌<◌, ◌≡◌, refl, sym, ◌∙◌, true, false, ◌||◌, ◌&&◌, [], ◌∷◌, ◌++◌, String, ◌==◌,
  eq_iff, some, arith, if◌then◌else◌, Bool-cases, inl, inr, contains, Distinct, contains-append,
  contains_cons, contains_nil, snoc-Distinct, decimal, decimal_inj, lt→ltb,
}
use agent_in_chat_feishu.Shared.Dict.{lookup, has, IsMap, lookup-insert, insert-IsMap}
use agent_in_chat_feishu.Session.{Session}
use agent_in_chat_feishu.SessionManager.Types.{
  SessionManager, ids_of, session_id, next_counter, decimal_int64,
}
use agent_in_chat_feishu.SessionManager.Store.{save_locked}
use agent_in_chat_feishu.SessionManager.Create.{register, new_session_of}
use agent_in_chat_feishu.SessionManager.Saved.{
  has-save_locked, id-save_locked, active-save_locked, user_sessions-save_locked,
  counter-save_locked, sessions-save_locked-IsMap,
}

-- The counter, an int64, has issued the key.
abbrev pub Issued : ℕ → String → Type 0
Issued c k = (n : ℕ) × (n ≤ c) × (k ≡ session_id n)

pub record WellFormed (m : SessionManager) : Type 0 where
  pub sessions_map : IsMap m.sessions
  pub keyed : (k : String) (s : Session) → lookup k m.sessions ≡ some s → s.id ≡ k
  pub issued : (k : String) → has k m.sessions ≡ true → Issued m.counter k
  pub listed : (u k : String) → contains (ids_of u m) k ≡ true → has k m.sessions ≡ true
  pub owner :
      (u v k : String) → contains (ids_of u m) k ≡ true → contains (ids_of v m) k ≡ true → u ≡ v
  pub distinct : (u : String) → Distinct (ids_of u m)
  pub active : (u k : String) → lookup u m.active_session ≡ some k → contains (ids_of u m) k ≡ true

decimal_int64-eq : (n : ℕ) → n < 2 ^ 63 → decimal n ≡ decimal_int64 n
unfolding decimal_int64
decimal_int64-eq n h = rw (lt→ltb n (2 ^ 63) h)

session_id_inj : (n k : ℕ) → n < 2 ^ 63 → k < 2 ^ 63 → session_id n ≡ session_id k → n ≡ k
unfolding session_id
session_id_inj n k hn hk e =
    decimal_inj n k (decimal_int64-eq n hn ∙ same ∙ sym (decimal_int64-eq k hk))
  where
    same : decimal_int64 n ≡ decimal_int64 k
    same = append_cancel_left "s" (decimal_int64 n) (decimal_int64 k) e

-- Before the counter reaches the end of its range, the next key is not in the map.
pub next-fresh :
    (m : SessionManager)
    → WellFormed m
    → m.counter + 1 < 2 ^ 63
    → has (session_id (next_counter m.counter)) m.sessions ≡ false
unfolding next_counter
next-fresh m w h = elim (Bool-cases (has (session_id (next_counter m.counter)) m.sessions)) [
  | inl taken ↦
      let (n, le, e) = w.issued _ taken in
      absurd
        (omega (arith, session_id_inj (next_counter m.counter) n (omega arith) (omega arith) e))
  | inr free ↦ free
]

pub save_locked-WellFormed : (m : SessionManager) → WellFormed m → WellFormed (save_locked m)
save_locked-WellFormed m w = record {
  sessions_map = sessions-save_locked-IsMap m w.sessions_map;
  keyed = λ k s h. let (t, before, same) = id-save_locked m k h in same ∙ w.keyed k t before;
  issued = λ k h. rw (counter-save_locked m) (w.issued k (sym (has-save_locked m k) ∙ h));
  listed = λ u k h. has-save_locked m k ∙ w.listed u k (rw (user_sessions-save_locked m) at h);
  owner = λ u v k hu hv.
      w.owner u v k (rw (user_sessions-save_locked m) at hu)
        (rw (user_sessions-save_locked m) at hv);
  distinct = λ u. rw (user_sessions-save_locked m) (w.distinct u);
  active =
      λ u k h. rw (user_sessions-save_locked m) (w.active u k (rw (active-save_locked m) at h));
}

-- Registering a session under the next key.
module _ (user_key name : String) (now : ℕ) (m : SessionManager) where
  abbrev pub new_id : String
  new_id = session_id (next_counter m.counter)

  ids_of-register :
      (u : String)
      → ids_of u (register user_key name now m).0
        ≡ (if user_key == u then ids_of user_key m ++ new_id ∷ [] else ids_of u m)
  unfolding register
  ids_of-register u =
      ground (arith, lookup-insert user_key u (ids_of user_key m ++ new_id ∷ []) m.user_sessions)

  pub contains-register :
      (u k : String)
      → contains (ids_of u (register user_key name now m).0) k
        ≡ (contains (ids_of u m) k || (user_key == u && new_id == k))
  contains-register u k = ground (
    arith,
    ids_of-register u,
    eq_iff user_key u,
    contains-append (ids_of user_key m) (new_id ∷ []) k,
    contains_cons new_id [] k,
    contains_nil k,
  )

  pub has-register :
      (k : String)
      → has k (register user_key name now m).0.sessions ≡ (new_id == k || has k m.sessions)
  unfolding register
  has-register k =
      ground (arith, lookup-insert new_id k (new_session_of new_id name now) m.sessions)

  pub counter-register : (register user_key name now m).0.counter ≡ next_counter m.counter
  unfolding register
  counter-register = refl

  pub active-register : (register user_key name now m).0.active_session ≡ m.active_session
  unfolding register
  active-register = refl

  module _ (w : WellFormed m) (h : m.counter + 1 < 2 ^ 63) where
    new_id-unlisted : (u : String) → contains (ids_of u m) new_id ≡ false
    new_id-unlisted u = elim (Bool-cases (contains (ids_of u m) new_id)) [
      | inl e ↦ cc (w.listed u new_id e, next-fresh m w h)
      | inr e ↦ e
    ]

    register-keyed :
        (k : String) (s : Session)
        → lookup k (register user_key name now m).0.sessions ≡ some s
        → s.id ≡ k
    unfolding register
    register-keyed k s e = ground (
      arith,
      lookup-insert new_id k (new_session_of new_id name now) m.sessions,
      eq_iff new_id k,
      w.keyed k s,
    )

    register-Issued :
        (k : String)
        → has k (register user_key name now m).0.sessions ≡ true
        → Issued (next_counter m.counter) k
    unfolding next_counter
    register-Issued k e = elim (Bool-cases (new_id == k)) [
      | inl new ↦ (next_counter m.counter, omega arith, sym ((eq_iff new_id k).0 new))
      | inr old ↦
          let (n, le, same) = w.issued k (ground (arith, has-register k)) in (n, omega arith, same)
    ]

    register-owner :
        (u v k : String)
        → contains (ids_of u (register user_key name now m).0) k ≡ true
        → contains (ids_of v (register user_key name now m).0) k ≡ true
        → u ≡ v
    register-owner u v k hu hv = ground (
      arith,
      contains-register u k,
      contains-register v k,
      eq_iff user_key u,
      eq_iff user_key v,
      eq_iff new_id k,
      new_id-unlisted u,
      new_id-unlisted v,
      w.owner u v k,
    )

    register-Distinct : (u : String) → Distinct (ids_of u (register user_key name now m).0)
    register-Distinct u = elim (Bool-cases (user_key == u)) [
      | inl same ↦
          rw (ids_of-register u, same)
            (snoc-Distinct (ids_of user_key m) new_id (w.distinct user_key)
              (new_id-unlisted user_key))
      | inr other ↦ rw (ids_of-register u, other) (w.distinct u)
    ]

    pub register-WellFormed : WellFormed (register user_key name now m).0
    register-WellFormed = record {
      sessions_map = unfold register in insert-IsMap new_id _ m.sessions w.sessions_map;
      keyed = register-keyed;
      issued = λ k e. rw counter-register (register-Issued k e);
      listed = λ u k e. ground (arith, contains-register u k, has-register k, w.listed u k);
      owner = register-owner;
      distinct = register-Distinct;
      active =
          λ u k e. ground (arith, contains-register u k, w.active u k (rw active-register at e));
    }
