-- ===== src/SessionManager/AgentDelete.antt =====
-- Deleting by agent session ID (core/session.go).
use agent_in_chat_feishu.Shared.{
  ℕ, suc, ◌+◌, ◌≡◌, refl, ◌≢◌, Bool, true, false, not, [], ◌∷◌, String, ◌==◌, eq_iff, Option, none,
  some, arith, if◌then◌else◌, Bool-cases, inl, inr, Option-cases, ltb, is_some,
}
use agent_in_chat_feishu.Shared.Dict.{Dict, lookup, has, IsMap, keep_if}
use agent_in_chat_feishu.Session.{Session}
use agent_in_chat_feishu.SessionManager.Types.{SessionManager}
use agent_in_chat_feishu.SessionManager.Store.{save_locked}
use agent_in_chat_feishu.SessionManager.Saved.{has-save_locked}
use agent_in_chat_feishu.SessionManager.Delete.{
  delete_by_id_locked, delete_matching, delete_by_agent_session_id,
}
use agent_in_chat_feishu.SessionManager.Deletion.{lookup-delete_by_id}

abbrev pub is_of : String → Session → Bool
is_of agent s = s.agent_session_id == agent

abbrev pub count_of : String → Dict Session → ℕ
count_of agent [] = 0
count_of agent ((k, s) ∷ d) =
    let rest = count_of agent d in if is_of agent s then suc rest else rest

-- The entry of the key is one that the loop deletes.
abbrev doomed : String → Option Session → Bool
doomed agent none = false
doomed agent (some s) = is_of agent s

lookup-delete_matching :
    (agent k : String) (entries : Dict Session) (n : ℕ) (m : SessionManager)
    → IsMap entries
    → lookup k (delete_matching agent entries n m).0.sessions
      ≡ (if doomed agent (lookup k entries) then none else lookup k m.sessions)
unfolding delete_matching lookup
lookup-delete_matching agent k [] n m h = refl
lookup-delete_matching agent k ((id, s) ∷ rest) n m h = elim (Bool-cases (is_of agent s)) [
  | inl hit ↦ ground (
    arith,
    lookup-delete_matching agent k rest (suc n) (delete_by_id_locked id m) h.1,
    lookup-delete_by_id id m k,
    eq_iff id k,
  )
  | inr miss ↦ ground (arith, lookup-delete_matching agent k rest n m h.1, eq_iff id k)
]

count-delete_matching :
    (agent : String) (entries : Dict Session) (n : ℕ) (m : SessionManager)
    → (delete_matching agent entries n m).1 ≡ n + count_of agent entries
unfolding delete_matching
count-delete_matching agent [] n m = omega arith
count-delete_matching agent ((id, s) ∷ rest) n m = elim (Bool-cases (is_of agent s)) [
  | inl hit ↦ ground (arith, count-delete_matching agent rest (suc n) (delete_by_id_locked id m))
  | inr miss ↦ ground (arith, count-delete_matching agent rest n m)
]

has_saved_if :
    (b : Bool) (k : String) (m : SessionManager)
    → has k (if b then save_locked m else m).sessions ≡ has k m.sessions
has_saved_if true k m = has-save_locked m k
has_saved_if false k m = refl

-- Deleting by an agent session ID removes exactly the sessions that have it as their current ID,
-- and returns how many those are.
pub delete_by_agent_session_id-exact :
    (agent : String) (m : SessionManager)
    → IsMap m.sessions
    → agent ≢ ""
    → ((delete_by_agent_session_id agent m).1 ≡ count_of agent m.sessions)
      × ((k : String)
          → has k (delete_by_agent_session_id agent m).0.sessions
            ≡ is_some (keep_if (λ s. not (is_of agent s)) (lookup k m.sessions)))
unfolding delete_by_agent_session_id
delete_by_agent_session_id-exact agent m h ne =
    let (m', removed) = delete_matching agent m.sessions 0 m in
    (
      ground (arith, eq_iff agent "", count-delete_matching agent m.sessions 0 m),
      λ k. elim (Option-cases (lookup k m.sessions)) [
        | inl n ↦ ground (
          arith,
          eq_iff agent "",
          has_saved_if (ltb 0 removed) k m',
          lookup-delete_matching agent k m.sessions 0 m h,
        )
        | inr (s, n) ↦ ground (
          arith,
          eq_iff agent "",
          has_saved_if (ltb 0 removed) k m',
          lookup-delete_matching agent k m.sessions 0 m h,
        )
      ],
    )
