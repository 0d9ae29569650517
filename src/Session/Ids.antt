-- ===== src/Session/Ids.antt =====
-- The agent session IDs of a Session (core/session.go): what the setters keep and lose.
use agent_in_chat_feishu.Shared.{
  ℕ, ◌≡◌, refl, inl, inr, Bool, true, false, ◌||◌, List, [], ◌∷◌, String, ◌==◌, eq_iff, arith,
  contains, contains-append, contains_cons, contains_nil, Distinct, snoc-Distinct, if◌then◌else◌,
  Bool-cases,
}
use agent_in_chat_feishu.Session.{
  Session, continue_session, is_real, try_lock, unlock, unlock_without_update, add_history,
  record_past_agent_session_id, record_replaced, set_agent_info, set_agent_session_id,
  compare_and_set_agent_session_id, strip_continue_session_sentinel, clear_history,
}

-- The methods of a session that change it, with their arguments.
pub data Call : Type 0 where
  locks : Call
  unlocks unlocks_without_update : ℕ → Call
  adds_history : String → String → ℕ → Call
  sets_agent_info : String → String → String → Call
  sets_agent_session_id compares_and_sets : String → String → Call
  strips clears : Call

unfoldable pub apply : Call → Session → Session
apply locks s = (try_lock s).0
apply (unlocks now) s = unlock now s
apply (unlocks_without_update now) s = unlock_without_update now s
apply (adds_history role content now) s = add_history role content now s
apply (sets_agent_info id ty name) s = set_agent_info id ty name s
apply (sets_agent_session_id id ty) s = set_agent_session_id id ty s
apply (compares_and_sets id ty) s = (compare_and_set_agent_session_id id ty s).0
apply strips s = strip_continue_session_sentinel s
apply clears s = clear_history s

unfoldable pub run : List Call → Session → Session
run [] s = s
run (c ∷ cs) s = run cs (apply c s)

-- The session still knows the ID: it is the current one or a past one.
abbrev pub knows : String → Session → Bool
knows i s = s.agent_session_id == i || contains s.past_agent_session_ids i

pub knows-record_past :
    (i : String) (s : Session)
    → is_real i ≡ true
    → knows i s ≡ true
    → contains (record_past_agent_session_id s).past_agent_session_ids i ≡ true
unfolding record_past_agent_session_id
knows-record_past i s r h = ground (
  arith,
  eq_iff s.agent_session_id i,
  eq_iff s.agent_session_id "",
  eq_iff s.agent_session_id continue_session,
  eq_iff i "",
  eq_iff i continue_session,
  contains-append s.past_agent_session_ids (s.agent_session_id ∷ []) i,
  contains_cons s.agent_session_id [] i,
)

knows-record_replaced :
    (new i : String) (s : Session)
    → is_real i ≡ true
    → knows i s ≡ true
    → (new == i || contains (record_replaced new s).past_agent_session_ids i) ≡ true
unfolding record_replaced
knows-record_replaced new i s r h = ground (
  arith,
  eq_iff s.agent_session_id i,
  eq_iff s.agent_session_id new,
  eq_iff new i,
  knows-record_past i s r h,
)

knows-apply :
    (c : Call) (i : String) (s : Session)
    → is_real i ≡ true
    → knows i s ≡ true
    → knows i (apply c s) ≡ true
unfolding apply
knows-apply locks i s r h = unfold try_lock in ground arith
knows-apply (unlocks now) i s r h = unfold unlock in h
knows-apply (unlocks_without_update now) i s r h = unfold unlock_without_update in h
knows-apply (adds_history role content now) i s r h = unfold add_history in h
knows-apply (sets_agent_info id ty name) i s r h =
    unfold set_agent_info in
    knows-record_replaced (if id == continue_session then "" else id) i s r h
knows-apply (sets_agent_session_id id ty) i s r h =
    unfold set_agent_session_id in ground (arith, knows-record_replaced id i s r h)
knows-apply (compares_and_sets id ty) i s r h =
    unfold compare_and_set_agent_session_id in
    ground (
      arith,
      eq_iff s.agent_session_id "",
      eq_iff s.agent_session_id continue_session,
      eq_iff s.agent_session_id i,
      eq_iff i "",
      eq_iff i continue_session,
    )
knows-apply strips i s r h =
    unfold strip_continue_session_sentinel in
    ground (
      arith,
      eq_iff s.agent_session_id continue_session,
      eq_iff s.agent_session_id i,
      eq_iff i continue_session,
    )
knows-apply clears i s r h = unfold clear_history in h

-- No sequence of methods loses an agent session ID: one that is neither empty nor the sentinel,
-- and that the session knows, is known ever after, as the current ID or a past one.
pub knows-run :
    (cs : List Call) (i : String) (s : Session)
    → is_real i ≡ true
    → knows i s ≡ true
    → knows i (run cs s) ≡ true
unfolding run
knows-run [] i s r h = h
knows-run (c ∷ cs) i s r h = knows-run cs i (apply c s) r (knows-apply c i s r h)

-- What holds of the IDs of a session that has only seen the methods.
pub record IdsAreClean (s : Session) : Type 0 where
  pub distinct : Distinct s.past_agent_session_ids
  pub no_sentinel : (s.agent_session_id == continue_session) ≡ false
  pub no_past_sentinel : contains s.past_agent_session_ids continue_session ≡ false
  pub no_past_empty : contains s.past_agent_session_ids "" ≡ false

pub record_past-IdsAreClean :
    (s : Session) → IdsAreClean s → IdsAreClean (record_past_agent_session_id s)
unfolding record_past_agent_session_id
record_past-IdsAreClean s c = ground (
  arith,
  snoc-Distinct s.past_agent_session_ids s.agent_session_id c.distinct,
  contains-append s.past_agent_session_ids (s.agent_session_id ∷ []) continue_session,
  contains-append s.past_agent_session_ids (s.agent_session_id ∷ []) "",
  contains_cons s.agent_session_id [] continue_session,
  contains_cons s.agent_session_id [] "",
  contains_nil continue_session,
  contains_nil "",
)

record_replaced-IdsAreClean :
    (new : String) (s : Session) → IdsAreClean s → IdsAreClean (record_replaced new s)
unfolding record_replaced
record_replaced-IdsAreClean new s c = ground (arith, record_past-IdsAreClean s c)

replace-IdsAreClean :
    (new ty : String) (s : Session)
    → IdsAreClean s
    → (new == continue_session) ≡ false
    → IdsAreClean (record (record_replaced new s) { agent_session_id = new; agent_type = ty })
replace-IdsAreClean new ty s c h =
    let r = record_replaced-IdsAreClean new s c in
    record {
      distinct = r.distinct;
      no_sentinel = h;
      no_past_sentinel = r.no_past_sentinel;
      no_past_empty = r.no_past_empty;
    }

new_not_sentinel :
    (id : String) → ((if id == continue_session then "" else id) == continue_session) ≡ false
new_not_sentinel id = elim (Bool-cases (id == continue_session)) [ inl e ↦ rw e | inr e ↦ rw e e ]

apply-IdsAreClean : (c : Call) (s : Session) → IdsAreClean s → IdsAreClean (apply c s)
unfolding apply
apply-IdsAreClean locks s h = unfold try_lock in ground arith
apply-IdsAreClean (unlocks now) s h = unfold unlock in ground arith
apply-IdsAreClean (unlocks_without_update now) s h = unfold unlock_without_update in ground arith
apply-IdsAreClean (adds_history role content now) s h = unfold add_history in ground arith
apply-IdsAreClean (sets_agent_info id ty name) s h =
    unfold set_agent_info in
    let new = if id == continue_session then "" else id in
    let r = replace-IdsAreClean new ty s h (new_not_sentinel id) in
    record {
      distinct = r.distinct;
      no_sentinel = r.no_sentinel;
      no_past_sentinel = r.no_past_sentinel;
      no_past_empty = r.no_past_empty;
    }
apply-IdsAreClean (sets_agent_session_id id ty) s h =
    unfold set_agent_session_id in ground (arith, replace-IdsAreClean id ty s h)
apply-IdsAreClean (compares_and_sets id ty) s h =
    unfold compare_and_set_agent_session_id in ground arith
apply-IdsAreClean strips s h = unfold strip_continue_session_sentinel in ground arith
apply-IdsAreClean clears s h = unfold clear_history in ground arith

-- Every sequence of methods keeps the past IDs without repetitions, free of the empty ID and of
-- the sentinel, and keeps the sentinel out of the current ID.
pub run-IdsAreClean : (cs : List Call) (s : Session) → IdsAreClean s → IdsAreClean (run cs s)
unfolding run
run-IdsAreClean [] s h = h
run-IdsAreClean (c ∷ cs) s h = run-IdsAreClean cs (apply c s) (apply-IdsAreClean c s h)

record_replaced-id : (new : String) (s : Session) → (record_replaced new s).id ≡ s.id
unfolding record_replaced record_past_agent_session_id
record_replaced-id new s = ground arith

-- No method changes the key of the session.
pub apply-id : (c : Call) (s : Session) → (apply c s).id ≡ s.id
unfolding apply
apply-id locks s = unfold try_lock in ground arith
apply-id (unlocks now) s = unfold unlock in refl
apply-id (unlocks_without_update now) s = unfold unlock_without_update in refl
apply-id (adds_history role content now) s = unfold add_history in refl
apply-id (sets_agent_info id ty name) s =
    unfold set_agent_info record_replaced record_past_agent_session_id in
    record_replaced-id (if id == continue_session then "" else id) s
apply-id (sets_agent_session_id id ty) s =
    unfold set_agent_session_id in ground (arith, record_replaced-id id s)
apply-id (compares_and_sets id ty) s = unfold compare_and_set_agent_session_id in ground arith
apply-id strips s = unfold strip_continue_session_sentinel in ground arith
apply-id clears s = unfold clear_history in refl
