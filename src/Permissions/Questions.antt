-- ===== src/Permissions/Questions.antt =====
-- The replies to the questions of one request (core/engine.go, `handlePendingPermission`).
use agent_in_chat_feishu.Unicode.{Unicode}
use agent_in_chat_feishu.Shared.{
  ℕ, suc, ◌<◌, ◌+◌, ◌≡◌, refl, sym, subst, Bool, true, false, String, Option, none, some, List, [],
  ◌∷◌, ◌++◌, append_assoc, arith, ltb, length, length-append, get_elem?,
}
use agent_in_chat_feishu.Permissions.{
  PendingPermission, PermissionResult, UserQuestion, Reply, Conversation, respond, answer_question,
  handle_pending_permission, set_answer, resolve_ask_question_answer, build_ask_question_response,
}
use agent_in_chat_feishu.Permissions.Decisions.{Answered}

-- Replies one after the other, with whether the agent takes a response.
unfoldable pub handle_all : Unicode → List String → Bool → Conversation → Option Conversation
handle_all u [] fails c = some c
handle_all u (content ∷ contents) fails c = elim (handle_pending_permission u content fails c) [
  | none ↦ none
  | some (d, taken) ↦ handle_all u contents fails d
]

-- The answer that each reply gives to its question, by the question's index.
unfoldable pub answers_from : Unicode → ℕ → List UserQuestion → List String → List (ℕ × String)
answers_from u i (q ∷ qs) (content ∷ contents) =
    (i, resolve_ask_question_answer u q content) ∷ answers_from u (suc i) qs contents
answers_from u i _ _ = []

-- Every index is below a bound.
abbrev AllBelow : ℕ → List (ℕ × String) → Type 0
AllBelow n [] = Unit {0}
AllBelow n ((i, a) ∷ rest) = (i < n) × AllBelow n rest

set_answer_fresh :
    (i : ℕ) (a : String) (xs : List (ℕ × String))
    → AllBelow i xs
    → set_answer i a xs ≡ xs ++ (i, a) ∷ []
unfolding set_answer
set_answer_fresh i a [] h = refl
set_answer_fresh i a ((j, b) ∷ xs) h = ground (arith, set_answer_fresh i a xs h.1)

snoc-AllBelow :
    (i : ℕ) (a : String) (xs : List (ℕ × String))
    → AllBelow i xs
    → AllBelow (suc i) (xs ++ (i, a) ∷ [])
snoc-AllBelow i a [] h = (omega arith, tt)
snoc-AllBelow i a ((j, b) ∷ xs) h = (omega (arith, h.0), snoc-AllBelow i a xs h.1)

get_elem?-length :
    (qs : List UserQuestion) (q : UserQuestion) (rest : List UserQuestion)
    → get_elem? (qs ++ q ∷ rest) (length qs) ≡ some q
get_elem?-length [] q rest = refl
get_elem?-length (x ∷ qs) q rest = get_elem?-length qs q rest

-- The request after the questions before the current one.
abbrev asking : PendingPermission → List (ℕ × String) → ℕ → PendingPermission
asking p collected i = record p { collected = collected; current_question = i }

module _ (u : Unicode) (fails : Bool) where
  -- The answers with that to the current question.
  abbrev with_answer : PendingPermission → UserQuestion → String → List (ℕ × String)
  with_answer p q content =
      set_answer p.current_question (resolve_ask_question_answer u q content) p.collected

  abbrev next_question : PendingPermission → UserQuestion → String → PendingPermission
  next_question p q content = asking p (with_answer p q content) (p.current_question + 1)

  one_more :
      (c : Conversation) (p : PendingPermission) (q : UserQuestion) (content : String)
      → c.pending ≡ some p
      → get_elem? p.questions p.current_question ≡ some q
      → p.current_question + 1 < length p.questions
      → handle_pending_permission u content fails c
        ≡ some (
          record c {
            pending = some (next_question p q content);
            replies = c.replies ++ Reply.answered ∷ [];
          },
          true,
        )
  unfolding handle_pending_permission answer_question
  one_more c p q content h e l =
      let some_asked : ltb 0 (length p.questions) ≡ true = ground arith in
      let more : ltb (p.current_question + 1) (length p.questions) ≡ true = ground arith in
      rw (h, some_asked, e, more) refl

  the_last :
      (c : Conversation) (p : PendingPermission) (q : UserQuestion) (content : String)
      → c.pending ≡ some p
      → get_elem? p.questions p.current_question ≡ some q
      → p.current_question + 1 ≡ length p.questions
      → handle_pending_permission u content fails c
        ≡ some (
          respond p
              (PermissionResult.allow
                (build_ask_question_response p.tool_input (with_answer p q content)))
              fails
              Reply.answered
              Reply.error
              c,
          true,
        )
  unfolding handle_pending_permission answer_question
  the_last c p q content h e l =
      let some_asked : ltb 0 (length p.questions) ≡ true = ground arith in
      let last : ltb (p.current_question + 1) (length p.questions) ≡ false = ground arith in
      rw (h, some_asked, e, last) refl

  -- What becomes of the conversation when the rest of the questions is answered.
  abbrev pub AllAnswered :
      PendingPermission → List (ℕ × String) → List String → Conversation → Type 0
  AllAnswered p collected contents c =
      (d : Conversation) × (handle_all u contents fails c ≡ some d)
      × Answered p (PermissionResult.allow (build_ask_question_response p.tool_input collected)) c d

  rest-AllAnswered :
      (done rest : List UserQuestion) (contents : List String) (c : Conversation)
      (p : PendingPermission)
      → c.pending ≡ some p
      → p.questions ≡ done ++ rest
      → p.current_question ≡ length done
      → AllBelow (length done) p.collected
      → 0 < length rest
      → length contents ≡ length rest
      → AllAnswered p (p.collected ++ answers_from u (length done) rest contents) contents c
  unfolding handle_all answers_from respond
  rest-AllAnswered done [] contents c p h w at b pos same = absurd (omega arith)
  rest-AllAnswered done (q ∷ qs) [] c p h w at b pos same = absurd (omega arith)
  rest-AllAnswered done (q ∷ []) (x ∷ y ∷ ys) c p h w at b pos same = absurd (omega arith)
  rest-AllAnswered done (q ∷ q' ∷ qs) (x ∷ []) c p h w at b pos same = absurd (omega arith)
  rest-AllAnswered done (q ∷ []) (x ∷ []) c p h w at b pos same =
      let e : get_elem? p.questions p.current_question ≡ some q =
        rw (w, at) (get_elem?-length done q []) in
      let l : p.current_question + 1 ≡ length p.questions =
        rw (w, at) (omega (arith, length-append done (q ∷ []))) in
      let w_eq : with_answer p q x
          ≡ p.collected ++ (length done, resolve_ask_question_answer u q x) ∷ [] =
        rw at (set_answer_fresh (length done) _ p.collected b) in
      (
        respond p
            (PermissionResult.allow (build_ask_question_response p.tool_input (with_answer p q x)))
            fails Reply.answered Reply.error c,
        rw (handle_all, the_last c p q x h e l) refl,
        (refl, rw w_eq refl, refl),
      )
  rest-AllAnswered done (q ∷ q' ∷ qs) (x ∷ y ∷ ys) c p h w at b pos same =
      let e : get_elem? p.questions p.current_question ≡ some q =
        rw (w, at) (get_elem?-length done q (q' ∷ qs)) in
      let l : p.current_question + 1 < length p.questions =
        rw (w, at) (omega (arith, length-append done (q ∷ q' ∷ qs))) in
      let answer = resolve_ask_question_answer u q x in
      let w_eq : with_answer p q x ≡ p.collected ++ (length done, answer) ∷ [] =
        rw at (set_answer_fresh (length done) _ p.collected b) in
      let long : length (done ++ q ∷ []) ≡ suc (length done) =
        omega (arith, length-append done (q ∷ [])) in
      let (d, run, answered) =
        rest-AllAnswered (done ++ q ∷ []) (q' ∷ qs) (y ∷ ys)
          (record c {
            pending = some (next_question p q x);
            replies = c.replies ++ Reply.answered ∷ [];
          })
          (next_question p q x) refl (rw (w, append_assoc) refl) (rw (long, at) (omega arith))
          (rw (long, w_eq) (snoc-AllBelow (length done) answer p.collected b)) (omega arith)
          (omega arith) in
      let all : with_answer p q x ++ answers_from u (length (done ++ q ∷ [])) (q' ∷ qs) (y ∷ ys)
          ≡ p.collected ++ answers_from u (length done) (q ∷ q' ∷ qs) (x ∷ y ∷ ys) =
        rw (w_eq, long, append_assoc) refl in
      (
        d,
        rw (handle_all, one_more c p q x h e l) run,
        subst
            (λ a.
              Answered p (PermissionResult.allow (build_ask_question_response p.tool_input a)) c d)
            all answered,
      )

-- A request with questions takes as many replies as it has questions, and never reads past them.
-- The last reply closes it with one response, which allows the tool and has for each question, by
-- its index, the answer of the reply given to it.
pub handle_all-AllAnswered :
    (u : Unicode) (fails : Bool) (contents : List String) (c : Conversation) (p : PendingPermission)
    → c.pending ≡ some p
    → p.current_question ≡ 0
    → p.collected ≡ []
    → 0 < length p.questions
    → length contents ≡ length p.questions
    → AllAnswered u fails p (answers_from u 0 p.questions contents) contents c
handle_all-AllAnswered u fails contents c p h at none_yet pos same =
    subst (λ a. AllAnswered u fails p (a ++ answers_from u 0 p.questions contents) contents c)
      none_yet
      (rest-AllAnswered u fails [] p.questions contents c p h refl at
        (subst (AllBelow 0) (sym none_yet) tt) pos same)
