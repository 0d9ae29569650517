-- ===== src/Permissions.antt =====
-- A user's reply to a permission request or to the questions of an agent (core/engine.go,
-- `handlePendingPermission`; core/message.go). The agent's error on a response is an argument.
pub mod Words
pub mod Decisions
pub mod Questions
use Prim.Native.Char.{code}
use Prim.Native.String
use agent_in_chat_feishu.Unicode.{Unicode}
use agent_in_chat_feishu.SessionKey.{split_n}
use agent_in_chat_feishu.DeleteBatch.{atoi}
use agent_in_chat_feishu.Shared.{
  ℕ, zero, suc, ◌+◌, ◌-◌, Bool, true, false, not, ◌&&◌, ◌||◌, String, ◌==◌, Option, none, some,
  List, [], ◌∷◌, ◌++◌, eqb, ltb, leb, if◌then◌else◌, length, get_elem?, contains, map, decimal,
}

pub record UserQuestion : Type 0 where
  pub question : String
  pub options : List String
  pub multi_select : Bool

-- The input of a tool: fields, whose values stand for themselves, and the collected answers.
pub data Value : Type 0 where
  opaque : String → Value
  answers : List (String × String) → Value

pub record PendingPermission : Type 0 where
  pub request_id : String
  pub tool_input : List (String × Value)
  pub questions : List UserQuestion
  pub collected : List (ℕ × String)
  pub current_question : ℕ

pub data PermissionResult : Type 0 where
  allow : List (String × Value) → PermissionResult
  deny : String → PermissionResult

-- What the user is told.
pub data Reply : Type 0 where
  error answered approve_all_set allowed denied hint : Reply

-- The part of the conversation's state that replies change. `responses` records what the agent was
-- sent, and `resolved` the requests whose `Resolved` channel was closed.
pub record Conversation : Type 0 where
  pub pending : Option PendingPermission
  pub approve_all : Bool
  pub responses : List (String × PermissionResult)
  pub resolved : List String
  pub replies : List Reply

abbrev pub approve_all_words : List String
approve_all_words =
    "allow all" ∷ "allowall" ∷ "approve all" ∷ "yes all" ∷ "允许所有" ∷ "允许全部" ∷ "全部允许" ∷ "所有允许" ∷ "都允许"
    ∷ "全部同意" ∷ []

abbrev pub allow_words : List String
allow_words =
    "allow" ∷ "yes" ∷ "y" ∷ "ok" ∷ "允许" ∷ "同意" ∷ "可以" ∷ "好" ∷ "好的" ∷ "是" ∷ "确认" ∷ "approve" ∷ []

abbrev pub deny_words : List String
deny_words = "deny" ∷ "no" ∷ "n" ∷ "reject" ∷ "拒绝" ∷ "不允许" ∷ "不行" ∷ "不" ∷ "否" ∷ "取消" ∷ "cancel" ∷ []

unfoldable pub is_approve_all_response : String → Bool
is_approve_all_response s = contains approve_all_words s

unfoldable pub is_allow_response : String → Bool
is_allow_response s = contains allow_words s

unfoldable pub is_deny_response : String → Bool
is_deny_response s = contains deny_words s

-- `strings.HasPrefix(input, "askq:")`
abbrev pub is_callback : List String → Bool
is_callback (first ∷ second ∷ rest) = first == "askq"
is_callback _ = false

-- The label of the option with a number that is in range.
unfoldable pub label_of : UserQuestion → Option ℕ → Option String
label_of q none = none
label_of q (some idx) =
    if leb 1 idx && leb idx (length q.options) then get_elem? q.options (idx - 1) else none

-- The two formats of a button's callback.
unfoldable pub callback_label : UserQuestion → List String → Option String
callback_label q (first ∷ question ∷ option ∷ []) = label_of q (atoi option)
callback_label q (first ∷ option ∷ []) = label_of q (atoi option)
callback_label q _ = none

-- `strings.FieldsFunc` for commas of both kinds and spaces
abbrev pub is_separator : ℕ → Bool
is_separator c = eqb c b',' || eqb c 0xff0c || eqb c b' '

unfoldable pub fields_from : String → String → List String
fields_from field String.[] = if field == "" then [] else field ∷ []
fields_from field (String.◌∷◌ c s) =
    let more = fields_from "" s in
    let longer = fields_from (String.◌++◌ field (String.◌∷◌ c "")) s in
    if is_separator (code c) then if field == "" then more else field ∷ more else longer

module _ (u : Unicode) where
  -- The labels of all parts, if every part is a number in range.
  unfoldable pub all_labels : UserQuestion → List String → Option (List String)
  all_labels q [] = some []
  all_labels q (part ∷ parts) = elim (label_of q (atoi (u.trim_space part))) [
    | none ↦ none
    | some label ↦ elim (all_labels q parts) [ none ↦ none | some labels ↦ some (label ∷ labels) ]
  ]

  unfoldable pub join_labels : List String → String
  join_labels [] = ""
  join_labels (label ∷ []) = label
  join_labels (label ∷ labels) = String.◌++◌ label (String.◌++◌ ", " (join_labels labels))

  -- The answers with numbers, and otherwise the text.
  unfoldable pub numbered_answer : UserQuestion → String → String
  numbered_answer q input =
      if q.multi_select
      then elim (all_labels q (fields_from "" input)) [
        | some (label ∷ labels) ↦ join_labels (label ∷ labels)
        | _ ↦ input
      ]
      else elim (label_of q (atoi input)) [ some label ↦ label | none ↦ input ]

  unfoldable pub resolve_trimmed : UserQuestion → String → String
  resolve_trimmed q input =
      let parts = split_n 3 input in
      if is_callback parts
      then elim (callback_label q parts) [ some label ↦ label | none ↦ numbered_answer q input ]
      else numbered_answer q input

  unfoldable pub resolve_ask_question_answer : UserQuestion → String → String
  resolve_ask_question_answer q input = resolve_trimmed q (u.trim_space input)

-- The answers by the decimal numbers of their questions.
unfoldable pub numbered : List (ℕ × String) → List (String × String)
numbered [] = []
numbered ((i, answer) ∷ rest) = (decimal i, answer) ∷ numbered rest

-- `result[key] = value`
unfoldable pub set_field : String → Value → List (String × Value) → List (String × Value)
set_field key value [] = (key, value) ∷ []
set_field key value ((at, old) ∷ rest) =
    let further = (at, old) ∷ set_field key value rest in
    if at == key then (key, value) ∷ rest else further

unfoldable pub build_ask_question_response :
    List (String × Value) → List (ℕ × String) → List (String × Value)
build_ask_question_response original_input collected =
    set_field "answers" (Value.answers (numbered collected)) original_input

-- `pending.Answers[curIdx] = answer`
unfoldable pub set_answer : ℕ → String → List (ℕ × String) → List (ℕ × String)
set_answer i answer [] = (i, answer) ∷ []
set_answer i answer ((j, old) ∷ rest) =
    let further = (j, old) ∷ set_answer i answer rest in
    if eqb j i then (i, answer) ∷ rest else further

-- The response to the agent, and the request is done.
unfoldable pub respond :
    PendingPermission → PermissionResult → Bool → Reply → Reply → Conversation → Conversation
respond p result fails good bad c = record c {
  pending = none;
  responses = c.responses ++ (p.request_id, result) ∷ [];
  resolved = c.resolved ++ p.request_id ∷ [];
  replies = c.replies ++ (if fails then bad else good) ∷ [];
}

-- The reply to a request, trimmed and in lower case.
unfoldable pub decide : PendingPermission → String → Bool → Conversation → Conversation
decide p lower fails c =
    if is_approve_all_response lower
    then respond p (PermissionResult.allow p.tool_input) fails Reply.approve_all_set Reply.error
        (record c { approve_all = true })
    else if is_allow_response lower
    then respond p (PermissionResult.allow p.tool_input) fails Reply.allowed Reply.error c
    else if is_deny_response lower
    then respond p (PermissionResult.deny "User denied this tool use.") fails Reply.denied
        Reply.denied c
    else record c { replies = c.replies ++ Reply.hint ∷ [] }

module _ (u : Unicode) where
  -- The answer to the current question.
  unfoldable pub answer_question :
      PendingPermission → UserQuestion → String → Bool → Conversation → Conversation
  answer_question p q content fails c =
      let collected =
        set_answer p.current_question (resolve_ask_question_answer u q content) p.collected in
      if ltb (p.current_question + 1) (length p.questions)
      then record c {
        pending =
            some (record p { collected = collected; current_question = p.current_question + 1 });
        replies = c.replies ++ Reply.answered ∷ [];
      }
      else respond p (PermissionResult.allow (build_ask_question_response p.tool_input collected))
          fails Reply.answered Reply.error c

  -- The state and whether the message was a reply; none where an index is out of range.
  unfoldable pub handle_pending_permission :
      String → Bool → Conversation → Option (Conversation × Bool)
  handle_pending_permission content fails c = elim c.pending [
    | none ↦ some (c, false)
    | some p ↦
        if ltb 0 (length p.questions)
        then elim (get_elem? p.questions p.current_question) [
          | none ↦ none
          | some q ↦ some (answer_question p q content fails c, true)
        ]
        else some (decide p (u.to_lower (u.trim_space content)) fails c, true)
  ]
