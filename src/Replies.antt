-- ===== src/Replies.antt =====
-- The text of a reply before it is sent: `truncateIf` and `splitMessage` (core/engine.go). A text
-- stands for its runes. The loop that splits runs on fuel, and gives none when that is used up.
pub mod Chunks
use Prim.Native.Char.{code}
use Prim.Native.String
use Prim.Native.String.{count}
use mathlib.Core.Option
use agent_in_chat_feishu.Shared.{
  ℕ, zero, suc, ◌+◌, ◌/◌, Bool, true, false, ◌&&◌, String, Option, none, some, List, [], ◌∷◌, eqb,
  ltb, leb, if◌then◌else◌, Option-cases,
}

-- `runes[:n]` and `runes[n:]`
unfoldable pub take_runes : ℕ → String → String
take_runes zero s = ""
take_runes (suc n) String.[] = ""
take_runes (suc n) (String.◌∷◌ c s) = String.◌∷◌ c (take_runes n s)

unfoldable pub drop_runes : ℕ → String → String
drop_runes zero s = s
drop_runes (suc n) String.[] = ""
drop_runes (suc n) (String.◌∷◌ c s) = drop_runes n s

unfoldable pub truncate_if : String → ℕ → String
truncate_if s max_len =
    if leb max_len 0
    then s
    else if leb (count s) max_len
    then s
    else String.◌++◌ (take_runes max_len s) "..."

-- The index of the last newline, in runes.
unfoldable pub last_newline : String → Option ℕ
last_newline String.[] = none
last_newline (String.◌∷◌ c s) = elim (last_newline s) [
  | some i ↦ some (suc i)
  | none ↦ if eqb (code c) 10 then some 0 else none
]

-- Where the next chunk of a longer text ends.
unfoldable pub chunk_end : ℕ → String → ℕ
chunk_end max_len runes = elim (last_newline (take_runes max_len runes)) [
  | none ↦ max_len
  | some i ↦ if ltb 0 i && leb (max_len / 2) i then i + 1 else max_len
]

unfoldable pub split_loop : ℕ → ℕ → String → Option (List String)
split_loop zero max_len runes = none
split_loop (suc fuel) max_len runes =
    let end = chunk_end max_len runes in
    let rest = split_loop fuel max_len (drop_runes end runes) in
    if eqb (count runes) 0
    then some []
    else if leb (count runes) max_len
    then some (runes ∷ [])
    else Option.map (λ chunks. take_runes end runes ∷ chunks) rest

unfoldable pub split_message : String → ℕ → Option (List String)
split_message text max_len =
    if leb (count text) max_len
    then some (text ∷ [])
    else split_loop (suc (count text)) max_len text
