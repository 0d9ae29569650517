-- ===== src/SessionKey.antt =====
-- The keys of conversations, "platform:channel:user" (core/engine.go, core/workspace_binding.go).
-- A colon is one byte, so an index in bytes splits a text where an index in characters does.
pub mod Laws
use Prim.Native.Char.{Char, code}
use Prim.Native.String
use agent_in_chat_feishu.Shared.{
  ℕ, suc, zero, String, ◌==◌, Option, none, some, List, [], ◌∷◌, eqb, if◌then◌else◌,
}

-- The text before the first colon and the text after it.
abbrev pub prepend : Char → Option (String × String) → Option (String × String)
prepend c none = none
prepend c (some (before, after)) = some (String.◌∷◌ c before, after)

unfoldable pub cut_colon : String → Option (String × String)
cut_colon String.[] = none
cut_colon (String.◌∷◌ c s) =
    let rest = cut_colon s in if eqb (code c) b':' then some ("", s) else prepend c rest

-- `strings.SplitN(s, ":", n)` for a positive `n`.
unfoldable pub split_n : ℕ → String → List String
split_n zero s = s ∷ []
split_n (suc zero) s = s ∷ []
split_n (suc (suc n)) s = elim (cut_colon s) [
  | none ↦ s ∷ []
  | some (before, after) ↦ before ∷ split_n (suc n) after
]

abbrev pub second : List String → String
second (x ∷ y ∷ zs) = y
second _ = ""

abbrev pub third : List String → String
third (x ∷ y ∷ z ∷ zs) = z
third _ = ""

unfoldable pub extract_channel_id : String → String
unfolding split_n
extract_channel_id session_key = second (split_n 3 session_key)

unfoldable pub extract_user_id : String → String
unfolding split_n
extract_user_id session_key = third (split_n 3 session_key)

unfoldable pub extract_platform_name : String → String
extract_platform_name session_key = elim (cut_colon session_key) [
  | none ↦ session_key
  | some (before, after) ↦ before
]

unfoldable pub workspace_channel_key : String → String → String
workspace_channel_key platform_name channel_id =
    if channel_id == ""
    then ""
    else if platform_name == ""
    then channel_id
    else String.◌++◌ platform_name (String.◌++◌ ":" channel_id)

unfoldable pub extract_workspace_channel_key : String → String
extract_workspace_channel_key session_key =
    workspace_channel_key (extract_platform_name session_key) (extract_channel_id session_key)

unfoldable pub legacy_workspace_channel_key : String → String
legacy_workspace_channel_key channel_key = elim (cut_colon channel_key) [
  | none ↦ channel_key
  | some (before, after) ↦ after
]

unfoldable pub workspace_channel_key_candidates : String → List String
workspace_channel_key_candidates channel_key =
    let legacy_key = legacy_workspace_channel_key channel_key in
    if channel_key == ""
    then []
    else if legacy_key == channel_key
    then channel_key ∷ []
    else channel_key ∷ legacy_key ∷ []
