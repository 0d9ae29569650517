-- ===== src/Tests/Ascii.antt =====
-- The functions of `strings` on ASCII texts, for the tests.
use Prim.Native.Char.{code}
use agent_in_chat_feishu.Unicode.{Unicode}
use agent_in_chat_feishu.Shared.{String, ◌==◌, if◌then◌else◌, eqb, paired}

unfoldable pub lower : String → String
unfolding paired
lower String.[] = ""
lower (String.◌∷◌ c s) =
    String.◌∷◌ (paired "ABCDEFGHIJKLMNOPQRSTUVWXYZ" "abcdefghijklmnopqrstuvwxyz" c) (lower s)

unfoldable pub trim_left : String → String
trim_left String.[] = ""
trim_left (String.◌∷◌ c s) =
    let rest = trim_left s in if eqb (code c) b' ' then rest else String.◌∷◌ c s

unfoldable pub ascii : Unicode
unfolding lower trim_left
ascii = record { to_lower = lower; trim_space = trim_left; equal_fold = λ s t. lower s == lower t }
