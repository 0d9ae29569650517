-- ===== src/Unicode.antt =====
-- The functions of Go's `strings` that depend on the Unicode tables, as parameters of the models.
use Prim.Native.String.{String}
use mathlib.Core.Bool.{Bool}

pub record Unicode : Type 0 where
  pub to_lower : String → String
  pub trim_space : String → String
  pub equal_fold : String → String → Bool
