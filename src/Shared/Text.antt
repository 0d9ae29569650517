-- ===== src/Shared/Text.antt =====
-- Decimal output, as `fmt.Sprintf("%d", n)` prints a number that is not negative.
use Prim.Native.Nat.{ℕ, zero, suc, ◌+◌, ◌-◌, ◌*◌, ◌/◌, ◌%◌, ◌<◌}
use Prim.Native.Char.{Char, code}
use Prim.Native.String.{String}
use mathlib.Core.Path.{◌≡◌, refl, sym, ap, ◌∙◌}
use mathlib.Core.Logic.{inl, inr}
use native.Mathlib.Omega.{arith}
use agent_in_chat_feishu.Shared.Tests.{eqb, ltb, if◌then◌else◌, Bool-cases}

-- The character at the place where the first text has `c`.
unfoldable pub paired : String → String → Char → Char
paired (String.◌∷◌ a s) (String.◌∷◌ b t) c =
    let rest = paired s t c in if eqb (code a) (code c) then b else rest
paired _ _ c = c

digit : ℕ → Char
digit zero = "0"
digit (suc zero) = "1"
digit (suc (suc zero)) = "2"
digit (suc (suc (suc zero))) = "3"
digit (suc (suc (suc (suc zero)))) = "4"
digit (suc (suc (suc (suc (suc zero))))) = "5"
digit (suc (suc (suc (suc (suc (suc zero)))))) = "6"
digit (suc (suc (suc (suc (suc (suc (suc zero))))))) = "7"
digit (suc (suc (suc (suc (suc (suc (suc (suc zero)))))))) = "8"
digit _ = "9"

-- The digits of `n` before `rest`; `fuel` above `n` is enough.
digits : ℕ → ℕ → String → String
digits zero n rest = rest
digits (suc fuel) n rest =
    let more = digits fuel (n / 10) (String.◌∷◌ (digit (n % 10)) rest) in
    if ltb n 10 then String.◌∷◌ (digit n) rest else more

unfoldable pub decimal : ℕ → String
unfolding digits digit
decimal n = digits (suc n) n ""

-- The number that a text of digits denotes after the digits of `a`.
read : ℕ → String → ℕ
read a String.[] = a
read a (String.◌∷◌ c s) = read (a * 10 + (code c - 48)) s

code-digit : (d : ℕ) → d < 10 → code (digit d) - 48 ≡ d
unfolding digit
code-digit zero h = refl
code-digit (suc zero) h = refl
code-digit (suc (suc zero)) h = refl
code-digit (suc (suc (suc zero))) h = refl
code-digit (suc (suc (suc (suc zero)))) h = refl
code-digit (suc (suc (suc (suc (suc zero))))) h = refl
code-digit (suc (suc (suc (suc (suc (suc zero)))))) h = refl
code-digit (suc (suc (suc (suc (suc (suc (suc zero))))))) h = refl
code-digit (suc (suc (suc (suc (suc (suc (suc (suc zero)))))))) h = refl
code-digit (suc (suc (suc (suc (suc (suc (suc (suc (suc d))))))))) h =
    let e : d ≡ 0 = omega arith in rw e refl

read-digits : (fuel n : ℕ) (rest : String) → n < fuel → read 0 (digits fuel n rest) ≡ read n rest
unfolding digits read
read-digits zero n rest h = absurd (omega arith)
read-digits (suc fuel) n rest h = elim (Bool-cases (ltb n 10)) [
  | inl small ↦ rw small (ap (λ (k : ℕ). read k rest) (ground (arith, code-digit n)))
  | inr large ↦ rw large (
      read-digits fuel (n / 10) (String.◌∷◌ (digit (n % 10)) rest) (ground arith)
      ∙ ap (λ (k : ℕ). read k rest) (ground (arith, code-digit (n % 10))))
]

pub decimal_inj : (n m : ℕ) → decimal n ≡ decimal m → n ≡ m
unfolding decimal read
decimal_inj n m e =
    sym (read-digits (suc n) n "" (omega arith))
    ∙ ap (read 0) e
    ∙ read-digits (suc m) m "" (omega arith)
