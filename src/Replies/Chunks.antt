-- ===== src/Replies/Chunks.antt =====
-- The chunks of `splitMessage` (core/engine.go).
use Prim.Native.String
use Prim.Native.String.{count}
use text.Mathlib.TextLemmas.{
  nil-append, cons-append, append-nil, length-nil, length-cons, length-eq-zero_iff,
}
use agent_in_chat_feishu.Shared.{
  ℕ, zero, suc, ◌-◌, ◌≤◌, ◌<◌, ◌≡◌, refl, sym, inl, inr, String, Option, none, some, List, [], ◌∷◌,
  arith, eqb, leb, Bool-cases, Option-cases,
}
use agent_in_chat_feishu.Replies.{
  take_runes, drop_runes, last_newline, chunk_end, split_loop, split_message,
}

-- The chunks in order, as one text.
abbrev pub joined : List String → String
joined [] = ""
joined (chunk ∷ chunks) = String.◌++◌ chunk (joined chunks)

-- Every chunk has a rune, and not more than the limit.
abbrev pub AllFit : ℕ → List String → Type 0
AllFit max_len [] = Unit {0}
AllFit max_len (chunk ∷ chunks) =
    ((0 < count chunk) × (count chunk ≤ max_len)) × AllFit max_len chunks

take_runes-append-drop_runes :
    (n : ℕ) (s : String) → String.◌++◌ (take_runes n s) (drop_runes n s) ≡ s
unfolding take_runes drop_runes
take_runes-append-drop_runes zero s = nil-append s
take_runes-append-drop_runes (suc n) String.[] = nil-append ""
take_runes-append-drop_runes (suc n) (String.◌∷◌ c s) =
    rw (cons-append, take_runes-append-drop_runes n s)

count-take_runes : (n : ℕ) (s : String) → n ≤ count s → count (take_runes n s) ≡ n
unfolding take_runes
count-take_runes zero s h = length-nil
count-take_runes (suc n) String.[] h = omega (arith, length-nil)
count-take_runes (suc n) (String.◌∷◌ c s) h =
    ground (arith, count-take_runes n s, length-cons c s, length-cons c (take_runes n s))

pub count-drop_runes : (n : ℕ) (s : String) → count (drop_runes n s) ≡ count s - n
unfolding drop_runes
count-drop_runes zero s = omega arith
count-drop_runes (suc n) String.[] = omega (arith, length-nil)
count-drop_runes (suc n) (String.◌∷◌ c s) = omega (arith, count-drop_runes n s, length-cons c s)

last_newline-lt : (s : String) (i : ℕ) → last_newline s ≡ some i → i < count s
unfolding last_newline
last_newline-lt String.[] i h = cc
last_newline-lt (String.◌∷◌ c s) i h = elim (Option-cases (last_newline s)) [
  | inl e ↦ ground (arith, length-cons c s)
  | inr (j, e) ↦ ground (arith, length-cons c s, last_newline-lt s j e)
]

-- With a limit of at least one, a longer text loses at least one rune and at most the limit.
chunk_end-Bounds :
    (max_len : ℕ) (s : String)
    → 0 < max_len
    → max_len < count s
    → (0 < chunk_end max_len s) × (chunk_end max_len s ≤ max_len)
unfolding chunk_end
chunk_end-Bounds max_len s pos long = elim (Option-cases (last_newline (take_runes max_len s))) [
  | inl e ↦ ground arith
  | inr (i, e) ↦
      ground (
        arith,
        last_newline-lt (take_runes max_len s) i e,
        count-take_runes max_len s (omega arith),
      )
]

-- What the loop returns.
abbrev pub Splits : ℕ → String → Option (List String) → Type 0
Splits max_len s result =
    (chunks : List String) × (result ≡ some chunks) × (joined chunks ≡ s) × AllFit max_len chunks

split_loop-Splits :
    (fuel max_len : ℕ) (s : String)
    → 0 < max_len
    → count s < fuel
    → Splits max_len s (split_loop fuel max_len s)
unfolding split_loop
split_loop-Splits zero max_len s pos h = absurd (omega arith)
split_loop-Splits (suc fuel) max_len s pos h = elim (Bool-cases (eqb (count s) 0)) [
  | inl e ↦ ([], rw e, sym (length-eq-zero_iff.0 (ground arith)), tt)
  | inr e ↦ elim (Bool-cases (leb (count s) max_len)) [
    | inl short ↦ (s ∷ [], rw (e, short), append-nil s, ground arith)
    | inr long ↦
        let (pos_end, le_end) = chunk_end-Bounds max_len s pos (ground arith) in
        let end = chunk_end max_len s in
        let fits = count-take_runes end s (ground arith) in
        let (chunks, eq, whole, fit) =
          split_loop-Splits fuel max_len (drop_runes end s) pos
            (ground (arith, count-drop_runes end s)) in
        (
          take_runes end s ∷ chunks,
          rw (e, long, eq),
          rw (whole, take_runes-append-drop_runes end s),
          ((ground arith, ground arith), fit),
        )
  ]
]

-- With a limit of at least one, splitting a text that is not empty ends, the chunks in their order
-- are the text, and each has at least one and at most `max_len` runes.
pub split_message-Splits :
    (text : String) (max_len : ℕ)
    → 0 < max_len
    → 0 < count text
    → Splits max_len text (split_message text max_len)
unfolding split_message
split_message-Splits text max_len pos filled = elim (Bool-cases (leb (count text) max_len)) [
  | inl short ↦ (text ∷ [], rw short, append-nil text, ground arith)
  | inr long ↦ rw long (split_loop-Splits (suc (count text)) max_len text pos (omega arith))
]

-- With a limit of zero and a text to split, no amount of fuel is enough: the loop does not end.
split_loop-zero : (fuel : ℕ) (s : String) → 0 < count s → split_loop fuel 0 s ≡ none
unfolding split_loop chunk_end drop_runes take_runes last_newline
split_loop-zero zero s h = refl
split_loop-zero (suc fuel) s h = ground (arith, split_loop-zero fuel s h)
