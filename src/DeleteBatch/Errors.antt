-- ===== src/DeleteBatch/Errors.antt =====
-- Which lists of parts are refused (core/engine.go, `parseDeleteBatchIndices`).
use agent_in_chat_feishu.Unicode.{Unicode}
use agent_in_chat_feishu.Shared.{
  ℕ, ◌≡◌, refl, Bool, true, false, ◌&&◌, String, eq_iff, Option, none, some, List, [], ◌∷◌, arith,
  leb, if◌then◌else◌,
}
use agent_in_chat_feishu.DeleteBatch.{
  split_char, contains_char, atoi, Parsed, parse_ends, parse_range, parse_index, parse_part,
  parse_parts, and_then, parse_delete_batch_indices,
}

abbrev pub is_parsed : Parsed → Bool
is_parsed (Parsed.failed e) = false
is_parsed (Parsed.parsed is) = true

-- A number of a session in a list of `max`.
abbrev pub good_number : ℕ → Option ℕ → Bool
good_number max none = false
good_number max (some n) = leb 1 n && leb n max

-- Two such numbers in their order.
abbrev pub good_ends : ℕ → Option ℕ → Option ℕ → Bool
good_ends max (some a) (some b) = leb 1 a && leb a b && leb b max
good_ends max _ _ = false

abbrev pub good_bounds : ℕ → List String → Bool
good_bounds max (first ∷ last ∷ []) = good_ends max (atoi first) (atoi last)
good_bounds max _ = false

unfoldable pub good_part : ℕ → String → Bool
good_part max part =
    if contains_char b'-' part
    then good_bounds max (split_char b'-' part)
    else good_number max (atoi part)

unfoldable pub all_good : Unicode → ℕ → List String → Bool
all_good u max [] = true
all_good u max (part ∷ parts) = good_part max (u.trim_space part) && all_good u max parts

atoi_empty : atoi "" ≡ none
unfolding atoi
atoi_empty = refl

parse_index-good :
    (max : ℕ) (part : String) (number : Option ℕ) (is : List ℕ)
    → is_parsed (parse_index max part number is) ≡ good_number max number
unfolding parse_index
parse_index-good max part none is = refl
parse_index-good max part (some idx) is = ground arith

parse_ends-good :
    (max : ℕ) (part first last : String) (a b : Option ℕ) (is : List ℕ)
    → is_parsed (parse_ends max part first last a b is) ≡ good_ends max a b
unfolding parse_ends
parse_ends-good max part first last none b is = refl
parse_ends-good max part first last (some start) none is = refl
parse_ends-good max part first last (some start) (some end) is = ground arith

no_last : (max : ℕ) (a : Option ℕ) → good_ends max a none ≡ false
no_last max none = refl
no_last max (some n) = refl

parse_range-good :
    (max : ℕ) (part : String) (bounds : List String) (is : List ℕ)
    → is_parsed (parse_range max part bounds is) ≡ good_bounds max bounds
unfolding parse_range
parse_range-good max part [] is = refl
parse_range-good max part (x ∷ []) is = refl
parse_range-good max part (x ∷ y ∷ z ∷ zs) is = refl
parse_range-good max part (first ∷ last ∷ []) is = ground (
  arith,
  eq_iff first "",
  eq_iff last "",
  atoi_empty,
  no_last max (atoi first),
  parse_ends-good max part first last (atoi first) (atoi last) is,
)

empty_bad : (max : ℕ) → good_part max "" ≡ false
unfolding good_part contains_char atoi
empty_bad max = refl

parse_part-good :
    (max : ℕ) (part : String) (is : List ℕ)
    → is_parsed (parse_part max part is) ≡ good_part max part
unfolding parse_part good_part
parse_part-good max part is = ground (
  arith,
  eq_iff part "",
  empty_bad max,
  parse_range-good max part (split_char b'-' part) is,
  parse_index-good max part (atoi part) is,
)

and_then-good :
    (a b : Bool) (r : Parsed) (go_on : List ℕ → Parsed)
    → is_parsed r ≡ a
    → ((more : List ℕ) → is_parsed (go_on more) ≡ b)
    → is_parsed (and_then r go_on) ≡ (a && b)
unfolding and_then
and_then-good a b (Parsed.failed e) go_on h next = ground arith
and_then-good a b (Parsed.parsed more) go_on h next = ground (arith, next more)

module _ (u : Unicode) (max : ℕ) where
  parse_parts-good :
      (parts : List String) (is : List ℕ)
      → is_parsed (parse_parts u max parts is) ≡ all_good u max parts
  unfolding parse_parts all_good
  parse_parts-good [] is = refl
  parse_parts-good (part ∷ parts) is =
      and_then-good (good_part max (u.trim_space part)) (all_good u max parts)
        (parse_part max (u.trim_space part) is) _ (parse_part-good max (u.trim_space part) is)
        (λ more. parse_parts-good parts more)

-- A list is returned exactly if every part, trimmed, is a number from one to `max` or a range of two
-- such numbers in their order; otherwise, and for an empty part, the result is an error.
pub parse_delete_batch_indices-good :
    (u : Unicode) (spec : String) (max : ℕ)
    → is_parsed (parse_delete_batch_indices u spec max) ≡ all_good u max (split_char b',' spec)
unfolding parse_delete_batch_indices
parse_delete_batch_indices-good u spec max = parse_parts-good u max (split_char b',' spec) []
