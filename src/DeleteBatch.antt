-- ===== src/DeleteBatch.antt =====
-- The list of indices that `/delete` takes (core/engine.go): `isExplicitDeleteBatchArg` and
-- `parseDeleteBatchIndices`. `seen` has exactly the indices collected so far, so it is left out.
pub mod Indices
pub mod Exact
pub mod Errors
use Prim.Native.Char.{Char, code}
use Prim.Native.String
use agent_in_chat_feishu.Unicode.{Unicode}
use agent_in_chat_feishu.Shared.{
  ℕ, zero, suc, ◌+◌, ◌-◌, ◌*◌, ◌^◌, Bool, true, false, not, ◌&&◌, ◌||◌, String, ◌==◌, Option, none,
  some, List, [], ◌∷◌, ◌++◌, eqb, ltb, leb, if◌then◌else◌,
}

-- `strings.Split(s, sep)` for a separator of one byte
unfoldable pub split_char : ℕ → String → List String
split_char sep String.[] = "" ∷ []
split_char sep (String.◌∷◌ c s) =
    let rest = split_char sep s in
    if eqb (code c) sep
    then "" ∷ rest
    else elim rest [ [] ↦ String.◌∷◌ c "" ∷ [] | field ∷ fields ↦ String.◌∷◌ c field ∷ fields ]

-- `strings.Contains(s, sep)` for a separator of one byte
unfoldable pub contains_char : ℕ → String → Bool
contains_char sep String.[] = false
contains_char sep (String.◌∷◌ c s) = eqb (code c) sep || contains_char sep s

abbrev pub is_digit : Char → Bool
is_digit c = leb b'0' (code c) && leb (code c) b'9'

unfoldable pub digits_or_dashes : String → Bool
digits_or_dashes String.[] = true
digits_or_dashes (String.◌∷◌ c s) = (is_digit c || eqb (code c) b'-') && digits_or_dashes s

unfoldable pub is_explicit_delete_batch_arg : String → Bool
is_explicit_delete_batch_arg arg =
    if contains_char b',' arg
    then true
    else if not (contains_char b'-' arg)
    then false
    else digits_or_dashes arg

-- The value of the digits after a number read so far.
unfoldable pub digits_value : ℕ → String → Option ℕ
digits_value n String.[] = some n
digits_value n (String.◌∷◌ c s) =
    let rest = digits_value (n * 10 + (code c - b'0')) s in if is_digit c then rest else none

abbrev pub below_max_int : Option ℕ → Option ℕ
below_max_int none = none
below_max_int (some n) = if ltb n (2 ^ 63) then some n else none

-- `strconv.Atoi` on a text without a minus: digits, after a plus or not, that fit 64 bits.
unfoldable pub atoi : String → Option ℕ
atoi String.[] = none
atoi (String.◌∷◌ c s) =
    if eqb (code c) b'+'
    then if s == "" then none else below_max_int (digits_value 0 s)
    else below_max_int (digits_value 0 (String.◌∷◌ c s))

pub data BatchError : Type 0 where
  empty_item : BatchError
  invalid_range not_a_number range_out_of_bounds : String → BatchError
  index_out_of_bounds : ℕ → BatchError

-- The results of the parser: an error or the indices.
pub data Parsed : Type 0 where
  failed : BatchError → Parsed
  parsed : List ℕ → Parsed

unfoldable pub seen : ℕ → List ℕ → Bool
seen idx [] = false
seen idx (i ∷ is) = eqb i idx || seen idx is

unfoldable pub add_index : ℕ → List ℕ → List ℕ
add_index idx indices = if seen idx indices then indices else indices ++ idx ∷ []

-- `for idx := start; idx <= end; idx++` with the number of its rounds
unfoldable pub add_range : ℕ → ℕ → List ℕ → List ℕ
add_range zero start indices = indices
add_range (suc rounds) start indices = add_range rounds (start + 1) (add_index start indices)

-- The numbers of a range, read from its two texts.
unfoldable pub parse_ends : ℕ → String → String → String → Option ℕ → Option ℕ → List ℕ → Parsed
parse_ends max part first last none e indices = failed (BatchError.not_a_number first)
parse_ends max part first last (some start) none indices = failed (BatchError.not_a_number last)
parse_ends max part first last (some start) (some end) indices =
    if ltb start 1 || ltb end 1 || ltb end start || ltb max end
    then failed (BatchError.range_out_of_bounds part)
    else parsed (add_range (end + 1 - start) start indices)

-- A part with a dash, after the split at the dashes.
unfoldable pub parse_range : ℕ → String → List String → List ℕ → Parsed
parse_range max part (first ∷ last ∷ []) indices =
    if first == "" || last == ""
    then failed (BatchError.invalid_range part)
    else parse_ends max part first last (atoi first) (atoi last) indices
parse_range max part _ indices = failed (BatchError.invalid_range part)

-- A part without a dash, and its number.
unfoldable pub parse_index : ℕ → String → Option ℕ → List ℕ → Parsed
parse_index max part none indices = failed (BatchError.not_a_number part)
parse_index max part (some idx) indices =
    if ltb idx 1 || ltb max idx
    then failed (BatchError.index_out_of_bounds idx)
    else parsed (add_index idx indices)

unfoldable pub parse_part : ℕ → String → List ℕ → Parsed
parse_part max part indices =
    if part == ""
    then failed BatchError.empty_item
    else if contains_char b'-' part
    then parse_range max part (split_char b'-' part) indices
    else parse_index max part (atoi part) indices

-- `if err != nil { return nil, err }`
unfoldable pub and_then : Parsed → (List ℕ → Parsed) → Parsed
and_then (failed e) go_on = failed e
and_then (parsed indices) go_on = go_on indices

module _ (u : Unicode) (max : ℕ) where
  -- The loop over the parts; an error ends it.
  unfoldable pub parse_parts : List String → List ℕ → Parsed
  parse_parts [] indices = parsed indices
  parse_parts (part ∷ parts) indices =
      and_then (parse_part max (u.trim_space part) indices) (λ more. parse_parts parts more)

-- `strings.Split` returns at least one part, so the test for an empty list is left out.
unfoldable pub parse_delete_batch_indices : Unicode → String → ℕ → Parsed
parse_delete_batch_indices u spec max = parse_parts u max (split_char b',' spec) []
