-- ===== src/DeleteBatch/Exact.antt =====
-- Which indices a list of parts names (core/engine.go, `parseDeleteBatchIndices`).
use agent_in_chat_feishu.Unicode.{Unicode}
use agent_in_chat_feishu.Shared.{
  ℕ, zero, suc, ◌+◌, ◌-◌, ◌≡◌, inl, inr, Bool, false, ◌&&◌, ◌||◌, String, ◌==◌, Option, none, some,
  List, [], ◌∷◌, arith, eqb, ltb, leb, if◌then◌else◌, Bool-cases, if_both, if_cases,
}
use agent_in_chat_feishu.DeleteBatch.{
  split_char, contains_char, atoi, Parsed, seen, add_index, add_range, parse_ends, parse_range,
  parse_index, parse_part, parse_parts, and_then, parse_delete_batch_indices,
}
use agent_in_chat_feishu.DeleteBatch.Indices.{seen-snoc}

-- Whether a number is the one that was read, or lies between the two that were read.
abbrev pub is_number : ℕ → Option ℕ → Bool
is_number j none = false
is_number j (some n) = eqb n j

abbrev pub lies_between : ℕ → Option ℕ → Option ℕ → Bool
lies_between j (some a) (some b) = leb a j && leb j b
lies_between j _ _ = false

abbrev pub in_bounds : ℕ → List String → Bool
in_bounds j (first ∷ last ∷ []) = lies_between j (atoi first) (atoi last)
in_bounds j _ = false

-- Whether a part names the number.
unfoldable pub names : ℕ → String → Bool
names j part =
    if contains_char b'-' part then in_bounds j (split_char b'-' part) else is_number j (atoi part)

unfoldable pub any_names : Unicode → ℕ → List String → Bool
any_names u j [] = false
any_names u j (part ∷ parts) = names j (u.trim_space part) || any_names u j parts

-- A list that is returned has, of the numbers, the old ones and those of the test.
abbrev pub Adds : ℕ → List ℕ → Bool → Parsed → Type 0
Adds j is new (Parsed.failed e) = Unit {0}
Adds j is new (Parsed.parsed more) = seen j more ≡ (seen j is || new)

seen-add_index : (j i : ℕ) (is : List ℕ) → seen j (add_index i is) ≡ (seen j is || eqb i j)
unfolding add_index
seen-add_index j i is = elim (Bool-cases (eqb i j)) [
  | inl e ↦ let same : i ≡ j = ground arith in ground (arith, seen-snoc j i is)
  | inr e ↦ ground (arith, seen-snoc j i is)
]

seen-add_range :
    (j rounds start : ℕ) (is : List ℕ)
    → seen j (add_range rounds start is) ≡ (seen j is || (leb start j && ltb j (start + rounds)))
unfolding add_range
seen-add_range j zero start is = ground arith
seen-add_range j (suc rounds) start is =
    ground
      (arith, seen-add_range j rounds (start + 1) (add_index start is), seen-add_index j start is)

parse_index-Adds :
    (j max : ℕ) (part : String) (number : Option ℕ) (is : List ℕ)
    → Adds j is (is_number j number) (parse_index max part number is)
unfolding parse_index
parse_index-Adds j max part none is = tt
parse_index-Adds j max part (some idx) is =
    if_both (Adds j is (eqb idx j)) (ltb idx 1 || ltb max idx) tt (seen-add_index j idx is)

parse_ends-Adds :
    (j max : ℕ) (part first last : String) (a b : Option ℕ) (is : List ℕ)
    → Adds j is (lies_between j a b) (parse_ends max part first last a b is)
unfolding parse_ends
parse_ends-Adds j max part first last none b is = tt
parse_ends-Adds j max part first last (some start) none is = tt
parse_ends-Adds j max part first last (some start) (some end) is =
    if_cases (Adds j is (leb start j && leb j end))
      (ltb start 1 || ltb end 1 || ltb end start || ltb max end) (λ t. tt)
      (λ t. ground (arith, seen-add_range j (end + 1 - start) start is))

parse_range-Adds :
    (j max : ℕ) (part : String) (bounds : List String) (is : List ℕ)
    → Adds j is (in_bounds j bounds) (parse_range max part bounds is)
unfolding parse_range
parse_range-Adds j max part [] is = tt
parse_range-Adds j max part (x ∷ []) is = tt
parse_range-Adds j max part (x ∷ y ∷ z ∷ zs) is = tt
parse_range-Adds j max part (first ∷ last ∷ []) is =
    if_both (Adds j is (lies_between j (atoi first) (atoi last))) (first == "" || last == "") tt
      (parse_ends-Adds j max part first last (atoi first) (atoi last) is)

parse_part-Adds :
    (j max : ℕ) (part : String) (is : List ℕ) → Adds j is (names j part) (parse_part max part is)
unfolding parse_part names
parse_part-Adds j max part is =
    if_both (Adds j is (names j part)) (part == "") tt
      (elim (Bool-cases (contains_char b'-' part)) [
        | inl e ↦ rw e (parse_range-Adds j max part (split_char b'-' part) is)
        | inr e ↦ rw e (parse_index-Adds j max part (atoi part) is)
      ])

Adds-later :
    (j : ℕ) (is more : List ℕ) (a b : Bool) (r : Parsed)
    → seen j more ≡ (seen j is || a)
    → Adds j more b r
    → Adds j is (a || b) r
Adds-later j is more a b (Parsed.failed e) h k = tt
Adds-later j is more a b (Parsed.parsed rest) h k = ground (arith, Bool-cases a, Bool-cases b)

and_then-Adds :
    (j : ℕ) (is : List ℕ) (a b : Bool) (r : Parsed) (go_on : List ℕ → Parsed)
    → Adds j is a r
    → ((more : List ℕ) → Adds j more b (go_on more))
    → Adds j is (a || b) (and_then r go_on)
unfolding and_then
and_then-Adds j is a b (Parsed.failed e) go_on h next = tt
and_then-Adds j is a b (Parsed.parsed more) go_on h next = Adds-later j is more a b _ h (next more)

module _ (u : Unicode) (j max : ℕ) where
  parse_parts-Adds :
      (parts : List String) (is : List ℕ)
      → Adds j is (any_names u j parts) (parse_parts u max parts is)
  unfolding parse_parts any_names
  parse_parts-Adds [] is = ground arith
  parse_parts-Adds (part ∷ parts) is =
      and_then-Adds j is (names j (u.trim_space part)) (any_names u j parts)
        (parse_part max (u.trim_space part) is) _ (parse_part-Adds j max (u.trim_space part) is)
        (λ more. parse_parts-Adds parts more)

-- A list that is returned has exactly the numbers that some part names: the part is the number, or
-- a range with the number in it.
pub parse_delete_batch_indices-Adds :
    (u : Unicode) (spec : String) (max j : ℕ)
    → Adds j [] (any_names u j (split_char b',' spec)) (parse_delete_batch_indices u spec max)
unfolding parse_delete_batch_indices
parse_delete_batch_indices-Adds u spec max j = parse_parts-Adds u j max (split_char b',' spec) []
