-- ===== src/DeleteBatch/Indices.antt =====
-- What `parseDeleteBatchIndices` returns (core/engine.go).
use agent_in_chat_feishu.Unicode.{Unicode}
use agent_in_chat_feishu.Shared.{
  ℕ, zero, suc, ◌+◌, ◌-◌, ◌≤◌, ◌<◌, ◌≡◌, refl, false, ◌||◌, String, ◌==◌, Option, none, some, List,
  [], ◌∷◌, ◌++◌, arith, eqb, ltb, if_both, if_cases,
}
use agent_in_chat_feishu.DeleteBatch.{
  split_char, contains_char, atoi, Parsed, seen, add_index, add_range, parse_ends, parse_range,
  and_then, parse_index, parse_part, parse_parts, parse_delete_batch_indices,
}

-- Numbers of sessions in a list of `max`, none of them twice.
abbrev pub Valid : ℕ → List ℕ → Type 0
Valid max [] = Unit {0}
Valid max (i ∷ is) = (((0 < i) × (i ≤ max)) × (seen i is ≡ false)) × Valid max is

abbrev pub ValidResult : ℕ → Parsed → Type 0
ValidResult max (Parsed.failed e) = Unit {0}
ValidResult max (Parsed.parsed indices) = Valid max indices

pub seen-snoc : (i j : ℕ) (is : List ℕ) → seen i (is ++ j ∷ []) ≡ (seen i is || eqb j i)
unfolding seen
seen-snoc i j [] = ground arith
seen-snoc i j (k ∷ is) = ground (arith, seen-snoc i j is)

snoc-Valid :
    (max j : ℕ) (is : List ℕ)
    → Valid max is
    → seen j is ≡ false
    → 0 < j
    → j ≤ max
    → Valid max (is ++ j ∷ [])
unfolding seen
snoc-Valid max j [] v s p b = (((p, b), refl), tt)
snoc-Valid max j (i ∷ is) v s p b =
    ((v.0.0, ground (arith, seen-snoc i j is, v.0.1)), snoc-Valid max j is v.1 (ground arith) p b)

add_index-Valid :
    (max j : ℕ) (is : List ℕ) → Valid max is → 0 < j → j ≤ max → Valid max (add_index j is)
unfolding add_index
add_index-Valid max j is v p b =
    if_cases (Valid max) (seen j is) (λ e. v) (λ e. snoc-Valid max j is v e p b)

add_range-Valid :
    (max rounds start : ℕ) (is : List ℕ)
    → Valid max is
    → 0 < start
    → start + rounds ≤ suc max
    → Valid max (add_range rounds start is)
unfolding add_range
add_range-Valid max zero start is v p b = v
add_range-Valid max (suc rounds) start is v p b =
    add_range-Valid max rounds (start + 1) (add_index start is)
      (add_index-Valid max start is v p (omega arith)) (omega arith) (omega arith)

parse_index-Valid :
    (max : ℕ) (part : String) (number : Option ℕ) (is : List ℕ)
    → Valid max is
    → ValidResult max (parse_index max part number is)
unfolding parse_index
parse_index-Valid max part none is v = tt
parse_index-Valid max part (some idx) is v =
    if_cases (ValidResult max) (ltb idx 1 || ltb max idx) (λ t. tt)
      (λ t. add_index-Valid max idx is v (ground arith) (ground arith))

parse_ends-Valid :
    (max : ℕ) (part first last : String) (a b : Option ℕ) (is : List ℕ)
    → Valid max is
    → ValidResult max (parse_ends max part first last a b is)
unfolding parse_ends
parse_ends-Valid max part first last none b is v = tt
parse_ends-Valid max part first last (some start) none is v = tt
parse_ends-Valid max part first last (some start) (some end) is v =
    if_cases (ValidResult max) (ltb start 1 || ltb end 1 || ltb end start || ltb max end) (λ t. tt)
      (λ t. add_range-Valid max (end + 1 - start) start is v (ground arith) (ground arith))

parse_range-Valid :
    (max : ℕ) (part : String) (bounds : List String) (is : List ℕ)
    → Valid max is
    → ValidResult max (parse_range max part bounds is)
unfolding parse_range
parse_range-Valid max part [] is v = tt
parse_range-Valid max part (x ∷ []) is v = tt
parse_range-Valid max part (x ∷ y ∷ z ∷ zs) is v = tt
parse_range-Valid max part (first ∷ last ∷ []) is v =
    if_both (ValidResult max) (first == "" || last == "") tt
      (parse_ends-Valid max part first last (atoi first) (atoi last) is v)

parse_part-Valid :
    (max : ℕ) (part : String) (is : List ℕ)
    → Valid max is
    → ValidResult max (parse_part max part is)
unfolding parse_part
parse_part-Valid max part is v = if_both (ValidResult max) (part == "") tt (
    if_both (ValidResult max) (contains_char b'-' part)
      (parse_range-Valid max part (split_char b'-' part) is v)
      (parse_index-Valid max part (atoi part) is v))

and_then-Valid :
    (max : ℕ) (r : Parsed) (go_on : List ℕ → Parsed)
    → ValidResult max r
    → ((is : List ℕ) → Valid max is → ValidResult max (go_on is))
    → ValidResult max (and_then r go_on)
unfolding and_then
and_then-Valid max (Parsed.failed e) go_on v next = tt
and_then-Valid max (Parsed.parsed is) go_on v next = next is v

module _ (u : Unicode) (max : ℕ) where
  parse_parts-Valid :
      (parts : List String) (is : List ℕ)
      → Valid max is
      → ValidResult max (parse_parts u max parts is)
  unfolding parse_parts
  parse_parts-Valid [] is v = v
  parse_parts-Valid (part ∷ parts) is v =
      and_then-Valid max (parse_part max (u.trim_space part) is) _
        (parse_part-Valid max (u.trim_space part) is v) (λ more w. parse_parts-Valid parts more w)

-- Whatever is typed: a list that is returned has only numbers from one to `max`, each of them once.
pub parse_delete_batch_indices-Valid :
    (u : Unicode) (spec : String) (max : ℕ)
    → ValidResult max (parse_delete_batch_indices u spec max)
unfolding parse_delete_batch_indices
parse_delete_batch_indices-Valid u spec max = parse_parts-Valid u max (split_char b',' spec) [] tt
