-- ===== src/Shared/Lists.antt =====
-- Lists measured by native numbers, under the library's names, and lists of texts.
use Prim.Native.Nat.{ℕ, zero, suc, ◌+◌, ◌-◌, ◌≤◌, ◌<◌, min}
use Prim.Native.String.{String}
use text.Mathlib.Text.{◌==◌}
use text.Mathlib.TextEquality.{eq_iff}
use mathlib.Core.Path.{◌≡◌, refl}
use mathlib.Core.Bool.{Bool, true, false, ◌||◌}
use mathlib.Core.List.{List, [], ◌∷◌, ◌++◌}
use mathlib.Core.Option.{Option, none, some}
use native.Mathlib.Omega.{arith}
use agent_in_chat_feishu.Shared.Tests.{if◌then◌else◌}

module _ {ℓ} {A : Type ℓ} where
  abbrev pub length : List A → ℕ
  length [] = 0
  length (x ∷ xs) = suc (length xs)

  abbrev pub get_elem? : List A → ℕ → Option A
  get_elem? [] i = none
  get_elem? (x ∷ xs) zero = some x
  get_elem? (x ∷ xs) (suc i) = get_elem? xs i

  abbrev pub take : ℕ → List A → List A
  take zero xs = []
  take (suc n) [] = []
  take (suc n) (x ∷ xs) = x ∷ take n xs

  abbrev pub drop : ℕ → List A → List A
  drop zero xs = xs
  drop (suc n) [] = []
  drop (suc n) (x ∷ xs) = drop n xs

  pub length-append : (xs ys : List A) → length (xs ++ ys) ≡ length xs + length ys
  length-append [] ys = omega arith
  length-append (x ∷ xs) ys = omega (arith, length-append xs ys)

  pub take-append-drop : (n : ℕ) (xs : List A) → take n xs ++ drop n xs ≡ xs
  take-append-drop zero xs = refl
  take-append-drop (suc n) [] = refl
  take-append-drop (suc n) (x ∷ xs) = ground (arith, take-append-drop n xs)

  pub length-take : (n : ℕ) (xs : List A) → length (take n xs) ≡ min n (length xs)
  length-take zero xs = omega arith
  length-take (suc n) [] = omega arith
  length-take (suc n) (x ∷ xs) = omega (arith, length-take n xs)

  pub length-drop : (n : ℕ) (xs : List A) → length (drop n xs) ≡ length xs - n
  length-drop zero xs = omega arith
  length-drop (suc n) [] = omega arith
  length-drop (suc n) (x ∷ xs) = omega (arith, length-drop n xs)

-- Keep the elements that pass a test, in order.
unfoldable pub filter {ℓ} : {A : Type ℓ} → (A → Bool) → List A → List A
filter p [] = []
filter p (x ∷ xs) = let rest = filter p xs in if p x then x ∷ rest else rest

pub length-filter-le {ℓ} :
    {A : Type ℓ} (p : A → Bool) (xs : List A) → length (filter p xs) ≤ length xs
unfolding filter
length-filter-le p [] = omega arith
length-filter-le p (x ∷ xs) = ground (arith, length-filter-le p xs)

-- Whether a text stands in a list of texts.
unfoldable pub contains : List String → String → Bool
contains [] a = false
contains (x ∷ xs) a = x == a || contains xs a

-- Remove the first occurrence: `append(l[:i], l[i+1:]...)` at the first hit, then `break`.
unfoldable pub remove_first : String → List String → List String
remove_first a [] = []
remove_first a (x ∷ xs) = if x == a then xs else x ∷ remove_first a xs

-- No text stands twice in the list.
abbrev pub Distinct : List String → Type 0
Distinct [] = Unit {0}
Distinct (x ∷ xs) = (contains xs x ≡ false) × Distinct xs

pub contains-append :
    (xs ys : List String) (a : String) → contains (xs ++ ys) a ≡ (contains xs a || contains ys a)
unfolding contains
contains-append [] ys a = refl
contains-append (x ∷ xs) ys a = ground (arith, contains-append xs ys a)

pub contains_cons :
    (x : String) (xs : List String) (a : String) → contains (x ∷ xs) a ≡ (x == a || contains xs a)
unfolding contains
contains_cons x xs a = refl

pub contains_nil : (a : String) → contains [] a ≡ false
unfolding contains
contains_nil a = refl

-- Removing one occurrence from a list without repetitions removes the text.
pub contains-remove_first :
    (a b : String) (xs : List String)
    → Distinct xs
    → contains (remove_first a xs) b ≡ (if a == b then false else contains xs b)
unfolding contains remove_first
contains-remove_first a b [] d = ground arith
contains-remove_first a b (x ∷ xs) d =
    ground (arith, eq_iff x a, eq_iff a b, eq_iff x b, contains-remove_first a b xs d.1)

pub contains-remove_first_le :
    (a b : String) (xs : List String)
    → contains xs b ≡ false
    → contains (remove_first a xs) b ≡ false
unfolding contains remove_first
contains-remove_first_le a b [] h = refl
contains-remove_first_le a b (x ∷ xs) h = ground (arith, contains-remove_first_le a b xs)

pub remove_first-Distinct :
    (a : String) (xs : List String) → Distinct xs → Distinct (remove_first a xs)
unfolding remove_first contains
remove_first-Distinct a [] d = tt
remove_first-Distinct a (x ∷ xs) d =
    ground (arith, remove_first-Distinct a xs d.1, contains-remove_first_le a x xs d.0)

pub snoc-Distinct :
    (xs : List String) (a : String)
    → Distinct xs
    → contains xs a ≡ false
    → Distinct (xs ++ (a ∷ []))
unfolding contains
snoc-Distinct [] a d h = (refl, tt)
snoc-Distinct (x ∷ xs) a d h =
    ground (arith, eq_iff x a, eq_iff a x, snoc-Distinct xs a d.1, contains-append xs (a ∷ []) x)

contains-pos : (xs : List String) (a : String) → contains xs a ≡ true → 0 < length xs
unfolding contains
contains-pos [] a h = cc
contains-pos (x ∷ xs) a h = omega arith

pub length-remove_first :
    (a : String) (xs : List String)
    → length (remove_first a xs) ≡ (if contains xs a then length xs - 1 else length xs)
unfolding remove_first contains
length-remove_first a [] = refl
length-remove_first a (x ∷ xs) = ground (arith, length-remove_first a xs, contains-pos xs a)
