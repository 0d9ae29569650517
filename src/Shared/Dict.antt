-- ===== src/Shared/Dict.antt =====
-- Go's maps with text keys, as association lists. An access reads the first entry of a key; the
-- list's order stands for the order that `range` chooses.
use Prim.Native.String.{String}
use text.Mathlib.Text.{◌==◌}
use text.Mathlib.TextEquality.{eq_iff}
use text.Mathlib.TextPositions.{eq_refl}
use mathlib.Core.Path.{◌≡◌, refl}
use mathlib.Core.Bool.{Bool, true, false, ◌||◌}
use mathlib.Core.List.{List, [], ◌∷◌}
use mathlib.Core.Logic.{inl, inr}
use mathlib.Core.Option
use mathlib.Core.Option.{Option, none, some}
use native.Mathlib.Omega.{arith}
use agent_in_chat_feishu.Shared.Tests.{if◌then◌else◌, is_some, Bool-cases}

abbrev pub Dict {ℓ} : Type ℓ → Type ℓ
Dict V = List (String × V)

module _ {ℓ} {V : Type ℓ} where
  -- `value, ok := m[key]`
  unfoldable pub lookup : String → Dict V → Option V
  lookup key [] = none
  lookup key ((at, value) ∷ rest) =
      let further = lookup key rest in if at == key then some value else further

  -- `m[key] = value`
  unfoldable pub insert : String → V → Dict V → Dict V
  insert key value [] = (key, value) ∷ []
  insert key value ((at, old) ∷ rest) =
      let further = (at, old) ∷ insert key value rest in
      if at == key then (key, value) ∷ rest else further

  -- `delete(m, k)`
  unfoldable pub delete : String → Dict V → Dict V
  delete k [] = []
  delete k ((j, v) ∷ m) = let rest = delete k m in if j == k then rest else (j, v) ∷ rest

  abbrev pub has : String → Dict V → Bool
  has k m = is_some (lookup k m)

  unfoldable pub keys : Dict V → List String
  keys [] = []
  keys ((k, v) ∷ m) = k ∷ keys m

  -- Visit every entry and replace its value.
  unfoldable pub update_all : (String → V → V) → Dict V → Dict V
  update_all f [] = []
  update_all f ((k, v) ∷ m) = (k, f k v) ∷ update_all f m

  -- Keep the entries that pass a test: a `range` loop that deletes.
  unfoldable pub retain : (String → V → Bool) → Dict V → Dict V
  retain p [] = []
  retain p ((k, v) ∷ m) = let rest = retain p m in if p k v then (k, v) ∷ rest else rest

  -- Whether some entry passes a test: a `range` loop that breaks at the first hit.
  unfoldable pub exists : (String → V → Bool) → Dict V → Bool
  exists p [] = false
  exists p ((k, v) ∷ m) = p k v || exists p m

  -- A list that a Go map could be: no key stands twice.
  abbrev pub IsMap : Dict V → Type ℓ
  IsMap [] = Unit
  IsMap ((k, v) ∷ m) = (lookup k m ≡ none) × IsMap m

  abbrev pub keep_if : (V → Bool) → Option V → Option V
  keep_if p none = none
  keep_if p (some v) = if p v then some v else none

  pub lookup_nil : (k : String) → lookup k [] ≡ none
  unfolding lookup
  lookup_nil k = refl

  pub lookup-insert :
      (key wanted : String) (value : V) (m : Dict V)
      → lookup wanted (insert key value m) ≡ (if key == wanted then some value else lookup wanted m)
  unfolding insert lookup
  lookup-insert key wanted value [] = refl
  lookup-insert key wanted value ((at, old) ∷ rest) = ground (
    arith,
    lookup-insert key wanted value rest,
    eq_iff at key,
    eq_iff at wanted,
    eq_iff key wanted,
  )

  pub lookup-delete :
      (k j : String) (m : Dict V) → lookup j (delete k m) ≡ (if k == j then none else lookup j m)
  unfolding lookup delete
  lookup-delete k j [] = ground arith
  lookup-delete k j ((i, w) ∷ m) =
      ground (arith, eq_iff k j, eq_iff i k, eq_iff i j, lookup-delete k j m)

  pub lookup-update_all :
      (f : String → V → V) (k : String) (m : Dict V)
      → lookup k (update_all f m) ≡ Option.map (f k) (lookup k m)
  unfolding lookup update_all
  lookup-update_all f k [] = refl
  lookup-update_all f k ((j, v) ∷ m) = ground (arith, eq_iff j k, lookup-update_all f k m)

  -- In a map, `retain` drops exactly the keys whose value fails the test.
  pub lookup-retain :
      (p : String → V → Bool) (k : String) (m : Dict V)
      → IsMap m
      → lookup k (retain p m) ≡ keep_if (p k) (lookup k m)
  unfolding lookup retain
  lookup-retain p k [] h = refl
  lookup-retain p k ((j, v) ∷ m) h = ground (arith, eq_iff j k, lookup-retain p k m h.1)

  pub insert-IsMap : (k : String) (v : V) (m : Dict V) → IsMap m → IsMap (insert k v m)
  unfolding insert
  insert-IsMap k v [] h = (lookup_nil k, tt)
  insert-IsMap k v ((j, w) ∷ m) h =
      ground (arith, eq_iff j k, eq_iff k j, insert-IsMap k v m h.1, lookup-insert k j v m)

  pub delete-IsMap : (k : String) (m : Dict V) → IsMap m → IsMap (delete k m)
  unfolding delete
  delete-IsMap k [] h = tt
  delete-IsMap k ((j, w) ∷ m) h = ground (arith, delete-IsMap k m h.1, lookup-delete k j m)

  pub update_all-IsMap : (f : String → V → V) (m : Dict V) → IsMap m → IsMap (update_all f m)
  unfolding update_all
  update_all-IsMap f [] h = tt
  update_all-IsMap f ((j, w) ∷ m) h =
      ground (arith, update_all-IsMap f m h.1, lookup-update_all f j m)

  pub retain-IsMap : (p : String → V → Bool) (m : Dict V) → IsMap m → IsMap (retain p m)
  unfolding retain
  retain-IsMap p [] h = tt
  retain-IsMap p ((j, w) ∷ m) h = ground (arith, retain-IsMap p m h.1, lookup-retain p j m h.1)

  -- The loop finds an entry exactly if a key of the map has one.
  pub exists_of_lookup :
      (p : String → V → Bool) (k : String) (v : V) (m : Dict V)
      → lookup k m ≡ some v
      → exists p m ≡ false
      → p k v ≡ false
  unfolding lookup exists
  exists_of_lookup p k v [] h e = cc
  exists_of_lookup p k v ((j, w) ∷ m) h e = ground (arith, eq_iff j k, exists_of_lookup p k v m)

  pub lookup_of_exists :
      (p : String → V → Bool) (m : Dict V)
      → IsMap m
      → exists p m ≡ true
      → (k : String) × (v : V) × (lookup k m ≡ some v) × (p k v ≡ true)
  unfolding lookup exists
  lookup_of_exists p [] h e = cc
  lookup_of_exists p ((j, w) ∷ m) h e = elim (Bool-cases (p j w)) [
    | inl hit ↦ (j, w, ground (arith, eq_refl j), hit)
    | inr miss ↦
        let (k, v, found, passes) = lookup_of_exists p m h.1 (ground arith) in
        (k, v, ground (arith, eq_iff j k), passes)
  ]
