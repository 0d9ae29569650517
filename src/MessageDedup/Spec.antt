-- ===== src/MessageDedup/Spec.antt =====
-- What core/dedup.go promises: a message is a duplicate if its ID was last accepted within the TTL.
-- The specification forgets nothing; the code forgets at every call.
use mathlib.Core.Path.{ap₂}
use agent_in_chat_feishu.Shared.{
  ℕ, ◌≤◌, ◌≡◌, refl, ap, ◌∙◌, Bool, true, false, List, [], ◌∷◌, String, ◌==◌, Option, none, some,
  arith, if◌then◌else◌, Bool-cases, inl, inr, is_some,
}
use agent_in_chat_feishu.Shared.Dict.{
  lookup, insert, retain, has, lookup-insert, lookup-retain, IsMap, insert-IsMap, retain-IsMap,
  lookup_nil, keep_if,
}
use agent_in_chat_feishu.MessageDedup.{MessageDedup, is_alive, is_duplicate}

-- When each ID was last accepted.
abbrev pub Accepted : Type 0
Accepted = String → Option ℕ

abbrev pub within_ttl : ℕ → Option ℕ → Bool
within_ttl now none = false
within_ttl now (some t) = is_alive now t

unfoldable pub spec_duplicate : String → ℕ → Accepted → Accepted × Bool
spec_duplicate msg_id now accepted =
    if msg_id == ""
    then (accepted, false)
    else if within_ttl now (accepted msg_id)
    then (accepted, true)
    else (λ k. if msg_id == k then some now else accepted k, false)

abbrev pub InOrder : ℕ → List (ℕ × String) → Type 0
InOrder now [] = Unit {0}
InOrder now ((t, m) ∷ ms) = (now ≤ t) × InOrder t ms

unfoldable pub duplicates : List (ℕ × String) → MessageDedup → List Bool
duplicates [] seen = []
duplicates ((t, m) ∷ ms) seen =
    let (seen', dup) = is_duplicate m t seen in dup ∷ duplicates ms seen'

unfoldable pub spec_duplicates : List (ℕ × String) → Accepted → List Bool
spec_duplicates [] accepted = []
spec_duplicates ((t, m) ∷ ms) accepted =
    let (accepted', dup) = spec_duplicate m t accepted in dup ∷ spec_duplicates ms accepted'

-- From `now` on, both remember the same entries that are within the TTL.
record Represents (now : ℕ) (seen : MessageDedup) (accepted : Accepted) : Type 0 where
  is_map : IsMap seen
  same :
      (k : String) (t : ℕ)
      → now ≤ t
      → keep_if (is_alive t) (lookup k seen) ≡ keep_if (is_alive t) (accepted k)

keep-keep :
    (now t : ℕ) (o : Option ℕ)
    → now ≤ t
    → keep_if (is_alive t) (keep_if (is_alive now) o) ≡ keep_if (is_alive t) o
keep-keep now t none h = refl
keep-keep now t (some x) h = ground arith

module _ (now t : ℕ) (m : String) (seen : MessageDedup) (accepted : Accepted) (h : now ≤ t)
    (r : Represents now seen accepted) where
  live : MessageDedup
  live = retain (λ k. is_alive t) seen

  lookup-live : (k : String) → lookup k live ≡ keep_if (is_alive t) (accepted k)
  unfolding live
  lookup-live k = lookup-retain (λ j. is_alive t) k seen r.is_map ∙ r.same k t h

  live-Represents : Represents t live accepted
  unfolding live
  live-Represents = record {
    is_map = retain-IsMap (λ j. is_alive t) seen r.is_map;
    same = λ k u le. ap (keep_if (is_alive u)) (lookup-live k) ∙ keep-keep t u (accepted k) le;
  }

  has-live : has m live ≡ within_ttl t (accepted m)
  has-live = ap is_some (lookup-live m) ∙ kept (accepted m)
    where
      kept : (o : Option ℕ) → is_some (keep_if (is_alive t) o) ≡ within_ttl t o
      kept none = refl
      kept (some x) = ground arith

  duplicate-eq : (is_duplicate m t seen).1 ≡ (spec_duplicate m t accepted).1
  unfolding is_duplicate spec_duplicate live
  duplicate-eq = ground (arith, has-live)

  unchanged-Represents : Represents t seen accepted
  unchanged-Represents = record { is_map = r.is_map; same = λ k u le. r.same k u (omega arith) }

  accept-Represents : Represents t (insert m t live) (λ k. if m == k then some t else accepted k)
  accept-Represents = record {
    is_map = insert-IsMap m t live live-Represents.is_map;
    same = λ k u le. elim (Bool-cases (m == k)) [
      | inl e ↦ rw (lookup-insert m k t live, e)
      | inr e ↦ rw (lookup-insert m k t live, e) (live-Represents.same k u le)
    ];
  }

  duplicate-Represents : Represents t (is_duplicate m t seen).0 (spec_duplicate m t accepted).0
  unfolding is_duplicate spec_duplicate live
  duplicate-Represents = elim (Bool-cases (m == "")) [
    | inl blank ↦ rw (blank, is_duplicate, spec_duplicate) unchanged-Represents
    | inr named ↦ elim (Bool-cases (within_ttl t (accepted m))) [
      | inl dup ↦ rw (named, dup, has-live ∙ dup, is_duplicate, spec_duplicate) live-Represents
      | inr new ↦ rw (named, new, has-live ∙ new, is_duplicate, spec_duplicate) accept-Represents
    ]
  ]

duplicates-Represents :
    (now : ℕ) (ms : List (ℕ × String)) (seen : MessageDedup) (accepted : Accepted)
    → InOrder now ms
    → Represents now seen accepted
    → duplicates ms seen ≡ spec_duplicates ms accepted
unfolding duplicates spec_duplicates
duplicates-Represents now [] seen accepted o r = refl
duplicates-Represents now ((t, m) ∷ ms) seen accepted o r =
    ap₂ ◌∷◌ (duplicate-eq now t m seen accepted o.0 r) (
      duplicates-Represents t ms (is_duplicate m t seen).0 (spec_duplicate m t accepted).0 o.1
        (duplicate-Represents now t m seen accepted o.0 r))

-- Of any messages, in the order of their times, the filter calls exactly those duplicates whose ID
-- is not empty and was last accepted at most `dedup_ttl` before: what it forgets on the way never
-- changes an answer.
pub duplicates-spec_duplicates :
    (ms : List (ℕ × String)) → InOrder 0 ms → duplicates ms [] ≡ spec_duplicates ms (λ k. none)
duplicates-spec_duplicates ms o =
    duplicates-Represents 0 ms [] (λ k. none) o
      (record { is_map = tt; same = λ k t h. ground (arith, lookup_nil {V = ℕ} k) })
