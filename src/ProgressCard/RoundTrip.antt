-- ===== src/ProgressCard/RoundTrip.antt =====
-- What the parser makes of a built payload (core/progress_compact.go).
use Prim.Native.String
use text.Mathlib.TextLemmas.{nil-append, cons-append}
use agent_in_chat_feishu.Unicode.{Unicode}
use agent_in_chat_feishu.Shared.{
  ◌≡◌, ◌≢◌, ◌⊎◌, refl, inl, inr, Bool, String, ◌==◌, some, List, [], ◌∷◌, arith, Bool-cases, map,
}
use agent_in_chat_feishu.ProgressCard.{
  ProgressCardEntry, Json, progress_card_payload_prefix, cut_prefix, clean_item, clean_items,
  clean_entries, payload_of, build_progress_card_payload_v2, complete, or_other, info, with_prefix,
  parse_progress_card_payload,
}

cut_prefix-append : (p s : String) → cut_prefix p (String.◌++◌ p s) ≡ some s
unfolding cut_prefix
cut_prefix-append String.[] s = rw (nil-append s) refl
cut_prefix-append (String.◌∷◌ c p) s =
    rw (cons-append c p s, cut_prefix, cut_prefix-append p s) (ground arith)

or_other_again : (a b : String) → or_other (or_other a b) b ≡ or_other a b
or_other_again a b = ground arith

List-cases {ℓ} : {A : Type ℓ} (xs : List A) → (xs ≡ []) ⊎ ((y : A) × (ys : List A) × (xs ≡ y ∷ ys))
List-cases [] = inl refl
List-cases (x ∷ xs) = inr (x, xs, refl)

module _ (u : Unicode)
    (trimmed : (s : String) → u.trim_space (u.trim_space s) ≡ u.trim_space s) where
  clean_items_again :
      (items : List ProgressCardEntry) → clean_items u (clean_items u items) ≡ clean_items u items
  unfolding clean_items clean_item
  clean_items_again [] = refl
  clean_items_again (item ∷ rest) = elim (Bool-cases (u.trim_space item.text == "")) [
    | inl e ↦ rw e (clean_items_again rest)
    | inr e ↦
        rw
          (
            e,
            clean_items,
            trimmed item.text,
            e,
            or_other_again item.kind info,
            trimmed item.tool,
            trimmed item.status,
            clean_items_again rest,
          )
          refl
  ]

  -- The parser on the text that is built from clean items.
  parse_built :
      (json : Json) (items : List ProgressCardEntry) (truncated : Bool) (agent lang state : String)
      → items ≢ []
      → clean_items u items ≡ items
      → json.unmarshal (json.marshal (payload_of u json items truncated agent lang state))
        ≡ some (payload_of u json items truncated agent lang state)
      → parse_progress_card_payload u json
          (with_prefix u json (payload_of u json items truncated agent lang state))
        ≡ some (record (payload_of u json items truncated agent lang state) {
          entries = map (λ item. item.text) items;
        })
  unfolding parse_progress_card_payload complete clean_entries
  parse_built json [] truncated agent lang state some_left clean read = absurd (some_left refl)
  parse_built json (i ∷ is) truncated agent lang state some_left clean read =
      rw
        (
          parse_progress_card_payload,
          cut_prefix-append progress_card_payload_prefix _,
          read,
          clean,
          or_other_again state,
        )
        refl

  built :
      (json : Json) (items : List ProgressCardEntry) (truncated : Bool) (agent lang state : String)
      → clean_items u items ≢ []
      → build_progress_card_payload_v2 u json items truncated agent lang state
        ≡ with_prefix u json (payload_of u json (clean_items u items) truncated agent lang state)
  unfolding build_progress_card_payload_v2
  built json items truncated agent lang state some_left = elim (List-cases (clean_items u items)) [
    | inl e ↦ absurd (some_left e)
    | inr (i, is, e) ↦ rw (build_progress_card_payload_v2, e) refl
  ]

  -- If the JSON of the payload can be read back, the parser gives the items that were cleaned for
  -- the payload, with their texts as the entries, unless all were blank.
  pub parse-build :
      (json : Json) (items : List ProgressCardEntry) (truncated : Bool) (agent lang state : String)
      → clean_items u items ≢ []
      → json.unmarshal
          (json.marshal (payload_of u json (clean_items u items) truncated agent lang state))
        ≡ some (payload_of u json (clean_items u items) truncated agent lang state)
      → parse_progress_card_payload u json
          (build_progress_card_payload_v2 u json items truncated agent lang state)
        ≡ some (record (payload_of u json (clean_items u items) truncated agent lang state) {
          entries = map (λ item. item.text) (clean_items u items);
        })
  parse-build json items truncated agent lang state some_left read =
      rw (built json items truncated agent lang state some_left) (
        parse_built json (clean_items u items) truncated agent lang state some_left
          (clean_items_again items) read)
