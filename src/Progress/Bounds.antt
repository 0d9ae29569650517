-- ===== src/Progress/Bounds.antt =====
-- How long the content of a progress message gets (core/progress_compact.go).
use Prim.Native.Char.{code}
use Prim.Native.String.{count}
use text.Mathlib.TextLemmas.{length-nil, length-cons, length-append}
use agent_in_chat_feishu.Shared.{
  ℕ, ◌+◌, ◌-◌, ◌≤◌, ◌<◌, ◌≡◌, refl, sym, subst, ◌∙◌, inl, inr, Bool, true, false, not, ◌||◌, ◌&&◌,
  String, ◌==◌, none, some, List, [], ◌∷◌, ◌++◌, arith, length, length-drop, eqb, leb,
  if◌then◌else◌, Bool-cases, Option-cases, if_both, if_cases,
}
use agent_in_chat_feishu.Replies.{drop_runes}
use agent_in_chat_feishu.Replies.Chunks.{count-drop_runes}
use agent_in_chat_feishu.StreamPreview.{Answer, Call, is_okay}
use agent_in_chat_feishu.ProgressCard.{ProgressCardEntry, or_other, completed, cut_prefix}
use agent_in_chat_feishu.Progress.{
  Env, CompactProgressWriter, new_compact_progress_writer, last_of, max_entries, trim_newlines,
  trim_compact_progress_text, compact_progress_max_chars, or_all,
}
use agent_in_chat_feishu.Progress.Writer.{
  filled, render, add_card, add_text, note, started, sent, updated, deliver, append_structured,
  change_state, finalize, Act, act, run, payload_content, is_blank,
}

count-cut_prefix : (p s r : String) → cut_prefix p s ≡ some r → count r ≤ count s
unfolding cut_prefix
count-cut_prefix String.[] s r h = ground arith
count-cut_prefix (String.◌∷◌ c p) String.[] r h = absurd (cc)
count-cut_prefix (String.◌∷◌ c p) (String.◌∷◌ d s) r h = elim (Bool-cases (eqb (code c) (code d))) [
  | inl e ↦ omega (
    arith,
    count-cut_prefix p s r (subst (λ b. (if b then cut_prefix p s else none) ≡ some r) e h),
    length-cons d s,
  )
  | inr e ↦ absurd (ground arith)
]

count-trim_newlines : (s : String) → count (trim_newlines s) ≤ count s
unfolding trim_newlines
count-trim_newlines String.[] = omega arith
count-trim_newlines (String.◌∷◌ c s) =
    if_both (λ t. count t ≤ count (String.◌∷◌ c s)) (eqb (code c) 10)
      (omega (arith, count-trim_newlines s, length-cons c s)) (omega arith)

trim_compact_progress_text-le :
    (s : String) (max_runes : ℕ)
    → 0 < max_runes
    → count (trim_compact_progress_text s max_runes) ≤ max_runes + 2
unfolding trim_compact_progress_text
trim_compact_progress_text-le s max_runes h =
    let body = or_all s (cut_prefix "…\n" s) in
    let over = count body - max_runes in
    let tail = trim_newlines (drop_runes over body) in
    if_cases (λ t. count t ≤ max_runes + 2) (leb max_runes 0) (λ e. absurd (ground arith))
      (λ e.
        if_cases (λ t. count t ≤ max_runes + 2) (leb (count body) max_runes) (λ k. ground arith)
          (λ k. ground (
            arith,
            length-append "…\n" tail,
            count-trim_newlines (drop_runes over body),
            count-drop_runes over body,
          )))

-- The limits of a card and of a text.
unfoldable pub IsShort : CompactProgressWriter → Type 0
IsShort w =
    (length w.items ≤ max_entries)
    × (length w.entries ≤ max_entries)
    × (w.use_payload ≡ false → count w.content ≤ compact_progress_max_chars + 2)

last_of-le {ℓ} : {A : Type ℓ} (n : ℕ) (xs : List A) → length (last_of n xs) ≤ n
last_of-le n xs = omega (arith, length-drop (length xs - n) xs)

module _ (env : Env) where
  -- Sending changes neither the content nor the card.
  abbrev SameContent : CompactProgressWriter → CompactProgressWriter → Type 0
  SameContent w v =
      (v.items ≡ w.items)
      × (v.entries ≡ w.entries)
      × (v.use_payload ≡ w.use_payload)
      × (v.content ≡ w.content)

  updated-SameContent :
      (answer : Answer) (w : CompactProgressWriter) → SameContent w (updated env answer w).0
  unfolding updated
  updated-SameContent Answer.error w = (refl, refl, refl, refl)
  updated-SameContent (Answer.okay h) w = (refl, refl, refl, refl)

  started-SameContent :
      (answer : Answer) (w : CompactProgressWriter) → SameContent w (started env answer w).0
  unfolding started
  started-SameContent Answer.error w = (refl, refl, refl, refl)
  started-SameContent (Answer.okay none) w = (refl, refl, refl, refl)
  started-SameContent (Answer.okay (some h)) w = (refl, refl, refl, refl)

  sent-SameContent :
      (answer : Answer) (w : CompactProgressWriter) → SameContent w (sent env answer w).0
  unfolding sent
  sent-SameContent Answer.error w = (refl, refl, refl, refl)
  sent-SameContent (Answer.okay h) w = (refl, refl, refl, refl)

  deliver-SameContent :
      (answer : Answer) (w : CompactProgressWriter) → SameContent w (deliver env answer w).0
  unfolding deliver
  deliver-SameContent answer w =
      if_both {S = CompactProgressWriter × Bool} (λ r. SameContent w r.0) (w.content == w.last_sent)
        (refl, refl, refl, refl)
        (elim (Option-cases w.handle) [
          | inr (handle, k) ↦
              rw k (
                updated-SameContent answer
                  (note (Call.updated handle w.content (is_okay answer)) w))
          | inl k ↦ rw k (
              if_both {S = CompactProgressWriter × Bool} (λ r. SameContent w r.0) env.target.starts
                (started-SameContent answer (note (Call.started w.content (is_okay answer)) w))
                (sent-SameContent answer (note (Call.sent w.content (is_okay answer)) w)))
        ])

  same-IsShort : (w v : CompactProgressWriter) → SameContent w v → IsShort w → IsShort v
  unfolding IsShort
  same-IsShort w v (items, entries, payload, content) h =
      (rw items h.0, rw entries h.1, λ k. rw content (h.2 (sym payload ∙ k)))

  filled-IsShort :
      (item : ProgressCardEntry) (fallback : String) (w : CompactProgressWriter)
      → IsShort w
      → IsShort (filled env item fallback w)
  unfolding filled IsShort render add_card add_text
  filled-IsShort item fallback w h =
      if_both IsShort (w.style == "card")
        (
          last_of-le max_entries (w.items ++ _ ∷ []),
          last_of-le max_entries (w.entries ++ _ ∷ []),
          λ k. rw k (trim_compact_progress_text-le _ compact_progress_max_chars (omega arith)),
        )
        (h.0, h.1, λ k. trim_compact_progress_text-le _ compact_progress_max_chars (omega arith))

  append_structured-IsShort :
      (item : ProgressCardEntry) (fallback : String) (answer : Answer) (w : CompactProgressWriter)
      → IsShort w
      → IsShort (append_structured env item fallback answer w).0
  unfolding append_structured
  append_structured-IsShort item fallback answer w h =
      let next = filled env item fallback w in
      let short = filled-IsShort item fallback w h in
      if_both {S = CompactProgressWriter × Bool} (λ r. IsShort r.0) (not w.enabled || w.failed) h
        (if_both {S = CompactProgressWriter × Bool} (λ r. IsShort r.0) (is_blank env item fallback)
          h
          (if_both {S = CompactProgressWriter × Bool} (λ r. IsShort r.0)
            (w.style == "card" && w.use_payload && next.content == "")
            (same-IsShort next (record next { failed = true }) (refl, refl, refl, refl) short)
            (same-IsShort next _ (deliver-SameContent answer next) short)))

  -- A card with a payload, whose content is not bounded.
  payload-IsShort :
      (content state : String) (w : CompactProgressWriter)
      → w.use_payload ≡ true
      → IsShort w
      → IsShort (record w { content = content; state = state })
  unfolding IsShort
  payload-IsShort content state w payload h = (h.0, h.1, λ k. absurd (cc))

  finalize-IsShort :
      (state : String) (answer : Answer) (w : CompactProgressWriter)
      → IsShort w
      → IsShort (finalize env state answer w).0
  unfolding finalize change_state
  finalize-IsShort state answer w h =
      if_cases {S = CompactProgressWriter × Bool} (λ r. IsShort r.0)
        (not w.enabled || w.failed || not (w.style == "card") || not w.use_payload) (λ e. h)
        (λ e. elim (Option-cases w.handle) [
          | inl k ↦ rw k h
          | inr (handle, k) ↦
              let to = or_other state completed in
              let moved : CompactProgressWriter = record w { state = to } in
              let content = payload_content env moved in
              let next : CompactProgressWriter = record moved { content = content } in
              let short = payload-IsShort content to w (ground arith) h in
              rw k (
                if_both {S = CompactProgressWriter × Bool} (λ r. IsShort r.0) (w.state == to) h
                  (if_both {S = CompactProgressWriter × Bool} (λ r. IsShort r.0)
                    (content == "" || content == w.last_sent) short
                    (same-IsShort next _
                      (updated-SameContent answer
                        (note (Call.updated handle content (is_okay answer)) next))
                      short)))
        ])

  run-IsShort_from :
      (acts : List (Act env)) (w : CompactProgressWriter) → IsShort w → IsShort (run env acts w)
  unfolding run act
  run-IsShort_from [] w h = h
  run-IsShort_from (Act.appends item fallback answer ∷ acts) w h =
      run-IsShort_from acts _ (append_structured-IsShort item fallback answer w h)
  run-IsShort_from (Act.finalizes state answer ∷ acts) w h =
      run-IsShort_from acts _ (finalize-IsShort state answer w h)

  -- Whatever is appended, whatever fails, and however the state changes: a card keeps at most ten
  -- items and ten texts, and a content that is not a payload has at most 3802 runes, which is
  -- below the 4000 that a platform takes.
  pub run-IsShort :
      (acts : List (Act env))
      → IsShort (run env acts (new_compact_progress_writer env.unicode env.target))
  unfolding IsShort new_compact_progress_writer
  run-IsShort acts =
      run-IsShort_from acts (new_compact_progress_writer env.unicode env.target)
        (omega arith, omega arith, λ k. omega (arith, length-nil))
