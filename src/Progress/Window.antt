-- ===== src/Progress/Window.antt =====
-- Which entries a progress card keeps (core/progress_compact.go).
use agent_in_chat_feishu.Shared.{
  ◌≡◌, refl, inl, inr, Bool, true, false, not, ◌||◌, ◌&&◌, String, ◌==◌, eq_iff, Option, none, some,
  List, [], ◌∷◌, ◌++◌, append-nil, arith, length, ltb, if◌then◌else◌, Bool-cases, Option-cases,
  if_both, if_cases,
}
use agent_in_chat_feishu.StreamPreview.{Answer, Call, is_okay}
use agent_in_chat_feishu.ProgressCard.{ProgressCardEntry, or_other, completed}
use agent_in_chat_feishu.Progress.{Env, CompactProgressWriter, last_of, max_entries}
use agent_in_chat_feishu.Progress.Writer.{
  is_blank, filled, render, add_card, note, started, sent, updated, deliver, append_structured,
  change_state, finalize, Act, kept_item, kept_fallback, payload_content,
}
use agent_in_chat_feishu.Progress.Last.{last_of-snoc, over-last_of}

-- While nothing failed, the card holds the latest of what was appended.
unfoldable pub IsWindow : List ProgressCardEntry → List String → CompactProgressWriter → Type 0
IsWindow items entries w =
    (w.enabled ≡ true)
    × (w.style ≡ "card")
    × (w.failed ≡ false
        → (w.items ≡ last_of max_entries items)
          × (w.entries ≡ last_of max_entries entries)
          × (w.truncated ≡ (ltb max_entries (length items) || ltb max_entries (length entries))))

window_enabled :
    (items : List ProgressCardEntry) (entries : List String) (w : CompactProgressWriter)
    → IsWindow items entries w
    → w.enabled ≡ true
unfolding IsWindow
window_enabled items entries w h = h.0

module _ (env : Env) where
  -- The items of the appends that are not blank, and their fallbacks.
  unfoldable pub kept_items : List (Act env) → List ProgressCardEntry
  kept_items [] = []
  kept_items (Act.appends item fallback answer ∷ acts) =
      let rest = kept_items acts in
      if is_blank env item fallback then rest else kept_item env item fallback ∷ rest
  kept_items (Act.finalizes state answer ∷ acts) = kept_items acts

  unfoldable pub kept_fallbacks : List (Act env) → List String
  kept_fallbacks [] = []
  kept_fallbacks (Act.appends item fallback answer ∷ acts) =
      let rest = kept_fallbacks acts in
      if is_blank env item fallback then rest else kept_fallback env item fallback ∷ rest
  kept_fallbacks (Act.finalizes state answer ∷ acts) = kept_fallbacks acts

  module _ (items : List ProgressCardEntry) (entries : List String) where
    fail-IsWindow :
        (w : CompactProgressWriter)
        → IsWindow items entries w
        → IsWindow items entries (record w { failed = true })
    unfolding IsWindow
    fail-IsWindow w h = (h.0, h.1, λ f. absurd (cc))

    -- The other fields do not matter.
    others-IsWindow :
        (content state last_sent : String) (handle : Option String) (calls : List Call)
        (w : CompactProgressWriter)
        → IsWindow items entries w
        → IsWindow items entries (record w {
          content = content;
          state = state;
          last_sent = last_sent;
          handle = handle;
          calls = calls;
        })
    unfolding IsWindow
    others-IsWindow content state last_sent handle calls w h = h

    updated-IsWindow :
        (answer : Answer) (w : CompactProgressWriter)
        → IsWindow items entries w
        → IsWindow items entries (updated env answer w).0
    unfolding updated
    updated-IsWindow Answer.error w h = fail-IsWindow w h
    updated-IsWindow (Answer.okay a) w h =
        others-IsWindow w.content w.state w.content w.handle w.calls w h

    started-IsWindow :
        (answer : Answer) (w : CompactProgressWriter)
        → IsWindow items entries w
        → IsWindow items entries (started env answer w).0
    unfolding started
    started-IsWindow Answer.error w h = fail-IsWindow w h
    started-IsWindow (Answer.okay none) w h = fail-IsWindow w h
    started-IsWindow (Answer.okay (some a)) w h =
        others-IsWindow w.content w.state w.content (some a) w.calls w h

    sent-IsWindow :
        (answer : Answer) (w : CompactProgressWriter)
        → IsWindow items entries w
        → IsWindow items entries (sent env answer w).0
    unfolding sent
    sent-IsWindow Answer.error w h = fail-IsWindow w h
    sent-IsWindow (Answer.okay a) w h =
        others-IsWindow w.content w.state w.content (some env.reply_ctx) w.calls w h

    note-IsWindow :
        (call : Call) (w : CompactProgressWriter)
        → IsWindow items entries w
        → IsWindow items entries (note call w)
    note-IsWindow call w h =
        others-IsWindow w.content w.state w.last_sent w.handle (call ∷ w.calls) w h

    deliver-IsWindow :
        (answer : Answer) (w : CompactProgressWriter)
        → IsWindow items entries w
        → IsWindow items entries (deliver env answer w).0
    unfolding deliver
    deliver-IsWindow answer w h =
        if_both {S = CompactProgressWriter × Bool} (λ r. IsWindow items entries r.0)
          (w.content == w.last_sent) h
          (elim (Option-cases w.handle) [
            | inr (handle, k) ↦ rw k (
                updated-IsWindow answer (note (Call.updated handle w.content (is_okay answer)) w)
                  (note-IsWindow (Call.updated handle w.content (is_okay answer)) w h))
            | inl k ↦ rw k (
                if_both {S = CompactProgressWriter × Bool} (λ r. IsWindow items entries r.0)
                  env.target.starts
                  (started-IsWindow answer (note (Call.started w.content (is_okay answer)) w)
                    (note-IsWindow (Call.started w.content (is_okay answer)) w h))
                  (sent-IsWindow answer (note (Call.sent w.content (is_okay answer)) w)
                    (note-IsWindow (Call.sent w.content (is_okay answer)) w h)))
          ])

    pub finalize-IsWindow :
        (state : String) (answer : Answer) (w : CompactProgressWriter)
        → IsWindow items entries w
        → IsWindow items entries (finalize env state answer w).0
    unfolding finalize change_state
    finalize-IsWindow state answer w h =
        if_both {S = CompactProgressWriter × Bool} (λ r. IsWindow items entries r.0)
          (not w.enabled || w.failed || not (w.style == "card") || not w.use_payload) h
          (elim (Option-cases w.handle) [
            | inl e ↦ rw e h
            | inr (handle, e) ↦
                let moved : CompactProgressWriter = record w { state = or_other state completed } in
                let content = payload_content env moved in
                let next : CompactProgressWriter = record moved { content = content } in
                let kept = others-IsWindow content moved.state w.last_sent w.handle w.calls w h in
                rw e (
                  if_both {S = CompactProgressWriter × Bool} (λ r. IsWindow items entries r.0)
                    (w.state == or_other state completed) h
                    (if_both {S = CompactProgressWriter × Bool} (λ r. IsWindow items entries r.0)
                      (content == "" || content == w.last_sent) kept
                      (updated-IsWindow answer
                        (note (Call.updated handle content (is_okay answer)) next)
                        (note-IsWindow (Call.updated handle content (is_okay answer)) next kept))))
          ])

    filled-IsWindow :
        (item : ProgressCardEntry) (fallback : String) (w : CompactProgressWriter)
        → w.failed ≡ false
        → IsWindow items entries w
        → IsWindow
            (items ++ kept_item env item fallback ∷ [])
            (entries ++ kept_fallback env item fallback ∷ [])
            (filled env item fallback w)
    unfolding filled IsWindow render add_card
    filled-IsWindow item fallback w f h =
        let new = kept_item env item fallback in
        let text = kept_fallback env item fallback in
        let card = (eq_iff w.style "card").1 h.1 in
        let (same_items, same_entries, cut) = h.2 f in
        rw (card) (
          h.0,
          h.1,
          λ k. (
            rw (same_items) (last_of-snoc max_entries items new),
            rw (same_entries) (last_of-snoc max_entries entries text),
            rw
                (
                  same_items,
                  same_entries,
                  over-last_of max_entries items new,
                  over-last_of max_entries entries text,
                )
                refl,
          ),
        )

  failed-IsWindow :
      (items more : List ProgressCardEntry) (entries most : List String) (w : CompactProgressWriter)
      → w.failed ≡ true
      → IsWindow items entries w
      → IsWindow more most w
  unfolding IsWindow
  failed-IsWindow items more entries most w f h = (h.0, h.1, λ k. absurd (cc))

  pub append_structured-IsWindow :
      (item : ProgressCardEntry) (fallback : String) (answer : Answer)
      (items : List ProgressCardEntry) (entries : List String) (w : CompactProgressWriter)
      → IsWindow items entries w
      → IsWindow
          (items ++ kept_items (Act.appends item fallback answer ∷ []))
          (entries ++ kept_fallbacks (Act.appends item fallback answer ∷ []))
          (append_structured env item fallback answer w).0
  unfolding append_structured kept_items kept_fallbacks
  append_structured-IsWindow item fallback answer items entries w h =
      let on = window_enabled items entries w h in
      let next = filled env item fallback w in
      if_cases {S = CompactProgressWriter × Bool}
        (λ r.
          IsWindow (items ++ kept_items (Act.appends item fallback answer ∷ []))
            (entries ++ kept_fallbacks (Act.appends item fallback answer ∷ [])) r.0)
        (not w.enabled || w.failed) (λ e. failed-IsWindow items _ entries _ w (ground arith) h)
        (λ e. elim (Bool-cases (is_blank env item fallback)) [
          | inl b ↦ rw (b, append-nil items, append-nil entries) h
          | inr b ↦
              let kept = filled-IsWindow items entries item fallback w (ground arith) h in
              rw b (
                if_both {S = CompactProgressWriter × Bool}
                  (λ r.
                    IsWindow (items ++ kept_item env item fallback ∷ [])
                      (entries ++ kept_fallback env item fallback ∷ []) r.0)
                  (w.style == "card" && w.use_payload && next.content == "")
                  (fail-IsWindow _ _ next kept) (deliver-IsWindow _ _ answer next kept))
        ])
