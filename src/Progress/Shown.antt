-- ===== src/Progress/Shown.antt =====
-- What the platform shows while a turn runs (core/progress_compact.go).
use agent_in_chat_feishu.Shared.{
  ◌≡◌, refl, inl, inr, Bool, true, false, not, ◌||◌, ◌&&◌, String, ◌==◌, eq_iff, none, some, List,
  [], ◌∷◌, arith, Bool-cases, Option-cases, if_both, if_cases,
}
use agent_in_chat_feishu.StreamPreview.{Answer, Call, is_okay}
use agent_in_chat_feishu.StreamPreview.Sent.{latest_text}
use agent_in_chat_feishu.ProgressCard.{ProgressCardEntry, or_other, completed}
use agent_in_chat_feishu.Progress.{Env, CompactProgressWriter, new_compact_progress_writer}
use agent_in_chat_feishu.Progress.Writer.{
  payload_content, is_blank, filled, render, add_card, add_text, started, sent, updated, deliver,
  append_structured, change_state, finalize, Act, act, run,
}

-- Unless a call failed, the platform has what the writer takes for sent.
unfoldable pub IsSent : CompactProgressWriter → Type 0
IsSent w = w.failed ≡ false → latest_text w.calls ≡ w.last_sent

-- The writer stays so, and where it reports success, the platform has the content.
unfoldable pub IsDone : CompactProgressWriter × Bool → Type 0
unfolding IsSent
IsDone r = IsSent r.0 × (r.1 ≡ true → latest_text r.0.calls ≡ r.0.content)

module _ (env : Env) where
  fail-IsDone : (w : CompactProgressWriter) → IsDone (record w { failed = true }, false)
  unfolding IsDone IsSent
  fail-IsDone w = ((λ f. cc), λ t. cc)

  refused-IsDone : (w : CompactProgressWriter) → IsSent w → IsDone (w, false)
  unfolding IsDone
  refused-IsDone w h = (h, λ t. cc)

  state-IsSent :
      (state content : String) (w : CompactProgressWriter)
      → IsSent w
      → IsSent (record w { state = state; content = content })
  unfolding IsSent
  state-IsSent state content w h = h

  filled-IsSent :
      (item : ProgressCardEntry) (fallback : String) (w : CompactProgressWriter)
      → IsSent w
      → IsSent (filled env item fallback w)
  unfolding filled IsSent render add_card add_text
  filled-IsSent item fallback w h = if_both IsSent (w.style == "card") h h

  updated-IsDone :
      (handle : String) (answer : Answer) (w : CompactProgressWriter)
      → IsDone (
          updated env answer
            (record w { calls = Call.updated handle w.content (is_okay answer) ∷ w.calls }))
  unfolding updated IsDone IsSent latest_text
  updated-IsDone handle Answer.error w = ((λ f. cc), λ t. cc)
  updated-IsDone handle (Answer.okay h) w = ((λ f. refl), λ t. refl)

  started-IsDone :
      (answer : Answer) (w : CompactProgressWriter)
      → IsDone (
          started env answer
            (record w { calls = Call.started w.content (is_okay answer) ∷ w.calls }))
  unfolding started IsDone IsSent latest_text
  started-IsDone Answer.error w = ((λ f. cc), λ t. cc)
  started-IsDone (Answer.okay none) w = ((λ f. cc), λ t. cc)
  started-IsDone (Answer.okay (some h)) w = ((λ f. refl), λ t. refl)

  sent-IsDone :
      (answer : Answer) (w : CompactProgressWriter)
      → IsDone
          (sent env answer (record w { calls = Call.sent w.content (is_okay answer) ∷ w.calls }))
  unfolding sent IsDone IsSent latest_text
  sent-IsDone Answer.error w = ((λ f. cc), λ t. cc)
  sent-IsDone (Answer.okay h) w = ((λ f. refl), λ t. refl)

  unchanged-IsDone :
      (w : CompactProgressWriter)
      → w.failed ≡ false
      → (w.content == w.last_sent) ≡ true
      → IsSent w
      → IsDone (w, true)
  unfolding IsDone IsSent
  unchanged-IsDone w f e h = (h, λ t. rw ((eq_iff w.content w.last_sent).0 e) (h f))

  deliver-IsDone :
      (answer : Answer) (w : CompactProgressWriter)
      → w.failed ≡ false
      → IsSent w
      → IsDone (deliver env answer w)
  unfolding deliver
  deliver-IsDone answer w f h =
      if_cases IsDone (w.content == w.last_sent) (λ e. unchanged-IsDone w f e h)
        (λ e. elim (Option-cases w.handle) [
          | inr (handle, k) ↦ rw k (updated-IsDone handle answer w)
          | inl k ↦
              rw k
                (if_both IsDone env.target.starts (started-IsDone answer w) (sent-IsDone answer w))
        ])

  filled-failed :
      (item : ProgressCardEntry) (fallback : String) (w : CompactProgressWriter)
      → (filled env item fallback w).failed ≡ w.failed
  unfolding filled render add_card add_text
  filled-failed item fallback w =
      if_both {S = CompactProgressWriter} (λ r. r.failed ≡ w.failed) (w.style == "card") refl refl

  -- An append, unless it is refused or blank.
  append_structured-IsDone :
      (item : ProgressCardEntry) (fallback : String) (answer : Answer) (w : CompactProgressWriter)
      → is_blank env item fallback ≡ false
      → IsSent w
      → IsDone (append_structured env item fallback answer w)
  unfolding append_structured
  append_structured-IsDone item fallback answer w b h =
      let next = filled env item fallback w in
      rw b (
        if_cases IsDone (not w.enabled || w.failed) (λ e. refused-IsDone w h)
          (λ e.
            if_both IsDone (w.style == "card" && w.use_payload && next.content == "")
              (fail-IsDone next)
              (deliver-IsDone answer next (rw (filled-failed item fallback w) (ground arith))
                (filled-IsSent item fallback w h))))

  append_structured-IsSent :
      (item : ProgressCardEntry) (fallback : String) (answer : Answer) (w : CompactProgressWriter)
      → IsSent w
      → IsSent (append_structured env item fallback answer w).0
  unfolding append_structured IsDone
  append_structured-IsSent item fallback answer w h =
      elim (Bool-cases (is_blank env item fallback)) [
        | inr b ↦ (append_structured-IsDone item fallback answer w b h).0
        | inl b ↦ rw b (
            if_both {S = CompactProgressWriter × Bool} (λ r. IsSent r.0) (not w.enabled || w.failed)
              h h)
      ]

  change_state-IsSent :
      (handle state : String) (answer : Answer) (w : CompactProgressWriter)
      → IsSent w
      → IsSent (change_state env handle state answer w).0
  unfolding change_state IsDone
  change_state-IsSent handle state answer w h =
      let moved : CompactProgressWriter = record w { state = state } in
      let content = payload_content env moved in
      if_both {S = CompactProgressWriter × Bool} (λ r. IsSent r.0)
        (content == "" || content == w.last_sent) (state-IsSent state content w h)
        (updated-IsDone handle answer (record moved { content = content })).0

  finalize-IsSent :
      (state : String) (answer : Answer) (w : CompactProgressWriter)
      → IsSent w
      → IsSent (finalize env state answer w).0
  unfolding finalize
  finalize-IsSent state answer w h =
      if_both {S = CompactProgressWriter × Bool} (λ r. IsSent r.0)
        (not w.enabled || w.failed || not (w.style == "card") || not w.use_payload) h
        (elim (Option-cases w.handle) [
          | inl e ↦ rw e h
          | inr (handle, e) ↦ rw e (
              if_both {S = CompactProgressWriter × Bool} (λ r. IsSent r.0)
                (w.state == or_other state completed) h
                (change_state-IsSent handle (or_other state completed) answer w h))
        ])

  run-IsSent :
      (acts : List (Act env)) (w : CompactProgressWriter) → IsSent w → IsSent (run env acts w)
  unfolding run act
  run-IsSent [] w h = h
  run-IsSent (Act.appends item fallback answer ∷ acts) w h =
      run-IsSent acts _ (append_structured-IsSent item fallback answer w h)
  run-IsSent (Act.finalizes state answer ∷ acts) w h =
      run-IsSent acts _ (finalize-IsSent state answer w h)

  -- After any calls on a new writer: where an append of an entry that is not blank reports
  -- success, the latest call of the platform that succeeded carried the whole content of the
  -- writer, or no call succeeded and the content is empty.
  pub append_structured-run :
      (acts : List (Act env)) (item : ProgressCardEntry) (fallback : String) (answer : Answer)
      → is_blank env item fallback ≡ false
      → (append_structured env item fallback answer
          (run env acts (new_compact_progress_writer env.unicode env.target))).1
        ≡ true
      → latest_text
          (append_structured env item fallback answer
            (run env acts (new_compact_progress_writer env.unicode env.target))).0.calls
        ≡ (append_structured env item fallback answer
            (run env acts (new_compact_progress_writer env.unicode env.target))).0.content
  unfolding IsDone IsSent new_compact_progress_writer latest_text
  append_structured-run acts item fallback answer b =
      (append_structured-IsDone item fallback answer
        (run env acts (new_compact_progress_writer env.unicode env.target)) b
        (run-IsSent acts (new_compact_progress_writer env.unicode env.target) (λ f. refl))).1
