-- ===== src/StreamPreview/Degraded.antt =====
-- What makes a preview give up (core/streaming.go).
use Prim.Native.String
use agent_in_chat_feishu.Shared.{
  ℕ, ◌+◌, ◌≡◌, refl, inl, inr, Bool, true, false, not, ◌||◌, String, ◌==◌, Option, none, some, List,
  [], ◌∷◌, arith, is_some, Bool-cases, Option-cases, if_both,
}
use agent_in_chat_feishu.StreamPreview.{
  StreamPreviewCfg, Platform, Answer, Call, StreamPreview, new_stream_preview, display_text,
  schedule_flush_locked, cancel_timer_locked, detach_preview, start_preview, update_preview,
  flush_locked, throttle, append_text, timer_fires, Act, act, run, too_little, too_early, remaining,
  interval,
}

-- Some call of the platform failed.
unfoldable pub any_failed : List Call → Bool
any_failed [] = false
any_failed (Call.started text ok ∷ calls) = not ok || any_failed calls
any_failed (Call.sent text ok ∷ calls) = not ok || any_failed calls
any_failed (Call.updated handle text ok ∷ calls) = not ok || any_failed calls
any_failed (c ∷ calls) = any_failed calls

-- A degraded preview has met a failure.
unfoldable IsExcused : StreamPreview → Type 0
IsExcused sp = sp.degraded ≡ true → any_failed sp.calls ≡ true

module _ (cfg : StreamPreviewCfg) (platform : Platform) (reply_ctx : String)
    (transform : String → String) where
  -- Some call ends the preview.
  unfoldable pub quits : List (Act cfg platform reply_ctx transform) → Bool
  quits [] = false
  quits (Act.freezes answer ∷ acts) = true
  quits (Act.discards ∷ acts) = true
  quits (a ∷ acts) = quits acts

  start_preview-IsExcused :
      (text : String) (now : ℕ) (answer : Answer) (sp : StreamPreview)
      → IsExcused sp
      → IsExcused (start_preview cfg platform reply_ctx transform text now answer sp)
  unfolding IsExcused start_preview any_failed
  start_preview-IsExcused text now Answer.error sp h = λ d. ground arith
  start_preview-IsExcused text now (Answer.okay at) sp h = λ d. ground (arith, h d)

  update_preview-IsExcused :
      (at text : String) (now : ℕ) (answer : Answer) (sp : StreamPreview)
      → IsExcused sp
      → IsExcused (update_preview cfg platform reply_ctx transform at text now answer sp)
  unfolding IsExcused update_preview any_failed
  update_preview-IsExcused at text now Answer.error sp h = λ d. refl
  update_preview-IsExcused at text now (Answer.okay i) sp h = λ d. h d

  flush_locked-IsExcused :
      (text : String) (now : ℕ) (answer : Answer) (sp : StreamPreview)
      → platform.updates ≡ true
      → IsExcused sp
      → IsExcused (flush_locked cfg platform reply_ctx transform text now answer sp)
  unfolding flush_locked
  flush_locked-IsExcused text now answer sp u h =
      if_both IsExcused (transform text == sp.last_sent_text || transform text == "") h (
        rw u (elim (Option-cases sp.preview_msg_id) [
          | inl e ↦ rw e (start_preview-IsExcused (transform text) now answer sp h)
          | inr (at, e) ↦ rw e (update_preview-IsExcused at (transform text) now answer sp h)
        ]))

  -- The timer, the text and the handle do not matter.
  others-IsExcused :
      (timer : Option ℕ) (text : String) (handle : Option String) (sp : StreamPreview)
      → IsExcused sp
      → IsExcused (record sp { timer = timer; full_text = text; preview_msg_id = handle })
  unfolding IsExcused
  others-IsExcused timer text handle sp h = h

  schedule-IsExcused :
      (now delay : ℕ) (sp : StreamPreview)
      → IsExcused sp
      → IsExcused (schedule_flush_locked now delay sp)
  unfolding schedule_flush_locked
  schedule-IsExcused now delay sp h =
      if_both IsExcused (is_some sp.timer) h
        (others-IsExcused (some (now + delay)) sp.full_text sp.preview_msg_id sp h)

  throttle-IsExcused :
      (now : ℕ) (answer : Answer) (sp : StreamPreview)
      → platform.updates ≡ true
      → IsExcused sp
      → IsExcused (throttle cfg platform reply_ctx transform now answer sp)
  unfolding throttle cancel_timer_locked
  throttle-IsExcused now answer sp u h =
      if_both IsExcused (too_little cfg platform sp)
        (schedule-IsExcused now (interval cfg platform) sp h)
        (if_both IsExcused (too_early cfg platform now sp.last_sent_at)
          (schedule-IsExcused now (remaining cfg platform now sp.last_sent_at) sp h)
          (flush_locked-IsExcused (display_text cfg platform sp.full_text) now answer
            (record sp { timer = none }) u
            (others-IsExcused none sp.full_text sp.preview_msg_id sp h)))

  timer_fires-IsExcused :
      (now : ℕ) (answer : Answer) (sp : StreamPreview)
      → platform.updates ≡ true
      → IsExcused sp
      → IsExcused (timer_fires cfg platform reply_ctx transform now answer sp)
  unfolding timer_fires
  timer_fires-IsExcused now answer sp u h =
      let unset = others-IsExcused none sp.full_text sp.preview_msg_id sp h in
      if_both IsExcused sp.degraded unset (
        flush_locked-IsExcused (display_text cfg platform sp.full_text) now answer
          (record sp { timer = none }) u unset)

  act-IsExcused :
      (a : Act cfg platform reply_ctx transform) (sp : StreamPreview)
      → platform.updates ≡ true
      → quits (a ∷ []) ≡ false
      → IsExcused sp
      → IsExcused (act cfg platform reply_ctx transform a sp)
  unfolding act append_text detach_preview quits
  act-IsExcused (Act.appends text now answer) sp u q h =
      if_both IsExcused (sp.degraded || not cfg.enabled) h (
        throttle-IsExcused now answer (record sp { full_text = String.◌++◌ sp.full_text text }) u
          (others-IsExcused sp.timer (String.◌++◌ sp.full_text text) sp.preview_msg_id sp h))
  act-IsExcused (Act.fires now answer) sp u q h =
      if_both IsExcused (is_some sp.timer) (timer_fires-IsExcused now answer sp u h) h
  act-IsExcused (Act.freezes answer) sp u q h = absurd (cc)
  act-IsExcused Act.discards sp u q h = absurd (cc)
  act-IsExcused Act.detaches sp u q h = others-IsExcused sp.timer sp.full_text none sp h

  quits-parts :
      (a : Act cfg platform reply_ctx transform)
      (acts : List (Act cfg platform reply_ctx transform))
      → quits (a ∷ acts) ≡ false
      → (quits (a ∷ []) ≡ false) × (quits acts ≡ false)
  unfolding quits
  quits-parts (Act.appends text now answer) acts q = (refl, q)
  quits-parts (Act.fires now answer) acts q = (refl, q)
  quits-parts (Act.freezes answer) acts q = absurd (cc)
  quits-parts Act.discards acts q = absurd (cc)
  quits-parts Act.detaches acts q = (refl, q)

  run_from-IsExcused :
      (acts : List (Act cfg platform reply_ctx transform)) (sp : StreamPreview)
      → platform.updates ≡ true
      → quits acts ≡ false
      → IsExcused sp
      → IsExcused (run cfg platform reply_ctx transform acts sp)
  unfolding run
  run_from-IsExcused [] sp u q h = h
  run_from-IsExcused (a ∷ acts) sp u q h =
      let (first, rest) = quits-parts a acts q in
      run_from-IsExcused acts _ u rest (act-IsExcused a sp u first h)

  -- A preview that nobody ended, on a platform that can update, gives up only after a failed call.
  pub run-not_degraded :
      (acts : List (Act cfg platform reply_ctx transform))
      → platform.updates ≡ true
      → quits acts ≡ false
      → any_failed (run cfg platform reply_ctx transform acts new_stream_preview).calls ≡ false
      → (run cfg platform reply_ctx transform acts new_stream_preview).degraded ≡ false
  unfolding IsExcused new_stream_preview
  run-not_degraded acts u q f =
      let excused = run_from-IsExcused acts new_stream_preview u q (λ d. absurd (cc)) in
      ground (
        arith,
        Bool-cases (run cfg platform reply_ctx transform acts new_stream_preview).degraded,
        excused,
      )
