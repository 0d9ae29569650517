-- ===== src/StreamPreview/Shown.antt =====
-- What `finish` reports (core/streaming.go).
use Prim.Native.String
use agent_in_chat_feishu.Shared.{
  ℕ, ◌+◌, ◌≡◌, refl, sym, subst, inl, inr, Bool, true, false, not, ◌||◌, String, ◌==◌, eq_iff,
  eq_refl, Option, none, some, List, [], ◌∷◌, arith, if◌then◌else◌, is_some, Bool-cases,
  Option-cases, if_both,
}
use agent_in_chat_feishu.StreamPreview.{
  StreamPreviewCfg, Platform, Answer, Call, StreamPreview, new_stream_preview, display_text,
  schedule_flush_locked, cancel_timer_locked, detach_preview, start_preview, update_preview,
  flush_locked, throttle, append_text, timer_fires, freeze, discard, finish_update, finish_active,
  finish, Act, act, run, too_little, too_early, remaining, interval,
}

-- The text of the latest update of a message that succeeded, if there was one.
unfoldable pub last_update : String → List Call → Option String
last_update handle [] = none
last_update handle (Call.updated at text false ∷ calls) = last_update handle calls
last_update handle (Call.updated at text true ∷ calls) =
    let before = last_update handle calls in if at == handle then some text else before
last_update handle (c ∷ calls) = last_update handle calls

module _ (cfg : StreamPreviewCfg) (platform : Platform) (reply_ctx : String)
    (transform : String → String) where
  -- An active preview whose text came by an update shows that text.
  unfoldable IsShown : StreamPreview → Type 0
  IsShown sp =
      sp.last_sent_via_update ≡ true
      → sp.degraded ≡ false
      → (handle : String) → sp.preview_msg_id ≡ some handle
      → last_update handle sp.calls ≡ some sp.last_sent_text

  degraded-IsShown : (sp : StreamPreview) → sp.degraded ≡ true → IsShown sp
  unfolding IsShown
  degraded-IsShown sp e = λ v d handle p. cc

  start_preview-IsShown :
      (text : String) (now : ℕ) (answer : Answer) (sp : StreamPreview)
      → IsShown (start_preview cfg platform reply_ctx transform text now answer sp)
  unfolding IsShown start_preview
  start_preview-IsShown text now Answer.error sp = λ v d handle p. cc
  start_preview-IsShown text now (Answer.okay h) sp = λ v d handle p. cc

  update_preview-IsShown :
      (at text : String) (now : ℕ) (answer : Answer) (sp : StreamPreview)
      → sp.preview_msg_id ≡ some at
      → IsShown (update_preview cfg platform reply_ctx transform at text now answer sp)
  unfolding IsShown update_preview last_update
  update_preview-IsShown at text now Answer.error sp e = λ v d handle p. cc
  update_preview-IsShown at text now (Answer.okay h) sp e =
      λ v d handle p. ground (arith, eq_iff at handle)

  flush_locked-IsShown :
      (text : String) (now : ℕ) (answer : Answer) (sp : StreamPreview)
      → IsShown sp
      → IsShown (flush_locked cfg platform reply_ctx transform text now answer sp)
  unfolding flush_locked
  flush_locked-IsShown text now answer sp h =
      if_both IsShown (transform text == sp.last_sent_text || transform text == "") h (
        if_both IsShown (not platform.updates)
          (degraded-IsShown (record sp { degraded = true }) refl)
          (elim (Option-cases sp.preview_msg_id) [
            | inl e ↦ rw e (start_preview-IsShown (transform text) now answer sp)
            | inr (at, e) ↦ rw e (update_preview-IsShown at (transform text) now answer sp e)
          ]))

  detached-IsShown : (sp : StreamPreview) → IsShown (detach_preview sp)
  unfolding IsShown detach_preview
  detached-IsShown sp = λ v d handle p. cc

  timer-IsShown :
      (t : Option ℕ) (sp : StreamPreview) → IsShown sp → IsShown (record sp { timer = t })
  unfolding IsShown
  timer-IsShown t sp h = h

  text-IsShown :
      (text : String) (sp : StreamPreview) → IsShown sp → IsShown (record sp { full_text = text })
  unfolding IsShown
  text-IsShown text sp h = h

  schedule-IsShown :
      (now delay : ℕ) (sp : StreamPreview)
      → IsShown sp
      → IsShown (schedule_flush_locked now delay sp)
  unfolding schedule_flush_locked
  schedule-IsShown now delay sp h =
      if_both IsShown (is_some sp.timer) h (timer-IsShown (some (now + delay)) sp h)

  throttle-IsShown :
      (now : ℕ) (answer : Answer) (sp : StreamPreview)
      → IsShown sp
      → IsShown (throttle cfg platform reply_ctx transform now answer sp)
  unfolding throttle cancel_timer_locked
  throttle-IsShown now answer sp h =
      if_both IsShown (too_little cfg platform sp)
        (schedule-IsShown now (interval cfg platform) sp h)
        (if_both IsShown (too_early cfg platform now sp.last_sent_at)
          (schedule-IsShown now (remaining cfg platform now sp.last_sent_at) sp h)
          (flush_locked-IsShown (display_text cfg platform sp.full_text) now answer
            (record sp { timer = none }) (timer-IsShown none sp h)))

  timer_fires-IsShown :
      (now : ℕ) (answer : Answer) (sp : StreamPreview)
      → IsShown sp
      → IsShown (timer_fires cfg platform reply_ctx transform now answer sp)
  unfolding timer_fires
  timer_fires-IsShown now answer sp h = if_both IsShown sp.degraded (timer-IsShown none sp h) (
      flush_locked-IsShown (display_text cfg platform sp.full_text) now answer
        (record sp { timer = none }) (timer-IsShown none sp h))

  act-IsShown :
      (a : Act cfg platform reply_ctx transform) (sp : StreamPreview)
      → IsShown sp
      → IsShown (act cfg platform reply_ctx transform a sp)
  unfolding act append_text freeze discard
  act-IsShown (Act.appends text now answer) sp h =
      if_both IsShown (sp.degraded || not cfg.enabled) h (
        throttle-IsShown now answer (record sp { full_text = String.◌++◌ sp.full_text text })
          (text-IsShown (String.◌++◌ sp.full_text text) sp h))
  act-IsShown (Act.fires now answer) sp h =
      if_both IsShown (is_some sp.timer) (timer_fires-IsShown now answer sp h) h
  act-IsShown (Act.freezes answer) sp h =
      degraded-IsShown (freeze cfg platform reply_ctx transform answer sp)
        (ground (arith, Option-cases sp.preview_msg_id))
  act-IsShown Act.discards sp h =
      degraded-IsShown (discard cfg platform reply_ctx transform sp) refl
  act-IsShown Act.detaches sp h = detached-IsShown sp

  run-IsShown :
      (acts : List (Act cfg platform reply_ctx transform)) (sp : StreamPreview)
      → IsShown sp
      → IsShown (run cfg platform reply_ctx transform acts sp)
  unfolding run
  run-IsShown [] sp h = h
  run-IsShown (a ∷ acts) sp h = run-IsShown acts _ (act-IsShown a sp h)

  -- `finish` claims only what it did.
  abbrev pub Delivered : String → StreamPreview → StreamPreview × Bool → Type 0
  Delivered final_text sp result =
      result.1 ≡ true
      → (handle : String) × (sp.preview_msg_id ≡ some handle)
        × (last_update handle result.0.calls ≡ some (transform final_text))

  finish_update-shows :
      (handle text : String) (answer : Answer) (sp : StreamPreview)
      → (finish_update cfg platform reply_ctx transform handle text answer sp).1 ≡ true
      → last_update handle
          (finish_update cfg platform reply_ctx transform handle text answer sp).0.calls
        ≡ some text
  unfolding finish_update last_update
  finish_update-shows handle text Answer.error sp t = cc
  finish_update-shows handle text (Answer.okay h) sp t = ground (arith, eq_refl handle)

  finish_active-shows :
      (handle text : String) (answer : Answer) (sp : StreamPreview)
      → (sp.last_sent_via_update ≡ true → last_update handle sp.calls ≡ some sp.last_sent_text)
      → (finish_active cfg platform reply_ctx transform handle text answer sp).1 ≡ true
      → last_update handle
          (finish_active cfg platform reply_ctx transform handle text answer sp).0.calls
        ≡ some text
  unfolding finish_active
  finish_active-shows handle text answer sp shown t = ground (
    arith,
    eq_iff text sp.last_sent_text,
    Option-cases platform.keep_preview_on_finish,
    finish_update-shows handle text answer sp,
  )

  abbrev stopped : StreamPreview → StreamPreview
  stopped sp = record sp { timer = none; timer_stopped = true }

  finish_of_active :
      (handle final_text : String) (answer : Answer) (sp : StreamPreview)
      → sp.preview_msg_id ≡ some handle
      → sp.degraded ≡ false
      → finish cfg platform reply_ctx transform final_text answer sp
        ≡ finish_active cfg platform reply_ctx transform handle
            (transform final_text)
            answer
            (stopped sp)
  unfolding finish cancel_timer_locked
  finish_of_active handle final_text answer sp e d = ground (arith, e, d)

  finish-Delivered :
      (final_text : String) (answer : Answer) (sp : StreamPreview)
      → IsShown sp
      → Delivered final_text sp (finish cfg platform reply_ctx transform final_text answer sp)
  unfolding finish cancel_timer_locked IsShown
  finish-Delivered final_text answer sp h = elim (Option-cases sp.preview_msg_id) [
    | inl e ↦ rw e (λ t. cc)
    | inr (handle, e) ↦ elim (Bool-cases sp.degraded) [
      | inl d ↦ rw (e, d) (λ t. cc)
      | inr d ↦ λ t. (
        handle,
        e,
        subst (λ r. r.1 ≡ true → last_update handle r.0.calls ≡ some (transform final_text))
            (sym (finish_of_active handle final_text answer sp e d))
            (finish_active-shows handle (transform final_text) answer (stopped sp)
              (λ v. h v d handle e))
            t,
      )
    ]
  ]

-- After any calls on a new preview: if `finish` reports that the reply was delivered, then there is
-- a preview message, and the latest update of that message that succeeded set it to the final text.
pub finish-run :
    (cfg : StreamPreviewCfg) (platform : Platform) (reply_ctx : String)
    (transform : String → String) (acts : List (Act cfg platform reply_ctx transform))
    (final_text : String) (answer : Answer)
    → Delivered cfg platform reply_ctx transform final_text
        (run cfg platform reply_ctx transform acts new_stream_preview)
        (finish cfg platform reply_ctx transform final_text answer
          (run cfg platform reply_ctx transform acts new_stream_preview))
unfolding new_stream_preview IsShown
finish-run cfg platform reply_ctx transform acts final_text answer =
    finish-Delivered cfg platform reply_ctx transform final_text answer
      (run cfg platform reply_ctx transform acts new_stream_preview)
      (run-IsShown cfg platform reply_ctx transform acts new_stream_preview (λ v d handle p. cc))
