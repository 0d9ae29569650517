-- ===== src/StreamPreview/Covered.antt =====
-- What a preview shows while the reply is written (core/streaming.go).
use Prim.Native.String
use agent_in_chat_feishu.Shared.{
  ℕ, ◌≡◌, refl, Bool, true, false, inl, inr, Bool-cases, not, ◌||◌, ◌&&◌, String, ◌==◌, eq_refl,
  none, List, [], ◌∷◌, arith, is_some, Option-cases, if_both, if_cases,
}
use agent_in_chat_feishu.StreamPreview.{
  StreamPreviewCfg, Platform, Answer, StreamPreview, new_stream_preview, display_text,
  schedule_flush_locked, cancel_timer_locked, detach_preview, start_preview, update_preview,
  flush_locked, throttle, append_text, timer_fires, freeze, discard, Act, act, run, too_little,
  too_early, remaining, interval,
}
use agent_in_chat_feishu.StreamPreview.Degraded.{any_failed, quits, run-not_degraded}
use agent_in_chat_feishu.StreamPreview.Sent.{latest_text, run-IsSent}

module _ (cfg : StreamPreviewCfg) (platform : Platform) (reply_ctx : String)
    (transform : String → String) where
  -- As the preview sees it, it is up to date or empty, an update is due, or there are no more updates.
  unfoldable due : StreamPreview → Bool
  due sp =
      sp.degraded
      || is_some sp.timer
      || sp.full_text == ""
      || transform (display_text cfg platform sp.full_text) == sp.last_sent_text
      || transform (display_text cfg platform sp.full_text) == ""

  abbrev Covered : StreamPreview → Type 0
  Covered sp = due sp ≡ true

  degraded-Covered : (sp : StreamPreview) → sp.degraded ≡ true → Covered sp
  unfolding due
  degraded-Covered sp e = ground arith

  flush_locked-Covered :
      (sp : StreamPreview) (now : ℕ) (answer : Answer)
      → due (
          flush_locked cfg platform reply_ctx transform
            (display_text cfg platform sp.full_text)
            now
            answer
            sp)
        ≡ true
  unfolding due flush_locked start_preview update_preview
  flush_locked-Covered sp now answer = ground (
    arith,
    eq_refl (transform (display_text cfg platform sp.full_text)),
    Option-cases sp.preview_msg_id,
  )

  detached-Covered : (sp : StreamPreview) → Covered sp → Covered (detach_preview sp)
  unfolding due detach_preview
  detached-Covered sp h = h

  schedule-Covered :
      (sp : StreamPreview) (now delay : ℕ) → due (schedule_flush_locked now delay sp) ≡ true
  unfolding due schedule_flush_locked
  schedule-Covered sp now delay = ground arith

  throttle-Covered :
      (sp : StreamPreview) (now : ℕ) (answer : Answer)
      → due (throttle cfg platform reply_ctx transform now answer sp) ≡ true
  unfolding throttle cancel_timer_locked
  throttle-Covered sp now answer =
      if_both Covered (too_little cfg platform sp) (schedule-Covered sp now (interval cfg platform))
        (if_both Covered (too_early cfg platform now sp.last_sent_at)
          (schedule-Covered sp now (remaining cfg platform now sp.last_sent_at))
          (flush_locked-Covered (record sp { timer = none }) now answer))

  timer_fires-Covered :
      (sp : StreamPreview) (now : ℕ) (answer : Answer)
      → Covered (timer_fires cfg platform reply_ctx transform now answer sp)
  unfolding timer_fires
  timer_fires-Covered sp now answer =
      if_cases Covered sp.degraded (λ e. degraded-Covered (record sp { timer = none }) e)
        (λ e. flush_locked-Covered (record sp { timer = none }) now answer)

  act-Covered :
      (a : Act cfg platform reply_ctx transform) (sp : StreamPreview)
      → Covered sp
      → Covered (act cfg platform reply_ctx transform a sp)
  unfolding act append_text freeze discard
  act-Covered (Act.appends text now answer) sp h =
      if_both Covered (sp.degraded || not cfg.enabled) h
        (throttle-Covered (record sp { full_text = String.◌++◌ sp.full_text text }) now answer)
  act-Covered (Act.fires now answer) sp h =
      if_both Covered (is_some sp.timer) (timer_fires-Covered sp now answer) h
  act-Covered (Act.freezes answer) sp h =
      degraded-Covered (freeze cfg platform reply_ctx transform answer sp)
        (ground (arith, Option-cases sp.preview_msg_id))
  act-Covered Act.discards sp h =
      degraded-Covered (discard cfg platform reply_ctx transform sp) refl
  act-Covered Act.detaches sp h = detached-Covered sp h

  run_from-Covered :
      (acts : List (Act cfg platform reply_ctx transform)) (sp : StreamPreview)
      → Covered sp
      → Covered (run cfg platform reply_ctx transform acts sp)
  unfolding run
  run_from-Covered [] sp h = h
  run_from-Covered (a ∷ acts) sp h = run_from-Covered acts _ (act-Covered a sp h)

  -- What the platform has is up to date, or there is no text, or an update is due, or there are no
  -- more updates.
  -- A timer is set, or there is nothing to show, or the platform has the text so far.
  unfoldable pub shown : StreamPreview → Bool
  shown sp =
      is_some sp.timer
      || sp.full_text == ""
      || transform (display_text cfg platform sp.full_text) == latest_text sp.calls
      || transform (display_text cfg platform sp.full_text) == ""

  -- What may end the preview.
  abbrev pub excused : List (Act cfg platform reply_ctx transform) → StreamPreview → Bool
  excused acts sp =
      not platform.updates || quits cfg platform reply_ctx transform acts || any_failed sp.calls

  -- The text is shown, or will be, as long as the preview is not degraded; and that has a cause.
  abbrev pub covered : List (Act cfg platform reply_ctx transform) → StreamPreview → Bool
  covered acts sp = (sp.degraded || shown sp) && (not sp.degraded || excused acts sp)

  due-shown :
      (sp : StreamPreview)
      → (sp.degraded ≡ false → latest_text sp.calls ≡ sp.last_sent_text)
      → Covered sp
      → (sp.degraded || shown sp) ≡ true
  unfolding due shown
  due-shown sp sent h = elim (Bool-cases sp.degraded) [
    | inl d ↦ rw d refl
    | inr d ↦ let h' : due sp ≡ true = h in rw (sent d) (ground (arith, d, h'))
  ]

both : (a b : Bool) → a ≡ true → b ≡ true → (a && b) ≡ true
both a b e f = rw (e, f) refl

or_excused :
    (d a b c : Bool)
    → (a ≡ true → b ≡ false → c ≡ false → d ≡ false)
    → (not d || (not a || b || c)) ≡ true
or_excused false a b c h = refl
or_excused true false b c h = refl
or_excused true true true c h = refl
or_excused true true false true h = refl
or_excused true true false false h = rw (h refl refl refl)

-- After any calls on a new preview: as long as it is not degraded, the text of the latest call of
-- the platform that succeeded is the text so far as the limit and the transform give it, or there
-- is no text to show, or a timer is set that will send it. And it is degraded only if `freeze` or
-- `discard` ended it, or a call of the platform failed, or the platform cannot update messages.
pub run-covered :
    (cfg : StreamPreviewCfg) (platform : Platform) (reply_ctx : String)
    (transform : String → String) (acts : List (Act cfg platform reply_ctx transform))
    → covered cfg platform reply_ctx transform acts
        (run cfg platform reply_ctx transform acts new_stream_preview)
      ≡ true
unfolding new_stream_preview due
run-covered cfg platform reply_ctx transform acts =
    let sp = run cfg platform reply_ctx transform acts new_stream_preview in
    both (sp.degraded || shown cfg platform reply_ctx transform sp)
      (not sp.degraded || excused cfg platform reply_ctx transform acts sp)
      (due-shown cfg platform reply_ctx transform sp
        (run-IsSent cfg platform reply_ctx transform acts)
        (run_from-Covered cfg platform reply_ctx transform acts new_stream_preview refl))
      (or_excused sp.degraded platform.updates (quits cfg platform reply_ctx transform acts)
        (any_failed sp.calls) (run-not_degraded cfg platform reply_ctx transform acts))
