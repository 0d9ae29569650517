-- ===== src/StreamPreview.antt =====
-- The preview of a reply that is still being written (core/streaming.go). Every method holds the
-- mutex, so a method is one step. The time and the platform's answer are arguments; `calls`
-- records the calls of the platform, the latest first. A timer stands for the time it fires at, and
-- a missing transform for the identity.
pub mod Shown
pub mod Sent
pub mod Covered
pub mod Degraded
pub mod Quiet
use Prim.Native.String
use Prim.Native.String.{count}
use agent_in_chat_feishu.Unicode.{Unicode}
use agent_in_chat_feishu.Shared.{
  ℕ, ◌+◌, ◌-◌, ◌*◌, Bool, true, false, not, ◌&&◌, ◌||◌, String, ◌==◌, Option, none, some, List, [],
  ◌∷◌, ltb, if◌then◌else◌, is_some,
}
use agent_in_chat_feishu.Replies.{take_runes}

pub record StreamPreviewCfg : Type 0 where
  pub enabled : Bool
  pub disabled_platforms : List String
  pub interval_ms : ℕ
  pub min_delta_chars : ℕ
  pub max_chars : ℕ

abbrev pub default_stream_preview_cfg : StreamPreviewCfg
default_stream_preview_cfg = record {
  enabled = true;
  disabled_platforms = [];
  interval_ms = 1000;
  min_delta_chars = 10;
  max_chars = 4000;
}

-- The optional interfaces that a platform has: `MessageUpdater`, `PreviewStarter`,
-- `PreviewCleaner`, and the answer of `PreviewFinishPreference`.
pub record Platform : Type 0 where
  pub name : String
  pub updates : Bool
  pub starts : Bool
  pub cleans : Bool
  pub keep_preview_on_finish : Option Bool

-- The result of a call: an error, or no error with the handle that `SendPreviewStart` returns.
pub data Answer : Type 0 where
  error : Answer
  okay : Option String → Answer

abbrev pub is_okay : Answer → Bool
is_okay Answer.error = false
is_okay (Answer.okay h) = true

-- A call, with its text and whether it succeeded.
pub data Call : Type 0 where
  started sent : String → Bool → Call
  updated : String → String → Bool → Call
  deleted : String → Call

pub record StreamPreview : Type 0 where
  pub full_text : String
  pub last_sent_text : String
  pub last_sent_at : Option ℕ
  pub last_sent_via_update : Bool
  pub preview_msg_id : Option String
  pub degraded : Bool
  pub timer : Option ℕ
  pub timer_stopped : Bool
  pub calls : List Call

unfoldable pub new_stream_preview : StreamPreview
new_stream_preview = record {
  full_text = "";
  last_sent_text = "";
  last_sent_at = none;
  last_sent_via_update = false;
  preview_msg_id = none;
  degraded = false;
  timer = none;
  timer_stopped = false;
  calls = [];
}

unfoldable pub schedule_flush_locked : ℕ → ℕ → StreamPreview → StreamPreview
schedule_flush_locked now delay sp =
    if is_some sp.timer then sp else record sp { timer = some (now + delay) }

unfoldable pub cancel_timer_locked : StreamPreview → StreamPreview
cancel_timer_locked sp = record sp { timer = none }

unfoldable pub detach_preview : StreamPreview → StreamPreview
detach_preview sp = record sp { preview_msg_id = none }

unfoldable pub needs_done_reaction : StreamPreview → Bool
needs_done_reaction sp = is_some sp.preview_msg_id && sp.last_sent_via_update

any_equal_fold : Unicode → List String → String → Bool
any_equal_fold u [] name = false
any_equal_fold u (disabled ∷ rest) name = u.equal_fold disabled name || any_equal_fold u rest name

module _ (cfg : StreamPreviewCfg) (platform : Platform) where
  unfoldable pub can_preview : Unicode → StreamPreview → Bool
  unfolding any_equal_fold
  can_preview u sp =
      if sp.degraded || not cfg.enabled
      then false
      else if any_equal_fold u cfg.disabled_platforms platform.name
      then false
      else platform.updates

  -- The text so far, cut at the limit.
  unfoldable pub display_text : String → String
  display_text text =
      if ltb 0 cfg.max_chars && ltb cfg.max_chars (count text)
      then String.◌++◌ (take_runes cfg.max_chars text) "…"
      else text

  unfoldable pub interval : ℕ
  interval = cfg.interval_ms * 1000000

  -- `time.Since(sp.lastSentAt)`, where something was sent
  abbrev pub too_early : ℕ → Option ℕ → Bool
  too_early now none = false
  too_early now (some at) = ltb (now - at) interval

  abbrev pub remaining : ℕ → Option ℕ → ℕ
  remaining now none = 0
  remaining now (some at) = interval - (now - at)

  -- Something was sent, and the text has grown by less than the least number of characters.
  abbrev pub too_little : StreamPreview → Bool
  too_little sp =
      ltb (count (display_text sp.full_text)) (cfg.min_delta_chars + count sp.last_sent_text)
      && is_some sp.last_sent_at

  abbrev delete_preview : String → StreamPreview → StreamPreview
  delete_preview handle sp =
      if platform.cleans then record sp { calls = Call.deleted handle ∷ sp.calls } else sp

  module _ (reply_ctx : String) (transform : String → String) where
    -- The first message of a preview; the call is made whatever it answers.
    unfoldable pub start_preview : String → ℕ → Answer → StreamPreview → StreamPreview
    start_preview text now answer sp =
        let call =
          if platform.starts
          then Call.started text (is_okay answer)
          else Call.sent text (is_okay answer) in
        let tried = record sp { calls = call ∷ sp.calls } in
        elim answer [
          | error ↦ record tried { degraded = true }
          | okay handle ↦ record tried {
            preview_msg_id = if platform.starts then handle else some reply_ctx;
            last_sent_text = text;
            last_sent_via_update = false;
            last_sent_at = some now;
          }
        ]

    unfoldable pub update_preview : String → String → ℕ → Answer → StreamPreview → StreamPreview
    update_preview handle text now answer sp =
        let tried = record sp { calls = Call.updated handle text (is_okay answer) ∷ sp.calls } in
        if is_okay answer
        then record tried {
          last_sent_text = text;
          last_sent_via_update = true;
          last_sent_at = some now;
        }
        else record tried { degraded = true }

    unfoldable pub flush_locked : String → ℕ → Answer → StreamPreview → StreamPreview
    flush_locked text now answer sp =
        let shown = transform text in
        if shown == sp.last_sent_text || shown == ""
        then sp
        else if not platform.updates
        then record sp { degraded = true }
        else elim sp.preview_msg_id [
          | none ↦ start_preview shown now answer sp
          | some handle ↦ update_preview handle shown now answer sp
        ]

    -- What `appendText` does once the text is added.
    unfoldable pub throttle : ℕ → Answer → StreamPreview → StreamPreview
    throttle now answer sp =
        let display = display_text sp.full_text in
        if too_little sp
        then schedule_flush_locked now interval sp
        else if too_early now sp.last_sent_at
        then schedule_flush_locked now (remaining now sp.last_sent_at) sp
        else flush_locked display now answer (cancel_timer_locked sp)

    unfoldable pub append_text : String → ℕ → Answer → StreamPreview → StreamPreview
    append_text text now answer sp =
        if sp.degraded || not cfg.enabled
        then sp
        else throttle now answer (record sp { full_text = String.◌++◌ sp.full_text text })

    -- The function that the timer calls.
    unfoldable pub timer_fires : ℕ → Answer → StreamPreview → StreamPreview
    timer_fires now answer sp =
        let unset = record sp { timer = none } in
        if sp.degraded then unset else flush_locked (display_text sp.full_text) now answer unset

    unfoldable pub freeze : Answer → StreamPreview → StreamPreview
    freeze answer sp =
        let text = display_text sp.full_text in
        let quiet = record (cancel_timer_locked sp) { degraded = true } in
        elim sp.preview_msg_id [
          | none ↦ quiet
          | some handle ↦
              if not sp.degraded && platform.updates && not (text == "")
              then record quiet {
                calls = Call.updated handle (transform text) (is_okay answer) ∷ sp.calls;
              }
              else quiet
        ]

    unfoldable pub discard : StreamPreview → StreamPreview
    discard sp =
        let stopped = record (cancel_timer_locked sp) { timer_stopped = true } in
        let cleaned : StreamPreview = elim sp.preview_msg_id [
          | none ↦ stopped
          | some handle ↦ delete_preview handle stopped
        ] in
        record cleaned { preview_msg_id = none; degraded = true }

    -- The last update of `finish`, with its answer.
    unfoldable pub finish_update : String → String → Answer → StreamPreview → StreamPreview × Bool
    finish_update handle text answer sp =
        let tried = record sp { calls = Call.updated handle text (is_okay answer) ∷ sp.calls } in
        if is_okay answer then (tried, true) else (delete_preview handle tried, false)

    -- `finish` where a preview is active.
    unfoldable pub finish_active : String → String → Answer → StreamPreview → StreamPreview × Bool
    finish_active handle text answer sp =
        let keep : Bool = elim platform.keep_preview_on_finish [ none ↦ false | some b ↦ b ] in
        if platform.cleans && not keep
        then (delete_preview handle sp, false)
        else if not platform.updates
        then (sp, false)
        else if text == ""
        then (sp, false)
        else if text == sp.last_sent_text && sp.last_sent_via_update
        then (sp, true)
        else finish_update handle text answer sp

    unfoldable pub finish : String → Answer → StreamPreview → StreamPreview × Bool
    finish final_text answer sp =
        let stopped = record (cancel_timer_locked sp) { timer_stopped = true } in
        elim sp.preview_msg_id [
          | none ↦ (stopped, false)
          | some handle ↦
              if sp.degraded
              then (delete_preview handle stopped, false)
              else finish_active handle (transform final_text) answer stopped
        ]

    -- The methods called while the reply is written. The timer fires only if one is set.
    pub data Act : Type 0 where
      appends : String → ℕ → Answer → Act
      fires : ℕ → Answer → Act
      freezes : Answer → Act
      discards detaches : Act

    unfoldable pub act : Act → StreamPreview → StreamPreview
    act (Act.appends text now answer) sp = append_text text now answer sp
    act (Act.fires now answer) sp =
        let fired = timer_fires now answer sp in if is_some sp.timer then fired else sp
    act (Act.freezes answer) sp = freeze answer sp
    act Act.discards sp = discard sp
    act Act.detaches sp = detach_preview sp

    unfoldable pub run : List Act → StreamPreview → StreamPreview
    run [] sp = sp
    run (a ∷ acts) sp = run acts (act a sp)
