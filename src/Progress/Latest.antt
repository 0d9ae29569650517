-- ===== src/Progress/Latest.antt =====
-- The entries that a card holds after any calls (core/progress_compact.go).
use agent_in_chat_feishu.Shared.{
  ◌≡◌, refl, subst, true, false, ◌||◌, String, List, [], ◌∷◌, ◌++◌, append-nil, append_assoc, arith,
  length, ltb,
}
use agent_in_chat_feishu.ProgressCard.{ProgressCardEntry}
use agent_in_chat_feishu.Progress.{
  Env, CompactProgressWriter, new_compact_progress_writer, progress_style_for_target, last_of,
  max_entries,
}
use agent_in_chat_feishu.Progress.Writer.{Act, act, run}
use agent_in_chat_feishu.Progress.Window.{
  IsWindow, kept_items, kept_fallbacks, finalize-IsWindow, append_structured-IsWindow,
}

equal-IsWindow :
    (w : CompactProgressWriter) {items items' : List ProgressCardEntry}
    {entries entries' : List String}
    → items ≡ items'
    → entries ≡ entries'
    → IsWindow items entries w
    → IsWindow items' entries' w
equal-IsWindow w {items} {items'} {entries} {entries'} e k h =
    subst (λ x. IsWindow x entries' w) e (subst (λ x. IsWindow items x w) k h)

of_window :
    (items : List ProgressCardEntry) (entries : List String) (w : CompactProgressWriter)
    → IsWindow items entries w
    → w.failed ≡ false
    → (w.items ≡ last_of max_entries items)
      × (w.entries ≡ last_of max_entries entries)
      × (w.truncated ≡ (ltb max_entries (length items) || ltb max_entries (length entries)))
unfolding IsWindow
of_window items entries w h f = h.2 f

module _ (env : Env) where
  kept_items-cons :
      (a : Act env) (acts : List (Act env))
      → kept_items env (a ∷ acts) ≡ kept_items env (a ∷ []) ++ kept_items env acts
  unfolding kept_items
  kept_items-cons (Act.finalizes state answer) acts = refl
  kept_items-cons (Act.appends item fallback answer) acts = ground arith

  kept_fallbacks-cons :
      (a : Act env) (acts : List (Act env))
      → kept_fallbacks env (a ∷ acts) ≡ kept_fallbacks env (a ∷ []) ++ kept_fallbacks env acts
  unfolding kept_fallbacks
  kept_fallbacks-cons (Act.finalizes state answer) acts = refl
  kept_fallbacks-cons (Act.appends item fallback answer) acts = ground arith

  items-cons :
      (a : Act env) (acts : List (Act env)) (items : List ProgressCardEntry)
      → (items ++ kept_items env (a ∷ [])) ++ kept_items env acts
        ≡ items ++ kept_items env (a ∷ acts)
  items-cons a acts items =
      rw (kept_items-cons a acts)
        (append_assoc items (kept_items env (a ∷ [])) (kept_items env acts))

  fallbacks-cons :
      (a : Act env) (acts : List (Act env)) (entries : List String)
      → (entries ++ kept_fallbacks env (a ∷ [])) ++ kept_fallbacks env acts
        ≡ entries ++ kept_fallbacks env (a ∷ acts)
  fallbacks-cons a acts entries =
      rw (kept_fallbacks-cons a acts)
        (append_assoc entries (kept_fallbacks env (a ∷ [])) (kept_fallbacks env acts))

  act-IsWindow :
      (a : Act env) (items : List ProgressCardEntry) (entries : List String)
      (w : CompactProgressWriter)
      → IsWindow items entries w
      → IsWindow
          (items ++ kept_items env (a ∷ []))
          (entries ++ kept_fallbacks env (a ∷ []))
          (act env a w).0
  unfolding act kept_items kept_fallbacks
  act-IsWindow (Act.appends item fallback answer) items entries w h =
      append_structured-IsWindow env item fallback answer items entries w h
  act-IsWindow (Act.finalizes state answer) items entries w h =
      rw (append-nil items, append-nil entries)
        (finalize-IsWindow env items entries state answer w h)

  run-IsWindow :
      (acts : List (Act env)) (items : List ProgressCardEntry) (entries : List String)
      (w : CompactProgressWriter)
      → IsWindow items entries w
      → IsWindow
          (items ++ kept_items env acts)
          (entries ++ kept_fallbacks env acts)
          (run env acts w)
  unfolding run kept_items kept_fallbacks
  run-IsWindow [] items entries w h = rw (append-nil items, append-nil entries) h
  run-IsWindow (a ∷ acts) items entries w h =
      equal-IsWindow (run env (a ∷ acts) w) (items-cons a acts items)
        (fallbacks-cons a acts entries)
        (run-IsWindow acts (items ++ kept_items env (a ∷ []))
          (entries ++ kept_fallbacks env (a ∷ [])) (act env a w).0
          (act-IsWindow a items entries w h))

  length-kept_fallbacks :
      (acts : List (Act env)) → length (kept_fallbacks env acts) ≡ length (kept_items env acts)
  unfolding kept_fallbacks kept_items
  length-kept_fallbacks [] = refl
  length-kept_fallbacks (Act.finalizes state answer ∷ acts) = length-kept_fallbacks acts
  length-kept_fallbacks (Act.appends item fallback answer ∷ acts) =
      ground (arith, length-kept_fallbacks acts)

  new-IsWindow :
      progress_style_for_target env.unicode env.target ≡ "card"
      → env.target.updates ≡ true
      → IsWindow [] [] (new_compact_progress_writer env.unicode env.target)
  unfolding IsWindow new_compact_progress_writer
  new-IsWindow style on = (rw (style, on) refl, style, λ f. (refl, refl, refl))

  -- After any appends and changes of state on a card of which no call failed: the card holds the
  -- last ten of all the entries that were not blank, items and texts alike, and is marked as
  -- truncated exactly if there were more than ten.
  pub run-last_of :
      (acts : List (Act env))
      → progress_style_for_target env.unicode env.target ≡ "card"
      → env.target.updates ≡ true
      → (run env acts (new_compact_progress_writer env.unicode env.target)).failed ≡ false
      → ((run env acts (new_compact_progress_writer env.unicode env.target)).items
          ≡ last_of max_entries (kept_items env acts))
        × ((run env acts (new_compact_progress_writer env.unicode env.target)).entries
            ≡ last_of max_entries (kept_fallbacks env acts))
        × ((run env acts (new_compact_progress_writer env.unicode env.target)).truncated
            ≡ ltb max_entries (length (kept_items env acts)))
  run-last_of acts style on f =
      let new = new_compact_progress_writer env.unicode env.target in
      let (items, entries, cut) =
        of_window (kept_items env acts) (kept_fallbacks env acts) _
          (run-IsWindow acts [] [] new (new-IsWindow style on)) f in
      (items, entries, rw (cut, length-kept_fallbacks acts) (ground arith))
