-- ===== src/Relay/Bindings.antt =====
-- Which bots are bound in a chat (core/relay.go).
use agent_in_chat_feishu.Shared.{
  ◌≡◌, refl, inl, inr, ◌&&◌, String, ◌==◌, eq_iff, Option, none, some, List, [], pos, negsuc, ◌∷◌,
  arith, if◌then◌else◌, Option-cases, ◌∙◌,
}
use agent_in_chat_feishu.Shared.Dict.{
  Dict, lookup, insert, lookup-insert, lookup-delete, lookup_nil,
}
use agent_in_chat_feishu.Relay.{
  RelayBinding, RelayManager, save_locked, register_engine, set_timeout, bind, binding_or_new,
  add_to_bind, put_bots, remove_bot, remove_from_bind, unbind, Call, apply, run,
}

-- The name of a project's bot under a binding, if it has one.
abbrev pub bot_of : String → Option RelayBinding → Option String
bot_of project none = none
bot_of project (some binding) = lookup project binding.bots

-- The name of a project's bot in a chat.
abbrev pub bot_in : RelayManager → String → String → Option String
bot_in rm chat_id project = bot_of project (lookup chat_id rm.bindings)

-- The abstract view: for a chat and a project, the name of the bot.
abbrev pub View : Type 0
View = String → String → Option String

-- What a call does to the view.
unfoldable pub view_apply : Call → View → View
view_apply (Call.registers name) v c p = v c p
view_apply (Call.sets_timeout d) v c p = v c p
view_apply (Call.binds platform chat_id bots) v c p = if chat_id == c then lookup p bots else v c p
view_apply (Call.adds platform chat_id project) v c p =
    if chat_id == c && project == p then some project else v c p
view_apply (Call.removes chat_id project) v c p =
    if chat_id == c && project == p then none else v c p
view_apply (Call.unbinds chat_id) v c p = if chat_id == c then none else v c p

unfoldable pub view_run : List Call → View → View
view_run [] v = v
view_run (k ∷ ks) v = view_run ks (view_apply k v)

save_locked-bindings : (rm : RelayManager) → (save_locked rm).bindings ≡ rm.bindings
unfolding save_locked
save_locked-bindings rm = ground arith

binding_or_new-bots :
    (platform chat_id p : String) (o : Option RelayBinding)
    → lookup p (binding_or_new platform chat_id o).bots ≡ bot_of p o
unfolding binding_or_new
binding_or_new-bots platform chat_id p none = lookup_nil p
binding_or_new-bots platform chat_id p (some binding) = refl

-- Removing the last bot and removing the binding come to the same.
put_bots-bot_of :
    (chat_id c p : String) (binding : RelayBinding) (bots : Dict String)
    (bindings : Dict RelayBinding)
    → bot_of p (lookup c (put_bots chat_id binding bots bindings))
      ≡ (if chat_id == c then lookup p bots else bot_of p (lookup c bindings))
unfolding put_bots
put_bots-bot_of chat_id c p binding [] bindings =
    ground (arith, lookup-delete chat_id c bindings, lookup_nil {V = String} p)
put_bots-bot_of chat_id c p binding (b ∷ bs) bindings =
    ground (arith, lookup-insert chat_id c (record binding { bots = b ∷ bs }) bindings)

module _ (rm : RelayManager) (c p : String) where
  bind-bot_in :
      (platform chat_id : String) (bots : Dict String)
      → bot_in (bind platform chat_id bots rm) c p
        ≡ (if chat_id == c then lookup p bots else bot_in rm c p)
  unfolding bind
  bind-bot_in platform chat_id bots =
      rw
        (
          save_locked-bindings,
          lookup-insert chat_id c (record { platform = platform; chat_id = chat_id; bots = bots })
              rm.bindings,
        )
        (ground arith)

  add_to_bind-bot_in :
      (platform chat_id project : String)
      → bot_in (add_to_bind platform chat_id project rm) c p
        ≡ (if chat_id == c && project == p then some project else bot_in rm c p)
  unfolding add_to_bind
  add_to_bind-bot_in platform chat_id project =
      let binding = binding_or_new platform chat_id (lookup chat_id rm.bindings) in
      rw
        (
          save_locked-bindings,
          lookup-insert chat_id c (record binding { bots = insert project project binding.bots })
              rm.bindings,
        )
        (ground (
          arith,
          eq_iff chat_id c,
          lookup-insert project p project binding.bots,
          binding_or_new-bots platform chat_id p (lookup chat_id rm.bindings),
        ))

  unbind-bot_in :
      (chat_id : String)
      → bot_in (unbind chat_id rm) c p ≡ (if chat_id == c then none else bot_in rm c p)
  unfolding unbind
  unbind-bot_in chat_id =
      rw (save_locked-bindings, lookup-delete chat_id c rm.bindings) (ground arith)

  remove_bot-bot_in :
      (chat_id project : String) (binding : RelayBinding)
      → lookup chat_id rm.bindings ≡ some binding
      → bot_in (remove_bot chat_id project binding rm).0 c p
        ≡ (if chat_id == c && project == p then none else bot_in rm c p)
  unfolding remove_bot
  remove_bot-bot_in chat_id project binding h = elim (Option-cases (lookup project binding.bots)) [
    | inl e ↦ rw e (ground (arith, eq_iff chat_id c, eq_iff project p))
    | inr (name, e) ↦
        rw (e, save_locked-bindings, put_bots-bot_of chat_id c p binding)
          (ground (arith, eq_iff chat_id c, lookup-delete project p binding.bots))
  ]

  remove_from_bind-bot_in :
      (chat_id project : String)
      → bot_in (remove_from_bind chat_id project rm).0 c p
        ≡ (if chat_id == c && project == p then none else bot_in rm c p)
  unfolding remove_from_bind
  remove_from_bind-bot_in chat_id project = elim (Option-cases (lookup chat_id rm.bindings)) [
    | inl e ↦ rw (remove_from_bind, e) (ground (arith, eq_iff chat_id c))
    | inr (binding, e) ↦ rw (remove_from_bind, e) (remove_bot-bot_in chat_id project binding e)
  ]

  apply-view_apply : (k : Call) → bot_in (apply k rm) c p ≡ view_apply k (bot_in rm) c p
  unfolding apply view_apply register_engine set_timeout
  apply-view_apply (Call.registers name) = refl
  apply-view_apply (Call.sets_timeout (pos d)) = refl
  apply-view_apply (Call.sets_timeout (negsuc d)) = refl
  apply-view_apply (Call.binds platform chat_id bots) = bind-bot_in platform chat_id bots
  apply-view_apply (Call.adds platform chat_id project) =
      add_to_bind-bot_in platform chat_id project
  apply-view_apply (Call.removes chat_id project) = remove_from_bind-bot_in chat_id project
  apply-view_apply (Call.unbinds chat_id) = unbind-bot_in chat_id

-- Equal views stay equal.
view_apply_same :
    (k : Call) (v w : View)
    → ((c p : String) → v c p ≡ w c p)
    → (c p : String) → view_apply k v c p ≡ view_apply k w c p
unfolding view_apply
view_apply_same (Call.registers name) v w h c p = h c p
view_apply_same (Call.sets_timeout d) v w h c p = h c p
view_apply_same (Call.binds platform chat_id bots) v w h c p = rw (h c p) refl
view_apply_same (Call.adds platform chat_id project) v w h c p = rw (h c p) refl
view_apply_same (Call.removes chat_id project) v w h c p = rw (h c p) refl
view_apply_same (Call.unbinds chat_id) v w h c p = rw (h c p) refl

view_run_same :
    (ks : List Call) (v w : View)
    → ((c p : String) → v c p ≡ w c p)
    → (c p : String) → view_run ks v c p ≡ view_run ks w c p
unfolding view_run
view_run_same [] v w h c p = h c p
view_run_same (k ∷ ks) v w h c p =
    view_run_same ks (view_apply k v) (view_apply k w) (view_apply_same k v w h) c p

-- After any series of calls, the bots of the chats are those of the abstract view: a map from
-- chats and projects to names, where adding and removing change one entry, binding and unbinding
-- the entries of one chat, and nothing else changes any.
pub bot_in-run :
    (ks : List Call) (rm : RelayManager) (c p : String)
    → bot_in (run ks rm) c p ≡ view_run ks (bot_in rm) c p
unfolding run view_run
bot_in-run [] rm c p = refl
bot_in-run (k ∷ ks) rm c p =
    bot_in-run ks (apply k rm) c p
    ∙ view_run_same ks (bot_in (apply k rm)) (view_apply k (bot_in rm))
        (λ c p. apply-view_apply rm c p k) c p
