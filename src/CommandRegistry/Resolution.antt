-- ===== src/CommandRegistry/Resolution.antt =====
-- Which command a name stands for (core/command.go).
use agent_in_chat_feishu.Unicode.{Unicode}
use agent_in_chat_feishu.Shared.{
  ◌≡◌, refl, inl, inr, Bool, not, String, ◌==◌, eq_iff, Option, none, some, List, [], ◌∷◌, arith,
  is_some, if◌then◌else◌, Option-cases, ◌∙◌, if_both,
}
use agent_in_chat_feishu.Shared.Dict.{
  lookup, lookup-insert, lookup-delete, lookup-retain, lookup_nil, IsMap, keep_if, retain-IsMap,
  insert-IsMap, delete-IsMap,
}
use agent_in_chat_feishu.CommandRegistry.{
  CustomCommand, CommandRegistry, AgentFiles, new_command_registry, add, clear_source, remove,
  set_agent_dirs, resolve, Call, apply, run,
}

-- What stays of a command when a source is cleared.
abbrev pub unless_from : String → Option CustomCommand → Option CustomCommand
unless_from source none = none
unless_from source (some c) = if c.source == source then none else some c

kept :
    (source : String) (o : Option CustomCommand)
    → keep_if (λ c. not (c.source == source)) o ≡ unless_from source o
kept source none = refl
kept source (some c) = ground arith

module _ (u : Unicode) where
  -- The abstract view: the command of a lower-case name, after some calls.
  unfoldable pub view_apply :
      Call u → (String → Option CustomCommand) → String → Option CustomCommand
  view_apply (Call.adds name description prompt exec work_dir source) v k =
      if u.to_lower name == k
      then some (record {
        name = name;
        description = description;
        prompt = prompt;
        exec = exec;
        work_dir = work_dir;
        source = source;
      })
      else v k
  view_apply (Call.clears source) v k = unless_from source (v k)
  view_apply (Call.removes name) v k = if u.to_lower name == k then none else v k
  view_apply (Call.sets_dirs dirs) v k = v k

  unfoldable pub view_run :
      List (Call u) → (String → Option CustomCommand) → String → Option CustomCommand
  view_run [] v = v
  view_run (c ∷ cs) v = view_run cs (view_apply c v)

  apply-lookup :
      (c : Call u) (r : CommandRegistry) (k : String)
      → IsMap r.commands
      → lookup k (apply u c r).commands ≡ view_apply c (λ k. lookup k r.commands) k
  unfolding apply add clear_source remove set_agent_dirs view_apply
  apply-lookup (Call.adds name description prompt exec work_dir source) r k m =
      lookup-insert (u.to_lower name) k _ r.commands
  apply-lookup (Call.clears source) r k m =
      lookup-retain (λ k c. not (c.source == source)) k r.commands m
      ∙ kept source (lookup k r.commands)
  apply-lookup (Call.removes name) r k m =
      elim (Option-cases (lookup (u.to_lower name) r.commands)) [
        | inl e ↦ rw (apply, remove, e) (ground (arith, eq_iff (u.to_lower name) k))
        | inr (c, e) ↦ rw (apply, remove, e) (lookup-delete (u.to_lower name) k r.commands)
      ]
  apply-lookup (Call.sets_dirs dirs) r k m = refl

  apply-IsMap : (c : Call u) (r : CommandRegistry) → IsMap r.commands → IsMap (apply u c r).commands
  unfolding apply add clear_source remove set_agent_dirs
  apply-IsMap (Call.adds name description prompt exec work_dir source) r m =
      insert-IsMap (u.to_lower name) _ r.commands m
  apply-IsMap (Call.clears source) r m = retain-IsMap (λ k c. not (c.source == source)) r.commands m
  apply-IsMap (Call.removes name) r m =
      if_both {S = CommandRegistry × Bool} (λ s. IsMap s.0.commands)
        (is_some (lookup (u.to_lower name) r.commands))
        (delete-IsMap (u.to_lower name) r.commands m) m
  apply-IsMap (Call.sets_dirs dirs) r m = m

  view_apply-same :
      (c : Call u) (v w : String → Option CustomCommand)
      → ((k : String) → v k ≡ w k)
      → (k : String) → view_apply c v k ≡ view_apply c w k
  unfolding view_apply
  view_apply-same (Call.adds name description prompt exec work_dir source) v w h k = rw (h k) refl
  view_apply-same (Call.clears source) v w h k = rw (h k) refl
  view_apply-same (Call.removes name) v w h k = rw (h k) refl
  view_apply-same (Call.sets_dirs dirs) v w h k = h k

  view_run-same :
      (cs : List (Call u)) (v w : String → Option CustomCommand)
      → ((k : String) → v k ≡ w k)
      → (k : String) → view_run cs v k ≡ view_run cs w k
  unfolding view_run
  view_run-same [] v w h k = h k
  view_run-same (c ∷ cs) v w h k =
      view_run-same cs (view_apply c v) (view_apply c w) (view_apply-same c v w h) k

  run-lookup :
      (cs : List (Call u)) (r : CommandRegistry) (k : String)
      → IsMap r.commands
      → lookup k (run u cs r).commands ≡ view_run cs (λ k. lookup k r.commands) k
  unfolding run view_run
  run-lookup [] r k m = refl
  run-lookup (c ∷ cs) r k m =
      run-lookup cs (apply u c r) k (apply-IsMap c r m)
      ∙ view_run-same cs (λ k. lookup k (apply u c r).commands)
          (view_apply c (λ k. lookup k r.commands)) (λ k. apply-lookup c r k m) k

  -- After any calls on a new registry: a name whose lower-case form has a command by the calls'
  -- own account, the last one added that was neither removed nor cleared since, resolves to that
  -- command, whatever other commands and files there are.
  pub resolve-run :
      (files : AgentFiles) (cs : List (Call u)) (name : String) (c : CustomCommand)
      → view_run cs (λ k. none) (u.to_lower name) ≡ some c
      → resolve u files name (run u cs new_command_registry) ≡ some c
  unfolding resolve new_command_registry
  resolve-run files cs name c h =
      let none_before =
        view_run-same cs (λ k. lookup k new_command_registry.commands) (λ k. none) nothing
          (u.to_lower name) in
      let there : lookup (u.to_lower name) (run u cs new_command_registry).commands ≡ some c =
        run-lookup cs new_command_registry (u.to_lower name) new_IsMap ∙ none_before ∙ h in
      rw there refl
    where
      nothing : (k : String) → lookup k new_command_registry.commands ≡ none
      nothing k = lookup_nil {V = CustomCommand} k

      new_IsMap : IsMap new_command_registry.commands
      new_IsMap = tt
