-- ===== src/WorkspaceBindings/Lookups.antt =====
-- What a lookup finds after a channel was bound or unbound (core/workspace_binding.go).
use agent_in_chat_feishu.Shared.{
  ◌≡◌, ◌≢◌, refl, true, List, [], ◌∷◌, String, ◌==◌, eq_iff, eq_refl, arith, none, some,
  if◌then◌else◌, contains, Bool-cases, inl, inr, Option-cases,
}
use agent_in_chat_feishu.Shared.Dict.{
  Dict, lookup, insert, delete, lookup-insert, lookup-delete, lookup_nil,
}
use agent_in_chat_feishu.SessionKey.{workspace_channel_key_candidates, legacy_workspace_channel_key}
use agent_in_chat_feishu.WorkspaceBindings.{
  WorkspaceBinding, Bindings, channels_of, first_of, lookup_locked, put, delete_all, remove,
  put_or_drop,
}

candidates_cons :
    (channel_key : String)
    → channel_key ≢ ""
    → (rest : List String) × (workspace_channel_key_candidates channel_key ≡ channel_key ∷ rest)
unfolding workspace_channel_key_candidates
candidates_cons channel_key h =
    elim (Bool-cases (legacy_workspace_channel_key channel_key == channel_key)) [
      | inl same ↦ ([], ground (arith, eq_iff channel_key ""))
      | inr other ↦
          (legacy_workspace_channel_key channel_key ∷ [], ground (arith, eq_iff channel_key ""))
    ]

first_of-here :
    (channels : Dict WorkspaceBinding) (key : String) (rest : List String) (b : WorkspaceBinding)
    → lookup key channels ≡ some b
    → first_of channels (key ∷ rest) ≡ some b
unfolding first_of
first_of-here channels key rest b e = rw (first_of, e) refl

first_of-nil : (candidates : List String) → first_of [] candidates ≡ none
unfolding first_of
first_of-nil [] = refl
first_of-nil (c ∷ cs) = ground (arith, lookup_nil {V = WorkspaceBinding} c, first_of-nil cs)

-- A channel that was bound has its binding, also if a legacy key of it was bound before.
pub lookup_locked-put :
    (project_key channel_key : String) (b : WorkspaceBinding) (bindings : Bindings)
    → channel_key ≢ ""
    → lookup_locked project_key channel_key (put project_key channel_key b bindings) ≡ some b
unfolding lookup_locked put
lookup_locked-put project_key channel_key b bindings h =
    let (rest, e) = candidates_cons channel_key h in
    let channels : Dict WorkspaceBinding = channels_of (lookup project_key bindings) in
    rw
      (
        e,
        lookup-insert project_key project_key (insert channel_key b channels) bindings,
        eq_refl project_key,
      )
      (first_of-here (insert channel_key b channels) channel_key rest b
        (rw (lookup-insert channel_key channel_key b channels, eq_refl channel_key)))

lookup-delete_all :
    (key : String) (candidates : List String) (channels : Dict WorkspaceBinding)
    → lookup key (delete_all candidates channels)
      ≡ (if contains candidates key then none else lookup key channels)
unfolding delete_all contains
lookup-delete_all key [] channels = refl
lookup-delete_all key (c ∷ cs) channels =
    ground (arith, lookup-delete_all key cs (delete c channels), lookup-delete c key channels)

-- `delete_all` keeps none of what it tries.
first_of-deleted :
    (wanted candidates : List String) (channels : Dict WorkspaceBinding)
    → ((key : String) → contains wanted key ≡ true → contains candidates key ≡ true)
    → first_of (delete_all candidates channels) wanted ≡ none
unfolding first_of contains
first_of-deleted [] candidates channels h = refl
first_of-deleted (c ∷ cs) candidates channels h =
    let gone : lookup c (delete_all candidates channels) ≡ none =
      rw (lookup-delete_all c candidates channels, h c (ground (arith, eq_refl c))) in
    rw (first_of, gone) (first_of-deleted cs candidates channels (λ key i. h key (ground arith)))

-- After a channel was unbound it has no binding, neither under its own nor under its legacy key.
pub lookup_locked-remove :
    (project_key channel_key : String) (bindings : Bindings)
    → lookup_locked project_key channel_key (remove project_key channel_key bindings) ≡ none
unfolding lookup_locked remove
lookup_locked-remove project_key channel_key bindings =
    elim (Option-cases (lookup project_key bindings)) [
      | inl e ↦ rw (e, remove, e) (first_of-nil (workspace_channel_key_candidates channel_key))
      | inr (channels, e) ↦
          rw (e, remove)
            (dropped (delete_all (workspace_channel_key_candidates channel_key) channels) (
              first_of-deleted (workspace_channel_key_candidates channel_key)
                (workspace_channel_key_candidates channel_key) channels (λ key i. i)))
    ]
  where
    dropped :
        (left : Dict WorkspaceBinding)
        → first_of left (workspace_channel_key_candidates channel_key) ≡ none
        → first_of
            (channels_of (lookup project_key (put_or_drop project_key left bindings)))
            (workspace_channel_key_candidates channel_key)
          ≡ none
    dropped [] e = rw (lookup-delete project_key project_key bindings, eq_refl project_key) e
    dropped (c ∷ cs) e =
        rw (lookup-insert project_key project_key (c ∷ cs) bindings, eq_refl project_key) e
