-- ===== src/Workspaces/Pool.antt =====
-- The state of a workspace under the spellings of its path (core/workspace_state.go).
use agent_in_chat_feishu.Shared.{
  ℕ, ◌≡◌, ◌≢◌, refl, sym, ap, ◌∙◌, String, ◌==◌, eq_iff, eq_refl, arith, none, some, Bool-cases,
  inl, inr, Option-cases,
}
use agent_in_chat_feishu.Shared.Dict.{lookup, lookup-insert}
use agent_in_chat_feishu.Workspaces.{WorkspacePool, allocate, get, create_section, get_or_create}

module _ (normalize : String → String)
    (normalize_twice : (path : String) → normalize (normalize path) ≡ normalize path) where
  -- Every key of the pool is a normalized path.
  abbrev pub NormalKeys : WorkspacePool → Type 0
  NormalKeys p = (path : String) → normalize path ≢ path → lookup path p.states ≡ none

  -- The pointer that a path has in a pool with such keys.
  create_section-found :
      (workspace : String) (now r : ℕ) (p : WorkspacePool)
      → lookup (normalize workspace) p.states ≡ some r
      → NormalKeys p
      → create_section normalize workspace now p ≡ (p, r)
  unfolding create_section
  create_section-found workspace now r p e h =
      elim (Bool-cases (normalize workspace == workspace)) [
        | inl same ↦
            let w : normalize workspace ≡ workspace =
              (eq_iff (normalize workspace) workspace).0 same in
            rw (create_section, sym (ap (λ (s : String). lookup s p.states) w) ∙ e) refl
        | inr other ↦
            rw
              (
                create_section,
                h workspace (ground (arith, eq_iff (normalize workspace) workspace)),
                other,
                e,
              )
              refl
      ]

  create_section-new :
      (workspace : String) (now : ℕ) (p : WorkspacePool)
      → lookup (normalize workspace) p.states ≡ none
      → NormalKeys p
      → create_section normalize workspace now p ≡ allocate (normalize workspace) now p
  unfolding create_section
  create_section-new workspace now p e h = elim (Bool-cases (normalize workspace == workspace)) [
    | inl same ↦
        let w : normalize workspace ≡ workspace = (eq_iff (normalize workspace) workspace).0 same in
        rw (create_section, sym (ap (λ (s : String). lookup s p.states) w) ∙ e, same)
          (ap (λ (s : String). allocate s now p) (sym w))
    | inr other ↦
        rw
          (
            create_section,
            h workspace (ground (arith, eq_iff (normalize workspace) workspace)),
            other,
            e,
          )
          refl
  ]

  allocate-NormalKeys :
      (workspace : String) (now : ℕ) (p : WorkspacePool)
      → NormalKeys p
      → NormalKeys (allocate (normalize workspace) now p).0
  unfolding allocate
  allocate-NormalKeys workspace now p h path ne = ground (
    arith,
    lookup-insert (normalize workspace) path p.next p.states,
    eq_iff (normalize workspace) path,
    h path ne,
    normalize_twice workspace,
  )

  -- What a section leaves: the path has the pointer that was returned.
  create_section-lookup :
      (workspace : String) (now : ℕ) (p : WorkspacePool)
      → NormalKeys p
      → NormalKeys (create_section normalize workspace now p).0
        × (lookup (normalize workspace) (create_section normalize workspace now p).0.states
            ≡ some (create_section normalize workspace now p).1)
  unfolding allocate
  create_section-lookup workspace now p h =
      elim (Option-cases (lookup (normalize workspace) p.states)) [
        | inr (r, e) ↦ rw (create_section-found workspace now r p e h) (h, e)
        | inl e ↦ rw (create_section-new workspace now p e h) (
          allocate-NormalKeys workspace now p h,
          rw (
            allocate,
            lookup-insert (normalize workspace) (normalize workspace) p.next p.states,
            eq_refl (normalize workspace),
          ),
        )
      ]

  -- Whoever asks for the same workspace gets the same state: after one goroutine went through the
  -- second section of `GetOrCreate`, another one that already missed in its own first look, under
  -- the same or another spelling of the path, gets the pointer of the first and creates nothing.
  pub create_section_twice :
      (one two : String) (now later : ℕ) (p : WorkspacePool)
      → NormalKeys p
      → normalize one ≡ normalize two
      → create_section normalize two later (create_section normalize one now p).0
        ≡ create_section normalize one now p
  create_section_twice one two now later p h e =
      let (normal, found) = create_section-lookup one now p h in
      create_section-found two later (create_section normalize one now p).1
        (create_section normalize one now p).0
        (ap (λ (s : String). lookup s (create_section normalize one now p).0.states) (sym e)
          ∙ found)
        normal

  get_or_create-section :
      (workspace : String) (now : ℕ) (p : WorkspacePool)
      → get_or_create normalize workspace now p ≡ create_section normalize workspace now p
  unfolding get_or_create create_section
  get_or_create-section workspace now p = elim (Option-cases (lookup workspace p.states)) [
    | inl e ↦ rw (get_or_create, e) refl
    | inr (r, e) ↦ rw (get_or_create, create_section, e) refl
  ]

  get-found :
      (workspace : String) (r : ℕ) (q : WorkspacePool)
      → lookup (normalize workspace) q.states ≡ some r
      → NormalKeys q
      → get normalize workspace q ≡ some r
  unfolding get
  get-found workspace r q e h = elim (Bool-cases (normalize workspace == workspace)) [
    | inl same ↦
        let w : normalize workspace ≡ workspace = (eq_iff (normalize workspace) workspace).0 same in
        rw (get, sym (ap (λ (s : String). lookup s q.states) w) ∙ e) refl
    | inr other ↦
        rw (get, h workspace (ground (arith, eq_iff (normalize workspace) workspace)), other, e)
          refl
  ]

  -- `GetOrCreate` keeps the keys normalized, and `Get` then finds its state under every spelling
  -- of the path.
  pub get-get_or_create :
      (one two : String) (now : ℕ) (p : WorkspacePool)
      → NormalKeys p
      → normalize one ≡ normalize two
      → NormalKeys (get_or_create normalize one now p).0
        × (get normalize two (get_or_create normalize one now p).0
            ≡ some (get_or_create normalize one now p).1)
  get-get_or_create one two now p h e =
      let (normal, found) = create_section-lookup one now p h in
      rw (get_or_create-section one now p) (
        normal,
        get-found two (create_section normalize one now p).1 (create_section normalize one now p).0
            (ap (λ (s : String). lookup s (create_section normalize one now p).0.states) (sym e)
              ∙ found)
            normal,
      )
