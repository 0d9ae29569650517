-- ===== src/UserRoles/Added.antt =====
-- The loop of `Configure`, and the search for a role that lists a user (core/user_roles.go).
use agent_in_chat_feishu.Unicode.{Unicode}
use agent_in_chat_feishu.Shared.{
  ◌≡◌, ◌⊎◌, refl, sym, ap, ◌∙◌, true, false, List, [], ◌∷◌, ◌++◌, map, append_assoc, append-nil,
  String, ◌==◌, eq_iff, eq_refl, none, some, if◌then◌else◌, Bool-cases, inl, inr,
}
use agent_in_chat_feishu.Shared.Dict.{lookup, insert, lookup-insert}
use agent_in_chat_feishu.UserRoles.Types.{RoleInput, UserRoleManager, find_explicit}
use agent_in_chat_feishu.UserRoles.Configure.{role_entry, user_role, add_roles}
use agent_in_chat_feishu.UserRoles.Members.{In, lists}

module _ (u : Unicode) where
  pub roles-add_roles :
      (rs : List RoleInput) (m : UserRoleManager)
      → (add_roles u rs m).roles ≡ m.roles ++ map (role_entry u) rs
  unfolding add_roles
  roles-add_roles [] m = sym (append-nil m.roles)
  roles-add_roles (r ∷ rs) m =
      roles-add_roles rs _ ∙ append_assoc m.roles (role_entry u r ∷ []) (map (role_entry u) rs)

  pub default-add_roles :
      (rs : List RoleInput) (m : UserRoleManager) → (add_roles u rs m).default_role ≡ m.default_role
  unfolding add_roles
  default-add_roles [] m = refl
  default-add_roles (r ∷ rs) m = default-add_roles rs _

  pub lookup-add_roles :
      (r : RoleInput) (rs : List RoleInput) (m : UserRoleManager)
      → ((s : RoleInput) → In s rs → s.name ≡ r.name → s ≡ r)
      → In r rs ⊎ (lookup r.name m.role_map ≡ some (user_role u r))
      → lookup r.name (add_roles u rs m).role_map ≡ some (user_role u r)
  unfolding add_roles
  lookup-add_roles r [] m same (inl i) = absurd i
  lookup-add_roles r [] m same (inr e) = e
  lookup-add_roles r (x ∷ xs) m same h = lookup-add_roles r xs _ (λ s i. same s (inr i)) (after h)
    where
      put :
          lookup r.name (insert x.name (user_role u x) m.role_map)
          ≡ (if x.name == r.name then some (user_role u x) else lookup r.name m.role_map)
      put = lookup-insert x.name r.name (user_role u x) m.role_map

      here : x ≡ r → lookup r.name (insert x.name (user_role u x) m.role_map) ≡ some (user_role u r)
      here e = rw (put, e, eq_refl r.name)

      after :
          In r (x ∷ xs) ⊎ (lookup r.name m.role_map ≡ some (user_role u r))
          → In r xs
            ⊎ (lookup r.name (insert x.name (user_role u x) m.role_map) ≡ some (user_role u r))
      after (inl (inl e)) = inr (here e)
      after (inl (inr i)) = inl i
      after (inr e) = elim (Bool-cases (x.name == r.name)) [
        | inl q ↦ inr (here (same x (inl refl) ((eq_iff x.name r.name).0 q)))
        | inr q ↦ inr (rw (put, q) e)
      ]

  pub find_explicit-some :
      (uid : String) (r : RoleInput) (rs : List RoleInput)
      → ((s : RoleInput) → In s rs → lists u uid s ≡ true → s ≡ r)
      → lists u uid r ≡ true
      → In r rs
      → find_explicit uid (map (role_entry u) rs) ≡ some r.name
  unfolding find_explicit
  find_explicit-some uid r [] one h i = absurd i
  find_explicit-some uid r (x ∷ xs) one h i = elim (Bool-cases (lists u uid x)) [
    | inl hit ↦ rw (hit) (ap (λ (z : RoleInput). some z.name) (one x (inl refl) hit))
    | inr miss ↦ rw (miss) (
        find_explicit-some uid r xs (λ s j. one s (inr j)) h
          (elim i [ inl e ↦ absurd (cc (ap (lists u uid) e)) | inr j ↦ j ]))
  ]

  pub find_explicit-none :
      (uid : String) (rs : List RoleInput)
      → ((s : RoleInput) → In s rs → lists u uid s ≡ false)
      → find_explicit uid (map (role_entry u) rs) ≡ none
  unfolding find_explicit
  find_explicit-none uid [] h = refl
  find_explicit-none uid (x ∷ xs) h =
      rw (h x (inl refl)) (find_explicit-none uid xs (λ s j. h s (inr j)))
