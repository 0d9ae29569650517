-- ===== src/UserRoles/Fallback.antt =====
-- The role of a user that nothing names: the wildcard's, or none (core/user_roles.go).
use agent_in_chat_feishu.Unicode.{Unicode}
use agent_in_chat_feishu.Shared.{
  ◌≤◌, ◌≡◌, refl, sym, ap, ◌∙◌, Bool, true, false, List, [], ◌∷◌, map, String, none, some, arith,
  Bool-cases, inl, inr, contains, Distinct,
}
use agent_in_chat_feishu.UserRoles.Types.{RoleInput, find_wildcard, resolve_role}
use agent_in_chat_feishu.UserRoles.Configure.{
  role_names, validate_role_inputs, sort_roles, role_entry, user_role, configure,
}
use agent_in_chat_feishu.UserRoles.Validation.{validate_role_inputs-ValidRoles, stars, all_stars}
use agent_in_chat_feishu.UserRoles.Members.{In, sort_roles-In, lists}
use agent_in_chat_feishu.UserRoles.Resolve.{
  roles-configure, lookup-configure, unlisted-configure, default-configure,
}

abbrev pub has_star : RoleInput → Bool
has_star ri = contains ri.user_ids "*"

stars-pos : (uids : List String) → contains uids "*" ≡ true → 1 ≤ stars uids
unfolding contains stars
stars-pos [] h = absurd (cc)
stars-pos (x ∷ xs) h = ground (arith, stars-pos xs)

all_stars-pos :
    (r : RoleInput) (ris : List RoleInput) → In r ris → has_star r ≡ true → 1 ≤ all_stars ris
unfolding all_stars
all_stars-pos r [] i h = absurd i
all_stars-pos r (x ∷ xs) (inl e) h =
    let here = stars-pos x.user_ids (ap has_star e ∙ h) in omega arith
all_stars-pos r (x ∷ xs) (inr i) h = omega (arith, all_stars-pos r xs i h)

one_star :
    (r s : RoleInput) (ris : List RoleInput)
    → all_stars ris ≤ 1
    → In r ris
    → In s ris
    → has_star r ≡ true
    → has_star s ≡ true
    → s ≡ r
unfolding all_stars
one_star r s [] le i j h k = absurd i
one_star r s (x ∷ xs) le (inl e) (inl f) h k = sym f ∙ e
one_star r s (x ∷ xs) le (inl e) (inr j) h k =
    let here = stars-pos x.user_ids (ap has_star e ∙ h) in
    let there = all_stars-pos s xs j k in absurd (omega arith)
one_star r s (x ∷ xs) le (inr i) (inl f) h k =
    let here = stars-pos x.user_ids (ap has_star f ∙ k) in
    let there = all_stars-pos r xs i h in absurd (omega arith)
one_star r s (x ∷ xs) le (inr i) (inr j) h k = one_star r s xs (omega arith) i j h k

module _ (u : Unicode) where
  find_wildcard-some :
      (r : RoleInput) (rs : List RoleInput)
      → ((s : RoleInput) → In s rs → has_star s ≡ true → s ≡ r)
      → has_star r ≡ true
      → In r rs
      → find_wildcard (map (role_entry u) rs) ≡ some r.name
  unfolding find_wildcard
  find_wildcard-some r [] one h i = absurd i
  find_wildcard-some r (x ∷ xs) one h i = elim (Bool-cases (has_star x)) [
    | inl hit ↦ rw (hit) (ap (λ (z : RoleInput). some z.name) (one x (inl refl) hit))
    | inr miss ↦ rw (miss) (
        find_wildcard-some r xs (λ s j. one s (inr j)) h
          (elim i [ inl e ↦ absurd (cc (ap has_star e)) | inr j ↦ j ]))
  ]

  find_wildcard-none :
      (rs : List RoleInput)
      → ((s : RoleInput) → In s rs → has_star s ≡ false)
      → find_wildcard (map (role_entry u) rs) ≡ none
  unfolding find_wildcard
  find_wildcard-none [] h = refl
  find_wildcard-none (x ∷ xs) h = rw (h x (inl refl)) (find_wildcard-none xs (λ s j. h s (inr j)))

  -- Without a default role, after a validated configuration whose roles have different names, a
  -- user that no role without the wildcard lists has the role with the wildcard.
  pub resolve_role-wildcard :
      (user_id : String) (r : RoleInput) (ris : List RoleInput)
      → validate_role_inputs u "" ris ≡ none
      → Distinct (role_names ris)
      → In r ris
      → has_star r ≡ true
      → ((s : RoleInput) → In s ris → lists u (u.to_lower user_id) s ≡ false)
      → resolve_role u user_id (configure u "" ris) ≡ some (user_role u r)
  unfolding resolve_role
  resolve_role-wildcard user_id r ris v d i w h =
      rw
        (
          unlisted-configure u "" (u.to_lower user_id) ris h,
          resolve_role,
          default-configure u "" ris,
          found,
        )
        (lookup-configure u "" r ris d i)
    where
      found : find_wildcard (configure u "" ris).roles ≡ some r.name
      found = rw (roles-configure u "" ris) (
          find_wildcard-some r (sort_roles ris)
            (λ s j.
              one_star r s ris ((validate_role_inputs-ValidRoles u "" ris).0 v).one_wildcard i
                ((sort_roles-In s ris).0 j) w)
            w ((sort_roles-In r ris).1 i))

  -- Without a default role and without a wildcard, such a user has no role.
  pub resolve_role-none :
      (user_id : String) (ris : List RoleInput)
      → ((s : RoleInput) → In s ris → has_star s ≡ false)
      → ((s : RoleInput) → In s ris → lists u (u.to_lower user_id) s ≡ false)
      → resolve_role u user_id (configure u "" ris) ≡ none
  unfolding resolve_role
  resolve_role-none user_id ris w h = rw (
    unlisted-configure u "" (u.to_lower user_id) ris h,
    resolve_role,
    default-configure u "" ris,
    roles-configure u "" ris,
    find_wildcard-none (sort_roles ris) (λ s j. w s ((sort_roles-In s ris).0 j)),
  )
