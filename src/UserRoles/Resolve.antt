-- ===== src/UserRoles/Resolve.antt =====
-- Which role a user has after `Configure` (core/user_roles.go).
use agent_in_chat_feishu.Unicode.{Unicode}
use agent_in_chat_feishu.Shared.{
  ◌≡◌, ◌≢◌, Bool, true, false, not, ◌&&◌, List, map, String, ◌==◌, eq_iff, none, some, arith, inl,
  contains, Distinct,
}
use agent_in_chat_feishu.Shared.Dict.{lookup}
use agent_in_chat_feishu.UserRoles.Types.{RoleInput, find_explicit, resolve_role}
use agent_in_chat_feishu.UserRoles.Configure.{
  role_names, validate_role_inputs, sort_roles, role_entry, user_role, configure,
}
use agent_in_chat_feishu.UserRoles.Validation.{ValidRoles, validate_role_inputs-ValidRoles}
use agent_in_chat_feishu.UserRoles.Members.{In, sort_roles-In, one_name, lists, one_owner}
use agent_in_chat_feishu.UserRoles.Added.{
  roles-add_roles, default-add_roles, lookup-add_roles, find_explicit-some, find_explicit-none,
}

module _ (u : Unicode) where
  pub roles-configure :
      (default_role : String) (ris : List RoleInput)
      → (configure u default_role ris).roles ≡ map (role_entry u) (sort_roles ris)
  unfolding configure
  roles-configure default_role ris = roles-add_roles u (sort_roles ris) _

  pub lookup-configure :
      (default_role : String) (r : RoleInput) (ris : List RoleInput)
      → Distinct (role_names ris)
      → In r ris
      → lookup r.name (configure u default_role ris).role_map ≡ some (user_role u r)
  unfolding configure
  lookup-configure default_role r ris d i =
      lookup-add_roles u r (sort_roles ris) _
        (λ s j e. one_name r s ris d i ((sort_roles-In s ris).0 j) e)
        (inl ((sort_roles-In r ris).1 i))

  pub unlisted-configure :
      (default_role uid : String) (ris : List RoleInput)
      → ((s : RoleInput) → In s ris → lists u uid s ≡ false)
      → find_explicit uid (configure u default_role ris).roles ≡ none
  unlisted-configure default_role uid ris h =
      rw (roles-configure default_role ris)
        (find_explicit-none u uid (sort_roles ris) (λ s j. h s ((sort_roles-In s ris).0 j)))

  pub default-configure :
      (default_role : String) (ris : List RoleInput)
      → (configure u default_role ris).default_role ≡ default_role
  unfolding configure
  default-configure default_role ris = default-add_roles u (sort_roles ris) _

  and_right : (a b : Bool) → (a && b) ≡ true → b ≡ true
  and_right true b e = e
  and_right false b e = absurd (cc)

  -- After a validated configuration, whose roles have different names, a user that a role without
  -- the wildcard lists has this role, in whatever order the roles were given and whatever the
  -- default is.
  pub resolve_role-explicit :
      (default_role user_id : String) (r : RoleInput) (ris : List RoleInput)
      → validate_role_inputs u default_role ris ≡ none
      → Distinct (role_names ris)
      → In r ris
      → lists u (u.to_lower user_id) r ≡ true
      → resolve_role u user_id (configure u default_role ris) ≡ some (user_role u r)
  unfolding resolve_role
  resolve_role-explicit default_role user_id r ris v d i h =
      rw (found, resolve_role) (lookup-configure default_role r ris d i)
    where
      uid : String
      uid = u.to_lower user_id

      valid : ValidRoles u default_role ris
      valid = (validate_role_inputs-ValidRoles u default_role ris).0 v

      only : (s : RoleInput) → In s (sort_roles ris) → lists u uid s ≡ true → s ≡ r
      only s j k =
          one_owner u uid r s ris valid.one_role_each i ((sort_roles-In s ris).0 j)
            (and_right (not (contains r.user_ids "*")) _ h)
            (and_right (not (contains s.user_ids "*")) _ k)

      found : find_explicit uid (configure u default_role ris).roles ≡ some r.name
      found =
          rw (roles-configure default_role ris)
            (find_explicit-some u uid r (sort_roles ris) only h ((sort_roles-In r ris).1 i))

  -- A user that no such role lists has the default role, where the configuration names one, also
  -- if another role has the wildcard.
  pub resolve_role-default :
      (user_id : String) (r : RoleInput) (ris : List RoleInput)
      → Distinct (role_names ris)
      → In r ris
      → r.name ≢ ""
      → ((s : RoleInput) → In s ris → lists u (u.to_lower user_id) s ≡ false)
      → resolve_role u user_id (configure u r.name ris) ≡ some (user_role u r)
  unfolding resolve_role
  resolve_role-default user_id r ris d i named h = rw (
    unlisted-configure r.name (u.to_lower user_id) ris h,
    resolve_role,
    default-configure r.name ris,
    blank,
    lookup-configure r.name r ris d i,
  )
    where
      blank : r.name == "" ≡ false
      blank = ground (arith, eq_iff r.name "")
