-- ===== src/UserRoles/Validation.antt =====
-- What `ValidateRoleInputs` accepts (core/user_roles.go).
use agent_in_chat_feishu.Unicode.{Unicode}
use agent_in_chat_feishu.Shared.{
  ℕ, suc, ◌+◌, ◌≤◌, ◌≡◌, ◌↔◌, ◌⊎◌, refl, ◌≢◌, Bool, true, false, not, ◌&&◌, List, [], ◌∷◌, ◌++◌,
  String, ◌==◌, eq_iff, Option, none, some, arith, if◌then◌else◌, Bool-cases, inl, inr,
  Option-cases, contains, Distinct,
}
use agent_in_chat_feishu.Shared.Dict.{Dict, lookup, has, insert, lookup-insert, lookup_nil}
use agent_in_chat_feishu.UserRoles.Types.{RoleInput}
use agent_in_chat_feishu.UserRoles.Configure.{
  Seen, Checked, go_on, fail, ◌>>=◌, named_users, is_empty, check_user, check_users, check_roles,
  role_names, validate_role_inputs, finish,
}

-- No user of the list has an owner, and none stands in it twice.
unfoldable fresh : List String → Dict String → Bool
fresh [] owners = true
fresh (x ∷ xs) owners = not (has x owners) && not (contains xs x) && fresh xs owners

fresh-insert :
    (xs : List String) (y role : String) (owners : Dict String)
    → fresh xs (insert y role owners) ≡ (fresh xs owners && not (contains xs y))
unfolding fresh contains
fresh-insert [] y role owners = refl
fresh-insert (x ∷ xs) y role owners =
    ground
      (arith, fresh-insert xs y role owners, lookup-insert y x role owners, eq_iff x y, eq_iff y x)

fresh-Distinct : (xs : List String) → (fresh xs [] ≡ true) ↔ Distinct xs
unfolding fresh
fresh-Distinct [] = (λ e. tt, λ d. refl)
fresh-Distinct (x ∷ xs) = (
  λ e. (ground arith, (fresh-Distinct xs).0 (ground arith)),
  λ d. let rest = (fresh-Distinct xs).1 d.1 in ground (arith, lookup_nil {V = String} x),
)

-- The number of wildcards that the roles list.
unfoldable pub stars : List String → ℕ
stars [] = 0
stars (uid ∷ uids) = let rest = stars uids in if uid == "*" then suc rest else rest

unfoldable pub all_stars : List RoleInput → ℕ
all_stars [] = 0
all_stars (ri ∷ rest) = stars ri.user_ids + all_stars rest

unfoldable pub no_empty : List RoleInput → Bool
no_empty [] = true
no_empty (ri ∷ rest) = not (is_empty ri.user_ids) && no_empty rest

abbrev start : Seen
start = record { wildcards = 0; owners = [] }

abbrev pub DefaultExists : String → List RoleInput → Type 0
DefaultExists default_role ris =
    (default_role ≡ "") ⊎ (contains (role_names ris) default_role ≡ true)

-- What a loop kept, if it met no error.
abbrev kept : Checked → Option Seen
kept (go_on seen) = some seen
kept (fail why) = none

module _ (u : Unicode) where
  unfoldable pub all_named : List RoleInput → List String
  all_named [] = []
  all_named (ri ∷ rest) = named_users u ri.user_ids ++ all_named rest

  -- What the loops keep where they meet no error.
  unfoldable seen_user : String → String → Seen → Seen
  seen_user role uid seen =
      if uid == "*"
      then record seen { wildcards = seen.wildcards + 1 }
      else record seen { owners = insert (u.to_lower uid) role seen.owners }

  unfoldable seen_users : String → List String → Seen → Seen
  seen_users role [] seen = seen
  seen_users role (uid ∷ uids) seen = seen_users role uids (seen_user role uid seen)

  unfoldable seen_roles : List RoleInput → Seen → Seen
  seen_roles [] seen = seen
  seen_roles (ri ∷ rest) seen = seen_roles rest (seen_users ri.name ri.user_ids seen)

  fresh_users :
      (role : String) (uids later : List String) (seen : Seen)
      → fresh (named_users u uids ++ later) seen.owners
        ≡ (fresh (named_users u uids) seen.owners && fresh later (seen_users role uids seen).owners)
  unfolding named_users seen_users fresh seen_user
  fresh_users role [] later seen = refl
  fresh_users role (uid ∷ uids) later seen = ground (
    arith,
    fresh_users role uids later (seen_user role uid seen),
    fresh-insert (named_users u uids ++ later) (u.to_lower uid) role seen.owners,
    fresh-insert (named_users u uids) (u.to_lower uid) role seen.owners,
  )

  kept-check_users :
      (role : String) (uids : List String) (seen : Seen)
      → kept (check_users u role uids seen) ≡ (
          if fresh (named_users u uids) seen.owners then some (seen_users role uids seen) else none)
  unfolding check_users check_user named_users seen_users seen_user fresh
  kept-check_users role [] seen = refl
  kept-check_users role (uid ∷ uids) seen = elim (Bool-cases (uid == "*")) [
    | inl star ↦ ground (arith, kept-check_users role uids (seen_user role uid seen))
    | inr named ↦ elim (Option-cases (lookup (u.to_lower uid) seen.owners)) [
      | inr (prev, e) ↦ rw (named, e, check_user) (ground arith)
      | inl e ↦
          rw (named, e, check_user)
            (ground (
              arith,
              kept-check_users role uids (seen_user role uid seen),
              fresh-insert (named_users u uids) (u.to_lower uid) role seen.owners,
            ))
    ]
  ]

  kept-bind :
      (ri : RoleInput) (rest : List RoleInput) (seen : Seen) (c : Checked)
      → kept c ≡ (
          if fresh (named_users u ri.user_ids) seen.owners
          then some (seen_users ri.name ri.user_ids seen)
          else none)
      → kept (check_roles u rest (seen_users ri.name ri.user_ids seen)) ≡ (
          if no_empty rest && fresh (all_named rest) (seen_users ri.name ri.user_ids seen).owners
          then some (seen_roles rest (seen_users ri.name ri.user_ids seen))
          else none)
      → kept (c >>= check_roles u rest) ≡ (
          if no_empty rest && fresh (all_named (ri ∷ rest)) seen.owners
          then some (seen_roles (ri ∷ rest) seen)
          else none)
  unfolding all_named seen_roles
  kept-bind ri rest seen (fail why) e later =
      ground (arith, fresh_users ri.name ri.user_ids (all_named rest) seen)
  kept-bind ri rest seen (go_on s) e later =
      ground (arith, fresh_users ri.name ri.user_ids (all_named rest) seen)

  kept-check_roles :
      (ris : List RoleInput) (seen : Seen)
      → kept (check_roles u ris seen) ≡ (
          if no_empty ris && fresh (all_named ris) seen.owners
          then some (seen_roles ris seen)
          else none)
  unfolding check_roles no_empty all_named seen_roles fresh
  kept-check_roles [] seen = refl
  kept-check_roles (ri ∷ rest) seen = elim (Bool-cases (is_empty ri.user_ids)) [
    | inl blank ↦ ground arith
    | inr some_user ↦ rw (some_user) (
        kept-bind ri rest seen (check_users u ri.name ri.user_ids seen)
          (kept-check_users ri.name ri.user_ids seen)
          (kept-check_roles rest (seen_users ri.name ri.user_ids seen)))
  ]

  wildcards_seen :
      (role : String) (uids : List String) (seen : Seen)
      → (seen_users role uids seen).wildcards ≡ seen.wildcards + stars uids
  unfolding seen_users seen_user stars
  wildcards_seen role [] seen = omega arith
  wildcards_seen role (uid ∷ uids) seen =
      ground (arith, wildcards_seen role uids (seen_user role uid seen))

  wildcards-seen_roles :
      (ris : List RoleInput) (seen : Seen)
      → (seen_roles ris seen).wildcards ≡ seen.wildcards + all_stars ris
  unfolding seen_roles all_stars
  wildcards-seen_roles [] seen = omega arith
  wildcards-seen_roles (ri ∷ rest) seen = ground (
    arith,
    wildcards-seen_roles rest (seen_users ri.name ri.user_ids seen),
    wildcards_seen ri.name ri.user_ids seen,
  )

  -- What a configuration of roles must be.
  pub record ValidRoles (default_role : String) (ris : List RoleInput) : Type 0 where
    pub some_role : ris ≢ []
    pub users_named : no_empty ris ≡ true
    pub one_role_each : Distinct (all_named ris)
    pub one_wildcard : all_stars ris ≤ 1
    pub default_exists : DefaultExists default_role ris

  finish-none :
      (default_role : String) (ris : List RoleInput) (ok : Bool) (after : Seen) (c : Checked)
      → kept c ≡ (if ok then some after else none)
      → (finish u default_role ris c ≡ none)
        ↔ ((ok ≡ true) × (after.wildcards ≤ 1) × DefaultExists default_role ris)
  finish-none default_role ris true after (fail why) e = absurd (cc)
  finish-none default_role ris false after (fail why) e = (λ h. absurd (cc), λ h. absurd (cc))
  finish-none default_role ris false after (go_on seen) e = absurd (cc)
  finish-none default_role ris true after (go_on seen) e = (
    λ h. (
      refl,
      ground arith,
      elim (Bool-cases (default_role == "")) [
        | inl blank ↦ inl ((eq_iff default_role "").0 blank)
        | inr given ↦ inr (ground arith)
      ],
    ),
    λ h. ground (arith, eq_iff default_role "", h),
  )

-- Validation accepts the roles exactly if there is a role, each role names a user or the wildcard,
-- no user, in lower case, stands twice in all of them, the wildcard stands at most once, and the
-- default role, where one is given, is one of the roles.
pub validate_role_inputs-ValidRoles :
    (u : Unicode) (default_role : String) (ris : List RoleInput)
    → (validate_role_inputs u default_role ris ≡ none) ↔ ValidRoles u default_role ris
unfolding validate_role_inputs
validate_role_inputs-ValidRoles u default_role [] =
    (λ h. absurd (cc), λ v. absurd (v.some_role refl))
validate_role_inputs-ValidRoles u default_role (ri ∷ rest) = (
  λ h.
      let (ok, stars_ok, names_ok) = parts.0 h in
      record {
        some_role = λ e. absurd (cc);
        users_named = ground arith;
        one_role_each = (fresh-Distinct (all_named u (ri ∷ rest))).0 (ground arith);
        one_wildcard = ground (arith, wildcards-seen_roles u (ri ∷ rest) start);
        default_exists = names_ok;
      },
  λ v.
      let is_fresh = (fresh-Distinct (all_named u (ri ∷ rest))).1 v.one_role_each in
      parts.1 (
        ground (arith, v.users_named),
        ground (arith, wildcards-seen_roles u (ri ∷ rest) start, v.one_wildcard),
        v.default_exists,
      ),
)
  where
    parts : (validate_role_inputs u default_role (ri ∷ rest) ≡ none) ↔ (
        (no_empty (ri ∷ rest) && fresh (all_named u (ri ∷ rest)) [] ≡ true)
        × ((seen_roles u (ri ∷ rest) start).wildcards ≤ 1)
        × DefaultExists default_role (ri ∷ rest))
    parts =
        finish-none u default_role (ri ∷ rest)
          (no_empty (ri ∷ rest) && fresh (all_named u (ri ∷ rest)) [])
          (seen_roles u (ri ∷ rest) start) (check_roles u (ri ∷ rest) start)
          (kept-check_roles u (ri ∷ rest) start)
