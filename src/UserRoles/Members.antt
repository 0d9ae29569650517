-- ===== src/UserRoles/Members.antt =====
-- The roles of a configuration, their names and their users (core/user_roles.go).
use Prim.Native.String.{compare}
use text.Mathlib.Text.{is_lt}
use agent_in_chat_feishu.Unicode.{Unicode}
use agent_in_chat_feishu.Shared.{
  ◌≡◌, ◌↔◌, ◌⊎◌, sym, ap, ◌∙◌, Bool, true, false, not, ◌&&◌, List, [], ◌∷◌, ◌++◌, String, eq_iff,
  eq_refl, arith, Bool-cases, inl, inr, contains, contains-append, Distinct,
}
use agent_in_chat_feishu.UserRoles.Types.{RoleInput}
use agent_in_chat_feishu.UserRoles.Configure.{named_users, role_names, insert_sorted, sort_roles}
use agent_in_chat_feishu.UserRoles.Validation.{all_named}

-- The role stands in the list.
abbrev pub In : RoleInput → List RoleInput → Type 0
In r [] = ⊥
In r (x ∷ xs) = (x ≡ r) ⊎ In r xs

insert_sorted-In :
    (r x : RoleInput) (xs : List RoleInput) → In r (insert_sorted x xs) ↔ In r (x ∷ xs)
unfolding insert_sorted
insert_sorted-In r x [] = (λ h. h, λ h. h)
insert_sorted-In r x (y ∷ ys) = elim (Bool-cases (is_lt (compare y.name x.name))) [
  | inr stop ↦ rw (stop) (λ h. h, λ h. h)
  | inl further ↦
      let later = insert_sorted-In r x ys in
      rw (further) (
        λ h. elim h [ inl e ↦ inr (inl e) | inr i ↦ behind (later.0 i) ],
        λ h. elim h [
          | inl e ↦ inr (later.1 (inl e))
          | inr (inl e) ↦ inl e
          | inr (inr i) ↦ inr (later.1 (inr i))
        ],
      )
]
  where
    behind : In r (x ∷ ys) → In r (x ∷ y ∷ ys)
    behind (inl e) = inl e
    behind (inr i) = inr (inr i)

pub sort_roles-In : (r : RoleInput) (xs : List RoleInput) → In r (sort_roles xs) ↔ In r xs
unfolding sort_roles
sort_roles-In r [] = (λ h. h, λ h. h)
sort_roles-In r (x ∷ xs) =
    let inserted = insert_sorted-In r x (sort_roles xs) in
    let rest = sort_roles-In r xs in
    (
      λ h. elim (inserted.0 h) [ inl e ↦ inl e | inr i ↦ inr (rest.0 i) ],
      λ h. elim h [ inl e ↦ inserted.1 (inl e) | inr i ↦ inserted.1 (inr (rest.1 i)) ],
    )

named-In :
    (r : RoleInput) (ris : List RoleInput) → In r ris → contains (role_names ris) r.name ≡ true
unfolding role_names contains
named-In r [] i = absurd i
named-In r (x ∷ xs) (inl e) = ground (arith, eq_refl r.name, ap (λ (z : RoleInput). z.name) e)
named-In r (x ∷ xs) (inr i) = ground (arith, named-In r xs i)

-- With distinct names, a name has one role.
pub one_name :
    (r s : RoleInput) (ris : List RoleInput)
    → Distinct (role_names ris)
    → In r ris
    → In s ris
    → s.name ≡ r.name
    → s ≡ r
unfolding role_names
one_name r s [] d i j e = absurd i
one_name r s (x ∷ xs) d (inl f) (inl g) e = sym g ∙ f
one_name r s (x ∷ xs) d (inl f) (inr j) e =
    absurd (ground (arith, named-In s xs j, ap (λ (z : RoleInput). z.name) f))
one_name r s (x ∷ xs) d (inr i) (inl g) e =
    absurd (ground (arith, named-In r xs i, ap (λ (z : RoleInput). z.name) g))
one_name r s (x ∷ xs) d (inr i) (inr j) e = one_name r s xs d.1 i j e

module _ (u : Unicode) where
  -- The role lists the user, given in lower case, and is no wildcard role.
  abbrev pub lists : String → RoleInput → Bool
  lists uid ri = not (contains ri.user_ids "*") && contains (named_users u ri.user_ids) uid

  named_all :
      (uid : String) (ri : RoleInput) (ris : List RoleInput)
      → In ri ris
      → contains (named_users u ri.user_ids) uid ≡ true
      → contains (all_named u ris) uid ≡ true
  unfolding all_named
  named_all uid ri [] i h = absurd i
  named_all uid ri (r ∷ rest) (inl e) h =
      ground (arith, contains-append (named_users u r.user_ids) (all_named u rest) uid)
  named_all uid ri (r ∷ rest) (inr i) h = ground (
    arith,
    contains-append (named_users u r.user_ids) (all_named u rest) uid,
    named_all uid ri rest i h,
  )

  -- In lists that share no text, none is in both.
  apart :
      (xs ys : List String) (uid : String)
      → Distinct (xs ++ ys)
      → contains xs uid ≡ true
      → contains ys uid ≡ false
  unfolding contains
  apart [] ys uid d h = absurd (cc)
  apart (x ∷ xs) ys uid d h =
      ground (arith, eq_iff x uid, contains-append xs ys x, apart xs ys uid d.1)

  right-Distinct : (xs ys : List String) → Distinct (xs ++ ys) → Distinct ys
  right-Distinct [] ys d = d
  right-Distinct (x ∷ xs) ys d = right-Distinct xs ys d.1

  pub one_owner :
      (uid : String) (r s : RoleInput) (ris : List RoleInput)
      → Distinct (all_named u ris)
      → In r ris
      → In s ris
      → contains (named_users u r.user_ids) uid ≡ true
      → contains (named_users u s.user_ids) uid ≡ true
      → s ≡ r
  unfolding all_named
  one_owner uid r s [] d i j h k = absurd i
  one_owner uid r s (x ∷ xs) d (inl e) (inl f) h k = sym f ∙ e
  one_owner uid r s (x ∷ xs) d (inl e) (inr j) h k = absurd (
      ground
        (arith, apart (named_users u x.user_ids) (all_named u xs) uid d, named_all uid s xs j k))
  one_owner uid r s (x ∷ xs) d (inr i) (inl f) h k = absurd (
      ground
        (arith, apart (named_users u x.user_ids) (all_named u xs) uid d, named_all uid r xs i h))
  one_owner uid r s (x ∷ xs) d (inr i) (inr j) h k =
      one_owner uid r s xs (right-Distinct (named_users u x.user_ids) (all_named u xs) d) i j h k
