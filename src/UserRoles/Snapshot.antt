-- ===== src/UserRoles/Snapshot.antt =====
-- `Snapshot` of core/user_roles.go. A set is a list, so the order before sorting does
-- not matter.
use Prim.Native.String.{compare}
use text.Mathlib.Text.{is_lt}
use agent_in_chat_feishu.Unicode.{Unicode}
use agent_in_chat_feishu.Shared.{
  ℕ, ◌/◌, ◌≡◌, refl, inl, inr, true, ◌||◌, List, [], ◌∷◌, ◌++◌, String, ◌==◌, Option, none, some,
  if◌then◌else◌, contains, contains_cons, ℤ, is_some, if_both, arith, eq_refl, ◌&&◌, Option-cases,
}
use agent_in_chat_feishu.Shared.Dict.{Dict, lookup, insert, lookup-insert}
use agent_in_chat_feishu.UserRoles.Types.{
  RateLimitCfg, UserRole, RoleInput, RoleEntry, UserRoleManager,
}
use agent_in_chat_feishu.UserRoles.Configure.{
  user_role, role_entry, sort_roles, add_roles, configure,
}

unfoldable pub insert_text : String → List String → List String
insert_text s [] = s ∷ []
insert_text s (x ∷ xs) =
    let further = x ∷ insert_text s xs in if is_lt (compare x s) then further else s ∷ x ∷ xs

-- `sort.Strings`
unfoldable pub sort_texts : List String → List String
unfolding insert_text
sort_texts [] = []
sort_texts (s ∷ ss) = insert_text s (sort_texts ss)

pub record RoleData : Type 0 where
  pub user_ids : List String
  pub disabled_commands : List String
  -- the number of messages, and the seconds of the window
  pub rate_limit : Option (ℤ × ℕ)

pub record Report : Type 0 where
  pub default_role : String
  pub roles : Dict RoleData

abbrev limit_data : Option RateLimitCfg → Option (ℤ × ℕ)
limit_data none = none
limit_data (some cfg) = some (cfg.max_messages, cfg.window / 1000000000)

unfoldable pub role_data : RoleEntry → UserRole → RoleData
role_data entry role = record {
  user_ids = sort_texts (if entry.wildcard then "*" ∷ entry.user_ids else entry.user_ids);
  disabled_commands = sort_texts role.disabled_cmds;
  rate_limit = limit_data role.rate_limit_cfg;
}

-- None is the panic on a role that the map does not have.
abbrev add_data : RoleEntry → Dict RoleData → Option UserRole → Option (Dict RoleData)
add_data entry roles none = none
add_data entry roles (some role) = some (insert entry.role_name (role_data entry role) roles)

abbrev then_data :
    (Dict RoleData → Option (Dict RoleData)) → Option (Dict RoleData) → Option (Dict RoleData)
then_data f none = none
then_data f (some roles) = f roles

unfoldable pub report_roles :
    Dict UserRole → List RoleEntry → Dict RoleData → Option (Dict RoleData)
report_roles role_map [] roles = some roles
report_roles role_map (entry ∷ rest) roles =
    then_data (report_roles role_map rest) (add_data entry roles (lookup entry.role_name role_map))

abbrev report_of : String → Option (Dict RoleData) → Option Report
report_of default_role none = none
report_of default_role (some roles) = some (record { default_role = default_role; roles = roles })

-- The report of a manager that is there.
unfoldable pub snapshot : UserRoleManager → Option Report
snapshot m = report_of m.default_role (report_roles m.role_map m.roles [])

abbrev AllMapped : Dict UserRole → List RoleEntry → Type 0
AllMapped role_map [] = Unit {0}
AllMapped role_map (entry ∷ rest) =
    (is_some (lookup entry.role_name role_map) ≡ true) × AllMapped role_map rest

insert-AllMapped :
    (name : String) (role : UserRole) (role_map : Dict UserRole) (entries : List RoleEntry)
    → AllMapped role_map entries
    → AllMapped (insert name role role_map) entries
insert-AllMapped name role role_map [] h = tt
insert-AllMapped name role role_map (e ∷ es) h = (
  rw (lookup-insert name e.role_name role role_map)
      (if_both (λ o. is_some o ≡ true) (name == e.role_name) refl h.0),
  insert-AllMapped name role role_map es h.1,
)

snoc-AllMapped :
    (role_map : Dict UserRole) (entries : List RoleEntry) (e : RoleEntry)
    → AllMapped role_map entries
    → is_some (lookup e.role_name role_map) ≡ true
    → AllMapped role_map (entries ++ e ∷ [])
snoc-AllMapped role_map [] e h k = (k, tt)
snoc-AllMapped role_map (x ∷ xs) e h k = (h.0, snoc-AllMapped role_map xs e h.1 k)

add_roles-AllMapped :
    (u : Unicode) (inputs : List RoleInput) (m : UserRoleManager)
    → AllMapped m.role_map m.roles
    → AllMapped (add_roles u inputs m).role_map (add_roles u inputs m).roles
unfolding add_roles
add_roles-AllMapped u [] m h = h
add_roles-AllMapped u (ri ∷ rest) m h = add_roles-AllMapped u rest _ (
    snoc-AllMapped (insert ri.name (user_role u ri) m.role_map) m.roles (role_entry u ri)
      (insert-AllMapped ri.name (user_role u ri) m.role_map m.roles h)
      (rw (lookup-insert ri.name ri.name (user_role u ri) m.role_map, eq_refl ri.name) refl))

report_roles-some :
    (role_map : Dict UserRole) (entries : List RoleEntry) (roles : Dict RoleData)
    → AllMapped role_map entries
    → is_some (report_roles role_map entries roles) ≡ true
unfolding report_roles
report_roles-some role_map [] roles h = refl
report_roles-some role_map (e ∷ es) roles h = elim (Option-cases (lookup e.role_name role_map)) [
  | inl k ↦ absurd (ground arith)
  | inr (role, k) ↦
      rw (report_roles, k)
        (report_roles-some role_map es (insert e.role_name (role_data e role) roles) h.1)
]

report_of-some :
    (default_role : String) (roles : Option (Dict RoleData))
    → is_some roles ≡ true
    → is_some (report_of default_role roles) ≡ true
report_of-some default_role none h = h
report_of-some default_role (some roles) h = refl

-- After any configuration, the report meets no role that is missing from the map.
pub snapshot-configure :
    (u : Unicode) (default_role : String) (inputs : List RoleInput)
    → is_some (snapshot (configure u default_role inputs)) ≡ true
unfolding snapshot configure
snapshot-configure u default_role inputs =
    report_of-some (configure u default_role inputs).default_role _ (
      report_roles-some (configure u default_role inputs).role_map
        (configure u default_role inputs).roles []
        (add_roles-AllMapped u (sort_roles inputs)
          (record { roles = []; default_role = default_role; role_map = []; limiters = [] }) tt))

contains-insert_text :
    (s x : String) (xs : List String) → contains (insert_text s xs) x ≡ (s == x || contains xs x)
unfolding insert_text
contains-insert_text s x [] = contains_cons s [] x
contains-insert_text s x (y ∷ ys) =
    if_both (λ l. contains l x ≡ (s == x || contains (y ∷ ys) x)) (is_lt (compare y s))
      (rw (contains_cons y (insert_text s ys) x, contains-insert_text s x ys, contains_cons y ys x)
        (ground arith))
      (contains_cons s (y ∷ ys) x)

contains-sort_texts : (xs : List String) (x : String) → contains (sort_texts xs) x ≡ contains xs x
unfolding sort_texts
contains-sort_texts [] x = refl
contains-sort_texts (y ∷ ys) x =
    rw (contains-insert_text y x (sort_texts ys), contains-sort_texts ys x, contains_cons y ys x)
      refl

-- The report of a role lists its users, the wildcard if it has it, and nobody else.
pub role_data-users :
    (entry : RoleEntry) (role : UserRole) (uid : String)
    → contains (role_data entry role).user_ids uid
      ≡ (entry.wildcard && "*" == uid || contains entry.user_ids uid)
unfolding role_data
role_data-users entry role uid =
    rw (contains-sort_texts (if entry.wildcard then "*" ∷ entry.user_ids else entry.user_ids) uid)
      (ground (arith, contains_cons "*" entry.user_ids uid))
