-- ===== src/DirHistory.antt =====
-- core/dir_history.go: the working directories that each project used, the latest first. The
-- file that `saveLocked` writes and `load` reads is the map `entries` itself.
pub mod Recent
use agent_in_chat_feishu.Shared.{
  ℕ, suc, ◌-◌, Bool, true, false, ◌||◌, List, [], ◌∷◌, String, ◌==◌, Option, none, some, ltb,
  if◌then◌else◌, contains, remove_first, length, take, get_elem?, ℤ, pos, negsuc, eqb,
}
use agent_in_chat_feishu.Shared.Dict.{Dict, lookup, insert}

abbrev pub default_dir_history_size : ℕ
default_dir_history_size = 10

pub record DirHistory : Type 0 where
  pub entries : Dict (List String)
  pub max_size : ℕ  -- an int, at least 1
  pub store_path : String
  pub file : Option (Dict (List String))  -- none: missing, unreadable, or JSON null
  pub writable : Bool

unfoldable pub load : DirHistory → DirHistory
load dh =
    if dh.store_path == ""
    then dh
    else elim dh.file [ none ↦ dh | some entries ↦ record dh { entries = entries } ]

unfoldable pub save_locked : DirHistory → DirHistory
save_locked dh =
    if dh.store_path == ""
    then dh
    else if dh.writable
    then record dh { file = some dh.entries }
    else dh

unfoldable pub new_dir_history : String → Option (Dict (List String)) → Bool → DirHistory
unfolding load
new_dir_history store_path file writable = load (record {
  entries = [];
  max_size = default_dir_history_size;
  store_path = store_path;
  file = file;
  writable = writable;
})

abbrev pub or_empty : Option (List String) → List String
or_empty none = []
or_empty (some dirs) = dirs

unfoldable pub list : String → DirHistory → List String
list project dh = or_empty (lookup project dh.entries)

-- Remove the directory if it is there, put it in front, and cut the list to its size.
unfoldable pub push : ℕ → String → List String → List String
push max_size dir dirs =
    let front = dir ∷ remove_first dir dirs in
    if ltb max_size (length front) then take max_size front else front

unfoldable pub add : String → String → DirHistory → DirHistory
unfolding list
add project dir dh =
    if dir == ""
    then dh
    else save_locked
        (record dh { entries = insert project (push dh.max_size dir (list project dh)) dh.entries })

abbrev or_blank : Option String → String
or_blank none = ""
or_blank (some dir) = dir

unfoldable pub get : String → ℤ → DirHistory → String
unfolding list
get project (negsuc n) dh = ""
get project (pos n) dh =
    let dirs = list project dh in
    if ltb n 1 || ltb (length dirs) n then "" else or_blank (get_elem? dirs (n - 1))

unfoldable pub previous : String → DirHistory → String
unfolding get
previous project dh = get project (pos 2) dh

unfoldable pub history_contains : String → String → DirHistory → Bool
unfolding list
history_contains project dir dh = contains (list project dh) dir

unfoldable pub set_max_size : ℤ → DirHistory → DirHistory
set_max_size (negsuc n) dh = record dh { max_size = 1 }
set_max_size (pos n) dh = record dh { max_size = if ltb n 1 then 1 else n }
