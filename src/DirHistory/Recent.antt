-- ===== src/DirHistory/Recent.antt =====
-- The history of core/dir_history.go beside the list of all directories that were visited.
use agent_in_chat_feishu.Shared.{
  ℕ, zero, suc, ◌≤◌, ◌≡◌, refl, ap, ◌∙◌, ◌≢◌, List, [], ◌∷◌, String, ◌==◌, eq_iff, eq_refl, arith,
  if◌then◌else◌, Bool-cases, inl, inr, remove_first, length, take,
}
use agent_in_chat_feishu.Shared.Dict.{lookup-insert}
use agent_in_chat_feishu.DirHistory.{DirHistory, list, push, add, save_locked, previous}

take_all : (n : ℕ) (xs : List String) → length xs ≤ n → take n xs ≡ xs
take_all zero [] h = refl
take_all zero (x ∷ xs) h = absurd (omega arith)
take_all (suc n) [] h = refl
take_all (suc n) (x ∷ xs) h = ground (arith, take_all n xs)

-- The cut is by length in any case.
push-eq-take :
    (n : ℕ) (dir : String) (dirs : List String)
    → push n dir dirs ≡ take n (dir ∷ remove_first dir dirs)
unfolding push
push-eq-take n dir dirs = ground (arith, take_all n (dir ∷ remove_first dir dirs))

take-take : (n : ℕ) (xs : List String) → take n (take n xs) ≡ take n xs
take-take zero xs = refl
take-take (suc n) [] = refl
take-take (suc n) (x ∷ xs) = ground (arith, take-take n xs)

-- Cutting a list first loses nothing that a shorter cut keeps.
take-remove_first :
    (n : ℕ) (dir : String) (dirs : List String)
    → take n (remove_first dir (take (suc n) dirs)) ≡ take n (remove_first dir dirs)
unfolding remove_first
take-remove_first zero dir dirs = refl
take-remove_first (suc n) dir [] = refl
take-remove_first (suc n) dir (x ∷ xs) =
    ground (arith, take-remove_first n dir xs, take-take (suc n) xs)

-- Pushing on a list that was cut is pushing on the whole, and cutting then.
push-take :
    (n : ℕ) (dir : String) (dirs : List String)
    → push (suc n) dir (take (suc n) dirs) ≡ take (suc n) (dir ∷ remove_first dir dirs)
push-take n dir dirs =
    push-eq-take (suc n) dir (take (suc n) dirs) ∙ ap (◌∷◌ dir) (take-remove_first n dir dirs)

-- The directories of a project after some visits, the latest first, with no limit: each visit
-- moves its directory to the front.
unfoldable pub visited : List String → List String → List String
visited [] dirs = dirs
visited (dir ∷ later) dirs = visited later (dir ∷ remove_first dir dirs)

unfoldable pub add_all : String → List String → DirHistory → DirHistory
add_all project [] dh = dh
add_all project (dir ∷ later) dh = add_all project later (add project dir dh)

abbrev pub NoBlank : List String → Type 0
NoBlank [] = Unit {0}
NoBlank (dir ∷ dirs) = (dir ≢ "") × NoBlank dirs

list-add :
    (project p dir : String) (dh : DirHistory)
    → dir ≢ ""
    → list p (add project dir dh)
      ≡ (if project == p then push dh.max_size dir (list project dh) else list p dh)
unfolding add save_locked
list-add project p dir dh h = ground (
  arith,
  eq_iff dir "",
  lookup-insert project p (push dh.max_size dir (list project dh)) dh.entries,
)

max_size-add :
    (project dir : String) (dh : DirHistory) → (add project dir dh).max_size ≡ dh.max_size
unfolding add save_locked
max_size-add project dir dh = ground arith

-- After visits to directories with names that are not empty, the history of the project is the list
-- of the distinct directories visited, the latest first, cut to the size of the history, if it was
-- such a cut list before: an old entry that was cut off does not matter.
pub list-add_all :
    (n : ℕ) (project : String) (dirs whole : List String) (dh : DirHistory)
    → NoBlank dirs
    → dh.max_size ≡ suc n
    → list project dh ≡ take (suc n) whole
    → list project (add_all project dirs dh) ≡ take (suc n) (visited dirs whole)
unfolding add_all visited
list-add_all n project [] whole dh b m e = e
list-add_all n project (dir ∷ later) whole dh b m e =
    list-add_all n project later (dir ∷ remove_first dir whole) (add project dir dh) b.1
      (max_size-add project dir dh ∙ m) pushed
  where
    pushed : list project (add project dir dh) ≡ take (suc n) (dir ∷ remove_first dir whole)
    pushed =
        ground
          (arith, list-add project project dir dh b.0, eq_refl project, push-take n dir whole, m, e)

-- Visits to a project leave the history of every other project as it was.
pub list-add_other :
    (project p dir : String) (dh : DirHistory)
    → project ≢ p
    → list p (add project dir dh) ≡ list p dh
unfolding add
list-add_other project p dir dh h = elim (Bool-cases (dir == "")) [
  | inl blank ↦ rw (blank, add)
  | inr named ↦ ground (arith, eq_iff dir "", eq_iff project p, list-add project p dir dh)
]

list-add-add :
    (n : ℕ) (project one two : String) (dh : DirHistory)
    → dh.max_size ≡ suc (suc n)
    → one ≢ ""
    → two ≢ ""
    → list project (add project two (add project one dh))
      ≡ take (suc (suc n)) (two ∷ remove_first two (one ∷ remove_first one (list project dh)))
list-add-add n project one two dh m h k =
    let first = push-eq-take (suc (suc n)) one (list project dh) in
    ground (
      arith,
      list-add project project two (add project one dh) k,
      list-add project project one dh h,
      max_size-add project one dh,
      eq_refl project,
      push-take (suc n) two (one ∷ remove_first one (list project dh)),
    )

get_two :
    (n : ℕ) (one two : String) (dirs : List String)
    → one ≢ two
    → (x : List String) × (take (suc (suc n)) (two ∷ remove_first two (one ∷ dirs)) ≡ two ∷ one ∷ x)
unfolding remove_first
get_two n one two dirs d = (take n (remove_first two dirs), ground (arith, eq_iff one two))

-- In a history of at least two entries, after a visit to one directory and then to another one, the
-- previous directory is the first.
pub previous-add-add :
    (n : ℕ) (project one two : String) (dh : DirHistory)
    → dh.max_size ≡ suc (suc n)
    → one ≢ ""
    → two ≢ ""
    → one ≢ two
    → previous project (add project two (add project one dh)) ≡ one
unfolding previous
previous-add-add n project one two dh m h k d =
    let (x, e) = get_two n one two (remove_first one (list project dh)) d in
    rw (list-add-add n project one two dh m h k ∙ e) (ground arith)
