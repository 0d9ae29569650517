-- ===== src/Crons.antt =====
-- core/cron.go, `CronStore`: the jobs and their file, which a save replaces as a whole or, where
-- it fails, leaves as it was.
pub mod Fields
pub mod Jobs
pub mod ReadOnly
use agent_in_chat_feishu.Shared.{
  ℕ, Bool, true, false, not, List, [], ◌∷◌, ◌++◌, String, ◌==◌, Option, none, some, if◌then◌else◌,
  contains, ℤ, filter,
}

pub record CronJob : Type 0 where
  pub id : String
  pub project : String
  pub session_key : String
  pub cron_expr : String
  pub prompt : String
  pub exec : String
  pub work_dir : String
  pub description : String
  pub enabled : Bool
  pub silent : Option Bool
  pub mute : Bool
  pub session_mode : String
  pub mode : String
  pub timeout_mins : Option ℤ
  pub created_at : ℕ
  pub last_run : ℕ
  pub last_error : String

pub record CronStore : Type 0 where
  pub jobs : List CronJob
  pub file : Option (List CronJob)  -- none: missing or unreadable
  pub writable : Bool

unfoldable pub load : CronStore → CronStore
load s = elim s.file [ none ↦ s | some jobs ↦ record s { jobs = jobs } ]

-- The store and whether there was no error.
unfoldable pub save : CronStore → CronStore × Bool
save s = if s.writable then (record s { file = some s.jobs }, true) else (s, false)

unfoldable pub add : CronJob → CronStore → CronStore × Bool
add job s = save (record s { jobs = s.jobs ++ job ∷ [] })

unfoldable pub without_first : String → List CronJob → Option (List CronJob)
without_first id [] = none
without_first id (j ∷ js) =
    let rest = without_first id js in
    if j.id == id then some js else elim rest [ none ↦ none | some left ↦ some (j ∷ left) ]

unfoldable pub remove : String → CronStore → CronStore × Bool
remove id s = elim (without_first id s.jobs) [
  | none ↦ (s, false)
  | some left ↦ ((save (record s { jobs = left })).0, true)
]

-- The loops that change the first job with the ID; `none`: there is none, or the change fails.
unfoldable pub change_first :
    String → (CronJob → Option CronJob) → List CronJob → Option (List CronJob)
change_first id f [] = none
change_first id f (j ∷ js) =
    let rest = change_first id f js in
    if j.id == id
    then elim (f j) [ none ↦ none | some changed ↦ some (changed ∷ js) ]
    else elim rest [ none ↦ none | some changed ↦ some (j ∷ changed) ]

unfoldable pub change : String → (CronJob → Option CronJob) → CronStore → CronStore × Bool
change id f s = elim (change_first id f s.jobs) [
  | none ↦ (s, false)
  | some jobs ↦ ((save (record s { jobs = jobs })).0, true)
]

unfoldable pub set_enabled : String → Bool → CronStore → CronStore × Bool
set_enabled id enabled = change id (λ j. some (record j { enabled = enabled }))

unfoldable pub set_mute : String → Bool → CronStore → CronStore × Bool
set_mute id mute = change id (λ j. some (record j { mute = mute }))

unfoldable pub get : String → List CronJob → Option CronJob
get id [] = none
get id (j ∷ js) = let rest = get id js in if j.id == id then some j else rest

-- The new state of the flag, and whether the job exists.
unfoldable pub toggle_mute : String → CronStore → CronStore × Bool × Bool
toggle_mute id s =
    let (s', ok) = change id (λ j. some (record j { mute = not j.mute })) s in
    elim (get id s.jobs) [ none ↦ (s', false, ok) | some j ↦ (s', not j.mute, ok) ]

-- `error` is empty for a run without an error.
unfoldable pub mark_run : String → String → ℕ → CronStore → CronStore
mark_run id error now s =
    (change id (λ j. some (record j { last_run = now; last_error = error })) s).0

unfoldable pub list_by_project : String → List CronJob → List CronJob
list_by_project project = filter (λ j. j.project == project)

unfoldable pub list_by_session_key : String → List CronJob → List CronJob
list_by_session_key session_key = filter (λ j. j.session_key == session_key)
