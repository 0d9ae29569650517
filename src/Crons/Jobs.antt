-- ===== src/Crons/Jobs.antt =====
-- Changing and removing jobs of the store (core/cron.go).
use agent_in_chat_feishu.Shared.{
  ◌≡◌, refl, sym, ap, ◌∙◌, false, List, [], ◌∷◌, map, String, ◌==◌, eq_iff, arith, Option, none,
  some, if◌then◌else◌, contains, Distinct, inl, inr, Option-cases,
}
use agent_in_chat_feishu.Crons.{CronJob, CronStore, save, get, without_first, remove}

abbrev pub ids : List CronJob → List String
ids = map (λ j. j.id)

get-none : (id : String) (js : List CronJob) → contains (ids js) id ≡ false → get id js ≡ none
unfolding get contains
get-none id [] h = refl
get-none id (j ∷ js) h = ground (arith, get-none id js)

abbrev then_get : String → List CronJob → Option (List CronJob) → Option CronJob
then_get wanted js none = get wanted js
then_get wanted js (some left) = get wanted left

get-without_first :
    (id wanted : String) (js : List CronJob)
    → Distinct (ids js)
    → then_get wanted js (without_first id js) ≡ (if id == wanted then none else get wanted js)
unfolding get without_first contains
get-without_first id wanted [] d = ground arith
get-without_first id wanted (j ∷ js) d = ground (
  arith,
  eq_iff j.id id,
  eq_iff j.id wanted,
  eq_iff id wanted,
  get-none id js,
  get-without_first id wanted js d.1,
)

-- In a store whose IDs are distinct, `Remove` removes the job with the ID and no other, and says
-- whether there was one; it does so also where the file cannot be written.
pub remove-exact :
    (id wanted : String) (s : CronStore)
    → Distinct (ids s.jobs)
    → get wanted (remove id s).0.jobs ≡ (if id == wanted then none else get wanted s.jobs)
unfolding remove save
remove-exact id wanted s d = elim (Option-cases (without_first id s.jobs)) [
  | inl e ↦
      rw (e, remove) (sym (ap (then_get wanted s.jobs) e) ∙ get-without_first id wanted s.jobs d)
  | inr (left, e) ↦
      let it = sym (ap (then_get wanted s.jobs) e) ∙ get-without_first id wanted s.jobs d in
      rw (e, remove) (ground (arith, it))
]
