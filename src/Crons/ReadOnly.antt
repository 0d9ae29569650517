-- ===== src/Crons/ReadOnly.antt =====
-- What `Update` of core/cron.go leaves as it was.
use agent_in_chat_feishu.Shared.{◌≡◌, ◌≢◌, Bool, true, false, List, [], ◌∷◌, String, contains}
use agent_in_chat_feishu.Crons.{CronJob, CronStore}
use agent_in_chat_feishu.Crons.Fields.{read_only_fields}

-- The read-only parts of a job.
abbrev pub Kept : String → CronJob → CronJob → Type 0
Kept name j k =
    (k.created_at ≡ j.created_at)
    × (k.last_run ≡ j.last_run)
    × (name ≢ "ID" → k.id ≡ j.id)
    × (name ≢ "LastError" → k.last_error ≡ j.last_error)

-- The jobs stand in the same order and keep their read-only parts.
abbrev pub AllKept : String → List CronJob → List CronJob → Type 0
AllKept name [] [] = Unit {0}
AllKept name (j ∷ js) (k ∷ ks) = Kept name j k × AllKept name js ks
AllKept name _ _ = ⊥

-- A read-only field changes nothing and is an error.
abbrev pub Refused : String → CronStore → CronStore × Bool → Type 0
Refused field s result =
    contains read_only_fields field ≡ true → (result.0 ≡ s) × (result.1 ≡ false)
