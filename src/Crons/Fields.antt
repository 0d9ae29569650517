-- ===== src/Crons/Fields.antt =====
-- `Update`, `updateJobField` and `toExportedFieldName` of core/cron.go.
use Prim.Native.Char.{Char, code}
use agent_in_chat_feishu.Shared.{
  Bool, true, false, List, [], ◌∷◌, String, ◌==◌, Option, none, some, if◌then◌else◌, contains, ℤ,
  eqb, paired,
}
use agent_in_chat_feishu.Crons.{CronJob, CronStore, change}

-- A value of a request: `number` is a float64, given by what `int` makes of it.
pub data Value : Type 0 where
  text : String → Value
  flag : Bool → Value
  number : ℤ → Value
  integer : ℤ → Value
  other_value : Value

abbrev upper : Char → Char
upper = paired "abcdefghijklmnopqrstuvwxyz" "ABCDEFGHIJKLMNOPQRSTUVWXYZ"

exported : Bool → String → String
exported upper_next String.[] = ""
exported upper_next (String.◌∷◌ c s) =
    let skipped = exported true s in
    let kept = String.◌∷◌ (if upper_next then upper c else c) (exported false s) in
    if eqb (code c) b'_' then skipped else kept

unfoldable pub to_exported_field_name : String → String
unfolding exported
to_exported_field_name s = exported true s

-- The string fields of the struct by their Go names.
unfoldable pub set_by_name : String → String → CronJob → Option CronJob
set_by_name name v j =
    if name == "ID"
    then some (record j { id = v })
    else if name == "Project"
    then some (record j { project = v })
    else if name == "SessionKey"
    then some (record j { session_key = v })
    else if name == "CronExpr"
    then some (record j { cron_expr = v })
    else if name == "Prompt"
    then some (record j { prompt = v })
    else if name == "Exec"
    then some (record j { exec = v })
    else if name == "WorkDir"
    then some (record j { work_dir = v })
    else if name == "Description"
    then some (record j { description = v })
    else if name == "SessionMode"
    then some (record j { session_mode = v })
    else if name == "Mode"
    then some (record j { mode = v })
    else if name == "LastError"
    then some (record j { last_error = v })
    else none

unfoldable pub set_text : String → String → CronJob → Option CronJob
set_text field v j =
    if field == "project"
    then some (record j { project = v })
    else if field == "session_key"
    then some (record j { session_key = v })
    else if field == "cron_expr"
    then some (record j { cron_expr = v })
    else if field == "prompt"
    then some (record j { prompt = v })
    else if field == "exec"
    then some (record j { exec = v })
    else if field == "work_dir"
    then some (record j { work_dir = v })
    else if field == "description"
    then some (record j { description = v })
    else if field == "session_mode"
    then some (record j { session_mode = v })
    else if field == "mode"
    then some (record j { mode = v })
    else set_by_name (to_exported_field_name field) v j

unfoldable pub set_flag : String → Bool → CronJob → Option CronJob
set_flag field v j =
    if field == "enabled"
    then some (record j { enabled = v })
    else if field == "silent"
    then some (record j { silent = some v })
    else if field == "mute"
    then some (record j { mute = v })
    else none

unfoldable pub set_int : String → ℤ → CronJob → Option CronJob
set_int field v j =
    if field == "timeout_mins" then some (record j { timeout_mins = some v }) else none

-- `none` is an error.
unfoldable pub update_job_field : String → Value → CronJob → Option CronJob
update_job_field field (text v) j = set_text field v j
update_job_field field (flag v) j = set_flag field v j
update_job_field field (number v) j = set_int field v j
update_job_field field (integer v) j = set_int field v j
update_job_field field other_value j = none

abbrev pub read_only_fields : List String
read_only_fields = "id" ∷ "created_at" ∷ "last_run" ∷ "last_error" ∷ []

unfoldable pub update : String → String → Value → CronStore → CronStore × Bool
update id field value s =
    if contains read_only_fields field
    then (s, false)
    else change id (update_job_field field value) s
