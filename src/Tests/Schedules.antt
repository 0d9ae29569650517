-- ===== src/Tests/Schedules.antt =====
-- The store of scheduled jobs on concrete inputs (core/cron.go).
use agent_in_chat_feishu.Shared.{
  ◌≡◌, refl, true, false, [], ◌∷◌, String, none, contains, Distinct, paired,
}
use agent_in_chat_feishu.Crons.{CronJob, CronStore, change, change_first, save}
use agent_in_chat_feishu.Crons.Fields.{
  update, text, to_exported_field_name, update_job_field, set_text, set_by_name,
}
use agent_in_chat_feishu.Crons.Jobs.{ids}

abbrev job : String → CronJob
job id = record {
  id = id;
  project = "app";
  session_key = "feishu:oc_1";
  cron_expr = "0 9 * * *";
  prompt = "report";
  exec = "";
  work_dir = "";
  description = "";
  enabled = true;
  silent = none;
  mute = false;
  session_mode = "";
  mode = "";
  timeout_mins = none;
  created_at = 1;
  last_run = 0;
  last_error = "";
}

abbrev store : CronStore
store = record { jobs = job "j1" ∷ job "j2" ∷ []; file = none; writable = true }

store-Distinct : Distinct (ids store.jobs)
unfolding contains
store-Distinct = (refl, (refl, tt))

-- The exact name of the field is refused, another spelling of it is not.
read_only_names :
    ((update "j1" "id" (text "x") store).1 ≡ false)
    × (ids (update "j1" "iD" (text "x") store).0.jobs ≡ "x" ∷ "j2" ∷ [])
unfolding update contains change change_first update_job_field set_text set_by_name
    to_exported_field_name paired save
read_only_names = (refl, refl)
