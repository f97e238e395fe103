-- ===== src/Tests/StatusExamples.antt =====
-- The reconciler's results, status and times on concrete objects.
use automatic_db_upgrades.Common.{
  String, true, none, some, [], ◌∷◌, ◌≡◌, ◌≢◌, refl, pos, ==_refl, ==_of_ne, Bytes-discrete,
  String-discrete, show_hex_bytes,
}
use automatic_db_upgrades.Kube.Objects.{Job, Condition, ConditionStatus, is_true, is_false}
use automatic_db_upgrades.Kube.Meta.{ok}
use automatic_db_upgrades.Kube.Monad.{done}
use automatic_db_upgrades.Api.Types.{DbUpgrade, condition_ready, condition_progressing}
use automatic_db_upgrades.Api.Conditions.{
  SetsConditions, find_condition, set_condition, set_ready, set_progressing, initializing,
  migration_in_progress,
}
use automatic_db_upgrades.Api.Webhook.{validate_update}
use automatic_db_upgrades.Controller.Result.{ReconcileResult, Reconciler, waiting}
use automatic_db_upgrades.Controller.Jobs.{
  compute_spec_hash, owns, find_job, get_job_for_upgrade, is_job_succeeded,
}
use automatic_db_upgrades.Controller.Secrets.{
  validate_secret, connection_url, lookup, insert, needs_update, store_url, refresh, write_secret,
  write_url, ensure_migration_secret,
}
use automatic_db_upgrades.Controller.PostChecks.{
  migration_complete_result, completion, conclude, sync_succeeded, sync_job_status,
}
use automatic_db_upgrades.Controller.Reconcile.{
  with_job, with_found, with_secret, validated, reconcile_upgrade, new_status, Reconciled, finish,
}
use automatic_db_upgrades.Controller.Permitted.{IsMigrated}
use automatic_db_upgrades.Controller.Promise.{Keeps}
use automatic_db_upgrades.Controller.Answers.{
  reconcile_upgrade-Keeps, IsOrdered, finish-IsOrdered, IsReport, new_status-IsReport,
}
use automatic_db_upgrades.Controller.Admission.{progressing_refuses_change}
use automatic_db_upgrades.Tests.Objects.{checked, unchecked, full_secret, job_of}
use automatic_db_upgrades.Tests.Server.{
  in_namespace, server, served, start, two_versions, whole_numbers, one_hash, reconciler,
}

abbrev full : Reconciler server
full = reconciler (ok full_secret)

abbrev current_job : Job
current_job = job_of "dbupgrade-app-abcdef01" (some 1000000000)

abbrev complete : ReconcileResult
complete = migration_complete_result server whole_numbers full current_job 1000000000

reconcile_upgrade-Keeps_example : Keeps (IsMigrated server one_hash unchecked) complete
unfolding in_namespace reconcile_upgrade validated validate_secret ensure_migration_secret
    connection_url store_url write_secret refresh needs_update write_url insert lookup with_secret
    get_job_for_upgrade find_job owns with_found with_job compute_spec_hash show_hex_bytes
    sync_job_status is_job_succeeded sync_succeeded completion conclude Bytes-discrete
    String-discrete
reconcile_upgrade-Keeps_example =
    reconcile_upgrade-Keeps server two_versions whole_numbers one_hash full unchecked
      (served unchecked (current_job ∷ [])) complete refl

finish-IsOrdered_example :
    (out : Reconciled) × ((finish server two_versions whole_numbers one_hash full unchecked complete
        (start (served unchecked []))).0
      ≡ done out)
    × IsOrdered server two_versions whole_numbers one_hash full unchecked complete
        (start (served unchecked []))
        (finish server two_versions whole_numbers one_hash full unchecked complete
          (start (served unchecked []))).1.trace
        out
finish-IsOrdered_example =
    finish-IsOrdered server two_versions whole_numbers one_hash full unchecked complete
      (start (served unchecked []))

-- The server puts the new condition in front.
server-SetsConditions : SetsConditions server
unfolding find_condition
server-SetsConditions = record {
  sets = λ c cs w status e. record {
    condition = c;
    found = rw ==_refl refl;
    status_eq = e;
    reason_eq = refl;
    message_eq = refl;
    generation_eq = refl;
  };
  keeps = λ c cs w kind apart. rw (==_of_ne c.kind kind (λ e. apart (cc e))) refl;
}

abbrev running : ReconcileResult
running =
    waiting true initializing "Migration in progress" migration_in_progress "Job is running"
      (pos 10)

abbrev shown : String → ConditionStatus → String → String → Condition
shown kind status reason message = record {
  kind = kind;
  status = status;
  observed_generation = pos 3;
  last_transition = 0;
  reason = reason;
  message = message;
}

abbrev reported : DbUpgrade
reported = record checked {
  status = record {
    observed_generation = pos 3;
    job_completed_at = none;
    conditions =
        shown condition_progressing is_true "MigrationInProgress" "Job is running"
        ∷ shown condition_ready is_false "Initializing" "Migration in progress"
        ∷ [];
  };
}

new_status-IsReport_example :
    IsReport server two_versions whole_numbers one_hash full checked running reported
unfolding new_status set_ready set_progressing set_condition
new_status-IsReport_example =
    new_status-IsReport server two_versions whole_numbers one_hash full checked
      server-SetsConditions running (start (served checked [])) reported refl

progressing_refuses_change_example :
    validate_update two_versions whole_numbers unchecked reported ≢ none
unfolding new_status set_ready set_progressing set_condition
progressing_refuses_change_example =
    progressing_refuses_change server two_versions whole_numbers one_hash full checked
      server-SetsConditions running (start (served checked [])) reported unchecked refl refl
      (λ e. cc)
