-- ===== src/Controller/Reconcile.antt =====
-- controllers/dbupgrade_controller.go: Reconcile and the functions that it is made of. An early
-- return is a branch; what follows a call is a function of its answer. Log lines are left out.
use automatic_db_upgrades.Common.{
  String, ◌<>◌, ◌==◌, true, not, ◌&&◌, Option, none, some, ℤ, pos, ltb_ℤ, if◌then◌else◌, is_none,
  show_hex,
}
use automatic_db_upgrades.Kube.Objects.{Time, Secret, Job, ClusterEvent}
use automatic_db_upgrades.Kube.Meta.{
  Result, ok, err, ApiError, text, is_not_found, is_already_exists,
}
use automatic_db_upgrades.Kube.Cluster.{Cluster}
use automatic_db_upgrades.Kube.Monad.{
  M, pure, ask, send, ◌>>=◌, deleted_job, created_event, updated_status,
}
use automatic_db_upgrades.Api.Types.{DbUpgrade}
use automatic_db_upgrades.Api.Conditions.{
  secret_not_found, aws_not_supported, initializing, migration_in_progress, job_pending,
  job_failed_reason, reason_text, set_ready, set_progressing,
}
use automatic_db_upgrades.Checks.Version.{Semver}
use automatic_db_upgrades.Checks.Values.{Floats}
use automatic_db_upgrades.Controller.Result.{
  EventInfo, ReconcileResult, waiting, stuck, with_event, event_normal, event_warning, Reconciler,
}
use automatic_db_upgrades.Controller.Jobs.{
  Hashing, compute_spec_hash, job_name, get_job_for_upgrade, is_job_running, create_migration_job,
}
use automatic_db_upgrades.Controller.Secrets.{
  is_self_hosted, is_aws, validate_secret, ensure_migration_secret,
}
use automatic_db_upgrades.Controller.PreChecks.{run_pre_checks}
use automatic_db_upgrades.Controller.PostChecks.{sync_job_status}

-- ctrl.Result and the error
pub record Reconciled : Type 0 where
  pub requeue_after : ℤ
  pub failure : Option ApiError

abbrev pub nothing_more : Reconciled
nothing_more = record { requeue_after = pos 0; failure = none }

abbrev pub failed_with : ApiError → Reconciled
failed_with e = record { requeue_after = pos 0; failure = some e }

abbrev pub expected_job_name : Hashing → DbUpgrade → String
expected_job_name H u = job_name u.name (compute_spec_hash H u.spec)

abbrev deleted : ReconcileResult
deleted = with_event event_normal "SpecChanged" "Spec changed, starting new migration" (
    stuck initializing "Spec changed, preparing new migration"
      "Deleted old Job, will create new one" (pos 2))

module _ (C : Cluster) (V : Semver) (F : Floats) (H : Hashing) (r : Reconciler C) where
  -- The spec changed while a Job of the previous spec exists.
  unfoldable pub replace_job : DbUpgrade → Job → M C.World ReconcileResult
  replace_job u job =
      if is_job_running (some job)
      then pure (
          waiting true initializing "Waiting for current migration to complete"
            migration_in_progress "Cannot apply new spec while migration is running" (pos 10))
      else do
        failure ← send (deleted_job job) (C.delete_job job)
        pure (elim failure [
          | none ↦ deleted
          | some e ↦
              if is_not_found e
              then deleted
              else stuck initializing "Cleaning up stale Job" "Deleting Job from previous spec"
                  (pos 5)
        ])

  -- What follows a call of createMigrationJob.
  abbrev job_created : Result ApiError Job → ReconcileResult
  job_created (ok job) =
      with_event event_normal "MigrationStarted" ("Created migration Job " <> job.name) (
        waiting true initializing "Migration Job created" job_pending ("Created Job " <> job.name)
          (pos 5))
  job_created (err e) =
      if is_already_exists e
      then waiting true initializing "Job creation in progress" job_pending
          "Migration Job being created" (pos 2)
      else stuck job_failed_reason "Failed to create migration Job" (text e) (pos 30)

  unfoldable pub create_job : DbUpgrade → Secret → M C.World ReconcileResult
  create_job u secret = do
    created ← create_migration_job C r.settings u secret.name (compute_spec_hash H u.spec)
    pure (job_created created)

  unfoldable pub after_checks : DbUpgrade → Secret → ReconcileResult → M C.World ReconcileResult
  after_checks u secret pre = if not pre.ready then pure pre else create_job u secret

  -- No Job exists: the pre-checks, and the Job if they pass.
  unfoldable pub start_migration : DbUpgrade → Secret → M C.World ReconcileResult
  start_migration u secret =
      if is_none u.spec.checks
      then create_job u secret
      else do pre ← run_pre_checks C V F r u; after_checks u secret pre

  unfoldable pub with_job : DbUpgrade → Secret → Option Job → M C.World ReconcileResult
  with_job u secret none = start_migration u secret
  with_job u secret (some job) =
      if not (job.name == expected_job_name H u)
      then replace_job u job
      else sync_job_status C F r u (some job)

  unfoldable pub with_found :
      DbUpgrade → Secret → Result String (Option Job) → M C.World ReconcileResult
  with_found u secret (err e) =
      pure (stuck initializing "Error checking for existing Job" e (pos 5))
  with_found u secret (ok job) = with_job u secret job

  unfoldable pub with_secret : DbUpgrade → Result String Secret → M C.World ReconcileResult
  with_secret u (err e) =
      pure (stuck secret_not_found "Failed to create migration secret" e (pos 10))
  with_secret u (ok secret) = do found ← get_job_for_upgrade C u; with_found u secret found

  -- reconcileDBUpgrade behind the validation of the customer's Secret.
  unfoldable pub validated : DbUpgrade → Option String → M C.World ReconcileResult
  validated u (some e) =
      pure (with_event event_warning "SecretNotFound" e (stuck secret_not_found e e (pos 30)))
  validated u none =
      if is_aws u.spec.database.kind && is_none u.spec.database.aws
      then pure (
          stuck aws_not_supported "database.aws configuration is required for AWS RDS/Aurora"
            "Missing AWS configuration" (pos 0))
      else do secret ← ensure_migration_secret C r.aws_client_manager u; with_secret u secret

  unfoldable pub reconcile_upgrade : DbUpgrade → M C.World ReconcileResult
  reconcile_upgrade u =
      if is_self_hosted u.spec.database.kind
      then (do bad ← validate_secret C u; validated u bad)
      else validated u none

  -- updateStatus: the object with its new status, and the error of the update.
  unfoldable pub new_status : DbUpgrade → ReconcileResult → M C.World DbUpgrade
  new_status u result = do
    with_ready ←
        set_ready C result.ready (reason_text result.ready_reason) result.ready_message u.generation
          u.status.conditions
    conditions ←
        set_progressing C result.progressing (reason_text result.progress_reason)
          result.progress_message u.generation with_ready
    pure (record u {
      status = record {
        observed_generation = u.generation;
        job_completed_at = elim result.job_completed_at [
          | some t ↦ some t
          | none ↦ u.status.job_completed_at
        ];
        conditions = conditions;
      };
    })

  unfoldable pub update_status : DbUpgrade → ReconcileResult → M C.World (Option ApiError)
  update_status u result = do
    updated ← new_status u result
    send (updated_status updated) (C.update_status updated)

  abbrev cluster_event : DbUpgrade → EventInfo → Time → Time → Time → ClusterEvent
  cluster_event u info stamp first last = record {
    name = u.name <> ("." <> show_hex stamp);
    namespace = u.namespace;
    object_api_version = "dbupgrade.subbug.learning/v1alpha1";
    object_kind = "DBUpgrade";
    object_namespace = u.namespace;
    object_name = u.name;
    object_uid = u.uid;
    kind = info.kind;
    reason = info.reason;
    message = info.message;
    component = "dbupgrade-controller";
    first_timestamp = first;
    last_timestamp = last;
    count = 1;
  }

  -- recordEvent reads the clock three times; a failed creation is only logged.
  unfoldable pub record_event : DbUpgrade → EventInfo → M C.World (Unit {0})
  record_event u info = do
    stamp ← ask C.now
    first ← ask C.now
    last ← ask C.now
    let event = cluster_event u info stamp first last
    _ ← send (created_event event) (C.create_event event)
    pure tt

  unfoldable pub emit : DbUpgrade → Option EventInfo → M C.World (Unit {0})
  emit u none = pure tt
  emit u (some info) = record_event u info

  abbrev pub requeue : ReconcileResult → Reconciled
  requeue result =
      if ltb_ℤ (pos 0) result.requeue_after
      then record { requeue_after = result.requeue_after; failure = none }
      else nothing_more

  -- Reconcile behind the status update, given its error.
  unfoldable pub with_update : DbUpgrade → ReconcileResult → Option ApiError → M C.World Reconciled
  with_update u result (some e) = pure (failed_with e)
  with_update u result none = do _ ← emit u result.event; pure (requeue result)

  -- Reconcile behind its main logic.
  unfoldable pub finish : DbUpgrade → ReconcileResult → M C.World Reconciled
  finish u result = do failure ← update_status u result; with_update u result failure

  -- Reconcile behind the fetch of the object.
  unfoldable pub with_upgrade : Result ApiError DbUpgrade → M C.World Reconciled
  with_upgrade (err e) = pure (if is_not_found e then nothing_more else failed_with e)
  with_upgrade (ok u) = do result ← reconcile_upgrade u; finish u result

  unfoldable pub reconcile : String → String → M C.World Reconciled
  reconcile namespace name = do got ← ask (C.get_upgrade namespace name); with_upgrade got
