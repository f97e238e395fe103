-- ===== src/Controller/PostChecks.antt =====
-- controllers/dbupgrade_controller.go, runPostChecks and syncJobStatus.
use automatic_db_upgrades.Common.{
  ◌<>◌, true, false, not, Option, none, some, List, [], ◌∷◌, ℤ, pos, ltb_ℤ, ◌-ℤ◌, int32, quot,
  show_ℤ, if◌then◌else◌, is_empty,
}
use automatic_db_upgrades.Kube.Objects.{Time, Job}
use automatic_db_upgrades.Kube.Meta.{ok, err}
use automatic_db_upgrades.Kube.Cluster.{Cluster}
use automatic_db_upgrades.Kube.Monad.{M, pure, ask, ◌>>=◌}
use automatic_db_upgrades.Api.Types.{MetricCheck, DbUpgrade}
use automatic_db_upgrades.Api.Conditions.{
  post_check_failed, post_check_bake_time_waiting, initializing, migration_complete,
  job_failed_reason, migration_in_progress, job_pending,
}
use automatic_db_upgrades.Checks.Values.{Floats}
use automatic_db_upgrades.Checks.Metrics.{new_metrics_checker, check_metrics}
use automatic_db_upgrades.Controller.Result.{
  ReconcileResult, passed_checks, waiting, stuck, with_event, event_normal, event_warning,
  Reconciler,
}
use automatic_db_upgrades.Controller.Jobs.{is_job_running, is_job_succeeded, is_job_failed}
use automatic_db_upgrades.Controller.PreChecks.{check_error, check_failed}

-- The loop over the bake times.
unfoldable pub max_bake_from : ℤ → List MetricCheck → ℤ
max_bake_from max [] = max
max_bake_from max (check ∷ checks) =
    max_bake_from (if ltb_ℤ max check.bake_seconds then check.bake_seconds else max) checks

abbrev pub max_bake_seconds : List MetricCheck → ℤ
max_bake_seconds = max_bake_from (pos 0)

-- `int32(time.Since(t).Seconds())`; the rounding of the float is left out, and a number of seconds
-- out of range, which Go leaves to the platform, wraps.
unfoldable pub elapsed_seconds : Time → Time → ℤ
elapsed_seconds now completed = int32 (quot (pos now -ℤ pos completed) 1000000000)

unfoldable pub bake_waiting : ℤ → ℤ → ReconcileResult
bake_waiting max elapsed =
    let remaining = int32 (max -ℤ elapsed) in
    waiting true post_check_bake_time_waiting
      ("Waiting for bake time: " <> (show_ℤ remaining <> "s remaining"))
      post_check_bake_time_waiting
      ("Bake time: " <> (show_ℤ elapsed <> ("/" <> (show_ℤ max <> " seconds elapsed")))) remaining

module _ (C : Cluster) (F : Floats) (r : Reconciler C) where
  -- `some` while the bake time has not elapsed.
  unfoldable pub bake : ℤ → Option Time → M C.World (Option ReconcileResult)
  bake max none = pure none
  bake max (some completed) = if not (ltb_ℤ (pos 0) max) then pure none else do
    now ← ask C.now
    let elapsed = elapsed_seconds now completed
    pure (if ltb_ℤ elapsed max then some (bake_waiting max elapsed) else none)

  unfoldable pub metric_postchecks : DbUpgrade → List MetricCheck → M C.World ReconcileResult
  metric_postchecks u checks = do
    checker ← new_metrics_checker C
    elim checker [
      | some e ↦ pure (check_error post_check_failed "Failed to create metrics checker" e)
      | none ↦ do
        result ← check_metrics F C u.namespace checks
        pure (elim result [
          | err e ↦ check_error post_check_failed e "Error running metric check"
          | ok m ↦
              if not m.passed
              then check_failed post_check_failed "PostCheckFailed" m.message
              else passed_checks
        ])
    ]

  -- `dbUpgrade.Spec.Checks.Post.Metrics`, empty where there are no checks.
  abbrev pub post_metrics : DbUpgrade → List MetricCheck
  post_metrics u = elim u.spec.checks [ none ↦ [] | some checks ↦ checks.post.metrics ]

  unfoldable pub run_post_checks : DbUpgrade → Option Time → M C.World ReconcileResult
  run_post_checks u completed =
      if is_empty (post_metrics u)
      then pure passed_checks
      else if not r.has_rest_config
      then pure passed_checks
      else do
        wait ← bake (max_bake_seconds (post_metrics u)) completed
        elim wait [ some w ↦ pure w | none ↦ metric_postchecks u (post_metrics u) ]

  -- When the Job was completed: by its status, by the status of the DBUpgrade, or now.
  unfoldable pub completion : DbUpgrade → Job → M C.World Time
  completion u job = elim job.status.completion_time [
    | some t ↦ pure t
    | none ↦ elim u.status.job_completed_at [ some t ↦ pure t | none ↦ ask C.now ]
  ]

  abbrev pub migration_complete_result : Job → Time → ReconcileResult
  migration_complete_result job t = record {
    ready = true;
    ready_reason = migration_complete;
    ready_message = "Database migration completed successfully";
    progressing = false;
    progress_reason = migration_complete;
    progress_message = "Job " <> (job.name <> " completed");
    requeue_after = pos 0;
    event = some (record {
      kind = event_normal;
      reason = "MigrationSucceeded";
      message = "Database migration completed successfully";
    });
    job_completed_at = some t;
  }

  -- The post-checks, once the time of completion is known.
  unfoldable pub conclude : DbUpgrade → Job → Time → M C.World ReconcileResult
  conclude u job t =
      if is_empty (post_metrics u) then pure (migration_complete_result job t) else do
        post ← run_post_checks u (some t)
        pure (
            if not post.ready
            then record post { job_completed_at = some t }
            else migration_complete_result job t)

  -- The branch of syncJobStatus for a Job that succeeded.
  unfoldable pub sync_succeeded : DbUpgrade → Job → M C.World ReconcileResult
  sync_succeeded u job = do t ← completion u job; conclude u job t

  unfoldable pub sync_job_status : DbUpgrade → Option Job → M C.World ReconcileResult
  sync_job_status u none =
      pure (stuck initializing "No migration Job exists" "Waiting for Job creation" (pos 0))
  sync_job_status u (some job) =
      if is_job_succeeded (some job)
      then sync_succeeded u job
      else if is_job_failed (some job)
      then pure (
          with_event event_warning "MigrationFailed" "Database migration failed" (
            stuck job_failed_reason "Migration Job failed" ("Job " <> (job.name <> " failed"))
              (pos 0)))
      else if is_job_running (some job)
      then pure (
          waiting true initializing "Migration in progress" migration_in_progress
            ("Job " <> (job.name <> " is running")) (pos 10))
      else pure (
          waiting true initializing "Migration Job pending" job_pending
            ("Job " <> (job.name <> " is pending")) (pos 5))
