-- ===== src/Controller/PreChecks.antt =====
-- controllers/dbupgrade_controller.go, runPreChecks.
use automatic_db_upgrades.Common.{String, not, Option, none, some, pos, if◌then◌else◌, is_empty}
use automatic_db_upgrades.Kube.Meta.{ok, err}
use automatic_db_upgrades.Kube.Cluster.{Cluster}
use automatic_db_upgrades.Kube.Monad.{M, pure, ◌>>=◌}
use automatic_db_upgrades.Api.Types.{ChecksSpec, DbUpgrade}
use automatic_db_upgrades.Api.Conditions.{
  Reason, pre_check_image_version_failed, pre_check_metric_failed,
}
use automatic_db_upgrades.Checks.Version.{Semver, check_min_pod_versions}
use automatic_db_upgrades.Checks.Values.{Floats}
use automatic_db_upgrades.Checks.Metrics.{new_metrics_checker, check_metrics}
use automatic_db_upgrades.Controller.Result.{
  ReconcileResult, passed_checks, stuck, with_event, event_warning, Reconciler,
}

-- The two results that a check of a kind gives when it cannot run, and when it does not pass.
abbrev pub check_error : Reason → String → String → ReconcileResult
check_error reason message what = stuck reason message what (pos 30)

abbrev pub check_failed : Reason → String → String → ReconcileResult
check_failed reason event message =
    with_event event_warning event message (stuck reason message message (pos 60))

module _ (C : Cluster) (V : Semver) (F : Floats) (r : Reconciler C) where
  -- `none` where the checks of the kind pass or there are none.
  unfoldable pub version_prechecks : DbUpgrade → ChecksSpec → M C.World (Option ReconcileResult)
  version_prechecks u checks = if is_empty checks.pre.min_pod_versions then pure none else do
    result ← check_min_pod_versions V C u.namespace checks.pre.min_pod_versions
    pure (elim result [
      | err e ↦
          some (check_error pre_check_image_version_failed e "Error running pod version check")
      | ok v ↦
          if not v.passed
          then some (check_failed pre_check_image_version_failed "PreCheckFailed" v.message)
          else none
    ])

  unfoldable pub metric_prechecks : DbUpgrade → ChecksSpec → M C.World (Option ReconcileResult)
  metric_prechecks u checks =
      if is_empty checks.pre.metrics
      then pure none
      else if not r.has_rest_config
      then pure none
      else do
        checker ← new_metrics_checker C
        elim checker [
          | some e ↦
              pure (some (check_error pre_check_metric_failed "Failed to create metrics checker" e))
          | none ↦ do
            result ← check_metrics F C u.namespace checks.pre.metrics
            pure (elim result [
              | err e ↦ some (check_error pre_check_metric_failed e "Error running metric check")
              | ok m ↦
                  if not m.passed
                  then some (check_failed pre_check_metric_failed "PreCheckFailed" m.message)
                  else none
            ])
        ]

  -- The function behind its test for nil.
  unfoldable pub run_given_checks : DbUpgrade → ChecksSpec → M C.World ReconcileResult
  run_given_checks u checks = do
    versions ← version_prechecks u checks
    elim versions [
      | some failed ↦ pure failed
      | none ↦ do
        metrics ← metric_prechecks u checks
        pure (elim metrics [ some failed ↦ failed | none ↦ passed_checks ])
    ]

  unfoldable pub run_pre_checks : DbUpgrade → M C.World ReconcileResult
  run_pre_checks u = elim u.spec.checks [
    | none ↦ pure passed_checks
    | some checks ↦ run_given_checks u checks
  ]
