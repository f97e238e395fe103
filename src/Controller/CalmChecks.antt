-- ===== src/Controller/CalmChecks.antt =====
-- controllers/dbupgrade_controller.go: the checks, the state of the Job and the status update leave
-- every calm view of the cluster alone.
use automatic_db_upgrades.Common.{
  Option, none, some, refl, ◌∙◌, arith, Bool-cases, Option-cases, inl, inr, List, ℤ,
}
use automatic_db_upgrades.Kube.Objects.{Job, Time}
use automatic_db_upgrades.Kube.Meta.{ApiError}
use automatic_db_upgrades.Kube.Cluster.{Cluster}
use automatic_db_upgrades.Kube.Calm.{KeepsView, Steady, Steady-bind}
use automatic_db_upgrades.Api.Types.{DbUpgrade, ChecksSpec, MetricCheck}
use automatic_db_upgrades.Checks.Version.{Semver}
use automatic_db_upgrades.Checks.Values.{Floats}
use automatic_db_upgrades.Checks.Metrics.{new_metrics_checker}
use automatic_db_upgrades.Checks.Calm.{
  check_min_pod_versions-Steady, new_metrics_checker-Steady, check_metrics-Steady,
}
use automatic_db_upgrades.Api.Conditions.{set_ready, set_progressing, set_condition}
use automatic_db_upgrades.Controller.Reconcile.{
  new_status, update_status, record_event, emit, with_update, finish,
}
use automatic_db_upgrades.Controller.Result.{EventInfo, ReconcileResult, Reconciler}
use automatic_db_upgrades.Controller.Jobs.{Hashing, is_job_succeeded}
use automatic_db_upgrades.Controller.PreChecks.{
  version_prechecks, metric_prechecks, run_given_checks, run_pre_checks,
}
use automatic_db_upgrades.Controller.PostChecks.{
  max_bake_seconds, post_metrics, bake, metric_postchecks, run_post_checks, completion, conclude,
  sync_succeeded, sync_job_status,
}

module _ (C : Cluster) {A : Type 0} (view : C.World → A) (calm : KeepsView C view) where
  module _ (V : Semver) (F : Floats) (r : Reconciler C) (u : DbUpgrade) where
    version_prechecks-Steady :
        (checks : ChecksSpec) → Steady view (version_prechecks C V F r u checks)
    unfolding version_prechecks
    version_prechecks-Steady checks s = ground (
      arith,
      check_min_pod_versions-Steady C view calm V u.namespace checks.pre.min_pod_versions s,
    )

    metric_prechecks-Steady :
        (checks : ChecksSpec) → Steady view (metric_prechecks C V F r u checks)
    unfolding metric_prechecks
    metric_prechecks-Steady checks s = ground (
      arith,
      new_metrics_checker-Steady C view calm s,
      check_metrics-Steady C view calm F u.namespace checks.pre.metrics (new_metrics_checker C s).1,
    )

    run_given_checks-Steady :
        (checks : ChecksSpec) → Steady view (run_given_checks C V F r u checks)
    unfolding run_given_checks
    run_given_checks-Steady checks s = ground (
      arith,
      version_prechecks-Steady checks s,
      metric_prechecks-Steady checks (version_prechecks C V F r u checks s).1,
    )

    pub run_pre_checks-Steady : Steady view (run_pre_checks C V F r u)
    unfolding run_pre_checks
    run_pre_checks-Steady s = elim (Option-cases u.spec.checks) [
      | inl without ↦ rw (without, run_pre_checks) refl
      | inr (checks, given) ↦ rw (given, run_pre_checks) (run_given_checks-Steady checks s)
    ]

    bake-Steady : (max : ℤ) (completed : Option Time) → Steady view (bake C F r max completed)
    unfolding bake
    bake-Steady max completed s = ground (arith, calm.now s.world)

    metric_postchecks-Steady :
        (checks : List MetricCheck) → Steady view (metric_postchecks C F r u checks)
    unfolding metric_postchecks
    metric_postchecks-Steady checks s = ground (
      arith,
      new_metrics_checker-Steady C view calm s,
      check_metrics-Steady C view calm F u.namespace checks (new_metrics_checker C s).1,
    )

    run_post_checks-Steady :
        (completed : Option Time) → Steady view (run_post_checks C F r u completed)
    unfolding run_post_checks
    run_post_checks-Steady completed s =
        let metrics = post_metrics C F r u in
        let max = max_bake_seconds metrics in
        ground (
          arith,
          bake-Steady max completed s,
          metric_postchecks-Steady metrics (bake C F r max completed s).1,
        )

    completion-Steady : (job : Job) → Steady view (completion C F r u job)
    unfolding completion
    completion-Steady job s = ground (arith, calm.now s.world)

    conclude-Steady : (job : Job) (t : Time) → Steady view (conclude C F r u job t)
    unfolding conclude
    conclude-Steady job t s = ground (arith, run_post_checks-Steady (some t) s)

    sync_succeeded-Steady : (job : Job) → Steady view (sync_succeeded C F r u job)
    unfolding sync_succeeded
    sync_succeeded-Steady job =
        Steady-bind view (completion C F r u job) (conclude C F r u job) (completion-Steady job)
          (conclude-Steady job)

    pub sync_job_status-Steady : (job : Job) → Steady view (sync_job_status C F r u (some job))
    unfolding sync_job_status
    sync_job_status-Steady job s = elim (Bool-cases (is_job_succeeded (some job))) [
      | inl complete ↦ rw complete (sync_succeeded-Steady job s)
      | inr other ↦ ground arith
    ]

  module _ (V : Semver) (F : Floats) (H : Hashing) (r : Reconciler C) (u : DbUpgrade) where
    new_status-Steady : (result : ReconcileResult) → Steady view (new_status C V F H r u result)
    unfolding new_status set_ready set_progressing set_condition
    new_status-Steady result s =
        calm.set_status_condition _ _ _ ∙ calm.set_status_condition _ _ s.world

    update_status-Steady :
        (result : ReconcileResult) → Steady view (update_status C V F H r u result)
    unfolding update_status
    update_status-Steady result =
        Steady-bind view (new_status C V F H r u result) _ (new_status-Steady result)
          (λ after s. calm.update_status after s.world)

    record_event-Steady : (info : EventInfo) → Steady view (record_event C V F H r u info)
    unfolding record_event
    record_event-Steady info s = calm.create_event _ _ ∙ calm.now _ ∙ calm.now _ ∙ calm.now s.world

    with_update-Steady :
        (result : ReconcileResult) (failure : Option ApiError)
        → Steady view (with_update C V F H r u result failure)
    unfolding with_update emit record_event
    with_update-Steady result (some e) s = refl
    with_update-Steady result none s = elim (Option-cases result.event) [
      | inl e ↦ rw e refl
      | inr (info, e) ↦ rw e (record_event-Steady info s)
    ]

    pub finish-Steady : (result : ReconcileResult) → Steady view (finish C V F H r u result)
    unfolding finish
    finish-Steady result =
        Steady-bind view (update_status C V F H r u result) (with_update C V F H r u result)
          (update_status-Steady result) (with_update-Steady result)
