-- ===== src/Controller/Outcomes.antt =====
-- Every result of the pre-checks, the post-checks and the Job's state keeps the promise. The lemmas
-- also say that this code writes nothing and does not panic.
use automatic_db_upgrades.Common.{
  true, false, Option, none, some, List, ◌≡◌, ℤ, arith, Option-cases, Bool-cases, inl, inr,
}
use automatic_db_upgrades.Kube.Objects.{Time, Job}
use automatic_db_upgrades.Kube.Cluster.{Cluster}
use automatic_db_upgrades.Kube.Monad.{Write}
use automatic_db_upgrades.Kube.Writes.{Writes, Writes-bind, Any}
use automatic_db_upgrades.Api.Types.{ChecksSpec, MetricCheck, DbUpgrade}
use automatic_db_upgrades.Checks.Version.{Semver}
use automatic_db_upgrades.Checks.Values.{Floats}
use automatic_db_upgrades.Checks.Metrics.{new_metrics_checker}
use automatic_db_upgrades.Checks.Reads.{
  check_min_pod_versions-Reads, new_metrics_checker-Reads, check_metrics-Reads,
}
use automatic_db_upgrades.Api.Conditions.{post_check_bake_time_waiting}
use automatic_db_upgrades.Controller.Result.{ReconcileResult, Reconciler}
use automatic_db_upgrades.Controller.Jobs.{is_job_succeeded}
use automatic_db_upgrades.Controller.PreChecks.{
  version_prechecks, metric_prechecks, run_given_checks, run_pre_checks,
}
use automatic_db_upgrades.Controller.PostChecks.{
  max_bake_seconds, post_metrics, bake_waiting, bake, metric_postchecks, run_post_checks,
  completion, conclude, sync_succeeded, sync_job_status,
}
use automatic_db_upgrades.Controller.Promise.{IsFollowed, Keeps}

-- A check that does not pass gives a result that is not ready and is followed.
abbrev pub IsRefusal : ReconcileResult → Type 0
IsRefusal r = (r.ready ≡ false) × IsFollowed r × (r.progressing ≡ false)

abbrev pub AnyRefusal : Option ReconcileResult → Type 0
AnyRefusal none = Unit
AnyRefusal (some r) = IsRefusal r

module _ (C : Cluster) (X : Type 0) (P : Write → Type 0) (V : Semver) (F : Floats)
    (r : Reconciler C) where
  version_prechecks-Writes :
      (u : DbUpgrade) (checks : ChecksSpec)
      → Writes X P (version_prechecks C V F r u checks) AnyRefusal
  unfolding version_prechecks
  version_prechecks-Writes u checks s i =
      ground
        (arith, check_min_pod_versions-Reads C X P V u.namespace checks.pre.min_pod_versions s i)

  metric_prechecks-Writes :
      (u : DbUpgrade) (checks : ChecksSpec)
      → Writes X P (metric_prechecks C V F r u checks) AnyRefusal
  unfolding metric_prechecks
  metric_prechecks-Writes u checks s i = ground (
    arith,
    new_metrics_checker-Reads C X P s i,
    check_metrics-Reads C X P F u.namespace checks.pre.metrics (new_metrics_checker C s).1,
  )

  run_given_checks-Writes :
      (u : DbUpgrade) (checks : ChecksSpec)
      → Writes X P (run_given_checks C V F r u checks) (λ pre. pre.ready ≡ false → IsRefusal pre)
  unfolding run_given_checks
  run_given_checks-Writes u checks s i = ground (
    arith,
    version_prechecks-Writes u checks s i,
    metric_prechecks-Writes u checks (version_prechecks C V F r u checks s).1,
  )

  pub run_pre_checks-Writes :
      (u : DbUpgrade)
      → Writes X P (run_pre_checks C V F r u) (λ pre. pre.ready ≡ false → IsRefusal pre)
  unfolding run_pre_checks
  run_pre_checks-Writes u s i = elim (Option-cases u.spec.checks) [
    | inl without ↦ rw (without, run_pre_checks) (i, λ h. cc)
    | inr (checks, given) ↦ rw (given, run_pre_checks) (run_given_checks-Writes u checks s i)
  ]

  abbrev IsBakeWait : Option ReconcileResult → Type 0
  IsBakeWait none = Unit
  IsBakeWait (some w) =
      (w.ready ≡ false)
      × (w.progressing ≡ true)
      × (w.progress_reason ≡ post_check_bake_time_waiting)

  bake-Writes :
      (max : ℤ) (completed : Option Time) → Writes X P (bake C F r max completed) IsBakeWait
  unfolding bake bake_waiting
  bake-Writes max completed s i = ground arith

  -- Not ready, and a bake wait or a refusal.
  abbrev IsPostResult : ReconcileResult → Type 0
  IsPostResult post =
      post.ready ≡ false
      → IsFollowed post
        × (post.progressing ≡ true → post.progress_reason ≡ post_check_bake_time_waiting)

  metric_postchecks-Writes :
      (u : DbUpgrade) (checks : List MetricCheck)
      → Writes X P (metric_postchecks C F r u checks) IsPostResult
  unfolding metric_postchecks
  metric_postchecks-Writes u checks s i = ground (
    arith,
    new_metrics_checker-Reads C X P s i,
    check_metrics-Reads C X P F u.namespace checks (new_metrics_checker C s).1,
  )

  run_post_checks-Writes :
      (u : DbUpgrade) (completed : Option Time)
      → Writes X P (run_post_checks C F r u completed) IsPostResult
  unfolding run_post_checks
  run_post_checks-Writes u completed s i =
      let metrics = post_metrics C F r u in
      let max = max_bake_seconds metrics in
      ground (
        arith,
        bake-Writes max completed s i,
        metric_postchecks-Writes u metrics (bake C F r max completed s).1,
      )

  completion-Writes : (u : DbUpgrade) (job : Job) → Writes X P (completion C F r u job) Any
  unfolding completion
  completion-Writes u job s i = ground arith

  conclude-Writes :
      (u : DbUpgrade) (job : Job) (t : Time)
      → is_job_succeeded (some job) ≡ true
      → Writes X P (conclude C F r u job t) (Keeps (is_job_succeeded (some job) ≡ true))
  unfolding conclude
  conclude-Writes u job t done' s i = ground (arith, run_post_checks-Writes u (some t) s i)

  sync_succeeded-Writes :
      (u : DbUpgrade) (job : Job)
      → is_job_succeeded (some job) ≡ true
      → Writes X P (sync_succeeded C F r u job) (Keeps (is_job_succeeded (some job) ≡ true))
  unfolding sync_succeeded
  sync_succeeded-Writes u job done' =
      Writes-bind X P Any _ (completion C F r u job) (conclude C F r u job)
        (completion-Writes u job) (λ t _. conclude-Writes u job t done')

  pub sync_job_status-Writes :
      (u : DbUpgrade) (job : Job)
      → Writes X P (sync_job_status C F r u (some job)) (Keeps (is_job_succeeded (some job) ≡ true))
  unfolding sync_job_status
  sync_job_status-Writes u job s i = elim (Bool-cases (is_job_succeeded (some job))) [
    | inl complete ↦ rw complete (rw complete at (sync_succeeded-Writes u job complete s i))
    | inr other ↦ ground arith
  ]
