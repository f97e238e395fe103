-- ===== src/Controller/Open.antt =====
-- controllers/dbupgrade_controller.go: an object whose pre-checks pass, or that has none, is let
-- through to the creation of its Job.
use automatic_db_upgrades.Common.{
  arith, Option-cases, true, ◌≡◌, ◌⊎◌, inl, inr, refl, Bool-cases, is_none,
}
use automatic_db_upgrades.Kube.Objects.{Secret}
use automatic_db_upgrades.Kube.Cluster.{Cluster}
use automatic_db_upgrades.Kube.Monad.{State, Outcome, and_then, done, panic}
use automatic_db_upgrades.Api.Types.{DbUpgrade, ChecksSpec}
use automatic_db_upgrades.Checks.Version.{Semver}
use automatic_db_upgrades.Checks.Values.{Floats}
use automatic_db_upgrades.Controller.Result.{ReconcileResult, Reconciler}
use automatic_db_upgrades.Controller.Jobs.{Hashing}
use automatic_db_upgrades.Kube.Writes.{IsSilent}
use automatic_db_upgrades.Checks.Silent.{
  check_min_pod_versions-IsSilent, new_metrics_checker-IsSilent, check_metrics-IsSilent,
}
use automatic_db_upgrades.Checks.Metrics.{new_metrics_checker}
use automatic_db_upgrades.Controller.PreChecks.{
  version_prechecks, metric_prechecks, run_given_checks, run_pre_checks,
}
use automatic_db_upgrades.Controller.Reconcile.{after_checks, start_migration, create_job}
use automatic_db_upgrades.Controller.Gate.{Passed}

module _ (C : Cluster) (V : Semver) (F : Floats) (H : Hashing) (r : Reconciler C)
    (u : DbUpgrade) where
  -- The pre-checks pass whenever they are run.
  abbrev pub ChecksPass : Type 0
  ChecksPass = (s : State C.World) → Passed C V F H r u (run_pre_checks C V F r u s).0

  done-injective :
      {a b : ReconcileResult} → ◌≡◌ {A = Outcome ReconcileResult} (done a) (done b) → a ≡ b
  done-injective e = cc

  opened :
      (secret : Secret) (o : Outcome ReconcileResult × State C.World)
      → Passed C V F H r u o.0
      → and_then o (after_checks C V F H r u secret) ≡ create_job C V F H r u secret o.1
  unfolding after_checks
  opened secret (done pre, s) (result, e, ready) =
      let passed : pre.ready ≡ true = rw (done-injective e) ready in rw (after_checks, passed) refl
  opened secret (panic, s) (result, e, ready) = cc

  pub start_migration-open :
      (secret : Secret) (s : State C.World)
      → ChecksPass
      → let create = create_job C V F H r u secret in
        (start_migration C V F H r u secret s ≡ create s)
        ⊎ (start_migration C V F H r u secret s ≡ create (run_pre_checks C V F r u s).1)
  unfolding start_migration
  start_migration-open secret s pass = elim (Bool-cases (is_none u.spec.checks)) [
    | inl free ↦ inl (rw (start_migration, free) refl)
    | inr there ↦
        inr (rw (start_migration, there) (opened secret (run_pre_checks C V F r u s) (pass s)))
  ]

  version_prechecks-IsSilent : (checks : ChecksSpec) → IsSilent (version_prechecks C V F r u checks)
  unfolding version_prechecks
  version_prechecks-IsSilent checks s =
      ground (arith, check_min_pod_versions-IsSilent C V u.namespace checks.pre.min_pod_versions s)

  metric_prechecks-IsSilent : (checks : ChecksSpec) → IsSilent (metric_prechecks C V F r u checks)
  unfolding metric_prechecks
  metric_prechecks-IsSilent checks s = ground (
    arith,
    new_metrics_checker-IsSilent C s,
    check_metrics-IsSilent C F u.namespace checks.pre.metrics (new_metrics_checker C s).1,
  )

  run_given_checks-IsSilent : (checks : ChecksSpec) → IsSilent (run_given_checks C V F r u checks)
  unfolding run_given_checks
  run_given_checks-IsSilent checks s = ground (
    arith,
    version_prechecks-IsSilent checks s,
    metric_prechecks-IsSilent checks (version_prechecks C V F r u checks s).1,
  )

  -- The pre-checks write nothing.
  pub run_pre_checks-IsSilent : IsSilent (run_pre_checks C V F r u)
  unfolding run_pre_checks
  run_pre_checks-IsSilent s = elim (Option-cases u.spec.checks) [
    | inl without ↦ rw (without, run_pre_checks) refl
    | inr (checks, given) ↦ rw (given, run_pre_checks) (run_given_checks-IsSilent checks s)
  ]
