-- ===== src/Tests/BakeExamples.antt =====
-- The bake time, the pre-checks and what the webhook lets through, on concrete objects.
use automatic_db_upgrades.Common.{
  int32, show_ℕ, ◌-◌, ◌/◌, ◌≤◌, ◌<◌, true, false, none, some, [], ◌∷◌, ◌≡◌, ◌⊎◌, inl, refl, arith,
  All, pos, ==-eq-false, String-discrete,
}
use automatic_db_upgrades.Kube.Meta.{ok, err}
use automatic_db_upgrades.Kube.Monad.{done}
use automatic_db_upgrades.Api.Types.{DbUpgrade, MetricCheck, aws_rds, external_target}
use automatic_db_upgrades.Api.Conditions.{aws_not_supported}
use automatic_db_upgrades.Api.Webhook.{validate_metric_check, validate_database}
use automatic_db_upgrades.Checks.Image.{extract_version_from_image, match_version}
use automatic_db_upgrades.Checks.Version.{
  check_min_pod_versions, check_single_pod_version, check_pods, conclude as conclude_pods,
  scan_pods, scan_containers, is_other_container, judge, trim_v,
}
use automatic_db_upgrades.Checks.Passing.{VersionPasses, MetricPasses}
use automatic_db_upgrades.Controller.PreChecks.{
  run_pre_checks, run_given_checks, version_prechecks, metric_prechecks,
}
use automatic_db_upgrades.Controller.Checked.{run_pre_checks-passed}
use automatic_db_upgrades.Checks.Metrics.{check_single_metric}
use automatic_db_upgrades.Controller.Result.{passed_checks, ReconcileResult, Reconciler}
use automatic_db_upgrades.Controller.PostChecks.{bake, elapsed_seconds, bake_waiting}
use automatic_db_upgrades.Controller.Reconcile.{reconcile_upgrade}
use automatic_db_upgrades.Controller.Bake.{bake_exact, bake_ends}
use automatic_db_upgrades.Controller.Admission.{aws_connection_only, custom_external_fails}
use automatic_db_upgrades.Tests.Objects.{
  at_least_two, both_checks, checked, full_secret, few_errors, connection, url_ref, spec_of,
  upgrade_of, hosted,
}
use automatic_db_upgrades.Tests.Server.{
  server, served, start, two_versions, whole_numbers, one_hash, reconciler,
}

abbrev full : Reconciler server
full = reconciler (ok full_secret)

abbrev aws_by_url : DbUpgrade
aws_by_url = upgrade_of (spec_of (record hosted { kind = aws_rds }) none) []

aws_connection_only_example :
    (validate_database aws_by_url.spec.database ≡ none)
    × (result : ReconcileResult) × (reconcile_upgrade server two_versions whole_numbers one_hash
          full aws_by_url
          (start (served checked []))
        ≡ (done result, start (served checked [])))
    × ((result.ready ≡ false)
        × (result.progress_reason ≡ aws_not_supported)
        × (result.requeue_after ≡ pos 0))
unfolding String-discrete
aws_connection_only_example =
    aws_connection_only server two_versions whole_numbers one_hash full aws_by_url connection
      (start (served checked [])) (inl refl) refl refl
      (url_ref, refl, ==-eq-false _ _ refl, ==-eq-false _ _ refl)

abbrev custom_and_external : MetricCheck
custom_and_external = record few_errors {
  target = record few_errors.target { kind = external_target; pods = none };
}

custom_external_fails_example :
    (validate_metric_check two_versions whole_numbers custom_and_external ≡ none)
    × (check_single_metric whole_numbers server "team" custom_and_external
          (start (served checked []))
        ≡ (
          done (err "unsupported target type External for custom metrics"),
          start (served checked []),
        ))
unfolding String-discrete
custom_external_fails_example =
    custom_external_fails server two_versions whole_numbers one_hash full checked "team"
      custom_and_external (start (served checked [])) (inl refl) refl refl refl refl

-- One second after the completion, 59 of 60 are left.
bake_exact_example :
    let s = start (served checked []) in
    let elapsed = (2000000000 - 1000000000) / 1000000000 in
    ((elapsed < 60)
      × (w : ReconcileResult) × ((bake server whole_numbers full (pos 60) (some 1000000000) s).0
          ≡ done (some w))
      × ((w.ready ≡ false) × (w.progressing ≡ true) × (w.requeue_after ≡ pos (60 - elapsed))))
    ⊎ ((60 ≤ elapsed)
        × ((bake server whole_numbers full (pos 60) (some 1000000000) s).0 ≡ done none))
bake_exact_example =
    bake_exact server whole_numbers full 60 1000000000 (start (served checked [])) (omega arith)
      (omega arith) (omega arith)

-- One second and 60 seconds after the completion.
bake_ends_example :
    (bake server whole_numbers full
      (pos 60)
      (some 1000000000)
      (start (record (served checked []) { clock = 61000000000 }))).0
    ≡ done none
unfolding bake elapsed_seconds bake_waiting int32
bake_ends_example =
    bake_ends server whole_numbers full 60 1000000000 (start (served checked []))
      (start (record (served checked []) { clock = 61000000000 })) (bake_waiting (pos 60) (pos 1))
      (omega arith) (omega arith) (omega arith) refl 59 refl (omega arith)

run_pre_checks-passed_example :
    All (VersionPasses server two_versions "team") (at_least_two ∷ [])
    × All (MetricPasses server whole_numbers "team") []
unfolding run_pre_checks run_given_checks version_prechecks metric_prechecks check_min_pod_versions
    check_single_pod_version check_pods conclude_pods scan_pods scan_containers is_other_container
    judge trim_v extract_version_from_image match_version show_ℕ String-discrete
run_pre_checks-passed_example =
    run_pre_checks-passed server two_versions whole_numbers full checked both_checks
      (start (served checked [])) passed_checks refl refl refl refl
