-- ===== src/Tests/LivenessExamples.antt =====
-- A migration that starts and one that completes.
use automatic_db_upgrades.Common.{
  inr, All, int32, show_ℕ, true, some, none, [], ◌∷◌, refl, String-discrete,
}
use automatic_db_upgrades.Checks.Values.{judge_values, reduce_values, max_from, compare_threshold}
use automatic_db_upgrades.Checks.Metrics.{
  new_metrics_checker, check_metrics, check_metrics_from, check_single_metric,
  get_custom_metric_values,
}
use automatic_db_upgrades.Checks.Passing.{MetricPasses}
use automatic_db_upgrades.Controller.PostChecks.{
  migration_complete_result, sync_succeeded, completion, conclude, run_post_checks, bake,
  max_bake_from, elapsed_seconds, metric_postchecks,
}
use automatic_db_upgrades.Controller.Settled.{sync_succeeded-passed}
use automatic_db_upgrades.Kube.Objects.{Job}
use automatic_db_upgrades.Kube.Meta.{ok}
use automatic_db_upgrades.Kube.Cluster.{Cluster}
use automatic_db_upgrades.Controller.Result.{Reconciler, passed_checks}
use automatic_db_upgrades.Controller.Open.{ChecksPass}
use automatic_db_upgrades.Controller.Given.{GivesSecrets}
use automatic_db_upgrades.Controller.Begins.{HasUrl}
use automatic_db_upgrades.Checks.Image.{extract_version_from_image, match_version}
use automatic_db_upgrades.Checks.Version.{
  check_min_pod_versions, check_single_pod_version, check_pods, conclude as conclude_pods,
  scan_pods, scan_containers, is_other_container, judge, trim_v,
}
use automatic_db_upgrades.Controller.PreChecks.{
  run_pre_checks, run_given_checks, version_prechecks, metric_prechecks,
}
use automatic_db_upgrades.Controller.Jobs.{find_job}
use automatic_db_upgrades.Controller.Secrets.{lookup}
use automatic_db_upgrades.Controller.Reconcile.{reconcile_upgrade}
use automatic_db_upgrades.Controller.Liveness.{IsCalm, Starts, reconcile_upgrade-Starts}
use automatic_db_upgrades.Tests.Objects.{checked, few_errors, pod, full_secret, url_ref, job_of}
use automatic_db_upgrades.Tests.Server.{
  by_name, no_secret, Served, server, served, start, two_versions, whole_numbers, one_hash,
  reconciler,
}

-- The server never lists a Job, has one pod, and does not have the operator's Secret.
abbrev calm : Cluster
calm = record server {
  get_secret = λ _ name w. (by_name no_secret name, w);
  list_jobs = λ _ w. (ok [], w);
  list_pods = λ _ _ w. (ok (pod "app:2.0.0" ∷ []), w);
}

abbrev calm_reconciler : Reconciler calm
calm_reconciler = record {
  settings = (reconciler (ok full_secret)).settings;
  has_rest_config = true;
  aws_client_manager = none;
}

-- That pod has the least version.
calm-ChecksPass : ChecksPass calm two_versions whole_numbers one_hash calm_reconciler checked
unfolding run_pre_checks run_given_checks version_prechecks metric_prechecks check_min_pod_versions
    check_single_pod_version check_pods conclude_pods scan_pods scan_containers is_other_container
    judge trim_v extract_version_from_image match_version show_ℕ String-discrete
calm-ChecksPass s = (passed_checks, refl, refl)

checked-HasUrl : HasUrl checked url_ref full_secret (0x61 ∷ [])
unfolding lookup String-discrete
checked-HasUrl = record { kind = refl; given = refl; there = refl }

calm-GivesSecrets : GivesSecrets calm checked "db" full_secret
unfolding String-discrete
calm-GivesSecrets = record {
  found = λ _. refl;
  own = λ _. inr (_, refl, refl);
  creates = λ s _ _ _ _ _. (s, refl);
  updates = λ _ s _ _ _. (s, refl);
}

calm-IsCalm : IsCalm calm one_hash checked "db" full_secret []
unfolding find_job
calm-IsCalm = record {
  secrets = calm-GivesSecrets;
  listed = λ _. refl;
  none_owned = refl;
  creates = λ _ _ _ _. refl;
}

reconcile_upgrade-Starts_example :
    Starts calm two_versions whole_numbers one_hash calm_reconciler checked
      (0x61 ∷ [])
      (start (served checked []))
      (reconcile_upgrade calm two_versions whole_numbers one_hash calm_reconciler checked
        (start (served checked [])))
reconcile_upgrade-Starts_example =
    reconcile_upgrade-Starts calm two_versions whole_numbers one_hash calm_reconciler checked
      url_ref full_secret (0x61 ∷ []) [] calm-IsCalm checked-HasUrl calm-ChecksPass
      (start (served checked []))

abbrev finished : Job
finished = job_of "dbupgrade-app-abcdef01" (some 1000000000)

-- A minute and a half later, with no errors.
abbrev later : Served
later = record (served checked []) { metrics = record { text = "0" } ∷ []; clock = 100000000000 }

abbrev full : Reconciler server
full = reconciler (ok full_secret)

sync_succeeded-passed_example : All (MetricPasses server whole_numbers "team") (few_errors ∷ [])
unfolding sync_succeeded completion conclude run_post_checks bake max_bake_from elapsed_seconds
    metric_postchecks new_metrics_checker check_metrics check_metrics_from check_single_metric
    get_custom_metric_values judge_values reduce_values max_from compare_threshold int32 show_ℕ
    String-discrete
sync_succeeded-passed_example =
    sync_succeeded-passed server two_versions whole_numbers full checked finished (start later)
      (migration_complete_result server whole_numbers full finished 1000000000) refl refl refl
