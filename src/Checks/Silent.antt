-- ===== src/Checks/Silent.antt =====
-- The checks write nothing.
use automatic_db_upgrades.Common.{
  String, Option, none, some, List, [], ◌∷◌, ℕ, refl, arith, length, inl, inr,
}
use automatic_db_upgrades.Kube.Meta.{Result-cases}
use automatic_db_upgrades.Kube.Cluster.{Cluster}
use automatic_db_upgrades.Kube.Writes.{IsSilent}
use automatic_db_upgrades.Api.Types.{
  MinPodVersionCheck, MetricCheck, PodsTarget, ObjectTarget, MetricTargetType, pods_target,
  object_target, external_target, other_target,
}
use automatic_db_upgrades.Checks.Version.{Semver, check_single_pod_version, check_min_pod_versions}
use automatic_db_upgrades.Checks.Values.{Floats}
use automatic_db_upgrades.Checks.Metrics.{
  new_metrics_checker, pods_values, object_values, custom_values, external_selector,
  get_custom_metric_values, get_external_metric_values, check_single_metric, check_metrics_from,
  check_metrics,
}

module _ (C : Cluster) where
  module _ (V : Semver) where
    check_single_pod_version-IsSilent :
        (namespace : String) (check : MinPodVersionCheck)
        → IsSilent (check_single_pod_version V C namespace check)
    unfolding check_single_pod_version
    check_single_pod_version-IsSilent namespace check =
        elim (Result-cases (C.as_selector check.selector)) [
          | inl (e, p) ↦ rw (check_single_pod_version, p) (λ s. refl)
          | inr (selector, p) ↦ rw (check_single_pod_version, p) (λ s. refl)
        ]

    pub check_min_pod_versions-IsSilent :
        (namespace : String) (checks : List MinPodVersionCheck)
        → IsSilent (check_min_pod_versions V C namespace checks)
    unfolding check_min_pod_versions
    check_min_pod_versions-IsSilent namespace [] s = refl
    check_min_pod_versions-IsSilent namespace (check ∷ checks) s = ground (
      arith,
      check_single_pod_version-IsSilent namespace check s,
      check_min_pod_versions-IsSilent namespace checks
          (check_single_pod_version V C namespace check s).1,
    )

  pub new_metrics_checker-IsSilent : IsSilent (new_metrics_checker C)
  unfolding new_metrics_checker
  new_metrics_checker-IsSilent s = ground arith

  module _ (F : Floats) where
    pods_values-IsSilent :
        (namespace : String) (check : MetricCheck) (target : Option PodsTarget)
        → IsSilent (pods_values F C namespace check target)
    unfolding pods_values
    pods_values-IsSilent namespace check none = λ s. refl
    pods_values-IsSilent namespace check (some target) =
        elim (Result-cases (C.as_selector target.selector)) [
          | inl (e, p) ↦ rw (pods_values, p) (λ s. refl)
          | inr (selector, p) ↦ rw (pods_values, p) (λ s. refl)
        ]

    object_values-IsSilent :
        (namespace : String) (check : MetricCheck) (target : Option ObjectTarget)
        → IsSilent (object_values F C namespace check target)
    unfolding object_values
    object_values-IsSilent namespace check none s = refl
    object_values-IsSilent namespace check (some target) s = refl

    custom_values-IsSilent :
        (namespace : String) (check : MetricCheck) (kind : MetricTargetType)
        → IsSilent (custom_values F C namespace check kind)
    unfolding custom_values
    custom_values-IsSilent namespace check pods_target =
        pods_values-IsSilent namespace check check.target.pods
    custom_values-IsSilent namespace check object_target =
        object_values-IsSilent namespace check check.target.object
    custom_values-IsSilent namespace check external_target = λ s. refl
    custom_values-IsSilent namespace check (other_target _) = λ s. refl

    get_custom_metric_values-IsSilent :
        (namespace : String) (check : MetricCheck)
        → IsSilent (get_custom_metric_values F C namespace check)
    unfolding get_custom_metric_values
    get_custom_metric_values-IsSilent namespace check =
        custom_values-IsSilent namespace check check.target.kind

    get_external_metric_values-IsSilent :
        (namespace : String) (check : MetricCheck)
        → IsSilent (get_external_metric_values F C namespace check)
    unfolding get_external_metric_values
    get_external_metric_values-IsSilent namespace check =
        elim (Result-cases (external_selector F C check.target.external)) [
          | inl (e, p) ↦ rw (get_external_metric_values, p) (λ s. refl)
          | inr (selector, p) ↦ rw (get_external_metric_values, p) (λ s. refl)
        ]

    check_single_metric-IsSilent :
        (namespace : String) (check : MetricCheck)
        → IsSilent (check_single_metric F C namespace check)
    unfolding check_single_metric
    check_single_metric-IsSilent namespace check s = ground (
      arith,
      get_custom_metric_values-IsSilent namespace check s,
      get_external_metric_values-IsSilent namespace check s,
    )

    check_metrics_from-IsSilent :
        (namespace : String) (total : ℕ) (checks : List MetricCheck)
        → IsSilent (check_metrics_from F C namespace total checks)
    unfolding check_metrics_from
    check_metrics_from-IsSilent namespace total [] s = refl
    check_metrics_from-IsSilent namespace total (check ∷ checks) s = ground (
      arith,
      check_single_metric-IsSilent namespace check s,
      check_metrics_from-IsSilent namespace total checks
          (check_single_metric F C namespace check s).1,
    )

    pub check_metrics-IsSilent :
        (namespace : String) (checks : List MetricCheck)
        → IsSilent (check_metrics F C namespace checks)
    unfolding check_metrics
    check_metrics-IsSilent namespace checks =
        check_metrics_from-IsSilent namespace (length checks) checks
