-- ===== src/Checks/Calm.antt =====
-- The checks leave every calm view of the cluster alone.
use automatic_db_upgrades.Common.{
  String, Option, none, some, List, [], ◌∷◌, ℕ, refl, arith, length, inl, inr,
}
use automatic_db_upgrades.Kube.Meta.{Result-cases}
use automatic_db_upgrades.Kube.Cluster.{Cluster}
use automatic_db_upgrades.Kube.Calm.{KeepsView, Steady}
use automatic_db_upgrades.Api.Types.{
  MinPodVersionCheck, MetricCheck, PodsTarget, ObjectTarget, MetricTargetType, pods_target,
  object_target, external_target, other_target,
}
use automatic_db_upgrades.Checks.Version.{Semver, check_single_pod_version, check_min_pod_versions}
use automatic_db_upgrades.Checks.Values.{Floats, extract_group}
use automatic_db_upgrades.Checks.Metrics.{
  new_metrics_checker, pods_values, object_values, custom_values, external_selector,
  get_custom_metric_values, get_external_metric_values, check_single_metric, check_metrics_from,
  check_metrics,
}

module _ (C : Cluster) {A : Type 0} (view : C.World → A) (calm : KeepsView C view) where
  module _ (V : Semver) where
    check_single_pod_version-Steady :
        (namespace : String) (check : MinPodVersionCheck)
        → Steady view (check_single_pod_version V C namespace check)
    unfolding check_single_pod_version
    check_single_pod_version-Steady namespace check =
        elim (Result-cases (C.as_selector check.selector)) [
          | inl (e, p) ↦ rw (check_single_pod_version, p) (λ s. refl)
          | inr (selector, p) ↦
              rw (check_single_pod_version, p) (λ s. calm.list_pods namespace selector s.world)
        ]

    pub check_min_pod_versions-Steady :
        (namespace : String) (checks : List MinPodVersionCheck)
        → Steady view (check_min_pod_versions V C namespace checks)
    unfolding check_min_pod_versions
    check_min_pod_versions-Steady namespace [] s = refl
    check_min_pod_versions-Steady namespace (check ∷ checks) s = ground (
      arith,
      check_single_pod_version-Steady namespace check s,
      check_min_pod_versions-Steady namespace checks
          (check_single_pod_version V C namespace check s).1,
    )

  pub new_metrics_checker-Steady : Steady view (new_metrics_checker C)
  unfolding new_metrics_checker
  new_metrics_checker-Steady s =
      let w1 = (C.new_discovery_client s.world).1 in
      let w2 = (C.get_api_group_resources w1).1 in
      ground (
        arith,
        calm.new_discovery_client s.world,
        calm.get_api_group_resources w1,
        calm.new_external_client w2,
      )

  module _ (F : Floats) where
    pods_values-Steady :
        (namespace : String) (check : MetricCheck) (target : Option PodsTarget)
        → Steady view (pods_values F C namespace check target)
    unfolding pods_values
    pods_values-Steady namespace check none = λ s. refl
    pods_values-Steady namespace check (some target) =
        elim (Result-cases (C.as_selector target.selector)) [
          | inl (e, p) ↦ rw (pods_values, p) (λ s. refl)
          | inr (selector, p) ↦
              rw (pods_values, p)
                (λ s. calm.metrics_for_objects namespace selector check.metric_name s.world)
        ]

    object_values-Steady :
        (namespace : String) (check : MetricCheck) (target : Option ObjectTarget)
        → Steady view (object_values F C namespace check target)
    unfolding object_values
    object_values-Steady namespace check none s = refl
    object_values-Steady namespace check (some target) s =
        calm.metric_for_object namespace (extract_group target.ref.api_version) target.ref.kind
          target.ref.name check.metric_name s.world

    custom_values-Steady :
        (namespace : String) (check : MetricCheck) (kind : MetricTargetType)
        → Steady view (custom_values F C namespace check kind)
    unfolding custom_values
    custom_values-Steady namespace check pods_target =
        pods_values-Steady namespace check check.target.pods
    custom_values-Steady namespace check object_target =
        object_values-Steady namespace check check.target.object
    custom_values-Steady namespace check external_target = λ s. refl
    custom_values-Steady namespace check (other_target _) = λ s. refl

    get_custom_metric_values-Steady :
        (namespace : String) (check : MetricCheck)
        → Steady view (get_custom_metric_values F C namespace check)
    unfolding get_custom_metric_values
    get_custom_metric_values-Steady namespace check =
        custom_values-Steady namespace check check.target.kind

    get_external_metric_values-Steady :
        (namespace : String) (check : MetricCheck)
        → Steady view (get_external_metric_values F C namespace check)
    unfolding get_external_metric_values
    get_external_metric_values-Steady namespace check =
        elim (Result-cases (external_selector F C check.target.external)) [
          | inl (e, p) ↦ rw (get_external_metric_values, p) (λ s. refl)
          | inr (selector, p) ↦
              rw (get_external_metric_values, p)
                (λ s. calm.external_metrics namespace check.metric_name selector s.world)
        ]

    check_single_metric-Steady :
        (namespace : String) (check : MetricCheck)
        → Steady view (check_single_metric F C namespace check)
    unfolding check_single_metric
    check_single_metric-Steady namespace check s = ground (
      arith,
      get_custom_metric_values-Steady namespace check s,
      get_external_metric_values-Steady namespace check s,
    )

    check_metrics_from-Steady :
        (namespace : String) (total : ℕ) (checks : List MetricCheck)
        → Steady view (check_metrics_from F C namespace total checks)
    unfolding check_metrics_from
    check_metrics_from-Steady namespace total [] s = refl
    check_metrics_from-Steady namespace total (check ∷ checks) s = ground (
      arith,
      check_single_metric-Steady namespace check s,
      check_metrics_from-Steady namespace total checks
          (check_single_metric F C namespace check s).1,
    )

    pub check_metrics-Steady :
        (namespace : String) (checks : List MetricCheck)
        → Steady view (check_metrics F C namespace checks)
    unfolding check_metrics
    check_metrics-Steady namespace checks =
        check_metrics_from-Steady namespace (length checks) checks
