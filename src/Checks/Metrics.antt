-- ===== src/Checks/Metrics.antt =====
-- internal/checks/metrics.go: the queries of the metrics APIs, which are calls of the cluster, and
-- the checks that they answer. Log lines are left out.
use automatic_db_upgrades.Common.{
  ℕ, String, ◌<>◌, true, Option, none, some, List, [], ◌∷◌, map, if◌then◌else◌, length, show_ℕ,
}
use automatic_db_upgrades.Kube.Objects.{Quantity}
use automatic_db_upgrades.Kube.Meta.{Result, ok, err}
use automatic_db_upgrades.Kube.Cluster.{Cluster}
use automatic_db_upgrades.Kube.Monad.{M, pure, ask, ◌>>=◌}
use automatic_db_upgrades.Api.Types.{
  MetricCheck, MetricSource, custom_source, external_source, unset_source, other_source,
  MetricTargetType, pods_target, object_target, external_target, other_target, PodsTarget,
  ObjectTarget, ExternalTarget,
}
use automatic_db_upgrades.Checks.Values.{
  Floats, MetricCheckResult, extract_group, metric_value, judge_values,
}

module _ (F : Floats) where
  module _ (C : Cluster) where
    abbrev values_or : String → Result String (List Quantity) → Result String (List F.Float)
    values_or failure (err e) = err (failure <> e)
    values_or failure (ok items) = ok (map (metric_value F) items)

    abbrev value_or : String → Result String Quantity → Result String (List F.Float)
    value_or failure (err e) = err (failure <> e)
    value_or failure (ok q) = ok (metric_value F q ∷ [])

    unfoldable pub pods_values :
        String → MetricCheck → Option PodsTarget → M C.World (Result String (List F.Float))
    pods_values namespace check none = pure (err "pods target configuration required for Pods type")
    pods_values namespace check (some target) = elim (C.as_selector target.selector) [
      | err e ↦ pure (err ("invalid label selector: " <> e))
      | ok selector ↦ do
        items ← ask (C.metrics_for_objects namespace selector check.metric_name)
        pure (values_or "failed to get custom metrics: " items)
    ]

    unfoldable pub object_values :
        String → MetricCheck → Option ObjectTarget → M C.World (Result String (List F.Float))
    object_values namespace check none =
        pure (err "object target configuration required for Object type")
    object_values namespace check (some target) = do
      let ref = target.ref
      item ← ask (
          C.metric_for_object namespace (extract_group ref.api_version) ref.kind ref.name
            check.metric_name)
      pure (value_or "failed to get custom metric for object: " item)

    unfoldable pub custom_values :
        String → MetricCheck → MetricTargetType → M C.World (Result String (List F.Float))
    custom_values namespace check pods_target = pods_values namespace check check.target.pods
    custom_values namespace check object_target = object_values namespace check check.target.object
    custom_values namespace check external_target =
        pure (err "unsupported target type External for custom metrics")
    custom_values namespace check (other_target s) =
        pure (err ("unsupported target type " <> (s <> " for custom metrics")))

    unfoldable pub get_custom_metric_values :
        String → MetricCheck → M C.World (Result String (List F.Float))
    unfolding custom_values pods_values object_values
    get_custom_metric_values namespace check = custom_values namespace check check.target.kind

    -- The selector of an external metric; without one, everything.
    unfoldable pub external_selector : Option ExternalTarget → Result String C.Selector
    external_selector none = ok C.everything
    external_selector (some target) = elim target.selector [
      | none ↦ ok C.everything
      | some s ↦ C.as_selector s
    ]

    unfoldable pub get_external_metric_values :
        String → MetricCheck → M C.World (Result String (List F.Float))
    unfolding external_selector
    get_external_metric_values namespace check = elim (external_selector check.target.external) [
      | err e ↦ pure (err ("invalid external metric selector: " <> e))
      | ok selector ↦ do
        items ← ask (C.external_metrics namespace check.metric_name selector)
        pure (values_or "failed to get external metrics: " items)
    ]

    metric_values : String → MetricCheck → MetricSource → M C.World (Result String (List F.Float))
    metric_values namespace check custom_source = get_custom_metric_values namespace check
    metric_values namespace check unset_source = get_custom_metric_values namespace check
    metric_values namespace check external_source = get_external_metric_values namespace check
    metric_values namespace check (other_source s) = pure (err ("unsupported metric source: " <> s))

    unfoldable pub check_single_metric :
        String → MetricCheck → M C.World (Result String (MetricCheckResult F))
    unfolding metric_values
    check_single_metric namespace check = do
      values ← metric_values namespace check check.source
      pure (elim values [ err e ↦ err e | ok vs ↦ ok (judge_values F check vs) ])

    -- The loop of CheckMetrics; `total` is the number of all checks.
    unfoldable pub check_metrics_from :
        String → ℕ → List MetricCheck → M C.World (Result String (MetricCheckResult F))
    check_metrics_from namespace total [] = pure (
        ok (record {
          passed = true;
          message = "All " <> (show_ℕ total <> " metric check(s) passed");
          values = [];
          reduced_value = F.zero;
          threshold_value = F.zero;
        }))
    check_metrics_from namespace total (check ∷ checks) = do
      result ← check_single_metric namespace check
      elim result [
        | err e ↦ pure (err ("failed to check metric " <> (check.name <> (": " <> e))))
        | ok r ↦
            let later = check_metrics_from namespace total checks in
            if r.passed then later else pure (ok r)
      ]

    unfoldable pub check_metrics :
        String → List MetricCheck → M C.World (Result String (MetricCheckResult F))
    unfolding check_metrics_from
    check_metrics namespace checks = check_metrics_from namespace (length checks) checks

-- NewMetricsChecker: three calls that can fail; `none` is success.
module _ (C : Cluster) where
  unfoldable pub new_metrics_checker : M C.World (Option String)
  new_metrics_checker = do
    e1 ← ask C.new_discovery_client
    elim e1 [
      | some e ↦ pure (some ("failed to create discovery client: " <> e))
      | none ↦ do
        e2 ← ask C.get_api_group_resources
        elim e2 [
          | some e ↦ pure (some ("failed to get API group resources: " <> e))
          | none ↦ do
            e3 ← ask C.new_external_client
            pure (elim e3 [
              | some e ↦ some ("failed to create external metrics client: " <> e)
              | none ↦ none
            ])
        ]
    ]
