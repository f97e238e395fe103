-- ===== src/Checks/Reads.antt =====
-- The checks only read: they write nothing, cannot panic, and leave any property of the writes
-- alone.
use automatic_db_upgrades.Common.{String, List, [], ◌∷◌, ℕ, arith, length}
use automatic_db_upgrades.Kube.Cluster.{Cluster}
use automatic_db_upgrades.Kube.Monad.{Write, M, pure, ask, ◌>>=◌}
use automatic_db_upgrades.Kube.Writes.{Writes, Writes-pure, Writes-ask, Writes-bind, Any}
use automatic_db_upgrades.Api.Types.{MinPodVersionCheck, MetricCheck}
use automatic_db_upgrades.Checks.Version.{Semver, check_single_pod_version, check_min_pod_versions}
use automatic_db_upgrades.Checks.Values.{Floats}
use automatic_db_upgrades.Checks.Metrics.{
  new_metrics_checker, get_custom_metric_values, get_external_metric_values, check_single_metric,
  check_metrics_from, check_metrics,
}

module _ (C : Cluster) (X : Type 0) (P : Write → Type 0) where
  -- Code that only reads.
  abbrev pub Reads : {A : Type 0} → M C.World A → Type 0
  Reads m = Writes X P m Any

  Reads-pure : {A : Type 0} (a : A) → Reads (pure a)
  Reads-pure a = Writes-pure X P Any a tt

  Reads-ask : {A : Type 0} (f : C.World → A × C.World) → Reads (ask f)
  Reads-ask f = Writes-ask X P Any f (λ w. tt)

  Reads-bind :
      {A B : Type 0} (m : M C.World A) (f : A → M C.World B)
      → Reads m
      → ((a : A) → Reads (f a))
      → Reads (m >>= f)
  Reads-bind m f h k = Writes-bind X P Any Any m f h (λ a _. k a)

  -- A query whose answer is only looked at.
  Reads-query :
      {A B : Type 0} (f : C.World → A × C.World) (g : A → B) → Reads (ask f >>= λ a. pure (g a))
  Reads-query f g = Reads-bind (ask f) (λ a. pure (g a)) (Reads-ask f) (λ a. Reads-pure (g a))

  module _ (V : Semver) where
    check_single_pod_version-Reads :
        (namespace : String) (check : MinPodVersionCheck)
        → Reads (check_single_pod_version V C namespace check)
    unfolding check_single_pod_version
    check_single_pod_version-Reads namespace check s i = ground arith

    pub check_min_pod_versions-Reads :
        (namespace : String) (checks : List MinPodVersionCheck)
        → Reads (check_min_pod_versions V C namespace checks)
    unfolding check_min_pod_versions
    check_min_pod_versions-Reads namespace [] s i = (i, tt)
    check_min_pod_versions-Reads namespace (check ∷ checks) s i = ground (
      arith,
      check_single_pod_version-Reads namespace check s i,
      check_min_pod_versions-Reads namespace checks
          (check_single_pod_version V C namespace check s).1,
    )

  pub new_metrics_checker-Reads : Reads (new_metrics_checker C)
  unfolding new_metrics_checker
  new_metrics_checker-Reads s i = ground arith

  module _ (F : Floats) where
    get_custom_metric_values-Reads :
        (namespace : String) (check : MetricCheck)
        → Reads (get_custom_metric_values F C namespace check)
    unfolding get_custom_metric_values
    get_custom_metric_values-Reads namespace check s i = ground arith

    get_external_metric_values-Reads :
        (namespace : String) (check : MetricCheck)
        → Reads (get_external_metric_values F C namespace check)
    unfolding get_external_metric_values
    get_external_metric_values-Reads namespace check s i = ground arith

    check_single_metric-Reads :
        (namespace : String) (check : MetricCheck) → Reads (check_single_metric F C namespace check)
    unfolding check_single_metric
    check_single_metric-Reads namespace check s i = ground (
      arith,
      get_custom_metric_values-Reads namespace check s i,
      get_external_metric_values-Reads namespace check s i,
    )

    check_metrics_from-Reads :
        (namespace : String) (total : ℕ) (checks : List MetricCheck)
        → Reads (check_metrics_from F C namespace total checks)
    unfolding check_metrics_from
    check_metrics_from-Reads namespace total [] s i = (i, tt)
    check_metrics_from-Reads namespace total (check ∷ checks) s i = ground (
      arith,
      check_single_metric-Reads namespace check s i,
      check_metrics_from-Reads namespace total checks (check_single_metric F C namespace check s).1,
    )

    pub check_metrics-Reads :
        (namespace : String) (checks : List MetricCheck)
        → Reads (check_metrics F C namespace checks)
    unfolding check_metrics
    check_metrics-Reads namespace checks = check_metrics_from-Reads namespace (length checks) checks
