-- ===== src/Controller/Checked.antt =====
-- controllers/dbupgrade_controller.go: pre-checks that pass rest on a run of each check that passed.
use automatic_db_upgrades.Common.{
  Option, true, false, Option, none, some, List, [], ◌∷◌, ◌≡◌, inl, inr, refl, sym, ap, ◌∙◌, All,
  Bool-cases, is_empty,
}
use automatic_db_upgrades.Kube.Meta.{ok, err}
use automatic_db_upgrades.Kube.Cluster.{Cluster}
use automatic_db_upgrades.Kube.Monad.{State, Outcome, done, panic, M, Holds, Ensures, >>=-Ensures}
use automatic_db_upgrades.Kube.Writes.{Any, Holds-done}
use automatic_db_upgrades.Api.Types.{DbUpgrade, ChecksSpec}
use automatic_db_upgrades.Checks.Version.{Semver, check_min_pod_versions}
use automatic_db_upgrades.Checks.Values.{Floats}
use automatic_db_upgrades.Checks.Metrics.{check_metrics, new_metrics_checker}
use automatic_db_upgrades.Checks.Passing.{
  Always, Shows, VersionPasses, MetricPasses, check_min_pod_versions-Shows, check_metrics-Shows,
}
use automatic_db_upgrades.Controller.Result.{ReconcileResult, Reconciler}
use automatic_db_upgrades.Controller.PreChecks.{
  version_prechecks, metric_prechecks, run_given_checks, run_pre_checks,
}

pub Any-result : {W A : Type 0} (m : M W A) → Ensures (Unit {0}) Always m Any
Any-result m s i = Holds-Any (m s)
  where
    Holds-Any : {W A : Type 0} (o : Outcome A × State W) → Holds (Unit {0}) Always Any o
    Holds-Any (done a, s) = (tt, tt)
    Holds-Any (panic, s) = (tt, tt)

pub All-empty : {A : Type 0} (P : A → Type 0) (xs : List A) → is_empty xs ≡ true → All P xs
All-empty P [] e = tt
All-empty P (x ∷ xs) e = cc

module _ (C : Cluster) (V : Semver) (F : Floats) (r : Reconciler C) (u : DbUpgrade) where
  -- `none` shows `X`, and any other result is not ready.
  abbrev Clears : Type 0 → Option ReconcileResult → Type 0
  Clears X none = X
  Clears X (some failed) = failed.ready ≡ false

  version_prechecks-Clears :
      (checks : ChecksSpec)
      → Ensures Unit Always
          (version_prechecks C V F r u checks)
          (Clears (All (VersionPasses C V u.namespace) checks.pre.min_pod_versions))
  unfolding version_prechecks
  version_prechecks-Clears checks = elim (Bool-cases (is_empty checks.pre.min_pod_versions)) [
    | inl e ↦ rw e (λ s i. (tt, All-empty _ checks.pre.min_pod_versions e))
    | inr e ↦ rw e (
        >>=-Ensures Unit Always
          (Shows (λ v. v.passed) (All (VersionPasses C V u.namespace) checks.pre.min_pod_versions))
          _ (check_min_pod_versions V C u.namespace checks.pre.min_pod_versions) _
          (check_min_pod_versions-Shows C V u.namespace checks.pre.min_pod_versions)
          (elim [
            | err e ↦ λ _ s i. (tt, refl)
            | ok v ↦ λ k. elim (Bool-cases v.passed) [
              | inl good ↦ rw good (λ s i. (tt, k v refl good))
              | inr bad ↦ rw bad (λ s i. (tt, refl))
            ]
          ]))
  ]

  metric_prechecks-Clears :
      (checks : ChecksSpec)
      → r.has_rest_config ≡ true
      → Ensures Unit Always
          (metric_prechecks C V F r u checks)
          (Clears (All (MetricPasses C F u.namespace) checks.pre.metrics))
  unfolding metric_prechecks
  metric_prechecks-Clears checks config = elim (Bool-cases (is_empty checks.pre.metrics)) [
    | inl e ↦ rw e (λ s i. (tt, All-empty _ checks.pre.metrics e))
    | inr e ↦
        rw (e, config)
          (>>=-Ensures Unit Always Any
            (Clears (All (MetricPasses C F u.namespace) checks.pre.metrics)) (new_metrics_checker C)
            _ (Any-result (new_metrics_checker C))
            (elim [
              | some e ↦ λ _ s i. (tt, refl)
              | none ↦ λ _.
                  >>=-Ensures Unit Always
                    (Shows (λ m. m.passed) (All (MetricPasses C F u.namespace) checks.pre.metrics))
                    (Clears (All (MetricPasses C F u.namespace) checks.pre.metrics))
                    (check_metrics F C u.namespace checks.pre.metrics) _
                    (check_metrics-Shows C F u.namespace checks.pre.metrics)
                    (elim [
                      | err e ↦ λ _ s i. (tt, refl)
                      | ok m ↦ λ k. elim (Bool-cases m.passed) [
                        | inl good ↦ rw good (λ s i. (tt, k m refl good))
                        | inr bad ↦ rw bad (λ s i. (tt, refl))
                      ]
                    ])
            ]))
  ]

  -- A ready result shows that all checks have passed.
  abbrev Cleared : ChecksSpec → ReconcileResult → Type 0
  Cleared checks pre =
      pre.ready ≡ true
      → All (VersionPasses C V u.namespace) checks.pre.min_pod_versions
        × All (MetricPasses C F u.namespace) checks.pre.metrics

  run_given_checks-Cleared :
      (checks : ChecksSpec)
      → r.has_rest_config ≡ true
      → Ensures Unit Always (run_given_checks C V F r u checks) (Cleared checks)
  unfolding run_given_checks
  run_given_checks-Cleared checks config =
      >>=-Ensures Unit Always
        (Clears (All (VersionPasses C V u.namespace) checks.pre.min_pod_versions)) (Cleared checks)
        (version_prechecks C V F r u checks) _ (version_prechecks-Clears checks)
        (elim [
          | some failed ↦ λ k s i. (tt, λ ready. cc (k, ready))
          | none ↦ λ k.
              >>=-Ensures Unit Always
                (Clears (All (MetricPasses C F u.namespace) checks.pre.metrics)) (Cleared checks)
                (metric_prechecks C V F r u checks) _ (metric_prechecks-Clears checks config)
                (elim [
                  | some failed ↦ λ k' s i. (tt, λ ready. cc (k', ready))
                  | none ↦ λ k' s i. (tt, λ ready. (k, k'))
                ])
        ])

  -- If the pre-checks of a spec let a migration start, and metrics can be queried, then each of its
  -- version checks and each of its metric checks has passed in a run.
  pub run_pre_checks-passed :
      (checks : ChecksSpec) (s : State C.World) (pre : ReconcileResult)
      → u.spec.checks ≡ some checks
      → r.has_rest_config ≡ true
      → (run_pre_checks C V F r u s).0 ≡ done pre
      → pre.ready ≡ true
      → All (VersionPasses C V u.namespace) checks.pre.min_pod_versions
        × All (MetricPasses C F u.namespace) checks.pre.metrics
  unfolding run_pre_checks
  run_pre_checks-passed checks s pre given config ended ready =
      let shape : run_pre_checks C V F r u s ≡ run_given_checks C V F r u checks s =
        rw given refl in
      Holds-done Always (Cleared checks) (run_given_checks C V F r u checks s) pre
        (run_given_checks-Cleared checks config s tt) (sym (ap (λ o. o.0) shape) ∙ ended) ready
