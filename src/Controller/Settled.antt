-- ===== src/Controller/Settled.antt =====
-- controllers/dbupgrade_controller.go: post-checks that pass rest on a run of each check that
-- passed.
use automatic_db_upgrades.Common.{
  ℤ, Option, arith, true, false, Option, none, some, List, ◌≡◌, inl, inr, refl, All, Bool-cases,
  is_empty,
}
use automatic_db_upgrades.Kube.Objects.{Job, Time}
use automatic_db_upgrades.Kube.Meta.{ok, err}
use automatic_db_upgrades.Kube.Cluster.{Cluster}
use automatic_db_upgrades.Kube.Monad.{State, done, Ensures, >>=-Ensures}
use automatic_db_upgrades.Kube.Writes.{Any, Holds-done}
use automatic_db_upgrades.Api.Types.{MetricCheck, DbUpgrade}
use automatic_db_upgrades.Checks.Version.{Semver}
use automatic_db_upgrades.Checks.Values.{Floats}
use automatic_db_upgrades.Checks.Metrics.{check_metrics, new_metrics_checker}
use automatic_db_upgrades.Checks.Passing.{Always, Shows, MetricPasses, check_metrics-Shows}
use automatic_db_upgrades.Controller.Result.{ReconcileResult, Reconciler}
use automatic_db_upgrades.Controller.PostChecks.{
  max_bake_seconds, bake, bake_waiting, metric_postchecks, post_metrics, run_post_checks,
  completion, conclude, sync_succeeded,
}
use automatic_db_upgrades.Controller.Checked.{Any-result, All-empty}

module _ (C : Cluster) (V : Semver) (F : Floats) (r : Reconciler C) (u : DbUpgrade) where
  -- A ready result shows that all checks of the list have passed.
  abbrev Settled : List MetricCheck → ReconcileResult → Type 0
  Settled checks post = post.ready ≡ true → All (MetricPasses C F u.namespace) checks

  metric_postchecks-Settled :
      (checks : List MetricCheck)
      → Ensures Unit Always (metric_postchecks C F r u checks) (Settled checks)
  unfolding metric_postchecks
  metric_postchecks-Settled checks =
      >>=-Ensures Unit Always Any (Settled checks) (new_metrics_checker C) _
        (Any-result (new_metrics_checker C))
        (elim [
          | some e ↦ λ _ s i. (tt, λ ready. cc)
          | none ↦ λ _.
              >>=-Ensures Unit Always
                (Shows (λ m. m.passed) (All (MetricPasses C F u.namespace) checks)) (Settled checks)
                (check_metrics F C u.namespace checks) _
                (check_metrics-Shows C F u.namespace checks)
                (elim [
                  | err e ↦ λ _ s i. (tt, λ ready. cc)
                  | ok m ↦ λ k. elim (Bool-cases m.passed) [
                    | inl good ↦ rw good (λ s i. (tt, λ ready. k m refl good))
                    | inr bad ↦ rw bad (λ s i. (tt, λ ready. cc))
                  ]
                ])
        ])

  bake-result :
      (max : ℤ) (t : Option Time)
      → Ensures Unit Always
          (bake C F r max t)
          (λ o. (w : ReconcileResult) → o ≡ some w → w.ready ≡ false)
  unfolding bake bake_waiting
  bake-result max none s i = (tt, λ w e. cc)
  bake-result max (some t) s i = ground arith

  run_post_checks-Settled :
      (t : Option Time)
      → r.has_rest_config ≡ true
      → Ensures Unit Always (run_post_checks C F r u t) (Settled (post_metrics C F r u))
  unfolding run_post_checks bake
  run_post_checks-Settled t config = elim (Bool-cases (is_empty (post_metrics C F r u))) [
    | inl e ↦ rw e (λ s i. (tt, λ ready. All-empty _ (post_metrics C F r u) e))
    | inr e ↦
        rw (e, config)
          (>>=-Ensures Unit Always (λ o. (w : ReconcileResult) → o ≡ some w → w.ready ≡ false)
            (Settled (post_metrics C F r u))
            (bake C F r (max_bake_seconds (post_metrics C F r u)) t) _
            (bake-result (max_bake_seconds (post_metrics C F r u)) t)
            (elim [
              | some w ↦ λ k s i. (tt, λ ready. absurd (cc (k w refl, ready)))
              | none ↦ λ k. metric_postchecks-Settled (post_metrics C F r u)
            ]))
  ]

  conclude-Settled :
      (job : Job) (t : Time)
      → r.has_rest_config ≡ true
      → Ensures Unit Always (conclude C F r u job t) (Settled (post_metrics C F r u))
  unfolding conclude
  conclude-Settled job t config = elim (Bool-cases (is_empty (post_metrics C F r u))) [
    | inl e ↦ rw e (λ s i. (tt, λ ready. All-empty _ (post_metrics C F r u) e))
    | inr e ↦ rw e (
        >>=-Ensures Unit Always (Settled (post_metrics C F r u)) (Settled (post_metrics C F r u))
          (run_post_checks C F r u (some t)) _ (run_post_checks-Settled (some t) config)
          (λ post k. elim (Bool-cases post.ready) [
            | inl good ↦ rw good (λ s i. (tt, λ _. k good))
            | inr bad ↦ rw bad (λ s i. (tt, λ ready. cc))
          ]))
  ]

  -- If the branch for a Job that succeeded gives a ready result, and metrics can be queried, then each
  -- metric of the post-checks has passed in a run.
  pub sync_succeeded-passed :
      (job : Job) (s : State C.World) (result : ReconcileResult)
      → r.has_rest_config ≡ true
      → (sync_succeeded C F r u job s).0 ≡ done result
      → result.ready ≡ true
      → All (MetricPasses C F u.namespace) (post_metrics C F r u)
  unfolding sync_succeeded
  sync_succeeded-passed job s result config ended ready =
      Holds-done Always (Settled (post_metrics C F r u)) (sync_succeeded C F r u job s) result
        (>>=-Ensures Unit Always Any (Settled (post_metrics C F r u)) (completion C F r u job) _
          (Any-result (completion C F r u job)) (λ t _. conclude-Settled job t config) s tt)
        ended ready
