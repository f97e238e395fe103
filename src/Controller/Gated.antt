-- ===== src/Controller/Gated.antt =====
-- controllers/dbupgrade_controller.go, reconcileDBUpgrade: every way to the creation of a Job leads
-- through the pre-checks.
use automatic_db_upgrades.Common.{
  none, some, [], ◌≡◌, ◌≢◌, ◌⊎◌, inl, inr, refl, arith, All, Bool-cases, is_none,
}
use automatic_db_upgrades.Kube.Objects.{Secret, Job}
use automatic_db_upgrades.Kube.Cluster.{Cluster}
use automatic_db_upgrades.Kube.Monad.{
  Write, created_job, State, Outcome, done, panic, M, ◌>>=◌, and_then, Holds,
}
use automatic_db_upgrades.Kube.Writes.{Writes, Holds-state}
use automatic_db_upgrades.Api.Types.{DbUpgrade}
use automatic_db_upgrades.Checks.Version.{Semver}
use automatic_db_upgrades.Checks.Values.{Floats}
use automatic_db_upgrades.Controller.Result.{ReconcileResult, Reconciler, passed_checks}
use automatic_db_upgrades.Controller.Jobs.{Hashing, is_job_running}
use automatic_db_upgrades.Controller.PreChecks.{run_pre_checks}
use automatic_db_upgrades.Controller.PostChecks.{sync_job_status}
use automatic_db_upgrades.Controller.Reconcile.{
  replace_job, after_checks, start_migration, reconcile_upgrade,
}
use automatic_db_upgrades.Controller.Outcomes.{run_pre_checks-Writes, sync_job_status-Writes}
use automatic_db_upgrades.Controller.Walk.{IsStable, reconcile_upgrade-Good}
use automatic_db_upgrades.Controller.Gate.{Passed}

-- A write that creates no Job.
abbrev pub CreatesNone : Write → Type 0
CreatesNone e = (job : Job) → e ≢ created_job job

module _ (C : Cluster) (V : Semver) (F : Floats) (H : Hashing) (r : Reconciler C)
    (u : DbUpgrade) where
  -- The run creates no Job; or it ends as the start of a migration does, from a state where the
  -- pre-checks pass.
  abbrev pub IsGated : Outcome ReconcileResult × State C.World → Type 0
  IsGated o =
      All CreatesNone o.1.trace
      ⊎ ((secret : Secret) × (t : State C.World) × (o ≡ start_migration C V F H r u secret t)
          × Passed C V F H r u (run_pre_checks C V F r u t).0)

  abbrev Gated : M C.World ReconcileResult → Type 0
  Gated m = (s : State C.World) → All CreatesNone s.trace → IsGated (m s)

  Gated-and_then :
      {A : Type 0} (Q : A → Type 0) (o : Outcome A × State C.World)
      (f : A → M C.World ReconcileResult)
      → Holds (Unit {0}) (λ s. All CreatesNone s.trace) Q o
      → ((a : A) → Q a → Gated (f a))
      → IsGated (and_then o f)
  Gated-and_then Q (done a, s) f h next = next a h.1 s h.0
  Gated-and_then Q (panic, s) f h next = inl h.0

  Gated-bind :
      {A : Type 0} (Q : A → Type 0) (m : M C.World A) (f : A → M C.World ReconcileResult)
      → Writes Unit CreatesNone m Q
      → ((a : A) → Q a → Gated (f a))
      → Gated (m >>= f)
  Gated-bind Q m f quiet next s h = Gated-and_then Q (m s) f (quiet s h) next

  Gated-of_quiet :
      (Q : ReconcileResult → Type 0) (m : M C.World ReconcileResult)
      → Writes Unit CreatesNone m Q
      → Gated m
  Gated-of_quiet Q m quiet s h =
      inl (Holds-state (λ t. All CreatesNone t.trace) Q (m s) (quiet s h))

  refused :
      (secret : Secret) (o : Outcome ReconcileResult × State C.World)
      → All CreatesNone o.1.trace
      → All CreatesNone (and_then o (after_checks C V F H r u secret)).1.trace
        ⊎ Passed C V F H r u o.0
  unfolding after_checks
  refused secret (done pre, s) h = elim (Bool-cases pre.ready) [
    | inl passed ↦ inr (pre, refl, passed)
    | inr failed ↦ inl (rw (after_checks, failed) h)
  ]
  refused secret (panic, s) h = inl h

  unchecked-Passed :
      (s : State C.World) → u.spec.checks ≡ none → Passed C V F H r u (run_pre_checks C V F r u s).0
  unfolding run_pre_checks
  unchecked-Passed s free = rw free (passed_checks, refl, refl)

  start_migration-Gated : (secret : Secret) → Gated (start_migration C V F H r u secret)
  unfolding start_migration
  start_migration-Gated secret s h = elim (Bool-cases (is_none u.spec.checks)) [
    | inl free ↦ inr (secret, s, refl, unchecked-Passed s (ground arith))
    | inr there ↦
        let quiet =
          Holds-state (λ t. All CreatesNone t.trace) _ (run_pre_checks C V F r u s)
            (run_pre_checks-Writes C Unit CreatesNone V F r u s h) in
        elim (refused secret (run_pre_checks C V F r u s) quiet) [
          | inl silent ↦ inl (rw (start_migration, there) silent)
          | inr passed ↦ inr (secret, s, refl, passed)
        ]
  ]

  replace_job-Gated : (job : Job) → Gated (replace_job C V F H r u job)
  unfolding replace_job
  replace_job-Gated job s h = elim (Bool-cases (is_job_running (some job))) [
    | inl running ↦ inl (rw (replace_job, running) h)
    | inr idle ↦ inl (rw (replace_job, idle) (λ _ e. cc, h))
  ]

  Gated-IsStable : IsStable CreatesNone Gated
  Gated-IsStable = record {
    creates = λ secret job e. cc;
    updates = λ secret job e. cc;
    returns = λ result s h. inl h;
    follows = λ Q m f. Gated-bind Q m f;
  }

  -- Whatever the cluster answers, the main logic creates no Job, or its run is the one that the start of a
  -- migration has in a state where the pre-checks of `u` pass, as they do if `u` has none.
  pub reconcile_upgrade-IsGated :
      (w : C.World) → IsGated (reconcile_upgrade C V F H r u (record { world = w; trace = [] }))
  reconcile_upgrade-IsGated w =
      reconcile_upgrade-Good C V F H r u CreatesNone Gated Gated-IsStable start_migration-Gated
        replace_job-Gated
        (λ job.
          Gated-of_quiet _ (sync_job_status C F r u (some job))
            (sync_job_status-Writes C Unit CreatesNone V F r u job))
        (record { world = w; trace = [] }) tt
