-- ===== src/Controller/Gate.antt =====
-- When a Job is created.
use automatic_db_upgrades.Common.{
  true, false, none, List, [], ◌∷◌, ◌≡◌, ◌≢◌, ◌⊎◌, inl, inr, refl, arith, Bool-cases, All, is_none,
}
use automatic_db_upgrades.Kube.Objects.{Secret}
use automatic_db_upgrades.Kube.Cluster.{Cluster}
use automatic_db_upgrades.Kube.Monad.{Write, State, Outcome, Holds, and_then, done, panic}
use automatic_db_upgrades.Api.Types.{DbUpgrade}
use automatic_db_upgrades.Checks.Version.{Semver}
use automatic_db_upgrades.Checks.Values.{Floats}
use automatic_db_upgrades.Controller.Result.{ReconcileResult, Reconciler}
use automatic_db_upgrades.Controller.Jobs.{Hashing}
use automatic_db_upgrades.Controller.PreChecks.{run_pre_checks}
use automatic_db_upgrades.Controller.Outcomes.{IsRefusal, run_pre_checks-Writes}
use automatic_db_upgrades.Controller.Reconcile.{after_checks, start_migration}

module _ (C : Cluster) (V : Semver) (F : Floats) (H : Hashing) (r : Reconciler C)
    (u : DbUpgrade) where
  abbrev pub Passed : Outcome ReconcileResult → Type 0
  Passed o = (pre : ReconcileResult) × (o ≡ done pre) × (pre.ready ≡ true)

  silent : (trace : List Write) → All (λ _. ⊥) trace → trace ≡ []
  silent [] h = refl
  silent (e ∷ trace) h = absurd h.0

  gate :
      (secret : Secret) (o : Outcome ReconcileResult × State C.World)
      → Holds Unit (λ s. All (λ _. ⊥) s.trace) (λ pre. pre.ready ≡ false → IsRefusal pre) o
      → ((and_then o (after_checks C V F H r u secret)).1.trace ≡ []) ⊎ Passed o.0
  unfolding after_checks
  gate secret (done pre, s) (h, _) = elim (Bool-cases pre.ready) [
    | inl passed ↦ inr (pre, refl, passed)
    | inr failed ↦ inl (rw (failed, after_checks) (silent s.trace h))
  ]
  gate secret (panic, s) (h, _) = inl (silent s.trace h)

  -- Starting a migration for an object with checks writes nothing, so creates no Job, unless its
  -- pre-checks have run in this very reconcile and have passed.
  start_migration_gated :
      (secret : Secret) (w : C.World)
      → u.spec.checks ≢ none
      → let s : State C.World = record { world = w; trace = [] } in
        ((start_migration C V F H r u secret s).1.trace ≡ [])
        ⊎ Passed (run_pre_checks C V F r u s).0
  unfolding start_migration
  start_migration_gated secret w given = elim (Bool-cases (is_none u.spec.checks)) [
    | inl missing ↦ absurd (given (ground arith))
    | inr there ↦
        let s : State C.World = record { world = w; trace = [] } in
        rw there (
          gate secret (run_pre_checks C V F r u s)
            (run_pre_checks-Writes C Unit (λ _. ⊥) V F r u s tt))
  ]
