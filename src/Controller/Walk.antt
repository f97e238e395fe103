-- ===== src/Controller/Walk.antt =====
-- controllers/dbupgrade_controller.go, reconcileDBUpgrade: what holds of the steps that its stages
-- end in holds of the whole, if it is not disturbed by the stages before them, which write Secrets
-- only.
use automatic_db_upgrades.Common.{
  String, true, ◌&&◌, Option, none, some, ◌≡◌, ◌≢◌, refl, inl, inr, Bool-cases, is_none, ◌==◌,
}
use automatic_db_upgrades.Kube.Objects.{Secret, Job}
use automatic_db_upgrades.Kube.Meta.{Result, ok, err}
use automatic_db_upgrades.Kube.Cluster.{Cluster}
use automatic_db_upgrades.Kube.Monad.{Write, created_secret, updated_secret, M, pure, ◌>>=◌}
use automatic_db_upgrades.Kube.Writes.{Writes, Any}
use automatic_db_upgrades.Api.Types.{DbUpgrade}
use automatic_db_upgrades.Checks.Version.{Semver}
use automatic_db_upgrades.Checks.Values.{Floats}
use automatic_db_upgrades.Controller.Result.{ReconcileResult, Reconciler}
use automatic_db_upgrades.Controller.Jobs.{Hashing, get_job_for_upgrade}
use automatic_db_upgrades.Controller.Secrets.{
  is_self_hosted, is_aws, url_secret_ref, validate_secret, ensure_migration_secret,
}
use automatic_db_upgrades.Controller.PostChecks.{sync_job_status}
use automatic_db_upgrades.Controller.Reconcile.{
  expected_job_name, replace_job, start_migration, with_job, with_found, with_secret, validated,
  reconcile_upgrade,
}
use automatic_db_upgrades.Controller.SecretWrites.{
  validate_secret-Writes, ensure_migration_secret-Writes,
}

-- A property of code that a result has, and that code with writes in `P` in front of it keeps.
pub record IsStable {W : Type 0} (P : Write → Type 0) (Good : M W ReconcileResult → Type 0)
    : Type 1 where
  pub creates : (secret : Secret) → P (created_secret secret)
  pub updates : (secret : Secret) → P (updated_secret secret)
  pub returns : (result : ReconcileResult) → Good (pure result)
  pub follows :
      {A : Type 0} (Q : A → Type 0) (m : M W A) (f : A → M W ReconcileResult)
      → Writes Unit P m Q
      → ((a : A) → Q a → Good (f a))
      → Good (m >>= f)

module _ (C : Cluster) (V : Semver) (F : Floats) (H : Hashing) (r : Reconciler C) (u : DbUpgrade)
    (P : Write → Type 0) (Good : M C.World ReconcileResult → Type 0) (stable : IsStable P Good)
    (starts : (secret : Secret) → Good (start_migration C V F H r u secret))
    (replaces : (job : Job) → Good (replace_job C V F H r u job))
    (syncs : (job : Job) → Good (sync_job_status C F r u (some job))) where
  with_job-Good : (secret : Secret) (found : Option Job) → Good (with_job C V F H r u secret found)
  unfolding with_job
  with_job-Good secret none = starts secret
  with_job-Good secret (some job) = elim (Bool-cases (job.name == expected_job_name H u)) [
    | inl e ↦ rw (with_job, e) (syncs job)
    | inr e ↦ rw (with_job, e) (replaces job)
  ]

  with_found-Good :
      (secret : Secret) (found : Result String (Option Job))
      → Good (with_found C V F H r u secret found)
  unfolding with_found
  with_found-Good secret (err e) = stable.returns _
  with_found-Good secret (ok found) = with_job-Good secret found

  with_secret-Good : (got : Result String Secret) → Good (with_secret C V F H r u got)
  unfolding with_secret get_job_for_upgrade
  with_secret-Good (err e) = stable.returns _
  with_secret-Good (ok secret) =
      stable.follows Any (get_job_for_upgrade C u) (with_found C V F H r u secret) (λ s i. (i, tt))
        (λ found _. with_found-Good secret found)

  validated-Good :
      (bad : Option String)
      → (bad ≡ none → is_self_hosted u.spec.database.kind ≡ true → url_secret_ref u ≢ none)
      → Good (validated C V F H r u bad)
  unfolding validated
  validated-Good (some e) given = stable.returns _
  validated-Good none given =
      elim (Bool-cases (is_aws u.spec.database.kind && is_none u.spec.database.aws)) [
        | inl e ↦ rw (validated, e) (stable.returns _)
        | inr e ↦
            rw (validated, e)
              (stable.follows Any (ensure_migration_secret C r.aws_client_manager u)
                (with_secret C V F H r u)
                (ensure_migration_secret-Writes C Unit P u (λ s _ _. stable.creates s)
                  (λ _ s _ _. stable.updates s) (λ _ _ _. tt) r.aws_client_manager (given refl))
                (λ got _. with_secret-Good got))
      ]

  pub reconcile_upgrade-Good : Good (reconcile_upgrade C V F H r u)
  unfolding reconcile_upgrade
  reconcile_upgrade-Good = elim (Bool-cases (is_self_hosted u.spec.database.kind)) [
    | inl hosted ↦
        rw (reconcile_upgrade, hosted)
          (stable.follows (λ bad. bad ≡ none → url_secret_ref u ≢ none) (validate_secret C u)
            (validated C V F H r u)
            (validate_secret-Writes C Unit P u (λ s _ _. stable.creates s)
              (λ _ s _ _. stable.updates s) hosted)
            (λ bad named. validated-Good bad (λ e _. named e)))
    | inr other ↦ rw (reconcile_upgrade, other) (validated-Good none (λ _ hosted. cc))
  ]
