-- ===== src/Controller/Stages.antt =====
-- The stages of a reconcile, each with what its writes and its result satisfy.
use automatic_db_upgrades.Common.{
  String, true, ◌==◌, Option, none, some, ◌≡◌, ◌≢◌, refl, ap, ◌&&◌, arith, Bool-cases, ==_iff,
  ==_refl, ==-eq-false, inl, inr, is_none,
}
use automatic_db_upgrades.Kube.Objects.{Secret, Job}
use automatic_db_upgrades.Kube.Meta.{Result, ok, err, ApiError, Result-cases}
use automatic_db_upgrades.Kube.Cluster.{Cluster}
use automatic_db_upgrades.Kube.Monad.{send, created_secret, updated_secret, updated_status}
use automatic_db_upgrades.Kube.Writes.{Writes, Writes-bind, Writes_mono, Any}
use automatic_db_upgrades.Api.Types.{DbUpgrade}
use automatic_db_upgrades.Api.Conditions.{set_ready, set_progressing, set_condition}
use automatic_db_upgrades.Checks.Version.{Semver}
use automatic_db_upgrades.Checks.Values.{Floats}
use automatic_db_upgrades.Controller.Result.{Settings, ReconcileResult, Reconciler}
use automatic_db_upgrades.Controller.Jobs.{
  Hashing, owns, compute_spec_hash, migration_job, get_job_for_upgrade, is_job_succeeded,
  create_migration_job,
}
use automatic_db_upgrades.Controller.Secrets.{
  is_self_hosted, is_aws, secret_name, url_secret_ref, validate_secret, ensure_migration_secret,
}
use automatic_db_upgrades.Controller.PreChecks.{run_pre_checks}
use automatic_db_upgrades.Controller.PostChecks.{sync_job_status}
use automatic_db_upgrades.Controller.Reconcile.{
  expected_job_name, replace_job, create_job, after_checks, start_migration, with_job, with_found,
  with_secret, validated, reconcile_upgrade, new_status, update_status, with_update, emit,
  record_event, finish,
}
use automatic_db_upgrades.Controller.Promise.{Keeps}
use automatic_db_upgrades.Controller.Outcomes.{run_pre_checks-Writes, sync_job_status-Writes}
use automatic_db_upgrades.Controller.Permitted.{Permitted, Listed, Fetched, IsMigrated}
use automatic_db_upgrades.Controller.SecretWrites.{
  validate_secret-Writes, ensure_migration_secret-Writes,
}

module _ (C : Cluster) (V : Semver) (F : Floats) (H : Hashing) (r : Reconciler C) (X : Type 0)
    (u : DbUpgrade) where
  -- The result keeps its promise; a ready one rests on a Job that succeeded.
  abbrev pub Good : ReconcileResult → Type 0
  Good = Keeps (IsMigrated C H u)

  created :
      (secret : Secret)
      → secret.name ≡ secret_name u.name
      → secret.namespace ≡ u.namespace
      → Permitted C H u (created_secret secret)
  created secret named placed = (named, placed)

  updated :
      (before secret : Secret)
      → Fetched C u before
      → secret ≡ record before { contents = secret.contents }
      → Permitted C H u (updated_secret secret)
  updated before secret fetched same_rest = (before, fetched, same_rest)

  replace_job-Writes :
      (job : Job)
      → Listed C u job
      → job.name ≢ expected_job_name H u
      → Writes X (Permitted C H u) (replace_job C V F H r u job) Good
  unfolding replace_job
  replace_job-Writes job listed other s i = ground arith

  owns-owner :
      (settings : Settings) (secret hash : String)
      → owns u.uid (migration_job settings u secret hash).owners ≡ true
  unfolding migration_job owns
  owns-owner settings secret hash = rw ==_refl

  create_job-Writes :
      (secret : Secret) → Writes X (Permitted C H u) (create_job C V F H r u secret) Good
  unfolding create_job create_migration_job migration_job
  create_job-Writes secret s i =
      ground (arith, owns-owner r.settings secret.name (compute_spec_hash H u.spec))

  start_migration-Writes :
      (secret : Secret) → Writes X (Permitted C H u) (start_migration C V F H r u secret) Good
  unfolding start_migration after_checks
  start_migration-Writes secret s i = ground (
    arith,
    run_pre_checks-Writes C X (Permitted C H u) V F r u s i,
    create_job-Writes secret s i,
    create_job-Writes secret (run_pre_checks C V F r u s).1,
  )

  get_job_for_upgrade-Writes :
      Writes X
        (Permitted C H u)
        (get_job_for_upgrade C u)
        (λ found. (job : Job) → found ≡ ok (some job) → Listed C u job)
  unfolding get_job_for_upgrade
  get_job_for_upgrade-Writes s i = (
    i,
    λ job e. elim (Result-cases (C.list_jobs u.namespace s.world).0) [
      | inl (failure, p) ↦ absurd (ground arith)
      | inr (jobs, p) ↦ record { world = s.world; jobs = jobs; answer = p; found = ground arith }
    ],
  )

  module _ (on_nil : (secret : Secret) → Fetched C u secret → secret.contents ≡ none → X) where
    known :
        (job : Job)
        → Listed C u job
        → job.name ≡ expected_job_name H u
        → Writes X (Permitted C H u) (sync_job_status C F r u (some job)) Good
    known job listed current =
        Writes_mono X (Permitted C H u) (Keeps (is_job_succeeded (some job) ≡ true)) Good
          (sync_job_status C F r u (some job))
          (λ result k. record {
            on_ready = λ ready. record {
              job = job;
              listed = listed;
              current = current;
              succeeded = k.on_ready ready;
            };
            on_complete = k.on_complete;
            on_wait = k.on_wait;
            on_progress = k.on_progress;
          })
          (sync_job_status-Writes C X (Permitted C H u) V F r u job)

    with_job-Writes :
        (secret : Secret) (found : Option Job)
        → ((job : Job) → found ≡ some job → Listed C u job)
        → Writes X (Permitted C H u) (with_job C V F H r u secret found) Good
    unfolding with_job
    with_job-Writes secret none listed = start_migration-Writes secret
    with_job-Writes secret (some job) listed =
        elim (Bool-cases (job.name == expected_job_name H u)) [
          | inl current ↦ rw current (known job (listed job refl) ((==_iff _ _).0 current))
          | inr other ↦ rw other (replace_job-Writes job (listed job refl) (==-eq-false _ _ other))
        ]

    with_found-Writes :
        (secret : Secret) (found : Result String (Option Job))
        → ((job : Job) → found ≡ ok (some job) → Listed C u job)
        → Writes X (Permitted C H u) (with_found C V F H r u secret found) Good
    unfolding with_found
    with_found-Writes secret (err e) listed = λ s i. ground arith
    with_found-Writes secret (ok found) listed =
        with_job-Writes secret found (λ job e. listed job (ap ok e))

    with_secret-Writes :
        (got : Result String Secret) → Writes X (Permitted C H u) (with_secret C V F H r u got) Good
    unfolding with_secret
    with_secret-Writes (err e) = λ s i. ground arith
    with_secret-Writes (ok secret) =
        Writes-bind X (Permitted C H u)
          (λ found. (job : Job) → found ≡ ok (some job) → Listed C u job) Good
          (get_job_for_upgrade C u) (with_found C V F H r u secret) get_job_for_upgrade-Writes
          (with_found-Writes secret)

    -- A spec with a self-hosted database gets here only with a reference to its Secret.
    validated-Writes :
        (bad : Option String)
        → (bad ≡ none → is_self_hosted u.spec.database.kind ≡ true → url_secret_ref u ≢ none)
        → Writes X (Permitted C H u) (validated C V F H r u bad) Good
    unfolding validated
    validated-Writes (some e) given = λ s i. ground arith
    validated-Writes none given =
        let checked =
          ensure_migration_secret-Writes C X (Permitted C H u) u created updated on_nil
            r.aws_client_manager (given refl) in
        let rest =
          Writes-bind X (Permitted C H u) Any Good
            (ensure_migration_secret C r.aws_client_manager u) (with_secret C V F H r u) checked
            (λ got _. with_secret-Writes got) in
        elim (Bool-cases (is_aws u.spec.database.kind && is_none u.spec.database.aws)) [
          | inl missing ↦ rw missing (λ s i. ground arith)
          | inr there ↦ rw there rest
        ]

    pub reconcile_upgrade-Writes : Writes X (Permitted C H u) (reconcile_upgrade C V F H r u) Good
    unfolding reconcile_upgrade
    reconcile_upgrade-Writes = elim (Bool-cases (is_self_hosted u.spec.database.kind)) [
      | inl hosted ↦ rw hosted (
          Writes-bind X (Permitted C H u) (λ bad. bad ≡ none → url_secret_ref u ≢ none) Good
            (validate_secret C u) (validated C V F H r u)
            (validate_secret-Writes C X (Permitted C H u) u created updated hosted)
            (λ bad named. validated-Writes bad (λ e _. named e)))
      | inr other ↦ rw other (validated-Writes none (λ _ hosted. cc))
    ]

  new_status-Writes :
      (result : ReconcileResult)
      → Writes X
          (Permitted C H u)
          (new_status C V F H r u result)
          (λ after. Permitted C H u (updated_status after))
  unfolding new_status set_ready set_progressing set_condition
  new_status-Writes result s i = (i, (refl, refl))

  update_status-Writes :
      (result : ReconcileResult) → Writes X (Permitted C H u) (update_status C V F H r u result) Any
  unfolding update_status
  update_status-Writes result =
      Writes-bind X (Permitted C H u) (λ after. Permitted C H u (updated_status after)) Any
        (new_status C V F H r u result)
        (λ after. send (updated_status after) (C.update_status after)) (new_status-Writes result)
        (λ after p s i. ((p, i), tt))

  with_update-Writes :
      (result : ReconcileResult) (failure : Option ApiError)
      → Writes X (Permitted C H u) (with_update C V F H r u result failure) Any
  unfolding with_update emit record_event
  with_update-Writes result (some e) s i = (i, tt)
  with_update-Writes result none s i = ground arith

  pub finish-Writes :
      (result : ReconcileResult) → Writes X (Permitted C H u) (finish C V F H r u result) Any
  unfolding finish
  finish-Writes result =
      Writes-bind X (Permitted C H u) Any Any (update_status C V F H r u result)
        (with_update C V F H r u result) (update_status-Writes result)
        (λ failure _. with_update-Writes result failure)
