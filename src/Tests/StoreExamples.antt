-- ===== src/Tests/StoreExamples.antt =====
-- The server of the examples keeps Jobs; what holds of runs against it.
use automatic_db_upgrades.Common.{
  sym, ◌∙◌, Bytes-discrete, String-discrete, show_hex_bytes, String, true, some, List, [], ◌∷◌, ◌≡◌,
  ◌≢◌, ◌⊎◌, inl, inr, refl, ap, arith, Bool-cases, ◌==◌, ◌&&◌, ◌≤◌, if◌then◌else◌,
}
use automatic_db_upgrades.Kube.Objects.{Job}
use automatic_db_upgrades.Kube.Meta.{Result, ApiError, ok}
use automatic_db_upgrades.Api.Conditions.{set_ready, set_progressing, set_condition}
use automatic_db_upgrades.Controller.Result.{Reconciler}
use automatic_db_upgrades.Controller.Jobs.{
  owns, compute_spec_hash, find_job, get_job_for_upgrade, create_migration_job, migration_job,
}
use automatic_db_upgrades.Controller.Secrets.{
  validate_secret, connection_url, lookup, insert, needs_update, store_url, refresh, write_secret,
  write_url, ensure_migration_secret,
}
use automatic_db_upgrades.Controller.Reconcile.{
  expected_job_name, reconcile, with_upgrade, reconcile_upgrade, validated, with_secret, with_found,
  with_job, start_migration, create_job, finish, update_status, new_status, with_update, emit,
  record_event,
}
use automatic_db_upgrades.Controller.Lifecycle.{Inserted, Move}
use automatic_db_upgrades.Controller.JobStore.{JobStore, owned}
use automatic_db_upgrades.Controller.Moving.{IsObject}
use automatic_db_upgrades.Controller.Runs.{
  jobs_of, OneJobEach, reconciled, reconcile-Move, here, later, reconciles, Reach-OneJobEach,
  nothing, change, changes_bound, current_job_kept,
}
use automatic_db_upgrades.Tests.Objects.{full_secret, unchecked, job_of}
use automatic_db_upgrades.Tests.Server.{
  server, served, in_namespace, without, Served, two_versions, whole_numbers, one_hash, reconciler,
}

-- One Job more in front.
owned-cons :
    (namespace uid : String) (job : Job) (jobs : List Job)
    → let rest = owned uid (in_namespace namespace jobs) in
      owned uid (in_namespace namespace (job ∷ jobs))
      ≡ (if job.namespace == namespace && owns uid job.owners then job.name ∷ rest else rest)
unfolding owned in_namespace
owned-cons namespace uid job jobs = ground arith

server-created :
    (job : Job) (namespace uid : String) (jobs : List Job)
    → let before = owned uid (in_namespace namespace jobs) in
      let after = owned uid (in_namespace namespace (job ∷ jobs)) in
      (after ≡ before)
      ⊎ ((namespace ≡ job.namespace)
          × (owns uid job.owners ≡ true)
          × Inserted job.name before after)
server-created job namespace uid jobs =
    let shape = owned-cons namespace uid job jobs in
    elim (Bool-cases (job.namespace == namespace && owns uid job.owners)) [
      | inl e ↦ inr (
        ground arith,
        ground arith,
        record {
          before = [];
          after = owned uid (in_namespace namespace jobs);
          split = refl;
          whole = rw (shape, e) refl;
        },
      )
      | inr e ↦ inl (rw (shape, e) refl)
    ]

server-deleted :
    (job : Job) (namespace uid : String) (jobs : List Job)
    → let before = owned uid (in_namespace namespace jobs) in
      let after = owned uid (in_namespace namespace (without job jobs)) in
      (after ≡ before) ⊎ Inserted job.name after before
unfolding without
server-deleted job namespace uid [] = inl refl
server-deleted job namespace uid (j ∷ jobs) =
    let shape = owned-cons namespace uid j jobs in
    let shape' = owned-cons namespace uid j (without job jobs) in
    elim (Bool-cases (j.name == job.name && j.namespace == job.namespace)) [
      | inl gone ↦ elim (Bool-cases (j.namespace == namespace && owns uid j.owners)) [
        | inl e ↦ rw gone (
            inr (record {
              before = [];
              after = owned uid (in_namespace namespace jobs);
              split = refl;
              whole = ground arith;
            }))
        | inr e ↦ rw gone (inl (rw (shape, e) refl))
      ]
      | inr stays ↦ rw stays (elim (server-deleted job namespace uid jobs) [
        | inl same ↦ inl (rw (shape, shape', same) refl)
        | inr ins ↦ elim (Bool-cases (j.namespace == namespace && owns uid j.owners)) [
          | inl e ↦ inr (record {
            before = j.name ∷ ins.before;
            after = ins.after;
            split = ground (arith, ins.split);
            whole = ground (arith, ins.whole);
          })
          | inr e ↦ inr (record {
            before = ins.before;
            after = ins.after;
            split = ground (arith, ins.split);
            whole = ground (arith, ins.whole);
          })
        ]
      ])
    ]

same_jobs : (js js' : List Job) → ◌≡◌ {A = Result ApiError (List Job)} (ok js) (ok js') → js' ≡ js
same_jobs js js' e = cc

abbrev keeps_jobs : JobStore server
keeps_jobs = record {
  jobs = λ namespace w. in_namespace namespace w.jobs;
  calm = λ namespace uid. record {
    get_upgrade = λ _ _ _. refl;
    get_secret = λ _ _ _. refl;
    list_jobs = λ _ _. refl;
    list_pods = λ _ _ _. refl;
    create_secret = λ _ _. refl;
    update_secret = λ _ _. refl;
    create_event = λ _ _. refl;
    update_status = λ _ _. refl;
    set_status_condition = λ _ _ _. refl;
    now = λ _. refl;
    new_discovery_client = λ _. refl;
    get_api_group_resources = λ _. refl;
    new_external_client = λ _. refl;
    metrics_for_objects = λ _ _ _ _. refl;
    metric_for_object = λ _ _ _ _ _ _. refl;
    external_metrics = λ _ _ _ _. refl;
    build_auth_token = λ _ _ _ _ _. refl;
  };
  listed = λ namespace uid w js e. ap (owned uid) (same_jobs (in_namespace namespace w.jobs) js e);
  created = λ job namespace uid w. server-created job namespace uid w.jobs;
  deleted = λ job namespace uid w. server-deleted job namespace uid w.jobs;
}

abbrev full : Reconciler server
full = reconciler (ok full_secret)

abbrev current_name : String
current_name = "dbupgrade-app-abcdef01"

-- The worlds before and behind the first reconcile of an object without checks.
abbrev fresh : Served
fresh = served unchecked []

abbrev run_once : Served → Served
run_once w = reconciled server two_versions whole_numbers one_hash full "team" "app" w

reconcile-Move_example :
    Move
      (IsObject unchecked "team" "u1")
      (expected_job_name one_hash unchecked)
      []
      (jobs_of server keeps_jobs "team" "u1" (run_once fresh))
unfolding in_namespace owned
reconcile-Move_example =
    reconcile-Move server two_versions whole_numbers one_hash full keeps_jobs "team" "app" fresh
      unchecked refl "team" "u1"

Reach-OneJobEach_example : OneJobEach server keeps_jobs (run_once (run_once fresh))
unfolding in_namespace owned
Reach-OneJobEach_example =
    Reach-OneJobEach server two_versions whole_numbers one_hash full keeps_jobs {w = fresh}
      (λ namespace uid. omega arith)
      (later (later here (reconciles "team" "app")) (reconciles "team" "app"))

nonempty : {x : String} {xs : List String} → x ∷ xs ≢ []
nonempty e = cc

-- The first reconcile starts the Job.
first_job : jobs_of server keeps_jobs "team" "u1" (run_once fresh) ≡ current_name ∷ []
unfolding in_namespace owned reconcile with_upgrade reconcile_upgrade validated validate_secret
    ensure_migration_secret connection_url store_url write_secret refresh needs_update write_url
    insert lookup with_secret get_job_for_upgrade find_job owns with_found with_job start_migration
    create_job create_migration_job migration_job compute_spec_hash show_hex_bytes finish
    update_status new_status set_ready set_progressing set_condition with_update emit record_event
    Bytes-discrete String-discrete
first_job = refl

changes_bound_example : 1 ≤ 2
unfolding in_namespace owned
changes_bound_example =
    changes_bound server two_versions whole_numbers one_hash full keeps_jobs "team" "app" unchecked
      1 fresh (run_once fresh) (omega arith)
      (change nothing
        (record {
          read = unchecked;
          answer = refl;
          same_object = record { same_namespace = refl; same_uid = refl };
          same_job = refl;
        })
        (λ e. nonempty (sym first_job ∙ e)))

abbrev settled : Served
settled = served unchecked (job_of "dbupgrade-app-abcdef01" (some 1000000000) ∷ [])

current_job_kept_example :
    jobs_of server keeps_jobs "team" "u1" (run_once settled)
    ≡ expected_job_name one_hash unchecked ∷ []
unfolding in_namespace owned owns compute_spec_hash show_hex_bytes String-discrete
current_job_kept_example =
    current_job_kept server two_versions whole_numbers one_hash full keeps_jobs "team" "app" settled
      unchecked refl "team" "u1" refl
