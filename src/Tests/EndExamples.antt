-- ===== src/Tests/EndExamples.antt =====
-- A reconcile when the Job has ended.
use automatic_db_upgrades.Common.{
  inl, ==_refl, ==_of_ne, show_hex_bytes, some, none, [], ◌∷◌, refl, String-discrete, pos, true,
}
use automatic_db_upgrades.Kube.Objects.{Job, job_failed, is_true}
use automatic_db_upgrades.Kube.Meta.{ok}
use automatic_db_upgrades.Kube.Cluster.{Cluster}
use automatic_db_upgrades.Api.Conditions.{SetsConditions, find_condition}
use automatic_db_upgrades.Controller.Result.{Reconciler}
use automatic_db_upgrades.Controller.Jobs.{
  owns, compute_spec_hash, find_job, is_job_succeeded, is_job_failed,
}
use automatic_db_upgrades.Controller.PostChecks.{migration_complete_result}
use automatic_db_upgrades.Controller.Secrets.{lookup}
use automatic_db_upgrades.Controller.Reconcile.{reconcile}
use automatic_db_upgrades.Controller.Given.{GivesSecrets}
use automatic_db_upgrades.Controller.Begins.{HasUrl}
use automatic_db_upgrades.Controller.Completes.{
  HasCurrentJob, Reports, failed_result, reconcile-completes, reconcile-fails,
}
use automatic_db_upgrades.Tests.Objects.{own_secret, full_secret, unchecked, url_ref, job_of}
use automatic_db_upgrades.Tests.Server.{
  by_name, server, served, start, two_versions, whole_numbers, one_hash, reconciler,
}

-- The server lists that Job, and has the operator's Secret with the URL.
abbrev listing : Job → Cluster
listing job = record server {
  get_secret = λ _ name w. (by_name (ok own_secret) name, w);
  list_jobs = λ _ w. (ok (job ∷ []), w);
}

abbrev operator : (job : Job) → Reconciler (listing job)
operator job = record {
  settings = (reconciler (ok full_secret)).settings;
  has_rest_config = true;
  aws_client_manager = none;
}

listing-SetsConditions : (job : Job) → SetsConditions (listing job)
unfolding find_condition
listing-SetsConditions job = record {
  sets = λ c cs w status e. record {
    condition = c;
    found = rw ==_refl refl;
    status_eq = e;
    reason_eq = refl;
    message_eq = refl;
    generation_eq = refl;
  };
  keeps = λ c cs w kind apart. rw (==_of_ne c.kind kind (λ e. apart (cc e))) refl;
}

unchecked-HasUrl : HasUrl unchecked url_ref full_secret (0x61 ∷ [])
unfolding lookup String-discrete
unchecked-HasUrl = record { kind = refl; given = refl; there = refl }

listing-GivesSecrets : (job : Job) → GivesSecrets (listing job) unchecked "db" full_secret
unfolding String-discrete
listing-GivesSecrets job = record {
  found = λ _. refl;
  own = λ _. inl (own_secret, refl, λ e. cc);
  creates = λ s _ _ _ _ _. (s, refl);
  updates = λ _ s _ _ _. (s, refl);
}

abbrev finished : Job
finished = job_of "dbupgrade-app-abcdef01" (some 1000000000)

abbrev broken : Job
broken = record finished {
  status = record {
    active = pos 0;
    conditions = record { kind = job_failed; status = is_true } ∷ [];
    completion_time = none;
  };
}

finished-HasCurrentJob :
    HasCurrentJob (listing finished) one_hash unchecked "db" full_secret finished
unfolding find_job owns compute_spec_hash show_hex_bytes String-discrete
finished-HasCurrentJob = record {
  secrets = listing-GivesSecrets finished;
  jobs = finished ∷ [];
  listed = λ _. refl;
  found = refl;
  current = refl;
}

broken-HasCurrentJob : HasCurrentJob (listing broken) one_hash unchecked "db" full_secret broken
unfolding find_job owns compute_spec_hash show_hex_bytes String-discrete
broken-HasCurrentJob = record {
  secrets = listing-GivesSecrets broken;
  jobs = broken ∷ [];
  listed = λ _. refl;
  found = refl;
  current = refl;
}

reconcile-completes_example :
    Reports
      (listing finished)
      two_versions
      whole_numbers
      one_hash
      (operator finished)
      unchecked
      (0x61 ∷ [])
      (migration_complete_result
        (listing finished)
        whole_numbers
        (operator finished)
        finished
        1000000000)
      "MigrationSucceeded"
      (reconcile
        (listing finished)
        two_versions
        whole_numbers
        one_hash
        (operator finished)
        "team"
        "app"
        (start (served unchecked [])))
unfolding is_job_succeeded String-discrete
reconcile-completes_example =
    reconcile-completes (listing finished) two_versions whole_numbers one_hash (operator finished)
      unchecked url_ref full_secret (0x61 ∷ []) finished 1000000000 "team" "app"
      (served unchecked []) finished-HasCurrentJob refl refl refl (listing-SetsConditions finished)
      unchecked-HasUrl refl

reconcile-fails_example :
    Reports
      (listing broken)
      two_versions
      whole_numbers
      one_hash
      (operator broken)
      unchecked
      (0x61 ∷ [])
      (failed_result broken)
      "MigrationFailed"
      (reconcile
        (listing broken)
        two_versions
        whole_numbers
        one_hash
        (operator broken)
        "team"
        "app"
        (start (served unchecked [])))
unfolding is_job_succeeded is_job_failed String-discrete
reconcile-fails_example =
    reconcile-fails (listing broken) two_versions whole_numbers one_hash (operator broken) unchecked
      url_ref full_secret (0x61 ∷ []) broken "team" "app" (served unchecked []) broken-HasCurrentJob
      refl refl (listing-SetsConditions broken) unchecked-HasUrl refl
