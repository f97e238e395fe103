-- ===== src/Controller/Liveness.antt =====
-- controllers/dbupgrade_controller.go: with a server that answers every call, a reconcile without a
-- Job starts one.
use automatic_db_upgrades.Common.{
  subst, Bytes, String, true, none, some, List, [], ◌∷◌, ◌≡◌, refl, arith, pos, is_empty, ==_iff,
  inl, inr,
}
use automatic_db_upgrades.Kube.Objects.{Secret, SecretKeySelector, Job, Time}
use automatic_db_upgrades.Kube.Meta.{ok}
use automatic_db_upgrades.Kube.Cluster.{Cluster}
use automatic_db_upgrades.Kube.Monad.{State, Outcome, done, Write, created_job}
use automatic_db_upgrades.Api.Types.{DbUpgrade}
use automatic_db_upgrades.Api.Conditions.{job_pending}
use automatic_db_upgrades.Checks.Version.{Semver}
use automatic_db_upgrades.Checks.Values.{Floats}
use automatic_db_upgrades.Controller.Result.{ReconcileResult, Reconciler}
use automatic_db_upgrades.Controller.Jobs.{
  Hashing, find_job, is_job_succeeded, get_job_for_upgrade, migration_job, create_migration_job,
  compute_spec_hash,
}
use automatic_db_upgrades.Controller.PostChecks.{
  post_metrics, completion, conclude, sync_succeeded, sync_job_status, migration_complete_result,
}
use automatic_db_upgrades.Controller.Given.{GivesSecrets}
use automatic_db_upgrades.Controller.Open.{
  ChecksPass, start_migration-open, run_pre_checks-IsSilent,
}
use automatic_db_upgrades.Controller.PreChecks.{run_pre_checks}
use automatic_db_upgrades.Controller.StoredUrl.{IsSupplied}
use automatic_db_upgrades.Controller.Begins.{HasUrl, blind, reconcile_upgrade-Begins}
use automatic_db_upgrades.Controller.Reconcile.{
  expected_job_name, create_job, start_migration, with_job, with_found, with_secret,
  reconcile_upgrade,
}

-- A server that moreover lists no Job of the object and accepts the Job of its spec.
pub record IsCalm (C : Cluster) (H : Hashing) (u : DbUpgrade) (name : String) (customer : Secret)
    (jobs : List Job) : Type 0 where
  pub secrets : GivesSecrets C u name customer
  pub listed : (w : C.World) → (C.list_jobs u.namespace w).0 ≡ ok jobs
  pub none_owned : find_job u.uid jobs ≡ none
  pub creates :
      (job : Job) (w : C.World)
      → job.namespace ≡ u.namespace
      → job.name ≡ expected_job_name H u
      → (C.create_job job w).0 ≡ none

module _ (C : Cluster) (V : Semver) (F : Floats) (H : Hashing) (r : Reconciler C)
    (u : DbUpgrade) where
  -- Behind the writes `before`, the run writes the Job of the current spec for the Secret `one`, and
  -- nothing else, and ends in a result that says so.
  abbrev pub StartsFor : Secret → List Write → Outcome ReconcileResult × State C.World → Type 0
  StartsFor one before o =
      (result : ReconcileResult) × (o.0 ≡ done result)
      × ((result.progressing ≡ true)
          × (result.progress_reason ≡ job_pending)
          × (result.requeue_after ≡ pos 5))
      × (o.1.trace
          ≡ created_job (migration_job r.settings u one.name (compute_spec_hash H u.spec)) ∷ before)

  -- All that the run writes is the URL, into the operator's Secret, unless it is there already, and then
  -- the Job of the current spec for that Secret; the result says so.
  abbrev pub Starts : Bytes → State C.World → Outcome ReconcileResult × State C.World → Type 0
  Starts url s o =
      (one : Secret) × (read : State C.World) × (before : List Write) × (read.trace ≡ s.trace)
      × IsSupplied C u url read one before
      × StartsFor one before o

  module _ (name : String) (customer : Secret) (jobs : List Job)
      (calm : IsCalm C H u name customer jobs) (pass : ChecksPass C V F H r u) where
    create_job-StartsFor :
        (one : Secret) (s : State C.World) → StartsFor one s.trace (create_job C V F H r u one s)
    unfolding create_job create_migration_job migration_job
    create_job-StartsFor one s =
        let job = migration_job r.settings u one.name (compute_spec_hash H u.spec) in
        rw (calm.creates job s.world refl refl) (_, refl, (refl, refl, refl), refl)

    start_migration-StartsFor :
        (one : Secret) (s : State C.World)
        → StartsFor one s.trace (start_migration C V F H r u one s)
    start_migration-StartsFor one s = elim (start_migration-open C V F H r u one s pass) [
      | inl e ↦ rw e (create_job-StartsFor one s)
      | inr e ↦
          let silent = run_pre_checks-IsSilent C V F H r u s in
          let after = (run_pre_checks C V F r u s).1 in
          rw e (
            subst (λ before. StartsFor one before (create_job C V F H r u one after)) silent
              (create_job-StartsFor one after))
    ]

    with_secret-StartsFor :
        (one : Secret) (s : State C.World)
        → StartsFor one s.trace (with_secret C V F H r u (ok one) s)
    unfolding with_secret get_job_for_upgrade with_found with_job
    with_secret-StartsFor one s = rw (calm.listed s.world) (
        rw calm.none_owned (
          start_migration-StartsFor one (record s { world = (C.list_jobs u.namespace s.world).1 })))

  -- For a self-hosted database with a reference to a key of a Secret that is there, and with pre-checks
  -- that pass or none, a reconcile starts a migration if the server is calm: it finds that Secret and
  -- says whether it has the operator's, lists no Job of the object, and refuses none of the writes.
  -- The main logic sends the operator's Secret with the URL of the customer's, unless it is there with
  -- that URL, then the Job of the current spec, for the Secret that the server gave for it, and
  -- nothing else; the result follows that Job.
  pub reconcile_upgrade-Starts :
      (ref : SecretKeySelector) (customer : Secret) (url : Bytes) (jobs : List Job)
      → IsCalm C H u ref.name customer jobs
      → HasUrl u ref customer url
      → ChecksPass C V F H r u
      → (s : State C.World) → Starts url s (reconcile_upgrade C V F H r u s)
  reconcile_upgrade-Starts ref customer url jobs calm has pass s =
      let (one, read, t, silent, supplied, _, e) =
        reconcile_upgrade-Begins C V F H r u ref customer url calm.secrets has (λ _. tt) (blind C)
          s in
      (
        one,
        read,
        t.trace,
        silent,
        supplied,
        rw e (with_secret-StartsFor ref.name customer jobs calm pass one t),
      )

  -- A Job of the current spec that succeeded completes the migration, if there are no metrics to check
  -- afterwards and the Job has a completion time: the result says so, and the reconcile writes and
  -- reads nothing for it.
  pub with_job-completes :
      (secret : Secret) (job : Job) (t : Time) (s : State C.World)
      → job.name ≡ expected_job_name H u
      → is_job_succeeded (some job) ≡ true
      → job.status.completion_time ≡ some t
      → post_metrics C F r u ≡ []
      → with_job C V F H r u secret (some job) s ≡ (done (migration_complete_result C F r job t), s)
  unfolding with_job sync_job_status sync_succeeded completion conclude
  with_job-completes secret job t s current succeeded finished unchecked =
      let same_name = (==_iff job.name (expected_job_name H u)).1 current in
      let nothing : is_empty (post_metrics C F r u) ≡ true = ground arith in
      rw (same_name, succeeded, finished, nothing) refl
