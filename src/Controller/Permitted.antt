-- ===== src/Controller/Permitted.antt =====
-- Which writes a reconcile of one DBUpgrade may send, and what a ready result rests on.
use automatic_db_upgrades.Common.{true, false, some, List, ◌≡◌, ◌≢◌, pos}
use automatic_db_upgrades.Kube.Objects.{Job, Secret}
use automatic_db_upgrades.Kube.Meta.{ok}
use automatic_db_upgrades.Kube.Cluster.{Cluster}
use automatic_db_upgrades.Kube.Monad.{
  Write, created_secret, updated_secret, created_job, deleted_job, created_event, updated_status,
}
use automatic_db_upgrades.Api.Types.{DbUpgrade}
use automatic_db_upgrades.Controller.Jobs.{
  Hashing, find_job, owns, is_job_running, is_job_succeeded,
}
use automatic_db_upgrades.Controller.Secrets.{secret_name}
use automatic_db_upgrades.Controller.Reconcile.{expected_job_name}

-- The Job is the one that the search finds in a list that the server gave.
pub record Listed (C : Cluster) (u : DbUpgrade) (job : Job) : Type 0 where
  pub world : C.World
  pub jobs : List Job
  pub answer : (C.list_jobs u.namespace world).0 ≡ ok jobs
  pub found : find_job u.uid jobs ≡ some job

-- The Secret is an answer of the server.
pub record Fetched (C : Cluster) (u : DbUpgrade) (secret : Secret) : Type 0 where
  pub world : C.World
  pub answer : (C.get_secret u.namespace (secret_name u.name) world).0 ≡ ok secret

module _ (C : Cluster) (H : Hashing) (u : DbUpgrade) where
  -- A deleted Job is not running, belongs to the object, and is not the Job of its current spec; a
  -- created Job is that one, is owned by the object and is never retried. The operator's Secret has
  -- the object's name, an event is about the object, and a status update keeps all but the status.
  abbrev pub Permitted : Write → Type 0
  Permitted (deleted_job job) =
      (is_job_running (some job) ≡ false) × (job.name ≢ expected_job_name H u) × Listed C u job
  Permitted (created_job job) =
      (job.name ≡ expected_job_name H u)
      × (job.namespace ≡ u.namespace)
      × (owns u.uid job.owners ≡ true)
      × (job.spec.backoff_limit ≡ some (pos 0))
  Permitted (created_secret secret) =
      (secret.name ≡ secret_name u.name) × (secret.namespace ≡ u.namespace)
  Permitted (updated_secret secret) =
      (before : Secret) × Fetched C u before
      × (secret ≡ record before { contents = secret.contents })
  Permitted (created_event event) = (event.object_uid ≡ u.uid) × (event.namespace ≡ u.namespace)
  Permitted (updated_status after) =
      (after ≡ record u { status = after.status })
      × (after.status.observed_generation ≡ u.generation)

  -- The Job of the current spec was found, and it has succeeded.
  pub record IsMigrated : Type 0 where
    pub job : Job
    pub listed : Listed C u job
    pub current : job.name ≡ expected_job_name H u
    pub succeeded : is_job_succeeded (some job) ≡ true
