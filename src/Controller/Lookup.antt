-- ===== src/Controller/Lookup.antt =====
-- The search for the Job of an object.
use automatic_db_upgrades.Common.{
  String, true, false, none, some, List, [], ◌∷◌, ◌++◌, ◌≡◌, ◌↔◌, refl, All, arith, Bool-cases, inl,
  inr, ==_refl,
}
use automatic_db_upgrades.Kube.Objects.{Job}
use automatic_db_upgrades.Api.Types.{DbUpgrade}
use automatic_db_upgrades.Controller.Result.{Settings}
use automatic_db_upgrades.Controller.Jobs.{owns, find_job, migration_job}

abbrev pub AreForeign : String → List Job → Type 0
AreForeign uid jobs = All (λ job. owns uid job.owners ≡ false) jobs

-- The search fails exactly if no Job is owned by the object.
pub find_job-eq-none_iff :
    (uid : String) (jobs : List Job) → (find_job uid jobs ≡ none) ↔ AreForeign uid jobs
unfolding find_job
find_job-eq-none_iff uid [] = (λ _. tt, λ _. refl)
find_job-eq-none_iff uid (job ∷ jobs) = ground (arith, find_job-eq-none_iff uid jobs)

-- A Job that the search finds is owned by the object, and those before it are not.
pub find_job-eq-some :
    (uid : String) (jobs : List Job) (job : Job)
    → find_job uid jobs ≡ some job
    → (owns uid job.owners ≡ true)
      × (before after : List Job) × (jobs ≡ before ++ job ∷ after)
      × AreForeign uid before
unfolding find_job
find_job-eq-some uid [] job e = cc
find_job-eq-some uid (j ∷ jobs) job e = elim (Bool-cases (owns uid j.owners)) [
  | inl owned ↦ let here : j ≡ job = ground arith in (rw (← here) owned, [], jobs, rw here, tt)
  | inr foreign ↦
      let (owned, before, after, split, h) = find_job-eq-some uid jobs job (ground arith) in
      (owned, j ∷ before, after, rw split, (foreign, h))
]

pub owns-migration_job :
    (settings : Settings) (u : DbUpgrade) (secret hash : String)
    → owns u.uid (migration_job settings u secret hash).owners ≡ true
unfolding migration_job owns
owns-migration_job settings u secret hash = rw ==_refl

-- The Job that the operator creates for an object is the one that a later search finds, whatever
-- stands behind it, if none before it is owned by the object.
pub find_job-migration_job :
    (settings : Settings) (u : DbUpgrade) (secret hash : String) (before after : List Job)
    → AreForeign u.uid before
    → let job = migration_job settings u secret hash in
      find_job u.uid (before ++ job ∷ after) ≡ some job
unfolding find_job
find_job-migration_job settings u secret hash [] after h =
    rw (owns-migration_job settings u secret hash)
find_job-migration_job settings u secret hash (job ∷ before) after (foreign, h) =
    rw foreign (find_job-migration_job settings u secret hash before after h)
