-- ===== src/Controller/JobStore.antt =====
-- controllers/dbupgrade_controller.go, getJobForDBUpgrade and createMigrationJob against a server
-- that keeps Jobs. The server is not code of the repository; this is what its documentation says.
use mathlib.Core.List.{Memᴰ}
use mathlib.Core.List.Memᴰ as Memᴰ
use automatic_db_upgrades.Common.{
  Option-cases, subst, Bool-cases, inl, inr, ap, sym, some, String, true, none, List, [], ◌∷◌, ◌≡◌,
  ◌⊎◌, if◌then◌else◌, arith, refl,
}
use automatic_db_upgrades.Kube.Objects.{Job}
use automatic_db_upgrades.Kube.Meta.{ok}
use automatic_db_upgrades.Kube.Cluster.{Cluster}
use automatic_db_upgrades.Kube.Calm.{KeepsView}
use automatic_db_upgrades.Controller.Jobs.{owns, find_job}
use automatic_db_upgrades.Controller.Lifecycle.{Inserted}

-- The names of the Jobs that have an owner of that UID.
unfoldable pub owned : String → List Job → List String
owned uid [] = []
owned uid (job ∷ jobs) =
    let rest = owned uid jobs in if owns uid job.owners then job.name ∷ rest else rest

pub record JobStore (C : Cluster) : Type 0 where
  -- the Jobs of a namespace
  pub jobs : String → C.World → List Job
  -- only a creation or a deletion changes which Jobs an object owns; their states may change at any
  -- time
  pub calm : (namespace uid : String) → KeepsView C (λ w. owned uid (jobs namespace w))
  -- a list holds the Jobs that there are
  pub listed :
      (namespace uid : String) (w : C.World) (js : List Job)
      → (C.list_jobs namespace w).0 ≡ ok js
      → owned uid js ≡ owned uid (jobs namespace w)
  -- a creation adds that Job to its namespace or does nothing, whatever its answer says
  pub created :
      (job : Job) (namespace uid : String) (w : C.World)
      → let before = owned uid (jobs namespace w) in
        let after = owned uid (jobs namespace (C.create_job job w).1) in
        (after ≡ before)
        ⊎ ((namespace ≡ job.namespace)
            × (owns uid job.owners ≡ true)
            × Inserted job.name before after)
  -- a deletion removes that Job or does nothing, whatever its answer says
  pub deleted :
      (job : Job) (namespace uid : String) (w : C.World)
      → let before = owned uid (jobs namespace w) in
        let after = owned uid (jobs namespace (C.delete_job job w).1) in
        (after ≡ before) ⊎ Inserted job.name after before

-- Where the search finds no Job, the object owns none.
pub owned-find_job :
    (uid : String) (jobs : List Job) → find_job uid jobs ≡ none → owned uid jobs ≡ []
unfolding owned find_job
owned-find_job uid [] e = refl
owned-find_job uid (job ∷ jobs) e = ground (arith, owned-find_job uid jobs)

some-injective : {a b : Job} → some a ≡ some b → a ≡ b
some-injective e = cc

-- A Job that the search finds is one that the object owns.
pub Memᴰ-find_job :
    (uid : String) (jobs : List Job) (job : Job)
    → find_job uid jobs ≡ some job
    → Memᴰ job.name (owned uid jobs)
unfolding owned find_job
Memᴰ-find_job uid [] job e = cc
Memᴰ-find_job uid (j ∷ jobs) job e = elim (Bool-cases (owns uid j.owners)) [
  | inl own ↦ rw own (Memᴰ.head (ap (λ j. j.name) (some-injective (sym (rw own at e)))))
  | inr foreign ↦ rw foreign (Memᴰ-find_job uid jobs job (rw foreign at e))
]

-- Where the object owns no Job, the search finds none.
pub find_job-eq-none :
    (uid : String) (jobs : List Job) → owned uid jobs ≡ [] → find_job uid jobs ≡ none
find_job-eq-none uid jobs e = elim (Option-cases (find_job uid jobs)) [
  | inl absent ↦ absent
  | inr (job, found) ↦
      absurd (Memᴰ.not-nil (subst (Memᴰ job.name) e (Memᴰ-find_job uid jobs job found)))
]
