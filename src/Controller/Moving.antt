-- ===== src/Controller/Moving.antt =====
-- controllers/dbupgrade_controller.go: against a server that keeps Jobs, the
-- creation and the deletion of a Job move the Jobs of every object as the life cycle allows.
use automatic_db_upgrades.Common.{
  String, true, ◌==◌, Option, none, some, List, [], ◌∷◌, ◌≡◌, ◌≢◌, refl, sym, subst, arith,
  Bool-cases, ==-eq-false, inl, inr, is_none,
}
use automatic_db_upgrades.Kube.Objects.{Secret, Job}
use automatic_db_upgrades.Kube.Cluster.{Cluster}
use automatic_db_upgrades.Kube.Monad.{M, State, Outcome, done, panic, ◌>>=◌, and_then}
use automatic_db_upgrades.Kube.Calm.{KeepsView, Steady}
use automatic_db_upgrades.Api.Types.{DbUpgrade}
use automatic_db_upgrades.Checks.Version.{Semver}
use automatic_db_upgrades.Checks.Values.{Floats}
use automatic_db_upgrades.Controller.Result.{Settings, ReconcileResult, Reconciler}
use automatic_db_upgrades.Controller.Jobs.{
  Hashing, owns, compute_spec_hash, migration_job, is_job_running, create_migration_job,
}
use automatic_db_upgrades.Controller.PreChecks.{run_pre_checks}
use automatic_db_upgrades.Controller.Reconcile.{
  expected_job_name, replace_job, create_job, after_checks, start_migration, with_job,
}
use automatic_db_upgrades.Controller.CalmChecks.{run_pre_checks-Steady, sync_job_status-Steady}
use automatic_db_upgrades.Controller.Lifecycle.{
  Inserted, Inserted-nil, Move, stay, start, drop, Move-of_eq,
}
use automatic_db_upgrades.Controller.JobStore.{JobStore, owned}

-- The object that a namespace and a UID name.
pub record IsObject (u : DbUpgrade) (namespace uid : String) : Type 0 where
  pub same_namespace : namespace ≡ u.namespace
  pub same_uid : uid ≡ u.uid

module _ (C : Cluster) (V : Semver) (F : Floats) (H : Hashing) (r : Reconciler C) (K : JobStore C)
    (u : DbUpgrade) (namespace uid : String) where
  abbrev pub names : C.World → List String
  names w = owned uid (K.jobs namespace w)

  abbrev pub calm : KeepsView C names
  calm = K.calm namespace uid

  abbrev pub Allowed : List String → List String → Type 0
  Allowed = Move (IsObject u namespace uid) (expected_job_name H u)

  -- From a state where `P` holds of the object's Jobs, the code makes an allowed move.
  abbrev pub Leads : {A : Type 0} → (List String → Type 0) → M C.World A → Type 0
  Leads P m =
      (s : State C.World) → P (names s.world) → Allowed (names s.world) (names (m s).1.world)

  abbrev pub Anything : List String → Type 0
  Anything _ = Unit

  pub shift :
      {js before after : List String} → before ≡ js → Allowed before after → Allowed js after
  shift {after} e move = subst (λ old. Allowed old after) e move

  Moves-and_then :
      {A B : Type 0} (P : List String → Type 0) (js : List String) (o : Outcome A × State C.World)
      (f : A → M C.World B)
      → names o.1.world ≡ js
      → P js
      → ((a : A) → Leads P (f a))
      → Allowed js (names (and_then o f).1.world)
  Moves-and_then P js (done a, s) f e p next = shift e (next a s (subst P (sym e) p))
  Moves-and_then P js (panic, s) f e p next = Move-of_eq e

  pub Moves-bind :
      {A B : Type 0} (P : List String → Type 0) (m : M C.World A) (f : A → M C.World B)
      → Steady names m
      → ((a : A) → Leads P (f a))
      → Leads P (m >>= f)
  Moves-bind P m f steady next s p = Moves-and_then P (names s.world) (m s) f (steady s) p next

  replace_job-Moves :
      (job : Job) → job.name ≢ expected_job_name H u → Leads Anything (replace_job C V F H r u job)
  unfolding replace_job
  replace_job-Moves job other s p = elim (Bool-cases (is_job_running (some job))) [
    | inl running ↦ rw running stay
    | inr idle ↦ rw idle (elim (K.deleted job namespace uid s.world) [
      | inl same ↦ Move-of_eq same
      | inr gone ↦ drop job.name other gone
    ])
  ]

  IsObject-created :
      (settings : Settings) (secret hash : String)
      → let job = migration_job settings u secret hash in
        namespace ≡ job.namespace → owns uid job.owners ≡ true → IsObject u namespace uid
  unfolding migration_job owns
  IsObject-created settings secret hash placed owner = record {
    same_namespace = placed;
    same_uid = ground arith;
  }

  -- The object itself owns no Job; of others nothing is said.
  abbrev pub IsFree : List String → Type 0
  IsFree js = IsObject u namespace uid → js ≡ []

  started :
      (own : IsObject u namespace uid) {old new : List String}
      → old ≡ []
      → Inserted (expected_job_name H u) old new
      → Allowed old new
  started own {old} {new} e added =
      let first : new ≡ expected_job_name H u ∷ [] = Inserted-nil (rw e at added) in
      rw (e, first) (start own)

  create_job-Moves : (secret : Secret) → Leads IsFree (create_job C V F H r u secret)
  unfolding create_job create_migration_job migration_job
  create_job-Moves secret s free =
      let hash = compute_spec_hash H u.spec in
      let job = migration_job r.settings u secret.name hash in
      elim (K.created job namespace uid s.world) [
        | inl same ↦ Move-of_eq same
        | inr (placed, owner, added) ↦
            let own = IsObject-created r.settings secret.name hash placed owner in
            started own (free own) added
      ]

  after_checks-Moves :
      (secret : Secret) (pre : ReconcileResult) → Leads IsFree (after_checks C V F H r u secret pre)
  unfolding after_checks
  after_checks-Moves secret pre = elim (Bool-cases pre.ready) [
    | inl e ↦ rw (after_checks, e) (create_job-Moves secret)
    | inr e ↦ rw (after_checks, e) (λ s p. stay)
  ]

  start_migration-Moves : (secret : Secret) → Leads IsFree (start_migration C V F H r u secret)
  unfolding start_migration
  start_migration-Moves secret = elim (Bool-cases (is_none u.spec.checks)) [
    | inl e ↦ rw e (create_job-Moves secret)
    | inr e ↦ rw e (
        Moves-bind IsFree (run_pre_checks C V F r u) (after_checks C V F H r u secret)
          (run_pre_checks-Steady C names calm V F r u) (after_checks-Moves secret))
  ]

  pub with_job-Moves :
      (secret : Secret) (found : Option Job)
      → Leads (λ js. found ≡ none → IsFree js) (with_job C V F H r u secret found)
  unfolding with_job
  with_job-Moves secret none = λ s free. start_migration-Moves secret s (free refl)
  with_job-Moves secret (some job) = elim (Bool-cases (job.name == expected_job_name H u)) [
    | inl current ↦
        rw (with_job, current)
          (λ s _. Move-of_eq (sync_job_status-Steady C names calm V F r u job s))
    | inr other ↦ rw (with_job, other) (λ s _. replace_job-Moves job (==-eq-false _ _ other) s tt)
  ]
