-- ===== src/Controller/Willing.antt =====
-- controllers/dbupgrade_controller.go: what follows ensureMigrationSecret against a server that
-- keeps Jobs and refuses nothing. Without a Job it starts one if the pre-checks pass, and it drops
-- a Job of another spec.
use mathlib.Core.List.{Memᴰ}
use mathlib.Core.List.Memᴰ as Memᴰ
use automatic_db_upgrades.Common.{
  All, String, true, false, Option, none, some, List, [], ◌∷◌, ◌≡◌, ◌≢◌, inl, inr, refl, sym, subst,
  ◌∙◌, arith, ==_of_ne, ◌==◌, Option-cases,
}
use automatic_db_upgrades.Kube.Objects.{Secret, Job}
use automatic_db_upgrades.Kube.Meta.{ok}
use automatic_db_upgrades.Kube.Cluster.{Cluster}
use automatic_db_upgrades.Kube.Monad.{State}
use automatic_db_upgrades.Api.Types.{DbUpgrade}
use automatic_db_upgrades.Checks.Version.{Semver}
use automatic_db_upgrades.Checks.Values.{Floats}
use automatic_db_upgrades.Controller.Result.{Reconciler}
use automatic_db_upgrades.Controller.Jobs.{
  Hashing, find_job, owns, is_job_running, get_job_for_upgrade, migration_job, create_migration_job,
  compute_spec_hash,
}
use automatic_db_upgrades.Controller.CalmChecks.{run_pre_checks-Steady}
use automatic_db_upgrades.Controller.Open.{ChecksPass, start_migration-open}
use automatic_db_upgrades.Controller.Reconcile.{
  expected_job_name, create_job, start_migration, with_job, with_found, with_secret, replace_job,
}
use automatic_db_upgrades.Controller.Lifecycle.{Inserted, Inserted-nil, dropped}
use automatic_db_upgrades.Controller.JobStore.{
  JobStore, owned, owned-find_job, Memᴰ-find_job, find_job-eq-none,
}
use automatic_db_upgrades.Controller.Given.{GivesSecrets}
use automatic_db_upgrades.Controller.Lookup.{owns-migration_job}
use automatic_db_upgrades.Controller.Runs.{jobs_of}

module _ (C : Cluster) (H : Hashing) (K : JobStore C) (u : DbUpgrade) where
  abbrev pub names : C.World → List String
  names = jobs_of C K u.namespace u.uid

  -- No Job of the object's namespace has that name.
  abbrev pub IsFreeName : String → C.World → Type 0
  IsFreeName n w = All (λ j. j.name ≢ n) (K.jobs u.namespace w)

  -- A server that refuses nothing that can be done for the object, whose Jobs do not run any more: it
  -- adds a Job where none has its name, and removes one that is there. A Job of another owner does not
  -- have the name of the object's Job.
  pub record IsWilling (name : String) (customer : Secret) : Type 0 where
    pub secrets : GivesSecrets C u name customer
    pub lists : (w : C.World) → (js : List Job) × ((C.list_jobs u.namespace w).0 ≡ ok js)
    pub idle :
        (w : C.World) (js : List Job) (job : Job)
        → (C.list_jobs u.namespace w).0 ≡ ok js
        → find_job u.uid js ≡ some job
        → is_job_running (some job) ≡ false
    pub ours : (w : C.World) → names w ≡ [] → IsFreeName (expected_job_name H u) w
    pub adds :
        (job : Job) (w : C.World)
        → job.namespace ≡ u.namespace
        → owns u.uid job.owners ≡ true
        → IsFreeName job.name w
        → ((C.create_job job w).0 ≡ none)
          × Inserted job.name (names w) (names (C.create_job job w).1)
    pub removes :
        (job : Job) (w : C.World)
        → Memᴰ job.name (names w)
        → ((C.delete_job job w).0 ≡ none)
          × Inserted job.name (names (C.delete_job job w).1) (names w)

the_only : {x n : String} → Memᴰ x (n ∷ []) → x ≡ n
the_only (Memᴰ.head e) = e
the_only (Memᴰ.tail m) = absurd (Memᴰ.not-nil m)

module _ (C : Cluster) (V : Semver) (F : Floats) (H : Hashing) (r : Reconciler C) (K : JobStore C)
    (u : DbUpgrade) (name : String) (customer : Secret)
    (willing : IsWilling C H K u name customer) where
  abbrev pub jobs : C.World → List String
  jobs = names C H K u

  create_job-starts :
      (one : Secret) (s : State C.World)
      → jobs s.world ≡ []
      → jobs (create_job C V F H r u one s).1.world ≡ expected_job_name H u ∷ []
  unfolding create_job create_migration_job migration_job
  create_job-starts one s e =
      let job = migration_job r.settings u one.name (compute_spec_hash H u.spec) in
      let (_, added) =
        willing.adds job s.world refl
          (owns-migration_job r.settings u one.name (compute_spec_hash H u.spec))
          (willing.ours s.world e) in
      Inserted-nil (rw e at added)

  start_migration-starts :
      (one : Secret) (s : State C.World)
      → ChecksPass C V F H r u
      → jobs s.world ≡ []
      → jobs (start_migration C V F H r u one s).1.world ≡ expected_job_name H u ∷ []
  start_migration-starts one s pass e = elim (start_migration-open C V F H r u one s pass) [
    | inl free ↦ rw free (create_job-starts one s e)
    | inr checked ↦
        let calm = run_pre_checks-Steady C jobs (K.calm u.namespace u.uid) V F r u s in
        rw checked (create_job-starts one _ (calm ∙ e))
  ]

  replace_job-drops :
      (job : Job) (n : String) (s : State C.World)
      → is_job_running (some job) ≡ false
      → jobs s.world ≡ n ∷ []
      → Memᴰ job.name (jobs s.world)
      → jobs (replace_job C V F H r u job s).1.world ≡ []
  unfolding replace_job
  replace_job-drops job n s idle only there =
      let (_, gone) = willing.removes job s.world there in
      rw (replace_job, idle) (dropped (rw only (omega arith)) gone).0

  with_job-starts :
      (one : Secret) (found : Option Job) (s : State C.World)
      → ChecksPass C V F H r u
      → found ≡ none
      → jobs s.world ≡ []
      → jobs (with_job C V F H r u one found s).1.world ≡ expected_job_name H u ∷ []
  unfolding with_job
  with_job-starts one none s pass _ e = start_migration-starts one s pass e
  with_job-starts one (some job) s pass e _ = cc

  with_job-drops :
      (one : Secret) (job : Job) (n : String) (s : State C.World)
      → n ≢ expected_job_name H u
      → is_job_running (some job) ≡ false
      → jobs s.world ≡ n ∷ []
      → Memᴰ job.name (jobs s.world)
      → jobs (with_job C V F H r u one (some job) s).1.world ≡ []
  unfolding with_job
  with_job-drops one job n s stale idle only there =
      let same = the_only (subst (Memᴰ job.name) only there) in
      let other : (job.name == expected_job_name H u) ≡ false =
        ==_of_ne _ _ (λ e. stale (sym same ∙ e)) in
      rw (with_job, other) (replace_job-drops job n s idle only there)

  -- The search, and what follows if it gives no Job.
  pub with_secret-starts :
      (one : Secret) (s : State C.World)
      → ChecksPass C V F H r u
      → jobs s.world ≡ []
      → jobs (with_secret C V F H r u (ok one) s).1.world ≡ expected_job_name H u ∷ []
  unfolding with_secret get_job_for_upgrade with_found
  with_secret-starts one s pass e =
      let (js, answer) = willing.lists s.world in
      let none_owned = K.listed u.namespace u.uid s.world js answer ∙ e in
      rw (with_secret, answer)
        (with_job-starts one (find_job u.uid js) _ pass (find_job-eq-none u.uid js none_owned)
          ((K.calm u.namespace u.uid).list_jobs u.namespace s.world ∙ e))

  pub with_secret-drops :
      (one : Secret) (n : String) (s : State C.World)
      → n ≢ expected_job_name H u
      → jobs s.world ≡ n ∷ []
      → jobs (with_secret C V F H r u (ok one) s).1.world ≡ []
  unfolding with_secret get_job_for_upgrade with_found
  with_secret-drops one n s stale e =
      let (js, answer) = willing.lists s.world in
      let only : owned u.uid js ≡ n ∷ [] = K.listed u.namespace u.uid s.world js answer ∙ e in
      let after = (K.calm u.namespace u.uid).list_jobs u.namespace s.world ∙ e in
      elim (Option-cases (find_job u.uid js)) [
        | inl absent ↦ cc (owned-find_job u.uid js absent, only)
        | inr (job, found) ↦
            let there : Memᴰ job.name (n ∷ []) =
              subst (Memᴰ job.name) only (Memᴰ-find_job u.uid js job found) in
            rw (with_secret, answer)
              (rw found (
                with_job-drops one job n _ stale (willing.idle s.world js job answer found) after
                  (subst (Memᴰ job.name) (sym after) there)))
      ]
