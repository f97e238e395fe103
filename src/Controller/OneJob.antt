-- ===== src/Controller/OneJob.antt =====
-- controllers/dbupgrade_controller.go: how many Jobs one reconcile creates or deletes.
use automatic_db_upgrades.Common.{
  Option, ℕ, ◌+◌, ◌≤◌, String, some, List, [], ◌∷◌, ◌≡◌, inl, inr, refl, arith, All, Bool-cases,
  is_none,
}
use automatic_db_upgrades.Kube.Objects.{Secret, Job}
use automatic_db_upgrades.Kube.Meta.{ApiError, ok, Result-cases}
use automatic_db_upgrades.Kube.Cluster.{Cluster}
use automatic_db_upgrades.Kube.Monad.{
  Write, created_job, deleted_job, State, Outcome, done, panic, M, ◌>>=◌, and_then, Holds,
}
use automatic_db_upgrades.Kube.Writes.{Writes, Holds-state}
use automatic_db_upgrades.Api.Types.{DbUpgrade}
use automatic_db_upgrades.Checks.Version.{Semver}
use automatic_db_upgrades.Checks.Values.{Floats}
use automatic_db_upgrades.Controller.Result.{ReconcileResult, Reconciler}
use automatic_db_upgrades.Controller.Jobs.{Hashing, is_job_running, create_migration_job}
use automatic_db_upgrades.Controller.PreChecks.{run_pre_checks}
use automatic_db_upgrades.Controller.PostChecks.{sync_job_status}
use automatic_db_upgrades.Controller.Reconcile.{
  replace_job, create_job, after_checks, start_migration, Reconciled, reconcile_upgrade, finish,
  with_upgrade, reconcile,
}
use automatic_db_upgrades.Controller.Outcomes.{run_pre_checks-Writes, sync_job_status-Writes}
use automatic_db_upgrades.Controller.Walk.{IsStable, reconcile_upgrade-Good}
use automatic_db_upgrades.Controller.Answers.{finish-IsOrdered, IsSent}

-- Whether a write creates or deletes a Job, as a number.
abbrev touches_job : Write → ℕ
touches_job (created_job _) = 1
touches_job (deleted_job _) = 1
touches_job _ = 0

unfoldable pub job_writes : List Write → ℕ
job_writes [] = 0
job_writes (e ∷ trace) = touches_job e + job_writes trace

abbrev IsQuiet : Write → Type 0
IsQuiet e = touches_job e ≡ 0

job_writes_quiet : (trace : List Write) → All IsQuiet trace → job_writes trace ≡ 0
unfolding job_writes
job_writes_quiet [] h = refl
job_writes_quiet (e ∷ trace) (q, h) = ground (arith, job_writes_quiet trace h)

-- After quiet writes, a run of this code touches at most one Job.
abbrev Once : {W A : Type 0} → M W A → Type 0
Once {W} m = (s : State W) → All IsQuiet s.trace → job_writes (m s).1.trace ≤ 1

Once-of_quiet : {W A : Type 0} (Q : A → Type 0) (m : M W A) → Writes Unit IsQuiet m Q → Once m
Once-of_quiet Q m quiet s h =
    let after =
      job_writes_quiet (m s).1.trace (Holds-state (λ t. All IsQuiet t.trace) Q (m s) (quiet s h)) in
    omega arith

Once-and_then :
    {W A B : Type 0} (Q : A → Type 0) (o : Outcome A × State W) (f : A → M W B)
    → Holds (Unit {0}) (λ s. All IsQuiet s.trace) Q o
    → ((a : A) → Q a → Once (f a))
    → job_writes (and_then o f).1.trace ≤ 1
Once-and_then Q (done a, s) f h next = next a h.1 s h.0
Once-and_then Q (panic, s) f h next = let after = job_writes_quiet s.trace h.0 in omega arith

Once-bind :
    {W A B : Type 0} (Q : A → Type 0) (m : M W A) (f : A → M W B)
    → Writes Unit IsQuiet m Q
    → ((a : A) → Q a → Once (f a))
    → Once (m >>= f)
Once-bind Q m f quiet next s h = Once-and_then Q (m s) f (quiet s h) next

module _ (C : Cluster) (V : Semver) (F : Floats) (H : Hashing) (r : Reconciler C)
    (u : DbUpgrade) where
  replace_job-Once : (job : Job) → Once (replace_job C V F H r u job)
  unfolding replace_job job_writes
  replace_job-Once job s h =
      let before = job_writes_quiet s.trace h in
      elim (Bool-cases (is_job_running (some job))) [
        | inl e ↦ rw e (omega arith)
        | inr e ↦ rw e (omega arith)
      ]

  create_job-Once : (secret : Secret) → Once (create_job C V F H r u secret)
  unfolding create_job create_migration_job job_writes
  create_job-Once secret s h = let before = job_writes_quiet s.trace h in omega arith

  after_checks-Once :
      (secret : Secret) (pre : ReconcileResult) → Once (after_checks C V F H r u secret pre)
  unfolding after_checks
  after_checks-Once secret pre = elim (Bool-cases pre.ready) [
    | inl e ↦ rw (after_checks, e) (create_job-Once secret)
    | inr e ↦ rw (after_checks, e) (λ s h. let before = job_writes_quiet s.trace h in omega arith)
  ]

  start_migration-Once : (secret : Secret) → Once (start_migration C V F H r u secret)
  unfolding start_migration
  start_migration-Once secret = elim (Bool-cases (is_none u.spec.checks)) [
    | inl e ↦ rw e (create_job-Once secret)
    | inr e ↦ rw e (
        Once-bind _ (run_pre_checks C V F r u) (after_checks C V F H r u secret)
          (run_pre_checks-Writes C Unit IsQuiet V F r u) (λ pre _. after_checks-Once secret pre))
  ]

  Once-IsStable : IsStable {W = C.World} IsQuiet Once
  Once-IsStable = record {
    creates = λ secret. refl;
    updates = λ secret. refl;
    returns = λ result s h. let before = job_writes_quiet s.trace h in omega arith;
    follows = λ Q m f. Once-bind Q m f;
  }

  reconcile_upgrade-Once : Once (reconcile_upgrade C V F H r u)
  reconcile_upgrade-Once =
      reconcile_upgrade-Good C V F H r u IsQuiet Once Once-IsStable start_migration-Once
        replace_job-Once
        (λ job.
          Once-of_quiet _ (sync_job_status C F r u (some job))
            (sync_job_status-Writes C Unit IsQuiet V F r u job))

  finish_quiet :
      (result : ReconcileResult) (sent : DbUpgrade) (answer : Option ApiError)
      (before after : List Write) (out : Reconciled)
      → IsSent C V F H r u result sent answer before after out
      → job_writes after ≡ job_writes before
  unfolding job_writes
  finish_quiet result u' answer before after out (inl (_, _, sent, _)) = rw sent (omega arith)
  finish_quiet result u' answer before after out (inr (inl (_, _, sent, _))) = rw sent (omega arith)
  finish_quiet result u' answer before after out (inr (inr (_, _, _, _, _, sent, _))) =
      rw sent (omega arith)

  and_then-finish :
      (o : Outcome ReconcileResult × State C.World)
      → job_writes o.1.trace ≤ 1
      → job_writes (and_then o (finish C V F H r u)).1.trace ≤ 1
  and_then-finish (panic, s) h = h
  and_then-finish (done result, s) h =
      let (out, _, (sent, t, _, ordered)) = finish-IsOrdered C V F H r u result s in
      let same_count =
        finish_quiet result sent (C.update_status sent t.world).0 s.trace
          (finish C V F H r u result s).1.trace out ordered in
      omega arith

  with_upgrade-Once : Once (with_upgrade C V F H r (ok u))
  unfolding with_upgrade
  with_upgrade-Once s h =
      and_then-finish (reconcile_upgrade C V F H r u s) (reconcile_upgrade-Once s h)

-- One call of Reconcile creates or deletes at most one Job, whatever the cluster answers.
pub reconcile-job_writes :
    (C : Cluster) (V : Semver) (F : Floats) (H : Hashing) (r : Reconciler C)
    (namespace name : String) (w : C.World)
    → job_writes (reconcile C V F H r namespace name (record { world = w; trace = [] })).1.trace ≤ 1
unfolding reconcile with_upgrade job_writes
reconcile-job_writes C V F H r namespace name w =
    elim (Result-cases (C.get_upgrade namespace name w).0) [
      | inl (e, failed) ↦ rw failed (omega arith)
      | inr (u, found) ↦ rw found (
          with_upgrade-Once C V F H r u
            (record { world = (C.get_upgrade namespace name w).1; trace = [] }) tt)
    ]
