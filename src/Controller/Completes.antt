-- ===== src/Controller/Completes.antt =====
-- controllers/dbupgrade_controller.go: a reconcile of an object whose Job has ended, from the fetch
-- of the object to the status update and the work queue.
use automatic_db_upgrades.Common.{
  Bytes, none, ap, pos, String, true, false, some, List, [], ◌∷◌, ◌≡◌, ◌⊎◌, inl, inr, refl, ==_iff,
  ◌<>◌, ◌∙◌,
}
use automatic_db_upgrades.Kube.Objects.{SecretKeySelector, Secret, Job, Time, ClusterEvent}
use automatic_db_upgrades.Api.Conditions.{SetsConditions, job_failed_reason}
use automatic_db_upgrades.Kube.Meta.{ok, ApiError}
use automatic_db_upgrades.Kube.Cluster.{Cluster}
use automatic_db_upgrades.Kube.Monad.{
  State, Outcome, done, panic, Write, updated_status, created_event, and_then,
}
use automatic_db_upgrades.Api.Types.{DbUpgrade}
use automatic_db_upgrades.Checks.Version.{Semver}
use automatic_db_upgrades.Checks.Values.{Floats}
use automatic_db_upgrades.Controller.Result.{
  ReconcileResult, Reconciler, EventInfo, stuck, with_event, event_warning,
}
use automatic_db_upgrades.Controller.Jobs.{
  Hashing, find_job, is_job_succeeded, is_job_failed, get_job_for_upgrade,
}
use automatic_db_upgrades.Controller.PostChecks.{
  post_metrics, migration_complete_result, sync_job_status,
}
use automatic_db_upgrades.Controller.StoredUrl.{IsSupplied}
use automatic_db_upgrades.Controller.Given.{GivesSecrets}
use automatic_db_upgrades.Controller.Begins.{HasUrl, blind, reconcile_upgrade-Begins}
use automatic_db_upgrades.Controller.Reconcile.{
  Reconciled, nothing_more, failed_with, expected_job_name, with_job, with_found, with_secret,
  reconcile_upgrade, finish, with_upgrade, reconcile, requeue,
}
use automatic_db_upgrades.Controller.Liveness.{with_job-completes}
use automatic_db_upgrades.Controller.Answers.{IsReport, finish-IsOrdered, new_status-IsReport}

-- A server that gives the Secret, and lists a Job of the object that is the one of its spec.
pub record HasCurrentJob (C : Cluster) (H : Hashing) (u : DbUpgrade) (name : String)
    (customer : Secret) (job : Job) : Type 0 where
  pub secrets : GivesSecrets C u name customer
  pub jobs : List Job
  pub listed : (w : C.World) → (C.list_jobs u.namespace w).0 ≡ ok jobs
  pub found : find_job u.uid jobs ≡ some job
  pub current : job.name ≡ expected_job_name H u

-- What the result is when a Job has failed.
abbrev pub failed_result : Job → ReconcileResult
failed_result job =
    with_event event_warning "MigrationFailed" "Database migration failed"
      (stuck job_failed_reason "Migration Job failed" ("Job " <> (job.name <> " failed")) (pos 0))

module _ (C : Cluster) (V : Semver) (F : Floats) (H : Hashing) (r : Reconciler C)
    (u : DbUpgrade) where
  -- How a run of `reconcile` has gone that reports a result: the operator's Secret is supplied with the
  -- URL; then the status update shows the result. If the server answers that update, in the world
  -- `w` that it finds, with an error, this error is returned and no event is created; if the server
  -- accepts it, an event of that reason is created and the object is not queued again. Nothing else
  -- is written.
  abbrev pub Reports :
      Bytes → ReconcileResult → String → Outcome Reconciled × State C.World → Type 0
  Reports url result reason o =
      (one : Secret) × (read : State C.World) × (before : List Write) × (after : DbUpgrade)
      × (w : C.World) × (read.trace ≡ [])
      × IsSupplied C u url read one before
      × IsReport C V F H r u result after
      × (((e : ApiError) × ((C.update_status after w).0 ≡ some e)
            × (o.1.trace ≡ updated_status after ∷ before)
            × (o.0 ≡ done (failed_with e)))
          ⊎ ((event : ClusterEvent) × ((C.update_status after w).0 ≡ none)
              × (event.reason ≡ reason)
              × (o.1.trace ≡ created_event event ∷ updated_status after ∷ before)
              × (o.0 ≡ done nothing_more)))

  sync_job_status-fails :
      (job : Job) (s : State C.World)
      → is_job_succeeded (some job) ≡ false
      → is_job_failed (some job) ≡ true
      → sync_job_status C F r u (some job) s ≡ (done (failed_result job), s)
  unfolding sync_job_status
  sync_job_status-fails job s unfinished failed = rw (sync_job_status, unfinished, failed) refl

  done-injective :
      {a b : ReconcileResult} → ◌≡◌ {A = Outcome ReconcileResult} (done a) (done b) → a ≡ b
  done-injective e = cc

  module _ (ref : SecretKeySelector) (customer : Secret) (url : Bytes) (job : Job)
      (server : HasCurrentJob C H u ref.name customer job) (has : HasUrl u ref customer url)
      (result : ReconcileResult) (info : EventInfo) (recorded : result.event ≡ some info)
      (ends : requeue C V F H r result ≡ nothing_more)
      (judged : (one : Secret) (s : State C.World)
        → with_job C V F H r u one (some job) s ≡ (done result, s)) where
    -- The run ends in the result, with these writes.
    abbrev Ends : List Write → Outcome ReconcileResult × State C.World → Type 0
    Ends before o = (o.0 ≡ done result) × (o.1.trace ≡ before)

    with_secret-Ends :
        (one : Secret) (s : State C.World) → Ends s.trace (with_secret C V F H r u (ok one) s)
    unfolding with_secret get_job_for_upgrade with_found
    with_secret-Ends one s =
        let after = record s { world = (C.list_jobs u.namespace s.world).1 } in
        rw (server.listed s.world) (
          rw server.found
            (ap (λ o. o.0) (judged one after), ap (λ o. o.1.trace) (judged one after)))

    reported :
        SetsConditions C
        → (s : State C.World) (one : Secret) (read : State C.World) (before : List Write)
        → read.trace ≡ []
        → IsSupplied C u url read one before
        → s.trace ≡ before
        → Reports url result info.reason (finish C V F H r u result s)
    reported law s one read before silent supplied same =
        let (out, ended, (after, t, written, sent)) = finish-IsOrdered C V F H r u result s in
        let report = new_status-IsReport C V F H r u law result s after (ap (λ o. o.0) written) in
        elim sent [
          | inl (e, answer, trace, failed) ↦ (
            one,
            read,
            before,
            after,
            t.world,
            silent,
            supplied,
            report,
            inl (e, answer, cc (trace, same), rw failed at ended),
          )
          | inr (inl (_, without, _, _)) ↦ cc (without, recorded)
          | inr (inr (own, event, answer, given, reason, trace, queued)) ↦ (
            one,
            read,
            before,
            after,
            t.world,
            silent,
            supplied,
            report,
            inr (
              event,
              answer,
              cc (reason, given, recorded),
              cc (trace, same),
              ended ∙ ap done (queued ∙ ends),
            ),
          )
        ]

    finished :
        SetsConditions C
        → (o : Outcome ReconcileResult × State C.World) (one : Secret) (read : State C.World)
          (before : List Write)
        → read.trace ≡ []
        → IsSupplied C u url read one before
        → Ends before o
        → Reports url result info.reason (and_then o (finish C V F H r u))
    finished law (done other, s) one read before silent supplied (e, same) =
        rw (done-injective e) (reported law s one read before silent supplied same)
    finished law (panic, s) one read before silent supplied (e, _) = cc e

    reconcile-Reports :
        (namespace name : String) (w : C.World)
        → SetsConditions C
        → (C.get_upgrade namespace name w).0 ≡ ok u
        → Reports url result info.reason
            (reconcile C V F H r namespace name (record { world = w; trace = [] }))
    unfolding reconcile with_upgrade
    reconcile-Reports namespace name w law found =
        let s : State C.World = record { world = (C.get_upgrade namespace name w).1; trace = [] } in
        let (one, read, t, silent, supplied, _, begins) =
          reconcile_upgrade-Begins C V F H r u ref customer url server.secrets has (λ _. tt)
            (blind C) s in
        rw found (
          finished law (reconcile_upgrade C V F H r u s) one read t.trace silent supplied
            (rw begins (with_secret-Ends one t)))

  -- A reconcile of an object whose Job of the current spec has succeeded completes the migration, if
  -- it has no post-checks of metrics, its database is self-hosted with a reference to a key of a Secret
  -- that is there, and the server finds that Secret, refuses no write of the operator's, and lists the
  -- Job, which has a completion time: the status update reports the object as ready and no longer
  -- progressing, with that time. Where the server accepts that update, the success is recorded as an
  -- event and the object is not queued again; where it answers with an error, that error is
  -- returned. Before that at most the URL is written, into the operator's Secret.
  pub reconcile-completes :
      (ref : SecretKeySelector) (customer : Secret) (url : Bytes) (job : Job) (t : Time)
      (namespace name : String) (w : C.World)
      → HasCurrentJob C H u ref.name customer job
      → is_job_succeeded (some job) ≡ true
      → job.status.completion_time ≡ some t
      → post_metrics C F r u ≡ []
      → SetsConditions C
      → HasUrl u ref customer url
      → (C.get_upgrade namespace name w).0 ≡ ok u
      → Reports url
          (migration_complete_result C F r job t)
          "MigrationSucceeded"
          (reconcile C V F H r namespace name (record { world = w; trace = [] }))
  reconcile-completes ref customer url job t namespace name w server succeeded completed unmeasured
        law has found =
      reconcile-Reports ref customer url job server has (migration_complete_result C F r job t) _
        refl refl
        (λ one s.
          with_job-completes C V F H r u one job t s server.current succeeded completed unmeasured)
        namespace name w law found

  -- A reconcile of an object whose Job of the current spec has failed reports this, under the same
  -- conditions on the object and the server but with any post-checks: the status update shows that it is
  -- neither ready nor progressing, for the reason of a failed Job. Where the server accepts that update,
  -- the failure is recorded as an event and the object is not queued again; where it answers with an
  -- error, that error is returned. Before that at most the URL is written, into the operator's Secret.
  pub reconcile-fails :
      (ref : SecretKeySelector) (customer : Secret) (url : Bytes) (job : Job)
      (namespace name : String) (w : C.World)
      → HasCurrentJob C H u ref.name customer job
      → is_job_succeeded (some job) ≡ false
      → is_job_failed (some job) ≡ true
      → SetsConditions C
      → HasUrl u ref customer url
      → (C.get_upgrade namespace name w).0 ≡ ok u
      → Reports url
          (failed_result job)
          "MigrationFailed"
          (reconcile C V F H r namespace name (record { world = w; trace = [] }))
  unfolding with_job
  reconcile-fails ref customer url job namespace name w server unfinished failed law has found =
      reconcile-Reports ref customer url job server has (failed_result job) _ refl refl
        (λ one s.
          let same_name = (==_iff job.name (expected_job_name H u)).1 server.current in
          rw (with_job, same_name) (sync_job_status-fails job s unfinished failed))
        namespace name w law found
