-- ===== src/Controller/Promise.antt =====
-- What the result of a reconcile promises to the status and to the work queue, as a predicate.
use automatic_db_upgrades.Common.{◌≡◌, ◌⊎◌, true, false, pos, ◌<ℤ◌}
use automatic_db_upgrades.Api.Conditions.{
  job_failed_reason, aws_not_supported, post_check_bake_time_waiting, migration_in_progress,
  job_pending, migration_complete,
}
use automatic_db_upgrades.Controller.Result.{ReconcileResult}

-- The object is queued again, or its state needs a change by the user, or it waits for the bake time.
abbrev pub IsFollowed : ReconcileResult → Type 0
IsFollowed r =
    (pos 0 <ℤ r.requeue_after)
    ⊎ (r.progress_reason ≡ job_failed_reason)
    ⊎ (r.progress_reason ≡ aws_not_supported)
    ⊎ (r.progress_reason ≡ post_check_bake_time_waiting)

-- `Evidence` is what a result with `ready: true` shows.
pub record Keeps (Evidence : Type 0) (r : ReconcileResult) : Type 0 where
  pub on_ready : r.ready ≡ true → Evidence
  pub on_complete : r.ready ≡ true → (r.progressing ≡ false) × (r.ready_reason ≡ migration_complete)
  pub on_wait : r.ready ≡ false → IsFollowed r
  pub on_progress :
      r.progressing ≡ true
      → (r.progress_reason ≡ migration_in_progress)
        ⊎ (r.progress_reason ≡ job_pending)
        ⊎ (r.progress_reason ≡ post_check_bake_time_waiting)
