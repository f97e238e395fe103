-- ===== src/Controller/Answers.antt =====
-- What the result of the main logic says, and how Reconcile turns it into a status, an event and a
-- place in the work queue.
use automatic_db_upgrades.Common.{
  String, Option, none, some, List, [], ◌∷◌, ◌≡◌, ◌⊎◌, inl, inr, refl, All, arith, if◌then◌else◌,
}
use automatic_db_upgrades.Kube.Objects.{Time, ClusterEvent}
use automatic_db_upgrades.Kube.Meta.{err, ApiError, is_not_found}
use automatic_db_upgrades.Kube.Cluster.{Cluster}
use automatic_db_upgrades.Kube.Monad.{Holds, State, Write, done, updated_status, created_event}
use automatic_db_upgrades.Kube.Writes.{Holds-done}
use automatic_db_upgrades.Api.Types.{DbUpgrade, condition_ready, condition_progressing}
use automatic_db_upgrades.Api.Conditions.{
  Shows, SetsConditions, Shows-find_condition, ready-ne-progressing, reason_text, set_ready,
  set_progressing, set_condition,
}
use automatic_db_upgrades.Checks.Version.{Semver}
use automatic_db_upgrades.Checks.Values.{Floats}
use automatic_db_upgrades.Controller.Result.{ReconcileResult, Reconciler, EventInfo}
use automatic_db_upgrades.Controller.Jobs.{Hashing}
use automatic_db_upgrades.Controller.Reconcile.{
  Reconciled, nothing_more, failed_with, requeue, reconcile_upgrade, new_status, update_status,
  emit, record_event, with_update, finish, with_upgrade, reconcile,
}
use automatic_db_upgrades.Controller.Promise.{Keeps}
use automatic_db_upgrades.Controller.Permitted.{IsMigrated, Permitted}
use automatic_db_upgrades.Controller.Stages.{Good, reconcile_upgrade-Writes}

module _ (C : Cluster) (V : Semver) (F : Floats) (H : Hashing) (r : Reconciler C)
    (u : DbUpgrade) where
  -- Whatever the cluster answers, a result of the main logic keeps its promise. If it is ready, then a
  -- Job that the server listed as owned by `u` bears the name of the current spec and has succeeded,
  -- and the result is not progressing. If it is not ready, it is queued again after a positive time,
  -- or its reason is a failed Job, a missing AWS configuration or the bake time. If it is
  -- progressing, its reason is a running Job, a pending Job or the bake time.
  pub reconcile_upgrade-Keeps :
      (w : C.World) (result : ReconcileResult)
      → (reconcile_upgrade C V F H r u (record { world = w; trace = [] })).0 ≡ done result
      → Keeps (IsMigrated C H u) result
  reconcile_upgrade-Keeps w result =
      Holds-done (λ s. All (Permitted C H u) s.trace) (Good C V F H r Unit u) _ result
        (reconcile_upgrade-Writes C V F H r Unit u (λ _ _ _. tt) (record { world = w; trace = [] })
          tt)

  -- How a status update that sent `after` was followed, by the answer that the server gave to it.
  abbrev pub IsSent :
      ReconcileResult → DbUpgrade → Option ApiError → List Write → List Write → Reconciled → Type 0
  IsSent result after answer before trace out =
      ((e : ApiError) × (answer ≡ some e)
        × (trace ≡ updated_status after ∷ before)
        × (out ≡ failed_with e))
      ⊎ ((answer ≡ none)
          × (result.event ≡ none)
          × (trace ≡ updated_status after ∷ before)
          × (out ≡ requeue C V F H r result))
      ⊎ ((info : EventInfo) × (event : ClusterEvent) × (answer ≡ none)
          × (result.event ≡ some info)
          × (event.reason ≡ info.reason)
          × (trace ≡ created_event event ∷ updated_status after ∷ before)
          × (out ≡ requeue C V F H r result))

  -- How a run of `finish` from `s` with the answer `out` has gone.
  abbrev pub IsOrdered : ReconcileResult → State C.World → List Write → Reconciled → Type 0
  IsOrdered result s trace out =
      (after : DbUpgrade) × (t : State C.World) × (new_status C V F H r u result s
        ≡ (done after, t))
      × IsSent result after (C.update_status after t.world).0 s.trace trace out

  with_update-IsSent :
      (result : ReconcileResult) (answer : Option ApiError) (event : Option EventInfo)
      (after : DbUpgrade) (before : List Write) (w : C.World)
      → result.event ≡ event
      → let s : State C.World = record { world = w; trace = updated_status after ∷ before } in
        (out : Reconciled) × ((with_update C V F H r u result answer s).0 ≡ done out)
        × IsSent result after answer before (with_update C V F H r u result answer s).1.trace out
  unfolding with_update emit record_event
  with_update-IsSent result (some e) event after before w p =
      (failed_with e, refl, inl (e, refl, refl, refl))
  with_update-IsSent result none none after before w p =
      rw (p, emit) (requeue C V F H r result, refl, inr (inl (refl, refl, refl, refl)))
  with_update-IsSent result none (some info) after before w p =
      rw (p, emit)
        (requeue C V F H r result, refl, inr (inr (info, _, refl, refl, refl, refl, refl)))

  -- A run of Reconcile behind the main logic sends one status update, of the object that new_status
  -- gives. If the server answers it with an error, that error is returned, nothing is queued and no
  -- event is created. If the server accepts it, an event follows exactly if the result has one, and
  -- the object is queued for the time of the result.
  pub finish-IsOrdered :
      (result : ReconcileResult) (s : State C.World)
      → (out : Reconciled) × ((finish C V F H r u result s).0 ≡ done out)
        × IsOrdered result s (finish C V F H r u result s).1.trace out
  unfolding finish update_status new_status set_ready set_progressing set_condition
  finish-IsOrdered result s =
      let (out, e, sent) = with_update-IsSent result _ result.event _ s.trace _ refl in
      (out, e, (_, _, refl, sent))

  -- What the object that is sent has to do with the result.
  abbrev pub IsReport : ReconcileResult → DbUpgrade → Type 0
  IsReport result after =
      Shows condition_ready result.ready (reason_text result.ready_reason) result.ready_message
        u.generation after.status.conditions
      × Shows condition_progressing result.progressing (reason_text result.progress_reason)
          result.progress_message u.generation after.status.conditions
      × (after.status.observed_generation ≡ u.generation)
      × ((t : Time) → result.job_completed_at ≡ some t → after.status.job_completed_at ≡ some t)
      × (result.job_completed_at ≡ none → after.status.job_completed_at ≡ u.status.job_completed_at)
      × (after ≡ record u { status = after.status })

  new_status-Holds :
      SetsConditions C
      → (result : ReconcileResult) (s : State C.World)
      → Holds Unit (λ _. Unit) (IsReport result) (new_status C V F H r u result s)
  unfolding new_status set_ready set_progressing set_condition
  new_status-Holds law result s = (
    tt,
    (
      Shows-find_condition (law.keeps _ _ _ condition_ready ready-ne-progressing)
          (law.sets _ _ _ result.ready refl),
      law.sets _ _ _ result.progressing refl,
      refl,
      λ t e. ground arith,
      λ e. ground arith,
      refl,
    ),
  )

  -- The object that the status update sends is `u` but for its status: its generation is observed, the
  -- Ready and the Progressing condition show the result's status, reason and message, and the time
  -- of completion is the result's, or the old one if the result has none.
  pub new_status-IsReport :
      SetsConditions C
      → (result : ReconcileResult) (s : State C.World) (after : DbUpgrade)
      → (new_status C V F H r u result s).0 ≡ done after
      → IsReport result after
  new_status-IsReport law result s after =
      Holds-done (λ _. Unit) (IsReport result) (new_status C V F H r u result s) after
        (new_status-Holds law result s)

  -- An object that is not there is left alone: nothing is written, returned or queued. Any other failure of
  -- the fetch is returned, and nothing is written either.
  pub reconcile_not_fetched :
      (namespace name : String) (w : C.World) (e : ApiError)
      → (C.get_upgrade namespace name w).0 ≡ err e
      → let end = reconcile C V F H r namespace name (record { world = w; trace = [] }) in
        (end.1.trace ≡ []) × (end.0 ≡ done (if is_not_found e then nothing_more else failed_with e))
  unfolding reconcile with_upgrade
  reconcile_not_fetched namespace name w e failed = rw failed (refl, refl)
