-- ===== src/Controller/Bake.antt =====
-- The bake time of the post-checks.
use automatic_db_upgrades.Common.{
  Option, sym, ap, ◌∙◌, ◌+◌, ◌*◌, ℕ, zero, suc, ◌-◌, ◌/◌, ◌≤◌, ◌<◌, true, false, none, some, List,
  [], ◌∷◌, ℤ, pos, ◌≤ℤ◌, ltb_ℤ, ◌-ℤ◌, quot, int32_of_FitsInt32, ◌≡◌, ◌⊎◌, inl, inr, refl, arith,
  All, Bool-cases, if◌then◌else◌,
}
use automatic_db_upgrades.Kube.Objects.{Time}
use automatic_db_upgrades.Kube.Cluster.{Cluster}
use automatic_db_upgrades.Kube.Monad.{State, Outcome, done}
use automatic_db_upgrades.Api.Types.{MetricCheck}
use automatic_db_upgrades.Checks.Values.{Floats}
use automatic_db_upgrades.Controller.Result.{ReconcileResult, Reconciler}
use automatic_db_upgrades.Controller.PostChecks.{
  max_bake_from, max_bake_seconds, elapsed_seconds, bake_waiting, bake,
}

max_bake_from-le : (max : ℤ) (checks : List MetricCheck) → max ≤ℤ max_bake_from max checks
unfolding max_bake_from
max_bake_from-le max [] = omega arith
max_bake_from-le max (check ∷ checks) =
    ground (arith, max_bake_from-le max checks, max_bake_from-le check.bake_seconds checks)

max_bake_from-All :
    (max : ℤ) (checks : List MetricCheck)
    → All (λ check. check.bake_seconds ≤ℤ max_bake_from max checks) checks
unfolding max_bake_from
max_bake_from-All max [] = tt
max_bake_from-All max (check ∷ checks) =
    let next = if ltb_ℤ max check.bake_seconds then check.bake_seconds else max in
    (ground (arith, max_bake_from-le next checks), max_bake_from-All next checks)

-- The bake time is at least that of each check, and at least 0.
pub max_bake_seconds_bounds :
    (checks : List MetricCheck)
    → (pos 0 ≤ℤ max_bake_seconds checks)
      × All (λ check. check.bake_seconds ≤ℤ max_bake_seconds checks) checks
max_bake_seconds_bounds checks = (max_bake_from-le (pos 0) checks, max_bake_from-All (pos 0) checks)

-- Between two times in order, less than 2 ^ 31 seconds apart, the code counts the whole seconds.
elapsed_seconds_lem :
    (now completed : ℕ)
    → completed ≤ now
    → (now - completed) / 1000000000 < 2147483648
    → elapsed_seconds now completed ≡ pos ((now - completed) / 1000000000)
unfolding elapsed_seconds
elapsed_seconds_lem now completed h k =
    let whole : quot (pos now -ℤ pos completed) 1000000000 ≡ pos ((now - completed) / 1000000000) =
      ground arith in
    rw whole (int32_of_FitsInt32 _ (k, omega arith))

-- A wait is not ready, is progressing, and is queued for the seconds that are left.
bake_waiting_lem :
    (max elapsed : ℕ)
    → max < 2147483648
    → elapsed < max
    → let w = bake_waiting (pos max) (pos elapsed) in
      (w.ready ≡ false) × (w.progressing ≡ true) × (w.requeue_after ≡ pos (max - elapsed))
unfolding bake_waiting
bake_waiting_lem max elapsed small h =
    let left : pos max -ℤ pos elapsed ≡ pos (max - elapsed) = ground arith in
    (refl, refl, rw left (int32_of_FitsInt32 _ (omega arith, omega arith)))

done_some-injective :
    {w w' : ReconcileResult}
    → ◌≡◌ {A = Outcome (Option ReconcileResult)} (done (some w)) (done (some w'))
    → w ≡ w'
done_some-injective e = cc

pos_inj : {m n : ℕ} → pos m ≡ pos n → m ≡ n
pos_inj e = cc

module _ (C : Cluster) (F : Floats) (r : Reconciler C) where
  bake_step :
      (max : ℤ) (completed : Time) (s : State C.World)
      → ltb_ℤ (pos 0) max ≡ true
      → (bake C F r max (some completed) s).0
        ≡ done (
            if ltb_ℤ (elapsed_seconds (C.now s.world).0 completed) max
            then some (bake_waiting max (elapsed_seconds (C.now s.world).0 completed))
            else none)
  unfolding bake
  bake_step max completed s h = rw h

  -- If the Job was completed `elapsed` whole seconds ago, the clock runs forward and both times fit an
  -- int32, then the code waits exactly if `elapsed` is less than the bake time. The result is then
  -- not ready, is progressing, and is queued for the seconds that are left.
  pub bake_exact :
      (max : ℕ) (completed : Time) (s : State C.World)
      → max < 2147483648
      → completed ≤ (C.now s.world).0
      → ((C.now s.world).0 - completed) / 1000000000 < 2147483648
      → let elapsed = ((C.now s.world).0 - completed) / 1000000000 in
        ((elapsed < max)
          × (w : ReconcileResult) × ((bake C F r (pos max) (some completed) s).0 ≡ done (some w))
          × ((w.ready ≡ false) × (w.progressing ≡ true) × (w.requeue_after ≡ pos (max - elapsed))))
        ⊎ ((max ≤ elapsed) × ((bake C F r (pos max) (some completed) s).0 ≡ done none))
  unfolding bake
  bake_exact zero completed s small forward fits = inr (omega arith, refl)
  bake_exact (suc m) completed s small forward fits =
      let elapsed = ((C.now s.world).0 - completed) / 1000000000 in
      rw
        (
          bake_step (pos (suc m)) completed s (ground arith),
          elapsed_seconds_lem _ completed forward fits,
        )
        (elim (Bool-cases (ltb_ℤ (pos elapsed) (pos (suc m)))) [
          | inl before ↦
              rw before
                (inl (ground arith, _, refl, bake_waiting_lem (suc m) elapsed small (ground arith)))
          | inr over ↦ rw over (inr (ground arith, refl))
        ])

  bake_asks :
      (max : ℕ) (completed : Time) (s : State C.World) (w : ReconcileResult)
      → max < 2147483648
      → completed ≤ (C.now s.world).0
      → ((C.now s.world).0 - completed) / 1000000000 < 2147483648
      → (bake C F r (pos max) (some completed) s).0 ≡ done (some w)
      → (seconds : ℕ) → w.requeue_after ≡ pos seconds
      → max ≤ ((C.now s.world).0 - completed) / 1000000000 + seconds
  bake_asks max completed s w small forward fits waits seconds asked =
      elim (bake_exact max completed s small forward fits) [
        | inr (over, ends) ↦ cc
        | inl (before, w', waits', (_, _, asked')) ↦
            let same : w ≡ w' = done_some-injective (sym waits ∙ waits') in
            let left : pos seconds ≡ pos (max - ((C.now s.world).0 - completed) / 1000000000) =
              sym asked ∙ (ap (λ w. w.requeue_after) same ∙ asked') in
            omega (arith, pos_inj left)
      ]

  -- If the Job was not completed after an earlier visit, the bake time fits an int32, and so do the
  -- whole seconds from the completion to a later visit, then the wait ends with that visit if it comes no
  -- earlier than the earlier one asks for: if the code waits at the one time, and the clock has run
  -- on by the seconds of that result at the other, then it does not wait there.
  pub bake_ends :
      (max : ℕ) (completed : Time) (s later : State C.World) (w : ReconcileResult)
      → max < 2147483648
      → completed ≤ (C.now s.world).0
      → ((C.now later.world).0 - completed) / 1000000000 < 2147483648
      → (bake C F r (pos max) (some completed) s).0 ≡ done (some w)
      → (seconds : ℕ) → w.requeue_after ≡ pos seconds
      → (C.now s.world).0 + seconds * 1000000000 ≤ (C.now later.world).0
      → (bake C F r (pos max) (some completed) later).0 ≡ done none
  bake_ends max completed s later w small forward fits waits seconds asked passed =
      let asked_for = bake_asks max completed s w small forward (omega arith) waits seconds asked in
      elim (bake_exact max completed later small (omega arith) fits) [
        | inr (over, ends) ↦ ends
        | inl (before, _, _, _) ↦ absurd (omega (arith, asked_for))
      ]
