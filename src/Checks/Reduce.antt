-- ===== src/Checks/Reduce.antt =====
-- internal/checks/metrics.go: what the reductions by Min and Max give.
use automatic_db_upgrades.Common.{
  true, false, List, [], ◌∷◌, ◌≡◌, ◌≢◌, ◌↔◌, refl, arith, All, if◌then◌else◌,
}
use automatic_db_upgrades.Api.Types.{MetricCheck, gt, lt, reduce_max, reduce_min}
use automatic_db_upgrades.Checks.Values.{
  Floats, min_from, max_from, reduce_values, compare_threshold, judge_values,
}

module _ (F : Floats) where
  -- The comparison orders the values; not so with a NaN.
  pub record IsOrder : Type 0 where
    pub less_trans : (a b c : F.Float) → F.less a b ≡ true → F.less b c ≡ true → F.less a c ≡ true
    pub less_weak : (a b c : F.Float) → F.less a b ≡ false → F.less b c ≡ false → F.less a c ≡ false

  max_from-below :
      IsOrder
      → (t m : F.Float) (vs : List F.Float)
      → (F.less (max_from F m vs) t ≡ true) ↔ All (λ v. F.less v t ≡ true) (m ∷ vs)
  unfolding max_from
  max_from-below O t m [] = (λ h. (h, tt), λ k. k.0)
  max_from-below O t m (v ∷ vs) =
      let (to, from) = max_from-below O t (if F.less m v then v else m) vs in
      let up = O.less_trans m v t in let down = O.less_weak m v t in ground arith

  min_from-above :
      IsOrder
      → (t m : F.Float) (vs : List F.Float)
      → (F.less t (min_from F m vs) ≡ true) ↔ All (λ v. F.less t v ≡ true) (m ∷ vs)
  unfolding min_from
  min_from-above O t m [] = (λ h. (h, tt), λ k. k.0)
  min_from-above O t m (v ∷ vs) =
      let (to, from) = min_from-above O t (if F.less v m then v else m) vs in
      let up = O.less_trans t v m in let down = O.less_weak t v m in ground arith

  -- For values that are ordered, a check that reduces by Max with the operator < passes exactly if
  -- there are values and every one of them is below the threshold.
  pub judge_values-max_lt :
      IsOrder
      → (check : MetricCheck) (values : List F.Float) → check.reduce ≡ reduce_max
      → check.threshold.operator ≡ lt
      → ((judge_values F check values).passed ≡ true) ↔ (
          (values ≢ [])
          × All (λ v. F.less v (F.as_approximate_float64 check.threshold.value) ≡ true) values)
  unfolding judge_values reduce_values compare_threshold
  judge_values-max_lt O check [] reduce op = (λ h. cc, λ k. absurd (k.0 refl))
  judge_values-max_lt O check (v ∷ vs) reduce op =
      let (to, from) = max_from-below O (F.as_approximate_float64 check.threshold.value) v vs in
      rw (reduce, op) (λ h. (λ e. cc, to h), λ k. from k.1)

  -- For values that are ordered, a check that reduces by Min with the operator > passes exactly if
  -- there are values and every one of them is above the threshold.
  pub judge_values-min_gt :
      IsOrder
      → (check : MetricCheck) (values : List F.Float) → check.reduce ≡ reduce_min
      → check.threshold.operator ≡ gt
      → ((judge_values F check values).passed ≡ true) ↔ (
          (values ≢ [])
          × All (λ v. F.less (F.as_approximate_float64 check.threshold.value) v ≡ true) values)
  unfolding judge_values reduce_values compare_threshold
  judge_values-min_gt O check [] reduce op = (λ h. cc, λ k. absurd (k.0 refl))
  judge_values-min_gt O check (v ∷ vs) reduce op =
      let (to, from) = min_from-above O (F.as_approximate_float64 check.threshold.value) v vs in
      rw (reduce, op) (λ h. (λ e. cc, to h), λ k. from k.1)
