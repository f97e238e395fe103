-- ===== src/Api/ValidSpecs.antt =====
-- Which specs the webhook accepts, with their checks, described without the code's order of tests.
use mathlib.Core.Option.{some-injective}
use automatic_db_upgrades.Common.{
  String, false, Option, none, some, List, [], ◌∷◌, ◌≡◌, ◌≢◌, ◌↔◌, inl, inr, refl, arith, subst,
  All, ℕ, suc,
}
use automatic_db_upgrades.Kube.Meta.{ok, Result-cases}
use automatic_db_upgrades.Api.Types.{
  MinPodVersionCheck, MetricCheck, MetricTarget, MetricTargetType, pods_target, object_target,
  external_target, other_target, ChecksSpec, DbUpgradeSpec,
}
use automatic_db_upgrades.Checks.Version.{Semver, trim_v}
use automatic_db_upgrades.Checks.Values.{Floats}
use automatic_db_upgrades.Api.Webhook.{
  validate_target, validate_metric_check, validate_metric_list, validate_metrics,
  validate_versions_from, validate_min_pod_versions, check_errors, validate_upgrade,
}
use automatic_db_upgrades.Api.Validity.{IsValidDatabase, validate_database_iff}

-- The configuration of a metric's target is that of its type, and there is none of another type.
pub record IsMatching (t : MetricTarget) : Type 0 where
  pub on_pods : t.kind ≡ pods_target → (t.pods ≢ none) × (t.object ≡ none) × (t.external ≡ none)
  pub on_object : t.kind ≡ object_target → (t.object ≢ none) × (t.pods ≡ none) × (t.external ≡ none)
  pub on_external : t.kind ≡ external_target → (t.pods ≡ none) × (t.object ≡ none)

validate_target_sound :
    (t : MetricTarget) (kind : MetricTargetType)
    → t.kind ≡ kind
    → validate_target kind t ≡ none
    → IsMatching t
unfolding validate_target
validate_target_sound t pods_target e h = ground arith
validate_target_sound t object_target e h = ground arith
validate_target_sound t external_target e h = ground arith
validate_target_sound t (other_target s) e h = record {
  on_pods = λ p. ground arith;
  on_object = λ p. ground arith;
  on_external = λ p. ground arith;
}

validate_target_complete :
    (t : MetricTarget) (kind : MetricTargetType)
    → t.kind ≡ kind
    → IsMatching t
    → validate_target kind t ≡ none
unfolding validate_target
validate_target_complete t pods_target e h = ground arith
validate_target_complete t object_target e h = ground arith
validate_target_complete t external_target e h = ground arith
validate_target_complete t (other_target s) e h = refl

module _ (V : Semver) (F : Floats) where
  abbrev pub IsValidMetric : MetricCheck → Type 0
  IsValidMetric m = IsMatching m.target × (F.is_zero m.threshold.value ≡ false)

  validate_metric_check_iff :
      (m : MetricCheck) → (validate_metric_check V F m ≡ none) ↔ IsValidMetric m
  unfolding validate_metric_check
  validate_metric_check_iff m = (
    λ h. (validate_target_sound m.target m.target.kind refl (ground arith), ground arith),
    λ v. ground (arith, validate_target_complete m.target m.target.kind refl v.0),
  )

  validate_metric_list_iff :
      (phase : String) (ms : List MetricCheck)
      → (validate_metric_list V F phase ms ≡ none) ↔ All IsValidMetric ms
  unfolding validate_metric_list
  validate_metric_list_iff phase [] = (λ _. tt, λ _. refl)
  validate_metric_list_iff phase (m ∷ ms) =
      let (to, from) = validate_metric_check_iff m in
      let (rest_to, rest_from) = validate_metric_list_iff phase ms in
      (
        λ h. (to (ground arith), rest_to (ground arith)),
        λ v. let e = from v.0 in let f = rest_from v.1 in ground arith,
      )

  abbrev pub IsSemver : MinPodVersionCheck → Type 0
  IsSemver check = (v : V.Version) × (V.new_version (trim_v check.min_version) ≡ ok v)

  validate_versions_from_iff :
      (i : ℕ) (checks : List MinPodVersionCheck)
      → (validate_versions_from V F i checks ≡ none) ↔ All IsSemver checks
  unfolding validate_versions_from
  validate_versions_from_iff i [] = (λ _. tt, λ _. refl)
  validate_versions_from_iff i (check ∷ checks) =
      let (to, from) = validate_versions_from_iff (suc i) checks in
      elim (Result-cases (V.new_version (trim_v check.min_version))) [
        | inl (e, bad) ↦ (λ h. absurd (ground arith), λ v. absurd (ground arith))
        | inr (v, good) ↦
            (λ h. ((v, good), to (ground arith)), λ w. let e = from w.1 in ground arith)
      ]

  pub record AreValidChecks (checks : ChecksSpec) : Type 0 where
    pub versions : All IsSemver checks.pre.min_pod_versions
    pub before : All IsValidMetric checks.pre.metrics
    pub after : All IsValidMetric checks.post.metrics

  check_errors_iff :
      (checks : ChecksSpec) → (check_errors V F (some checks) ≡ []) ↔ AreValidChecks checks
  unfolding check_errors validate_min_pod_versions validate_metrics
  check_errors_iff checks =
      let (v_to, v_from) = validate_versions_from_iff 0 checks.pre.min_pod_versions in
      let (b_to, b_from) = validate_metric_list_iff "pre-check" checks.pre.metrics in
      let (a_to, a_from) = validate_metric_list_iff "post-check" checks.post.metrics in
      (
        λ h. record {
          versions = v_to (ground arith);
          before = b_to (ground arith);
          after = a_to (ground arith);
        },
        λ v.
            let e = v_from v.versions in
            let f = b_from v.before in let g = a_from v.after in ground arith,
      )

  no_check_errors_iff :
      (checks : Option ChecksSpec)
      → (check_errors V F checks ≡ [])
        ↔ ((given : ChecksSpec) → checks ≡ some given → AreValidChecks given)
  unfolding check_errors
  no_check_errors_iff none = (λ _ c e. cc, λ _. refl)
  no_check_errors_iff (some checks) =
      let (to, from) = check_errors_iff checks in
      (
        λ h c e. subst AreValidChecks (some-injective _ _ e) (to (unfold check_errors in h)),
        λ k. unfold check_errors in from (k checks refl),
      )

  -- The webhook accepts a spec exactly if its database is valid and so are its checks, if it has any:
  -- each minimum version is a semantic version, and each metric has the target configuration of
  -- its type alone and a threshold that is not zero.
  pub validate_upgrade_iff :
      (spec : DbUpgradeSpec)
      → (validate_upgrade V F spec ≡ none) ↔ (
          IsValidDatabase spec.database
          × ((checks : ChecksSpec) → spec.checks ≡ some checks → AreValidChecks checks))
  unfolding validate_upgrade
  validate_upgrade_iff spec =
      let (d_to, d_from) = validate_database_iff spec.database in
      let (c_to, c_from) = no_check_errors_iff spec.checks in
      (
        λ h. (d_to (ground arith), c_to (ground arith)),
        λ v. let e = d_from v.0 in let f = c_from v.1 in ground arith,
      )
