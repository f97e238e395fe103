-- ===== src/Tests/CheckExamples.antt =====
-- The checks on concrete pods, images and values.
use automatic_db_upgrades.Common.{
  false, none, ◌⊎◌, ◌≢◌, bytes, some, ℕ, ◌<>◌, true, false, List, [], ◌∷◌, ◌≡◌, ◌≢◌, ◌↔◌, refl,
  arith, All, show_ℕ, String-discrete,
}
use automatic_db_upgrades.Kube.Meta.{ok}
use automatic_db_upgrades.Api.Types.{MinPodVersionCheck}
use automatic_db_upgrades.Checks.Image.{
  index, last_index, match_version, tag_version, extract_version_from_image,
}
use automatic_db_upgrades.Checks.Version.{
  VersionCheckResult, trim_v, judge, is_other_container, scan_containers, scan_pods, conclude,
  check_pods,
}
use automatic_db_upgrades.Checks.Scans.{considered}
use automatic_db_upgrades.Checks.Strict.{IsRecent, check_pods-strict}
use automatic_db_upgrades.Checks.Lenient.{IsNotOld, Throughout, version_of, check_pods-lenient}
use mathlib.Core.List.Perm
use automatic_db_upgrades.Checks.AnyOrder.{verdict, check_pods-Perm}
use automatic_db_upgrades.Checks.Tags.{extract-tag}
use automatic_db_upgrades.Checks.Values.{judge_values}
use automatic_db_upgrades.Checks.Plural.{pluralize}
use automatic_db_upgrades.Checks.Reduce.{IsOrder, judge_values-max_lt}
use automatic_db_upgrades.Tests.Objects.{at_least_two, few_errors, pod}
use automatic_db_upgrades.Tests.Server.{two_versions, whole_numbers}

check_pods-strict_example :
    (r : VersionCheckResult) × (check_pods two_versions at_least_two (pod "app:v2.0.0" ∷ []) ≡ ok r)
    × ((r.passed ≡ true)
        ↔ All
            (λ p. All (IsRecent two_versions 2) (considered at_least_two p))
            (pod "app:v2.0.0" ∷ []))
unfolding trim_v String-discrete
check_pods-strict_example =
    check_pods-strict two_versions at_least_two 2 (pod "app:v2.0.0") [] refl refl

abbrev only_sidecar : MinPodVersionCheck
only_sidecar = record at_least_two { container_name = "sidecar" }

-- The check passes a pod in version 2 and not one in version 1; a pod without a container of the
-- name that the check gives passes as well.
runs :
    ((r : VersionCheckResult) × (check_pods two_versions at_least_two (pod "app:v2.0.0" ∷ [])
        ≡ ok r)
      × (r.passed ≡ true))
    × ((r : VersionCheckResult) × (check_pods two_versions at_least_two (pod "app:v1.0.0" ∷ [])
          ≡ ok r)
        × (r.passed ≡ false))
    × ((r : VersionCheckResult) × (check_pods two_versions only_sidecar (pod "app:v1.0.0" ∷ [])
          ≡ ok r)
        × (r.passed ≡ true)
        × (r.message ≡ "All 0 pod(s) meet minimum version 2.0.0"))
unfolding check_pods conclude scan_pods scan_containers is_other_container judge trim_v
    extract_version_from_image match_version show_ℕ String-discrete
runs = ((_, refl, refl), (_, refl, refl), (_, refl, refl, refl))

extract-tag_example :
    extract_version_from_image ("localhost:5000/app" <> (":" <> "v1.2.3")) ≡ tag_version "v1.2.3"
unfolding index last_index
extract-tag_example = extract-tag "localhost:5000/app" "v1.2.3" refl refl refl

whole_numbers-IsOrder : IsOrder whole_numbers
whole_numbers-IsOrder = record {
  less_trans = λ a b c h k. ground arith;
  less_weak = λ a b c h k. ground arith;
}

abbrev few : List ℕ
few = 3 ∷ 4 ∷ []

judge_values-max_lt_example :
    ((judge_values whole_numbers few_errors few).passed ≡ true)
    ↔ ((few ≢ []) × All (λ v. whole_numbers.less v 5 ≡ true) few)
unfolding String-discrete
judge_values-max_lt_example =
    judge_values-max_lt whole_numbers whole_numbers-IsOrder few_errors few refl refl

plurals :
    (pluralize (bytes "Proxy") ≡ bytes "proxies")
    × (pluralize (bytes "Ingress") ≡ bytes "ingresses")
unfolding pluralize
plurals = (refl, refl)

abbrev lenient : MinPodVersionCheck
lenient = record at_least_two { strict_mode = some false }

check_pods-lenient_example :
    (r : VersionCheckResult) × (check_pods two_versions lenient
        (pod "app:main" ∷ pod "app:v2.0.0" ∷ [])
      ≡ ok r)
    × ((r.passed ≡ true) ↔ (
        Throughout two_versions lenient
          (IsNotOld two_versions 2)
          (pod "app:main" ∷ pod "app:v2.0.0" ∷ [])
        × ((¬ Throughout two_versions lenient
              (λ c. version_of two_versions c ≡ none)
              (pod "app:main" ∷ pod "app:v2.0.0" ∷ []))
            ⊎ Throughout two_versions lenient
                (λ c. version_of two_versions c ≢ none)
                (pod "app:main" ∷ pod "app:v2.0.0" ∷ []))))
unfolding trim_v String-discrete
check_pods-lenient_example =
    check_pods-lenient two_versions lenient 2 (pod "app:main") (pod "app:v2.0.0" ∷ []) refl refl

check_pods-Perm_example :
    verdict (check_pods two_versions at_least_two (pod "app:v2.0.0" ∷ pod "app:main" ∷ []))
    ≡ verdict (check_pods two_versions at_least_two (pod "app:main" ∷ pod "app:v2.0.0" ∷ []))
check_pods-Perm_example =
    check_pods-Perm two_versions at_least_two (pod "app:v2.0.0" ∷ pod "app:main" ∷ [])
      (pod "app:main" ∷ pod "app:v2.0.0" ∷ []) (Perm.swap (pod "app:main") (pod "app:v2.0.0") [])
