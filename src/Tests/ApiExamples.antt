-- ===== src/Tests/ApiExamples.antt =====
-- The webhook on concrete objects.
use automatic_db_upgrades.Common.{
  false, none, some, [], ◌∷◌, ◌≡◌, ◌≢◌, ◌⊎◌, refl, pos, ℤ-discrete, String-discrete,
}
use automatic_db_upgrades.Kube.Objects.{Condition, is_true}
use automatic_db_upgrades.Api.Types.{
  DbUpgrade, ChecksSpec, condition_progressing, DatabaseType-discrete, DbUpgradeSpec-discrete,
}
use automatic_db_upgrades.Api.Webhook.{
  validate_kind, validate_ref, validate_ref_of, validate_connection, validate_database,
  validate_target, validate_metric_check, validate_metric_list, validate_metrics,
  validate_versions_from, validate_min_pod_versions, check_errors, validate_upgrade,
  validate_create, is_progressing, validate_not_progressing, validate_same_ref, validate_same_aws,
  validate_immutable_fields, validate_update,
}
use automatic_db_upgrades.Api.Validity.{IsValidDatabase}
use automatic_db_upgrades.Api.ValidSpecs.{AreValidChecks, validate_upgrade_iff}
use automatic_db_upgrades.Api.History.{created, updated, reported, History-IsSameDatabase}
use automatic_db_upgrades.Api.Updates.{IsSameDatabase, validate_update_iff}
use automatic_db_upgrades.Checks.Version.{trim_v}
use automatic_db_upgrades.Tests.Objects.{hosted, on_aws, spec_of, both_checks, upgrade_of, checked}
use automatic_db_upgrades.Tests.Server.{two_versions, whole_numbers}

validate_upgrade_iff_example :
    IsValidDatabase hosted
    × ((checks : ChecksSpec)
        → some both_checks ≡ some checks
        → AreValidChecks two_versions whole_numbers checks)
unfolding validate_upgrade validate_database validate_kind validate_connection validate_ref_of
    validate_ref check_errors validate_min_pod_versions validate_versions_from validate_metrics
    validate_metric_list validate_metric_check validate_target trim_v String-discrete
validate_upgrade_iff_example =
    (validate_upgrade_iff two_versions whole_numbers (spec_of hosted (some both_checks))).0 refl

abbrev busy : Condition
busy = record {
  kind = condition_progressing;
  status = is_true;
  observed_generation = pos 2;
  last_transition = 0;
  reason = "MigrationInProgress";
  message = "";
}

abbrev running : DbUpgrade
running = upgrade_of (spec_of hosted (some both_checks)) (busy ∷ [])

-- While the migration runs, an update that leaves the spec alone is accepted.
validate_update_iff_example :
    ((running.spec ≡ running.spec) ⊎ (is_progressing running.status.conditions ≡ false))
    × IsSameDatabase hosted hosted
    × (validate_upgrade two_versions whole_numbers running.spec ≡ none)
unfolding validate_update validate_upgrade validate_database validate_kind validate_connection
    validate_ref_of validate_ref check_errors validate_min_pod_versions validate_versions_from
    validate_metrics validate_metric_list validate_metric_check validate_target trim_v
    is_progressing validate_not_progressing validate_same_ref validate_same_aws
    validate_immutable_fields DatabaseType-discrete DbUpgradeSpec-discrete ℤ-discrete
    String-discrete
validate_update_iff_example =
    (validate_update_iff two_versions whole_numbers running running).0 refl

-- A change of the spec is refused then, and so is one of the database at any time.
refused :
    (validate_update two_versions whole_numbers (upgrade_of (spec_of hosted none) []) running
      ≢ none)
    × (validate_update two_versions whole_numbers (upgrade_of (spec_of on_aws none) []) checked
        ≢ none)
unfolding validate_update is_progressing validate_not_progressing validate_immutable_fields
    DatabaseType-discrete DbUpgradeSpec-discrete ℤ-discrete String-discrete
refused = (λ e. cc, λ e. cc)

-- An object whose status reports a running migration, and whose spec is then written again.
History-IsSameDatabase_example :
    (validate_upgrade two_versions whole_numbers running.spec ≡ none)
    × IsSameDatabase running.spec.database checked.spec.database
unfolding validate_update validate_upgrade validate_create validate_database validate_kind
    validate_connection validate_ref_of validate_ref check_errors validate_min_pod_versions
    validate_versions_from validate_metrics validate_metric_list validate_metric_check
    validate_target trim_v is_progressing validate_not_progressing validate_same_ref
    validate_same_aws validate_immutable_fields DatabaseType-discrete DbUpgradeSpec-discrete
    ℤ-discrete String-discrete
History-IsSameDatabase_example =
    History-IsSameDatabase two_versions whole_numbers {first = checked}
      (updated running (reported running.status (created refl)) refl)
