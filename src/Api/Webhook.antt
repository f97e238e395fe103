-- ===== src/Api/Webhook.antt =====
-- api/v1alpha1/dbupgrade_webhook.go: the validating webhook. An error is its text; `none` is nil.
-- The semver package and the zero test of a Quantity are the interfaces of Checks, and the index of
-- a failing check is counted as in the source.
use automatic_db_upgrades.Common.{
  ℕ, suc, String, ◌<>◌, ◌==◌, Bool, true, false, not, ◌&&◌, Option, none, some, List, [], ◌∷◌, ◌++◌,
  ℤ-discrete, same, if◌then◌else◌, is_some, is_none, show_ℕ,
}
use automatic_db_upgrades.Kube.Objects.{ConditionStatus, is_true, Condition, SecretKeySelector}
use automatic_db_upgrades.Kube.Meta.{ok, err}
use automatic_db_upgrades.Api.Types.{
  DatabaseType, self_hosted, aws_rds, aws_aurora, other_database, DatabaseType-discrete, AwsSpec,
  ConnectionSpec, DatabaseSpec, MinPodVersionCheck, MetricCheck, MetricTarget, MetricTargetType,
  pods_target, object_target, external_target, other_target, ChecksSpec, DbUpgradeSpec,
  DbUpgradeSpec-discrete, DbUpgrade, condition_progressing,
}
use automatic_db_upgrades.Checks.Version.{Semver, trim_v, quote}
use automatic_db_upgrades.Checks.Values.{Floats}

abbrev pub Check : Type 0
Check = Option String

-- `if err := first(); err != nil { return err }` and the rest of the function.
infixr 30 ◌then_check◌
abbrev pub ◌then_check◌ : Check → Check → Check
none then_check rest = rest
some e then_check rest = some e

abbrev pub require : Bool → String → Check
require true message = none
require false message = some message

abbrev pub database_text : DatabaseType → String
database_text self_hosted = "selfHosted"
database_text aws_rds = "awsRds"
database_text aws_aurora = "awsAurora"
database_text (other_database s) = s

-- The required fields of the AWS configuration.
unfoldable pub validate_aws : AwsSpec → Check
validate_aws aws =
    require (not (aws.role_arn == "")) "database.aws.roleArn is required when aws is specified"
    then_check require (not (aws.region == ""))
        "database.aws.region is required when aws is specified"
    then_check require (not (aws.host == "")) "database.aws.host is required when aws is specified"
    then_check require (not (aws.db_name == ""))
        "database.aws.dbName is required when aws is specified"
    then_check require (not (aws.username == ""))
        "database.aws.username is required when aws is specified"

unfoldable pub validate_aws_database : DatabaseType → Option AwsSpec → Option ConnectionSpec → Check
validate_aws_database kind none none =
    some
      ("database.type=" <> (database_text kind <> " requires either aws or connection to be set"))
validate_aws_database kind none (some _) = none
validate_aws_database kind (some aws) _ = validate_aws aws

-- The switch of validateDatabase.
unfoldable pub validate_kind : DatabaseType → Option AwsSpec → Option ConnectionSpec → Check
validate_kind self_hosted aws connection =
    require (is_some connection) "database.type=selfHosted requires connection to be set"
    then_check require (is_none aws) "database.aws should not be set for selfHosted type"
validate_kind aws_rds aws connection = validate_aws_database aws_rds aws connection
validate_kind aws_aurora aws connection = validate_aws_database aws_aurora aws connection
validate_kind (other_database _) aws connection = none

unfoldable pub validate_ref : SecretKeySelector → Check
validate_ref ref =
    require (not (ref.name == "")) "database.connection.urlSecretRef.name cannot be empty"
    then_check require (not (ref.key == "")) "database.connection.urlSecretRef.key cannot be empty"

unfoldable pub validate_ref_of : Option SecretKeySelector → Check
validate_ref_of none =
    some "database.connection.urlSecretRef is required when connection is specified"
validate_ref_of (some ref) = validate_ref ref

unfoldable pub validate_connection : Option ConnectionSpec → Check
validate_connection none = none
validate_connection (some connection) = validate_ref_of connection.url_secret_ref

unfoldable pub validate_database : DatabaseSpec → Check
validate_database d =
    validate_kind d.kind d.aws d.connection then_check validate_connection d.connection

-- The switch of validateMetricCheck.
unfoldable pub validate_target : MetricTargetType → MetricTarget → Check
validate_target pods_target t =
    require (is_some t.pods) "target.type=Pods requires target.pods to be set"
    then_check require (is_none t.object) "target.type=Pods should not have target.object set"
    then_check require (is_none t.external) "target.type=Pods should not have target.external set"
validate_target object_target t =
    require (is_some t.object) "target.type=Object requires target.object to be set"
    then_check require (is_none t.pods) "target.type=Object should not have target.pods set"
    then_check require (is_none t.external) "target.type=Object should not have target.external set"
validate_target external_target t =
    require (is_none t.pods) "target.type=External should not have target.pods set"
    then_check require (is_none t.object) "target.type=External should not have target.object set"
validate_target (other_target _) t = none

module _ (V : Semver) (F : Floats) where
  unfoldable pub validate_metric_check : MetricCheck → Check
  validate_metric_check m =
      validate_target m.target.kind m.target
      then_check require (not (F.is_zero m.threshold.value)) "threshold.value cannot be empty"

  -- One loop of validateMetrics.
  unfoldable pub validate_metric_list : String → List MetricCheck → Check
  validate_metric_list phase [] = none
  validate_metric_list phase (m ∷ ms) = elim (validate_metric_check m) [
    | some e ↦ some (phase <> (" metric " <> (quote m.name <> (": " <> e))))
    | none ↦ validate_metric_list phase ms
  ]

  unfoldable pub validate_metrics : ChecksSpec → Check
  validate_metrics checks =
      validate_metric_list "pre-check" checks.pre.metrics
      then_check validate_metric_list "post-check" checks.post.metrics

  -- The loop of validateMinPodVersions from the index `i`.
  unfoldable pub validate_versions_from : ℕ → List MinPodVersionCheck → Check
  validate_versions_from i [] = none
  validate_versions_from i (check ∷ checks) = elim (V.new_version (trim_v check.min_version)) [
    | err e ↦ some (
        "checks.pre.minPodVersions["
        <> (show_ℕ i
            <> ("].minVersion " <> (quote check.min_version <> (" is not valid semver: " <> e)))))
    | ok _ ↦ validate_versions_from (suc i) checks
  ]

  unfoldable pub validate_min_pod_versions : ChecksSpec → Check
  validate_min_pod_versions checks = validate_versions_from 0 checks.pre.min_pod_versions

  abbrev errors : Check → List String
  errors none = []
  errors (some e) = e ∷ []

  -- `%v` of the errors that were gathered
  show_errors : List String → String
  show_errors [] = ""
  show_errors (e ∷ []) = e
  show_errors (e ∷ es) = e <> (" " <> show_errors es)

  unfoldable pub check_errors : Option ChecksSpec → List String
  check_errors none = []
  check_errors (some checks) =
      errors (validate_min_pod_versions checks) ++ errors (validate_metrics checks)

  abbrev report : List String → Check
  report [] = none
  report (e ∷ es) = some ("validation failed: [" <> (show_errors (e ∷ es) <> "]"))

  -- validateDBUpgrade gathers the errors of its three parts.
  unfoldable pub validate_upgrade : DbUpgradeSpec → Check
  unfolding show_errors
  validate_upgrade spec =
      report (errors (validate_database spec.database) ++ check_errors spec.checks)

  -- ValidateCreate and ValidateDelete
  unfoldable pub validate_create : DbUpgrade → Check
  validate_create u = validate_upgrade u.spec

  unfoldable pub validate_delete : DbUpgrade → Check
  validate_delete u = none

abbrev is_status_true : ConditionStatus → Bool
is_status_true is_true = true
is_status_true _ = false

unfoldable pub is_progressing : List Condition → Bool
is_progressing [] = false
is_progressing (c ∷ cs) =
    let rest = is_progressing cs in
    if c.kind == condition_progressing && is_status_true c.status then true else rest

-- validateNotProgressing; reflect.DeepEqual is the decision of equality.
unfoldable pub validate_not_progressing : DbUpgrade → DbUpgrade → Check
validate_not_progressing new old =
    if same DbUpgradeSpec-discrete old.spec new.spec
    then none
    else require (not (is_progressing old.status.conditions))
        "cannot update spec while migration is in progress (Progressing=True); wait for current migration to complete"

-- The reference to the Secret, if neither pointer is nil.
abbrev pub ref_of : DatabaseSpec → Option SecretKeySelector
ref_of d = elim d.connection [ none ↦ none | some c ↦ c.url_secret_ref ]

unfoldable pub validate_same_ref : Option SecretKeySelector → Option SecretKeySelector → Check
validate_same_ref none none = none
validate_same_ref (some old) (some new) = require (old.name == new.name && old.key == new.key) (
    "database.connection.urlSecretRef is immutable (cannot change from "
    <> (old.name <> ("/" <> (old.key <> (" to " <> (new.name <> ("/" <> (new.key <> ")"))))))))
validate_same_ref _ _ = some "database.connection cannot be added or removed after creation"

unfoldable pub validate_same_aws : Option AwsSpec → Option AwsSpec → Check
validate_same_aws none none = none
validate_same_aws (some old) (some new) =
    require (old.role_arn == new.role_arn) "database.aws.roleArn is immutable"
    then_check require (old.region == new.region) "database.aws.region is immutable"
    then_check require (old.host == new.host) "database.aws.host is immutable"
    then_check require (same ℤ-discrete old.port new.port) "database.aws.port is immutable"
    then_check require (old.db_name == new.db_name) "database.aws.dbName is immutable"
    then_check require (old.username == new.username) "database.aws.username is immutable"
validate_same_aws _ _ = some "database.aws cannot be added or removed after creation"

unfoldable pub validate_immutable_fields : DatabaseSpec → DatabaseSpec → Check
validate_immutable_fields new old =
    require (same DatabaseType-discrete new.kind old.kind) (
      "database.type is immutable (cannot change from "
      <> (database_text old.kind <> (" to " <> (database_text new.kind <> ")"))))
    then_check validate_same_ref (ref_of old) (ref_of new)
    then_check validate_same_aws old.aws new.aws

-- ValidateUpdate
unfoldable pub validate_update : Semver → Floats → DbUpgrade → DbUpgrade → Check
validate_update V F new old =
    validate_not_progressing new old
    then_check validate_immutable_fields new.spec.database old.spec.database
    then_check validate_upgrade V F new.spec
