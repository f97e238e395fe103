-- ===== src/Api/Types.antt =====
-- api/v1alpha1/dbupgrade_types.go. An enumeration that the CRD restricts keeps a constructor for any
-- other text, since the code has a default case for it; "" is such a text. A numeric field is an
-- integer, which lies in the range of its Go type; nil and empty slices are one list.
use automatic_db_upgrades.Common.{String, Bool, Option, List, ℤ, ℤ-discrete, String-discrete}
use automatic_db_upgrades.Kube.Objects.{Time, Quantity, LabelSelector, SecretKeySelector, Condition}

pub data DatabaseType : Type 0 where
  self_hosted aws_rds aws_aurora : DatabaseType
  other_database : String → DatabaseType

pub data MetricSource : Type 0 where
  custom_source external_source unset_source : MetricSource
  other_source : String → MetricSource

pub data MetricTargetType : Type 0 where
  pods_target object_target external_target : MetricTargetType
  other_target : String → MetricTargetType

pub data ThresholdOperator : Type 0 where
  gt gte lt lte : ThresholdOperator
  other_operator : String → ThresholdOperator

pub data ReduceFunction : Type 0 where
  reduce_max reduce_avg reduce_sum reduce_min : ReduceFunction
  other_reduce : String → ReduceFunction

pub record MigrationsSpec : Type 0 where
  pub image : String
  pub dir : String

pub record ConnectionSpec : Type 0 where
  pub url_secret_ref : Option SecretKeySelector

pub record AwsSpec : Type 0 where
  pub role_arn : String
  pub region : String
  pub host : String
  pub port : ℤ
  pub db_name : String
  pub username : String

pub record DatabaseSpec : Type 0 where
  pub kind : DatabaseType
  pub connection : Option ConnectionSpec
  pub aws : Option AwsSpec

pub record MinPodVersionCheck : Type 0 where
  pub selector : LabelSelector
  pub min_version : String
  pub container_name : String
  pub strict_mode : Option Bool
  pub disallow_downgrade : Bool

pub record ObjectReference : Type 0 where
  pub api_version : String
  pub kind : String
  pub name : String

pub record PodsTarget : Type 0 where
  pub selector : LabelSelector

pub record ObjectTarget : Type 0 where
  pub ref : ObjectReference
  pub selector : Option LabelSelector

pub record ExternalTarget : Type 0 where
  pub selector : Option LabelSelector

pub record MetricTarget : Type 0 where
  pub kind : MetricTargetType
  pub pods : Option PodsTarget
  pub object : Option ObjectTarget
  pub external : Option ExternalTarget

pub record ThresholdSpec : Type 0 where
  pub operator : ThresholdOperator
  pub value : Quantity

pub record MetricCheck : Type 0 where
  pub name : String
  pub source : MetricSource
  pub metric_name : String
  pub target : MetricTarget
  pub threshold : ThresholdSpec
  pub reduce : ReduceFunction
  pub bake_seconds : ℤ
  pub interval_seconds : ℤ

pub record PreChecksSpec : Type 0 where
  pub min_pod_versions : List MinPodVersionCheck
  pub metrics : List MetricCheck

pub record PostChecksSpec : Type 0 where
  pub metrics : List MetricCheck

pub record ChecksSpec : Type 0 where
  pub pre : PreChecksSpec
  pub post : PostChecksSpec

pub record RunnerSpec : Type 0 where
  pub active_deadline_seconds : Option ℤ

pub record DbUpgradeSpec : Type 0 where
  pub migrations : MigrationsSpec
  pub database : DatabaseSpec
  pub checks : Option ChecksSpec
  pub runner : Option RunnerSpec

pub record DbUpgradeStatus : Type 0 where
  pub observed_generation : ℤ
  pub job_completed_at : Option Time
  pub conditions : List Condition

-- The object with the metadata that the code reads.
pub record DbUpgrade : Type 0 where
  pub name : String
  pub namespace : String
  pub uid : String
  pub generation : ℤ
  pub spec : DbUpgradeSpec
  pub status : DbUpgradeStatus

abbrev pub condition_ready : String
condition_ready = "Ready"

abbrev pub condition_progressing : String
condition_progressing = "Progressing"

-- Two specs are equal or they are not: what `reflect.DeepEqual` decides.
unfoldable pub DatabaseType-discrete : Discrete DatabaseType
unfolding String-discrete
DatabaseType-discrete = hlevel String-discrete

unfoldable pub DbUpgradeSpec-discrete : Discrete DbUpgradeSpec
unfolding String-discrete ℤ-discrete
DbUpgradeSpec-discrete = hlevel (String-discrete, ℤ-discrete)
