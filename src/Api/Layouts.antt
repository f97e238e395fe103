-- ===== src/Api/Layouts.antt =====
-- api/v1alpha1/dbupgrade_types.go: for each type, what lies where in memory. The types of k8s.io bring
-- their own layouts and deep copies.
use automatic_db_upgrades.Common.{String, Bool, ℤ}
use automatic_db_upgrades.Kube.Objects.{Time, Quantity, LabelSelector, SecretKeySelector, Condition}
use automatic_db_upgrades.Api.Types.{
  DatabaseType, MetricSource, MetricTargetType, ThresholdOperator, ReduceFunction, MigrationsSpec,
  ConnectionSpec, AwsSpec, DatabaseSpec, MinPodVersionCheck, ObjectReference, PodsTarget,
  ObjectTarget, ExternalTarget, MetricTarget, ThresholdSpec, MetricCheck, PreChecksSpec,
  PostChecksSpec, ChecksSpec, RunnerSpec, DbUpgradeSpec, DbUpgradeStatus, DbUpgrade,
}
use automatic_db_upgrades.Api.Scheme.{DbUpgradeList}
use automatic_db_upgrades.Api.Memory.{
  Pointer, Slice, Layout, Copy, scalar, text, number, boolean, database_type, metric_source,
  metric_target_type, threshold_operator, reduce_function, pointer, slice, ◌then◌, struct,
}

-- The part of metav1.ObjectMeta that the model keeps.
pub record ObjectMeta : Type 0 where
  pub name : String
  pub namespace : String
  pub uid : String
  pub generation : ℤ

-- The types of k8s.io, and TypeMeta with the rest of the metadata, with their own DeepCopyInto.
pub record Foreign : Type 1 where
  pub LabelSelectorCell : Type 0
  pub label_selector : Layout LabelSelector LabelSelectorCell
  pub copy_label_selector : Copy LabelSelectorCell
  pub SecretKeySelectorCell : Type 0
  pub secret_key_selector : Layout SecretKeySelector SecretKeySelectorCell
  pub copy_secret_key_selector : Copy SecretKeySelectorCell
  pub TimeCell : Type 0
  pub time : Layout Time TimeCell
  pub copy_time : Copy TimeCell
  pub ConditionCell : Type 0
  pub condition : Layout Condition ConditionCell
  pub copy_condition : Copy ConditionCell
  pub QuantityCell : Type 0
  pub quantity : Layout Quantity QuantityCell
  pub copy_quantity : Copy QuantityCell
  pub ObjectMetaCell : Type 0
  pub object_meta : Layout ObjectMeta ObjectMetaCell
  pub copy_object_meta : Copy ObjectMetaCell
  pub ListMetaCell : Type 0
  pub list_meta : Layout (Unit {0}) ListMetaCell
  pub copy_list_meta : Copy ListMetaCell

abbrev pub AwsCell : Type 0
AwsCell = String × (String × (String × (ℤ × (String × String))))

abbrev pub aws_layout : Layout AwsSpec AwsCell
aws_layout =
    struct
      (λ (role_arn, (region, (host, (port, (db_name, username))))). record {
        role_arn = role_arn;
        region = region;
        host = host;
        port = port;
        db_name = db_name;
        username = username;
      })
      (scalar text
        then scalar text
        then scalar text
        then scalar number
        then scalar text
        then scalar text)

abbrev pub MigrationsCell : Type 0
MigrationsCell = String × String

abbrev pub migrations_layout : Layout MigrationsSpec MigrationsCell
migrations_layout =
    struct (λ (image, dir). record { image = image; dir = dir }) (scalar text then scalar text)

abbrev pub ReferenceCell : Type 0
ReferenceCell = String × (String × String)

abbrev pub reference_layout : Layout ObjectReference ReferenceCell
reference_layout =
    struct
      (λ (api_version, (kind, name)). record {
        api_version = api_version;
        kind = kind;
        name = name;
      })
      (scalar text then scalar text then scalar text)

abbrev pub RunnerCell : Type 0
RunnerCell = Pointer ℤ

abbrev pub runner_layout : Layout RunnerSpec RunnerCell
runner_layout =
    struct (λ seconds. record { active_deadline_seconds = seconds }) (pointer (scalar number))

module _ (F : Foreign) where
  abbrev pub ConnectionCell : Type 0
  ConnectionCell = Pointer F.SecretKeySelectorCell

  abbrev pub connection_layout : Layout ConnectionSpec ConnectionCell
  connection_layout =
      struct (λ ref. record { url_secret_ref = ref }) (pointer F.secret_key_selector)

  abbrev pub DatabaseCell : Type 0
  DatabaseCell = DatabaseType × (Pointer ConnectionCell × Pointer AwsCell)

  abbrev pub database_layout : Layout DatabaseSpec DatabaseCell
  database_layout =
      struct
        (λ (kind, (connection, aws)). record { kind = kind; connection = connection; aws = aws })
        (scalar database_type then pointer connection_layout then pointer aws_layout)

  abbrev pub MinPodVersionCell : Type 0
  MinPodVersionCell = F.LabelSelectorCell × (String × (String × (Pointer Bool × Bool)))

  abbrev pub min_pod_version_layout : Layout MinPodVersionCheck MinPodVersionCell
  min_pod_version_layout =
      struct
        (λ (selector, (min_version, (container_name, (strict_mode, disallow_downgrade)))). record {
          selector = selector;
          min_version = min_version;
          container_name = container_name;
          strict_mode = strict_mode;
          disallow_downgrade = disallow_downgrade;
        })
        (F.label_selector
          then scalar text
          then scalar text
          then pointer (scalar boolean)
          then scalar boolean)

  abbrev pub PodsTargetCell : Type 0
  PodsTargetCell = F.LabelSelectorCell

  abbrev pub pods_target_layout : Layout PodsTarget PodsTargetCell
  pods_target_layout = struct (λ selector. record { selector = selector }) F.label_selector

  abbrev pub ObjectTargetCell : Type 0
  ObjectTargetCell = ReferenceCell × Pointer F.LabelSelectorCell

  abbrev pub object_target_layout : Layout ObjectTarget ObjectTargetCell
  object_target_layout =
      struct (λ (ref, selector). record { ref = ref; selector = selector })
        (reference_layout then pointer F.label_selector)

  abbrev pub ExternalTargetCell : Type 0
  ExternalTargetCell = Pointer F.LabelSelectorCell

  abbrev pub external_target_layout : Layout ExternalTarget ExternalTargetCell
  external_target_layout =
      struct (λ selector. record { selector = selector }) (pointer F.label_selector)

  abbrev pub MetricTargetCell : Type 0
  MetricTargetCell =
      MetricTargetType
      × (Pointer PodsTargetCell × (Pointer ObjectTargetCell × Pointer ExternalTargetCell))

  abbrev pub target_layout : Layout MetricTarget MetricTargetCell
  target_layout =
      struct
        (λ (kind, (pods, (object, external))). record {
          kind = kind;
          pods = pods;
          object = object;
          external = external;
        })
        (scalar metric_target_type
          then pointer pods_target_layout
          then pointer object_target_layout
          then pointer external_target_layout)

  abbrev pub ThresholdCell : Type 0
  ThresholdCell = ThresholdOperator × F.QuantityCell

  abbrev pub threshold_layout : Layout ThresholdSpec ThresholdCell
  threshold_layout =
      struct (λ (operator, value). record { operator = operator; value = value })
        (scalar threshold_operator then F.quantity)

  abbrev pub MetricCheckCell : Type 0
  MetricCheckCell =
      String
      × (MetricSource
          × (String × (MetricTargetCell × (ThresholdCell × (ReduceFunction × (ℤ × ℤ))))))

  abbrev pub metric_check_layout : Layout MetricCheck MetricCheckCell
  metric_check_layout =
      struct
        (λ (
          name,
          (
            source,
            (metric_name, (target, (threshold, (reduce, (bake_seconds, interval_seconds))))),
          ),
        ).
          record {
            name = name;
            source = source;
            metric_name = metric_name;
            target = target;
            threshold = threshold;
            reduce = reduce;
            bake_seconds = bake_seconds;
            interval_seconds = interval_seconds;
          })
        (scalar text
          then scalar metric_source
          then scalar text
          then target_layout
          then threshold_layout
          then scalar reduce_function
          then scalar number
          then scalar number)

  abbrev pub PreChecksCell : Type 0
  PreChecksCell = Slice MinPodVersionCell × Slice MetricCheckCell

  abbrev pub pre_checks_layout : Layout PreChecksSpec PreChecksCell
  pre_checks_layout =
      struct
        (λ (min_pod_versions, metrics). record {
          min_pod_versions = min_pod_versions;
          metrics = metrics;
        })
        (slice min_pod_version_layout then slice metric_check_layout)

  abbrev pub PostChecksCell : Type 0
  PostChecksCell = Slice MetricCheckCell

  abbrev pub post_checks_layout : Layout PostChecksSpec PostChecksCell
  post_checks_layout = struct (λ metrics. record { metrics = metrics }) (slice metric_check_layout)

  abbrev pub ChecksCell : Type 0
  ChecksCell = PreChecksCell × PostChecksCell

  abbrev pub checks_layout : Layout ChecksSpec ChecksCell
  checks_layout =
      struct (λ (pre, post). record { pre = pre; post = post })
        (pre_checks_layout then post_checks_layout)

  abbrev pub SpecCell : Type 0
  SpecCell = MigrationsCell × (DatabaseCell × (Pointer ChecksCell × Pointer RunnerCell))

  abbrev pub spec_layout : Layout DbUpgradeSpec SpecCell
  spec_layout =
      struct
        (λ (migrations, (database, (checks, runner))). record {
          migrations = migrations;
          database = database;
          checks = checks;
          runner = runner;
        })
        (migrations_layout
          then database_layout
          then pointer checks_layout
          then pointer runner_layout)

  abbrev pub StatusCell : Type 0
  StatusCell = ℤ × (Pointer F.TimeCell × Slice F.ConditionCell)

  abbrev pub status_layout : Layout DbUpgradeStatus StatusCell
  status_layout =
      struct
        (λ (observed_generation, (job_completed_at, conditions)). record {
          observed_generation = observed_generation;
          job_completed_at = job_completed_at;
          conditions = conditions;
        })
        (scalar number then pointer F.time then slice F.condition)

  abbrev pub UpgradeCell : Type 0
  UpgradeCell = F.ObjectMetaCell × (SpecCell × StatusCell)

  abbrev pub upgrade_layout : Layout DbUpgrade UpgradeCell
  upgrade_layout =
      struct
        (λ (meta, (spec, status)). record {
          name = meta.name;
          namespace = meta.namespace;
          uid = meta.uid;
          generation = meta.generation;
          spec = spec;
          status = status;
        })
        (F.object_meta then spec_layout then status_layout)

  abbrev pub ListCell : Type 0
  ListCell = F.ListMetaCell × Slice UpgradeCell

  abbrev pub list_layout : Layout DbUpgradeList ListCell
  list_layout =
      struct (λ (meta, items). record { items = items }) (F.list_meta then slice upgrade_layout)
