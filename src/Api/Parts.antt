-- ===== src/Api/Parts.antt =====
-- api/v1alpha1/zz_generated.deepcopy.go: DeepCopy of the types that a DBUpgrade is made of, and why
-- each copy is apart from what was copied.
use mathlib.Core.List.{Memᴰ}
use automatic_db_upgrades.Common.{ℕ, List, ◌≡◌, ◌<◌, All}
use automatic_db_upgrades.Api.Memory.{Pointer, Layout, Copy, pointer, copy_target}
use automatic_db_upgrades.Api.Deep.{IsDeep, pointer-IsDeep, IsDeep-apart}
use automatic_db_upgrades.Api.Layouts.{
  Foreign, AwsCell, aws_layout, ChecksCell, checks_layout, ConnectionCell, connection_layout,
  SpecCell, spec_layout, StatusCell, status_layout, DatabaseCell, database_layout,
  ExternalTargetCell, external_target_layout, MetricCheckCell, metric_check_layout,
  MetricTargetCell, target_layout, MigrationsCell, migrations_layout, MinPodVersionCell,
  min_pod_version_layout, ReferenceCell, reference_layout, ObjectTargetCell, object_target_layout,
  PodsTargetCell, pods_target_layout, PostChecksCell, post_checks_layout, PreChecksCell,
  pre_checks_layout, RunnerCell, runner_layout, ThresholdCell, threshold_layout,
}
use automatic_db_upgrades.Api.DeepCopy.{
  copy_aws, copy_checks, copy_connection, copy_spec, copy_status, copy_database,
  copy_external_target, copy_metric_check, copy_metric_target, copy_migrations,
  copy_min_pod_version, copy_reference, copy_object_target, copy_pods_target, copy_post_checks,
  copy_pre_checks, copy_runner, copy_threshold,
}
use automatic_db_upgrades.Api.Copies.{
  AreDeep, aws-IsDeep, checks-IsDeep, connection-IsDeep, spec-IsDeep, status-IsDeep,
  database-IsDeep, external_target-IsDeep, metric_check-IsDeep, target-IsDeep, migrations-IsDeep,
  min_pod_version-IsDeep, reference-IsDeep, object_target-IsDeep, pods_target-IsDeep,
  post_checks-IsDeep, pre_checks-IsDeep, runner-IsDeep, threshold-IsDeep,
}

-- `func (in *T) DeepCopy() *T`: nil for nil, and otherwise a new object that DeepCopyInto fills.
unfoldable deep_copy_aws : Copy (Pointer AwsCell)
deep_copy_aws = copy_target copy_aws

unfoldable deep_copy_migrations : Copy (Pointer MigrationsCell)
deep_copy_migrations = copy_target copy_migrations

unfoldable deep_copy_reference : Copy (Pointer ReferenceCell)
deep_copy_reference = copy_target copy_reference

unfoldable deep_copy_runner : Copy (Pointer RunnerCell)
deep_copy_runner = copy_target copy_runner

module _ (F : Foreign) where
  unfoldable deep_copy_checks : Copy (Pointer (ChecksCell F))
  deep_copy_checks = copy_target (copy_checks F)

  unfoldable deep_copy_connection : Copy (Pointer (ConnectionCell F))
  deep_copy_connection = copy_target (copy_connection F)

  unfoldable deep_copy_spec : Copy (Pointer (SpecCell F))
  deep_copy_spec = copy_target (copy_spec F)

  unfoldable deep_copy_status : Copy (Pointer (StatusCell F))
  deep_copy_status = copy_target (copy_status F)

  unfoldable deep_copy_database : Copy (Pointer (DatabaseCell F))
  deep_copy_database = copy_target (copy_database F)

  unfoldable deep_copy_external_target : Copy (Pointer (ExternalTargetCell F))
  deep_copy_external_target = copy_target (copy_external_target F)

  unfoldable deep_copy_metric_check : Copy (Pointer (MetricCheckCell F))
  deep_copy_metric_check = copy_target (copy_metric_check F)

  unfoldable deep_copy_target : Copy (Pointer (MetricTargetCell F))
  deep_copy_target = copy_target (copy_metric_target F)

  unfoldable deep_copy_min_pod_version : Copy (Pointer (MinPodVersionCell F))
  deep_copy_min_pod_version = copy_target (copy_min_pod_version F)

  unfoldable deep_copy_object_target : Copy (Pointer (ObjectTargetCell F))
  deep_copy_object_target = copy_target (copy_object_target F)

  unfoldable deep_copy_pods_target : Copy (Pointer (PodsTargetCell F))
  deep_copy_pods_target = copy_target (copy_pods_target F)

  unfoldable deep_copy_post_checks : Copy (Pointer (PostChecksCell F))
  deep_copy_post_checks = copy_target (copy_post_checks F)

  unfoldable deep_copy_pre_checks : Copy (Pointer (PreChecksCell F))
  deep_copy_pre_checks = copy_target (copy_pre_checks F)

  unfoldable deep_copy_threshold : Copy (Pointer (ThresholdCell F))
  deep_copy_threshold = copy_target (copy_threshold F)

-- A copy has the same value, in memory that was not in use.
IsApart : {V A : Type 0} → Layout V A → Copy (Pointer A) → Type 0
IsApart {A} L copy =
    (n : ℕ) (p : Pointer A) (used : List ℕ)
    → All (λ x. x < n) used
    → ((pointer L).plain (copy n p).0 ≡ (pointer L).plain p)
      × All (λ x. ¬ Memᴰ x used) ((pointer L).addresses (copy n p).0)

copy-IsApart :
    {V A : Type 0} {L : Layout V A} {copy : Copy A} → IsDeep L copy → IsApart L (copy_target copy)
unfolding IsApart
copy-IsApart deep n p used before =
    let copies = pointer-IsDeep deep in (copies.same n p, IsDeep-apart copies n p used before)

module _ (F : Foreign) (foreign : AreDeep F) where
  deep_copy_aws-IsApart : IsApart aws_layout deep_copy_aws
  unfolding deep_copy_aws copy_aws
  deep_copy_aws-IsApart = copy-IsApart aws-IsDeep

  deep_copy_checks-IsApart : IsApart (checks_layout F) (deep_copy_checks F)
  unfolding deep_copy_checks
  deep_copy_checks-IsApart = copy-IsApart (checks-IsDeep F foreign)

  deep_copy_connection-IsApart : IsApart (connection_layout F) (deep_copy_connection F)
  unfolding deep_copy_connection
  deep_copy_connection-IsApart = copy-IsApart (connection-IsDeep F foreign)

  deep_copy_spec-IsApart : IsApart (spec_layout F) (deep_copy_spec F)
  unfolding deep_copy_spec
  deep_copy_spec-IsApart = copy-IsApart (spec-IsDeep F foreign)

  deep_copy_status-IsApart : IsApart (status_layout F) (deep_copy_status F)
  unfolding deep_copy_status
  deep_copy_status-IsApart = copy-IsApart (status-IsDeep F foreign)

  deep_copy_database-IsApart : IsApart (database_layout F) (deep_copy_database F)
  unfolding deep_copy_database
  deep_copy_database-IsApart = copy-IsApart (database-IsDeep F foreign)

  deep_copy_external_target-IsApart :
      IsApart (external_target_layout F) (deep_copy_external_target F)
  unfolding deep_copy_external_target
  deep_copy_external_target-IsApart = copy-IsApart (external_target-IsDeep F foreign)

  deep_copy_metric_check-IsApart : IsApart (metric_check_layout F) (deep_copy_metric_check F)
  unfolding deep_copy_metric_check
  deep_copy_metric_check-IsApart = copy-IsApart (metric_check-IsDeep F foreign)

  deep_copy_target-IsApart : IsApart (target_layout F) (deep_copy_target F)
  unfolding deep_copy_target
  deep_copy_target-IsApart = copy-IsApart (target-IsDeep F foreign)

  deep_copy_migrations-IsApart : IsApart migrations_layout deep_copy_migrations
  unfolding deep_copy_migrations copy_migrations
  deep_copy_migrations-IsApart = copy-IsApart migrations-IsDeep

  deep_copy_min_pod_version-IsApart :
      IsApart (min_pod_version_layout F) (deep_copy_min_pod_version F)
  unfolding deep_copy_min_pod_version
  deep_copy_min_pod_version-IsApart = copy-IsApart (min_pod_version-IsDeep F foreign)

  deep_copy_reference-IsApart : IsApart reference_layout deep_copy_reference
  unfolding deep_copy_reference copy_reference
  deep_copy_reference-IsApart = copy-IsApart reference-IsDeep

  deep_copy_object_target-IsApart : IsApart (object_target_layout F) (deep_copy_object_target F)
  unfolding deep_copy_object_target
  deep_copy_object_target-IsApart = copy-IsApart (object_target-IsDeep F foreign)

  deep_copy_pods_target-IsApart : IsApart (pods_target_layout F) (deep_copy_pods_target F)
  unfolding deep_copy_pods_target
  deep_copy_pods_target-IsApart = copy-IsApart (pods_target-IsDeep F foreign)

  deep_copy_post_checks-IsApart : IsApart (post_checks_layout F) (deep_copy_post_checks F)
  unfolding deep_copy_post_checks
  deep_copy_post_checks-IsApart = copy-IsApart (post_checks-IsDeep F foreign)

  deep_copy_pre_checks-IsApart : IsApart (pre_checks_layout F) (deep_copy_pre_checks F)
  unfolding deep_copy_pre_checks
  deep_copy_pre_checks-IsApart = copy-IsApart (pre_checks-IsDeep F foreign)

  deep_copy_runner-IsApart : IsApart runner_layout deep_copy_runner
  unfolding deep_copy_runner
  deep_copy_runner-IsApart = copy-IsApart runner-IsDeep

  deep_copy_threshold-IsApart : IsApart (threshold_layout F) (deep_copy_threshold F)
  unfolding deep_copy_threshold
  deep_copy_threshold-IsApart = copy-IsApart (threshold-IsDeep F foreign)
