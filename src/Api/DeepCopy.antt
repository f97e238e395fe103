-- ===== src/Api/DeepCopy.antt =====
-- api/v1alpha1/zz_generated.deepcopy.go. Each DeepCopyInto starts with `*out = *in`; what it does then
-- is given for each field, in the order of the fields: nothing, a field-wise copy, or new memory.
use automatic_db_upgrades.Api.Memory.{
  Pointer, Copy, assigned, copy_target, copy_elements, ◌followed_by◌,
}
use automatic_db_upgrades.Api.Layouts.{
  Foreign, AwsCell, MigrationsCell, ReferenceCell, RunnerCell, ConnectionCell, DatabaseCell,
  MinPodVersionCell, PodsTargetCell, ObjectTargetCell, ExternalTargetCell, MetricTargetCell,
  ThresholdCell, MetricCheckCell, PreChecksCell, PostChecksCell, ChecksCell, SpecCell, StatusCell,
  UpgradeCell, ListCell,
}

-- `*out = *in` and nothing more.
unfoldable pub copy_aws : Copy AwsCell
copy_aws = assigned

unfoldable pub copy_migrations : Copy MigrationsCell
copy_migrations = assigned

unfoldable pub copy_reference : Copy ReferenceCell
copy_reference = assigned

unfoldable pub copy_runner : Copy RunnerCell
copy_runner = copy_target assigned

module _ (F : Foreign) where
  unfoldable pub copy_connection : Copy (ConnectionCell F)
  copy_connection = copy_target F.copy_secret_key_selector

  -- The AWS configuration is assigned to the new memory: `**out = **in`.
  unfoldable pub copy_database : Copy (DatabaseCell F)
  copy_database = assigned followed_by copy_target copy_connection followed_by copy_target assigned

  unfoldable pub copy_min_pod_version : Copy (MinPodVersionCell F)
  copy_min_pod_version =
      F.copy_label_selector
      followed_by assigned
      followed_by assigned
      followed_by copy_target assigned
      followed_by assigned

  unfoldable pub copy_pods_target : Copy (PodsTargetCell F)
  copy_pods_target = F.copy_label_selector

  unfoldable pub copy_object_target : Copy (ObjectTargetCell F)
  copy_object_target = assigned followed_by copy_target F.copy_label_selector

  unfoldable pub copy_external_target : Copy (ExternalTargetCell F)
  copy_external_target = copy_target F.copy_label_selector

  unfoldable pub copy_metric_target : Copy (MetricTargetCell F)
  copy_metric_target =
      assigned
      followed_by copy_target copy_pods_target
      followed_by copy_target copy_object_target
      followed_by copy_target copy_external_target

  unfoldable pub copy_threshold : Copy (ThresholdCell F)
  copy_threshold = assigned followed_by F.copy_quantity

  unfoldable pub copy_metric_check : Copy (MetricCheckCell F)
  copy_metric_check =
      assigned followed_by assigned followed_by assigned followed_by copy_metric_target
      followed_by copy_threshold followed_by assigned followed_by assigned followed_by assigned

  unfoldable pub copy_pre_checks : Copy (PreChecksCell F)
  copy_pre_checks = copy_elements copy_min_pod_version followed_by copy_elements copy_metric_check

  unfoldable pub copy_post_checks : Copy (PostChecksCell F)
  copy_post_checks = copy_elements copy_metric_check

  unfoldable pub copy_checks : Copy (ChecksCell F)
  copy_checks = copy_pre_checks followed_by copy_post_checks

  unfoldable pub copy_spec : Copy (SpecCell F)
  copy_spec =
      assigned
      followed_by copy_database
      followed_by copy_target copy_checks
      followed_by copy_target copy_runner

  unfoldable pub copy_status : Copy (StatusCell F)
  copy_status =
      assigned followed_by copy_target F.copy_time followed_by copy_elements F.copy_condition

  unfoldable pub copy_upgrade : Copy (UpgradeCell F)
  copy_upgrade = F.copy_object_meta followed_by copy_spec followed_by copy_status

  unfoldable pub copy_list : Copy (ListCell F)
  copy_list = F.copy_list_meta followed_by copy_elements copy_upgrade

  -- DeepCopy and DeepCopyObject of a DBUpgrade and of a list: nil for nil, and otherwise a new object
  -- that DeepCopyInto fills.
  unfoldable pub deep_copy_upgrade : Copy (Pointer (UpgradeCell F))
  deep_copy_upgrade = copy_target copy_upgrade

  unfoldable pub deep_copy_list : Copy (Pointer (ListCell F))
  deep_copy_list = copy_target copy_list
