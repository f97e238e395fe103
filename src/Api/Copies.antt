-- ===== src/Api/Copies.antt =====
-- api/v1alpha1/zz_generated.deepcopy.go: the copies are deep, if those of k8s.io are.
use mathlib.Core.List.{Memᴰ}
use automatic_db_upgrades.Common.{ℕ, List, ◌≡◌, ◌<◌, All}
use automatic_db_upgrades.Api.Memory.{Pointer, pointer, assigned}
use automatic_db_upgrades.Api.Deep.{
  IsDeep, scalar-IsDeep, pointer-IsDeep, slice-IsDeep, struct-IsDeep, ◌also◌, IsDeep-apart,
}
use automatic_db_upgrades.Api.Layouts.{
  Foreign, UpgradeCell, ListCell, runner_layout, aws_layout, migrations_layout, reference_layout,
  connection_layout, database_layout, min_pod_version_layout, pods_target_layout,
  object_target_layout, external_target_layout, target_layout, threshold_layout,
  metric_check_layout, pre_checks_layout, post_checks_layout, checks_layout, spec_layout,
  status_layout, upgrade_layout, list_layout,
}
use automatic_db_upgrades.Api.DeepCopy.{
  copy_runner, copy_connection, copy_database, copy_min_pod_version, copy_pods_target,
  copy_object_target, copy_external_target, copy_metric_target, copy_threshold, copy_metric_check,
  copy_pre_checks, copy_post_checks, copy_checks, copy_spec, copy_status, copy_upgrade, copy_list,
  deep_copy_upgrade, deep_copy_list,
}

-- What the deep copies of k8s.io do.
pub record AreDeep (F : Foreign) : Type 0 where
  pub label_selector : IsDeep F.label_selector F.copy_label_selector
  pub secret_key_selector : IsDeep F.secret_key_selector F.copy_secret_key_selector
  pub time : IsDeep F.time F.copy_time
  pub condition : IsDeep F.condition F.copy_condition
  pub quantity : IsDeep F.quantity F.copy_quantity
  pub object_meta : IsDeep F.object_meta F.copy_object_meta
  pub list_meta : IsDeep F.list_meta F.copy_list_meta

-- Structs without pointers: the assignment is deep, field by field.
pub aws-IsDeep : IsDeep aws_layout assigned
aws-IsDeep =
    struct-IsDeep
      (scalar-IsDeep _
        also scalar-IsDeep _
        also scalar-IsDeep _
        also scalar-IsDeep _
        also scalar-IsDeep _
        also scalar-IsDeep _)
      _

pub migrations-IsDeep : IsDeep migrations_layout assigned
migrations-IsDeep = struct-IsDeep (scalar-IsDeep _ also scalar-IsDeep _) _

pub reference-IsDeep : IsDeep reference_layout assigned
reference-IsDeep = struct-IsDeep (scalar-IsDeep _ also scalar-IsDeep _ also scalar-IsDeep _) _

pub runner-IsDeep : IsDeep runner_layout copy_runner
unfolding copy_runner
runner-IsDeep = struct-IsDeep (pointer-IsDeep (scalar-IsDeep _)) _

module _ (F : Foreign) (foreign : AreDeep F) where
  pub connection-IsDeep : IsDeep (connection_layout F) (copy_connection F)
  unfolding copy_connection
  connection-IsDeep = struct-IsDeep (pointer-IsDeep foreign.secret_key_selector) _

  pub database-IsDeep : IsDeep (database_layout F) (copy_database F)
  unfolding copy_database
  database-IsDeep =
      struct-IsDeep
        (scalar-IsDeep _ also pointer-IsDeep connection-IsDeep also pointer-IsDeep aws-IsDeep) _

  pub min_pod_version-IsDeep : IsDeep (min_pod_version_layout F) (copy_min_pod_version F)
  unfolding copy_min_pod_version
  min_pod_version-IsDeep =
      struct-IsDeep
        (foreign.label_selector
          also scalar-IsDeep _
          also scalar-IsDeep _
          also pointer-IsDeep (scalar-IsDeep _)
          also scalar-IsDeep _)
        _

  pub pods_target-IsDeep : IsDeep (pods_target_layout F) (copy_pods_target F)
  unfolding copy_pods_target
  pods_target-IsDeep = struct-IsDeep (foreign.label_selector) _

  pub object_target-IsDeep : IsDeep (object_target_layout F) (copy_object_target F)
  unfolding copy_object_target
  object_target-IsDeep =
      struct-IsDeep (reference-IsDeep also pointer-IsDeep foreign.label_selector) _

  pub external_target-IsDeep : IsDeep (external_target_layout F) (copy_external_target F)
  unfolding copy_external_target
  external_target-IsDeep = struct-IsDeep (pointer-IsDeep foreign.label_selector) _

  pub target-IsDeep : IsDeep (target_layout F) (copy_metric_target F)
  unfolding copy_metric_target
  target-IsDeep =
      struct-IsDeep
        (scalar-IsDeep _
          also pointer-IsDeep pods_target-IsDeep
          also pointer-IsDeep object_target-IsDeep
          also pointer-IsDeep external_target-IsDeep)
        _

  pub threshold-IsDeep : IsDeep (threshold_layout F) (copy_threshold F)
  unfolding copy_threshold
  threshold-IsDeep = struct-IsDeep (scalar-IsDeep _ also foreign.quantity) _

  pub metric_check-IsDeep : IsDeep (metric_check_layout F) (copy_metric_check F)
  unfolding copy_metric_check
  metric_check-IsDeep =
      struct-IsDeep
        (scalar-IsDeep _
          also scalar-IsDeep _
          also scalar-IsDeep _
          also target-IsDeep
          also threshold-IsDeep
          also scalar-IsDeep _
          also scalar-IsDeep _
          also scalar-IsDeep _)
        _

  pub pre_checks-IsDeep : IsDeep (pre_checks_layout F) (copy_pre_checks F)
  unfolding copy_pre_checks
  pre_checks-IsDeep =
      struct-IsDeep (slice-IsDeep min_pod_version-IsDeep also slice-IsDeep metric_check-IsDeep) _

  pub post_checks-IsDeep : IsDeep (post_checks_layout F) (copy_post_checks F)
  unfolding copy_post_checks
  post_checks-IsDeep = struct-IsDeep (slice-IsDeep metric_check-IsDeep) _

  pub checks-IsDeep : IsDeep (checks_layout F) (copy_checks F)
  unfolding copy_checks
  checks-IsDeep = struct-IsDeep (pre_checks-IsDeep also post_checks-IsDeep) _

  pub spec-IsDeep : IsDeep (spec_layout F) (copy_spec F)
  unfolding copy_spec
  spec-IsDeep =
      struct-IsDeep
        (migrations-IsDeep
          also database-IsDeep
          also pointer-IsDeep checks-IsDeep
          also pointer-IsDeep runner-IsDeep)
        _

  pub status-IsDeep : IsDeep (status_layout F) (copy_status F)
  unfolding copy_status
  status-IsDeep =
      struct-IsDeep
        (scalar-IsDeep _ also pointer-IsDeep foreign.time also slice-IsDeep foreign.condition) _

  pub upgrade-IsDeep : IsDeep (upgrade_layout F) (copy_upgrade F)
  unfolding copy_upgrade
  upgrade-IsDeep = struct-IsDeep (foreign.object_meta also spec-IsDeep also status-IsDeep) _

  pub list-IsDeep : IsDeep (list_layout F) (copy_list F)
  unfolding copy_list
  list-IsDeep = struct-IsDeep (foreign.list_meta also slice-IsDeep upgrade-IsDeep) _

  -- If the deep copies of the types of k8s.io are deep, so is DeepCopy of a DBUpgrade: the copy has the
  -- same value, and none of its pointers and slices lies where memory was in use before, so that a
  -- write to the one is not seen in the other.
  pub deep_copy_upgrade-apart :
      (n : ℕ) (p : Pointer (UpgradeCell F)) (used : List ℕ)
      → All (λ x. x < n) used
      → ((pointer (upgrade_layout F)).plain (deep_copy_upgrade F n p).0
          ≡ (pointer (upgrade_layout F)).plain p)
        × All
            (λ x. ¬ Memᴰ x used)
            ((pointer (upgrade_layout F)).addresses (deep_copy_upgrade F n p).0)
  unfolding deep_copy_upgrade
  deep_copy_upgrade-apart n p used before =
      let copies = pointer-IsDeep upgrade-IsDeep in
      (copies.same n p, IsDeep-apart copies n p used before)

  -- The same for a list of them.
  pub deep_copy_list-apart :
      (n : ℕ) (p : Pointer (ListCell F)) (used : List ℕ)
      → All (λ x. x < n) used
      → ((pointer (list_layout F)).plain (deep_copy_list F n p).0
          ≡ (pointer (list_layout F)).plain p)
        × All (λ x. ¬ Memᴰ x used) ((pointer (list_layout F)).addresses (deep_copy_list F n p).0)
  unfolding deep_copy_list
  deep_copy_list-apart n p used before =
      let copies = pointer-IsDeep list-IsDeep in
      (copies.same n p, IsDeep-apart copies n p used before)
