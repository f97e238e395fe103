-- ===== src/Controller/Result.antt =====
-- controllers/dbupgrade_controller.go: what a reconcile hands to the status, and the settings that
-- the process reads from its environment.
use automatic_db_upgrades.Common.{
  String, ◌==◌, Bool, true, false, Option, none, some, ℤ, pos, if◌then◌else◌,
}
use automatic_db_upgrades.Kube.Objects.{Time}
use automatic_db_upgrades.Kube.Cluster.{Cluster}
use automatic_db_upgrades.Api.Conditions.{Reason, no_reason}
use automatic_db_upgrades.Aws.Manager.{ClientManager}

-- eventInfo
pub record EventInfo : Type 0 where
  pub kind : String
  pub reason : String
  pub message : String

-- reconcileResult; `requeue_after` is in seconds, since every duration is a whole number of them.
pub record ReconcileResult : Type 0 where
  pub ready : Bool
  pub ready_reason : Reason
  pub ready_message : String
  pub progressing : Bool
  pub progress_reason : Reason
  pub progress_message : String
  pub requeue_after : ℤ
  pub event : Option EventInfo
  pub job_completed_at : Option Time

-- `reconcileResult{ready: true}`
abbrev pub passed_checks : ReconcileResult
passed_checks = record {
  ready = true;
  ready_reason = no_reason;
  ready_message = "";
  progressing = false;
  progress_reason = no_reason;
  progress_message = "";
  requeue_after = pos 0;
  event = none;
  job_completed_at = none;
}

-- A literal with `ready: false`: one reason for both conditions, or two.
abbrev pub waiting : Bool → Reason → String → Reason → String → ℤ → ReconcileResult
waiting progressing ready_reason ready_message progress_reason progress_message after = record {
  ready = false;
  ready_reason = ready_reason;
  ready_message = ready_message;
  progressing = progressing;
  progress_reason = progress_reason;
  progress_message = progress_message;
  requeue_after = after;
  event = none;
  job_completed_at = none;
}

abbrev pub stuck : Reason → String → String → ℤ → ReconcileResult
stuck reason ready_message progress_message after =
    waiting false reason ready_message reason progress_message after

abbrev pub with_event : String → String → String → ReconcileResult → ReconcileResult
with_event kind reason message r = record r {
  event = some (record { kind = kind; reason = reason; message = message });
}

abbrev pub event_normal : String
event_normal = "Normal"

abbrev pub event_warning : String
event_warning = "Warning"

-- The package's variables.
pub record Settings : Type 0 where
  pub crane_image : String
  pub atlas_image : String
  pub allow_insecure_registries : Bool

unfoldable pub get_env_or_default : (String → String) → String → String → String
get_env_or_default getenv key default_value = if getenv key == "" then default_value else getenv key

unfoldable pub load_settings : (String → String) → Settings
unfolding get_env_or_default
load_settings getenv = record {
  crane_image = get_env_or_default getenv "CRANE_IMAGE" "gcr.io/go-containerregistry/crane:debug";
  atlas_image = get_env_or_default getenv "ATLAS_IMAGE" "arigaio/atlas:latest";
  allow_insecure_registries = getenv "ALLOW_INSECURE_REGISTRIES" == "true";
}

-- DBUpgradeReconciler, with the package's variables; of the rest config only its presence matters.
pub record Reconciler (C : Cluster) : Type 0 where
  pub settings : Settings
  pub has_rest_config : Bool
  pub aws_client_manager : Option (ClientManager C)
