-- ===== src/Api/Conditions.antt =====
-- api/v1alpha1/conditions.go. meta.SetStatusCondition is a call of the cluster interface; what its
-- documentation promises is `SetsConditions`.
use automatic_db_upgrades.Common.{
  ℤ, String, Bool, Option, none, some, true, false, List, [], ◌∷◌, ◌≡◌, ◌≢◌, ◌∙◌, refl, ◌==◌,
  ==-eq-false, String-discrete, if◌then◌else◌,
}
use automatic_db_upgrades.Kube.Objects.{ConditionStatus, is_true, is_false, Condition}
use automatic_db_upgrades.Kube.Cluster.{Cluster}
use automatic_db_upgrades.Kube.Monad.{M, ask}
use automatic_db_upgrades.Api.Types.{condition_ready, condition_progressing}

-- The reason constants; `no_reason` is the empty text of a result that gives none.
pub data Reason : Type 0 where
  initializing migration_in_progress migration_complete job_failed_reason job_pending : Reason
  secret_not_found aws_not_supported : Reason
  pre_check_image_version_failed pre_check_metric_failed : Reason
  post_check_failed post_check_bake_time_waiting no_reason : Reason

abbrev pub reason_text : Reason → String
reason_text initializing = "Initializing"
reason_text migration_in_progress = "MigrationInProgress"
reason_text migration_complete = "MigrationComplete"
reason_text job_failed_reason = "JobFailed"
reason_text job_pending = "JobPending"
reason_text secret_not_found = "SecretNotFound"
reason_text aws_not_supported = "AWSNotSupported"
reason_text pre_check_image_version_failed = "PreCheckImageVersionFailed"
reason_text pre_check_metric_failed = "PreCheckMetricFailed"
reason_text post_check_failed = "PostCheckFailed"
reason_text post_check_bake_time_waiting = "PostCheckBakeTimeWaiting"
reason_text no_reason = ""

abbrev pub status_of : Bool → ConditionStatus
status_of true = is_true
status_of false = is_false

-- The condition of a type, as meta.FindStatusCondition finds it.
unfoldable pub find_condition : String → List Condition → Option Condition
find_condition kind [] = none
find_condition kind (c ∷ cs) =
    let rest = find_condition kind cs in if c.kind == kind then some c else rest

-- A condition of the type stands in the list with this status, reason, message and generation.
pub record Shows (kind : String) (status : Bool) (reason message : String) (generation : ℤ)
    (cs : List Condition) : Type 0 where
  pub condition : Condition
  pub found : find_condition kind cs ≡ some condition
  pub status_eq : condition.status ≡ status_of status
  pub reason_eq : condition.reason ≡ reason
  pub message_eq : condition.message ≡ message
  pub generation_eq : condition.observed_generation ≡ generation

-- What is shown depends on the condition of that type only.
pub Shows-find_condition :
    {kind reason message : String} {status : Bool} {generation : ℤ} {cs ds : List Condition}
    → find_condition kind ds ≡ find_condition kind cs
    → Shows kind status reason message generation cs
    → Shows kind status reason message generation ds
Shows-find_condition same_one shown = record {
  condition = shown.condition;
  found = same_one ∙ shown.found;
  status_eq = shown.status_eq;
  reason_eq = shown.reason_eq;
  message_eq = shown.message_eq;
  generation_eq = shown.generation_eq;
}

pub ready-ne-progressing : condition_ready ≢ condition_progressing
unfolding String-discrete
ready-ne-progressing = ==-eq-false condition_ready condition_progressing refl

-- What the documentation of meta.SetStatusCondition promises: afterwards the condition of that type
-- is the given one but for the transition time, and no other type's condition has changed.
pub record SetsConditions (C : Cluster) : Type 0 where
  pub sets :
      (c : Condition) (cs : List Condition) (w : C.World) (status : Bool)
      → c.status ≡ status_of status
      → Shows c.kind status c.reason c.message c.observed_generation
          (C.set_status_condition c cs w).0
  pub keeps :
      (c : Condition) (cs : List Condition) (w : C.World) (kind : String)
      → kind ≢ c.kind
      → find_condition kind (C.set_status_condition c cs w).0 ≡ find_condition kind cs

module _ (C : Cluster) where
  -- SetCondition. The transition time is set by the callee.
  unfoldable pub set_condition :
      String → Bool → String → String → ℤ → List Condition → M C.World (List Condition)
  set_condition kind status reason message generation conditions = ask (
      C.set_status_condition
        (record {
          kind = kind;
          status = status_of status;
          observed_generation = generation;
          last_transition = 0;
          reason = reason;
          message = message;
        })
        conditions)

  unfoldable pub set_ready :
      Bool → String → String → ℤ → List Condition → M C.World (List Condition)
  set_ready = set_condition condition_ready

  unfoldable pub set_progressing :
      Bool → String → String → ℤ → List Condition → M C.World (List Condition)
  set_progressing = set_condition condition_progressing
