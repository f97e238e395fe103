-- ===== src/Kube/Objects.antt =====
-- The k8s.io types, reduced to the fields that the operator reads or writes. A pointer is an
-- `Option`; a nil slice and an empty one are the same list.
use automatic_db_upgrades.Common.{ℕ, String, Bool, Option, List, Bytes, ℤ}

-- metav1.Time, in nanoseconds since the epoch.
abbrev pub Time : Type 0
Time = ℕ

-- resource.Quantity by its canonical text; what it stands for is given by `Quantities`.
pub record Quantity : Type 0 where
  pub text : String

pub record SelectorRequirement : Type 0 where
  pub key : String
  pub operator : String
  pub values : List String

pub record LabelSelector : Type 0 where
  pub match_labels : List (String × String)
  pub match_expressions : List SelectorRequirement

pub record SecretKeySelector : Type 0 where
  pub name : String
  pub key : String
  pub optional : Option Bool

pub record OwnerReference : Type 0 where
  pub api_version : String
  pub kind : String
  pub name : String
  pub uid : String
  pub controller : Option Bool
  pub block_owner_deletion : Option Bool

-- corev1.Secret. `none` in `contents` is a nil map.
pub record Secret : Type 0 where
  pub name : String
  pub namespace : String
  pub owners : List OwnerReference
  pub kind : String
  pub contents : Option (List (String × Bytes))

pub data ConditionStatus : Type 0 where
  is_true is_false is_unknown : ConditionStatus

-- metav1.Condition
pub record Condition : Type 0 where
  pub kind : String
  pub status : ConditionStatus
  pub observed_generation : ℤ
  pub last_transition : Time
  pub reason : String
  pub message : String

-- batchv1.JobCondition
pub data JobConditionType : Type 0 where
  job_complete job_failed : JobConditionType
  other_type : String → JobConditionType

pub record JobCondition : Type 0 where
  pub kind : JobConditionType
  pub status : ConditionStatus

pub record JobStatus : Type 0 where
  pub active : ℤ
  pub conditions : List JobCondition
  pub completion_time : Option Time

pub record VolumeMount : Type 0 where
  pub name : String
  pub mount_path : String

-- The value of an EnvVar is taken from a key of a Secret.
pub record EnvFromSecret : Type 0 where
  pub name : String
  pub secret_name : String
  pub secret_key : String

pub record Container : Type 0 where
  pub name : String
  pub image : String
  pub command : List String
  pub args : List String
  pub env : List EnvFromSecret
  pub mounts : List VolumeMount

pub record JobSpec : Type 0 where
  pub backoff_limit : Option ℤ
  pub active_deadline_seconds : Option ℤ
  pub restart_policy : String
  -- names of the emptyDir volumes
  pub volumes : List String
  pub init_containers : List Container
  pub containers : List Container

pub record Job : Type 0 where
  pub name : String
  pub namespace : String
  pub owners : List OwnerReference
  pub spec : JobSpec
  pub status : JobStatus

pub record Pod : Type 0 where
  pub name : String
  pub namespace : String
  pub containers : List Container
  pub init_containers : List Container

-- corev1.Event
pub record ClusterEvent : Type 0 where
  pub name : String
  pub namespace : String
  pub object_api_version : String
  pub object_kind : String
  pub object_namespace : String
  pub object_name : String
  pub object_uid : String
  pub kind : String
  pub reason : String
  pub message : String
  pub component : String
  pub first_timestamp : Time
  pub last_timestamp : Time
  pub count : ℕ
