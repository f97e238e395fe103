-- ===== src/Kube/Cluster.antt =====
-- All that the operator calls outside its own code: the API server, the metrics APIs, the clock and
-- the AWS SDK. A call may be answered in any way and may see any change that others made, so even a
-- read returns a new world. No law is assumed here.
use automatic_db_upgrades.Common.{String, Option, List, ◌≡◌, ◌≢◌, none}
use automatic_db_upgrades.Kube.Objects.{
  Time, Quantity, LabelSelector, Secret, Job, Pod, ClusterEvent, Condition,
}
use automatic_db_upgrades.Kube.Meta.{Result, ok, ApiError}
use automatic_db_upgrades.Api.Types.{DbUpgrade}

pub record Cluster : Type 1 where
  pub World : Type 0
  -- labels.Selector, and metav1.LabelSelectorAsSelector
  pub Selector : Type 0
  pub as_selector : LabelSelector → Result String Selector
  pub everything : Selector
  -- client.Client, by namespace and name
  pub get_upgrade : String → String → World → Result ApiError DbUpgrade × World
  pub get_secret : String → String → World → Result ApiError Secret × World
  pub list_jobs : String → World → Result ApiError (List Job) × World
  pub list_pods : String → Selector → World → Result ApiError (List Pod) × World
  -- writes. A Secret that is written comes back as the server has it, since the client decodes the
  -- answer into the object that was sent; elsewhere `none` is success. Jobs are deleted with the propagation policy Background
  pub create_secret : Secret → World → Result ApiError Secret × World
  pub update_secret : Secret → World → Result ApiError Secret × World
  pub create_job : Job → World → Option ApiError × World
  pub delete_job : Job → World → Option ApiError × World
  pub create_event : ClusterEvent → World → Option ApiError × World
  pub update_status : DbUpgrade → World → Option ApiError × World
  -- meta.SetStatusCondition, which reads the clock
  pub set_status_condition : Condition → List Condition → World → List Condition × World
  -- the clock
  pub now : World → Time × World
  -- the clients of the metrics APIs: three calls that can fail, and the queries
  pub new_discovery_client : World → Option String × World
  pub get_api_group_resources : World → Option String × World
  pub new_external_client : World → Option String × World
  pub metrics_for_objects :
      String → Selector → String → World → Result String (List Quantity) × World
  pub metric_for_object :
      String → String → String → String → String → World → Result String Quantity × World
  pub external_metrics : String → String → Selector → World → Result String (List Quantity) × World
  -- the AWS SDK: the base configuration, and a token for a region, an endpoint and a user with the
  -- credentials of a role (and an external id), if one is named
  pub AwsConfig : Type 0
  pub empty_config : AwsConfig
  pub load_default_config : World → Result String AwsConfig × World
  pub with_region : String → AwsConfig → AwsConfig
  pub assume_role : String → Option String → String → AwsConfig → AwsConfig
  pub build_auth_token : String → String → String → AwsConfig → World → Result String String × World

-- What a Secret read from the server holds: a map, not nil.
abbrev pub SecretsHaveContents : Cluster → Type 0
SecretsHaveContents C =
    (namespace name : String) (w : C.World) (s : Secret)
    → (C.get_secret namespace name w).0 ≡ ok s
    → s.contents ≢ none
