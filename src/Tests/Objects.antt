-- ===== src/Tests/Objects.antt =====
-- Objects that the examples share.
use automatic_db_upgrades.Common.{pos, String, false, Option, none, some, List, [], ◌∷◌, Bytes}
use automatic_db_upgrades.Kube.Objects.{
  Time, LabelSelector, SecretKeySelector, Secret, job_complete, is_true, Job, Container, Pod,
  Condition,
}
use automatic_db_upgrades.Api.Types.{
  self_hosted, aws_rds, DatabaseSpec, ConnectionSpec, AwsSpec, ChecksSpec, MinPodVersionCheck,
  MetricCheck, custom_source, pods_target, lt, reduce_max, DbUpgradeSpec, DbUpgrade,
}
use automatic_db_upgrades.Controller.Jobs.{owner_reference}

abbrev pub any_pod : LabelSelector
any_pod = record { match_labels = []; match_expressions = [] }

abbrev pub url_ref : SecretKeySelector
url_ref = record { name = "db"; key = "url"; optional = none }

abbrev pub connection : ConnectionSpec
connection = record { url_secret_ref = some url_ref }

abbrev pub hosted : DatabaseSpec
hosted = record { kind = self_hosted; connection = some connection; aws = none }

abbrev pub role : AwsSpec
role = record {
  role_arn = "arn:aws:iam::1:role/db";
  region = "eu-west-1";
  host = "db.example.com";
  port = pos 5432;
  db_name = "app";
  username = "migrator";
}

abbrev pub on_aws : DatabaseSpec
on_aws = record { kind = aws_rds; connection = none; aws = some role }

abbrev pub at_least_two : MinPodVersionCheck
at_least_two = record {
  selector = any_pod;
  min_version = "2.0.0";
  container_name = "";
  strict_mode = none;
  disallow_downgrade = false;
}

abbrev pub few_errors : MetricCheck
few_errors = record {
  name = "errors";
  source = custom_source;
  metric_name = "errors_per_minute";
  target = record {
    kind = pods_target;
    pods = some (record { selector = any_pod });
    object = none;
    external = none;
  };
  threshold = record { operator = lt; value = record { text = "5" } };
  reduce = reduce_max;
  bake_seconds = pos 60;
  interval_seconds = pos 0;
}

abbrev pub both_checks : ChecksSpec
both_checks = record {
  pre = record { min_pod_versions = at_least_two ∷ []; metrics = [] };
  post = record { metrics = few_errors ∷ [] };
}

abbrev pub spec_of : DatabaseSpec → Option ChecksSpec → DbUpgradeSpec
spec_of database checks = record {
  migrations = record { image = "app:2.0.0"; dir = "/migrations" };
  database = database;
  checks = checks;
  runner = none;
}

abbrev pub upgrade_of : DbUpgradeSpec → List Condition → DbUpgrade
upgrade_of spec conditions = record {
  name = "app";
  namespace = "team";
  uid = "u1";
  generation = pos 3;
  spec = spec;
  status = record { observed_generation = pos 2; job_completed_at = none; conditions = conditions };
}

abbrev pub checked : DbUpgrade
checked = upgrade_of (spec_of hosted (some both_checks)) []

abbrev pub unchecked : DbUpgrade
unchecked = upgrade_of (spec_of hosted none) []

abbrev pub secret_with : Option (List (String × Bytes)) → Secret
secret_with contents = record {
  name = "db";
  namespace = "team";
  owners = [];
  kind = "Opaque";
  contents = contents;
}

abbrev pub full_secret : Secret
full_secret = secret_with (some (("url", 0x61 ∷ []) ∷ []))

-- The operator's Secret for the URL in `full_secret`.
abbrev pub own_secret : Secret
own_secret = record full_secret { name = "dbupgrade-app-connection" }

abbrev pub container : String → Container
container image = record {
  name = "app";
  image = image;
  command = [];
  args = [];
  env = [];
  mounts = [];
}

abbrev pub pod : String → Pod
pod image = record {
  name = "app-0";
  namespace = "team";
  containers = container image ∷ [];
  init_containers = [];
}

abbrev pub job_of : String → Option Time → Job
job_of name completed = record {
  name = name;
  namespace = "team";
  owners = owner_reference checked ∷ [];
  spec = record {
    backoff_limit = none;
    active_deadline_seconds = none;
    restart_policy = "Never";
    volumes = [];
    init_containers = [];
    containers = [];
  };
  status = record {
    active = pos 0;
    conditions = record { kind = job_complete; status = is_true } ∷ [];
    completion_time = completed;
  };
}
