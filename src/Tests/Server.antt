-- ===== src/Tests/Server.antt =====
-- A server, a clock and libraries that answer with what a test gives them.
use automatic_db_upgrades.Common.{
  ℕ, ◌+◌, ◌/◌, ℤ, pos, negsuc, String, ◌<>◌, true, false, none, some, List, [], ◌∷◌, ltb, leb, ◌==◌,
  ◌&&◌, if◌then◌else◌, show_ℕ,
}
use automatic_db_upgrades.Kube.Objects.{Time, Quantity, Secret, Job, Pod}
use automatic_db_upgrades.Kube.Meta.{Result, ok, err, ApiError, not_found}
use automatic_db_upgrades.Kube.Cluster.{Cluster}
use automatic_db_upgrades.Kube.Monad.{State}
use automatic_db_upgrades.Api.Types.{DbUpgrade}
use automatic_db_upgrades.Checks.Version.{Semver}
use automatic_db_upgrades.Checks.Values.{Floats}
use automatic_db_upgrades.Controller.Result.{Reconciler}
use automatic_db_upgrades.Controller.Jobs.{Hashing}
use automatic_db_upgrades.Tests.Objects.{full_secret, pod}

-- What the server holds.
pub record Served : Type 0 where
  pub upgrade : Result ApiError DbUpgrade
  pub jobs : List Job
  pub pods : List Pod
  pub metrics : List Quantity
  pub clock : Time

-- The Jobs of a namespace.
unfoldable pub in_namespace : String → List Job → List Job
in_namespace namespace [] = []
in_namespace namespace (job ∷ jobs) =
    let rest = in_namespace namespace jobs in
    if job.namespace == namespace then job ∷ rest else rest

-- The Jobs without the first of that name and namespace.
unfoldable pub without : Job → List Job → List Job
without gone [] = []
without gone (job ∷ jobs) =
    let rest = without gone jobs in
    if job.name == gone.name && job.namespace == gone.namespace then jobs else job ∷ rest

-- A cluster whose Secrets are all one.
abbrev pub serving : Result ApiError Secret → Cluster
serving secret = record {
  World = Served;
  Selector = Unit;
  as_selector = λ _. ok tt;
  everything = tt;
  get_upgrade = λ _ _ w. (w.upgrade, w);
  get_secret = λ _ _ w. (secret, w);
  list_jobs = λ namespace w. (ok (in_namespace namespace w.jobs), w);
  list_pods = λ _ _ w. (ok w.pods, w);
  create_secret = λ s w. (ok s, w);
  update_secret = λ s w. (ok s, w);
  create_job = λ job w. (none, record w { jobs = job ∷ w.jobs });
  delete_job = λ job w. (none, record w { jobs = without job w.jobs });
  create_event = λ _ w. (none, w);
  update_status = λ u w. (none, record w { upgrade = ok u });
  set_status_condition = λ c cs w. (c ∷ cs, w);
  now = λ w. (w.clock, w);
  new_discovery_client = λ w. (none, w);
  get_api_group_resources = λ w. (none, w);
  new_external_client = λ w. (none, w);
  metrics_for_objects = λ _ _ _ w. (ok w.metrics, w);
  metric_for_object = λ _ _ _ _ _ w. (err "no such metric", w);
  external_metrics = λ _ _ _ w. (ok w.metrics, w);
  AwsConfig = String;
  empty_config = "";
  load_default_config = λ w. (ok "base", w);
  with_region = λ region cfg. cfg <> region;
  assume_role = λ role _ _ cfg. cfg <> role;
  build_auth_token = λ _ _ _ _ w. (ok "token", w);
}

-- Versions are 1.0.0 and 2.0.0.
abbrev pub two_versions : Semver
two_versions = record {
  Version = ℕ;
  new_version = λ s.
      if s == "1.0.0" then ok 1 else if s == "2.0.0" then ok 2 else err "Invalid Semantic Version";
  less_than = ltb;
  compare = λ a b. if ltb a b then negsuc 0 else if ltb b a then pos 1 else pos 0;
}

abbrev whole : ℤ → ℕ
whole (pos n) = n
whole (negsuc _) = 0

-- Numbers without a fraction; the quantities are 0 and 5.
abbrev pub whole_numbers : Floats
whole_numbers = record {
  Float = ℕ;
  zero = 0;
  add = λ a b. a + b;
  div = λ a b. a / b;
  of_ℕ = λ n. n;
  of_ℤ = whole;
  less = ltb;
  less_eq = leb;
  fixed4 = show_ℕ;
  milli_value = λ q. if q.text == "0" then pos 0 else pos 5000;
  as_approximate_float64 = λ q. if q.text == "0" then 0 else 5;
  is_zero = λ q. q.text == "0";
}

abbrev pub one_hash : Hashing
one_hash = record { marshal = λ _. some []; sha256 = λ _. 0xab ∷ 0xcd ∷ 0xef ∷ 0x01 ∷ 0x23 ∷ [] }

-- The Secrets by their names: the customer's, and the operator's or none.
abbrev pub by_name : Result ApiError Secret → String → Result ApiError Secret
by_name own name =
    if name == "db"
    then ok full_secret
    else if name == "dbupgrade-app-connection"
    then own
    else err (not_found name)

abbrev pub no_secret : Result ApiError Secret
no_secret = err (not_found "dbupgrade-app-connection")

abbrev pub server : Cluster
server = serving (ok full_secret)

abbrev pub served : DbUpgrade → List Job → Served
served u jobs = record {
  upgrade = ok u;
  jobs = jobs;
  pods = pod "app:2.0.0" ∷ [];
  metrics = record { text = "5" } ∷ [];
  clock = 2000000000;
}

abbrev pub start : Served → State Served
start w = record { world = w; trace = [] }

abbrev pub reconciler : (secret : Result ApiError Secret) → Reconciler (serving secret)
reconciler secret = record {
  settings = record {
    crane_image = "crane";
    atlas_image = "atlas";
    allow_insecure_registries = false;
  };
  has_rest_config = true;
  aws_client_manager = some (record { base_config = "base"; initialized = true });
}
