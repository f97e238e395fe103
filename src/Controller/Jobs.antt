-- ===== src/Controller/Jobs.antt =====
-- controllers/dbupgrade_controller.go: the name, the search, the creation and the state of the
-- migration Job. json.Marshal and sha256.Sum256 are the interface `Hashing`.
use automatic_db_upgrades.Common.{
  String, ◌<>◌, ◌==◌, Bool, true, false, Option, none, some, List, [], ◌∷◌, ℤ, pos, ltb_ℤ,
  if◌then◌else◌, Bytes, show_hex_bytes,
}
use automatic_db_upgrades.Kube.Objects.{
  OwnerReference, ConditionStatus, is_true, JobConditionType, job_complete, job_failed,
  JobCondition, Job,
}
use automatic_db_upgrades.Kube.Meta.{Result, ok, err, ApiError, text}
use automatic_db_upgrades.Kube.Cluster.{Cluster}
use automatic_db_upgrades.Kube.Monad.{M, pure, ask, send, ◌>>=◌, created_job}
use automatic_db_upgrades.Api.Types.{DbUpgrade, DbUpgradeSpec}
use automatic_db_upgrades.Checks.Image.{take, drop}
use automatic_db_upgrades.Controller.Result.{Settings}

pub record Hashing : Type 0 where
  pub marshal : DbUpgradeSpec → Option Bytes
  pub sha256 : Bytes → Bytes

-- computeSpecHash
unfoldable pub compute_spec_hash : Hashing → DbUpgradeSpec → String
unfolding take show_hex_bytes
compute_spec_hash H spec = elim (H.marshal spec) [
  | none ↦ ""
  | some json ↦ take 8 (show_hex_bytes (H.sha256 json))
]

-- `fmt.Sprintf("dbupgrade-%s-%s", dbUpgrade.Name, hash)`
abbrev pub job_name : String → String → String
job_name name hash = "dbupgrade-" <> (name <> ("-" <> hash))

-- boolPtr: a new pointer to the Boolean
abbrev pub bool_ptr : Bool → Option Bool
bool_ptr b = some b

abbrev pub owner_reference : DbUpgrade → OwnerReference
owner_reference u = record {
  api_version = "dbupgrade.subbug.learning/v1alpha1";
  kind = "DBUpgrade";
  name = u.name;
  uid = u.uid;
  controller = bool_ptr true;
  block_owner_deletion = bool_ptr true;
}

unfoldable pub owns : String → List OwnerReference → Bool
owns uid [] = false
owns uid (owner ∷ owners) = let rest = owns uid owners in if owner.uid == uid then true else rest

-- The loops of getJobForDBUpgrade: the first Job with an owner of that UID.
unfoldable pub find_job : String → List Job → Option Job
find_job uid [] = none
find_job uid (job ∷ jobs) =
    let rest = find_job uid jobs in if owns uid job.owners then some job else rest

module _ (C : Cluster) where
  unfoldable pub get_job_for_upgrade : DbUpgrade → M C.World (Result String (Option Job))
  get_job_for_upgrade u = do
    listed ← ask (C.list_jobs u.namespace)
    pure (elim listed [
      | err e ↦ err ("failed to list Jobs: " <> text e)
      | ok jobs ↦ ok (find_job u.uid jobs)
    ])

unfoldable pub is_job_running : Option Job → Bool
is_job_running none = false
is_job_running (some job) = ltb_ℤ (pos 0) job.status.active

abbrev is_complete : JobConditionType → Bool
is_complete job_complete = true
is_complete _ = false

abbrev is_failure : JobConditionType → Bool
is_failure job_failed = true
is_failure _ = false

abbrev holds : ConditionStatus → Bool
holds is_true = true
holds _ = false

abbrev true_of : (JobConditionType → Bool) → JobCondition → Bool
true_of test c = if test c.kind then holds c.status else false

any_true : (JobConditionType → Bool) → List JobCondition → Bool
any_true test [] = false
any_true test (c ∷ cs) = let rest = any_true test cs in if true_of test c then true else rest

unfoldable pub is_job_succeeded : Option Job → Bool
unfolding any_true
is_job_succeeded none = false
is_job_succeeded (some job) = any_true is_complete job.status.conditions

unfoldable pub is_job_failed : Option Job → Bool
unfolding any_true
is_job_failed none = false
is_job_failed (some job) = any_true is_failure job.status.conditions

abbrev deadline : DbUpgradeSpec → ℤ
deadline spec = elim spec.runner [
  | none ↦ pos 600
  | some r ↦ elim r.active_deadline_seconds [ none ↦ pos 600 | some n ↦ n ]
]

abbrev migrations_dir : DbUpgradeSpec → String
migrations_dir spec = if spec.migrations.dir == "" then "/migrations" else spec.migrations.dir

-- The command of the init container.
init_command : Settings → DbUpgradeSpec → String
unfolding drop
init_command settings spec =
    "crane export "
    <> ((if settings.allow_insecure_registries then "--insecure " else "")
        <> ("--platform linux/$(uname -m | sed 's/x86_64/amd64/' | sed 's/aarch64/arm64/') "
            <> (spec.migrations.image
                <> (" - | tar -xf - -C /shared " <> drop 1 (migrations_dir spec)))))

-- The Job that createMigrationJob sends.
unfoldable pub migration_job : Settings → DbUpgrade → String → String → Job
unfolding init_command
migration_job settings u secret_name hash = record {
  name = job_name u.name hash;
  namespace = u.namespace;
  owners = owner_reference u ∷ [];
  spec = record {
    backoff_limit = some (pos 0);
    active_deadline_seconds = some (deadline u.spec);
    restart_policy = "Never";
    volumes = "migrations" ∷ [];
    init_containers =
        record {
          name = "fetch-migrations";
          image = settings.crane_image;
          command = "sh" ∷ "-c" ∷ [];
          args = init_command settings u.spec ∷ [];
          env = [];
          mounts = record { name = "migrations"; mount_path = "/shared" } ∷ [];
        }
        ∷ [];
    containers =
        record {
          name = "migrate";
          image = settings.atlas_image;
          command = "/atlas" ∷ "migrate" ∷ "apply" ∷ [];
          args =
              "--dir"
              ∷ ("file:///migrations" <> migrations_dir u.spec)
              ∷ "--url"
              ∷ "$(DATABASE_URL)"
              ∷ [];
          env =
              record { name = "DATABASE_URL"; secret_name = secret_name; secret_key = "url" } ∷ [];
          mounts = record { name = "migrations"; mount_path = "/migrations" } ∷ [];
        }
        ∷ [];
  };
  status = record { active = pos 0; conditions = []; completion_time = none };
}

module _ (C : Cluster) (settings : Settings) where
  -- createMigrationJob
  unfoldable pub create_migration_job :
      DbUpgrade → String → String → M C.World (Result ApiError Job)
  create_migration_job u secret_name hash = do
    let job = migration_job settings u secret_name hash
    failure ← send (created_job job) (C.create_job job)
    pure (elim failure [ some e ↦ err e | none ↦ ok job ])
