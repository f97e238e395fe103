-- ===== src/Controller/Watches.antt =====
-- controllers/dbupgrade_controller.go, SetupWithManager: which events ask for a reconcile. The event
-- handlers of controller-runtime are the interface `Handlers`.
use mathlib.Core.List.{Memᴰ}
use automatic_db_upgrades.Common.{String, true, some, List, [], ◌∷◌, ◌≡◌, refl}
use automatic_db_upgrades.Kube.Objects.{OwnerReference, Job}
use automatic_db_upgrades.Api.Types.{DbUpgrade}
use automatic_db_upgrades.Api.Scheme.{GroupVersionKind, group_version, api_version}
use automatic_db_upgrades.Controller.Result.{Settings}
use automatic_db_upgrades.Controller.Jobs.{owner_reference, migration_job}

-- The kind that is reconciled, and the kinds whose owners are.
pub record Watches : Type 0 where
  pub for : GroupVersionKind
  pub owned : List GroupVersionKind

abbrev pub upgrade_kind : GroupVersionKind
upgrade_kind = record {
  group = group_version.group;
  version = group_version.version;
  kind = "DBUpgrade";
}

abbrev pub job_kind : GroupVersionKind
job_kind = record { group = "batch"; version = "v1"; kind = "Job" }

-- SetupWithManager: `For(&DBUpgrade{})` and `Owns(&Job{})`
unfoldable pub set_up_with_manager : Watches
set_up_with_manager = record { for = upgrade_kind; owned = job_kind ∷ [] }

-- What the handlers make of an event about an object: the namespaces and names to reconcile. For an
-- owned kind these are those of its controlling owners of the reconciled kind.
pub record Handlers : Type 0 where
  pub requests : Watches → GroupVersionKind → String → List OwnerReference → List (String × String)
  pub owner_requested :
      (watches : Watches) (kind : GroupVersionKind) (namespace : String)
      (owners : List OwnerReference) (owner : OwnerReference)
      → Memᴰ kind watches.owned
      → Memᴰ owner owners
      → owner.controller ≡ some true
      → owner.kind ≡ watches.for.kind
      → owner.api_version
        ≡ api_version (record { group = watches.for.group; version = watches.for.version })
      → Memᴰ (namespace, owner.name) (requests watches kind namespace owners)

-- An event about a Job that the operator created asks for a reconcile of the object that it was created
-- for, as long as the Job keeps its namespace and its owner: whatever becomes of the Job, the
-- operator is told.
pub migration_job-requested :
    (E : Handlers) (settings : Settings) (u : DbUpgrade) (secret hash : String) (job : Job)
    → job.namespace ≡ (migration_job settings u secret hash).namespace
    → job.owners ≡ (migration_job settings u secret hash).owners
    → Memᴰ (u.namespace, u.name) (E.requests set_up_with_manager job_kind job.namespace job.owners)
unfolding migration_job set_up_with_manager
migration_job-requested E settings u secret hash job placed owned =
    rw (placed, owned)
      (E.owner_requested set_up_with_manager job_kind u.namespace (owner_reference u ∷ [])
        (owner_reference u) (Memᴰ.head refl) (Memᴰ.head refl) refl refl refl)
