-- ===== src/Tests/WiringExamples.antt =====
-- The watches and the gauge on concrete objects.
use mathlib.Core.List.{Memᴰ}
use automatic_db_upgrades.Common.{String, ◌==◌, List, [], ◌∷◌, ◌≡◌, ◌↔◌, refl, ap, if◌then◌else◌}
use automatic_db_upgrades.Kube.Objects.{OwnerReference, Job}
use automatic_db_upgrades.Kube.Meta.{ok}
use automatic_db_upgrades.Metrics.{operator_up_gauge}
use automatic_db_upgrades.Controller.Jobs.{migration_job}
use automatic_db_upgrades.Controller.Watches.{
  Handlers, set_up_with_manager, job_kind, migration_job-requested,
}
use automatic_db_upgrades.Startup.{default_flags, main}
use automatic_db_upgrades.Startup.Order.{no_failure}
use automatic_db_upgrades.Startup.Heartbeat.{gauge_after, IsSetUp, main-gauge_iff}
use automatic_db_upgrades.Tests.Objects.{checked, full_secret}
use automatic_db_upgrades.Tests.Server.{server, served, start, reconciler}

abbrev requests_of : String → List OwnerReference → List (String × String)
requests_of namespace [] = []
requests_of namespace (owner ∷ owners) = (namespace, owner.name) ∷ requests_of namespace owners

requested :
    (namespace : String) (owners : List OwnerReference) (owner : OwnerReference)
    → Memᴰ owner owners
    → Memᴰ (namespace, owner.name) (requests_of namespace owners)
requested namespace [] owner m = elim m [ ]
requested namespace (o ∷ owners) owner (Memᴰ.head e) = Memᴰ.head (ap (λ o. (namespace, o.name)) e)
requested namespace (o ∷ owners) owner (Memᴰ.tail m) =
    Memᴰ.tail (requested namespace owners owner m)

-- Handlers that ask for every owner.
abbrev all_owners : Handlers
all_owners = record {
  requests = λ watches kind namespace owners. requests_of namespace owners;
  owner_requested =
      λ watches kind namespace owners owner _ there _ _ _. requested namespace owners owner there;
}

abbrev created : Job
created = migration_job (reconciler (ok full_secret)).settings checked "s" "abcdef01"

migration_job-requested_example :
    Memᴰ
      ("team", "app")
      (all_owners.requests set_up_with_manager job_kind created.namespace created.owners)
migration_job-requested_example =
    migration_job-requested all_owners (reconciler (ok full_secret)).settings checked "s" "abcdef01"
      created refl refl

abbrev getenv : String → String
getenv key = if key == "ENABLE_AWS" then "true" else ""

main-gauge_iff_example :
    ((gauge_after server operator_up_gauge
        (main server getenv
          (no_failure server)
          default_flags
          (start (served checked []))).actions).value
      ≡ 1)
    ↔ IsSetUp server getenv (no_failure server) default_flags (start (served checked []))
main-gauge_iff_example =
    main-gauge_iff server getenv (no_failure server) default_flags (start (served checked []))
