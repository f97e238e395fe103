-- ===== src/Tests/StartupExamples.antt =====
-- The startup with AWS enabled by the environment.
use automatic_db_upgrades.Common.{
  String, ◌==◌, true, false, none, some, ◌∷◌, [], ◌≡◌, ◌⊎◌, refl, if◌then◌else◌, String-discrete,
}
use automatic_db_upgrades.Aws.Manager.{ClientManager, new_client_manager, initialize}
use automatic_db_upgrades.Startup.{
  created_manager, initialized_aws, default_flags, manager_options, aws_enabled, main,
  with_initialized, with_aws_manager, with_webhooks, run_manager,
}
use automatic_db_upgrades.Startup.Order.{starts, controller_actions, no_failure, main-started}
use automatic_db_upgrades.Tests.Objects.{checked}
use automatic_db_upgrades.Tests.Server.{server, served, start}

abbrev getenv : String → String
getenv key = if key == "ENABLE_AWS" then "true" else ""

main-started_example :
    ((aws_enabled server default_flags getenv ≡ false)
      × ((main server getenv (no_failure server) default_flags (start (served checked []))).actions
          ≡ created_manager (manager_options server default_flags)
            ∷ controller_actions server getenv (no_failure server) none))
    ⊎ ((aws_enabled server default_flags getenv ≡ true)
        × (m : ClientManager server) × (m.initialized ≡ true)
        × ((main server getenv
              (no_failure server)
              default_flags
              (start (served checked []))).actions
            ≡ created_manager (manager_options server default_flags)
              ∷ initialized_aws
              ∷ controller_actions server getenv (no_failure server) (some m)))
unfolding main with_initialized with_aws_manager with_webhooks run_manager starts initialize
    new_client_manager String-discrete
main-started_example =
    main-started server getenv (no_failure server) default_flags (start (served checked [])) refl
