-- ===== src/Startup.antt =====
-- main.go: the process from its flags to the start of the manager. Each call of controller-runtime
-- is made at most once, so that its answer is a value; `none` is success. What is done is a list of
-- actions.
pub mod Order
pub mod Heartbeat
use automatic_db_upgrades.Common.{
  ℕ, String, ◌==◌, String-discrete, Bool, true, false, not, ◌||◌, Option, none, some, List, [], ◌∷◌,
  ◌++◌, if◌then◌else◌, ◌≡◌, ◌≢◌, ◌⊎◌, inl, inr, refl, arith,
}
use automatic_db_upgrades.Kube.Cluster.{Cluster}
use automatic_db_upgrades.Kube.Monad.{State, Outcome, done, panic}
use automatic_db_upgrades.Api.Scheme.{GroupVersionKind, add_to_scheme}
use automatic_db_upgrades.Aws.Manager.{ClientManager, new_client_manager, initialize}
use automatic_db_upgrades.Controller.Result.{Reconciler, load_settings}

-- `init`: the scheme, made of that of client-go and the kinds of the API package.
abbrev pub scheme : List GroupVersionKind → List GroupVersionKind
scheme client_go = add_to_scheme client_go

pub record Flags : Type 0 where
  pub metrics_addr : String
  pub probe_addr : String
  pub enable_leader_election : Bool
  pub enable_aws : Bool

-- The defaults of the flags.
abbrev pub default_flags : Flags
default_flags = record {
  metrics_addr = ":8080";
  probe_addr = ":8081";
  enable_leader_election = false;
  enable_aws = false;
}

-- ctrl.Options
pub record ManagerOptions : Type 0 where
  pub metrics_bind_address : String
  pub webhook_port : ℕ
  pub health_probe_bind_address : String
  pub leader_election : Bool
  pub leader_election_id : String

-- How the calls are answered.
pub record Answers : Type 0 where
  pub new_manager : Option String
  pub set_up_controller : Option String
  pub set_up_webhook : Option String
  pub add_healthz : Option String
  pub add_readyz : Option String
  pub start : Option String

module _ (C : Cluster) where
  pub data Action : Type 0 where
    created_manager : ManagerOptions → Action
    initialized_aws : Action
    set_up_controller : Reconciler C → Action
    set_up_webhook added_healthz added_readyz operator_up started : Action

  -- What the process did, and its exit code.
  pub record Ended : Type 0 where
    pub actions : List Action
    pub exit_code : ℕ

  -- `if err := call(); err != nil { os.Exit(1) }` and what follows.
  abbrev pub attempt : Action → Option String → Ended → Ended
  attempt action none rest = record rest { actions = action ∷ rest.actions }
  attempt action (some _) rest = record { actions = action ∷ []; exit_code = 1 }

  abbrev pub manager_options : Flags → ManagerOptions
  manager_options flags = record {
    metrics_bind_address = flags.metrics_addr;
    webhook_port = 9443;
    health_probe_bind_address = flags.probe_addr;
    leader_election = flags.enable_leader_election;
    leader_election_id = "dbupgrade-controller-manager.subbug.learning";
  }

  abbrev pub aws_enabled : Flags → (String → String) → Bool
  aws_enabled flags getenv = flags.enable_aws || (getenv "ENABLE_AWS" == "true")

  abbrev pub webhooks_enabled : (String → String) → Bool
  webhooks_enabled getenv = not (getenv "DISABLE_WEBHOOKS" == "true")

  module _ (getenv : String → String) (answers : Answers) where
    -- From the health checks on.
    unfoldable pub run_manager : Ended
    run_manager = attempt added_healthz answers.add_healthz (
        attempt added_readyz answers.add_readyz (
          attempt operator_up none
            (attempt started answers.start (record { actions = []; exit_code = 0 }))))

    unfoldable pub with_webhooks : Ended
    with_webhooks =
        if webhooks_enabled getenv
        then attempt set_up_webhook answers.set_up_webhook run_manager
        else run_manager

    -- From the controller on, with or without an AWS client manager.
    unfoldable pub with_aws_manager : Option (ClientManager C) → Ended
    with_aws_manager manager =
        attempt
          (set_up_controller (record {
            settings = load_settings getenv;
            has_rest_config = true;
            aws_client_manager = manager;
          }))
          answers.set_up_controller with_webhooks

    -- What follows the initialization of the AWS client manager. A panic would end the process.
    unfoldable pub with_initialized : Outcome (Option String × ClientManager C) → Ended
    with_initialized (done (none, m)) = attempt initialized_aws none (with_aws_manager (some m))
    with_initialized (done (some e, m)) =
        attempt initialized_aws (some e) (with_aws_manager (some m))
    with_initialized panic = record { actions = initialized_aws ∷ []; exit_code = 2 }

    unfoldable pub main : Flags → State C.World → Ended
    main flags s = attempt (created_manager (manager_options flags)) answers.new_manager (
        if aws_enabled flags getenv
        then with_initialized (initialize C (new_client_manager C) s).0
        else with_aws_manager none)
