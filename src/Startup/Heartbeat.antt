-- ===== src/Startup/Heartbeat.antt =====
-- main.go and internal/metrics: when the gauge says that the operator is up.
use automatic_db_upgrades.Common.{String, false, none, List, [], ◌∷◌, ◌≡◌, ◌↔◌, ◌⊎◌, arith}
use automatic_db_upgrades.Kube.Meta.{ok}
use automatic_db_upgrades.Kube.Cluster.{Cluster}
use automatic_db_upgrades.Kube.Monad.{State}
use automatic_db_upgrades.Aws.Manager.{new_client_manager, initialize}
use automatic_db_upgrades.Metrics.{Gauge, operator_up_gauge, set_operator_up}
use automatic_db_upgrades.Startup.{
  Flags, Answers, Action, operator_up, aws_enabled, webhooks_enabled, run_manager, with_webhooks,
  with_aws_manager, with_initialized, main,
}

module _ (C : Cluster) where
  -- The gauge behind what the process did.
  unfoldable pub gauge_after : Gauge → List (Action C) → Gauge
  gauge_after gauge [] = gauge
  gauge_after gauge (operator_up ∷ rest) = gauge_after (set_operator_up gauge) rest
  gauge_after gauge (_ ∷ rest) = gauge_after gauge rest

  -- Every call before the start of the manager succeeds.
  pub record IsSetUp (getenv : String → String) (answers : Answers) (flags : Flags)
      (s : State C.World) : Type 0 where
    pub manager : answers.new_manager ≡ none
    pub aws :
        (aws_enabled C flags getenv ≡ false)
        ⊎ ((cfg : C.AwsConfig) × ((C.load_default_config s.world).0 ≡ ok cfg))
    pub controller : answers.set_up_controller ≡ none
    pub webhook : (webhooks_enabled C getenv ≡ false) ⊎ (answers.set_up_webhook ≡ none)
    pub healthz : answers.add_healthz ≡ none
    pub readyz : answers.add_readyz ≡ none

  -- The gauge is 1 behind main exactly if every call before the start of the manager succeeded, the
  -- webhook's and AWS's only where they are enabled.
  pub main-gauge_iff :
      (getenv : String → String) (answers : Answers) (flags : Flags) (s : State C.World)
      → ((gauge_after operator_up_gauge (main C getenv answers flags s).actions).value ≡ 1)
        ↔ IsSetUp getenv answers flags s
  unfolding main with_initialized with_aws_manager with_webhooks run_manager initialize
      new_client_manager gauge_after set_operator_up
  main-gauge_iff getenv answers flags s = (
    λ h. record {
      manager = ground arith;
      aws = ground arith;
      controller = ground arith;
      webhook = ground arith;
      healthz = ground arith;
      readyz = ground arith;
    },
    λ k. ground (arith, k.manager, k.aws, k.controller, k.webhook, k.healthz, k.readyz),
  )
