-- ===== src/Startup/Order.antt =====
-- main.go: what has been done when the manager is started.
use automatic_db_upgrades.Common.{
  String, Bool, true, false, Option, none, some, List, [], ◌∷◌, ◌++◌, if◌then◌else◌, ◌≡◌, ◌⊎◌, ◌∙◌,
  inl, inr, refl, arith, Bool-cases, Option-cases, ap,
}
use automatic_db_upgrades.Kube.Meta.{ok}
use automatic_db_upgrades.Kube.Cluster.{Cluster}
use automatic_db_upgrades.Kube.Monad.{State, Outcome, done, panic}
use automatic_db_upgrades.Aws.Manager.{ClientManager, new_client_manager, initialize}
use automatic_db_upgrades.Aws.Lifecycle.{initialize_once}
use automatic_db_upgrades.Controller.Result.{Reconciler, load_settings}
use automatic_db_upgrades.Startup.{
  Flags, Answers, Action, created_manager, initialized_aws, set_up_controller, set_up_webhook,
  added_healthz, added_readyz, operator_up, started, manager_options, aws_enabled, webhooks_enabled,
  run_manager, with_webhooks, with_aws_manager, with_initialized, main,
}

module _ (C : Cluster) where
  abbrev pub is_start : Action C → Bool
  is_start started = true
  is_start _ = false

  unfoldable pub starts : List (Action C) → Bool
  starts [] = false
  starts (a ∷ rest) = let later = starts rest in if is_start a then true else later

  module _ (getenv : String → String) (answers : Answers) where
    abbrev pub last_actions : List (Action C)
    last_actions = added_healthz ∷ added_readyz ∷ operator_up ∷ started ∷ []

    run_manager_lem :
        starts (run_manager C getenv answers).actions ≡ true
        → (run_manager C getenv answers).actions ≡ last_actions
    unfolding run_manager starts
    run_manager_lem h = ground arith

    abbrev pub webhook_actions : List (Action C)
    webhook_actions = if webhooks_enabled C getenv then set_up_webhook ∷ [] else []

    with_webhooks_lem :
        starts (with_webhooks C getenv answers).actions ≡ true
        → (with_webhooks C getenv answers).actions ≡ webhook_actions ++ last_actions
    unfolding with_webhooks starts
    with_webhooks_lem h = ground (arith, run_manager_lem)

    abbrev pub reconciler_of : Option (ClientManager C) → Reconciler C
    reconciler_of manager = record {
      settings = load_settings getenv;
      has_rest_config = true;
      aws_client_manager = manager;
    }

    abbrev pub controller_actions : Option (ClientManager C) → List (Action C)
    controller_actions manager =
        set_up_controller (reconciler_of manager) ∷ (webhook_actions ++ last_actions)

    with_aws_manager_lem :
        (manager : Option (ClientManager C))
        → starts (with_aws_manager C getenv answers manager).actions ≡ true
        → (with_aws_manager C getenv answers manager).actions ≡ controller_actions manager
    unfolding with_aws_manager starts
    with_aws_manager_lem manager h = ground (arith, with_webhooks_lem)

    with_initialized_lem :
        (s : State C.World) (o : Outcome (Option String × ClientManager C) × State C.World)
        → initialize C (new_client_manager C) s ≡ o
        → starts (with_initialized C getenv answers o.0).actions ≡ true
        → (m : ClientManager C) × (m.initialized ≡ true)
          × ((with_initialized C getenv answers o.0).actions
              ≡ initialized_aws ∷ controller_actions (some m))
    unfolding with_initialized starts
    with_initialized_lem s (done (none, m), t) e h =
        let (ready, _) = initialize_once C (new_client_manager C) m s t e in
        (m, ready, ap (λ rest. initialized_aws ∷ rest) (with_aws_manager_lem (some m) h))
    with_initialized_lem s (done (some e', m), t) e h = cc
    with_initialized_lem s (panic, t) e h = cc

    main_with_aws :
        (flags : Flags) (s : State C.World)
        → answers.new_manager ≡ none
        → aws_enabled C flags getenv ≡ true
        → (main C getenv answers flags s).actions
          ≡ created_manager (manager_options C flags)
            ∷ (with_initialized C getenv answers (initialize C (new_client_manager C) s).0).actions
    unfolding main
    main_with_aws flags s fine on = rw (fine, on) refl

    main_without_aws :
        (flags : Flags) (s : State C.World)
        → answers.new_manager ≡ none
        → aws_enabled C flags getenv ≡ false
        → (main C getenv answers flags s).actions
          ≡ created_manager (manager_options C flags)
            ∷ (with_aws_manager C getenv answers none).actions
    unfolding main
    main_without_aws flags s fine off = rw (fine, off) refl

    -- When the manager is started, the process has created it, has set up the controller, the webhook
    -- unless it is disabled, and both health checks, and has set the metric that says it is up, in
    -- this order and nothing else. The controller has an AWS client manager exactly if AWS is enabled by
    -- the flag or the environment, and it is initialized before.
    pub main-started :
        (flags : Flags) (s : State C.World)
        → starts (main C getenv answers flags s).actions ≡ true
        → ((aws_enabled C flags getenv ≡ false)
            × ((main C getenv answers flags s).actions
                ≡ created_manager (manager_options C flags) ∷ controller_actions none))
          ⊎ ((aws_enabled C flags getenv ≡ true)
              × (m : ClientManager C) × (m.initialized ≡ true)
              × ((main C getenv answers flags s).actions
                  ≡ created_manager (manager_options C flags)
                    ∷ initialized_aws
                    ∷ controller_actions (some m)))
    unfolding starts main
    main-started flags s h = elim (Option-cases answers.new_manager) [
      | inr (e, failed) ↦ absurd (ground arith)
      | inl fine ↦ elim (Bool-cases (aws_enabled C flags getenv)) [
        | inl on ↦
            let run = initialize C (new_client_manager C) s in
            let shape = main_with_aws flags s fine on in
            let (m, ready, rest) = with_initialized_lem s run refl (rw shape at h) in
            inr (
              on,
              m,
              ready,
              shape ∙ ap (λ later. created_manager (manager_options C flags) ∷ later) rest,
            )
        | inr off ↦
            let shape = main_without_aws flags s fine off in
            let rest = with_aws_manager_lem none (rw shape at h) in
            inl (off, shape ∙ ap (λ later. created_manager (manager_options C flags) ∷ later) rest)
      ]
    ]

  -- Every call of controller-runtime succeeds.
  abbrev pub no_failure : Answers
  no_failure = record {
    new_manager = none;
    set_up_controller = none;
    set_up_webhook = none;
    add_healthz = none;
    add_readyz = none;
    start = none;
  }

  -- If no call fails, and AWS is disabled or its configuration can be loaded, then the process starts
  -- the manager and ends with the exit code 0.
  pub main-exit_zero :
      (getenv : String → String) (flags : Flags) (s : State C.World)
      → (aws_enabled C flags getenv ≡ false)
        ⊎ ((cfg : C.AwsConfig) × ((C.load_default_config s.world).0 ≡ ok cfg))
      → let end = main C getenv no_failure flags s in
        (end.exit_code ≡ 0) × (starts end.actions ≡ true)
  unfolding main with_initialized with_aws_manager with_webhooks run_manager starts initialize
      new_client_manager
  main-exit_zero getenv flags s possible = ground arith
