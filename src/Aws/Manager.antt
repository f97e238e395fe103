-- ===== src/Aws/Manager.antt =====
-- internal/aws/rds_auth.go, ClientManager. The mutex makes each method one step, since the manager
-- is read and written under it only; the settings of the HTTP client are left out.
use automatic_db_upgrades.Common.{
  String, ◌<>◌, Bool, true, false, Option, none, some, ◌==◌, if◌then◌else◌, show_ℤ,
}
use automatic_db_upgrades.Kube.Meta.{Result, ok, err}
use automatic_db_upgrades.Kube.Cluster.{Cluster}
use automatic_db_upgrades.Kube.Monad.{M, pure, ask, ◌>>=◌}
use automatic_db_upgrades.Aws.Url.{RdsAuthConfig}

module _ (C : Cluster) where
  pub record ClientManager : Type 0 where
    pub base_config : C.AwsConfig
    pub initialized : Bool

  unfoldable pub new_client_manager : ClientManager
  new_client_manager = record { base_config = C.empty_config; initialized = false }

  -- The error and the manager afterwards.
  unfoldable pub initialize : ClientManager → M C.World (Option String × ClientManager)
  initialize m = elim m.initialized [
    | true ↦ pure (none, m)
    | false ↦ do
      loaded ← ask C.load_default_config
      pure (elim loaded [
        | err e ↦ (some ("failed to load AWS config: " <> e), m)
        | ok cfg ↦ (none, record { base_config = cfg; initialized = true })
      ])
  ]

  abbrev non_empty : String → Option String
  non_empty s = if s == "" then none else some s

  -- The copy of the base configuration with the region and the role of `cfg`.
  unfoldable pub session : RdsAuthConfig → C.AwsConfig → C.AwsConfig
  session cfg base =
      let regional = if cfg.region == "" then base else C.with_region cfg.region base in
      if cfg.role_arn == ""
      then regional
      else C.assume_role cfg.role_arn (non_empty cfg.external_id) "dbupgrade-operator" regional

  unfoldable pub generate_rds_auth_token :
      ClientManager → RdsAuthConfig → M C.World (Result String String)
  generate_rds_auth_token m cfg = elim m.initialized [
    | false ↦ pure (err "AWS client manager not initialized - call Initialize() first")
    | true ↦ do
      let endpoint = cfg.host <> (":" <> show_ℤ cfg.port)
      token ← ask (C.build_auth_token endpoint cfg.region cfg.username (session cfg m.base_config))
      pure (elim token [ err e ↦ err ("failed to generate RDS auth token: " <> e) | ok t ↦ ok t ])
  ]
