-- ===== src/Controller/CalmSecrets.antt =====
-- controllers/dbupgrade_controller.go: the work on the Secrets leaves every calm view of the cluster
-- alone.
use automatic_db_upgrades.Common.{
  String, ◌<>◌, show_ℤ, Option, none, some, refl, arith, Bool-cases, Option-cases, inl, inr, Bytes,
  List,
}
use automatic_db_upgrades.Kube.Objects.{Secret}
use automatic_db_upgrades.Kube.Meta.{Result, ok, err, ApiError, is_not_found}
use automatic_db_upgrades.Kube.Cluster.{Cluster}
use automatic_db_upgrades.Kube.Monad.{ask}
use automatic_db_upgrades.Kube.Calm.{KeepsView, Steady, Steady-bind}
use automatic_db_upgrades.Api.Types.{
  DbUpgrade, DatabaseType, self_hosted, aws_rds, aws_aurora, other_database,
}
use automatic_db_upgrades.Aws.Url.{RdsAuthConfig}
use automatic_db_upgrades.Aws.Manager.{session, ClientManager, generate_rds_auth_token}
use automatic_db_upgrades.Controller.Secrets.{
  secret_name, url_secret_ref, rds_auth_config, validate_secret, connection_url, write_url,
  needs_update, refresh, create, write_secret, store_url, ensure_migration_secret,
}

module _ (C : Cluster) {A : Type 0} (view : C.World → A) (calm : KeepsView C view) where
  module _ (u : DbUpgrade) where
    pub validate_secret-Steady : Steady view (validate_secret C u)
    unfolding validate_secret
    validate_secret-Steady s = elim (Option-cases (url_secret_ref u)) [
      | inl e ↦ ground arith
      | inr (ref, e) ↦ ground (arith, calm.get_secret u.namespace ref.name s.world)
    ]

    generate_rds_auth_token-Steady :
        (m : ClientManager C) (cfg : RdsAuthConfig) → Steady view (generate_rds_auth_token C m cfg)
    unfolding generate_rds_auth_token
    generate_rds_auth_token-Steady m cfg s = ground (
      arith,
      calm.build_auth_token (cfg.host <> (":" <> show_ℤ cfg.port)) cfg.region cfg.username
          (session C cfg m.base_config) s.world,
    )

    write_url-Steady :
        (url : Bytes) (secret : Secret) (contents : Option (List (String × Bytes)))
        → Steady view (write_url C url secret contents)
    unfolding write_url
    write_url-Steady url secret none s = refl
    write_url-Steady url secret (some m) s = calm.update_secret _ s.world

    refresh-Steady : (url : Bytes) (secret : Secret) → Steady view (refresh C u url secret)
    unfolding refresh
    refresh-Steady url secret = elim (Bool-cases (needs_update C u url secret)) [
      | inl needs ↦ rw (refresh, needs) (write_url-Steady url secret secret.contents)
      | inr fresh ↦ rw (refresh, fresh) (λ s. refl)
    ]

    create-Steady : (url : Bytes) → Steady view (create C u url)
    unfolding create
    create-Steady url s = calm.create_secret _ s.world

    write_secret-Steady :
        (url : Bytes) (got : Result ApiError Secret) → Steady view (write_secret C u url got)
    unfolding write_secret
    write_secret-Steady url (ok secret) = refresh-Steady url secret
    write_secret-Steady url (err e) = elim (Bool-cases (is_not_found e)) [
      | inl absent ↦ rw (write_secret, absent) (create-Steady url)
      | inr other ↦ rw (write_secret, other) (λ s. refl)
    ]

    store_url-Steady : (url : Bytes) → Steady view (store_url C u url)
    unfolding store_url
    store_url-Steady url =
        Steady-bind view (ask (C.get_secret u.namespace (secret_name u.name)))
          (write_secret C u url) (λ s. calm.get_secret _ _ s.world) (write_secret-Steady url)

    connection_url-Steady :
        (manager : Option (ClientManager C)) (kind : DatabaseType)
        → Steady view (connection_url C manager u kind)
    unfolding connection_url
    connection_url-Steady manager self_hosted s = elim (Option-cases (url_secret_ref u)) [
      | inl e ↦ ground arith
      | inr (ref, e) ↦ ground (arith, calm.get_secret u.namespace ref.name s.world)
    ]
    connection_url-Steady none aws_rds s = ground arith
    connection_url-Steady none aws_aurora s = ground arith
    connection_url-Steady (some m) aws_rds s = elim (Option-cases u.spec.database.aws) [
      | inl e ↦ ground arith
      | inr (aws, e) ↦ ground (arith, generate_rds_auth_token-Steady m (rds_auth_config C u aws) s)
    ]
    connection_url-Steady (some m) aws_aurora s = elim (Option-cases u.spec.database.aws) [
      | inl e ↦ ground arith
      | inr (aws, e) ↦ ground (arith, generate_rds_auth_token-Steady m (rds_auth_config C u aws) s)
    ]
    connection_url-Steady manager (other_database _) s = refl

    pub ensure_migration_secret-Steady :
        (manager : Option (ClientManager C)) → Steady view (ensure_migration_secret C manager u)
    unfolding ensure_migration_secret
    ensure_migration_secret-Steady manager =
        Steady-bind view (connection_url C manager u u.spec.database.kind) _
          (connection_url-Steady manager u.spec.database.kind)
          (elim [ err e ↦ λ s. refl | ok url ↦ store_url-Steady url ])
