-- ===== src/Controller/Secrets.antt =====
-- controllers/dbupgrade_controller.go: the customer's Secret and the operator's. A nil dereference
-- and a write to a nil map are panics; the log lines are left out.
use automatic_db_upgrades.Common.{
  String, ◌<>◌, ◌==◌, Bool, true, false, not, ◌||◌, Option, none, some, List, [], ◌∷◌,
  if◌then◌else◌, same, is_some, Bytes, Bytes-discrete,
}
use automatic_db_upgrades.Kube.Objects.{Secret, SecretKeySelector}
use automatic_db_upgrades.Kube.Meta.{Result, ok, err, ApiError, text, is_not_found}
use automatic_db_upgrades.Kube.Cluster.{Cluster}
use automatic_db_upgrades.Kube.Monad.{
  M, pure, crash, ask, send, ◌>>=◌, created_secret, updated_secret,
}
use automatic_db_upgrades.Api.Types.{
  DatabaseType, self_hosted, aws_rds, aws_aurora, other_database, AwsSpec, DbUpgrade,
}
use automatic_db_upgrades.Checks.Version.{quote}
use automatic_db_upgrades.Aws.Url.{RdsAuthConfig, build_postgres_connection_url}
use automatic_db_upgrades.Aws.Manager.{ClientManager, generate_rds_auth_token}
use automatic_db_upgrades.Controller.Jobs.{owner_reference}

abbrev pub is_self_hosted : DatabaseType → Bool
is_self_hosted self_hosted = true
is_self_hosted _ = false

abbrev pub is_aws : DatabaseType → Bool
is_aws aws_rds = true
is_aws aws_aurora = true
is_aws _ = false

abbrev pub secret_name : String → String
secret_name name = "dbupgrade-" <> (name <> "-connection")

unfoldable pub lookup : String → List (String × Bytes) → Option Bytes
lookup key [] = none
lookup key ((k, v) ∷ rest) = let later = lookup key rest in if k == key then some v else later

unfoldable pub insert : String → Bytes → List (String × Bytes) → List (String × Bytes)
insert key v [] = (key, v) ∷ []
insert key v ((k, w) ∷ rest) =
    let later = insert key v rest in if k == key then (key, v) ∷ rest else (k, w) ∷ later

-- `secret.Data[key]`, with a nil map read as an empty one.
abbrev pub entry : String → Secret → Option Bytes
entry key secret = elim secret.contents [ none ↦ none | some m ↦ lookup key m ]

abbrev pub bytes_or_nil : Option Bytes → Bytes
bytes_or_nil none = []
bytes_or_nil (some b) = b

-- `dbUpgrade.Spec.Database.Connection.URLSecretRef` where neither pointer is nil.
abbrev pub url_secret_ref : DbUpgrade → Option SecretKeySelector
url_secret_ref u = elim u.spec.database.connection [ none ↦ none | some c ↦ c.url_secret_ref ]

module _ (C : Cluster) where
  check_customer_secret : DbUpgrade → Option SecretKeySelector → M C.World (Option String)
  check_customer_secret u none =
      pure (some "database.connection.urlSecretRef is required for selfHosted database")
  check_customer_secret u (some ref) = do
    got ← ask (C.get_secret u.namespace ref.name)
    pure (elim got [
      | err e ↦
          if is_not_found e
          then some
              ("secret " <> (quote ref.name <> (" not found in namespace " <> quote u.namespace)))
          else some ("failed to get secret: " <> text e)
      | ok secret ↦
          if is_some (entry ref.key secret)
          then none
          else some ("key " <> (quote ref.key <> (" not found in secret " <> quote ref.name)))
    ])

  -- validateSecret; `none` is success.
  unfoldable pub validate_secret : DbUpgrade → M C.World (Option String)
  unfolding check_customer_secret
  validate_secret u =
      if not (is_self_hosted u.spec.database.kind)
      then pure none
      else check_customer_secret u (url_secret_ref u)

  customer_url : DbUpgrade → Option SecretKeySelector → M C.World (Result String Bytes)
  customer_url u none = crash
  customer_url u (some ref) = do
    got ← ask (C.get_secret u.namespace ref.name)
    pure (elim got [
      | err e ↦ err ("failed to get customer secret: " <> text e)
      | ok secret ↦ ok (bytes_or_nil (entry ref.key secret))
    ])

  -- The `externalID` that keeps tenants apart.
  abbrev pub external_id : DbUpgrade → String
  external_id u = u.namespace <> ("/" <> u.name)

  abbrev pub rds_auth_config : DbUpgrade → AwsSpec → RdsAuthConfig
  rds_auth_config u aws = record {
    region = aws.region;
    host = aws.host;
    port = aws.port;
    username = aws.username;
    db_name = aws.db_name;
    role_arn = aws.role_arn;
    external_id = external_id u;
  }

  aws_url : Option (ClientManager C) → DbUpgrade → Option AwsSpec → M C.World (Result String Bytes)
  aws_url manager u none = pure (err "database.aws configuration is required for AWS RDS/Aurora")
  aws_url none u (some aws) =
      pure (err "AWS client manager not configured - AWS support is disabled")
  aws_url (some m) u (some aws) = do
    token ← generate_rds_auth_token C m (rds_auth_config u aws)
    pure (elim token [
      | err e ↦ err ("failed to generate RDS auth token: " <> e)
      | ok t ↦ ok (build_postgres_connection_url (rds_auth_config u aws) t)
    ])

  -- The switch of ensureMigrationSecret.
  unfoldable pub connection_url :
      Option (ClientManager C) → DbUpgrade → DatabaseType → M C.World (Result String Bytes)
  unfolding customer_url aws_url
  connection_url manager u self_hosted = customer_url u (url_secret_ref u)
  connection_url manager u aws_rds = aws_url manager u u.spec.database.aws
  connection_url manager u aws_aurora = aws_url manager u u.spec.database.aws
  connection_url manager u (other_database s) = pure (err ("unsupported database type: " <> s))

  -- `existingSecret.Data["url"] = connectionURL`, then Update, which decodes the answer into it.
  unfoldable pub write_url :
      Bytes → Secret → Option (List (String × Bytes)) → M C.World (Result String Secret)
  write_url url secret none = crash
  write_url url secret (some m) = do
    let updated = record secret { contents = some (insert "url" url m) }
    answer ← send (updated_secret updated) (C.update_secret updated)
    pure (elim answer [
      | err e ↦ err ("failed to update migration secret: " <> text e)
      | ok answered ↦ ok answered
    ])

  -- `needsUpdate`
  unfoldable pub needs_update : DbUpgrade → Bytes → Secret → Bool
  needs_update u url secret =
      not (is_self_hosted u.spec.database.kind)
      || not (same Bytes-discrete (bytes_or_nil (entry "url" secret)) url)

  unfoldable pub refresh : DbUpgrade → Bytes → Secret → M C.World (Result String Secret)
  refresh u url secret =
      if needs_update u url secret then write_url url secret secret.contents else pure (ok secret)

  abbrev pub operator_secret : DbUpgrade → Bytes → Secret
  operator_secret u url = record {
    name = secret_name u.name;
    namespace = u.namespace;
    owners = owner_reference u ∷ [];
    kind = "Opaque";
    contents = some (("url", url) ∷ []);
  }

  unfoldable pub create : DbUpgrade → Bytes → M C.World (Result String Secret)
  create u url = do
    answer ← send (created_secret (operator_secret u url)) (C.create_secret (operator_secret u url))
    pure (elim answer [
      | err e ↦ err ("failed to create migration secret: " <> text e)
      | ok answered ↦ ok answered
    ])

  -- The three ways on from the search for the operator's Secret.
  unfoldable pub write_secret :
      DbUpgrade → Bytes → Result ApiError Secret → M C.World (Result String Secret)
  write_secret u url (ok secret) = refresh u url secret
  write_secret u url (err e) =
      if is_not_found e
      then create u url
      else pure (err ("failed to check migration secret: " <> text e))

  -- ensureMigrationSecret behind the switch.
  unfoldable pub store_url : DbUpgrade → Bytes → M C.World (Result String Secret)
  store_url u url = do
    existing ← ask (C.get_secret u.namespace (secret_name u.name))
    write_secret u url existing

  unfoldable pub ensure_migration_secret :
      Option (ClientManager C) → DbUpgrade → M C.World (Result String Secret)
  ensure_migration_secret manager u = do
    url ← connection_url manager u u.spec.database.kind
    elim url [ err e ↦ pure (err e) | ok b ↦ store_url u b ]
