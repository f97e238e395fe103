-- ===== src/Tests/AwsExamples.antt =====
-- The AWS part on concrete configurations.
use automatic_db_upgrades.Common.{
  ◌++◌, ◌≡◌, refl, arith, Bytes, bytes, show_ℤ, ==-eq-false, String-discrete,
}
use automatic_db_upgrades.Aws.Url.{RdsAuthConfig, build_postgres_connection_url}
use automatic_db_upgrades.Aws.Encoding.{
  credentials, spaces_as_plus, build_postgres_connection_url-credentials,
}
use automatic_db_upgrades.Api.Validity.{IsFilled}
use automatic_db_upgrades.Checks.Image.{index}
use automatic_db_upgrades.Controller.Secrets.{rds_auth_config}
use automatic_db_upgrades.Controller.Tenants.{external_id-injective}
use automatic_db_upgrades.Tests.Objects.{checked, unchecked, role}
use automatic_db_upgrades.Tests.Server.{server}

abbrev config : RdsAuthConfig
config = rds_auth_config server checked role

-- A token with a space.
build_postgres_connection_url-credentials_example :
    (rest : Bytes) × (build_postgres_connection_url config "to:k n@" ≡ bytes "postgres://" ++ rest)
    × (credentials rest
        ≡ (bytes "migrator", bytes "to:k+n@", bytes "db.example.com:5432/app?sslmode=require"))
unfolding show_ℤ spaces_as_plus
build_postgres_connection_url-credentials_example =
    build_postgres_connection_url-credentials config "to:k n@" ground arith

external_id-injective_example :
    (checked.namespace ≡ unchecked.namespace) × (checked.name ≡ unchecked.name)
unfolding index
external_id-injective_example = external_id-injective server checked unchecked refl refl refl

role-IsFilled : IsFilled role
unfolding String-discrete
role-IsFilled = record {
  role_arn = ==-eq-false _ _ refl;
  region = ==-eq-false _ _ refl;
  host = ==-eq-false _ _ refl;
  db_name = ==-eq-false _ _ refl;
  username = ==-eq-false _ _ refl;
}
