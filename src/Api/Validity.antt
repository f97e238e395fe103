-- ===== src/Api/Validity.antt =====
-- What the webhook accepts, described without the code's order of tests.
use mathlib.Core.Option.{some-injective}
use automatic_db_upgrades.Common.{
  Option, none, some, ◌≡◌, ◌≢◌, ◌⊎◌, ◌↔◌, inl, inr, refl, arith, subst,
}
use automatic_db_upgrades.Kube.Objects.{SecretKeySelector}
use automatic_db_upgrades.Api.Types.{
  DatabaseType, self_hosted, aws_rds, aws_aurora, other_database, AwsSpec, ConnectionSpec,
  DatabaseSpec,
}
use automatic_db_upgrades.Api.Webhook.{
  validate_aws, validate_aws_database, validate_kind, validate_ref, validate_ref_of,
  validate_connection, validate_database,
}

pub record IsFilled (aws : AwsSpec) : Type 0 where
  pub role_arn : aws.role_arn ≢ ""
  pub region : aws.region ≢ ""
  pub host : aws.host ≢ ""
  pub db_name : aws.db_name ≢ ""
  pub username : aws.username ≢ ""

-- A reference with a name and a key.
abbrev pub IsUsable : ConnectionSpec → Type 0
IsUsable c =
    (ref : SecretKeySelector) × (c.url_secret_ref ≡ some ref) × (ref.name ≢ "") × (ref.key ≢ "")

abbrev pub IsAws : DatabaseType → Type 0
IsAws kind = (kind ≡ aws_rds) ⊎ (kind ≡ aws_aurora)

-- A connection, if given, refers to a key of a Secret. A self-hosted database has one and no AWS
-- configuration; an AWS database has one or the other, and its configuration, if given, is filled.
pub record IsValidDatabase (d : DatabaseSpec) : Type 0 where
  pub connected : (c : ConnectionSpec) → d.connection ≡ some c → IsUsable c
  pub hosted : d.kind ≡ self_hosted → (d.connection ≢ none) × (d.aws ≡ none)
  pub on_aws : IsAws d.kind → (d.aws ≢ none) ⊎ (d.connection ≢ none)
  pub filled : IsAws d.kind → (aws : AwsSpec) → d.aws ≡ some aws → IsFilled aws

validate_aws_iff : (aws : AwsSpec) → (validate_aws aws ≡ none) ↔ IsFilled aws
unfolding validate_aws
validate_aws_iff aws = ground arith

validate_ref_of_iff :
    (o : Option SecretKeySelector)
    → (validate_ref_of o ≡ none)
      ↔ ((ref : SecretKeySelector) × (o ≡ some ref) × (ref.name ≢ "") × (ref.key ≢ ""))
unfolding validate_ref_of validate_ref
validate_ref_of_iff none = (λ h. cc, λ u. cc (u.1))
validate_ref_of_iff (some ref) = (λ h. (ref, refl, ground arith, ground arith), λ u. ground arith)

validate_connection_iff :
    (connection : Option ConnectionSpec)
    → (validate_connection connection ≡ none)
      ↔ ((c : ConnectionSpec) → connection ≡ some c → IsUsable c)
unfolding validate_connection
validate_connection_iff none = (λ _ c e. cc, λ _. refl)
validate_connection_iff (some c) =
    let (to, from) = validate_ref_of_iff c.url_secret_ref in
    (λ h c' e. subst IsUsable (some-injective _ _ e) (to h), λ k. from (k c refl))

abbrev IsValidKind : DatabaseType → Option AwsSpec → Option ConnectionSpec → Type 0
IsValidKind kind aws connection =
    (kind ≡ self_hosted → (connection ≢ none) × (aws ≡ none))
    × (IsAws kind → (aws ≢ none) ⊎ (connection ≢ none))
    × (IsAws kind → (a : AwsSpec) → aws ≡ some a → IsFilled a)

validate_aws_database_iff :
    (kind : DatabaseType) (aws : Option AwsSpec) (connection : Option ConnectionSpec)
    → (validate_aws_database kind aws connection ≡ none)
      ↔ (((aws ≢ none) ⊎ (connection ≢ none)) × ((a : AwsSpec) → aws ≡ some a → IsFilled a))
unfolding validate_aws_database
validate_aws_database_iff kind none none = (λ h. cc, λ k. absurd (ground arith))
validate_aws_database_iff kind none (some c) = (λ _. (inr (λ e. cc), λ a e. cc), λ _. refl)
validate_aws_database_iff kind (some aws) connection =
    let (to, from) = validate_aws_iff aws in
    (
      λ h. (inl (λ e. cc), λ a e. subst IsFilled (some-injective _ _ e) (to h)),
      λ k. from (k.1 aws refl),
    )

validate_kind_iff :
    (kind : DatabaseType) (aws : Option AwsSpec) (connection : Option ConnectionSpec)
    → (validate_kind kind aws connection ≡ none) ↔ IsValidKind kind aws connection
unfolding validate_kind
validate_kind_iff self_hosted aws connection = (
  λ h. (λ _. ground arith, λ e. ground arith, λ e. ground arith),
  λ k. let both = k.0 refl in ground arith,
)
validate_kind_iff aws_rds aws connection =
    let (to, from) = validate_aws_database_iff aws_rds aws connection in
    (λ h. (λ e. cc, λ _. (to h).0, λ _. (to h).1), λ k. from (k.1 (inl refl), k.2 (inl refl)))
validate_kind_iff aws_aurora aws connection =
    let (to, from) = validate_aws_database_iff aws_aurora aws connection in
    (λ h. (λ e. cc, λ _. (to h).0, λ _. (to h).1), λ k. from (k.1 (inr refl), k.2 (inr refl)))
validate_kind_iff (other_database t) aws connection =
    (λ _. (λ e. cc, λ e. ground arith, λ e. ground arith), λ _. refl)

-- The webhook accepts a database configuration exactly if it is valid.
pub validate_database_iff : (d : DatabaseSpec) → (validate_database d ≡ none) ↔ IsValidDatabase d
unfolding validate_database
validate_database_iff d =
    let (kind_to, kind_from) = validate_kind_iff d.kind d.aws d.connection in
    let (to, from) = validate_connection_iff d.connection in
    (
      λ h.
          let k = kind_to (ground arith) in
          record { connected = to (ground arith); hosted = k.0; on_aws = k.1; filled = k.2 },
      λ v.
          let e = kind_from (v.hosted, v.on_aws, v.filled) in
          let f = from v.connected in ground arith,
    )
