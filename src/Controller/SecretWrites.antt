-- ===== src/Controller/SecretWrites.antt =====
-- The Secrets: what is written, and where the code can panic.
use automatic_db_upgrades.Common.{
  String, true, Option, none, some, List, ◌≡◌, ◌≢◌, refl, arith, Bytes, Bool-cases, inl, inr,
}
use automatic_db_upgrades.Kube.Objects.{Secret}
use automatic_db_upgrades.Kube.Meta.{Result, ok, err, ApiError, is_not_found}
use automatic_db_upgrades.Kube.Cluster.{Cluster}
use automatic_db_upgrades.Kube.Monad.{Write, created_secret, updated_secret, ask}
use automatic_db_upgrades.Kube.Writes.{Writes, Writes-bind, Any}
use automatic_db_upgrades.Api.Types.{
  DatabaseType, self_hosted, aws_rds, aws_aurora, other_database, DbUpgrade,
}
use automatic_db_upgrades.Aws.Manager.{ClientManager, generate_rds_auth_token}
use automatic_db_upgrades.Controller.Secrets.{
  is_self_hosted, secret_name, url_secret_ref, validate_secret, connection_url, write_url,
  needs_update, refresh, create, write_secret, store_url, ensure_migration_secret,
}
use automatic_db_upgrades.Controller.Permitted.{Fetched}

-- `P` is any predicate that the writes of these two functions satisfy.
module _ (C : Cluster) (X : Type 0) (P : Write → Type 0) (u : DbUpgrade)
    (created : (secret : Secret)
      → secret.name ≡ secret_name u.name
      → secret.namespace ≡ u.namespace
      → P (created_secret secret))
    (updated : (before secret : Secret)
      → Fetched C u before
      → secret ≡ record before { contents = secret.contents }
      → P (updated_secret secret)) where
  -- A Secret is validated only if the spec names one.
  pub validate_secret-Writes :
      is_self_hosted u.spec.database.kind ≡ true
      → Writes X P (validate_secret C u) (λ bad. bad ≡ none → url_secret_ref u ≢ none)
  unfolding validate_secret
  validate_secret-Writes hosted s i = ground arith

  connection_url-Writes :
      (manager : Option (ClientManager C)) (kind : DatabaseType)
      → (is_self_hosted kind ≡ true → url_secret_ref u ≢ none)
      → Writes X P (connection_url C manager u kind) Any
  unfolding connection_url generate_rds_auth_token
  connection_url-Writes manager self_hosted given s i = ground arith
  connection_url-Writes manager aws_rds given s i = ground arith
  connection_url-Writes manager aws_aurora given s i = ground arith
  connection_url-Writes manager (other_database _) given s i = (i, tt)

  module _ (on_nil : (secret : Secret) → Fetched C u secret → secret.contents ≡ none → X) where
    write_url-Writes :
        (url : Bytes) (secret : Secret) (contents : Option (List (String × Bytes)))
        → Fetched C u secret
        → secret.contents ≡ contents
        → Writes X P (write_url C url secret contents) Any
    unfolding write_url
    write_url-Writes url secret none fetched e s i = (i, on_nil secret fetched e)
    write_url-Writes url secret (some m) fetched e s i = ((updated secret _ fetched refl, i), tt)

    refresh-Writes :
        (url : Bytes) (secret : Secret)
        → Fetched C u secret
        → Writes X P (refresh C u url secret) Any
    unfolding refresh
    refresh-Writes url secret fetched s i =
        let written = write_url-Writes url secret secret.contents fetched refl s i in
        elim (Bool-cases (needs_update C u url secret)) [
          | inl needs ↦ rw needs written
          | inr fresh ↦ rw fresh (i, tt)
        ]

    create-Writes : (url : Bytes) → Writes X P (create C u url) Any
    unfolding create
    create-Writes url s i = ((created _ refl refl, i), tt)

    write_secret-Writes :
        (url : Bytes) (got : Result ApiError Secret)
        → ((secret : Secret) → got ≡ ok secret → Fetched C u secret)
        → Writes X P (write_secret C u url got) Any
    unfolding write_secret
    write_secret-Writes url (ok secret) fetched = refresh-Writes url secret (fetched secret refl)
    write_secret-Writes url (err e) fetched = elim (Bool-cases (is_not_found e)) [
      | inl absent ↦ rw absent (create-Writes url)
      | inr other ↦ rw other (λ s i. (i, tt))
    ]

    store_url-Writes : (url : Bytes) → Writes X P (store_url C u url) Any
    unfolding store_url
    store_url-Writes url =
        Writes-bind X P (λ got. (secret : Secret) → got ≡ ok secret → Fetched C u secret) Any
          (ask (C.get_secret u.namespace (secret_name u.name))) (write_secret C u url)
          (λ s i. (i, λ secret e. record { world = s.world; answer = e })) (write_secret-Writes url)

    pub ensure_migration_secret-Writes :
        (manager : Option (ClientManager C))
        → (is_self_hosted u.spec.database.kind ≡ true → url_secret_ref u ≢ none)
        → Writes X P (ensure_migration_secret C manager u) Any
    unfolding ensure_migration_secret
    ensure_migration_secret-Writes manager given =
        Writes-bind X P Any Any (connection_url C manager u u.spec.database.kind) _
          (connection_url-Writes manager u.spec.database.kind given)
          (elim [ err e ↦ λ _ s i. (i, tt) | ok url ↦ λ _. store_url-Writes url ])
