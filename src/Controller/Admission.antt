-- ===== src/Controller/Admission.antt =====
-- The webhook and the reconciler together.
use mathlib.Core.Option.{some-injective}
use automatic_db_upgrades.Common.{
  String, true, false, none, some, ◌≡◌, ◌≢◌, ◌⊎◌, inr, refl, sym, arith, pos, ◌∙◌, subst,
}
use automatic_db_upgrades.Kube.Meta.{err}
use automatic_db_upgrades.Kube.Cluster.{Cluster}
use automatic_db_upgrades.Kube.Monad.{State, done}
use automatic_db_upgrades.Api.Types.{
  DatabaseType, DatabaseSpec, ConnectionSpec, MetricCheck, custom_source, unset_source,
  external_target, DbUpgrade,
}
use automatic_db_upgrades.Api.Conditions.{SetsConditions, aws_not_supported}
use automatic_db_upgrades.Api.Webhook.{
  validate_metric_check, validate_target, validate_update, validate_database,
}
use automatic_db_upgrades.Api.Validity.{IsValidDatabase, IsUsable, IsAws, validate_database_iff}
use automatic_db_upgrades.Api.Updates.{validate_update_iff, Shows-is_progressing}
use automatic_db_upgrades.Checks.Version.{Semver}
use automatic_db_upgrades.Checks.Values.{Floats}
use automatic_db_upgrades.Checks.Metrics.{check_single_metric, get_custom_metric_values}
use automatic_db_upgrades.Controller.Result.{stuck, ReconcileResult, Reconciler}
use automatic_db_upgrades.Controller.Jobs.{Hashing}
use automatic_db_upgrades.Controller.Secrets.{is_self_hosted, is_aws}
use automatic_db_upgrades.Controller.Reconcile.{new_status, validated, reconcile_upgrade}
use automatic_db_upgrades.Controller.Answers.{new_status-IsReport}

is_self_hosted-false-IsAws : (kind : DatabaseType) → IsAws kind → is_self_hosted kind ≡ false
is_self_hosted-false-IsAws kind aws = ground arith

is_aws-true-IsAws : (kind : DatabaseType) → IsAws kind → is_aws kind ≡ true
is_aws-true-IsAws kind aws = ground arith

connection_only-IsValidDatabase :
    (d : DatabaseSpec) (c : ConnectionSpec)
    → IsAws d.kind
    → d.connection ≡ some c
    → d.aws ≡ none
    → IsUsable c
    → IsValidDatabase d
connection_only-IsValidDatabase d c aws connection missing usable = record {
  connected = λ c' e. subst IsUsable (some-injective _ _ (sym connection ∙ e)) usable;
  hosted = λ e. absurd (ground arith);
  on_aws = λ _. inr (λ e. cc);
  filled = λ _ a e. cc;
}

module _ (C : Cluster) (V : Semver) (F : Floats) (H : Hashing) (r : Reconciler C)
    (u : DbUpgrade) where
  -- Once the status of a progressing result is written, the webhook refuses every change of the spec.
  pub progressing_refuses_change :
      SetsConditions C
      → (result : ReconcileResult) (s : State C.World) (old new : DbUpgrade)
      → (new_status C V F H r u result s).0 ≡ done old
      → result.progressing ≡ true
      → old.spec ≢ new.spec
      → validate_update V F new old ≢ none
  progressing_refuses_change law result s old new written progressing changed accepted =
      let report = new_status-IsReport C V F H r u law result s old written in
      let busy = Shows-is_progressing old.status.conditions (rw progressing at (report.1)) in
      ground (arith, (validate_update_iff V F new old).0 accepted)

  -- An AWS database with a usable connection and no AWS configuration is accepted by the webhook, and
  -- the reconciler never starts its migration: it calls nothing, writes nothing, and gives a result
  -- with the reason AWSNotSupported that is not queued again.
  pub aws_connection_only :
      (c : ConnectionSpec) (s : State C.World)
      → IsAws u.spec.database.kind
      → u.spec.database.connection ≡ some c
      → u.spec.database.aws ≡ none
      → IsUsable c
      → (validate_database u.spec.database ≡ none)
        × (result : ReconcileResult) × (reconcile_upgrade C V F H r u s ≡ (done result, s))
        × ((result.ready ≡ false)
            × (result.progress_reason ≡ aws_not_supported)
            × (result.requeue_after ≡ pos 0))
  unfolding reconcile_upgrade validated
  aws_connection_only c s aws connection missing usable =
      let hosted = is_self_hosted-false-IsAws u.spec.database.kind aws in
      let on_aws = is_aws-true-IsAws u.spec.database.kind aws in
      let valid = connection_only-IsValidDatabase u.spec.database c aws connection missing usable in
      (
        (validate_database_iff u.spec.database).1 valid,
        stuck aws_not_supported "database.aws configuration is required for AWS RDS/Aurora"
            "Missing AWS configuration" (pos 0),
        rw (hosted, on_aws, missing) refl,
        (refl, refl, refl),
      )

  -- A metric check whose source is Custom or left out and whose target is External, with neither pods
  -- nor an object and with a threshold that is not zero, is accepted by the webhook; every run of it
  -- fails, without a query.
  pub custom_external_fails :
      (namespace : String) (check : MetricCheck) (s : State C.World)
      → (check.source ≡ custom_source) ⊎ (check.source ≡ unset_source)
      → check.target.kind ≡ external_target
      → check.target.pods ≡ none
      → check.target.object ≡ none
      → F.is_zero check.threshold.value ≡ false
      → (validate_metric_check V F check ≡ none)
        × (check_single_metric F C namespace check s
            ≡ (done (err "unsupported target type External for custom metrics"), s))
  unfolding check_single_metric get_custom_metric_values validate_metric_check validate_target
  custom_external_fails namespace check s source target no_pods no_object not_zero =
      (ground arith, ground arith)
