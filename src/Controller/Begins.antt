-- ===== src/Controller/Begins.antt =====
-- controllers/dbupgrade_controller.go, reconcileDBUpgrade: for a self-hosted database whose Secret
-- is there, the main logic gets to the search for the Job.
use automatic_db_upgrades.Common.{
  subst, sym, String, true, false, none, some, ◌≡◌, refl, ◌∙◌, arith, Bytes,
}
use automatic_db_upgrades.Kube.Objects.{Secret, SecretKeySelector}
use automatic_db_upgrades.Kube.Meta.{Result, ok, err}
use automatic_db_upgrades.Kube.Cluster.{Cluster}
use automatic_db_upgrades.Kube.Monad.{State, Outcome, done, panic, and_then}
use automatic_db_upgrades.Kube.Calm.{KeepsView}
use automatic_db_upgrades.Api.Types.{DbUpgrade, self_hosted}
use automatic_db_upgrades.Checks.Version.{Semver}
use automatic_db_upgrades.Checks.Values.{Floats}
use automatic_db_upgrades.Controller.Result.{ReconcileResult, Reconciler}
use automatic_db_upgrades.Controller.Jobs.{Hashing}
use automatic_db_upgrades.Controller.Secrets.{
  is_self_hosted, is_aws, entry, bytes_or_nil, url_secret_ref, validate_secret,
  ensure_migration_secret,
}
use automatic_db_upgrades.Controller.CalmSecrets.{ensure_migration_secret-Steady}
use automatic_db_upgrades.Controller.StoredUrl.{IsSupplied}
use automatic_db_upgrades.Controller.Given.{
  GivesSecrets, Supplies, ensure_migration_secret-Supplies,
}
use automatic_db_upgrades.Controller.Reconcile.{with_secret, validated, reconcile_upgrade}

-- What is there of the object: a self-hosted database with a reference to a key of the customer's
-- Secret.
pub record HasUrl (u : DbUpgrade) (ref : SecretKeySelector) (customer : Secret) (url : Bytes)
    : Type 0 where
  pub kind : u.spec.database.kind ≡ self_hosted
  pub given : url_secret_ref u ≡ some ref
  pub there : entry ref.key customer ≡ some url

-- A view that sees nothing.
pub blind : (C : Cluster) → KeepsView C (λ _. tt)
blind C = record {
  get_upgrade = λ _ _ _. refl;
  get_secret = λ _ _ _. refl;
  list_jobs = λ _ _. refl;
  list_pods = λ _ _ _. refl;
  create_secret = λ _ _. refl;
  update_secret = λ _ _. refl;
  create_event = λ _ _. refl;
  update_status = λ _ _. refl;
  set_status_condition = λ _ _ _. refl;
  now = λ _. refl;
  new_discovery_client = λ _. refl;
  get_api_group_resources = λ _. refl;
  new_external_client = λ _. refl;
  metrics_for_objects = λ _ _ _ _. refl;
  metric_for_object = λ _ _ _ _ _ _. refl;
  external_metrics = λ _ _ _ _. refl;
  build_auth_token = λ _ _ _ _ _. refl;
}

module _ (C : Cluster) (V : Semver) (F : Floats) (H : Hashing) (r : Reconciler C) (u : DbUpgrade)
    (ref : SecretKeySelector) (customer : Secret) (url : Bytes)
    (gives : GivesSecrets C u ref.name customer) (has : HasUrl u ref customer url) {A : Type 0}
    (view : C.World → A) (calm : KeepsView C view) where
  -- The run goes on as the search does, from a state where the view is what it was and the operator's
  -- Secret has been supplied with the URL.
  abbrev pub Begins : State C.World → Outcome ReconcileResult × State C.World → Type 0
  Begins s o =
      (one : Secret) × (read : State C.World) × (t : State C.World) × (read.trace ≡ s.trace)
      × IsSupplied C u url read one t.trace
      × (view t.world ≡ view s.world)
      × (o ≡ with_secret C V F H r u (ok one) t)

  secret-injective :
      {a b : Secret} → ◌≡◌ {A = Outcome (Result String Secret)} (done (ok a)) (done (ok b)) → a ≡ b
  secret-injective e = cc

  given_secret :
      (s : State C.World) (o : Outcome (Result String Secret) × State C.World)
      → Supplies C u url s o
      → view o.1.world ≡ view s.world
      → Begins s (and_then o (with_secret C V F H r u))
  given_secret s (done (ok one), t) (secret, read, e, silent, supplied) same = (
    one,
    read,
    t,
    silent,
    subst (λ a. IsSupplied C u url read a t.trace) (sym (secret-injective e)) supplied,
    same,
    refl,
  )
  given_secret s (done (err e), t) (_, _, given, _, _) same = cc given
  given_secret s (panic, t) (_, _, given, _, _) same = cc given

  supplied_url :
      (s : State C.World) → Supplies C u url s (ensure_migration_secret C r.aws_client_manager u s)
  supplied_url s =
      let read : bytes_or_nil (entry ref.key customer) ≡ url = rw has.there refl in
      subst (λ b. Supplies C u b s (ensure_migration_secret C r.aws_client_manager u s)) read
        (ensure_migration_secret-Supplies C u r.aws_client_manager customer ref gives has.kind
          has.given s)

  validated-Begins : (s : State C.World) → Begins s (validated C V F H r u none s)
  unfolding validated
  validated-Begins s =
      let kind = has.kind in
      let other : is_aws u.spec.database.kind ≡ false = ground arith in
      rw (validated, other)
        (given_secret s (ensure_migration_secret C r.aws_client_manager u s) (supplied_url s)
          (ensure_migration_secret-Steady C view calm u r.aws_client_manager s))

  later :
      (s s' : State C.World) (o : Outcome ReconcileResult × State C.World)
      → view s'.world ≡ view s.world
      → s'.trace ≡ s.trace
      → Begins s' o
      → Begins s o
  later s s' o same quiet (one, read, t, silent, supplied, kept, e) =
      (one, read, t, silent ∙ quiet, supplied, kept ∙ same, e)

  pub reconcile_upgrade-Begins : (s : State C.World) → Begins s (reconcile_upgrade C V F H r u s)
  unfolding reconcile_upgrade validate_secret
  reconcile_upgrade-Begins s =
      let kind = has.kind in
      let hosted : is_self_hosted u.spec.database.kind ≡ true = ground arith in
      let after = record s { world = (C.get_secret u.namespace ref.name s.world).1 } in
      rw (reconcile_upgrade, hosted, has.given)
        (rw (gives.found s.world) (
          rw has.there (
            later s after _ (calm.get_secret u.namespace ref.name s.world) refl
              (validated-Begins after))))
