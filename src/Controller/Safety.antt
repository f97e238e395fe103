-- ===== src/Controller/Safety.antt =====
-- What a whole call of Reconcile writes, and that it does not panic.
use automatic_db_upgrades.Common.{String, none, [], ◌≡◌, ◌≢◌, All, inl, inr}
use automatic_db_upgrades.Kube.Objects.{Secret}
use automatic_db_upgrades.Kube.Meta.{ok, Result-cases}
use automatic_db_upgrades.Kube.Cluster.{Cluster, SecretsHaveContents}
use automatic_db_upgrades.Kube.Monad.{panic}
use automatic_db_upgrades.Kube.Writes.{Writes, Writes-bind, Any, Holds-state, Holds-ne-panic}
use automatic_db_upgrades.Api.Types.{DbUpgrade}
use automatic_db_upgrades.Checks.Version.{Semver}
use automatic_db_upgrades.Checks.Values.{Floats}
use automatic_db_upgrades.Controller.Result.{Reconciler}
use automatic_db_upgrades.Controller.Jobs.{Hashing}
use automatic_db_upgrades.Controller.Reconcile.{reconcile_upgrade, finish, with_upgrade, reconcile}
use automatic_db_upgrades.Controller.Permitted.{Permitted, Fetched}
use automatic_db_upgrades.Controller.Stages.{Good, reconcile_upgrade-Writes, finish-Writes}

module _ (C : Cluster) (V : Semver) (F : Floats) (H : Hashing) (r : Reconciler C) where
  with_upgrade-Writes :
      (X : Type 0) (u : DbUpgrade)
      → ((secret : Secret) → Fetched C u secret → secret.contents ≡ none → X)
      → Writes X (Permitted C H u) (with_upgrade C V F H r (ok u)) Any
  unfolding with_upgrade
  with_upgrade-Writes X u on_nil =
      Writes-bind X (Permitted C H u) (Good C V F H r X u) Any (reconcile_upgrade C V F H r u)
        (finish C V F H r u) (reconcile_upgrade-Writes C V F H r X u on_nil)
        (λ result _. finish-Writes C V F H r X u result)

  -- Every write of a reconcile of `u`, from a state with no writes, is permitted: a deleted Job is
  -- listed as owned by `u`, is not running and is not the Job of the current spec; a created Job is
  -- that one, owned by `u` and never retried; Secrets, events and status updates are those of `u`.
  pub reconcile-Permitted :
      (namespace name : String) (w : C.World) (u : DbUpgrade)
      → (C.get_upgrade namespace name w).0 ≡ ok u
      → All
          (Permitted C H u)
          (reconcile C V F H r namespace name (record { world = w; trace = [] })).1.trace
  unfolding reconcile
  reconcile-Permitted namespace name w u found = rw found (
      Holds-state (λ s. All (Permitted C H u) s.trace) Any _
        (with_upgrade-Writes Unit u (λ _ _ _. tt)
          (record { world = (C.get_upgrade namespace name w).1; trace = [] }) tt))

  -- If no Secret that the server gives has a nil map, then a reconcile never panics, whatever the
  -- spec, the checks and the answers of the server are.
  pub reconcile-ne-panic :
      SecretsHaveContents C
      → (namespace name : String) (w : C.World)
      → (reconcile C V F H r namespace name (record { world = w; trace = [] })).0 ≢ panic
  unfolding reconcile with_upgrade
  reconcile-ne-panic whole namespace name w =
      elim (Result-cases (C.get_upgrade namespace name w).0) [
        | inl (e, failed) ↦ rw failed (λ h. cc)
        | inr (u, found) ↦ rw found (
            Holds-ne-panic (λ s. All (Permitted C H u) s.trace) Any _
              (with_upgrade-Writes ⊥ u
                (λ secret got. whole u.namespace _ got.world secret got.answer)
                (record { world = (C.get_upgrade namespace name w).1; trace = [] }) tt))
      ]
