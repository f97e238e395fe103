-- ===== src/Controller/Converges.antt =====
-- controllers/dbupgrade_controller.go: against a server that keeps Jobs and refuses nothing, the
-- reconciles of an object lead to the Job of its spec.
use automatic_db_upgrades.Common.{Bytes, String, List, [], ◌≡◌}
use automatic_db_upgrades.Kube.Objects.{Secret, SecretKeySelector}
use automatic_db_upgrades.Kube.Meta.{ok}
use automatic_db_upgrades.Kube.Cluster.{Cluster}
use automatic_db_upgrades.Kube.Monad.{State}
use automatic_db_upgrades.Api.Types.{DbUpgrade, DbUpgradeStatus}
use automatic_db_upgrades.Checks.Version.{Semver}
use automatic_db_upgrades.Checks.Values.{Floats}
use automatic_db_upgrades.Controller.Result.{Reconciler}
use automatic_db_upgrades.Controller.Jobs.{Hashing}
use automatic_db_upgrades.Controller.StoredUrl.{IsSupplied}
use automatic_db_upgrades.Controller.Begins.{HasUrl}
use automatic_db_upgrades.Controller.Reconcile.{with_secret, reconcile_upgrade}
use automatic_db_upgrades.Controller.JobStore.{JobStore}
use automatic_db_upgrades.Controller.Willing.{names, IsWilling}

-- The same object, whatever its status.
abbrev pub with_status : DbUpgrade → DbUpgradeStatus → DbUpgrade
with_status u status = record u { status = status }

module _ (C : Cluster) (V : Semver) (F : Floats) (H : Hashing) (r : Reconciler C) (K : JobStore C)
    (u : DbUpgrade) (ref : SecretKeySelector) (customer : Secret) (url : Bytes)
    (willing : IsWilling C H K u ref.name customer) (has : HasUrl u ref customer url) where
  abbrev here : C.World → List String
  here = names C H K u

module _ (C : Cluster) (V : Semver) (F : Floats) (H : Hashing) (r : Reconciler C)
    (u : DbUpgrade) where
  -- In a reconcile from the world `w` the main logic goes on to the search for the Job from a state
  -- where the operator's Secret has been supplied with the URL.
  abbrev pub SuppliesUrl : Bytes → String → String → C.World → Type 0
  SuppliesUrl url namespace name w =
      (v : DbUpgrade) × (one : Secret) × (read : State C.World) × (t : State C.World)
      × ((C.get_upgrade namespace name w).0 ≡ ok v)
      × (read.trace ≡ [])
      × IsSupplied C v url read one t.trace
      × (reconcile_upgrade C V F H r v
            (record { world = (C.get_upgrade namespace name w).1; trace = [] })
          ≡ with_secret C V F H r v (ok one) t)
