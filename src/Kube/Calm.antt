-- ===== src/Kube/Calm.antt =====
-- What a call of the cluster leaves alone. A view of the world is anything that can be told from it;
-- it is calm if no call but the creation and the deletion of a Job changes it.
use automatic_db_upgrades.Common.{String, List, ◌≡◌, refl, ◌∙◌}
use automatic_db_upgrades.Kube.Objects.{Secret, ClusterEvent, Condition}
use automatic_db_upgrades.Kube.Cluster.{Cluster}
use automatic_db_upgrades.Kube.Monad.{
  Write, M, pure, ask, send, ◌>>=◌, and_then, State, Outcome, done, panic,
}
use automatic_db_upgrades.Api.Types.{DbUpgrade}

pub record KeepsView (C : Cluster) {A : Type 0} (view : C.World → A) : Type 0 where
  pub get_upgrade : (ns name : String) (w : C.World) → view (C.get_upgrade ns name w).1 ≡ view w
  pub get_secret : (ns name : String) (w : C.World) → view (C.get_secret ns name w).1 ≡ view w
  pub list_jobs : (ns : String) (w : C.World) → view (C.list_jobs ns w).1 ≡ view w
  pub list_pods :
      (ns : String) (sel : C.Selector) (w : C.World) → view (C.list_pods ns sel w).1 ≡ view w
  pub create_secret : (s : Secret) (w : C.World) → view (C.create_secret s w).1 ≡ view w
  pub update_secret : (s : Secret) (w : C.World) → view (C.update_secret s w).1 ≡ view w
  pub create_event : (e : ClusterEvent) (w : C.World) → view (C.create_event e w).1 ≡ view w
  pub update_status : (u : DbUpgrade) (w : C.World) → view (C.update_status u w).1 ≡ view w
  pub set_status_condition :
      (c : Condition) (cs : List Condition) (w : C.World)
      → view (C.set_status_condition c cs w).1 ≡ view w
  pub now : (w : C.World) → view (C.now w).1 ≡ view w
  pub new_discovery_client : (w : C.World) → view (C.new_discovery_client w).1 ≡ view w
  pub get_api_group_resources : (w : C.World) → view (C.get_api_group_resources w).1 ≡ view w
  pub new_external_client : (w : C.World) → view (C.new_external_client w).1 ≡ view w
  pub metrics_for_objects :
      (ns : String) (sel : C.Selector) (metric : String) (w : C.World)
      → view (C.metrics_for_objects ns sel metric w).1 ≡ view w
  pub metric_for_object :
      (ns group kind name metric : String) (w : C.World)
      → view (C.metric_for_object ns group kind name metric w).1 ≡ view w
  pub external_metrics :
      (ns metric : String) (sel : C.Selector) (w : C.World)
      → view (C.external_metrics ns metric sel w).1 ≡ view w
  pub build_auth_token :
      (endpoint region user : String) (cfg : C.AwsConfig) (w : C.World)
      → view (C.build_auth_token endpoint region user cfg w).1 ≡ view w

module _ {W A : Type 0} (view : W → A) where
  -- Code that leaves the view alone, whether it returns or panics.
  abbrev pub Steady : {B : Type 0} → M W B → Type 0
  Steady m = (s : State W) → view (m s).1.world ≡ view s.world

  pub Steady-pure : {B : Type 0} (b : B) → Steady (pure b)
  Steady-pure b s = refl

  pub Steady-ask : {B : Type 0} (f : W → B × W) → ((w : W) → view (f w).1 ≡ view w) → Steady (ask f)
  Steady-ask f h s = h s.world

  pub Steady-send :
      {B : Type 0} (e : Write) (f : W → B × W)
      → ((w : W) → view (f w).1 ≡ view w)
      → Steady (send e f)
  Steady-send e f h s = h s.world

  Steady-and_then :
      {B D : Type 0} (a : A) (o : Outcome B × State W) (f : B → M W D)
      → view o.1.world ≡ a
      → ((b : B) → Steady (f b))
      → view (and_then o f).1.world ≡ a
  Steady-and_then a (done b, s) f h k = k b s ∙ h
  Steady-and_then a (panic, s) f h k = h

  pub Steady-bind :
      {B D : Type 0} (m : M W B) (f : B → M W D)
      → Steady m
      → ((b : B) → Steady (f b))
      → Steady (m >>= f)
  Steady-bind m f h k s = Steady-and_then (view s.world) (m s) f (h s) k

  -- A query whose answer is only looked at.
  pub Steady-query :
      {B D : Type 0} (f : W → B × W) (g : B → D)
      → ((w : W) → view (f w).1 ≡ view w)
      → Steady (ask f >>= λ b. pure (g b))
  Steady-query f g h s = h s.world
