-- ===== src/Controller/Runs.antt =====
-- controllers/dbupgrade_controller.go: any number of reconciles of any objects, in any order, with
-- what others do in between. Reconciles follow one another: the default number of workers is one,
-- and SetupWithManager keeps it.
use automatic_db_upgrades.Common.{
  ℕ, suc, ◌+◌, ◌≤◌, ◌<◌, String, List, [], ◌∷◌, ◌≡◌, ◌≢◌, arith, length, inl, inr,
}
use automatic_db_upgrades.Kube.Meta.{ok, err, ApiError, Result-cases}
use automatic_db_upgrades.Kube.Cluster.{Cluster}
use automatic_db_upgrades.Api.Types.{DbUpgrade}
use automatic_db_upgrades.Checks.Version.{Semver}
use automatic_db_upgrades.Checks.Values.{Floats}
use automatic_db_upgrades.Controller.Result.{Reconciler}
use automatic_db_upgrades.Controller.Jobs.{Hashing}
use automatic_db_upgrades.Controller.Reconcile.{expected_job_name, with_upgrade, reconcile}
use automatic_db_upgrades.Controller.Lifecycle.{
  moves_left, moves_left_bound, Move-moves_left, Move-settled, Move, Move-length, Loss, Loss-length,
}
use automatic_db_upgrades.Controller.JobStore.{JobStore, owned}
use automatic_db_upgrades.Controller.Moves.{with_upgrade-Moves}
use automatic_db_upgrades.Controller.Moving.{IsObject, shift}

module _ (C : Cluster) (K : JobStore C) where
  -- The names of the Jobs of an object.
  abbrev pub jobs_of : String → String → C.World → List String
  jobs_of namespace uid w = owned uid (K.jobs namespace w)

  -- No object has two Jobs.
  abbrev pub OneJobEach : C.World → Type 0
  OneJobEach w = (namespace uid : String) → length (jobs_of namespace uid w) ≤ 1

module _ (C : Cluster) (V : Semver) (F : Floats) (H : Hashing) (r : Reconciler C) where
  -- The world behind a reconcile.
  abbrev pub reconciled : String → String → C.World → C.World
  reconciled namespace name w =
      (reconcile C V F H r namespace name (record { world = w; trace = [] })).1.world

module _ (C : Cluster) (V : Semver) (F : Floats) (H : Hashing) (r : Reconciler C)
    (K : JobStore C) where
  unread :
      (namespace name ns uid : String) (w : C.World) (e : ApiError)
      → (C.get_upgrade namespace name w).0 ≡ err e
      → jobs_of C K ns uid (reconciled C V F H r namespace name w) ≡ jobs_of C K ns uid w
  unfolding reconcile with_upgrade
  unread namespace name ns uid w e failed =
      rw (reconciled, failed) ((K.calm ns uid).get_upgrade namespace name w)

-- Against a server that keeps Jobs, a reconcile implements the life cycle, whatever else the server
-- answers: for every object the Jobs that it owns stay the same; or the object is the DBUpgrade that was
-- read, owned none, and now owns the Job of the spec that was read and no other; or it lost one Job,
-- whose name is not that of this Job.
pub reconcile-Move :
    (C : Cluster) (V : Semver) (F : Floats) (H : Hashing) (r : Reconciler C) (K : JobStore C)
    (namespace name : String) (w : C.World) (u : DbUpgrade)
    → (C.get_upgrade namespace name w).0 ≡ ok u
    → (ns uid : String)
    → Move
        (IsObject u ns uid)
        (expected_job_name H u)
        (jobs_of C K ns uid w)
        (jobs_of C K ns uid (reconciled C V F H r namespace name w))
unfolding reconcile
reconcile-Move C V F H r K namespace name w u found ns uid =
    rw (reconciled, found)
      (shift C V F H r K u ns uid ((K.calm ns uid).get_upgrade namespace name w) (
        with_upgrade-Moves C V F H r K u ns uid
          (record { world = (C.get_upgrade namespace name w).1; trace = [] }) tt))

module _ (C : Cluster) (V : Semver) (F : Floats) (H : Hashing) (r : Reconciler C)
    (K : JobStore C) where
  -- One reconcile, or what others do: they may change anything, and of the Jobs of an object they may
  -- delete one.
  pub data Step (w : C.World) : C.World → Type 0 where
    reconciles : (namespace name : String) → Step w (reconciled C V F H r namespace name w)
    others :
        {w' : C.World}
        → ((ns uid : String) → Loss (jobs_of C K ns uid w) (jobs_of C K ns uid w'))
        → Step w w'

  pub data Reach (w : C.World) : C.World → Type 0 where
    here : Reach w w
    later : {w' w'' : C.World} → Reach w w' → Step w' w'' → Reach w w''

  reconciled-OneJobEach :
      (namespace name : String) (w : C.World)
      → OneJobEach C K w
      → OneJobEach C K (reconciled C V F H r namespace name w)
  reconciled-OneJobEach namespace name w one ns uid =
      elim (Result-cases (C.get_upgrade namespace name w).0) [
        | inl (e, failed) ↦ rw (unread C V F H r K namespace name ns uid w e failed) (one ns uid)
        | inr (u, found) ↦
            Move-length (reconcile-Move C V F H r K namespace name w u found ns uid) (one ns uid)
      ]

  Step-OneJobEach : {w w' : C.World} → Step w w' → OneJobEach C K w → OneJobEach C K w'
  Step-OneJobEach {w} (reconciles namespace name) one = reconciled-OneJobEach namespace name w one
  Step-OneJobEach (others loss) one = λ ns uid. Loss-length (loss ns uid) (one ns uid)

-- Against a server that keeps Jobs, no object ever owns two Jobs if none does at the start: after any
-- number of reconciles of any objects, in any order, whatever else the server answers, and with
-- specs that others change and Jobs that others delete in between.
pub Reach-OneJobEach :
    (C : Cluster) (V : Semver) (F : Floats) (H : Hashing) (r : Reconciler C) (K : JobStore C)
    {w w' : C.World}
    → OneJobEach C K w
    → Reach C V F H r K w w'
    → OneJobEach C K w'
Reach-OneJobEach C V F H r K one here = one
Reach-OneJobEach C V F H r K one (later before step) =
    Step-OneJobEach C V F H r K step (Reach-OneJobEach C V F H r K one before)

module _ (C : Cluster) (V : Semver) (F : Floats) (H : Hashing) (r : Reconciler C) (K : JobStore C)
    (namespace name : String) (u : DbUpgrade) where
  -- The server gives an object that is still `u`, with a spec of the same hash.
  pub record StillThere (w : C.World) : Type 0 where
    pub read : DbUpgrade
    pub answer : (C.get_upgrade namespace name w).0 ≡ ok read
    pub same_object : IsObject read u.namespace u.uid
    pub same_job : expected_job_name H read ≡ expected_job_name H u

  -- Reconciles of one object whose spec stays, with what others do in between, which leaves its Jobs
  -- alone; the number counts the reconciles that change its Jobs.
  pub data Passes (w : C.World) : ℕ → C.World → Type 0 where
    nothing : Passes w 0 w
    idle :
        {n : ℕ} {w' : C.World}
        → Passes w n w'
        → jobs_of C K u.namespace u.uid (reconciled C V F H r namespace name w')
          ≡ jobs_of C K u.namespace u.uid w'
        → Passes w n (reconciled C V F H r namespace name w')
    change :
        {n : ℕ} {w' : C.World}
        → Passes w n w'
        → StillThere w'
        → jobs_of C K u.namespace u.uid (reconciled C V F H r namespace name w')
          ≢ jobs_of C K u.namespace u.uid w'
        → Passes w (suc n) (reconciled C V F H r namespace name w')
    elsewhere :
        {n : ℕ} {w' w'' : C.World}
        → Passes w n w'
        → jobs_of C K u.namespace u.uid w'' ≡ jobs_of C K u.namespace u.uid w'
        → Passes w n w''

  left : C.World → ℕ
  left w = moves_left (expected_job_name H u) (jobs_of C K u.namespace u.uid w)

  HasFew : C.World → Type 0
  HasFew w = length (jobs_of C K u.namespace u.uid w) ≤ 1

  change_step :
      (w : C.World)
      → StillThere w
      → HasFew w
      → jobs_of C K u.namespace u.uid (reconciled C V F H r namespace name w)
        ≢ jobs_of C K u.namespace u.uid w
      → HasFew (reconciled C V F H r namespace name w)
        × (left (reconciled C V F H r namespace name w) < left w)
  unfolding left HasFew
  change_step w there one changed =
      let move =
        reconcile-Move C V F H r K namespace name w there.read there.answer u.namespace u.uid in
      (Move-length move one, rw (← there.same_job) (Move-moves_left move one changed))

  Passes-left :
      {w : C.World} {n : ℕ} {w' : C.World}
      → Passes w n w'
      → HasFew w
      → HasFew w' × (n + left w' ≤ left w)
  unfolding left HasFew
  Passes-left nothing one = (one, omega arith)
  Passes-left (idle before same) one =
      let (few, bound) = Passes-left before one in rw same (few, bound)
  Passes-left (elsewhere before same) one =
      let (few, bound) = Passes-left before one in rw same (few, bound)
  Passes-left (change {w'} before there changed) one =
      let (few, bound) = Passes-left before one in
      let (after, less) = change_step w' there few changed in (after, omega arith)

-- Against a server that keeps Jobs, the operator comes to rest on an object whose spec stays and that
-- owns one Job at most: of any number of its reconciles, at most two change its Jobs, whatever else the
-- server answers and whatever others do that leaves these Jobs alone.
pub changes_bound :
    (C : Cluster) (V : Semver) (F : Floats) (H : Hashing) (r : Reconciler C) (K : JobStore C)
    (namespace name : String) (u : DbUpgrade) (n : ℕ) (w w' : C.World)
    → length (jobs_of C K u.namespace u.uid w) ≤ 1
    → Passes C V F H r K namespace name u w n w'
    → n ≤ 2
unfolding left HasFew
changes_bound C V F H r K namespace name u n w w' one passes =
    let (_, bound) = Passes-left C V F H r K namespace name u passes one in
    omega (arith, bound, moves_left_bound (expected_job_name H u) (jobs_of C K u.namespace u.uid w))

-- Against a server that keeps Jobs, no reconcile gives up the only Job of an object if it is the Job of
-- the spec that the reconcile reads.
pub current_job_kept :
    (C : Cluster) (V : Semver) (F : Floats) (H : Hashing) (r : Reconciler C) (K : JobStore C)
    (namespace name : String) (w : C.World) (u : DbUpgrade)
    → (C.get_upgrade namespace name w).0 ≡ ok u
    → (ns uid : String) → jobs_of C K ns uid w ≡ expected_job_name H u ∷ []
    → jobs_of C K ns uid (reconciled C V F H r namespace name w) ≡ expected_job_name H u ∷ []
current_job_kept C V F H r K namespace name w u found ns uid only =
    Move-settled (rw only at (reconcile-Move C V F H r K namespace name w u found ns uid))
