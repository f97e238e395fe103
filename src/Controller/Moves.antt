-- ===== src/Controller/Moves.antt =====
-- controllers/dbupgrade_controller.go: against a server that keeps Jobs, every stage of a reconcile
-- moves the Jobs of every object as the life cycle allows.
use automatic_db_upgrades.Common.{
  String, Option, none, some, List, ◌≡◌, sym, ap, subst, ◌&&◌, ◌∙◌, Bool-cases, inl, inr, is_none,
}
use automatic_db_upgrades.Kube.Objects.{Secret, Job}
use automatic_db_upgrades.Kube.Meta.{Result, ok, err, Result-cases}
use automatic_db_upgrades.Kube.Cluster.{Cluster}
use automatic_db_upgrades.Kube.Monad.{M, State, Outcome, done, panic, ◌>>=◌, and_then}
use automatic_db_upgrades.Kube.Calm.{KeepsView}
use automatic_db_upgrades.Api.Types.{DbUpgrade}
use automatic_db_upgrades.Checks.Version.{Semver}
use automatic_db_upgrades.Checks.Values.{Floats}
use automatic_db_upgrades.Controller.Result.{ReconcileResult, Reconciler}
use automatic_db_upgrades.Controller.Jobs.{Hashing, find_job, get_job_for_upgrade}
use automatic_db_upgrades.Controller.Secrets.{
  is_self_hosted, is_aws, validate_secret, ensure_migration_secret,
}
use automatic_db_upgrades.Controller.Reconcile.{
  with_found, with_secret, validated, reconcile_upgrade, finish, with_upgrade,
}
use automatic_db_upgrades.Controller.CalmSecrets.{
  validate_secret-Steady, ensure_migration_secret-Steady,
}
use automatic_db_upgrades.Controller.CalmChecks.{finish-Steady}
use automatic_db_upgrades.Controller.Lifecycle.{stay, Move-of_eq}
use automatic_db_upgrades.Controller.JobStore.{JobStore, owned-find_job}
use automatic_db_upgrades.Controller.Moving.{IsObject, Allowed, shift, Moves-bind, with_job-Moves}
use automatic_db_upgrades.Controller.Moving

module _ (C : Cluster) (V : Semver) (F : Floats) (H : Hashing) (r : Reconciler C) (K : JobStore C)
    (u : DbUpgrade) (namespace uid : String) where
  abbrev names : C.World → List String
  names = Moving.names C V F H r K u namespace uid

  abbrev calm : KeepsView C names
  calm = Moving.calm C V F H r K u namespace uid

  abbrev Leads : {A : Type 0} → (List String → Type 0) → M C.World A → Type 0
  Leads = Moving.Leads C V F H r K u namespace uid

  abbrev Anything : List String → Type 0
  Anything _ = Unit

  abbrev IsFree : List String → Type 0
  IsFree = Moving.IsFree C V F H r K u namespace uid

  with_found-Moves :
      (secret : Secret) (found : Result String (Option Job))
      → Leads (λ js. found ≡ ok none → IsFree js) (with_found C V F H r u secret found)
  unfolding with_found
  with_found-Moves secret (err e) = λ s _. stay
  with_found-Moves secret (ok found) =
      λ s free. with_job-Moves C V F H r K u namespace uid secret found s (λ e. free (ap ok e))

  ok-injective : {a b : Option Job} → ◌≡◌ {A = Result String (Option Job)} (ok a) (ok b) → a ≡ b
  ok-injective e = cc

  -- What the server lists is what the object owns.
  IsFree-listed :
      (w : C.World) (js : List Job)
      → (C.list_jobs u.namespace w).0 ≡ ok js
      → find_job u.uid js ≡ none
      → IsFree (names w)
  IsFree-listed w js answer none_found own =
      rw (own.same_namespace, own.same_uid)
        (sym (K.listed u.namespace u.uid w js answer) ∙ owned-find_job u.uid js none_found)

  searched-Moves :
      (secret : Secret) → Leads Anything (get_job_for_upgrade C u >>= with_found C V F H r u secret)
  unfolding get_job_for_upgrade with_found
  searched-Moves secret s p =
      let after : State C.World = record {
        world = (C.list_jobs u.namespace s.world).1;
        trace = s.trace;
      } in
      let unchanged = calm.list_jobs u.namespace s.world in
      elim (Result-cases (C.list_jobs u.namespace s.world).0) [
        | inl (e, failed) ↦ rw failed (Move-of_eq unchanged)
        | inr (js, answer) ↦ rw answer (
            shift C V F H r K u namespace uid unchanged (
              with_found-Moves secret (ok (find_job u.uid js)) after
                (λ e own. unchanged ∙ IsFree-listed s.world js answer (ok-injective e) own)))
      ]

  with_secret-Moves : (got : Result String Secret) → Leads Anything (with_secret C V F H r u got)
  unfolding with_secret
  with_secret-Moves (err e) = λ s _. stay
  with_secret-Moves (ok secret) = searched-Moves secret

  validated-Moves : (bad : Option String) → Leads Anything (validated C V F H r u bad)
  unfolding validated
  validated-Moves (some e) = λ s _. stay
  validated-Moves none =
      elim (Bool-cases (is_aws u.spec.database.kind && is_none u.spec.database.aws)) [
        | inl missing ↦ rw (validated, missing) (λ s _. stay)
        | inr there ↦
            rw (validated, there)
              (Moves-bind C V F H r K u namespace uid Anything
                (ensure_migration_secret C r.aws_client_manager u) (with_secret C V F H r u)
                (ensure_migration_secret-Steady C names calm u r.aws_client_manager)
                with_secret-Moves)
      ]

  reconcile_upgrade-Moves : Leads Anything (reconcile_upgrade C V F H r u)
  unfolding reconcile_upgrade
  reconcile_upgrade-Moves = elim (Bool-cases (is_self_hosted u.spec.database.kind)) [
    | inl hosted ↦
        rw (reconcile_upgrade, hosted)
          (Moves-bind C V F H r K u namespace uid Anything (validate_secret C u)
            (validated C V F H r u) (validate_secret-Steady C names calm u) validated-Moves)
    | inr other ↦ rw (reconcile_upgrade, other) (validated-Moves none)
  ]

  finished :
      (js : List String) (o : Outcome ReconcileResult × State C.World)
      → Allowed C V F H r K u namespace uid js (names o.1.world)
      → Allowed C V F H r K u namespace uid js (names (and_then o (finish C V F H r u)).1.world)
  finished js (panic, s) move = move
  finished js (done result, s) move =
      subst (λ after. Allowed C V F H r K u namespace uid js after)
        (sym (finish-Steady C names calm V F H r u result s)) move

  pub with_upgrade-Moves : Leads Anything (with_upgrade C V F H r (ok u))
  unfolding with_upgrade
  with_upgrade-Moves s p =
      finished (names s.world) (reconcile_upgrade C V F H r u s) (reconcile_upgrade-Moves s p)
