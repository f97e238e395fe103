-- ===== src/Checks/Passing.antt =====
-- internal/checks: a list of checks passes only if every check of it has passed.
use automatic_db_upgrades.Common.{
  ℕ, String, Bool, true, List, [], ◌∷◌, ◌≡◌, inl, inr, refl, ap, length, All, Bool-cases,
}
use automatic_db_upgrades.Kube.Meta.{Result, ok, err}
use automatic_db_upgrades.Kube.Cluster.{Cluster}
use automatic_db_upgrades.Kube.Monad.{
  State, Outcome, done, panic, M, Holds, Ensures, >>=-Ensures, Ensures_mono,
}
use automatic_db_upgrades.Api.Types.{MinPodVersionCheck, MetricCheck}
use automatic_db_upgrades.Checks.Version.{Semver, check_single_pod_version, check_min_pod_versions}
use automatic_db_upgrades.Checks.Values.{Floats}
use automatic_db_upgrades.Checks.Metrics.{check_single_metric, check_metrics_from, check_metrics}

-- A run of the check, from some state on, has passed.
abbrev pub HasPassed : {W A : Type 0} → (A → Bool) → M W (Result String A) → Type 0
HasPassed {W} {A} passed m = (s : State W) × (r : A) × ((m s).0 ≡ done (ok r)) × (passed r ≡ true)

abbrev pub Always : {W : Type 0} → State W → Type 0
Always _ = Unit

-- Every result of a run is the result of a run.
abbrev IsResult : {W A : Type 0} → M W A → A → Type 0
IsResult {W} m a = (s : State W) × ((m s).0 ≡ done a)

IsResult-run :
    {W A : Type 0} (m : M W A) (s : State W) (o : Outcome A × State W)
    → m s ≡ o
    → Holds (Unit {0}) Always (IsResult m) o
IsResult-run m s (done a, t) e = (tt, (s, ap (λ o. o.0) e))
IsResult-run m s (panic, t) e = (tt, tt)

IsResult-Ensures : {W A : Type 0} (m : M W A) → Ensures Unit Always m (IsResult m)
IsResult-Ensures m s i = IsResult-run m s (m s) refl

-- A result that has passed shows `X`.
abbrev pub Shows : {A : Type 0} → (A → Bool) → Type 0 → Result String A → Type 0
Shows {A} passed X result = (r : A) → result ≡ ok r → passed r ≡ true → X

module _ (C : Cluster) (V : Semver) (namespace : String) where
  abbrev pub VersionPasses : MinPodVersionCheck → Type 0
  VersionPasses check = HasPassed (λ r. r.passed) (check_single_pod_version V C namespace check)

  pub check_min_pod_versions-Shows :
      (checks : List MinPodVersionCheck)
      → Ensures Unit Always
          (check_min_pod_versions V C namespace checks)
          (Shows (λ r. r.passed) (All VersionPasses checks))
  unfolding check_min_pod_versions
  check_min_pod_versions-Shows [] = λ s i. (tt, λ r e p. tt)
  check_min_pod_versions-Shows (check ∷ checks) =
      >>=-Ensures Unit Always (IsResult (check_single_pod_version V C namespace check))
        (Shows (λ r. r.passed) (All VersionPasses (check ∷ checks)))
        (check_single_pod_version V C namespace check) _
        (IsResult-Ensures (check_single_pod_version V C namespace check))
        (elim [
          | err e ↦ λ _ s i. (tt, λ r e' p. cc)
          | ok one ↦ λ from. elim (Bool-cases one.passed) [
            | inl good ↦ rw good (
                Ensures_mono Unit Always (Shows (λ r. r.passed) (All VersionPasses checks)) _ _
                  (λ result k r e p. ((from.0, one, from.1, good), k r e p))
                  (check_min_pod_versions-Shows checks))
            | inr bad ↦ rw bad (λ s i. (tt, λ r e p. cc (e, p)))
          ]
        ])

module _ (C : Cluster) (F : Floats) (namespace : String) where
  abbrev pub MetricPasses : MetricCheck → Type 0
  MetricPasses check = HasPassed (λ r. r.passed) (check_single_metric F C namespace check)

  check_metrics_from-Shows :
      (total : ℕ) (checks : List MetricCheck)
      → Ensures Unit Always
          (check_metrics_from F C namespace total checks)
          (Shows (λ r. r.passed) (All MetricPasses checks))
  unfolding check_metrics_from
  check_metrics_from-Shows total [] = λ s i. (tt, λ r e p. tt)
  check_metrics_from-Shows total (check ∷ checks) =
      >>=-Ensures Unit Always (IsResult (check_single_metric F C namespace check))
        (Shows (λ r. r.passed) (All MetricPasses (check ∷ checks)))
        (check_single_metric F C namespace check) _
        (IsResult-Ensures (check_single_metric F C namespace check))
        (elim [
          | err e ↦ λ _ s i. (tt, λ r e' p. cc)
          | ok one ↦ λ from. elim (Bool-cases one.passed) [
            | inl good ↦ rw good (
                Ensures_mono Unit Always (Shows (λ r. r.passed) (All MetricPasses checks)) _ _
                  (λ result k r e p. ((from.0, one, from.1, good), k r e p))
                  (check_metrics_from-Shows total checks))
            | inr bad ↦ rw bad (λ s i. (tt, λ r e p. cc (e, p)))
          ]
        ])

  pub check_metrics-Shows :
      (checks : List MetricCheck)
      → Ensures Unit Always
          (check_metrics F C namespace checks)
          (Shows (λ r. r.passed) (All MetricPasses checks))
  unfolding check_metrics
  check_metrics-Shows checks = check_metrics_from-Shows (length checks) checks
